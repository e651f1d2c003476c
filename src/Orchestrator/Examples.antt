-- ===== src/Orchestrator/Examples.antt =====
-- Runs of the orchestrator on a concrete job and a concrete stage.
use meridian_logistics.Prelude.{
  String, ◌≡◌, ◌≢◌, refl, ◌↔◌, true, false, none, some, [], ◌∷◌, if◌then◌else◌,
}
use meridian_logistics.Python.{ok, err, value_error, get}
use meridian_logistics.Table.{select_one}
use meridian_logistics.Jobs.Status.{pending, from_string, is_terminal_status}
use meridian_logistics.Jobs.Store.{JobRow, JobStore, row_to_job, to_state}
use meridian_logistics.Controller.Models.{ControllerCheckpoint, checkpoint_to_dict}
use meridian_logistics.Controller.Precedence.{resolve_controller_action}
use meridian_logistics.Controller.Runtime.{
  Runtime, empty_core, no_checkpoint, load_checkpoint, queue_of,
}
use meridian_logistics.Controller.Runtime.Resume.{resumed, resumed_queue}
use meridian_logistics.Orchestrator.{
  StageSignals, controller_signals, controller_stage_transition, controller_resume,
  orchestrator_job_is_terminal, orchestrator_job_is_running, orchestrator_can_merge_job_result,
}
use meridian_logistics.Orchestrator.Merges.{
  HasStatus, MayMerge, is_running_status, job_checks, can_merge_iff,
}
use meridian_logistics.Orchestrator.Stages.{stage_transition_resumes}

abbrev job : String → JobRow
job status = record {
  job_id = "job-1";
  session_id = "session-1";
  office_id = "memphis";
  broker_id = "broker-123";
  job_kind = "analytics_refresh";
  job_status = status;
  progress_message = "Queued.";
  retry_allowed = true;
  pending_response_id = none;
  completed_response_id = none;
  prepared_result_payload = none;
  result_payload = none;
  job_poll_token = some "token-1";
  completion_refreshes_remaining = none;
  completion_ready_at = none;
  created_at = "t0";
  updated_at = "t0";
  completed_at = none;
  error_message = none;
  failed_at = none;
  autonomy_metadata = none;
}

abbrev store : String → JobStore
store status = record { jobs = job status ∷ []; completion_refresh_polls = 2 }

is_pending : HasStatus "job-1" (store "pending") pending
unfolding select_one row_to_job from_string
is_pending = record {
  its_row = job "pending";
  job = to_state (job "pending") pending;
  found = refl;
  read = refl;
  status = refl;
}

job_checks_example :
    (orchestrator_job_is_terminal "job-1" (store "pending") ≡ (ok false, store "pending"))
    × (orchestrator_job_is_running "job-1" (store "pending") ≡ (ok false, store "pending"))
unfolding is_terminal_status is_running_status
job_checks_example = job_checks "job-1" (store "pending") pending is_pending

can_merge_iff_example :
    ((orchestrator_can_merge_job_result "job-1" true false false (store "succeeded")).0 ≡ ok true)
    ↔ MayMerge "job-1" (store "succeeded") true false false
can_merge_iff_example = can_merge_iff "job-1" (store "succeeded") true false false

abbrev runtime : Runtime
runtime = record {
  config = record {
    controller_checkpoints_enabled = true;
    controller_precedence_enabled = true;
    running_autonomy_enabled = true;
    running_autonomy_max_steps = 4;
  };
  reader = record { shown = λ j. "[]"; int_of = λ s. err (value_error s) };
  is_valid = λ j. true;
  key_of = λ s. s;
}

-- The triage asks to abort.
abbrev signals : StageSignals
signals = record {
  review_outcome = "none";
  validator_outcome = "unknown";
  triage_abort_requested = true;
  concrete_failure = false;
}

stage_transition_resumes_example :
    let t =
      controller_stage_transition runtime "session-1" "build" empty_core "abort" signals [] "t1"
        [] in
    let decision = resolve_controller_action (controller_signals signals) in
    (c : ControllerCheckpoint) × (t.0 ≡ ok (some c))
    × (c.terminal_state ≡ none)
    × (c.controller_last_decision ≡ decision)
    × (decision.action ≢ "abort")
    × (c.queue ≡ none)
    × ((resumed c).decision ≡ resumed_queue decision none)
    × (controller_resume runtime "session-1" empty_core t.1
        ≡ ok (
            if runtime.is_valid (checkpoint_to_dict c)
            then resumed c
            else no_checkpoint empty_core "checkpoint_packet_invalid_fail_soft"))
unfolding queue_of
stage_transition_resumes_example =
    stage_transition_resumes runtime "session-1" "build" empty_core empty_core "abort" signals []
      "t1" [] (no_checkpoint empty_core "checkpoint_missing_fail_soft") refl refl
      (unfold load_checkpoint get in refl)
