-- ===== src/Api/Examples.antt =====
-- Runs of the routes of the jobs on a concrete job and its session.
use meridian_logistics.Prelude.{◌≡◌, refl, true, none, some, [], ◌∷◌, arith}
use meridian_logistics.Python.{Result, ok, err, value_error, text, get, str, Dict}
use meridian_logistics.Python.Json.{Json}
use meridian_logistics.Table.{select_one}
use meridian_logistics.Jobs.Status.{
  running, succeeded, failed, cancelled, value, from_string, is_terminal_status,
}
use meridian_logistics.Jobs.Store.{Payload, JobRow, row, to_state, row_to_job, set_rows}
use meridian_logistics.Jobs.Methods.{cancel_set}
use meridian_logistics.Jobs.Polling.{IsCompleted}
use meridian_logistics.Jobs.Documents.{to_api_dict}
use meridian_logistics.Session.{SessionState, SessionRow, get_session}
use meridian_logistics.Controller.Runtime.{Runtime}
use meridian_logistics.Autonomy.Models.{AutonomyJobMetadata, metadata_to_dict}
use meridian_logistics.Autonomy.Service.{
  is_enabled, seed_autonomy_run, seed_metadata, seed_checkpoint,
}
use meridian_logistics.Autonomy.Bounds.{seed_loads}
use meridian_logistics.Api.Jobs.{App, Clock, get_job, cancel_job}
use meridian_logistics.Api.Polls.{IsUnderWay, poll_completes_run}
use meridian_logistics.Api.Failures.{exhausted, exhausted_run_fails}
use meridian_logistics.Api.Refusals.{Opened, IsPromoted, cancel_job_answers, terminal_poll_promotes}

abbrev runtime : Runtime
runtime = record {
  config = record {
    controller_checkpoints_enabled = true;
    controller_precedence_enabled = true;
    running_autonomy_enabled = true;
    running_autonomy_max_steps = 4;
  };
  reader = record { shown = λ j. "[]"; int_of = λ s. err (value_error s) };
  is_valid = λ j. true;
  key_of = λ s. s;
}

enabled : is_enabled runtime.config ≡ true
unfolding is_enabled
enabled = refl

abbrev clock : Clock
clock = record { annotated = "t2"; failed = "t3"; refreshed = "t4"; promoted = "t5" }

abbrev result : Payload
result = ("response_id", text "response-2") ∷ ("summary", text "Done.") ∷ []

abbrev metadata : AutonomyJobMetadata
metadata = seed_metadata runtime.config "job-1"

abbrev used_up : AutonomyJobMetadata
used_up = record metadata { step_index = 4; step_budget = 4 }

abbrev job : JobRow
job = record {
  job_id = "job-1";
  session_id = "session-1";
  office_id = "memphis";
  broker_id = "broker-123";
  job_kind = "analytics_refresh";
  job_status = "running";
  progress_message = "Refreshing.";
  retry_allowed = true;
  pending_response_id = some "response-1";
  completed_response_id = none;
  prepared_result_payload = some result;
  result_payload = none;
  job_poll_token = some "token-1";
  completion_refreshes_remaining = some 2;
  completion_ready_at = none;
  created_at = "t0";
  updated_at = "t1";
  completed_at = none;
  error_message = none;
  failed_at = none;
  autonomy_metadata = some (metadata_to_dict metadata);
}

abbrev session : SessionRow
session = record {
  session_id = "session-1";
  session_access_token = "access-1";
  broker_id = "broker-123";
  office_id = "memphis";
  role = "broker";
  current_module = "dispatch";
  conversation_scope = "global";
  context_binding_state = "unbound";
  screen_sync_state = "not_applicable";
  active_resource_type = none;
  active_resource_id = none;
  active_resource_fingerprint = none;
  last_response_id = some "response-1";
  last_job_id = none;
  created_at = "t0";
  updated_at = "t0";
}

abbrev app : JobRow → App
app r = record {
  job_store = record { jobs = r ∷ []; completion_refresh_polls = 2 };
  session_store = record { sessions = session ∷ []; counters = [] };
  files = (seed_autonomy_run runtime.config "job-1" "t0" []).1;
}

under_way : IsUnderWay runtime "job-1" (app job) job result (text "response-2") metadata
under_way = record {
  found = unfold select_one in refl;
  prepared = record {
    is_running = unfold value in refl;
    prepared = refl;
    response_id = unfold get in refl;
  };
  annotated = refl;
  enabled = enabled;
  left = unfold seed_metadata in omega arith;
  checkpoint = (seed_checkpoint "job-1" "t0", seed_loads runtime "job-1" "t0" [] enabled);
}

poll_completes_run_example :
    let after : Result (Dict Json) × App = get_job ok runtime "job-1" "token-1" clock (app job) in
    (r' : JobRow) × (after.0 ≡ ok (to_api_dict (to_state r' succeeded)))
    × (row "job-1" after.1.job_store ≡ some r')
    × IsCompleted r' result (text "response-2")
    × ((s : SessionState) × (get_session "session-1" after.1.session_store ≡ some s)
        × (s.last_response_id ≡ some "response-2")
        × (s.last_job_id ≡ some "job-1"))
unfolding str
poll_completes_run_example =
    poll_completes_run ok runtime "job-1" "token-1" "response-1" clock (app job) job result
      (text "response-2") metadata session under_way refl refl (unfold select_one in refl) refl

abbrev exhausted_job : JobRow
exhausted_job = record job { autonomy_metadata = some (metadata_to_dict used_up) }

exhausted_run_fails_example :
    let after : Result (Dict Json) × App =
      get_job ok runtime "job-1" "token-1" clock (app exhausted_job) in
    (r' : JobRow) × (after.0 ≡ ok (to_api_dict (to_state r' failed)))
    × (row "job-1" after.1.job_store ≡ some r')
    × (r'.job_status ≡ value failed)
    × (r'.error_message ≡ some exhausted)
    × (after.1.session_store ≡ (app exhausted_job).session_store)
    × (after.1.files ≡ (app exhausted_job).files)
exhausted_run_fails_example =
    exhausted_run_fails runtime "job-1" "token-1" clock (app exhausted_job) exhausted_job used_up
      (record {
        found = unfold select_one in refl;
        has_it = refl;
        is_running = unfold value in refl;
        incomplete = refl;
        annotated = refl;
        enabled = enabled;
        used_up = omega arith;
      })
      ok

opens : Opened "job-1" "token-1" (app job) job (to_state job running)
opens = record {
  found = unfold select_one in refl;
  has_it = refl;
  read = unfold row_to_job from_string in refl;
}

cancel_job_answers_example : cancel_job ok "job-1" "token-1" "t2" (app job) ≡ (
  ok (to_api_dict (to_state (cancel_set "Job cancelled." "t2" job) cancelled)),
  record (app job) {
    job_store = set_rows "job-1" (cancel_set "Job cancelled." "t2") (app job).job_store;
  },
)
unfolding is_terminal_status
cancel_job_answers_example =
    cancel_job_answers ok "job-1" "token-1" "t2" (app job) job (to_state job running) opens

abbrev ended_job : JobRow
ended_job = record job {
  job_status = "succeeded";
  completed_response_id = some "response-2";
  result_payload = some result;
}

terminal_poll_promotes_example :
    ((get_job ok runtime "job-1" "token-1" clock (app ended_job)).0
      ≡ ok (to_api_dict (to_state ended_job succeeded)))
    × IsPromoted
        (to_state ended_job succeeded)
        "session-1"
        (app ended_job)
        (get_job ok runtime "job-1" "token-1" clock (app ended_job)).1
terminal_poll_promotes_example =
    terminal_poll_promotes ok runtime "job-1" "token-1" clock (app ended_job) ended_job
      (to_state ended_job succeeded) "session-1"
      (record {
        found = unfold select_one in refl;
        has_it = refl;
        read = unfold row_to_job from_string in refl;
      })
      (unfold is_terminal_status in refl)
