-- ===== src/Orchestrator.antt =====
-- backend/app/orchestrator/graph.py: the hooks over the controller, the read and the write path, and
-- the operations on jobs. A runtime stands for `config or load_config()`.
pub mod Merges
pub mod Stages
mod Examples
use meridian_logistics.Prelude.{
  ℕ, String, Bool, true, false, not, Option, none, some, List, [], ◌∷◌, ◌==◌, ◌||◌, if◌then◌else◌,
}
use meridian_logistics.Python.{Result, Exec, pure, ◌>>=◌, Dict, Value}
use meridian_logistics.Python.Json.{Json}
use meridian_logistics.Jobs.Status.{JobStatus, value}
use meridian_logistics.Jobs.Store.{Payload, JobState, JobStore, get_job}
use meridian_logistics.Jobs.Methods.{
  NewJob, create_job, start_job, prepare_result, complete_job, fail_job, bind_pending_response,
  refresh_job,
}
use meridian_logistics.Controller.Models.{ProtectedCore, ControllerCheckpoint}
use meridian_logistics.Controller.Precedence.{ControllerSignals}
use meridian_logistics.Controller.Policy.{RawSignal, Packet, Change, Question}
use meridian_logistics.Controller.Waves.{RawCandidate}
use meridian_logistics.Controller.Queue.{QueueDecision}
use meridian_logistics.Controller.Stages.{RawTruth}
use meridian_logistics.Controller.Runtime.{
  Runtime, Files, ControllerRouteResult, ControllerResumeResult, default_failure_signal,
  route_decision, record_stage_transition, resume, queue_terminal_or_runnable_state,
}
use meridian_logistics.Controller.Runtime.Closing.{finalize_queue}
use meridian_logistics.Controller.Runtime.Compress.{
  Strategy, CompressionEnvelope, prepare_compaction,
}
use meridian_logistics.Controller.Runtime.Requests.{
  review_required, repair_required, drift_review_required, parallel_research_required,
  parallel_repair_required, can_continue_with_parallel_repair, should_merge_parallel_result,
}
use meridian_logistics.Gateway.Idempotency.{Step}
use meridian_logistics.Gateway.Bookings.{Request, Booking, Context, World}
use meridian_logistics.Gateway.Booking.{execute_write_gateway}
use meridian_logistics.Reads.Tools.{ReadTools, ReadResult, execute_allowlisted_read}

-- The keyword arguments of a stage hook that become the signals; a failure signal is not among them.
pub record StageSignals : Type 0 where
  pub review_outcome : String
  pub validator_outcome : String
  pub triage_abort_requested : Bool
  pub concrete_failure : Bool

unfoldable pub controller_signals : StageSignals → ControllerSignals
controller_signals s = record {
  review_outcome = s.review_outcome;
  validator_outcome = s.validator_outcome;
  triage_abort_requested = s.triage_abort_requested;
  concrete_failure = s.concrete_failure;
  failure_signal = default_failure_signal;
}

unfoldable pub controller_route_decision :
    Runtime → String → String → StageSignals → ControllerRouteResult
unfolding controller_signals route_decision
controller_route_decision rt stage_name legacy_action s =
    route_decision rt stage_name legacy_action (controller_signals s)

unfoldable pub controller_stage_transition :
    Runtime
    → String
    → String
    → ProtectedCore
    → String
    → StageSignals
    → List String
    → String
    → Exec Files (Option ControllerCheckpoint)
unfolding controller_route_decision record_stage_transition
controller_stage_transition rt id stage_name core legacy_action s artifacts now =
    let route : ControllerRouteResult = controller_route_decision rt stage_name legacy_action s in
    record_stage_transition rt id stage_name core route artifacts none now

unfoldable pub controller_prepare_compaction :
    {S : Type 0}
    → Runtime
    → String
    → ProtectedCore
    → Strategy S
    → List (Dict Value)
    → List (Dict Value)
    → ℕ
    → String
    → Exec (Files × S) (Option (CompressionEnvelope × ControllerCheckpoint))
unfolding prepare_compaction
controller_prepare_compaction rt id fallback strategy halo recent trigger now =
    prepare_compaction rt id fallback strategy halo recent trigger now

unfoldable pub controller_resume :
    Runtime → String → ProtectedCore → Files → Result ControllerResumeResult
unfolding resume
controller_resume rt id fallback files = resume rt id fallback files

unfoldable pub controller_should_open_repair : RawSignal → Packet → Bool
controller_should_open_repair s p = repair_required s p

unfoldable pub controller_should_open_review : Change → Bool
controller_should_open_review c = review_required c

unfoldable pub controller_should_open_drift_review : Bool → Bool → Bool → Bool → Bool
controller_should_open_drift_review runs_longer plan_changed touched_multiple about_to_close =
    drift_review_required runs_longer plan_changed touched_multiple about_to_close

unfoldable pub controller_should_open_parallel_research : Question → Bool → Bool
controller_should_open_parallel_research q current_product_claim =
    parallel_research_required q current_product_claim

unfoldable pub controller_should_open_parallel_repair : RawSignal → Packet → Bool → Bool → Bool
controller_should_open_parallel_repair s p isolated_scope conflicts =
    parallel_repair_required s p isolated_scope conflicts

unfoldable pub controller_can_continue_while_repair_runs : Bool → Bool → Bool → Bool
controller_can_continue_while_repair_runs blocker_affects isolated_scope conflicts =
    can_continue_with_parallel_repair blocker_affects isolated_scope conflicts

unfoldable pub controller_should_merge_subagent_result : Bool → Bool → Bool → Bool
controller_should_merge_subagent_result requested mutates conflicts =
    should_merge_parallel_result requested mutates conflicts

-- The decision; its to_dict() is left out.
unfoldable pub controller_next_terminal_or_runnable_state :
    List (Dict Value) → Bool → Option RawCandidate → Bool → Result QueueDecision
unfolding queue_terminal_or_runnable_state
controller_next_terminal_or_runnable_state items blocker_packet_present candidate abort_requested =
    queue_terminal_or_runnable_state items blocker_packet_present candidate abort_requested

unfoldable pub controller_finalize_queue_state :
    Runtime
    → Option String
    → String
    → List (Dict Value)
    → Bool
    → Option RawCandidate
    → Option RawTruth
    → Bool
    → Exec Files QueueDecision
unfolding finalize_queue
controller_finalize_queue_state rt id wave items blocker candidate control abort_requested =
    finalize_queue rt id wave items blocker candidate control abort_requested

-- Of the permission context the executor reads only the office.
unfoldable pub execute_read_path :
    ReadTools → String → String → String → String → Option Json → Result ReadResult
unfolding execute_allowlisted_read
execute_read_path t prompt broker_id office_id role active_resource =
    execute_allowlisted_read t prompt office_id active_resource none none

unfoldable pub write_request : String → String → String → String → Request
write_request confirmation_token idempotency_key broker_id office_id = record {
  action_name = "booking_create_confirmed";
  confirmation_token = confirmation_token;
  idempotency_key = idempotency_key;
  actor_broker_id = broker_id;
  office_id = office_id;
}

unfoldable pub execute_write_path :
    String → String → String → String → String → Context → World → Step (Result Booking) × World
unfolding write_request execute_write_gateway
execute_write_path confirmation_token idempotency_key broker_id office_id role x w =
    execute_write_gateway (write_request confirmation_token idempotency_key broker_id office_id)
      (record { role = some role; office_id = some office_id; broker_id = some broker_id }) x w

unfoldable pub orchestrator_create_job : NewJob → String → Exec JobStore JobState
unfolding create_job
orchestrator_create_job n now = create_job n now

unfoldable pub orchestrator_start_job : String → String → String → Exec JobStore (Option JobState)
unfolding start_job
orchestrator_start_job k message now = start_job k message now

unfoldable pub orchestrator_prepare_job_result :
    String → Payload → String → Exec JobStore (Unit {0})
unfolding prepare_result
orchestrator_prepare_job_result k result now = prepare_result k result now

unfoldable pub orchestrator_complete_job :
    String → Payload → String → String → Exec JobStore (Option JobState)
unfolding complete_job
orchestrator_complete_job k result message now = complete_job k result message now

fail_found : String → String → String → Option JobState → Exec JobStore (Option JobState)
unfolding fail_job
fail_found k error now none = pure none
fail_found k error now (some job) = fail_job k error none now

unfoldable pub orchestrator_fail_job : String → String → String → Exec JobStore (Option JobState)
unfolding fail_found get_job
orchestrator_fail_job k error now = do found ← get_job k; fail_found k error now found

unfoldable pub orchestrator_bind_pending_response :
    String → String → String → Exec JobStore (Option JobState)
unfolding bind_pending_response
orchestrator_bind_pending_response k response now = bind_pending_response k response now

unfoldable pub orchestrator_get_job_status : String → Exec JobStore (Option JobState)
unfolding get_job
orchestrator_get_job_status k = get_job k

unfoldable pub orchestrator_refresh_job : String → String → Exec JobStore (Option JobState)
unfolding refresh_job
orchestrator_refresh_job k now = refresh_job k now

-- job.status in (...), where a status is its value
unfoldable pub status_in : List String → JobStatus → Bool
unfolding value
status_in [] s = false
status_in (v ∷ vs) s = value s == v || status_in vs s

is_terminal_found : Option JobState → Bool
unfolding status_in
is_terminal_found none = true
is_terminal_found (some job) =
    status_in ("succeeded" ∷ "failed" ∷ "cancelled" ∷ "expired" ∷ []) job.status

unfoldable pub orchestrator_job_is_terminal : String → Exec JobStore Bool
unfolding is_terminal_found get_job
orchestrator_job_is_terminal k = do found ← get_job k; pure (is_terminal_found found)

is_running_found : Option JobState → Bool
unfolding status_in
is_running_found none = false
is_running_found (some job) = status_in ("queued" ∷ "running" ∷ []) job.status

unfoldable pub orchestrator_job_is_running : String → Exec JobStore Bool
unfolding is_running_found get_job
orchestrator_job_is_running k = do found ← get_job k; pure (is_running_found found)

can_merge_found : Bool → Bool → Bool → Option JobState → Bool
unfolding value controller_should_merge_subagent_result
can_merge_found requested mutates conflicts none = false
can_merge_found requested mutates conflicts (some job) =
    if not (value job.status == "succeeded")
    then false
    else controller_should_merge_subagent_result requested mutates conflicts

can_merge_terminal : String → Bool → Bool → Bool → Bool → Exec JobStore Bool
unfolding can_merge_found get_job
can_merge_terminal k requested mutates conflicts terminal s =
    if not terminal
    then pure false s
    else (do found ← get_job k; pure (can_merge_found requested mutates conflicts found)) s

unfoldable pub orchestrator_can_merge_job_result : String → Bool → Bool → Bool → Exec JobStore Bool
unfolding can_merge_terminal orchestrator_job_is_terminal
orchestrator_can_merge_job_result k requested mutates conflicts = do
  terminal ← orchestrator_job_is_terminal k
  can_merge_terminal k requested mutates conflicts terminal
