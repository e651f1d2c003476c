-- ===== src/Autonomy/Service.antt =====
-- backend/app/autonomy/service.py: `BoundedAutonomyService`. It keeps the checkpoint of a run in the
-- checkpoint directory, under the id of the job.
use Prim.Native.String.{◌++◌}
use text.Mathlib.Text.{find?}
use meridian_logistics.Prelude.{
  ℕ, zero, suc, String, Bool, true, false, not, Option, none, some, List, [], ◌∷◌, ◌&&◌, ◌||◌, leb,
  if◌then◌else◌,
}
use meridian_logistics.Python.{
  key_error, type_error, Result, ok, err, Exec, pure, modify, ◌>>◌, and_then, get,
}
use meridian_logistics.Controller.Models.{
  ProtectedCore, ControllerCheckpoint, QueueState, checkpoint_from_dict,
}
use meridian_logistics.Controller.Runtime.{
  AppConfig, Runtime, File, unreadable, document, Files, write_checkpoint, default_failure_signal,
  no_compaction, by_controller,
}
use meridian_logistics.Autonomy.Models.{
  AutonomyJobMetadata, poll_driven, async_read_refresh, StepKind, execute_allowlisted_read,
  complete_job, fail_job, StepOutcome, step_value,
}

unfoldable pub is_enabled : AppConfig → Bool
is_enabled c =
    c.running_autonomy_enabled && c.controller_checkpoints_enabled
    && c.controller_precedence_enabled

-- token in prompt
occurs : String → String → Bool
occurs token prompt = elim (find? prompt token) [ none ↦ false | some _ ↦ true ]

unfoldable pub mentions_any : List String → String → Bool
unfolding occurs
mentions_any [] prompt = false
mentions_any (token ∷ tokens) prompt = occurs token prompt || mentions_any tokens prompt

-- `lower` is `str.lower`.
unfoldable pub is_eligible_for_autonomy : (String → String) → AppConfig → String → Bool → Bool
unfolding is_enabled mentions_any
is_eligible_for_autonomy lower c prompt is_async_refresh =
    if not (is_enabled c)
    then false
    else if not is_async_refresh
    then false
    else if mentions_any ("book" ∷ "confirm" ∷ "approve" ∷ "reject" ∷ []) (lower prompt)
    then false
    else true

abbrev pub seed_core : ProtectedCore
seed_core = record {
  task_goal = "Execute background analytics refresh for exceptions";
  expected_output = "Updated exception report with current data";
  current_step = "seed_context";
  resume_point = "seed";
  hard_constraints = "read_only" ∷ "bounded_autonomy" ∷ [];
  business_invariants = "no_writes" ∷ "confirmation_required_for_changes" ∷ [];
}

abbrev pub seed_queue : QueueState
seed_queue = record {
  wave_name = "async_read_refresh";
  status = "active";
  run_policy = "bounded";
  eligible = true;
  requires_explicit_request = false;
  approval_authority = "system";
}

-- `now` is the default of `created_at`.
unfoldable pub seed_checkpoint : String → String → ControllerCheckpoint
seed_checkpoint job_id now = record {
  checkpoint_id = job_id ++ ":seed";
  protected_core = seed_core;
  compaction = no_compaction "none";
  validated_artifacts = [];
  active_failure_signal = default_failure_signal;
  controller_last_decision = by_controller "continue" "seed_autonomy_run";
  queue = some seed_queue;
  terminal_state = none;
  created_at = now;
  checkpoint_version = "0.1.0";
}

unfoldable pub seed_metadata : AppConfig → String → AutonomyJobMetadata
seed_metadata c job_id = record {
  mode = poll_driven;
  task_kind = async_read_refresh;
  checkpoint_id = job_id ++ ":seed";
  step_index = 0;
  step_budget = c.running_autonomy_max_steps;
  last_controller_action = "seed";
}

-- The session, the prompt and the owner are only logged.
unfoldable pub seed_autonomy_run :
    AppConfig → String → String → Exec Files (Option (AutonomyJobMetadata × ControllerCheckpoint))
unfolding is_enabled seed_checkpoint seed_metadata write_checkpoint
seed_autonomy_run config job_id now files =
    if not (is_enabled config)
    then pure none files
    else (do
      let checkpoint = seed_checkpoint job_id now
      modify (write_checkpoint job_id checkpoint)
      pure (some (seed_metadata config job_id, checkpoint)))
        files

-- except (json.JSONDecodeError, KeyError, TypeError): return None
fail_soft : Result ControllerCheckpoint → Result (Option ControllerCheckpoint)
fail_soft (ok c) = ok (some c)
fail_soft (err (key_error k)) = ok none
fail_soft (err type_error) = ok none
fail_soft (err e) = err e

load_file : Runtime → Option File → Result (Option ControllerCheckpoint)
unfolding fail_soft
load_file rt none = ok none
load_file rt (some unreadable) = ok none
load_file rt (some (document j)) = fail_soft (checkpoint_from_dict rt.reader j)

-- It does not ask the contract of a checkpoint.
unfoldable pub load_checkpoint : Runtime → String → Files → Result (Option ControllerCheckpoint)
unfolding load_file
load_checkpoint rt job_id files = load_file rt (get files job_id)

abbrev pub failure : String → StepOutcome
failure message = record {
  step_kind = fail_job;
  next_step_kind = none;
  is_terminal = true;
  error_message = some message;
  result_payload = none;
}

abbrev pub success : StepKind → Option StepKind → StepOutcome
success kind next = record {
  step_kind = kind;
  next_step_kind = next;
  is_terminal = true;
  error_message = none;
  result_payload = none;
}

unfoldable pub step_at : ℕ → Option String → StepOutcome
step_at i (some state) = success complete_job none
step_at zero none = success execute_allowlisted_read (some complete_job)
step_at (suc i) none = success complete_job none

unfoldable pub step_on : AutonomyJobMetadata → Option ControllerCheckpoint → StepOutcome
unfolding step_at
step_on m none = failure "Checkpoint missing"
step_on m (some c) = step_at m.step_index c.terminal_state

unfoldable pub resume_one_step : Runtime → String → AutonomyJobMetadata → Files → Result StepOutcome
unfolding is_enabled load_checkpoint step_on
resume_one_step rt job_id m files =
    if not (is_enabled rt.config)
    then ok (failure "Autonomy not enabled")
    else if leb m.step_budget m.step_index
    then ok (failure "Step budget exhausted")
    else and_then (load_checkpoint rt job_id files) λ checkpoint. ok (step_on m checkpoint)

abbrev pub stepped : AutonomyJobMetadata → StepOutcome → AutonomyJobMetadata
stepped m outcome = record m {
  step_index = suc m.step_index;
  last_controller_action = step_value outcome.step_kind;
}

-- It writes nothing: the caller stores the metadata.
unfoldable pub advance_step :
    Runtime → String → AutonomyJobMetadata → Files → Result (AutonomyJobMetadata × StepOutcome)
unfolding resume_one_step step_value
advance_step rt job_id m files =
    and_then (resume_one_step rt job_id m files) λ outcome. ok (stepped m outcome, outcome)
