-- ===== src/Controller/Runtime.antt =====
-- backend/app/controller/runtime.py and strategies.py: the runtime that keeps a checkpoint for each
-- session. A checkpoint file is what `json.loads` makes of it; the clock is an argument.
pub mod Resume
pub mod Stops
pub mod Compaction
pub mod Closing
pub mod Compress
pub mod Requests
mod Examples
use Prim.Native.String.{◌++◌}
use meridian_logistics.Prelude.{
  ℕ, suc, ◌+◌, String, Bool, true, false, not, Option, none, some, List, [], ◌∷◌, map, ◌==◌, ◌&&◌,
  ◌||◌, option_map, if◌then◌else◌,
}
use meridian_logistics.Python.{
  Result, ok, err, Exec, pure, lift, gets, modify, ◌>>=◌, ◌>>◌, and_then, Value, null, bool, text,
  number, Dict, get, put, item, str, truth, get_flag, get_text, or_default,
}
use meridian_logistics.Python.Json.{Json, Reader}
use meridian_logistics.Controller.Models.{
  ProtectedCore, FailureSignal, ControllerDecision, CompactionState, QueueState,
  ControllerCheckpoint, checkpoint_to_dict, checkpoint_from_dict, core_to_dict,
}
use meridian_logistics.Controller.Precedence.{ControllerSignals, resolve_controller_action}
use meridian_logistics.Controller.Waves.{RawItem, StageCandidate, RawCandidate, Wave}
use meridian_logistics.Controller.Queue.{
  Action, continue, action_value, QueueDecision, next_terminal_or_runnable_state,
  finalize_queue_state,
}
use meridian_logistics.Controller.Stages.{RawTruth, derive_next_stage_candidate}

-- The flags of backend/app/config.py that the controller and the autonomy service read.
pub record AppConfig : Type 0 where
  pub controller_checkpoints_enabled : Bool
  pub controller_precedence_enabled : Bool
  pub running_autonomy_enabled : Bool
  pub running_autonomy_max_steps : ℕ

-- A ControllerRuntime, with the validator of its contract and what Python gives it.
pub record Runtime : Type 0 where
  pub config : AppConfig
  pub reader : Reader
  pub is_valid : Json → Bool
  pub key_of : String → String

pub data File : Type 0 where
  unreadable : File
  document : Json → File

-- The checkpoint directory, by the name of a file before ".json".
abbrev pub Files : Type 0
Files = Dict File

pub record ControllerRouteResult : Type 0 where
  pub authoritative : ControllerDecision
  pub legacy_decision : ControllerDecision
  pub new_decision : Option ControllerDecision
  pub decisions_differ : Bool
  pub difference_reason : String

pub record ControllerResumeResult : Type 0 where
  pub protected_core : ProtectedCore
  pub decision : ControllerDecision
  pub checkpoint : Option ControllerCheckpoint

abbrev pub by_controller : String → String → ControllerDecision
by_controller action reason = record { action = action; reason = reason; source = "controller" }

unfoldable pub route_decision :
    Runtime → String → String → ControllerSignals → ControllerRouteResult
route_decision rt stage_name legacy_action signals =
    let legacy = by_controller legacy_action ("legacy_" ++ stage_name ++ "_route") in
    let new = resolve_controller_action signals in
    let differ = not (legacy.action == new.action) in
    if not rt.config.controller_precedence_enabled
    then record {
      authoritative = legacy;
      legacy_decision = legacy;
      new_decision = none;
      decisions_differ = false;
      difference_reason = "precedence_flag_disabled";
    }
    else record {
      authoritative = new;
      legacy_decision = legacy;
      new_decision = some new;
      decisions_differ = differ;
      difference_reason =
          if differ
          then "authoritative_action_changed_by_precedence"
          else "legacy_and_new_actions_match";
    }

abbrev pub empty_core : ProtectedCore
empty_core = record {
  task_goal = "";
  expected_output = "";
  current_step = "";
  resume_point = "";
  hard_constraints = [];
  business_invariants = [];
}

-- A result without a checkpoint, which asks for a review.
abbrev pub no_checkpoint : ProtectedCore → String → ControllerResumeResult
no_checkpoint core reason = record {
  protected_core = core;
  decision = by_controller "review" reason;
  checkpoint = none;
}

abbrev pub loaded_with : ControllerCheckpoint → ControllerResumeResult
loaded_with c = record {
  protected_core = c.protected_core;
  decision = c.controller_last_decision;
  checkpoint = some c;
}

load_file : Runtime → Option File → Result ControllerResumeResult
load_file rt none = ok (no_checkpoint empty_core "checkpoint_missing_fail_soft")
load_file rt (some unreadable) = ok (no_checkpoint empty_core "checkpoint_unreadable_fail_soft")
load_file rt (some (document j)) =
    if rt.is_valid j
    then and_then (checkpoint_from_dict rt.reader j) (λ c. ok (loaded_with c))
    else ok (no_checkpoint empty_core "checkpoint_packet_invalid_fail_soft")

unfoldable pub load_checkpoint : Runtime → String → Files → Result ControllerResumeResult
unfolding load_file
load_checkpoint rt id files =
    if not rt.config.controller_checkpoints_enabled
    then ok (no_checkpoint empty_core "checkpoint_flag_disabled")
    else load_file rt (get files id)

-- _write_checkpoint
unfoldable pub write_checkpoint : String → ControllerCheckpoint → Files → Files
write_checkpoint id c files = put files id (document (checkpoint_to_dict c))

-- _default_failure_signal
abbrev pub default_failure_signal : FailureSignal
default_failure_signal = record {
  kind = "none";
  severity = "none";
  source = "controller";
  details = none;
}

abbrev pub no_compaction : String → CompactionState
no_compaction name = record {
  strategy_name = name;
  compaction_sequence = 0;
  halo_summary = "";
  recent_turn_ids = [];
  drift_status = "stable";
}

compaction_of : Option ControllerCheckpoint → CompactionState
compaction_of none = no_compaction "none"
compaction_of (some c) = c.compaction

unfoldable pub queue_of : Option ControllerCheckpoint → Option QueueState
queue_of none = none
queue_of (some c) = c.queue

unfoldable pub stage_checkpoint :
    String
    → String
    → ProtectedCore
    → ControllerRouteResult
    → List String
    → Option FailureSignal
    → Option ControllerCheckpoint
    → String
    → ControllerCheckpoint
unfolding compaction_of queue_of
stage_checkpoint id stage_name core route artifacts failure current now = record {
  checkpoint_id = id ++ ":" ++ stage_name;
  protected_core = core;
  compaction = compaction_of current;
  validated_artifacts = artifacts;
  active_failure_signal = or_default failure default_failure_signal;
  controller_last_decision = route.authoritative;
  queue = queue_of current;
  terminal_state = if route.authoritative.action == "abort" then some "ABORTED" else none;
  created_at = now;
  checkpoint_version = "0.1.0";
}

unfoldable pub record_stage_transition :
    Runtime
    → String
    → String
    → ProtectedCore
    → ControllerRouteResult
    → List String
    → Option FailureSignal
    → String
    → Exec Files (Option ControllerCheckpoint)
record_stage_transition rt id stage_name core route artifacts failure now files =
    if not rt.config.controller_checkpoints_enabled
    then pure none files
    else (do
      loaded ← (λ fs. (load_checkpoint rt id fs, fs))
      let c = stage_checkpoint id stage_name core route artifacts failure loaded.checkpoint now
      modify (write_checkpoint id c)
      pure (some c))
        files

-- terminal_to_action.get(state, state)
unfoldable pub terminal_action : String → String
terminal_action s =
    if s == "DONE"
    then "done"
    else if s == "BLOCKED"
    then "blocked"
    else if s == "WAITING_USER_APPROVAL"
    then "waiting_user_approval"
    else if s == "ABORTED"
    then "aborted"
    else s

-- The one queue item that a checkpoint keeps, as the dict that `resume` makes of it.
unfoldable pub queue_item_of : QueueState → Dict Value
queue_item_of q =
    ("wave_name", text q.wave_name)
    ∷ ("status", text q.status)
    ∷ ("run_policy", text q.run_policy)
    ∷ ("eligible", bool q.eligible)
    ∷ ("requires_explicit_request", bool q.requires_explicit_request)
    ∷ ("approval_authority", text q.approval_authority)
    ∷ []

unfoldable pub queue_terminal_or_runnable_state :
    List (Dict Value) → Bool → Option RawCandidate → Bool → Result QueueDecision
queue_terminal_or_runnable_state items blocker_packet_present candidate abort_requested =
    next_terminal_or_runnable_state (map RawItem.fields items) blocker_packet_present candidate
      abort_requested

resume_queue :
    ControllerCheckpoint
    → ControllerResumeResult
    → Option QueueState
    → Result ControllerResumeResult
unfolding queue_item_of queue_terminal_or_runnable_state action_value
resume_queue c loaded none = ok loaded
resume_queue c loaded (some q) =
    and_then (queue_terminal_or_runnable_state (queue_item_of q ∷ []) false none false) λ d.
      ok (record {
        protected_core = c.protected_core;
        decision = by_controller (action_value d.action) "resume_from_checkpoint_queue_truth";
        checkpoint = some c;
      })

resume_terminal :
    ControllerCheckpoint → ControllerResumeResult → Option String → Result ControllerResumeResult
unfolding resume_queue terminal_action
resume_terminal c loaded (some state) = ok (record {
  protected_core = c.protected_core;
  decision =
      by_controller (terminal_action state) ("resume_from_preserved_terminal_state_" ++ state);
  checkpoint = some c;
})
resume_terminal c loaded none = resume_queue c loaded c.queue

resume_loaded :
    ProtectedCore
    → ControllerResumeResult
    → Option ControllerCheckpoint
    → Result ControllerResumeResult
unfolding resume_terminal
resume_loaded core loaded none =
    ok (record { protected_core = core; decision = loaded.decision; checkpoint = none })
resume_loaded core loaded (some c) = resume_terminal c loaded c.terminal_state

-- It reads the checkpoint and writes nothing.
unfoldable pub resume : Runtime → String → ProtectedCore → Files → Result ControllerResumeResult
unfolding resume_loaded
resume rt id core files =
    if not rt.config.controller_checkpoints_enabled
    then ok (no_checkpoint core "checkpoint_flag_disabled")
    else and_then (load_checkpoint rt id files)
        λ loaded. resume_loaded core loaded loaded.checkpoint
