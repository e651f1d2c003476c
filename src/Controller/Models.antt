-- ===== src/Controller/Models.antt =====
-- backend/app/controller/models.py: the checkpoint of a controller and its parts, and their dict
-- forms. The fields that the source annotates with literal types hold whatever text they are given,
-- so they are texts here.
pub mod Roundtrip
use meridian_logistics.Prelude.{ℕ, String, Bool, Option, none, some, List, [], ◌∷◌}
use meridian_logistics.Python.{Result, ok, and_then, bool, number, null}
use meridian_logistics.Python.Json.{
  Json, leaf, object, field, end, Reader, text_at, texts_at, int_at, ints_at, optional_at,
  text_json, truth_of, at_key, get_key, text_leaf, text_array, number_array, optional_text_leaf,
  text_of,
}

pub record ProtectedCore : Type 0 where
  pub task_goal : String
  pub expected_output : String
  pub current_step : String
  pub resume_point : String
  pub hard_constraints : List String
  pub business_invariants : List String

pub record FailureSignal : Type 0 where
  pub kind : String
  pub severity : String
  pub source : String
  pub details : Option String

pub record ControllerDecision : Type 0 where
  pub action : String
  pub reason : String
  pub source : String

pub record CompactionState : Type 0 where
  pub strategy_name : String
  pub compaction_sequence : ℕ
  pub halo_summary : String
  pub recent_turn_ids : List ℕ
  pub drift_status : String

pub record QueueState : Type 0 where
  pub wave_name : String
  pub status : String
  pub run_policy : String
  pub eligible : Bool
  pub requires_explicit_request : Bool
  pub approval_authority : String

pub record ControllerCheckpoint : Type 0 where
  pub checkpoint_id : String
  pub protected_core : ProtectedCore
  pub compaction : CompactionState
  pub validated_artifacts : List String
  pub active_failure_signal : FailureSignal
  pub controller_last_decision : ControllerDecision
  pub queue : Option QueueState
  pub terminal_state : Option String
  pub created_at : String
  pub checkpoint_version : String

-- The to_dict methods.
unfoldable pub core_to_dict : ProtectedCore → Json
core_to_dict c = object (
    field "task_goal" (text_leaf c.task_goal) (
      field "expected_output" (text_leaf c.expected_output) (
        field "current_step" (text_leaf c.current_step) (
          field "resume_point" (text_leaf c.resume_point) (
            field "hard_constraints" (text_array c.hard_constraints)
              (field "business_invariants" (text_array c.business_invariants) end))))))

unfoldable pub signal_to_dict : FailureSignal → Json
signal_to_dict s = object (
    field "kind" (text_leaf s.kind) (
      field "severity" (text_leaf s.severity)
        (field "source" (text_leaf s.source) (field "details" (optional_text_leaf s.details) end))))

unfoldable pub decision_to_dict : ControllerDecision → Json
decision_to_dict d = object (
    field "action" (text_leaf d.action)
      (field "reason" (text_leaf d.reason) (field "source" (text_leaf d.source) end)))

unfoldable pub compaction_to_dict : CompactionState → Json
compaction_to_dict c = object (
    field "strategy_name" (text_leaf c.strategy_name) (
      field "compaction_sequence" (leaf (number c.compaction_sequence)) (
        field "halo_summary" (text_leaf c.halo_summary) (
          field "recent_turn_ids" (number_array c.recent_turn_ids)
            (field "drift_status" (text_leaf c.drift_status) end)))))

unfoldable pub queue_to_dict : QueueState → Json
queue_to_dict q = object (
    field "wave_name" (text_leaf q.wave_name) (
      field "status" (text_leaf q.status) (
        field "run_policy" (text_leaf q.run_policy) (
          field "eligible" (leaf (bool q.eligible)) (
            field "requires_explicit_request" (leaf (bool q.requires_explicit_request))
              (field "approval_authority" (text_leaf q.approval_authority) end))))))

unfoldable pub optional_queue : Option QueueState → Json
unfolding queue_to_dict
optional_queue none = leaf null
optional_queue (some q) = queue_to_dict q

unfoldable pub checkpoint_to_dict : ControllerCheckpoint → Json
unfolding optional_queue
checkpoint_to_dict c = object (
    field "checkpoint_id" (text_leaf c.checkpoint_id) (
      field "checkpoint_version" (text_leaf c.checkpoint_version) (
        field "created_at" (text_leaf c.created_at) (
          field "protected_core" (core_to_dict c.protected_core) (
            field "compaction" (compaction_to_dict c.compaction) (
              field "validated_artifacts" (text_array c.validated_artifacts) (
                field "active_failure_signal" (signal_to_dict c.active_failure_signal) (
                  field "controller_last_decision" (decision_to_dict c.controller_last_decision) (
                    field "queue" (optional_queue c.queue)
                      (field "terminal_state" (optional_text_leaf c.terminal_state) end))))))))))

-- The from_dict methods.
module _ (r : Reader) where
  unfoldable pub core_from_dict : Json → Result ProtectedCore
  core_from_dict p = and_then (text_at r p "task_goal") λ task_goal.
      and_then (text_at r p "expected_output") λ expected_output.
        and_then (text_at r p "current_step") λ current_step.
          and_then (text_at r p "resume_point") λ resume_point.
            and_then (texts_at r p "hard_constraints") λ hard_constraints.
              and_then (texts_at r p "business_invariants") λ business_invariants. ok (record {
                task_goal = task_goal;
                expected_output = expected_output;
                current_step = current_step;
                resume_point = resume_point;
                hard_constraints = hard_constraints;
                business_invariants = business_invariants;
              })

  unfoldable pub signal_from_dict : Json → Result FailureSignal
  signal_from_dict p = and_then (text_at r p "kind") λ kind.
      and_then (text_at r p "severity") λ severity. and_then (text_at r p "source") λ source.
        and_then (optional_at r (text_json r) p "details") λ details.
          ok (record { kind = kind; severity = severity; source = source; details = details })

  unfoldable pub decision_from_dict : Json → Result ControllerDecision
  decision_from_dict p = and_then (text_at r p "action") λ action.
      and_then (text_at r p "reason") λ reason.
        and_then (text_at r p "source")
          λ source. ok (record { action = action; reason = reason; source = source })

  unfoldable pub compaction_from_dict : Json → Result CompactionState
  compaction_from_dict p = and_then (text_at r p "strategy_name") λ strategy_name.
      and_then (int_at r p "compaction_sequence") λ compaction_sequence.
        and_then (text_at r p "halo_summary") λ halo_summary.
          and_then (ints_at r p "recent_turn_ids") λ recent_turn_ids.
            and_then (text_at r p "drift_status") λ drift_status. ok (record {
              strategy_name = strategy_name;
              compaction_sequence = compaction_sequence;
              halo_summary = halo_summary;
              recent_turn_ids = recent_turn_ids;
              drift_status = drift_status;
            })

  or_false : Option Json → Bool
  unfolding truth_of
  or_false none = Bool.false
  or_false (some v) = truth_of v

  or_user : Option Json → String
  unfolding text_of
  or_user none = "user"
  or_user (some v) = text_of r v

  unfoldable pub queue_from_dict : Json → Result QueueState
  unfolding or_false or_user
  queue_from_dict p = and_then (text_at r p "wave_name") λ wave_name.
      and_then (text_at r p "status") λ status. and_then (text_at r p "run_policy") λ run_policy.
        and_then (at_key p "eligible") λ eligible.
          and_then (get_key p "requires_explicit_request") λ requires_explicit_request.
            and_then (get_key p "approval_authority") λ approval_authority. ok (record {
              wave_name = wave_name;
              status = status;
              run_policy = run_policy;
              eligible = truth_of eligible;
              requires_explicit_request = or_false requires_explicit_request;
              approval_authority = or_user approval_authority;
            })

  unfoldable pub checkpoint_from_dict : Json → Result ControllerCheckpoint
  checkpoint_from_dict p = and_then (text_at r p "checkpoint_id") λ checkpoint_id.
      and_then (text_at r p "checkpoint_version") λ checkpoint_version.
        and_then (text_at r p "created_at") λ created_at.
          and_then (and_then (at_key p "protected_core") core_from_dict) λ protected_core.
            and_then (and_then (at_key p "compaction") compaction_from_dict) λ compaction.
              and_then (texts_at r p "validated_artifacts") λ validated_artifacts.
                and_then (and_then (at_key p "active_failure_signal") signal_from_dict)
                  λ failure_signal.
                    and_then (and_then (at_key p "controller_last_decision") decision_from_dict)
                      λ decision. and_then (optional_at r queue_from_dict p "queue") λ queue.
                        and_then (optional_at r (text_json r) p "terminal_state") λ terminal_state.
                          ok (record {
                            checkpoint_id = checkpoint_id;
                            protected_core = protected_core;
                            compaction = compaction;
                            validated_artifacts = validated_artifacts;
                            active_failure_signal = failure_signal;
                            controller_last_decision = decision;
                            queue = queue;
                            terminal_state = terminal_state;
                            created_at = created_at;
                            checkpoint_version = checkpoint_version;
                          })
