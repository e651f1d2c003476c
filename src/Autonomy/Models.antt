-- ===== src/Autonomy/Models.antt =====
-- backend/app/autonomy/models.py: the kinds of step, the metadata that are stored with a job, and
-- the outcome of a step.
use meridian_logistics.Prelude.{ℕ, String, ◌≡◌, refl, Bool, Option, [], ◌∷◌, ◌==◌, if◌then◌else◌}
use meridian_logistics.Python.{
  value_error, Result, ok, err, and_then, Value, text, number, item, get, str,
}
use meridian_logistics.Python.Json.{Reader, int_value}
use meridian_logistics.Jobs.Store.{Payload}

pub data AutonomyMode : Type 0 where
  poll_driven : AutonomyMode

pub data TaskKind : Type 0 where
  async_read_refresh : TaskKind

pub data StepKind : Type 0 where
  seed_context execute_allowlisted_read build_response complete_job fail_job : StepKind

unfoldable pub mode_value : AutonomyMode → String
mode_value poll_driven = "poll_driven"

unfoldable pub task_value : TaskKind → String
task_value async_read_refresh = "async_read_refresh"

unfoldable pub step_value : StepKind → String
step_value seed_context = "seed_context"
step_value execute_allowlisted_read = "execute_allowlisted_read"
step_value build_response = "build_response"
step_value complete_job = "complete_job"
step_value fail_job = "fail_job"

-- AutonomyMode(value) and TaskKind(value); the message of the exception is shortened.
unfoldable pub mode_of : Value → Result AutonomyMode
mode_of (text s) = if s == "poll_driven" then ok poll_driven else err (value_error "AutonomyMode")
mode_of _ = err (value_error "AutonomyMode")

unfoldable pub task_of : Value → Result TaskKind
task_of (text s) =
    if s == "async_read_refresh" then ok async_read_refresh else err (value_error "TaskKind")
task_of _ = err (value_error "TaskKind")

pub record AutonomyJobMetadata : Type 0 where
  pub mode : AutonomyMode
  pub task_kind : TaskKind
  pub checkpoint_id : String
  pub step_index : ℕ
  pub step_budget : ℕ
  pub last_controller_action : String

unfoldable pub metadata_to_dict : AutonomyJobMetadata → Payload
unfolding mode_value task_value
metadata_to_dict m =
    ("mode", text (mode_value m.mode))
    ∷ ("task_kind", text (task_value m.task_kind))
    ∷ ("checkpoint_id", text m.checkpoint_id)
    ∷ ("step_index", number m.step_index)
    ∷ ("step_budget", number m.step_budget)
    ∷ ("last_controller_action", text m.last_controller_action)
    ∷ []

unfoldable pub metadata_from_dict : Reader → Payload → Result AutonomyJobMetadata
unfolding mode_of task_of
metadata_from_dict r d = and_then (and_then (item d "mode") mode_of) λ mode.
    and_then (and_then (item d "task_kind") task_of) λ task_kind.
      and_then (item d "checkpoint_id") λ checkpoint_id.
        and_then (and_then (item d "step_index") (int_value r)) λ step_index.
          and_then (and_then (item d "step_budget") (int_value r)) λ step_budget.
            and_then (item d "last_controller_action") λ last_controller_action. ok (record {
              mode = mode;
              task_kind = task_kind;
              checkpoint_id = str checkpoint_id;
              step_index = step_index;
              step_budget = step_budget;
              last_controller_action = str last_controller_action;
            })

pub record StepOutcome : Type 0 where
  pub step_kind : StepKind
  pub next_step_kind : Option StepKind
  pub is_terminal : Bool
  pub error_message : Option String
  pub result_payload : Option Payload

-- The metadata of a job are read back as they were written.
pub metadata_from_dict-metadata_to_dict :
    (r : Reader) (m : AutonomyJobMetadata) → metadata_from_dict r (metadata_to_dict m) ≡ ok m
unfolding metadata_from_dict metadata_to_dict item get int_value str mode_of task_of mode_value
    task_value
metadata_from_dict-metadata_to_dict r m =
    read m.mode m.task_kind m.checkpoint_id m.step_index m.step_budget m.last_controller_action
  where
    read :
        (a : AutonomyMode) (b : TaskKind) (c : String) (i n : ℕ) (l : String)
        → metadata_from_dict r (
            metadata_to_dict (record {
              mode = a;
              task_kind = b;
              checkpoint_id = c;
              step_index = i;
              step_budget = n;
              last_controller_action = l;
            }))
          ≡ ok (record {
            mode = a;
            task_kind = b;
            checkpoint_id = c;
            step_index = i;
            step_budget = n;
            last_controller_action = l;
          })
    read poll_driven async_read_refresh c i n l = refl
