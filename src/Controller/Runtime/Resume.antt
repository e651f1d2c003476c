-- ===== src/Controller/Runtime/Resume.antt =====
-- backend/app/controller/runtime.py: what `resume` makes of the checkpoint that was written last.
use Prim.Native.String.{◌++◌}
use meridian_logistics.Prelude.{
  String, ◌≡◌, refl, inl, inr, true, false, Option, none, some, [], ◌∷◌, ◌==◌, ◌&&◌, arith, ap, ◌∙◌,
  eq_refl, Bool-cases, if◌then◌else◌,
}
use meridian_logistics.Python.{Result, ok, err, and_then, get, item, str, truth, get_flag, get_text}
use meridian_logistics.Python.Laws.{get-put}
use meridian_logistics.Table.{select_one}
use meridian_logistics.Controller.Models.{
  ProtectedCore, ControllerDecision, QueueState, ControllerCheckpoint, checkpoint_to_dict,
}
use meridian_logistics.Controller.Models.Roundtrip.{checkpoint_from_dict-checkpoint_to_dict}
use meridian_logistics.Controller.Waves.{
  RawItem, QueueItem, queue_item, queue_items, can_main_self_approve_wave,
  auto_instantiate_next_stage,
}
use meridian_logistics.Controller.Queue.{action_value, decide, after_stage}
use meridian_logistics.Controller.Queue.Decision.{next_decides}
use meridian_logistics.Controller.Runtime.{
  Runtime, Files, document, ControllerResumeResult, by_controller, no_checkpoint, empty_core,
  loaded_with, load_checkpoint, write_checkpoint, terminal_action, queue_item_of,
  queue_terminal_or_runnable_state, resume_queue, resume_terminal, resume,
}

-- The checkpoints are on.
abbrev pub IsEnabled : Runtime → Type 0
IsEnabled rt = rt.config.controller_checkpoints_enabled ≡ true

-- What the source means a resumed queue to do: an eligible auto wave and a wave that Main approves go
-- on, another wave on request waits for the user, and any other wave is done.
unfoldable pub requeued : QueueState → String
requeued q =
    if q.run_policy == "auto" && q.eligible
    then "continue"
    else if q.run_policy == "explicit_request"
    then (if q.approval_authority == "main" then "continue" else "waiting_user_approval")
    else "done"

unfoldable pub resumed_queue : ControllerDecision → Option QueueState → ControllerDecision
resumed_queue last none = last
resumed_queue last (some q) = by_controller (requeued q) "resume_from_checkpoint_queue_truth"

unfoldable pub resumed_terminal :
    ControllerDecision → Option QueueState → Option String → ControllerDecision
unfolding resumed_queue
resumed_terminal last queue (some state) =
    by_controller (terminal_action state) ("resume_from_preserved_terminal_state_" ++ state)
resumed_terminal last queue none = resumed_queue last queue

-- The decision that a checkpoint stands for: its terminal state, else its queue, else its last
-- decision.
unfoldable pub resumed_decision : ControllerCheckpoint → ControllerDecision
unfolding resumed_terminal resumed_queue
resumed_decision c = resumed_terminal c.controller_last_decision c.queue c.terminal_state

abbrev pub resumed : ControllerCheckpoint → ControllerResumeResult
resumed c = record {
  protected_core = c.protected_core;
  decision = resumed_decision c;
  checkpoint = some c;
}

module _ (rt : Runtime) (on : IsEnabled rt) (id : String) where
  pub load_document :
      (files : Files) (c : ControllerCheckpoint)
      → get files id ≡ some (document (checkpoint_to_dict c))
      → load_checkpoint rt id files
        ≡ ok (
            if rt.is_valid (checkpoint_to_dict c)
            then loaded_with c
            else no_checkpoint empty_core "checkpoint_packet_invalid_fail_soft")
  unfolding load_checkpoint
  load_document files c h = elim (Bool-cases (rt.is_valid (checkpoint_to_dict c))) [
    | inl v ↦ rw (on, h, v, checkpoint_from_dict-checkpoint_to_dict rt.reader c) refl
    | inr v ↦ rw (on, h, v) refl
  ]

  get_written :
      (files : Files) (c : ControllerCheckpoint)
      → get (write_checkpoint id c files) id ≡ some (document (checkpoint_to_dict c))
  unfolding write_checkpoint
  get_written files c = get-put files id (document (checkpoint_to_dict c)) id ∙ rw eq_refl refl

-- The item that `resume` builds, normalized: its flags of risk are unset.
abbrev resumed_item : QueueState → QueueItem
resumed_item q = record {
  wave_name = q.wave_name;
  status = q.status;
  run_policy = q.run_policy;
  eligible = q.eligible;
  requires_explicit_request = q.requires_explicit_request;
  approval_authority = q.approval_authority;
  scope_expands = false;
  business_logic_changed = false;
  framework_migration = false;
  production_enablement = false;
  external_dependency = false;
  destructive_change = false;
  irreversible_action = false;
  external_spend = false;
  requires_human_authorization = false;
}

resumed_items :
    (q : QueueState)
    → queue_items (RawItem.fields (queue_item_of q) ∷ []) ≡ ok (resumed_item q ∷ [])
unfolding queue_items queue_item queue_item_of item get str truth get_flag get_text
resumed_items q = refl

decided :
    (q : QueueState)
    → and_then (decide (resumed_item q ∷ []) none) (λ d. ok (action_value d.action))
      ≡ ok (requeued q)
unfolding decide select_one can_main_self_approve_wave auto_instantiate_next_stage action_value
    requeued after_stage
decided q = ground (arith)

-- What is made of one part of a result.
through :
    {A B : Type 0} (m : Result A) (g : A → String) (f : String → B) (x : String)
    → and_then m (λ a. ok (g a)) ≡ ok x
    → and_then m (λ a. ok (f (g a))) ≡ ok (f x)
through (ok a) g f x h = ap (λ o. and_then o (λ y. ok (f y))) h
through (err e) g f x h = absurd (cc)

resume_queue_lem :
    (c : ControllerCheckpoint) (o : Option QueueState)
    → resume_queue c (loaded_with c) o
      ≡ ok (record {
        protected_core = c.protected_core;
        decision = resumed_queue c.controller_last_decision o;
        checkpoint = some c;
      })
unfolding resume_queue resumed_queue queue_terminal_or_runnable_state
resume_queue_lem c none = refl
resume_queue_lem c (some q) =
    rw
      (next_decides (RawItem.fields (queue_item_of q) ∷ []) (resumed_item q ∷ []) none
        (resumed_items q))
      (through (decide (resumed_item q ∷ []) none) (λ d. action_value d.action)
        (λ a. record {
          protected_core = c.protected_core;
          decision = by_controller a "resume_from_checkpoint_queue_truth";
          checkpoint = some c;
        })
        (requeued q) (decided q))

resume_terminal_lem :
    (c : ControllerCheckpoint) (t : Option String)
    → resume_terminal c (loaded_with c) t
      ≡ ok (record {
        protected_core = c.protected_core;
        decision = resumed_terminal c.controller_last_decision c.queue t;
        checkpoint = some c;
      })
unfolding resume_terminal resumed_terminal
resume_terminal_lem c none = resume_queue_lem c c.queue
resume_terminal_lem c (some s) = refl

module _ (rt : Runtime) (on : IsEnabled rt) (id : String) (core : ProtectedCore)
    (files : Files) where
  resume_document :
      (c : ControllerCheckpoint)
      → get files id ≡ some (document (checkpoint_to_dict c))
      → resume rt id core files
        ≡ ok (
            if rt.is_valid (checkpoint_to_dict c)
            then resumed c
            else no_checkpoint core "checkpoint_packet_invalid_fail_soft")
  unfolding resume resumed_decision
  resume_document c h = elim (Bool-cases (rt.is_valid (checkpoint_to_dict c))) [
    | inl v ↦ rw (load_document rt on id files c h, on, v) (resume_terminal_lem c c.terminal_state)
    | inr v ↦ rw (load_document rt on id files c h, on, v) refl
  ]

-- Resuming reads what was written last under the session: the decision that the checkpoint stands
-- for, where the contract accepts it, and otherwise a review of the fallback core.
pub resume-write_checkpoint :
    (rt : Runtime) (id : String) (core : ProtectedCore) (files : Files) (c : ControllerCheckpoint)
    → IsEnabled rt
    → resume rt id core (write_checkpoint id c files)
      ≡ ok (
          if rt.is_valid (checkpoint_to_dict c)
          then resumed c
          else no_checkpoint core "checkpoint_packet_invalid_fail_soft")
resume-write_checkpoint rt id core files c on =
    resume_document rt on id core (write_checkpoint id c files) c (get_written rt on id files c)
