-- ===== src/Controller/Queue.antt =====
-- backend/app/controller/policy.py: the decision what runs next.
pub mod Decision
pub mod Closing
use Prim.Native.String.{◌++◌}
use meridian_logistics.Prelude.{
  ℕ, zero, suc, String, ◌≡◌, Bool, true, false, not, Option, none, some, List, [], ◌∷◌, ◌==◌, ◌&&◌,
  ◌||◌, opt_eq, map, if◌then◌else◌,
}
use meridian_logistics.Python.{
  Error, Result, ok, err, and_then, Dict, Value, get, item, str, truth, get_flag, get_text,
}
use meridian_logistics.Table.{select_one}
use meridian_logistics.Controller.Waves.{
  QueueItem, RawItem, queue_items, RawCandidate, Wave, can_main_self_approve_wave,
  self_approved_wave, auto_instantiate_next_stage,
}

pub data Action : Type 0 where
  continue repair review research waiting_user_approval blocked finished aborted : Action

-- Action.value
unfoldable pub action_value : Action → String
action_value continue = "continue"
action_value repair = "repair"
action_value review = "review"
action_value research = "research"
action_value waiting_user_approval = "waiting_user_approval"
action_value blocked = "blocked"
action_value finished = "done"
action_value aborted = "aborted"

pub record QueueDecision : Type 0 where
  pub action : Action
  pub terminal_state : Option String
  pub next_wave_name : Option String
  pub reason : String
  pub instantiated_wave : Option Wave

abbrev pub is_runnable : QueueItem → Bool
is_runnable i = i.run_policy == "auto" && i.eligible

abbrev pub is_self_approvable : QueueItem → Bool
is_self_approvable i = i.run_policy == "explicit_request" && can_main_self_approve_wave i

abbrev pub is_explicit : QueueItem → Bool
is_explicit i = i.run_policy == "explicit_request"

abbrev pub stopped : Action → String → Option String → String → QueueDecision
stopped action state wave reason = record {
  action = action;
  terminal_state = some state;
  next_wave_name = wave;
  reason = reason;
  instantiated_wave = none;
}

abbrev pub running : String → String → Option Wave → QueueDecision
running name reason wave = record {
  action = continue;
  terminal_state = none;
  next_wave_name = some name;
  reason = reason;
  instantiated_wave = wave;
}

-- The last loop, over waves that wait for the user, and the end of the function.
pub last_resort : Option QueueItem → QueueDecision
last_resort (some i) =
    stopped waiting_user_approval "WAITING_USER_APPROVAL" (some i.wave_name)
      "explicit_request_wave_requires_user_approval"
last_resort none = stopped finished "DONE" none "no_runnable_wave_remains"

unfoldable pub after_stage : List QueueItem → Option Wave → QueueDecision
unfolding last_resort
after_stage items (some w) = running w.wave_name "auto_instantiate_safe_next_project_stage" (some w)
after_stage items none = last_resort (select_one is_explicit items)

-- The loops over the normalized items, each the search for a first item.
unfoldable pub decide : List QueueItem → Option RawCandidate → Result QueueDecision
unfolding after_stage
decide items candidate = elim (select_one is_runnable items) [
  | some i ↦ ok (running i.wave_name "activate_next_eligible_auto_wave" none)
  | none ↦ elim (select_one is_self_approvable items) [
    | some i ↦
        ok (running i.wave_name "main_self_approved_internal_wave" (some (self_approved_wave i)))
    | none ↦ and_then (auto_instantiate_next_stage candidate) λ w. ok (after_stage items w)
  ]
]

unfoldable pub next_terminal_or_runnable_state :
    List RawItem → Bool → Option RawCandidate → Bool → Result QueueDecision
next_terminal_or_runnable_state raw blocker_packet_present candidate abort_requested =
    and_then (queue_items raw) λ items.
      if abort_requested
      then ok (stopped aborted "ABORTED" none "hard_invariant_requires_abort")
      else if blocker_packet_present
      then ok (stopped blocked "BLOCKED" none "exact_blocker_packet_present")
      else decide items candidate

unfoldable pub closing_reason : String → QueueDecision → String
closing_reason wave d = elim d.action [
  | continue ↦ elim d.instantiated_wave [
    | some w ↦ wave ++ " closed and " ++ d.reason
    | none ↦ wave ++ " closed and next eligible auto wave activated"
  ]
  | _ ↦ wave ++ " closed and " ++ d.reason
]

unfoldable pub finalize_queue_state :
    String → List RawItem → Bool → Option RawCandidate → Bool → Result QueueDecision
finalize_queue_state current raw blocker_packet_present candidate abort_requested =
    and_then (next_terminal_or_runnable_state raw blocker_packet_present candidate abort_requested)
      λ d. ok (record d { reason = closing_reason current d })
