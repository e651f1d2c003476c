-- ===== src/Controller/Queue/Closing.antt =====
-- backend/app/controller/policy.py, `finalize_queue_state`: the decisions that close a wave.
use meridian_logistics.Prelude.{
  String, ◌≡◌, refl, Bool, true, false, Option, none, some, List, ap, sym, subst, inl, inr,
  if◌then◌else◌, ◌∙◌,
}
use meridian_logistics.Python.{Error, ok, err, Result-cases}
use meridian_logistics.Controller.Waves.{QueueItem, RawItem, queue_items, RawCandidate}
use meridian_logistics.Controller.Queue.{
  Action, continue, repair, review, research, waiting_user_approval, blocked, finished, aborted,
  stopped, closing_reason, QueueDecision, next_terminal_or_runnable_state, finalize_queue_state,
}
use meridian_logistics.Controller.Queue.Decision.{
  Follows, auto_wave, internal_wave, safe_stage, user_wave, nothing_left, decision-Follows,
}

-- The terminal state that goes with an action.
unfoldable pub state_of : Action → Option String
state_of continue = none
state_of waiting_user_approval = some "WAITING_USER_APPROVAL"
state_of blocked = some "BLOCKED"
state_of finished = some "DONE"
state_of aborted = some "ABORTED"
state_of _ = none

-- The actions that a queue decision can have.
abbrev pub is_queue_action : Action → Bool
is_queue_action repair = false
is_queue_action review = false
is_queue_action research = false
is_queue_action _ = true

-- The terminal state of a decision is that of its action, which is none of repair, review, research.
record IsCoherent (d : QueueDecision) : Type 0 where
  state : d.terminal_state ≡ state_of d.action
  action : is_queue_action d.action ≡ true

Follows-IsCoherent :
    {items : List QueueItem} {candidate : Option RawCandidate} {d : QueueDecision}
    → Follows items candidate d
    → IsCoherent d
unfolding state_of
Follows-IsCoherent (auto_wave i m p q e) = rw e (record { state = refl; action = refl })
Follows-IsCoherent (internal_wave i a m p q e) = rw e (record { state = refl; action = refl })
Follows-IsCoherent (safe_stage raw c a b k g s e) = rw e (record { state = refl; action = refl })
Follows-IsCoherent (user_wave i a b g m p e) = rw e (record { state = refl; action = refl })
Follows-IsCoherent (nothing_left a b g e) = rw e (record { state = refl; action = refl })

ok_injective : {A : Type 0} {a b : A} → ok a ≡ ok b → a ≡ b
ok_injective h = cc

module _ (raw : List RawItem) (items : List QueueItem) (candidate : Option RawCandidate)
    (q : queue_items raw ≡ ok items) where
  next_aborts :
      (blocker : Bool)
      → next_terminal_or_runnable_state raw blocker candidate true
        ≡ ok (stopped aborted "ABORTED" none "hard_invariant_requires_abort")
  unfolding next_terminal_or_runnable_state
  next_aborts blocker = rw q refl

  next_blocks :
      next_terminal_or_runnable_state raw true candidate false
      ≡ ok (stopped blocked "BLOCKED" none "exact_blocker_packet_present")
  unfolding next_terminal_or_runnable_state
  next_blocks = rw q refl

  stopped-IsCoherent :
      (d : QueueDecision) (a : Action) (state reason : String)
      → state_of a ≡ some state
      → is_queue_action a ≡ true
      → ok (stopped a state none reason) ≡ ok d
      → IsCoherent d
  stopped-IsCoherent d a state reason e f h =
      subst IsCoherent (ok_injective h) (record { state = sym e; action = f })

  decided-IsCoherent :
      (blocker abort : Bool) (d : QueueDecision)
      → next_terminal_or_runnable_state raw blocker candidate abort ≡ ok d
      → IsCoherent d
  unfolding state_of
  decided-IsCoherent blocker true d h =
      stopped-IsCoherent d aborted "ABORTED" "hard_invariant_requires_abort" refl refl
        (sym (next_aborts blocker) ∙ h)
  decided-IsCoherent true false d h =
      stopped-IsCoherent d blocked "BLOCKED" "exact_blocker_packet_present" refl refl
        (sym next_blocks ∙ h)
  decided-IsCoherent false false d h =
      Follows-IsCoherent (decision-Follows raw items candidate d q h)

  decided_priority :
      (blocker abort : Bool) (d : QueueDecision)
      → next_terminal_or_runnable_state raw blocker candidate abort ≡ ok d
      → d.action ≡ (if abort then aborted else if blocker then blocked else d.action)
  decided_priority blocker true d h =
      ap (λ (x : QueueDecision). x.action) (sym (ok_injective (sym (next_aborts blocker) ∙ h)))
  decided_priority true false d h =
      ap (λ (x : QueueDecision). x.action) (sym (ok_injective (sym next_blocks ∙ h)))
  decided_priority false false d h = refl

-- What closing a wave with a decision `d` gives.
pub record Closes (blocker abort : Bool) (d f : QueueDecision) : Type 0 where
  pub state : f.terminal_state ≡ state_of f.action
  pub action : is_queue_action f.action ≡ true
  pub priority : f.action ≡ (if abort then aborted else if blocker then blocked else f.action)
  pub same : f ≡ record d { reason = f.reason }

closed_with :
    (current : String) (raw : List RawItem) (blocker : Bool) (candidate : Option RawCandidate)
    (abort : Bool) (f : QueueDecision)
    → finalize_queue_state current raw blocker candidate abort ≡ ok f
    → (d : QueueDecision) × (next_terminal_or_runnable_state raw blocker candidate abort ≡ ok d)
      × (f ≡ record d { reason = closing_reason current d })
closed_with current raw blocker candidate abort f h =
    elim (Result-cases (next_terminal_or_runnable_state raw blocker candidate abort)) [
      | inl (d, e) ↦ (d, e, sym (ok_injective (sym (closing d e) ∙ h)))
      | inr (z, e) ↦ absurd (raising z e)
    ]
  where
    closing :
        (d : QueueDecision)
        → next_terminal_or_runnable_state raw blocker candidate abort ≡ ok d
        → finalize_queue_state current raw blocker candidate abort
          ≡ ok (record d { reason = closing_reason current d })
    closing d e = unfold finalize_queue_state in rw e refl

    failing :
        (z : Error)
        → next_terminal_or_runnable_state raw blocker candidate abort ≡ err z
        → finalize_queue_state current raw blocker candidate abort ≡ err z
    failing z e = unfold finalize_queue_state in rw e refl

    raising : (z : Error) → next_terminal_or_runnable_state raw blocker candidate abort ≡ err z → ⊥
    raising z e = cc (failing z e)

-- Closing a wave gives the decision of the queue with another reason; it stops with the terminal
-- state of its action, and has none if it continues; its action is none of repair, review and
-- research; an abort comes first, and then a blocker, whatever waves the queue holds.
pub closing_is_coherent :
    (current : String) (raw : List RawItem) (items : List QueueItem) (blocker : Bool)
    (candidate : Option RawCandidate) (abort : Bool) (f : QueueDecision)
    → queue_items raw ≡ ok items
    → finalize_queue_state current raw blocker candidate abort ≡ ok f
    → (d : QueueDecision) × (next_terminal_or_runnable_state raw blocker candidate abort ≡ ok d)
      × Closes blocker abort d f
closing_is_coherent current raw items blocker candidate abort f q h =
    let (d, e, g) = closed_with current raw blocker candidate abort f h in
    let c = decided-IsCoherent raw items candidate q blocker abort d e in
    let a : f.action ≡ d.action = ap (λ (x : QueueDecision). x.action) g in
    let t : f.terminal_state ≡ d.terminal_state = ap (λ (x : QueueDecision). x.terminal_state) g in
    (
      d,
      e,
      record {
        state = t ∙ c.state ∙ ap state_of (sym a);
        action = ap is_queue_action a ∙ c.action;
        priority = rw a (decided_priority raw items candidate q blocker abort d e);
        same = rw g refl;
      },
    )
