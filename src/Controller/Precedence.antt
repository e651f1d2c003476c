-- ===== src/Controller/Precedence.antt =====
-- backend/app/controller/precedence.py: which action the signals of a stage lead to.
use meridian_logistics.Prelude.{
  String, ◌≡◌, ◌⊎◌, inl, inr, Bool, true, false, not, ◌==◌, ◌&&◌, ◌||◌, arith, eq_iff,
  if◌then◌else◌,
}
use meridian_logistics.Controller.Models.{FailureSignal, ControllerDecision}

pub record ControllerSignals : Type 0 where
  pub review_outcome : String
  pub validator_outcome : String
  pub triage_abort_requested : Bool
  pub concrete_failure : Bool
  pub failure_signal : FailureSignal

abbrev decision : String → String → String → ControllerDecision
decision action reason source = record { action = action; reason = reason; source = source }

unfoldable pub resolve_controller_action : ControllerSignals → ControllerDecision
resolve_controller_action s =
    if s.failure_signal.severity == "unsafe"
    then decision "abort" "unsafe_or_destructive_state" "triage"
    else if s.review_outcome == "approve" && not s.concrete_failure
    then decision "continue" "review_approved_safe_to_continue" "review"
    else if s.validator_outcome == "pass" && not s.concrete_failure
    then decision "continue" "validator_passed_no_concrete_failure" "validator"
    else if s.review_outcome == "changes_requested"
    then decision "repair" "review_requested_changes" "review"
    else if s.validator_outcome == "fail" || s.concrete_failure
    then decision "repair" "recoverable_failure_requires_repair" "controller"
    else if s.triage_abort_requested
    then decision "review" "triage_abort_demoted_until_safety_proven" "triage"
    else decision "review" "insufficient_signal_default_review" "controller"

-- The conditions, each by what the signals are.
abbrev pub IsUnsafe : ControllerSignals → Type 0
IsUnsafe s = s.failure_signal.severity ≡ "unsafe"

abbrev pub IsCleared : ControllerSignals → Type 0
IsCleared s =
    (s.concrete_failure ≡ false) × ((s.review_outcome ≡ "approve") ⊎ (s.validator_outcome ≡ "pass"))

abbrev pub HasFault : ControllerSignals → Type 0
HasFault s =
    (s.concrete_failure ≡ true)
    ⊎ ((s.review_outcome ≡ "changes_requested") ⊎ (s.validator_outcome ≡ "fail"))

abbrev pub action : ControllerSignals → String
action s = (resolve_controller_action s).action

-- An action, with the condition that it rests on.
pub data Explains (s : ControllerSignals) : Type 0 where
  abort : action s ≡ "abort" → IsUnsafe s → Explains s
  continue : action s ≡ "continue" → ¬ IsUnsafe s → IsCleared s → Explains s
  repair : action s ≡ "repair" → ¬ IsUnsafe s → ¬ IsCleared s → HasFault s → Explains s
  review : action s ≡ "review" → ¬ IsUnsafe s → ¬ IsCleared s → ¬ HasFault s → Explains s

module _ (s : ControllerSignals) where
  pub abort_lem : action s ≡ "abort" → IsUnsafe s
  unfolding resolve_controller_action
  abort_lem h = ground (
    arith,
    eq_iff s.failure_signal.severity "unsafe",
    eq_iff "continue" "abort",
    eq_iff "repair" "abort",
    eq_iff "review" "abort",
  )

  continue_lem : action s ≡ "continue" → ¬ IsUnsafe s × IsCleared s
  unfolding resolve_controller_action
  continue_lem h = ground (
    arith,
    eq_iff s.failure_signal.severity "unsafe",
    eq_iff s.review_outcome "approve",
    eq_iff s.validator_outcome "pass",
    eq_iff "abort" "continue",
    eq_iff "repair" "continue",
    eq_iff "review" "continue",
  )

  repair_lem : action s ≡ "repair" → ¬ IsUnsafe s × ¬ IsCleared s × HasFault s
  unfolding resolve_controller_action
  repair_lem h = ground (
    arith,
    eq_iff s.failure_signal.severity "unsafe",
    eq_iff s.review_outcome "approve",
    eq_iff s.validator_outcome "pass",
    eq_iff s.review_outcome "changes_requested",
    eq_iff s.validator_outcome "fail",
    eq_iff "abort" "repair",
    eq_iff "continue" "repair",
    eq_iff "review" "repair",
  )

  review_lem : action s ≡ "review" → ¬ IsUnsafe s × ¬ IsCleared s × ¬ HasFault s
  unfolding resolve_controller_action
  review_lem h = ground (
    arith,
    eq_iff s.failure_signal.severity "unsafe",
    eq_iff s.review_outcome "approve",
    eq_iff s.validator_outcome "pass",
    eq_iff s.review_outcome "changes_requested",
    eq_iff s.validator_outcome "fail",
    eq_iff "abort" "review",
    eq_iff "continue" "review",
    eq_iff "repair" "review",
  )

  four_lem :
      (action s ≡ "abort")
      ⊎ ((action s ≡ "continue") ⊎ ((action s ≡ "repair") ⊎ (action s ≡ "review")))
  unfolding resolve_controller_action
  four_lem = ground arith

-- The action is one of abort, continue, repair and review, and each is chosen only under its
-- condition: abort only for an unsafe failure signal, continue only if the review approved or the
-- validator passed with no concrete failure, repair only if there is a fault and no such clearance,
-- and review only if there is neither.
pub resolve_explains : (s : ControllerSignals) → Explains s
resolve_explains s = elim (four_lem s) [
  | inl a ↦ abort a (abort_lem s a)
  | inr (inl c) ↦ let h = continue_lem s c in continue c h.0 h.1
  | inr (inr (inl r)) ↦ let h = repair_lem s r in repair r h.0 h.1 h.2
  | inr (inr (inr v)) ↦ let h = review_lem s v in review v h.0 h.1 h.2
]
