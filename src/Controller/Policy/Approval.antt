-- ===== src/Controller/Policy/Approval.antt =====
-- backend/app/controller/policy.py: the approval, parallel-repair and missing-input predicates.
use meridian_logistics.Prelude.{
  ◌≡◌, refl, ◌≢◌, ◌⊎◌, inl, inr, Bool, true, false, not, some, ◌↔◌, arith,
}
use meridian_logistics.Controller.Models.{FailureSignal}
use meridian_logistics.Controller.Policy.{
  RawSignal, Packet, has_text, is_exact_blocker_packet, Risks, Work, can_main_proceed,
  should_open_parallel_repair, can_continue_while_repair_runs, missing_info_action,
  MissingInfoAction, infer, research, request_input,
}

-- No flag that asks for approval is set.
pub record IsSafe (w : Work) (r : Risks) : Type 0 where
  pub destructive : r.destructive_change ≡ false
  pub production : r.production_enablement ≡ false
  pub spend : r.external_spend ≡ false
  pub irreversible : r.irreversible_action ≡ false
  pub input : r.required_input_missing ≡ false
  pub scope : w.approved_scope ≡ true
  pub logic : w.business_logic_unchanged ≡ true
  pub schema : w.checkpoint_schema_widening ≡ false
  pub migration : w.framework_migration ≡ false

-- The work is of one of the kinds that the controller may do by itself.
abbrev pub HasGround : Work → Type 0
HasGround w =
    (w.internal_hardening ≡ true)
    ⊎ ((w.docs_sync ≡ true)
        ⊎ ((w.bounded_fix ≡ true)
            ⊎ ((w.local_validation ≡ true)
                ⊎ ((w.repo_grounded ≡ true)
                    ⊎ ((w.safe_research ≡ true) ⊎ (w.internal_design ≡ true))))))

proceeds-IsSafe : (w : Work) (r : Risks) → can_main_proceed w r ≡ true → IsSafe w r
unfolding can_main_proceed
proceeds-IsSafe w r h = ground arith

proceeds-HasGround : (w : Work) (r : Risks) → can_main_proceed w r ≡ true → HasGround w
unfolding can_main_proceed
proceeds-HasGround w r h = ground arith

may_proceed : (w : Work) (r : Risks) → IsSafe w r → HasGround w → can_main_proceed w r ≡ true
unfolding can_main_proceed
may_proceed w r s g = ground arith

-- Main proceeds without the user exactly when no flag that asks for approval is set and the work is
-- of one of the seven internal kinds.
pub main_proceeds_iff :
    (w : Work) (r : Risks) → (can_main_proceed w r ≡ true) ↔ (IsSafe w r × HasGround w)
main_proceeds_iff w r =
    (λ h. (proceeds-IsSafe w r h, proceeds-HasGround w r h), λ p. may_proceed w r p.0 p.1)

-- A parallel repair is opened only for an exact blocker packet in an isolated scope with no conflict;
-- while it runs, the controller goes on exactly if the blocker does not affect its reasoning path.
pub parallel_repair_is_isolated :
    (s : RawSignal) (p : Packet) (isolated conflicts affects : Bool)
    → should_open_parallel_repair s p isolated conflicts ≡ true
    → (is_exact_blocker_packet s p ≡ true)
      × (isolated ≡ true)
      × (conflicts ≡ false)
      × (can_continue_while_repair_runs affects isolated conflicts ≡ not affects)
unfolding should_open_parallel_repair can_continue_while_repair_runs
parallel_repair_is_isolated s p isolated conflicts affects h = ground arith

-- What a blocker packet must hold: a failure signal whose severity is not "none", visible texts for
-- its kind and details and for the file, the check and the contradiction, and a bounded scope.
pub record IsExact (s : FailureSignal) (p : Packet) : Type 0 where
  pub severe : s.severity ≢ "none"
  pub kind : has_text (some s.kind) ≡ true
  pub details : has_text s.details ≡ true
  pub file : has_text p.file_path ≡ true
  pub check : has_text p.failing_check ≡ true
  pub contradiction : has_text p.contradiction_text ≡ true
  pub bounded : p.bounded_scope ≡ true

-- An answer to missing input, with the conditions that it rests on.
pub data Answers (missing sufficient fresh : Bool) : MissingInfoAction → Type 0 where
  inferred :
      missing ≡ false
      → (sufficient ≡ true) ⊎ (fresh ≡ false)
      → Answers missing sufficient fresh infer
  researched :
      fresh ≡ true
      → (missing ≡ true) ⊎ (sufficient ≡ false)
      → Answers missing sufficient fresh research
  requested : missing ≡ true → fresh ≡ false → Answers missing sufficient fresh request_input

-- The controller infers only if no required input is missing, and then if the repository suffices or
-- freshness does not matter; it researches only if freshness matters, and then if an input is missing
-- or the repository does not suffice; it requests input only if one is missing and freshness does not
-- matter; and it never blocks.
pub missing_info_action-Answers :
    (missing sufficient fresh : Bool)
    → Answers missing sufficient fresh (missing_info_action missing sufficient fresh)
unfolding missing_info_action
missing_info_action-Answers true true true = researched refl (inl refl)
missing_info_action-Answers true true false = requested refl refl
missing_info_action-Answers true false true = researched refl (inl refl)
missing_info_action-Answers true false false = requested refl refl
missing_info_action-Answers false true fresh = inferred refl (inl refl)
missing_info_action-Answers false false true = researched refl (inr refl)
missing_info_action-Answers false false false = inferred refl (inr refl)
