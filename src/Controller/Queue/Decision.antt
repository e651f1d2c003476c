-- ===== src/Controller/Queue/Decision.antt =====
-- backend/app/controller/policy.py, `next_terminal_or_runnable_state`: the rules of a decision.
use mathlib.Core.List.{Memᴰ}
use meridian_logistics.Prelude.{
  ◌≡◌, refl, inl, inr, true, false, Option, none, some, List, arith, ap, sym, ◌∙◌, eq_iff,
  Option-cases, Bool-cases, All,
}
use meridian_logistics.Python.{Error, Result, ok, err, Result-cases, and_then}
use meridian_logistics.Table.{select_one}
use meridian_logistics.Table.Laws.{select_holds, select_none, select-Memᴰ}
use meridian_logistics.Controller.Waves.{
  QueueItem, RawItem, queue_items, StageCandidate, RawCandidate, stage_candidate, Wave,
  can_main_self_approve_wave, self_approved_wave, can_auto_instantiate_next_stage, stage_wave,
  auto_instantiate_next_stage,
}
use meridian_logistics.Controller.Queue.{
  waiting_user_approval, finished, QueueDecision, is_runnable, is_self_approvable, is_explicit,
  stopped, running, after_stage, last_resort, decide, next_terminal_or_runnable_state,
}

ok_injective : {A : Type 0} {a b : A} → ok a ≡ ok b → a ≡ b
ok_injective h = cc

-- The ten conditions under which Main approves a wave by itself.
pub record IsInternal (i : QueueItem) : Type 0 where
  pub authority : i.approval_authority ≡ "main"
  pub scope : i.scope_expands ≡ false
  pub logic : i.business_logic_changed ≡ false
  pub migration : i.framework_migration ≡ false
  pub production : i.production_enablement ≡ false
  pub dependency : i.external_dependency ≡ false
  pub destructive : i.destructive_change ≡ false
  pub irreversible : i.irreversible_action ≡ false
  pub spend : i.external_spend ≡ false
  pub human : i.requires_human_authorization ≡ false

pub self_approve-IsInternal : (i : QueueItem) → can_main_self_approve_wave i ≡ true → IsInternal i
unfolding can_main_self_approve_wave
self_approve-IsInternal i h = record {
  authority = (eq_iff i.approval_authority "main").0 (ground arith);
  scope = ground arith;
  logic = ground arith;
  migration = ground arith;
  production = ground arith;
  dependency = ground arith;
  destructive = ground arith;
  irreversible = ground arith;
  spend = ground arith;
  human = ground arith;
}

-- The seven conditions under which a candidate becomes a wave.
pub record IsSafeStage (c : StageCandidate) : Type 0 where
  pub scope : c.within_approved_scope ≡ true
  pub harmless : c.non_destructive ≡ true
  pub approval : c.requires_explicit_approval ≡ false
  pub grounded : c.repo_grounded ≡ true
  pub dependency : c.external_dependency ≡ false
  pub migration : c.framework_migration ≡ false
  pub enablement : c.risky_global_enablement ≡ false

pub instantiable-IsSafeStage :
    (c : StageCandidate) → can_auto_instantiate_next_stage c ≡ true → IsSafeStage c
unfolding can_auto_instantiate_next_stage
instantiable-IsSafeStage c h = ground arith

-- The rule that a decision on a queue without abort or blocker follows, the first that applies.
pub data Follows (items : List QueueItem) (candidate : Option RawCandidate) (d : QueueDecision)
    : Type 0 where
  auto_wave :
      (i : QueueItem)
      → Memᴰ i items
      → i.run_policy ≡ "auto"
      → i.eligible ≡ true
      → d ≡ running i.wave_name "activate_next_eligible_auto_wave" none
      → Follows items candidate d
  internal_wave :
      (i : QueueItem)
      → All (λ j. is_runnable j ≡ false) items
      → Memᴰ i items
      → i.run_policy ≡ "explicit_request"
      → IsInternal i
      → d ≡ running i.wave_name "main_self_approved_internal_wave" (some (self_approved_wave i))
      → Follows items candidate d
  safe_stage :
      (raw : RawCandidate) (c : StageCandidate)
      → All (λ j. is_runnable j ≡ false) items
      → All (λ j. is_self_approvable j ≡ false) items
      → candidate ≡ some raw
      → stage_candidate raw ≡ ok c
      → IsSafeStage c
      → d ≡ running c.wave_name "auto_instantiate_safe_next_project_stage" (some (stage_wave c))
      → Follows items candidate d
  user_wave :
      (i : QueueItem)
      → All (λ j. is_runnable j ≡ false) items
      → All (λ j. is_self_approvable j ≡ false) items
      → auto_instantiate_next_stage candidate ≡ ok none
      → Memᴰ i items
      → i.run_policy ≡ "explicit_request"
      → d
        ≡ stopped waiting_user_approval "WAITING_USER_APPROVAL"
            (some i.wave_name)
            "explicit_request_wave_requires_user_approval"
      → Follows items candidate d
  nothing_left :
      All (λ j. is_runnable j ≡ false) items
      → All (λ j. is_explicit j ≡ false) items
      → auto_instantiate_next_stage candidate ≡ ok none
      → d ≡ stopped finished "DONE" none "no_runnable_wave_remains"
      → Follows items candidate d

module _ (items : List QueueItem) (candidate : Option RawCandidate) where
  pub decide_runs :
      (i : QueueItem)
      → select_one is_runnable items ≡ some i
      → decide items candidate ≡ ok (running i.wave_name "activate_next_eligible_auto_wave" none)
  unfolding decide
  decide_runs i e = rw (e, decide) refl

  pub decide_approves :
      (i : QueueItem)
      → select_one is_runnable items ≡ none
      → select_one is_self_approvable items ≡ some i
      → decide items candidate
        ≡ ok (running i.wave_name "main_self_approved_internal_wave" (some (self_approved_wave i)))
  unfolding decide
  decide_approves i e f = rw (e, f, decide) refl

  pub decide_stage :
      select_one is_runnable items ≡ none
      → select_one is_self_approvable items ≡ none
      → decide items candidate
        ≡ and_then (auto_instantiate_next_stage candidate) (λ w. ok (after_stage items w))
  unfolding decide
  decide_stage e f = rw (e, f, decide) refl

  module _ (d : QueueDecision) (h : decide items candidate ≡ ok d) where
    runs : (i : QueueItem) → select_one is_runnable items ≡ some i → Follows items candidate d
    runs i e =
        let both = select_holds is_runnable items i e in
        auto_wave i (select-Memᴰ is_runnable items i e)
          ((eq_iff i.run_policy "auto").0 (ground arith)) (ground arith) (cc (decide_runs i e))

    approves :
        (i : QueueItem)
        → select_one is_runnable items ≡ none
        → select_one is_self_approvable items ≡ some i
        → Follows items candidate d
    approves i e f =
        let both = select_holds is_self_approvable items i f in
        internal_wave i (select_none is_runnable items e) (select-Memᴰ is_self_approvable items i f)
          ((eq_iff i.run_policy "explicit_request").0 (ground arith))
          (self_approve-IsInternal i (ground arith)) (cc (decide_approves i e f))

    module _ (e : select_one is_runnable items ≡ none)
        (f : select_one is_self_approvable items ≡ none) where
      undecided :
          auto_instantiate_next_stage candidate ≡ ok none
          → d ≡ last_resort (select_one is_explicit items)
      unfolding after_stage
      undecided g = ok_injective (sym h ∙ decide_stage e f ∙ rw g refl)

      waits : auto_instantiate_next_stage candidate ≡ ok none → Follows items candidate d
      unfolding last_resort
      waits g = elim (Option-cases (select_one is_explicit items)) [
        | inl k ↦
            nothing_left (select_none is_runnable items e) (select_none is_explicit items k) g
              (undecided g ∙ rw k refl)
        | inr (i, k) ↦
            user_wave i (select_none is_runnable items e) (select_none is_self_approvable items f) g
              (select-Memᴰ is_explicit items i k)
              ((eq_iff i.run_policy "explicit_request").0 (select_holds is_explicit items i k))
              (undecided g ∙ rw k refl)
      ]

      staged :
          (raw : RawCandidate) (c : StageCandidate)
          → candidate ≡ some raw
          → stage_candidate raw ≡ ok c
          → can_auto_instantiate_next_stage c ≡ true
          → Follows items candidate d
      unfolding after_stage auto_instantiate_next_stage stage_wave
      staged raw c k g s =
          safe_stage raw c (select_none is_runnable items e)
            (select_none is_self_approvable items f) k g (instantiable-IsSafeStage c s)
            (ok_injective (sym h ∙ decide_stage e f ∙ rw (k, g, s) refl))

      continues : Follows items candidate d
      continues = elim (Option-cases candidate) [
        | inl k ↦ waits (rw k (unfold auto_instantiate_next_stage in refl))
        | inr (raw, k) ↦ elim (Result-cases (stage_candidate raw)) [
          | inl (c, g) ↦ elim (Bool-cases (can_auto_instantiate_next_stage c)) [
            | inl s ↦ staged raw c k g s
            | inr s ↦ waits (rw k (unfold auto_instantiate_next_stage in rw (g, s) refl))
          ]
          | inr (x, g) ↦ absurd (raises raw x k g)
        ]
      ]
        where
          raises :
              (raw : RawCandidate) (x : Error)
              → candidate ≡ some raw
              → stage_candidate raw ≡ err x
              → ⊥
          raises raw x k g =
              let r : auto_instantiate_next_stage candidate ≡ err x =
                rw k (unfold auto_instantiate_next_stage in rw g refl) in
              cc (
                decide_stage e f,
                ap (λ (o : Result (Option Wave)). and_then o (λ w. ok (after_stage items w))) r,
              )

    decide-Follows : Follows items candidate d
    decide-Follows = elim (Option-cases (select_one is_runnable items)) [
      | inr (i, e) ↦ runs i e
      | inl e ↦ elim (Option-cases (select_one is_self_approvable items)) [
        | inr (i, f) ↦ approves i e f
        | inl f ↦ continues e f
      ]
    ]

pub next_decides :
    (raw : List RawItem) (items : List QueueItem) (candidate : Option RawCandidate)
    → queue_items raw ≡ ok items
    → next_terminal_or_runnable_state raw false candidate false ≡ decide items candidate
unfolding next_terminal_or_runnable_state
next_decides raw items candidate q = rw q refl

-- With no abort and no blocker, a decision follows the first rule that applies: an eligible auto wave
-- of the queue; else a wave on request that meets the ten conditions of Main's own approval; else the
-- candidate stage, if it meets its seven conditions; else a wave on request that waits for the user;
-- else nothing is left, and the queue is done.
pub decision-Follows :
    (raw : List RawItem) (items : List QueueItem) (candidate : Option RawCandidate)
    (d : QueueDecision)
    → queue_items raw ≡ ok items
    → next_terminal_or_runnable_state raw false candidate false ≡ ok d
    → Follows items candidate d
decision-Follows raw items candidate d q h =
    decide-Follows items candidate d (sym (next_decides raw items candidate q) ∙ h)
