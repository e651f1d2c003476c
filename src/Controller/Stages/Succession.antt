-- ===== src/Controller/Stages/Succession.antt =====
-- backend/app/controller/policy.py: the stage that follows a closed wave, and the decision of the
-- queue on it.
use meridian_logistics.Prelude.{
  String, ◌≡◌, refl, ◌≢◌, ◌⊎◌, inl, inr, Bool, true, false, Option, none, some, List, [], ◌∷◌, ◌==◌,
  arith, ap, subst, sym, ◌∙◌, eq_iff, eq-false, Option-cases, Bool-cases, All, if◌then◌else◌,
}
use meridian_logistics.Python.{ok, and_then}
use mathlib.Core.List.{Memᴰ}
use meridian_logistics.Table.{select_one}
use meridian_logistics.Table.Laws.{select-Memᴰ, select_holds}
use meridian_logistics.Controller.Waves.{
  QueueItem, RawItem, queue_items, StageCandidate, RawCandidate, stage_candidate,
  can_auto_instantiate_next_stage, stage_wave, auto_instantiate_next_stage,
}
use meridian_logistics.Controller.Queue.{
  continue, QueueDecision, running, is_runnable, is_self_approvable, decide,
  next_terminal_or_runnable_state, after_stage,
}
use meridian_logistics.Controller.Queue.Decision.{
  decide_runs, decide_approves, decide_stage, next_decides,
}
use meridian_logistics.Controller.Stages.{
  RawTruth, control_plane_truth_aligned, truth_sync, docs_sync_stage, safe_stage_successor,
  has_wave, unless_queued, succeeding, derive_next_stage_candidate, any_runnable,
  can_promote_next_wave,
}

-- No item of the queue has the name.
abbrev pub IsAbsent : String → List QueueItem → Type 0
IsAbsent name items = All (λ i. i.wave_name ≢ name) items

has_wave-IsAbsent :
    (name : String) (items : List QueueItem) → has_wave name items ≡ false → IsAbsent name items
unfolding has_wave
has_wave-IsAbsent name [] h = tt
has_wave-IsAbsent name (i ∷ is) h =
    (λ e. ground (arith, (eq_iff i.wave_name name).1 e), has_wave-IsAbsent name is (ground arith))

IsAbsent-has_wave :
    (name : String) (items : List QueueItem) → IsAbsent name items → has_wave name items ≡ false
unfolding has_wave
IsAbsent-has_wave name [] a = refl
IsAbsent-has_wave name (i ∷ is) a =
    ground (arith, eq-false i.wave_name name a.0, IsAbsent-has_wave name is a.1)

-- A candidate that is one of the two stages of the source.
abbrev IsKnown : StageCandidate → Type 0
IsKnown c = (c ≡ truth_sync) ⊎ (c ≡ docs_sync_stage)

known_is_instantiated :
    (c : StageCandidate)
    → IsKnown c
    → auto_instantiate_next_stage (some (RawCandidate.given c)) ≡ ok (some (stage_wave c))
unfolding auto_instantiate_next_stage stage_candidate can_auto_instantiate_next_stage
known_is_instantiated c (inl e) = rw e refl
known_is_instantiated c (inr e) = rw e refl

unless_queued_lem :
    (raw : List RawItem) (items : List QueueItem) (k c : StageCandidate)
    → queue_items raw ≡ ok items
    → unless_queued raw k ≡ ok (some c)
    → (c ≡ k) × (has_wave k.wave_name items ≡ false)
unfolding unless_queued
unless_queued_lem raw items k c q h = elim (Bool-cases (has_wave k.wave_name items)) [
  | inl e ↦ absurd (ground (arith, q))
  | inr e ↦ (ground (arith, q), e)
]

succeeding_lem :
    (raw : List RawItem) (items : List QueueItem) (n : String) (c : StageCandidate)
    → queue_items raw ≡ ok items
    → succeeding raw (safe_stage_successor n) ≡ ok (some c)
    → (c ≡ docs_sync_stage) × (has_wave docs_sync_stage.wave_name items ≡ false)
unfolding succeeding safe_stage_successor
succeeding_lem raw items n c q h = elim (Bool-cases (n == "decision tightening")) [
  | inl e ↦
      unless_queued_lem raw items docs_sync_stage c q
        (subst (λ b. succeeding raw (if b then some docs_sync_stage else none) ≡ ok (some c)) e h)
  | inr e ↦ absurd (
      missing
        (subst (λ b. succeeding raw (if b then some docs_sync_stage else none) ≡ ok (some c)) e h))
]
  where
    missing : succeeding raw none ≡ ok (some c) → ⊥
    missing m = unfold succeeding in cc

module _ (key_of : String → String) (wave : String) (raw : List RawItem) (items : List QueueItem)
    (truth : Option RawTruth) (q : queue_items raw ≡ ok items) where
  derive_misaligned :
      control_plane_truth_aligned truth ≡ false
      → derive_next_stage_candidate key_of wave raw truth ≡ unless_queued raw truth_sync
  unfolding derive_next_stage_candidate
  derive_misaligned e = rw e refl

  derive_aligned :
      control_plane_truth_aligned truth ≡ true
      → derive_next_stage_candidate key_of wave raw truth
        ≡ succeeding raw (safe_stage_successor (key_of wave))
  unfolding derive_next_stage_candidate
  derive_aligned e = rw e refl

  -- A derived candidate is one of the two stages, and no item has its name.
  derived_lem :
      (c : StageCandidate)
      → derive_next_stage_candidate key_of wave raw truth ≡ ok (some c)
      → IsKnown c × (has_wave c.wave_name items ≡ false)
  derived_lem c h = elim (Bool-cases (control_plane_truth_aligned truth)) [
    | inl e ↦
        let (k, a) = succeeding_lem raw items (key_of wave) c q (sym (derive_aligned e) ∙ h) in
        (inr k, rw k a)
    | inr e ↦
        let (k, a) = unless_queued_lem raw items truth_sync c q (sym (derive_misaligned e) ∙ h) in
        (inl k, rw k a)
  ]

-- A stage that is derived for a closed wave is safe to start, whatever its key: offered as a
-- candidate it becomes a wave, and no item of the queue has its name.
pub derived_is_instantiated :
    (key_of : String → String) (wave : String) (raw : List RawItem) (items : List QueueItem)
    (truth : Option RawTruth) (c : StageCandidate)
    → queue_items raw ≡ ok items
    → derive_next_stage_candidate key_of wave raw truth ≡ ok (some c)
    → (auto_instantiate_next_stage (some (RawCandidate.given c)) ≡ ok (some (stage_wave c)))
      × IsAbsent c.wave_name items
derived_is_instantiated key_of wave raw items truth c q h =
    let (k, a) = derived_lem key_of wave raw items truth q c h in
    (known_is_instantiated c k, has_wave-IsAbsent c.wave_name items a)

any_runnable_lem :
    (items : List QueueItem)
    → any_runnable items ≡ true
    → (i : QueueItem) × (select_one is_runnable items ≡ some i)
unfolding any_runnable select_one
any_runnable_lem [] h = absurd (ground arith)
any_runnable_lem (x ∷ xs) h = elim (Bool-cases (is_runnable x)) [
  | inl e ↦ (x, rw e refl)
  | inr e ↦ let (i, f) = any_runnable_lem xs (ground arith) in (i, rw e f)
]

-- Where the next wave can be promoted, the decision of the queue without an abort is to continue with
-- an eligible auto wave of the queue, whatever candidate for a new stage is given.
pub promotion_continues :
    (raw : List RawItem) (items : List QueueItem) (blocker : Bool) (candidate : Option RawCandidate)
    → queue_items raw ≡ ok items
    → can_promote_next_wave raw blocker ≡ ok true
    → (i : QueueItem) × Memᴰ i items
      × (is_runnable i ≡ true)
      × (next_terminal_or_runnable_state raw blocker candidate false
          ≡ ok (running i.wave_name "activate_next_eligible_auto_wave" none))
unfolding can_promote_next_wave
promotion_continues raw items true candidate q h = absurd (ground arith)
promotion_continues raw items false candidate q h =
    let (i, e) = any_runnable_lem items (ground (arith, q)) in
    (
      i,
      select-Memᴰ is_runnable items i e,
      select_holds is_runnable items i e,
      next_decides raw items candidate q ∙ decide_runs items candidate i e,
    )

unless_absent :
    (raw : List RawItem) (items : List QueueItem) (c : StageCandidate)
    → queue_items raw ≡ ok items
    → has_wave c.wave_name items ≡ false
    → unless_queued raw c ≡ ok (some c)
unfolding unless_queued
unless_absent raw items c q h = rw (q, h) refl

-- Offered the repair of the control plane, the queue continues.
sync_continues :
    (items : List QueueItem)
    → (d : QueueDecision) × (decide items (some (RawCandidate.given truth_sync)) ≡ ok d)
      × (d.action ≡ continue)
      × (d.terminal_state ≡ none)
unfolding after_stage stage_wave
sync_continues items = elim (Option-cases (select_one is_runnable items)) [
  | inr (i, e) ↦ (_, decide_runs items (some (RawCandidate.given truth_sync)) i e, refl, refl)
  | inl e ↦ elim (Option-cases (select_one is_self_approvable items)) [
    | inr (i, f) ↦
        (_, decide_approves items (some (RawCandidate.given truth_sync)) i e f, refl, refl)
    | inl f ↦ (
      _,
      decide_stage items (some (RawCandidate.given truth_sync)) e f
          ∙ ap (λ o. and_then o (λ w. ok (after_stage items w)))
              (known_is_instantiated truth_sync (inl refl)),
      refl,
      refl,
    )
  ]
]

-- Where the surfaces of the control plane disagree and the wave that repairs them is not queued, the
-- queue does not stop: with the candidate derived for the closed wave, the decision without an abort
-- or a blocker is to continue, with no terminal state.
pub misaligned_continues :
    (key_of : String → String) (wave : String) (raw : List RawItem) (items : List QueueItem)
    (truth : RawTruth)
    → queue_items raw ≡ ok items
    → control_plane_truth_aligned (some truth) ≡ false
    → IsAbsent "Control Plane Truth Sync" items
    → (c : StageCandidate) × (d : QueueDecision) × (derive_next_stage_candidate key_of wave raw
          (some truth)
        ≡ ok (some c))
      × (next_terminal_or_runnable_state raw false (some (RawCandidate.given c)) false ≡ ok d)
      × (d.action ≡ continue)
      × (d.terminal_state ≡ none)
misaligned_continues key_of wave raw items truth q h a =
    let (d, e, f, g) = sync_continues items in
    (
      truth_sync,
      d,
      derive_misaligned key_of wave raw items (some truth) q h
          ∙ unless_absent raw items truth_sync q
              (IsAbsent-has_wave "Control Plane Truth Sync" items a),
      next_decides raw items (some (RawCandidate.given truth_sync)) q ∙ e,
      f,
      g,
    )
