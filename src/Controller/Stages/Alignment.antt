-- ===== src/Controller/Stages/Alignment.antt =====
-- backend/app/controller/policy.py, `control_plane_truth_aligned`: what the comparison of sets says of
-- the four surfaces.
use meridian_logistics.Prelude.{
  String, ◌≡◌, refl, ◌↔◌, Bool, true, Option, none, some, [], ◌∷◌, ◌&&◌, arith, ap, eq_iff, opt_eq,
}
use meridian_logistics.Controller.Stages.{
  ControlPlaneTruth, RawTruth, distinct, is_single, control_plane_truth_aligned,
}

opt_eq_iff : (a b : Option String) → (opt_eq a b ≡ true) ↔ (a ≡ b)
opt_eq_iff none none = (λ h. refl, λ h. refl)
opt_eq_iff (some a) (some b) = (λ h. ap some ((eq_iff a b).0 h), λ e. (eq_iff a b).1 (cc))
opt_eq_iff none (some b) = (λ h. cc, λ h. cc)
opt_eq_iff (some a) none = (λ h. cc, λ h. cc)

-- The four are one.
abbrev pub Agree : Option String → Option String → Option String → Option String → Type 0
Agree a b c d = (a ≡ b) × (b ≡ c) × (c ≡ d)

single-Agree :
    (a b c d : Option String) → is_single (distinct (a ∷ b ∷ c ∷ d ∷ [])) ≡ true → Agree a b c d
unfolding is_single distinct
single-Agree a b c d h = ground (
  arith,
  opt_eq_iff a b,
  opt_eq_iff a c,
  opt_eq_iff a d,
  opt_eq_iff b c,
  opt_eq_iff b d,
  opt_eq_iff c d,
)

Agree-single :
    (a b c d : Option String) → Agree a b c d → is_single (distinct (a ∷ b ∷ c ∷ d ∷ [])) ≡ true
unfolding is_single distinct
Agree-single a b c d h = ground (
  arith,
  opt_eq_iff a b,
  opt_eq_iff a c,
  opt_eq_iff a d,
  opt_eq_iff b c,
  opt_eq_iff b d,
  opt_eq_iff c d,
)

both : (a b : Bool) → a && b ≡ true → (a ≡ true) × (b ≡ true)
both a b h = ground arith

-- The surfaces of the control plane are aligned exactly when the four terminal states are one and the
-- four next waves are one.
pub aligned_iff :
    (t : ControlPlaneTruth)
    → (control_plane_truth_aligned (some (RawTruth.given t)) ≡ true) ↔ (
        Agree t.queue_terminal_state t.checkpoint_terminal_state t.report_terminal_state
          t.dispatch_terminal_state
        × Agree t.queue_next_wave_name t.checkpoint_next_wave_name t.report_next_wave_name
            t.dispatch_next_wave_name)
unfolding control_plane_truth_aligned
aligned_iff t = (
  λ h. let (p, q) = both _ _ h in (single-Agree _ _ _ _ p, single-Agree _ _ _ _ q),
  λ p. rw (Agree-single _ _ _ _ p.0) (Agree-single _ _ _ _ p.1),
)
