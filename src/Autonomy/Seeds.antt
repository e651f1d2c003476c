-- ===== src/Autonomy/Seeds.antt =====
-- backend/app/autonomy/service.py and controller/runtime.py: the two readers of the checkpoint of a run
-- that was just seeded.
use meridian_logistics.Prelude.{String, ◌≡◌, refl, ◌∙◌, true, false, some, inl, inr, Bool-cases}
use meridian_logistics.Python.{ok}
use meridian_logistics.Controller.Models.{ProtectedCore, checkpoint_to_dict}
use meridian_logistics.Controller.Runtime.{Runtime, Files, resume, no_checkpoint}
use meridian_logistics.Controller.Contract.{lists_queue, EnforcesQueue}
use meridian_logistics.Autonomy.Service.{
  is_enabled, seed_queue, seed_checkpoint, seed_autonomy_run, load_checkpoint,
}
use meridian_logistics.Autonomy.Bounds.{seed_loads, resume_ends_seeded_run}

unlisted : lists_queue seed_queue ≡ false
unfolding lists_queue
unlisted = refl

seed_is_refused :
    (rt : Runtime) (id now : String)
    → EnforcesQueue rt
    → rt.is_valid (checkpoint_to_dict (seed_checkpoint id now)) ≡ false
seed_is_refused rt id now contract =
    elim (Bool-cases (rt.is_valid (checkpoint_to_dict (seed_checkpoint id now)))) [
      | inl v ↦ absurd (
          cc (
            contract (seed_checkpoint id now) seed_queue (unfold seed_checkpoint in refl) v,
            unlisted,
          ))
      | inr v ↦ v
    ]

-- Where autonomy is enabled and the validator enforces what the contract lists for a queue, the two
-- readers of a run that was just seeded disagree: the autonomy service, which does not ask the contract,
-- loads the checkpoint that it wrote, and `ControllerRuntime.resume` refuses it and asks for a review.
pub seeded_run_is_refused :
    (rt : Runtime) (id now : String) (core : ProtectedCore) (files : Files)
    → is_enabled rt.config ≡ true
    → EnforcesQueue rt
    → let seeded : Files = (seed_autonomy_run rt.config id now files).1 in
      (load_checkpoint rt id seeded ≡ ok (some (seed_checkpoint id now)))
      × (resume rt id core seeded ≡ ok (no_checkpoint core "checkpoint_packet_invalid_fail_soft"))
seeded_run_is_refused rt id now core files on contract = (
  seed_loads rt id now files on,
  resume_ends_seeded_run rt id now core files on ∙ rw (seed_is_refused rt id now contract) refl,
)
