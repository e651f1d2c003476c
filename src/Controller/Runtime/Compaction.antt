-- ===== src/Controller/Runtime/Compaction.antt =====
-- backend/app/controller/runtime.py, `prepare_compaction`: what a compaction keeps.
use meridian_logistics.Prelude.{
  ℕ, ◌+◌, String, ◌≡◌, refl, some, List, ap, ◌∙◌, first_eq, if◌then◌else◌,
}
use meridian_logistics.Python.{Value, Dict, ok}
use meridian_logistics.Controller.Models.{ProtectedCore, ControllerCheckpoint, checkpoint_to_dict}
use meridian_logistics.Controller.Runtime.{Runtime, Files, write_checkpoint, resume, no_checkpoint}
use meridian_logistics.Controller.Runtime.Compress.{
  Strategy, CompressionEnvelope, compact, compacted, prepare_compaction, base_checkpoint,
}
use meridian_logistics.Controller.Runtime.Resume.{
  IsEnabled, resumed, resumed_decision, resume-write_checkpoint,
}
use meridian_logistics.Controller.Runtime.Stops.{Holds, load_held}

module _ {S : Type 0} (rt : Runtime) (id : String) (fallback core : ProtectedCore)
    (strategy : Strategy S) (halo recent : List (Dict Value)) (trigger : ℕ) (now : String)
    (files : Files) (s : S) (c : ControllerCheckpoint) (on : IsEnabled rt)
    (here : Holds rt id files c) where
  abbrev written : ControllerCheckpoint
  written =
      let e = (compact strategy c.protected_core c halo recent trigger s).0 in
      compacted id c e.strategy_name e.compressed_halo recent now

  compaction_lem : prepare_compaction rt id fallback strategy halo recent trigger now (files, s) ≡ (
    ok (some ((compact strategy c.protected_core c halo recent trigger s).0, written)),
    (
      write_checkpoint id written files,
      (compact strategy c.protected_core c halo recent trigger s).1,
    ),
  )
  unfolding prepare_compaction base_checkpoint
  compaction_lem = rw (load_held rt on id files c here, on) refl

  -- A compaction of a session whose checkpoint is accepted counts one more, and keeps the protected
  -- core and the decision: a resume before it and one after it give the same decision and core,
  -- unless the contract refuses the new checkpoint.
  pub compaction_keeps_decision :
      let t = prepare_compaction rt id fallback strategy halo recent trigger now (files, s) in
      (e : CompressionEnvelope) × (c' : ControllerCheckpoint) × (t.0 ≡ ok (some (e, c')))
      × (c'.compaction.compaction_sequence ≡ c.compaction.compaction_sequence + 1)
      × ((resumed c').protected_core ≡ c.protected_core)
      × ((resumed c').decision ≡ (resumed c).decision)
      × (resume rt id core t.1.0
          ≡ ok (
              if rt.is_valid (checkpoint_to_dict c')
              then resumed c'
              else no_checkpoint core "checkpoint_packet_invalid_fail_soft"))
  unfolding compacted resumed_decision
  compaction_keeps_decision = (
    _,
    written,
    first_eq compaction_lem,
    refl,
    refl,
    refl,
    ap (λ (x : Files). resume rt id core x) (ap (λ x. x.1.0) compaction_lem)
        ∙ resume-write_checkpoint rt id core files written on,
  )
