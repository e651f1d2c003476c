-- ===== src/Orchestrator/Stages.antt =====
-- backend/app/orchestrator/graph.py, `controller_stage_transition`, and what a later resume sees.
use meridian_logistics.Prelude.{
  String, ◌≡◌, ◌≢◌, refl, ◌∙◌, true, false, none, some, List, ap, arith, eq_iff, eq-false, ◌==◌,
  if◌then◌else◌, first_eq, second_eq,
}
use meridian_logistics.Python.{ok}
use meridian_logistics.Controller.Models.{ProtectedCore, ControllerCheckpoint, checkpoint_to_dict}
use meridian_logistics.Controller.Precedence.{resolve_controller_action, abort_lem}
use meridian_logistics.Controller.Runtime.{
  Runtime, Files, ControllerRouteResult, ControllerResumeResult, no_checkpoint, load_checkpoint,
  resume, stage_checkpoint, queue_of,
}
use meridian_logistics.Controller.Runtime.Resume.{
  IsEnabled, resumed, resumed_queue, resumed_terminal, resumed_decision, resume-write_checkpoint,
}
use meridian_logistics.Controller.Runtime.Stops.{recorded}
use meridian_logistics.Orchestrator.{
  StageSignals, controller_signals, controller_route_decision, controller_stage_transition,
  controller_resume,
}

signals_keep :
    (s : StageSignals) → (resolve_controller_action (controller_signals s)).action ≢ "abort"
signals_keep s = λ h. safe (abort_lem (controller_signals s) h)
  where
    safe : (controller_signals s).failure_signal.severity ≡ "unsafe" → ⊥
    safe h = unfold controller_signals in ground (arith, h, eq_iff "none" "unsafe")

resolved_ne_abort :
    (s : StageSignals)
    → ((resolve_controller_action (controller_signals s)).action == "abort") ≡ false
resolved_ne_abort s =
    eq-false (resolve_controller_action (controller_signals s)).action "abort" (signals_keep s)

module _ (rt : Runtime) (stage legacy : String) (s : StageSignals)
    (precedence : rt.config.controller_precedence_enabled ≡ true) where
  routed_ne_abort :
      ((controller_route_decision rt stage legacy s).authoritative.action == "abort") ≡ false
  unfolding controller_route_decision
  routed_ne_abort = rw precedence (resolved_ne_abort s)

-- Where the checkpoints are on, the earlier one is looked up without an error and the signals decide,
-- a stage transition of the orchestrator never aborts the run, whatever the signals are and even if the
-- triage asks to abort: it records a checkpoint with no terminal state, with the decision of the
-- signals, which is not to abort, and with the queue that was there. A later resume goes by that queue,
-- which may be done or wait for the user, or without one by the decision of the signals; if the contract
-- refuses the checkpoint, it asks for a review.
pub stage_transition_resumes :
    (rt : Runtime) (id stage : String) (core fallback : ProtectedCore) (legacy : String)
    (s : StageSignals) (artifacts : List String) (now : String) (files : Files)
    (loaded : ControllerResumeResult)
    → IsEnabled rt
    → rt.config.controller_precedence_enabled ≡ true
    → load_checkpoint rt id files ≡ ok loaded
    → let t = controller_stage_transition rt id stage core legacy s artifacts now files in
      let decision = resolve_controller_action (controller_signals s) in
      (c : ControllerCheckpoint) × (t.0 ≡ ok (some c))
      × (c.terminal_state ≡ none)
      × (c.controller_last_decision ≡ decision)
      × (decision.action ≢ "abort")
      × (c.queue ≡ queue_of loaded.checkpoint)
      × ((resumed c).decision ≡ resumed_queue decision (queue_of loaded.checkpoint))
      × (controller_resume rt id fallback t.1
          ≡ ok (
              if rt.is_valid (checkpoint_to_dict c)
              then resumed c
              else no_checkpoint fallback "checkpoint_packet_invalid_fail_soft"))
unfolding controller_stage_transition controller_resume
stage_transition_resumes rt id stage core fallback legacy s artifacts now files loaded on precedence
      e =
    let route : ControllerRouteResult = controller_route_decision rt stage legacy s in
    let c : ControllerCheckpoint =
      stage_checkpoint id stage core route artifacts none loaded.checkpoint now in
    let p = recorded rt id stage core route artifacts none now files loaded on e in
    let state : c.terminal_state ≡ none =
      unfold stage_checkpoint in rw (routed_ne_abort rt stage legacy s precedence) refl in
    let last : c.controller_last_decision ≡ resolve_controller_action (controller_signals s) =
      unfold stage_checkpoint controller_route_decision in rw precedence refl in
    let queue : c.queue ≡ queue_of loaded.checkpoint = unfold stage_checkpoint in refl in
    (
      c,
      first_eq p,
      state,
      last,
      signals_keep s,
      queue,
      unfold resumed_decision in λ i. resumed_terminal (last i) (queue i) (state i),
      ap (λ (x : Files). resume rt id fallback x) (second_eq p)
          ∙ resume-write_checkpoint rt id fallback files c on,
    )
