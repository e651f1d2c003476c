-- ===== src/Controller/Runtime/Stops.antt =====
-- backend/app/controller/runtime.py: a queue that `finalize_queue` stopped, an aborted stage and a
-- compaction, seen by a later `resume`.
use meridian_logistics.Prelude.{
  String, ◌≡◌, refl, ◌≢◌, inl, inr, Bool, true, Option, some, List, map, ap, sym, subst, ◌∙◌,
  eq_iff, first_eq, second_eq, if◌then◌else◌,
}
use meridian_logistics.Python.{
  Error, Value, Dict, lift, pure, ◌>>=◌, ◌>>◌, ok, err, Result-cases, get,
}
use meridian_logistics.Python.Laws.{>>=-eq-ok, continue-eq-ok}
use meridian_logistics.Controller.Models.{
  ProtectedCore, FailureSignal, ControllerDecision, QueueState, ControllerCheckpoint,
  checkpoint_to_dict,
}
use meridian_logistics.Controller.Waves.{RawItem, QueueItem, RawCandidate, queue_items}
use meridian_logistics.Controller.Queue.{
  Action, continue, repair, review, research, waiting_user_approval, blocked, finished, aborted,
  action_value, QueueDecision, next_terminal_or_runnable_state, finalize_queue_state,
}
use meridian_logistics.Controller.Queue.Closing.{state_of, is_queue_action, closing_is_coherent}
use meridian_logistics.Controller.Stages.{RawTruth}
use meridian_logistics.Controller.Runtime.{
  Runtime, Files, document, ControllerResumeResult, ControllerRouteResult, no_checkpoint,
  loaded_with, load_checkpoint, write_checkpoint, terminal_action, resume, stage_checkpoint,
  record_stage_transition,
}
use meridian_logistics.Controller.Runtime.Closing.{
  queue_snapshot, with_queue_truth, persist_on, persist_queue_truth, finalize_candidate,
  persist_for, finalize_queue,
}
use meridian_logistics.Controller.Runtime.Resume.{
  IsEnabled, resumed, resumed_decision, resumed_terminal, load_document, resume-write_checkpoint,
}

ok_injective : {A : Type 0} {a b : A} → ok a ≡ ok b → a ≡ b
ok_injective h = cc

err-ne-ok : {A : Type 0} {z : Error} {a : A} → err z ≡ ok a → ⊥
err-ne-ok h = cc

-- The session's file holds the checkpoint, which the contract accepts.
pub record Holds (rt : Runtime) (id : String) (files : Files) (c : ControllerCheckpoint)
    : Type 0 where
  pub stored : get files id ≡ some (document (checkpoint_to_dict c))
  pub accepted : rt.is_valid (checkpoint_to_dict c) ≡ true

module _ (rt : Runtime) (on : IsEnabled rt) (id : String) (files : Files) (c : ControllerCheckpoint)
    (here : Holds rt id files c) where
  pub load_held : load_checkpoint rt id files ≡ ok (loaded_with c)
  load_held = load_document rt on id files c here.stored ∙ rw here.accepted refl

  persist_stored :
      (items : List (Dict Value)) (d : QueueDecision) (q : Option QueueState)
      → queue_snapshot d items ≡ ok q
      → persist_queue_truth rt id items d files
        ≡ (ok tt, write_checkpoint id (with_queue_truth c q d.terminal_state) files)
  unfolding persist_queue_truth persist_on
  persist_stored items d q e = rw (load_held, e) refl

  persist_raised :
      (items : List (Dict Value)) (d : QueueDecision) (z : Error)
      → queue_snapshot d items ≡ err z
      → persist_queue_truth rt id items d files ≡ (err z, files)
  unfolding persist_queue_truth persist_on
  persist_raised items d z e = rw (load_held, e) refl

  persisted :
      (items : List (Dict Value)) (d : QueueDecision) (files' : Files) (u : Unit {0})
      → persist_queue_truth rt id items d files ≡ (ok u, files')
      → (q : Option QueueState) × (files'
          ≡ write_checkpoint id (with_queue_truth c q d.terminal_state) files)
  persisted items d files' u h = elim (Result-cases (queue_snapshot d items)) [
    | inl (q, e) ↦ (q, sym (second_eq (sym (persist_stored items d q e) ∙ h)))
    | inr (z, e) ↦ absurd (err-ne-ok (first_eq (sym (persist_raised items d z e) ∙ h)))
  ]

finalized :
    (rt : Runtime) (id : String) (wave : String) (items : List (Dict Value)) (blocker : Bool)
    (given : Option RawCandidate) (control : Option RawTruth) (abort : Bool) (files files' : Files)
    (d : QueueDecision)
    → finalize_queue rt (some id) wave items blocker given control abort files ≡ (ok d, files')
    → (candidate : Option RawCandidate) × (finalize_queue_state wave
          (map RawItem.fields items)
          blocker
          candidate
          abort
        ≡ ok d)
      × (u : Unit {0}) × (persist_queue_truth rt id items d files ≡ (ok u, files'))
unfolding finalize_queue persist_for
finalized rt id wave items blocker given control abort files files' d h =
    let (candidate, e, k) =
      continue-eq-ok (finalize_candidate rt (some id) wave items given control)
        (λ candidate.
          lift (finalize_queue_state wave (map RawItem.fields items) blocker candidate abort)
          >>= λ decision. persist_queue_truth rt id items decision >> pure decision)
        files h in
    let (d', f, l) =
      continue-eq-ok (finalize_queue_state wave (map RawItem.fields items) blocker candidate abort)
        (λ decision. persist_queue_truth rt id items decision >> pure decision) files k in
    let (u, g, m) = >>=-eq-ok (persist_queue_truth rt id items d') (λ _. pure d') files l in
    let same : ok d' ≡ ok d = first_eq m in
    (
      candidate,
      f ∙ same,
      u,
      subst (λ (x : QueueDecision). persist_queue_truth rt id items x files ≡ (ok u, files'))
          (ok_injective same) (λ i. (g i, second_eq m i)),
    )

-- A decision was made, so the items could be read.
decided_items :
    (raw : List RawItem) (wave : String) (blocker : Bool) (candidate : Option RawCandidate)
    (abort : Bool) (d : QueueDecision)
    → finalize_queue_state wave raw blocker candidate abort ≡ ok d
    → (items : List QueueItem) × (queue_items raw ≡ ok items)
decided_items raw wave blocker candidate abort d h = elim (Result-cases (queue_items raw)) [
  | inl p ↦ p
  | inr (z, e) ↦ absurd (err-ne-ok {z = z} (sym (unread e) ∙ h))
]
  where
    unread :
        {z : Error}
        → queue_items raw ≡ err z
        → finalize_queue_state wave raw blocker candidate abort ≡ err z
    unread e = unfold finalize_queue_state next_terminal_or_runnable_state in rw e refl

stopped_action :
    (a : Action) (last : ControllerDecision) (o : Option QueueState)
    → is_queue_action a ≡ true
    → a ≢ continue
    → (resumed_terminal last o (state_of a)).action ≡ action_value a
unfolding resumed_terminal state_of action_value terminal_action
stopped_action continue last o q n = absurd (n refl)
stopped_action repair last o q n = cc
stopped_action review last o q n = cc
stopped_action research last o q n = cc
stopped_action waiting_user_approval last o q n = refl
stopped_action blocked last o q n = refl
stopped_action finished last o q n = refl
stopped_action aborted last o q n = refl

stop_action :
    (c : ControllerCheckpoint) (q : Option QueueState) (d : QueueDecision)
    → d.terminal_state ≡ state_of d.action
    → is_queue_action d.action ≡ true
    → d.action ≢ continue
    → (resumed_decision (with_queue_truth c q d.terminal_state)).action ≡ action_value d.action
unfolding resumed_decision
stop_action c q d e a n =
    ap (λ (t : Option String). (resumed_terminal c.controller_last_decision q t).action) e
    ∙ stopped_action d.action c.controller_last_decision q a n

-- Where the checkpoints are on, a queue that was closed for a session that has a checkpoint, which the
-- contract accepts, with any decision but to continue, is resumed as that decision: the file holds a checkpoint with the decision's terminal
-- state and else as before, which a resume gives with the decision's action, unless the contract
-- refuses it, and then the resume asks for a review.
pub stop_survives_resume :
    (rt : Runtime) (id wave : String) (core : ProtectedCore) (items : List (Dict Value))
    (blocker : Bool) (given : Option RawCandidate) (control : Option RawTruth) (abort : Bool)
    (files files' : Files) (c : ControllerCheckpoint) (d : QueueDecision)
    → IsEnabled rt
    → Holds rt id files c
    → finalize_queue rt (some id) wave items blocker given control abort files ≡ (ok d, files')
    → d.action ≢ continue
    → (q : Option QueueState) × (let c' = with_queue_truth c q d.terminal_state in
        ((resumed c').decision.action ≡ action_value d.action)
        × (resume rt id core files'
            ≡ ok (
                if rt.is_valid (checkpoint_to_dict c')
                then resumed c'
                else no_checkpoint core "checkpoint_packet_invalid_fail_soft")))
stop_survives_resume rt id wave core items blocker given control abort files files' c d on here h
      n =
    let (candidate, f, u, p) =
      finalized rt id wave items blocker given control abort files files' d h in
    let (q, w) = persisted rt on id files c here items d files' u p in
    let (is, r) = decided_items (map RawItem.fields items) wave blocker candidate abort d f in
    let (e, g, k) =
      closing_is_coherent wave (map RawItem.fields items) is blocker candidate abort d r f in
    (
      q,
      (
        stop_action c q d k.state k.action n,
        ap (λ (x : Files). resume rt id core x) w
            ∙ resume-write_checkpoint rt id core files (with_queue_truth c q d.terminal_state) on,
      ),
    )

pub recorded :
    (rt : Runtime) (id stage : String) (core : ProtectedCore) (route : ControllerRouteResult)
    (artifacts : List String) (failure : Option FailureSignal) (now : String) (files : Files)
    (loaded : ControllerResumeResult)
    → IsEnabled rt
    → load_checkpoint rt id files ≡ ok loaded
    → record_stage_transition rt id stage core route artifacts failure now files ≡ (
      ok (some (stage_checkpoint id stage core route artifacts failure loaded.checkpoint now)),
      write_checkpoint id
          (stage_checkpoint id stage core route artifacts failure loaded.checkpoint now)
          files,
    )
unfolding record_stage_transition
recorded rt id stage core route artifacts failure now files loaded on e = rw (e, on) refl

aborted_checkpoint :
    (id stage : String) (core : ProtectedCore) (route : ControllerRouteResult)
    (artifacts : List String) (failure : Option FailureSignal) (o : Option ControllerCheckpoint)
    (now : String)
    → route.authoritative.action ≡ "abort"
    → (resumed_decision (stage_checkpoint id stage core route artifacts failure o now)).action
      ≡ "aborted"
unfolding resumed_decision stage_checkpoint resumed_terminal terminal_action
aborted_checkpoint id stage core route artifacts failure o now h =
    rw ((eq_iff route.authoritative.action "abort").1 h) refl

-- A stage whose authoritative decision is to abort is resumed as aborted: where the earlier
-- checkpoint can be read, the recorded one is what a resume gives, with the action "aborted", unless
-- the contract refuses it, and then the resume asks for a review.
pub abort_survives_resume :
    (rt : Runtime) (id stage : String) (core fallback : ProtectedCore)
    (route : ControllerRouteResult) (artifacts : List String) (failure : Option FailureSignal)
    (now : String) (files : Files) (loaded : ControllerResumeResult)
    → IsEnabled rt
    → load_checkpoint rt id files ≡ ok loaded
    → route.authoritative.action ≡ "abort"
    → let t = record_stage_transition rt id stage core route artifacts failure now files in
      (c : ControllerCheckpoint) × (t.0 ≡ ok (some c))
      × ((resumed c).decision.action ≡ "aborted")
      × (resume rt id fallback t.1
          ≡ ok (
              if rt.is_valid (checkpoint_to_dict c)
              then resumed c
              else no_checkpoint fallback "checkpoint_packet_invalid_fail_soft"))
abort_survives_resume rt id stage core fallback route artifacts failure now files loaded on e h =
    let c = stage_checkpoint id stage core route artifacts failure loaded.checkpoint now in
    let p = recorded rt id stage core route artifacts failure now files loaded on e in
    (
      c,
      first_eq p,
      aborted_checkpoint id stage core route artifacts failure loaded.checkpoint now h,
      ap (λ (x : Files). resume rt id fallback x) (second_eq p)
          ∙ resume-write_checkpoint rt id fallback files c on,
    )
