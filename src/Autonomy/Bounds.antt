-- ===== src/Autonomy/Bounds.antt =====
-- backend/app/autonomy/service.py: what a step of a run gives, from the seed on.
use meridian_logistics.Prelude.{
  ℕ, zero, suc, subst, if◌then◌else◌, String, ◌≡◌, refl, inl, inr, true, false, Option, none, some,
  ap, arith, Bool-cases, ◌<◌, ◌≤◌, leb, eq_refl,
}
use meridian_logistics.Python.{ok, Result-cases}
use meridian_logistics.Python.Laws.{get-put}
use meridian_logistics.Controller.Models.{ProtectedCore, ControllerCheckpoint, checkpoint_to_dict}
use meridian_logistics.Controller.Models.Roundtrip.{checkpoint_from_dict-checkpoint_to_dict}
use meridian_logistics.Controller.Runtime.{
  Runtime, Files, document, write_checkpoint, resume, by_controller, no_checkpoint,
}
use meridian_logistics.Controller.Runtime.Resume.{
  IsEnabled, resume-write_checkpoint, resumed_decision, resumed_terminal, resumed_queue, requeued,
}
use meridian_logistics.Autonomy.Models.{
  AutonomyJobMetadata, StepOutcome, StepKind, execute_allowlisted_read, complete_job, step_value,
}
use meridian_logistics.Autonomy.Service.{
  is_enabled, seed_checkpoint, seed_metadata, seed_core, seed_autonomy_run, load_checkpoint,
  resume_one_step, advance_step, stepped, success, failure, step_on, step_at,
}

module _ (rt : Runtime) (id : String) (files : Files) where
  -- A checkpoint that was written is the one that the service loads, whatever the contract says of it.
  pub load_checkpoint-write_checkpoint :
      (c : ControllerCheckpoint) → load_checkpoint rt id (write_checkpoint id c files) ≡ ok (some c)
  unfolding load_checkpoint write_checkpoint
  load_checkpoint-write_checkpoint c =
      rw
        (
          get-put files id (document (checkpoint_to_dict c)) id,
          eq_refl id,
          checkpoint_from_dict-checkpoint_to_dict rt.reader c,
        )
        refl

  pub seed_writes :
      (now : String)
      → is_enabled rt.config ≡ true
      → seed_autonomy_run rt.config id now files ≡ (
        ok (some (seed_metadata rt.config id, seed_checkpoint id now)),
        write_checkpoint id (seed_checkpoint id now) files,
      )
  unfolding seed_autonomy_run
  seed_writes now on = rw on refl

-- The seed of a run is the checkpoint that is loaded for it.
pub seed_loads :
    (rt : Runtime) (id now : String) (files : Files)
    → is_enabled rt.config ≡ true
    → load_checkpoint rt id (seed_autonomy_run rt.config id now files).1
      ≡ ok (some (seed_checkpoint id now))
seed_loads rt id now files on =
    rw (seed_writes rt id files now on)
      (load_checkpoint-write_checkpoint rt id files (seed_checkpoint id now))

-- Where the service is enabled and its budget is not zero, the run that was seeded for a job
-- succeeds at its first step: the step is terminal, without an error, and counted.
pub seeded_run_completes :
    (rt : Runtime) (id now : String) (files : Files)
    → is_enabled rt.config ≡ true
    → 0 < rt.config.running_autonomy_max_steps
    → let seeded = seed_autonomy_run rt.config id now files in
      (seeded.0 ≡ ok (some (seed_metadata rt.config id, seed_checkpoint id now)))
      × (advance_step rt id (seed_metadata rt.config id) seeded.1
          ≡ ok (
            record (seed_metadata rt.config id) {
              step_index = 1;
              last_controller_action = step_value execute_allowlisted_read;
            },
            success execute_allowlisted_read (some complete_job),
          ))
unfolding advance_step resume_one_step seed_metadata seed_checkpoint
seeded_run_completes rt id now files on budget = (
  ap (λ x. x.0) (seed_writes rt id files now on),
  rw
      (
        seed_writes rt id files now on,
        on,
        not_over,
        load_checkpoint-write_checkpoint rt id files (seed_checkpoint id now),
      )
      refl,
)
  where
    not_over : leb rt.config.running_autonomy_max_steps 0 ≡ false
    not_over = ground arith

-- What holds of a step: it is terminal and counted, and it has no error only within the budget, with
-- the service enabled and a checkpoint that is read.
pub record IsBounded (rt : Runtime) (id : String) (m : AutonomyJobMetadata) (files : Files)
    (m' : AutonomyJobMetadata) (o : StepOutcome) : Type 0 where
  pub terminal : o.is_terminal ≡ true
  pub counted : m'.step_index ≡ suc m.step_index
  pub same_budget : m'.step_budget ≡ m.step_budget
  pub within :
      o.error_message ≡ none
      → (m'.step_index ≤ m'.step_budget)
        × (is_enabled rt.config ≡ true)
        × ((c : ControllerCheckpoint) × (load_checkpoint rt id files ≡ ok (some c)))

-- What holds of the outcome of a step.
abbrev Within : Runtime → String → AutonomyJobMetadata → Files → StepOutcome → Type 0
Within rt id m files o =
    (o.is_terminal ≡ true)
    × (o.error_message ≡ none
        → (m.step_index < m.step_budget)
          × (is_enabled rt.config ≡ true)
          × ((c : ControllerCheckpoint) × (load_checkpoint rt id files ≡ ok (some c))))

step_at_succeeds :
    (i : ℕ) (t : Option String)
    → (kind : StepKind) × (next : Option StepKind) × (step_at i t ≡ success kind next)
unfolding step_at
step_at_succeeds i (some t) = (complete_job, none, refl)
step_at_succeeds zero none = (execute_allowlisted_read, some complete_job, refl)
step_at_succeeds (suc i) none = (complete_job, none, refl)

module _ (rt : Runtime) (id : String) (m : AutonomyJobMetadata) (files : Files) where
  failure-Within : (message : String) → Within rt id m files (failure message)
  failure-Within message = (refl, λ q. absurd (cc q))

  step-Within :
      (c : Option ControllerCheckpoint)
      → load_checkpoint rt id files ≡ ok c
      → is_enabled rt.config ≡ true
      → m.step_index < m.step_budget
      → Within rt id m files (step_on m c)
  unfolding step_on
  step-Within none h on l = failure-Within "Checkpoint missing"
  step-Within (some c) h on l =
      let (kind, next, e) = step_at_succeeds m.step_index c.terminal_state in
      rw e (refl, λ q. (l, on, (c, h)))

  outcome-Within : (o : StepOutcome) → resume_one_step rt id m files ≡ ok o → Within rt id m files o
  unfolding resume_one_step
  outcome-Within o h = elim (Bool-cases (is_enabled rt.config)) [
    | inl e ↦ elim (Bool-cases (leb m.step_budget m.step_index)) [
      | inl l ↦
          subst (Within rt id m files) {x = failure "Step budget exhausted"} {y = o} (cc (h, e, l))
            (failure-Within "Step budget exhausted")
      | inr l ↦ elim (Result-cases (load_checkpoint rt id files)) [
        | inl (c, f) ↦
            subst (Within rt id m files) {x = step_on m c} {y = o} (cc (h, e, l, f))
              (step-Within c f e (ground arith))
        | inr (x, f) ↦ absurd (cc (h, e, l, f))
      ]
    ]
    | inr e ↦
        subst (Within rt id m files) {x = failure "Autonomy not enabled"} {y = o} (cc (h, e))
          (failure-Within "Autonomy not enabled")
  ]

  bounded : (o : StepOutcome) → Within rt id m files o → IsBounded rt id m files (stepped m o) o
  bounded o w = record { terminal = w.0; counted = refl; same_budget = refl; within = λ q. w.1 q }

-- A step that returns is terminal and counted; where it has no error, the count is within the budget,
-- the service is enabled, and there is a checkpoint of the job.
pub advance_step-IsBounded :
    (rt : Runtime) (id : String) (m m' : AutonomyJobMetadata) (o : StepOutcome) (files : Files)
    → advance_step rt id m files ≡ ok (m', o)
    → IsBounded rt id m files m' o
unfolding advance_step
advance_step-IsBounded rt id m m' o files h = elim (Result-cases (resume_one_step rt id m files)) [
  | inl (x, e) ↦
      let pair : AutonomyJobMetadata × StepOutcome = (stepped m x, x) in
      let same : pair ≡ (m', o) = cc (h, e) in
      subst (λ y. IsBounded rt id m files y.0 y.1) same
        (bounded rt id m files x (outcome-Within rt id m files x e))
  | inr (x, e) ↦ absurd (cc (h, e))
]

checkpoints_on : (rt : Runtime) → is_enabled rt.config ≡ true → IsEnabled rt
unfolding is_enabled
checkpoints_on rt on = ground (arith)

-- `ControllerRuntime.resume` ends a run that the service has just seeded: its queue has neither the
-- policy "auto" nor "explicit_request", so the decision is "done"; a contract that refuses the
-- checkpoint makes it a review.
pub resume_ends_seeded_run :
    (rt : Runtime) (id now : String) (core : ProtectedCore) (files : Files)
    → is_enabled rt.config ≡ true
    → resume rt id core (seed_autonomy_run rt.config id now files).1
      ≡ ok (
          if rt.is_valid (checkpoint_to_dict (seed_checkpoint id now))
          then record {
            protected_core = seed_core;
            decision = by_controller "done" "resume_from_checkpoint_queue_truth";
            checkpoint = some (seed_checkpoint id now);
          }
          else no_checkpoint core "checkpoint_packet_invalid_fail_soft")
unfolding seed_checkpoint resumed_decision resumed_terminal resumed_queue requeued
resume_ends_seeded_run rt id now core files on =
    rw (seed_writes rt id files now on)
      (resume-write_checkpoint rt id core files (seed_checkpoint id now) (checkpoints_on rt on))

-- A step within the budget succeeds where the service is enabled and the job has a checkpoint.
pub advance_step_succeeds :
    (rt : Runtime) (id : String) (m : AutonomyJobMetadata) (files : Files)
    (c : ControllerCheckpoint)
    → is_enabled rt.config ≡ true
    → m.step_index < m.step_budget
    → load_checkpoint rt id files ≡ ok (some c)
    → (kind : StepKind) × (next : Option StepKind) × (advance_step rt id m files
        ≡ ok (stepped m (success kind next), success kind next))
unfolding advance_step resume_one_step step_on
advance_step_succeeds rt id m files c on l h =
    let (kind, next, e) = step_at_succeeds m.step_index c.terminal_state in
    (kind, next, rw (on, not_over, h, e) refl)
  where
    not_over : leb m.step_budget m.step_index ≡ false
    not_over = ground (arith, l)
