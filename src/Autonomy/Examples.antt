-- ===== src/Autonomy/Examples.antt =====
-- Runs of the autonomy service on a concrete job.
use meridian_logistics.Prelude.{Bool, Option, none, subst, ◌≡◌, refl, true, false, some, [], arith}
use meridian_logistics.Python.{Result, ok, err, value_error, get}
use meridian_logistics.Python.Json.{Reader}
use meridian_logistics.Controller.Runtime.{Runtime, Files, resume, no_checkpoint}
use meridian_logistics.Controller.Models.{QueueState, ControllerCheckpoint, checkpoint_from_dict}
use meridian_logistics.Controller.Models.Roundtrip.{checkpoint_from_dict-checkpoint_to_dict}
use meridian_logistics.Controller.Contract.{lists_queue, EnforcesQueue}
use meridian_logistics.Autonomy.Seeds.{seeded_run_is_refused}
use meridian_logistics.Autonomy.Models.{
  AutonomyJobMetadata, execute_allowlisted_read, complete_job, step_value,
}
use meridian_logistics.Autonomy.Service.{
  is_enabled, is_eligible_for_autonomy, seed_autonomy_run, seed_metadata, seed_checkpoint,
  seed_core, advance_step, load_checkpoint, resume_one_step, stepped, success, failure,
}
use meridian_logistics.Autonomy.Bounds.{seeded_run_completes, IsBounded, advance_step-IsBounded}

abbrev reader : Reader
reader = record { shown = λ j. "[]"; int_of = λ s. err (value_error s) }

abbrev runtime : Runtime
runtime = record {
  config = record {
    controller_checkpoints_enabled = true;
    controller_precedence_enabled = true;
    running_autonomy_enabled = true;
    running_autonomy_max_steps = 4;
  };
  reader = reader;
  is_valid = λ j. true;
  key_of = λ s. s;
}

enabled : is_enabled runtime.config ≡ true
unfolding is_enabled
enabled = refl

abbrev metadata : AutonomyJobMetadata
metadata = seed_metadata runtime.config "job-1"

-- Without a checkpoint the step fails.
missing_fails :
    advance_step runtime "job-1" metadata []
    ≡ ok (stepped metadata (failure "Checkpoint missing"), failure "Checkpoint missing")
unfolding advance_step resume_one_step is_enabled load_checkpoint get seed_metadata
missing_fails = refl

advance_step-IsBounded_example :
    IsBounded runtime "job-1" metadata
      (seed_autonomy_run runtime.config "job-1" "t0" []).1
      (record metadata {
        step_index = 1;
        last_controller_action = step_value execute_allowlisted_read;
      })
      (success execute_allowlisted_read (some complete_job))
advance_step-IsBounded_example =
    advance_step-IsBounded runtime "job-1" metadata
      (record metadata {
        step_index = 1;
        last_controller_action = step_value execute_allowlisted_read;
      })
      (success execute_allowlisted_read (some complete_job))
      (seed_autonomy_run runtime.config "job-1" "t0" []).1
      (seeded_run_completes runtime "job-1" "t0" [] enabled (omega arith)).1

-- A validator that reads the queue of a checkpoint and asks the contract of it.
queue_accepted : Option QueueState → Bool
queue_accepted none = true
queue_accepted (some q) = lists_queue q

accepted : Result ControllerCheckpoint → Bool
accepted (ok c) = queue_accepted c.queue
accepted (err e) = false

abbrev contracted : Runtime
contracted = record runtime { is_valid = λ j. accepted (checkpoint_from_dict reader j) }

enforces : EnforcesQueue contracted
unfolding queue_accepted accepted
enforces c q h v =
    subst (λ (o : Option QueueState). queue_accepted o ≡ true) h
      (subst (λ (x : Result ControllerCheckpoint). accepted x ≡ true)
        (checkpoint_from_dict-checkpoint_to_dict reader c) v)

seeded_run_is_refused_example :
    let seeded : Files = (seed_autonomy_run contracted.config "job-1" "t0" []).1 in
    (load_checkpoint contracted "job-1" seeded ≡ ok (some (seed_checkpoint "job-1" "t0")))
    × (resume contracted "job-1" seed_core seeded
        ≡ ok (no_checkpoint seed_core "checkpoint_packet_invalid_fail_soft"))
seeded_run_is_refused_example =
    seeded_run_is_refused contracted "job-1" "t0" seed_core [] enabled enforces

-- A prompt that asks for a booking is not for the background.
no_booking : is_eligible_for_autonomy (λ s. s) runtime.config "please book the load" true ≡ false
unfolding is_eligible_for_autonomy
no_booking = refl

refresh_is_eligible :
    is_eligible_for_autonomy (λ s. s) runtime.config "refresh the exceptions" true ≡ true
unfolding is_eligible_for_autonomy
refresh_is_eligible = refl
