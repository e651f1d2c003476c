-- ===== src/Controller/Runtime/Examples.antt =====
-- Runs of the controller's runtime on concrete checkpoints.
use meridian_logistics.Prelude.{ℕ, ◌+◌, ◌≡◌, refl, true, false, Option, none, some, List, [], ◌∷◌}
use meridian_logistics.Python.{ok, err, value_error, Value, number, Dict, get}
use meridian_logistics.Python.Json.{Reader}
use meridian_logistics.Controller.Models.{
  ProtectedCore, ControllerCheckpoint, QueueState, checkpoint_to_dict, checkpoint_from_dict,
}
use meridian_logistics.Controller.Models.Roundtrip.{checkpoint_from_dict-checkpoint_to_dict}
use meridian_logistics.Controller.Queue.{
  QueueDecision, aborted, action_value, decide, closing_reason, next_terminal_or_runnable_state,
  finalize_queue_state,
}
use meridian_logistics.Controller.Waves.{queue_items}
use meridian_logistics.Controller.Runtime.{
  Runtime, Files, document, ControllerRouteResult, by_controller, default_failure_signal,
  write_checkpoint, resume,
}
use meridian_logistics.Controller.Runtime.Closing.{
  finalize_queue, finalize_candidate, persist_queue_truth, queue_snapshot, with_queue_truth,
}
use meridian_logistics.Controller.Runtime.Compress.{
  Strategy, CompressionEnvelope, prepare_compaction,
}
use meridian_logistics.Controller.Runtime.Resume.{resumed, resume-write_checkpoint}
use meridian_logistics.Controller.Runtime.Stops.{Holds, load_held, stop_survives_resume}
use meridian_logistics.Controller.Runtime.Compaction.{compaction_keeps_decision}

abbrev reader : Reader
reader = record { shown = λ j. "[]"; int_of = λ s. err (value_error s) }

abbrev runtime : Runtime
runtime = record {
  config = record {
    controller_checkpoints_enabled = true;
    controller_precedence_enabled = true;
    running_autonomy_enabled = false;
    running_autonomy_max_steps = 4;
  };
  reader = reader;
  is_valid = λ j. true;
  key_of = λ s. s;
}

abbrev core : ProtectedCore
core = record {
  task_goal = "Refresh the exceptions";
  expected_output = "A report";
  current_step = "read";
  resume_point = "read";
  hard_constraints = "read_only" ∷ [];
  business_invariants = [];
}

abbrev checkpoint : ControllerCheckpoint
checkpoint = record {
  checkpoint_id = "session-1:read";
  protected_core = core;
  compaction = record {
    strategy_name = "none";
    compaction_sequence = 2;
    halo_summary = "";
    recent_turn_ids = 7 ∷ 8 ∷ [];
    drift_status = "stable";
  };
  validated_artifacts = "report" ∷ [];
  active_failure_signal = default_failure_signal;
  controller_last_decision = by_controller "continue" "no_blocking_controller_event";
  queue = none;
  terminal_state = none;
  created_at = "t0";
  checkpoint_version = "0.1.0";
}

abbrev files : Files
files = ("session-1", document (checkpoint_to_dict checkpoint)) ∷ []

held : Holds runtime "session-1" files checkpoint
held = record { stored = unfold get in refl; accepted = refl }

checkpoint_from_dict-checkpoint_to_dict_example :
    checkpoint_from_dict reader (checkpoint_to_dict checkpoint) ≡ ok checkpoint
checkpoint_from_dict-checkpoint_to_dict_example =
    checkpoint_from_dict-checkpoint_to_dict reader checkpoint

resume-write_checkpoint_example :
    resume runtime "session-1" core (write_checkpoint "session-1" checkpoint [])
    ≡ ok (resumed checkpoint)
resume-write_checkpoint_example =
    resume-write_checkpoint runtime "session-1" core [] checkpoint refl

abbrev aborting : QueueDecision
aborting = record {
  action = aborted;
  terminal_state = some "ABORTED";
  next_wave_name = none;
  reason = "reads closed and hard_invariant_requires_abort";
  instantiated_wave = none;
}

abbrev closed_files : Files
closed_files =
    write_checkpoint "session-1" (with_queue_truth checkpoint none (some "ABORTED")) files

closes :
    finalize_queue runtime (some "session-1") "reads" [] false none none true files
    ≡ (ok aborting, closed_files)
unfolding finalize_queue finalize_candidate finalize_queue_state next_terminal_or_runnable_state
    decide queue_items persist_queue_truth closing_reason queue_snapshot
closes = rw (load_held runtime refl "session-1" files checkpoint held) refl

stop_survives_resume_example :
    (q : Option QueueState) × (let c' = with_queue_truth checkpoint q (some "ABORTED") in
      ((resumed c').decision.action ≡ action_value aborted)
      × (resume runtime "session-1" core closed_files ≡ ok (resumed c')))
stop_survives_resume_example =
    stop_survives_resume runtime "session-1" "reads" core [] false none none true files closed_files
      checkpoint aborting refl held closes (λ e. absurd (cc e))

abbrev abort_route : ControllerRouteResult
abort_route = record {
  authoritative = by_controller "abort" "triage_requested_abort";
  legacy_decision = by_controller "continue" "legacy_read_route";
  new_decision = none;
  decisions_differ = true;
  difference_reason = "";
}

-- A strategy that counts its calls.
abbrev counting : Strategy ℕ
counting = record {
  initialize = λ goal constraints n. n;
  compress = λ turns trigger n. ("halo", n + 1);
  name = λ n. "counting";
}

abbrev turns : List (Dict Value)
turns = (("id", number 9) ∷ []) ∷ []

compaction_keeps_decision_example :
    let t = prepare_compaction runtime "session-1" core counting turns turns 9 "t1" (files, 0) in
    (e : CompressionEnvelope) × (c' : ControllerCheckpoint) × (t.0 ≡ ok (some (e, c')))
    × (c'.compaction.compaction_sequence ≡ 3)
    × ((resumed c').protected_core ≡ core)
    × ((resumed c').decision ≡ (resumed checkpoint).decision)
    × (resume runtime "session-1" core t.1.0 ≡ ok (resumed c'))
compaction_keeps_decision_example =
    compaction_keeps_decision runtime "session-1" core core counting turns turns 9 "t1" files 0
      checkpoint refl held
