-- ===== src/Controller/Stages/Examples.antt =====
-- Runs of the succession of stages on a concrete queue.
use meridian_logistics.Prelude.{String, ◌≡◌, ◌↔◌, true, false, none, some}
use meridian_logistics.Controller.Waves.{QueueItem}
use meridian_logistics.Controller.Stages.{ControlPlaneTruth, RawTruth, control_plane_truth_aligned}
use meridian_logistics.Controller.Stages.Alignment.{Agree, aligned_iff}

abbrev misaligned : ControlPlaneTruth
misaligned = record {
  queue_terminal_state = some "DONE";
  checkpoint_terminal_state = some "DONE";
  report_terminal_state = none;
  dispatch_terminal_state = some "DONE";
  queue_next_wave_name = none;
  checkpoint_next_wave_name = none;
  report_next_wave_name = none;
  dispatch_next_wave_name = none;
}

abbrev queued : QueueItem
queued = record {
  wave_name = "wave-2";
  status = "queued";
  run_policy = "auto";
  eligible = true;
  requires_explicit_request = false;
  approval_authority = "user";
  scope_expands = false;
  business_logic_changed = false;
  framework_migration = false;
  production_enablement = false;
  external_dependency = false;
  destructive_change = false;
  irreversible_action = false;
  external_spend = false;
  requires_human_authorization = false;
}

-- The name of a wave that is its own key.
abbrev as_it_is : String → String
as_it_is s = s

aligned_iff_example :
    (control_plane_truth_aligned (some (RawTruth.given misaligned)) ≡ true)
    ↔ (Agree (some "DONE") (some "DONE") none (some "DONE") × Agree none none none none)
aligned_iff_example = aligned_iff misaligned
