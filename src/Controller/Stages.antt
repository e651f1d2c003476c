-- ===== src/Controller/Stages.antt =====
-- backend/app/controller/policy.py: whether the four surfaces of the control plane agree, which stage
-- follows a closed wave, and the tests of a wave before it is promoted.
pub mod Alignment
pub mod Succession
mod Examples
use meridian_logistics.Prelude.{
  String, Bool, true, false, not, Option, none, some, List, [], ◌∷◌, ◌==◌, ◌&&◌, ◌||◌, opt_eq,
  if◌then◌else◌,
}
use meridian_logistics.Python.{Result, ok, and_then, Dict, get}
use meridian_logistics.Controller.Policy.{requires_explicit_user_approval}
use meridian_logistics.Controller.Waves.{QueueItem, RawItem, queue_items, StageCandidate}

pub record ControlPlaneTruth : Type 0 where
  pub queue_terminal_state : Option String
  pub checkpoint_terminal_state : Option String
  pub report_terminal_state : Option String
  pub dispatch_terminal_state : Option String
  pub queue_next_wave_name : Option String
  pub checkpoint_next_wave_name : Option String
  pub report_next_wave_name : Option String
  pub dispatch_next_wave_name : Option String

-- The truth as a caller gives it; the entries of a dict are texts or None.
pub data RawTruth : Type 0 where
  given : ControlPlaneTruth → RawTruth
  fields : Dict (Option String) → RawTruth

entry : Option (Option String) → Option String
entry none = none
entry (some v) = v

-- _control_plane_truth, of a truth that is there
unfoldable pub control_plane_truth : RawTruth → ControlPlaneTruth
unfolding entry
control_plane_truth (given t) = t
control_plane_truth (fields d) = record {
  queue_terminal_state = entry (get d "queue_terminal_state");
  checkpoint_terminal_state = entry (get d "checkpoint_terminal_state");
  report_terminal_state = entry (get d "report_terminal_state");
  dispatch_terminal_state = entry (get d "dispatch_terminal_state");
  queue_next_wave_name = entry (get d "queue_next_wave_name");
  checkpoint_next_wave_name = entry (get d "checkpoint_next_wave_name");
  report_next_wave_name = entry (get d "report_next_wave_name");
  dispatch_next_wave_name = entry (get d "dispatch_next_wave_name");
}

contains : Option String → List (Option String) → Bool
contains x [] = false
contains x (y ∷ ys) = opt_eq x y || contains x ys

-- The elements of a set built from a list.
pub distinct : List (Option String) → List (Option String)
unfolding contains
distinct [] = []
distinct (x ∷ xs) = let rest = distinct xs in if contains x xs then rest else x ∷ rest

-- len(set) == 1
pub is_single : List (Option String) → Bool
is_single (x ∷ []) = true
is_single _ = false

unfoldable pub aligned : ControlPlaneTruth → Bool
unfolding distinct is_single
aligned t =
    is_single (
      distinct (
        t.queue_terminal_state ∷ t.checkpoint_terminal_state ∷ t.report_terminal_state
        ∷ t.dispatch_terminal_state ∷ []))
    && is_single (
        distinct (
          t.queue_next_wave_name ∷ t.checkpoint_next_wave_name ∷ t.report_next_wave_name
          ∷ t.dispatch_next_wave_name ∷ []))

unfoldable pub control_plane_truth_aligned : Option RawTruth → Bool
unfolding aligned control_plane_truth
control_plane_truth_aligned none = true
control_plane_truth_aligned (some t) = aligned (control_plane_truth t)

abbrev pub truth_sync : StageCandidate
truth_sync = record {
  wave_name = "Control Plane Truth Sync";
  owner = "Main";
  objective =
      "Align queue, checkpoint, report, and dispatch controller truth before any terminal stop.";
  artifacts_in_scope =
      "dispatch-board.md" ∷ "reports/README.md" ∷ "decisions.md" ∷ "runbook.md" ∷ [];
  success_check = "All controller truth surfaces agree on terminal state and next wave.";
  why_next = "Misaligned controller truth must be repaired before a terminal state can be trusted.";
  within_approved_scope = true;
  non_destructive = true;
  requires_explicit_approval = false;
  repo_grounded = true;
  run_policy = "auto";
  external_dependency = false;
  framework_migration = false;
  risky_global_enablement = false;
}

abbrev pub docs_sync_stage : StageCandidate
docs_sync_stage = record {
  wave_name = "Controller Docs Sync";
  owner = "Main";
  objective = "Keep controller control docs aligned with enforced queue semantics.";
  artifacts_in_scope =
      "decisions.md" ∷ "runbook.md" ∷ "dispatch-board.md" ∷ "reports/README.md" ∷ [];
  success_check = "Controller docs and tests describe the same queue and terminal-state rules.";
  why_next = "Docs are the next safe internal follow-up after decision tightening closes.";
  within_approved_scope = true;
  non_destructive = true;
  requires_explicit_approval = false;
  repo_grounded = true;
  run_policy = "auto";
  external_dependency = false;
  framework_migration = false;
  risky_global_enablement = false;
}

-- SAFE_STAGE_SUCCESSORS.get(name)
unfoldable pub safe_stage_successor : String → Option StageCandidate
safe_stage_successor name = if name == "decision tightening" then some docs_sync_stage else none

-- any(item.wave_name == name for item in items)
unfoldable pub has_wave : String → List QueueItem → Bool
has_wave name [] = false
has_wave name (i ∷ is) = i.wave_name == name || has_wave name is

unless_queued : List RawItem → StageCandidate → Result (Option StageCandidate)
unless_queued raw c =
    and_then (queue_items raw) λ items. ok (if has_wave c.wave_name items then none else some c)

succeeding : List RawItem → Option StageCandidate → Result (Option StageCandidate)
unfolding unless_queued
succeeding raw none = ok none
succeeding raw (some c) = unless_queued raw c

-- `key_of` is strip() and casefold() of the name of the current wave.
unfoldable pub derive_next_stage_candidate :
    (String → String) → String → List RawItem → Option RawTruth → Result (Option StageCandidate)
unfolding succeeding
derive_next_stage_candidate key_of current_wave raw truth =
    if control_plane_truth_aligned truth
    then succeeding raw (safe_stage_successor (key_of current_wave))
    else unless_queued raw truth_sync

unfoldable pub is_safe_auto_wave : String → Bool → Bool → Bool → Bool → Bool → Bool
is_safe_auto_wave run_policy eligible destructive production spend irreversible =
    run_policy == "auto"
    && (eligible
        && not (
            requires_explicit_user_approval (record {
              destructive_change = destructive;
              production_enablement = production;
              external_spend = spend;
              irreversible_action = irreversible;
              required_input_missing = false;
            })))

unfoldable pub is_wave_complete : Bool → Bool → Bool → Bool
is_wave_complete intended_change_exists required_checks_passed blocker_packet_present =
    intended_change_exists && (required_checks_passed && not blocker_packet_present)

any_runnable : List QueueItem → Bool
any_runnable [] = false
any_runnable (i ∷ is) = (i.run_policy == "auto" && i.eligible) || any_runnable is

unfoldable pub can_promote_next_wave : List RawItem → Bool → Result Bool
unfolding any_runnable
can_promote_next_wave raw blocker_packet_present =
    if blocker_packet_present
    then ok false
    else and_then (queue_items raw) (λ items. ok (any_runnable items))
