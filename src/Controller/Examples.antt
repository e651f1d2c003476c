-- ===== src/Controller/Examples.antt =====
-- Runs of the controller's predicates and of its queue on concrete waves.
use meridian_logistics.Prelude.{◌≡◌, refl, true, false, none, some, List, [], ◌∷◌}
use meridian_logistics.Python.{ok, err, key_error, text, item}
use meridian_logistics.Table.{select_one}
use meridian_logistics.Controller.Models.{FailureSignal}
use meridian_logistics.Controller.Precedence.{ControllerSignals, resolve_controller_action}
use meridian_logistics.Controller.Policy.{Packet, Risks, Work}
use meridian_logistics.Controller.Waves.{QueueItem, RawItem, queue_items, queue_item}
use meridian_logistics.Controller.Queue.{
  QueueDecision, decide, closing_reason, running, stopped, aborted, next_terminal_or_runnable_state,
  finalize_queue_state,
}
use meridian_logistics.Controller.Queue.Decision.{Follows, decision-Follows}
use meridian_logistics.Controller.Queue.Closing.{Closes, closing_is_coherent}

abbrev failure : FailureSignal
failure = record {
  kind = "contract_drift";
  severity = "recoverable";
  source = "validator";
  details = some "the schema differs";
}

abbrev signals : ControllerSignals
signals = record {
  review_outcome = "none";
  validator_outcome = "fail";
  triage_abort_requested = true;
  concrete_failure = false;
  failure_signal = failure;
}

-- A request of the triage to abort does not stop a recoverable failure from being repaired.
triage_repairs : (resolve_controller_action signals).action ≡ "repair"
unfolding resolve_controller_action
triage_repairs = refl

abbrev docs_work : Work
docs_work = record {
  internal_hardening = false;
  docs_sync = true;
  bounded_fix = false;
  local_validation = false;
  repo_grounded = false;
  safe_research = false;
  internal_design = false;
  approved_scope = true;
  business_logic_unchanged = true;
  checkpoint_schema_widening = false;
  framework_migration = false;
}

abbrev no_risks : Risks
no_risks = record {
  destructive_change = false;
  production_enablement = false;
  external_spend = false;
  irreversible_action = false;
  required_input_missing = false;
}

abbrev packet : Packet
packet = record {
  file_path = some "backend/app/main.py";
  failing_check = some "contract tests";
  contradiction_text = some "the status is not in the schema";
  bounded_scope = true;
}

abbrev auto_item : QueueItem
auto_item = record {
  wave_name = "wave-2";
  status = "queued";
  run_policy = "auto";
  eligible = true;
  requires_explicit_request = false;
  approval_authority = "user";
  scope_expands = false;
  business_logic_changed = false;
  framework_migration = false;
  production_enablement = false;
  external_dependency = false;
  destructive_change = false;
  irreversible_action = false;
  external_spend = false;
  requires_human_authorization = false;
}

abbrev internal_item : QueueItem
internal_item = record auto_item { run_policy = "explicit_request"; approval_authority = "main" }

abbrev waves : List RawItem
waves = RawItem.given internal_item ∷ RawItem.given auto_item ∷ []

decision-Follows_example :
    Follows
      (internal_item ∷ auto_item ∷ [])
      none
      (running "wave-2" "activate_next_eligible_auto_wave" none)
decision-Follows_example =
    decision-Follows waves (internal_item ∷ auto_item ∷ []) none
      (running "wave-2" "activate_next_eligible_auto_wave" none)
      (unfold queue_items queue_item in refl)
      (unfold next_terminal_or_runnable_state queue_items queue_item decide select_one in refl)

closing_is_coherent_example :
    (d : QueueDecision) × (next_terminal_or_runnable_state waves true none true ≡ ok d)
    × Closes true true d
        (stopped aborted "ABORTED" none "wave-1 closed and hard_invariant_requires_abort")
closing_is_coherent_example =
    closing_is_coherent "wave-1" waves (internal_item ∷ auto_item ∷ []) true none true
      (stopped aborted "ABORTED" none "wave-1 closed and hard_invariant_requires_abort")
      (unfold queue_items queue_item in refl)
      (unfold finalize_queue_state next_terminal_or_runnable_state queue_items queue_item
          closing_reason in
        refl)

-- An item without an entry that the source reads by index raises.
missing_entry :
    queue_items (RawItem.fields (("wave_name", text "wave-3") ∷ []) ∷ []) ≡ err (key_error "status")
unfolding queue_items queue_item item
missing_entry = refl
