-- ===== src/Controller/Runtime/Closing.antt =====
-- backend/app/controller/runtime.py: closing a queue, and keeping its truth in the checkpoint.
use meridian_logistics.Prelude.{
  String, Bool, true, false, not, Option, none, some, List, [], ◌∷◌, map, ◌==◌, ◌&&◌, ◌||◌,
  option_map, if◌then◌else◌,
}
use meridian_logistics.Python.{
  Result, ok, Exec, pure, lift, modify, ◌>>=◌, ◌>>◌, and_then, Value, bool, text, Dict, item, str,
  truth, get_flag, get_text,
}
use meridian_logistics.Controller.Models.{QueueState, ControllerCheckpoint}
use meridian_logistics.Controller.Waves.{RawItem, StageCandidate, RawCandidate, Wave}
use meridian_logistics.Controller.Queue.{Action, continue, QueueDecision, finalize_queue_state}
use meridian_logistics.Controller.Stages.{RawTruth, derive_next_stage_candidate}
use meridian_logistics.Controller.Runtime.{Runtime, Files, load_checkpoint, write_checkpoint}

is_continue : Action → Bool
is_continue continue = true
is_continue _ = false

-- status of a snapshot: "active" if the decision continues
unfoldable pub snapshot_status : QueueDecision → String → String
unfolding is_continue
snapshot_status d status = if is_continue d.action then "active" else status

unfoldable pub wave_snapshot : QueueDecision → Wave → QueueState
wave_snapshot d w = record {
  wave_name = w.wave_name;
  status = snapshot_status d w.status;
  run_policy = w.run_policy;
  eligible = w.eligible;
  requires_explicit_request = w.requires_explicit_request;
  approval_authority = w.approval_authority;
}

unfoldable pub item_snapshot : QueueDecision → Dict Value → Result QueueState
unfolding is_continue
item_snapshot d i = and_then (item i "wave_name") λ wave_name.
    and_then
      (if is_continue d.action then ok "active" else and_then (item i "status") λ s. ok (str s))
      λ status. and_then (item i "run_policy") λ run_policy.
        and_then (item i "eligible") λ eligible. ok (record {
          wave_name = str wave_name;
          status = status;
          run_policy = str run_policy;
          eligible = truth eligible;
          requires_explicit_request = get_flag i "requires_explicit_request";
          approval_authority = get_text i "approval_authority" "user";
        })

-- The loop over the items, for the one of the decision's wave; str(None) is "None".
items_snapshot : QueueDecision → String → List (Dict Value) → Result (Option QueueState)
unfolding item_snapshot
items_snapshot d name [] = ok none
items_snapshot d name (i ∷ is) =
    let rest = items_snapshot d name is in
    if not (get_text i "wave_name" "None" == name)
    then rest
    else and_then (item_snapshot d i) λ q. ok (some q)

named_snapshot : QueueDecision → List (Dict Value) → Option String → Result (Option QueueState)
unfolding items_snapshot
named_snapshot d items none = ok none
named_snapshot d items (some name) = items_snapshot d name items

instantiated_snapshot : QueueDecision → List (Dict Value) → Option Wave → Result (Option QueueState)
unfolding named_snapshot wave_snapshot
instantiated_snapshot d items (some w) = ok (some (wave_snapshot d w))
instantiated_snapshot d items none = named_snapshot d items d.next_wave_name

-- _queue_snapshot_for_decision
unfoldable pub queue_snapshot : QueueDecision → List (Dict Value) → Result (Option QueueState)
unfolding instantiated_snapshot
queue_snapshot d items = instantiated_snapshot d items d.instantiated_wave

abbrev pub with_queue_truth :
    ControllerCheckpoint → Option QueueState → Option String → ControllerCheckpoint
with_queue_truth c queue state = record c { queue = queue; terminal_state = state }

unfoldable pub persist_on :
    String → List (Dict Value) → QueueDecision → Option ControllerCheckpoint → Exec Files (Unit {0})
persist_on id items d none = pure tt
persist_on id items d (some c) = do
  queue ← lift (queue_snapshot d items)
  modify (write_checkpoint id (with_queue_truth c queue d.terminal_state))

-- _persist_queue_truth
unfoldable pub persist_queue_truth :
    Runtime → String → List (Dict Value) → QueueDecision → Exec Files (Unit {0})
unfolding persist_on
persist_queue_truth rt id items d files =
    (do loaded ← lift (load_checkpoint rt id files); persist_on id items d loaded.checkpoint) files

-- The dict of a derived candidate.
unfoldable pub candidate_dict : StageCandidate → RawCandidate
candidate_dict c =
    RawCandidate.fields
      (("wave_name", text c.wave_name)
        ∷ ("owner", text c.owner)
        ∷ ("objective", text c.objective)
        ∷ ("success_check", text c.success_check)
        ∷ ("why_next", text c.why_next)
        ∷ ("run_policy", text c.run_policy)
        ∷ ("within_approved_scope", bool c.within_approved_scope)
        ∷ ("non_destructive", bool c.non_destructive)
        ∷ ("requires_explicit_approval", bool c.requires_explicit_approval)
        ∷ ("repo_grounded", bool c.repo_grounded)
        ∷ ("external_dependency", bool c.external_dependency)
        ∷ ("framework_migration", bool c.framework_migration)
        ∷ ("risky_global_enablement", bool c.risky_global_enablement)
        ∷ [])
      (map text c.artifacts_in_scope)

is_there {ℓ} : {A : Type ℓ} → Option A → Bool
is_there none = false
is_there (some a) = true

unfoldable pub finalize_candidate :
    Runtime
    → Option String
    → String
    → List (Dict Value)
    → Option RawCandidate
    → Option RawTruth
    → Result (Option RawCandidate)
unfolding is_there
finalize_candidate rt id wave items candidate control =
    if not (is_there candidate) && (not (is_there id) || is_there control)
    then and_then (derive_next_stage_candidate rt.key_of wave (map RawItem.fields items) control)
        (λ derived. ok (option_map candidate_dict derived))
    else ok candidate

unfoldable pub persist_for :
    Runtime → Option String → List (Dict Value) → QueueDecision → Exec Files (Unit {0})
unfolding persist_queue_truth
persist_for rt none items d = pure tt
persist_for rt (some id) items d = persist_queue_truth rt id items d

unfoldable pub finalize_queue :
    Runtime
    → Option String
    → String
    → List (Dict Value)
    → Bool
    → Option RawCandidate
    → Option RawTruth
    → Bool
    → Exec Files QueueDecision
unfolding persist_for
finalize_queue rt id wave items blocker given control abort = do
  candidate ← lift (finalize_candidate rt id wave items given control)
  decision ← lift (finalize_queue_state wave (map RawItem.fields items) blocker candidate abort)
  persist_for rt id items decision
  pure decision
