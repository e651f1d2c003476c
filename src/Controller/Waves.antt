-- ===== src/Controller/Waves.antt =====
-- backend/app/controller/policy.py: the items of the wave queue and the candidates for a next stage,
-- how they are read from what a caller gives, and which of them the controller may start by itself.
use meridian_logistics.Prelude.{
  String, Bool, true, false, not, Option, none, some, List, [], ◌∷◌, ◌==◌, ◌&&◌, map, if◌then◌else◌,
}
use meridian_logistics.Python.{
  Result, ok, and_then, Dict, Value, item, str, truth, get_flag, get_text,
}

pub record QueueItem : Type 0 where
  pub wave_name : String
  pub status : String
  pub run_policy : String
  pub eligible : Bool
  pub requires_explicit_request : Bool
  pub approval_authority : String
  pub scope_expands : Bool
  pub business_logic_changed : Bool
  pub framework_migration : Bool
  pub production_enablement : Bool
  pub external_dependency : Bool
  pub destructive_change : Bool
  pub irreversible_action : Bool
  pub external_spend : Bool
  pub requires_human_authorization : Bool

-- An item of the queue as a caller gives it: a QueueItem or a dict.
pub data RawItem : Type 0 where
  given : QueueItem → RawItem
  fields : Dict Value → RawItem

-- The body of the loop of _queue_items.
unfoldable pub queue_item : RawItem → Result QueueItem
queue_item (given i) = ok i
queue_item (fields d) = and_then (item d "wave_name") λ wave_name.
    and_then (item d "status") λ status. and_then (item d "run_policy") λ run_policy.
      and_then (item d "eligible") λ eligible. ok (record {
        wave_name = str wave_name;
        status = str status;
        run_policy = str run_policy;
        eligible = truth eligible;
        requires_explicit_request = get_flag d "requires_explicit_request";
        approval_authority = get_text d "approval_authority" "user";
        scope_expands = get_flag d "scope_expands";
        business_logic_changed = get_flag d "business_logic_changed";
        framework_migration = get_flag d "framework_migration";
        production_enablement = get_flag d "production_enablement";
        external_dependency = get_flag d "external_dependency";
        destructive_change = get_flag d "destructive_change";
        irreversible_action = get_flag d "irreversible_action";
        external_spend = get_flag d "external_spend";
        requires_human_authorization = get_flag d "requires_human_authorization";
      })

-- _queue_items
unfoldable pub queue_items : List RawItem → Result (List QueueItem)
queue_items [] = ok []
queue_items (r ∷ rs) = and_then (queue_item r) λ i. and_then (queue_items rs) λ is. ok (i ∷ is)

pub record StageCandidate : Type 0 where
  pub wave_name : String
  pub owner : String
  pub objective : String
  pub artifacts_in_scope : List String
  pub success_check : String
  pub why_next : String
  pub within_approved_scope : Bool
  pub non_destructive : Bool
  pub requires_explicit_approval : Bool
  pub repo_grounded : Bool
  pub run_policy : String
  pub external_dependency : Bool
  pub framework_migration : Bool
  pub risky_global_enablement : Bool

-- A candidate as a caller gives it; of a dict the entry `artifacts_in_scope`, a list, stands apart.
pub data RawCandidate : Type 0 where
  given : StageCandidate → RawCandidate
  fields : Dict Value → List Value → RawCandidate

-- _stage_candidate
unfoldable pub stage_candidate : RawCandidate → Result StageCandidate
stage_candidate (given c) = ok c
stage_candidate (fields d artifacts) = and_then (item d "wave_name") λ wave_name.
    and_then (item d "within_approved_scope") λ within.
      and_then (item d "non_destructive") λ non_destructive.
        and_then (item d "requires_explicit_approval") λ approval.
          and_then (item d "repo_grounded") λ grounded. ok (record {
            wave_name = str wave_name;
            owner = get_text d "owner" "Main";
            objective = get_text d "objective" "";
            artifacts_in_scope = map str artifacts;
            success_check = get_text d "success_check" "";
            why_next = get_text d "why_next" "";
            within_approved_scope = truth within;
            non_destructive = truth non_destructive;
            requires_explicit_approval = truth approval;
            repo_grounded = truth grounded;
            run_policy = get_text d "run_policy" "auto";
            external_dependency = get_flag d "external_dependency";
            framework_migration = get_flag d "framework_migration";
            risky_global_enablement = get_flag d "risky_global_enablement";
          })

-- The dict of an instantiated wave; `stage` holds the five entries that only a new stage has.
pub record Stage : Type 0 where
  pub owner : String
  pub objective : String
  pub artifacts_in_scope : List String
  pub success_check : String
  pub why_next : String

pub record Wave : Type 0 where
  pub wave_name : String
  pub status : String
  pub run_policy : String
  pub eligible : Bool
  pub requires_explicit_request : Bool
  pub approval_authority : String
  pub stage : Option Stage

unfoldable pub can_main_self_approve_wave : QueueItem → Bool
can_main_self_approve_wave i =
    i.approval_authority == "main"
    && (not i.scope_expands
        && (not i.business_logic_changed
            && (not i.framework_migration
                && (not i.production_enablement
                    && (not i.external_dependency
                        && (not i.destructive_change
                            && (not i.irreversible_action
                                && (not i.external_spend
                                    && not i.requires_human_authorization))))))))

unfoldable pub self_approved_wave : QueueItem → Wave
self_approved_wave i = record {
  wave_name = i.wave_name;
  status = "active";
  run_policy = i.run_policy;
  eligible = true;
  requires_explicit_request = false;
  approval_authority = i.approval_authority;
  stage = none;
}

-- can_auto_instantiate_next_stage, of a candidate that is there
unfoldable pub can_auto_instantiate_next_stage : StageCandidate → Bool
can_auto_instantiate_next_stage c =
    c.within_approved_scope
    && (c.non_destructive
        && (not c.requires_explicit_approval
            && (c.repo_grounded
                && (not c.external_dependency
                    && (not c.framework_migration && not c.risky_global_enablement)))))

unfoldable pub stage_wave : StageCandidate → Wave
stage_wave c = record {
  wave_name = c.wave_name;
  status = "queued";
  run_policy = c.run_policy;
  eligible = true;
  requires_explicit_request = false;
  approval_authority = "main";
  stage = some (record {
    owner = c.owner;
    objective = c.objective;
    artifacts_in_scope = c.artifacts_in_scope;
    success_check = c.success_check;
    why_next = c.why_next;
  });
}

unfoldable pub auto_instantiate_next_stage : Option RawCandidate → Result (Option Wave)
auto_instantiate_next_stage none = ok none
auto_instantiate_next_stage (some raw) =
    and_then (stage_candidate raw)
      λ c. ok (if can_auto_instantiate_next_stage c then some (stage_wave c) else none)
