-- ===== src/Controller/Policy.antt =====
-- backend/app/controller/policy.py: the predicates on blockers, reviews, research, approval and
-- missing input. The keyword arguments of a predicate are the fields of a record.
pub mod Approval
pub mod Blocker
use Prim.Native.Char.{code}
use meridian_logistics.Prelude.{
  ℕ, ◌<◌, String, ◌≡◌, refl, Bool, true, false, not, Option, none, some, ◌==◌, ◌&&◌, ◌||◌, leb, ltb,
  if◌then◌else◌,
}
use meridian_logistics.Python.{Dict, Value, null, str, get, get_text}
use meridian_logistics.Controller.Models.{FailureSignal}

-- The code points that `str.strip` removes.
is_space : ℕ → Bool
is_space c =
    (leb 9 c && leb c 13)
    || (leb 28 c && leb c 32)
    || (leb 133 c && leb c 133)
    || (leb 160 c && leb c 160)
    || (leb 5760 c && leb c 5760)
    || (leb 8192 c && leb c 8202)
    || (leb 8232 c && leb c 8233)
    || (leb 8239 c && leb c 8239)
    || (leb 8287 c && leb c 8287)
    || (leb 12288 c && leb c 12288)

-- value.strip() is not empty
unfoldable pub is_visible : String → Bool
unfolding is_space
is_visible String.[] = false
is_visible (String.◌∷◌ c s) = not (is_space (code c)) || is_visible s

-- _has_text
unfoldable pub has_text : Option String → Bool
unfolding is_visible
has_text none = false
has_text (some s) = is_visible s

-- What a caller may pass for a failure signal.
pub data RawSignal : Type 0 where
  no_signal : RawSignal
  signal : FailureSignal → RawSignal
  fields : Dict Value → RawSignal

-- None if the entry is missing or None, and otherwise str(entry)
optional_text : Option Value → Option String
unfolding str
optional_text none = none
optional_text (some null) = none
optional_text (some v) = some (str v)

-- _normalize_failure_signal
unfoldable pub normalize_failure_signal : RawSignal → Option FailureSignal
unfolding optional_text get get_text
normalize_failure_signal no_signal = none
normalize_failure_signal (signal s) = some s
normalize_failure_signal (fields d) = some (record {
  kind = get_text d "kind" "";
  severity = get_text d "severity" "none";
  source = get_text d "source" "controller";
  details = optional_text (get d "details");
})

pub record Packet : Type 0 where
  pub file_path : Option String
  pub failing_check : Option String
  pub contradiction_text : Option String
  pub bounded_scope : Bool

unfoldable pub exact : Option FailureSignal → Packet → Bool
exact none p = false
exact (some s) p =
    if s.severity == "none"
    then false
    else has_text (some s.kind)
      && (has_text s.details
          && (has_text p.file_path
              && (has_text p.failing_check && (has_text p.contradiction_text && p.bounded_scope))))

unfoldable pub is_exact_blocker_packet : RawSignal → Packet → Bool
is_exact_blocker_packet s p = exact (normalize_failure_signal s) p

unfoldable pub is_fresh_blocker : Bool → Bool → Bool → Bool
is_fresh_blocker exact_blocker stale superseded = exact_blocker && (not stale && not superseded)

unfoldable pub can_reopen_wave : Bool → Bool → Bool → Bool
can_reopen_wave fresh_blocker explicit_controller_reopen exact_blocker =
    fresh_blocker && (explicit_controller_reopen && exact_blocker)

unfoldable pub should_open_repair : RawSignal → Packet → Bool
should_open_repair s p = is_exact_blocker_packet s p

pub record Change : Type 0 where
  pub runtime_changed : Bool
  pub files_changed : ℕ
  pub contract_changed : Bool
  pub blocker_previously_stalled : Bool
  pub confidence_low : Bool

unfoldable pub should_open_review : Change → Bool
should_open_review c =
    c.runtime_changed
    || (ltb 1 c.files_changed
        || (c.contract_changed || (c.blocker_previously_stalled || c.confidence_low)))

unfoldable pub is_review_required : Change → Bool
unfolding should_open_review
is_review_required c = should_open_review c

pub record Question : Type 0 where
  pub freshness_matters : Bool
  pub framework_or_vendor_claim : Bool
  pub repo_contains_answer : Bool

unfoldable pub should_open_research : Question → Bool → Bool
should_open_research q architecture_comparison =
    if q.repo_contains_answer
    then false
    else q.freshness_matters || (q.framework_or_vendor_claim || architecture_comparison)

unfoldable pub should_use_web_search : Question → Bool
should_use_web_search q =
    if q.repo_contains_answer then false else q.freshness_matters || q.framework_or_vendor_claim

unfoldable pub should_open_parallel_research : Question → Bool → Bool
should_open_parallel_research q current_product_claim =
    if q.repo_contains_answer
    then false
    else q.freshness_matters || (q.framework_or_vendor_claim || current_product_claim)

-- The keyword arguments of requires_explicit_approval: the five that are required, and the five that
-- default to False.
pub record Risks : Type 0 where
  pub destructive_change : Bool
  pub production_enablement : Bool
  pub external_spend : Bool
  pub irreversible_action : Bool
  pub required_input_missing : Bool

pub record Scope : Type 0 where
  pub scope_expands : Bool
  pub business_logic_changed : Bool
  pub checkpoint_schema_widening : Bool
  pub framework_migration : Bool
  pub explicit_request_wave : Bool

abbrev pub default_scope : Scope
default_scope = record {
  scope_expands = false;
  business_logic_changed = false;
  checkpoint_schema_widening = false;
  framework_migration = false;
  explicit_request_wave = false;
}

unfoldable pub requires_explicit_approval : Risks → Scope → Bool
requires_explicit_approval r s =
    r.destructive_change
    || (r.production_enablement
        || (r.external_spend
            || (r.irreversible_action
                || (r.required_input_missing
                    || (s.scope_expands
                        || (s.business_logic_changed
                            || (s.checkpoint_schema_widening
                                || (s.framework_migration || s.explicit_request_wave))))))))

unfoldable pub requires_explicit_user_approval : Risks → Bool
unfolding requires_explicit_approval
requires_explicit_user_approval r = requires_explicit_approval r default_scope

-- The other keyword arguments of can_continue_without_user_input.
pub record Work : Type 0 where
  pub internal_hardening : Bool
  pub docs_sync : Bool
  pub bounded_fix : Bool
  pub local_validation : Bool
  pub repo_grounded : Bool
  pub safe_research : Bool
  pub internal_design : Bool
  pub approved_scope : Bool
  pub business_logic_unchanged : Bool
  pub checkpoint_schema_widening : Bool
  pub framework_migration : Bool

abbrev pub scope_of : Work → Scope
scope_of w = record {
  scope_expands = not w.approved_scope;
  business_logic_changed = not w.business_logic_unchanged;
  checkpoint_schema_widening = w.checkpoint_schema_widening;
  framework_migration = w.framework_migration;
  explicit_request_wave = false;
}

unfoldable pub can_continue_without_user_input : Work → Risks → Bool
unfolding requires_explicit_approval
can_continue_without_user_input w r =
    if requires_explicit_approval r (scope_of w)
    then false
    else w.internal_hardening
      || (w.docs_sync
          || (w.bounded_fix
              || (w.local_validation
                  || (w.repo_grounded
                      || (w.safe_research
                          || (w.internal_design
                              && (w.approved_scope
                                  && (w.business_logic_unchanged
                                      && (not w.checkpoint_schema_widening
                                          && not w.framework_migration)))))))))

unfoldable pub can_main_proceed : Work → Risks → Bool
unfolding can_continue_without_user_input
can_main_proceed w r = can_continue_without_user_input w r

unfoldable pub should_delegate : Bool → Bool → Bool → Bool
should_delegate exact_blocker selective_review needs_research =
    exact_blocker || (selective_review || needs_research)

unfoldable pub can_main_handle_directly : Bool → Bool → Bool → Bool
unfolding should_delegate
can_main_handle_directly exact_blocker selective_review needs_research =
    not (should_delegate exact_blocker selective_review needs_research)

unfoldable pub should_open_drift_review : Bool → Bool → Bool → Bool → Bool
should_open_drift_review runs_longer plan_changed touched_multiple about_to_close =
    runs_longer || (plan_changed || (touched_multiple || about_to_close))

unfoldable pub should_open_parallel_repair : RawSignal → Packet → Bool → Bool → Bool
unfolding should_open_repair
should_open_parallel_repair s p isolated_scope conflicts =
    should_open_repair s p && (isolated_scope && not conflicts)

unfoldable pub can_continue_while_repair_runs : Bool → Bool → Bool → Bool
can_continue_while_repair_runs blocker_affects isolated_scope conflicts =
    not blocker_affects && (isolated_scope && not conflicts)

unfoldable pub should_merge_subagent_result : Bool → Bool → Bool → Bool
should_merge_subagent_result explicit_merge_requested mutates_controller_truth conflicts =
    explicit_merge_requested && (not mutates_controller_truth && not conflicts)

unfoldable pub is_blocked_by_missing_required_input : Bool → Bool → Bool
is_blocked_by_missing_required_input required_input_missing repo_or_context_sufficient =
    required_input_missing && not repo_or_context_sufficient

unfoldable pub can_infer_from_repo_or_context : Bool → Bool → Bool
can_infer_from_repo_or_context repo_or_context_sufficient required_input_missing =
    repo_or_context_sufficient && not required_input_missing

pub data MissingInfoAction : Type 0 where
  infer research request_input block : MissingInfoAction

unfoldable pub missing_info_action : Bool → Bool → Bool → MissingInfoAction
unfolding can_infer_from_repo_or_context
missing_info_action required_input_missing repo_or_context_sufficient freshness_required =
    if can_infer_from_repo_or_context repo_or_context_sufficient required_input_missing
    then infer
    else if freshness_required
    then research
    else if required_input_missing
    then request_input
    else infer
