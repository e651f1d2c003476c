-- ===== src/Controller/Runtime/Requests.antt =====
-- backend/app/controller/runtime.py: the methods that ask the policy.
use meridian_logistics.Prelude.{Bool}
use meridian_logistics.Controller.Policy.{
  RawSignal, Packet, Change, Question, should_open_review, should_open_repair,
  should_open_drift_review, should_open_parallel_research, should_open_parallel_repair,
  can_continue_while_repair_runs, should_merge_subagent_result,
}

abbrev pub review_required : Change → Bool
review_required c = should_open_review c

abbrev pub repair_required : RawSignal → Packet → Bool
repair_required s p = should_open_repair s p

abbrev pub drift_review_required : Bool → Bool → Bool → Bool → Bool
drift_review_required runs_longer plan_changed touched_multiple about_to_close =
    should_open_drift_review runs_longer plan_changed touched_multiple about_to_close

abbrev pub parallel_research_required : Question → Bool → Bool
parallel_research_required q current_product_claim =
    should_open_parallel_research q current_product_claim

abbrev pub parallel_repair_required : RawSignal → Packet → Bool → Bool → Bool
parallel_repair_required s p isolated_scope conflicts =
    should_open_parallel_repair s p isolated_scope conflicts

abbrev pub can_continue_with_parallel_repair : Bool → Bool → Bool → Bool
can_continue_with_parallel_repair blocker_affects isolated_scope conflicts =
    can_continue_while_repair_runs blocker_affects isolated_scope conflicts

abbrev pub should_merge_parallel_result : Bool → Bool → Bool → Bool
should_merge_parallel_result requested mutates conflicts =
    should_merge_subagent_result requested mutates conflicts
