-- ===== src/Jobs/Examples.antt =====
-- Runs of the job store on concrete jobs.
use meridian_logistics.Prelude.{◌≡◌, refl, true, Option, none, some, List, [], ◌∷◌, arith}
use meridian_logistics.Python.{Result, ok, text, get}
use meridian_logistics.Table.{select_one, update}
use meridian_logistics.Jobs.Status.{
  JobStatus, value, pending, failed, from_string, is_terminal_status, valid_transition, Reach,
}
use meridian_logistics.Jobs.Store.{
  Payload, JobRow, JobState, JobStore, row, to_state, row_to_job, get_job,
}
use meridian_logistics.Jobs.Methods.{NewJob, fail_job, complete_job, remaining, change_status}
use meridian_logistics.Jobs.Ops.{Op, start, fail, complete, apply, run}
use meridian_logistics.Jobs.Steps.{SameOwner, SameOutcome}
use meridian_logistics.Jobs.Progress.{run-Reach, run_keeps_outcome}
use meridian_logistics.Jobs.Polling.{polls, IsPrepared, IsCompleted, polls_complete}

abbrev prepared_result : Payload
prepared_result = ("response_id", text "response-2") ∷ ("summary", text "Done.") ∷ []

abbrev pending_row : JobRow
pending_row = record {
  job_id = "job-1";
  session_id = "session-1";
  office_id = "memphis";
  broker_id = "broker-123";
  job_kind = "analytics_refresh";
  job_status = "pending";
  progress_message = "Queued.";
  retry_allowed = true;
  pending_response_id = none;
  completed_response_id = none;
  prepared_result_payload = none;
  result_payload = none;
  job_poll_token = some "token-1";
  completion_refreshes_remaining = none;
  completion_ready_at = none;
  created_at = "t0";
  updated_at = "t0";
  completed_at = none;
  error_message = none;
  failed_at = none;
  autonomy_metadata = none;
}

abbrev running_row : JobRow
running_row = record pending_row {
  job_status = "running";
  prepared_result_payload = some prepared_result;
  completion_refreshes_remaining = some 1;
}

abbrev failed_row : JobRow
failed_row = record pending_row { job_status = "failed"; error_message = some "timeout" }

abbrev holding : JobRow → JobStore
holding r = record { jobs = r ∷ []; completion_refresh_polls = 1 }

abbrev new_job : NewJob
new_job = record {
  job_id = "job-2";
  job_poll_token = "token-2";
  session_id = "session-1";
  broker_id = "broker-123";
  office_id = "memphis";
  progress_message = "Queued.";
  retry_allowed = true;
}

running_row-IsPrepared : IsPrepared running_row prepared_result (text "response-2")
running_row-IsPrepared = record {
  is_running = unfold value in refl;
  prepared = refl;
  response_id = unfold get in refl;
}

abbrev started_and_failed : List Op
started_and_failed = start "job-1" "Running." "t1" ∷ fail "job-1" "timeout" none "t2" ∷ []

run-Reach_example :
    (r : JobRow) × (b : JobStatus) × (row "job-1" (run started_and_failed (holding pending_row))
      ≡ some r)
    × SameOwner pending_row r
    × (from_string r.job_status ≡ ok b)
    × Reach pending b
run-Reach_example =
    run-Reach started_and_failed "job-1" (holding pending_row) pending_row pending
      (unfold select_one in refl) (unfold from_string in refl)

run_keeps_outcome_example :
    (r : JobRow) × (row "job-1" (run started_and_failed (holding failed_row)) ≡ some r)
    × SameOutcome failed_row r
run_keeps_outcome_example =
    run_keeps_outcome started_and_failed "job-1" (holding failed_row) failed_row failed
      (unfold select_one in refl) (unfold from_string in refl) (unfold is_terminal_status in refl)

polls_complete_example :
    (r : JobRow) × (row "job-1"
        (run (polls "job-1" ("t3" ∷ "t4" ∷ "t5" ∷ [])) (holding running_row))
      ≡ some r)
    × IsCompleted r prepared_result (text "response-2")
polls_complete_example =
    polls_complete ("t3" ∷ "t4" ∷ "t5" ∷ []) "job-1" (holding running_row) running_row
      prepared_result (text "response-2") (unfold select_one in refl) running_row-IsPrepared
      (unfold remaining in omega arith)

abbrev left_alone : Result (Option JobState) × JobStore
left_alone = (ok (some (to_state failed_row failed)), holding failed_row)

abbrev two_sessions : JobStore
two_sessions = record {
  jobs = record pending_row { job_id = "job-2"; session_id = "session-2" } ∷ failed_row ∷ [];
  completion_refresh_polls = 1;
}

-- A job that has failed is not completed afterwards.
failed_stays :
    run
      (fail "job-1" "timeout" none "t2" ∷ complete "job-1" prepared_result "Done." "t3" ∷ [])
      (holding pending_row)
    ≡ run (fail "job-1" "timeout" none "t2" ∷ []) (holding pending_row)
unfolding run apply fail_job complete_job get_job select_one update row_to_job from_string
    valid_transition change_status
failed_stays = refl
