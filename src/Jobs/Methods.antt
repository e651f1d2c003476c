-- ===== src/Jobs/Methods.antt =====
-- backend/app/jobs/store.py: the methods of `InMemoryJobStore` that write.
use meridian_logistics.Prelude.{
  ℕ, zero, suc, String, Bool, Option, none, some, List, [], ◌==◌, if◌then◌else◌,
}
use meridian_logistics.Python.{
  integrity_error, Result, ok, err, Exec, pure, lift, modify, ◌>>=◌, ◌>>◌, item, str, get_text,
  and_then,
}
use meridian_logistics.Table.{insert}
use meridian_logistics.Jobs.Status.{
  JobStatus, pending, running, succeeded, failed, cancelled, expired, value,
  validate_job_transition,
}
use meridian_logistics.Jobs.Store.{
  Payload, JobRow, JobState, JobStore, to_state, has_id, row, get_job, execute,
}

-- What a caller of `create_job` gives, and what the clock and the generators give it.
pub record NewJob : Type 0 where
  pub job_id : String
  pub job_poll_token : String
  pub session_id : String
  pub broker_id : String
  pub office_id : String
  pub progress_message : String
  pub retry_allowed : Bool

unfoldable pub new_row : NewJob → String → JobRow
unfolding value
new_row n now = record {
  job_id = n.job_id;
  session_id = n.session_id;
  office_id = n.office_id;
  broker_id = n.broker_id;
  job_kind = "analytics_refresh";
  job_status = value pending;
  progress_message = n.progress_message;
  retry_allowed = n.retry_allowed;
  pending_response_id = none;
  completed_response_id = none;
  prepared_result_payload = none;
  result_payload = none;
  job_poll_token = some n.job_poll_token;
  completion_refreshes_remaining = none;
  completion_ready_at = none;
  created_at = now;
  updated_at = now;
  completed_at = none;
  error_message = none;
  failed_at = none;
  autonomy_metadata = none;
}

inserted : JobState → JobStore → Option (List JobRow) → Result JobState × JobStore
inserted j s none = (err integrity_error, s)
inserted j s (some rows) = (ok j, record s { jobs = rows })

-- The returned job is built from the arguments, not read back.
unfoldable pub create_job : NewJob → String → Exec JobStore JobState
unfolding inserted new_row
create_job n now s =
    let r = new_row n now in inserted (to_state r pending) s (insert (has_id n.job_id) r s.jobs)

unfoldable pub prepare_set : Payload → String → JobRow → JobRow
prepare_set result now r = record r { prepared_result_payload = some result; updated_at = now }

unfoldable pub prepare_result : String → Payload → String → Exec JobStore (Unit {0})
unfolding prepare_set
prepare_result k result now = execute k (prepare_set result now)

unfoldable pub bind_set : String → String → JobRow → JobRow
bind_set response now r = record r { pending_response_id = some response; updated_at = now }

unfoldable pub bind_pending_response : String → String → String → Exec JobStore (Option JobState)
unfolding bind_set get_job
bind_pending_response k response now = do execute k (bind_set response now); get_job k

-- The branch of a method that found its job and a legal transition: `plan` gives the SET list, or
-- raises before the statement.
commit_change : String → Result (JobRow → JobRow) → Exec JobStore (Option JobState)
unfolding get_job
commit_change k plan = do set ← lift plan; execute k set; get_job k

-- try validate_job_transition(...) except InvalidJobTransitionError: return job
checked :
    String
    → JobState
    → Result (JobRow → JobRow)
    → Result (Unit {0})
    → Exec JobStore (Option JobState)
unfolding commit_change
checked k job plan (ok u) = commit_change k plan
checked k job plan (err e) = pure (some job)

when_found :
    String
    → JobStatus
    → (JobState → Result (JobRow → JobRow))
    → Option JobState
    → Exec JobStore (Option JobState)
unfolding checked validate_job_transition
when_found k next plan none = pure none
when_found k next plan (some job) =
    checked k job (plan job) (validate_job_transition job.status next)

-- The common body of start_job, fail_job, cancel_job, expire_job and complete_job.
unfoldable pub change_status :
    String → JobStatus → (JobState → Result (JobRow → JobRow)) → Exec JobStore (Option JobState)
unfolding when_found get_job
change_status k next plan = do found ← get_job k; when_found k next plan found

-- `a or b` on texts, where `a` may be None.
unfoldable pub text_or : Option String → String → String
text_or none b = b
text_or (some a) b = if a == "" then b else a

unfoldable pub start_set : ℕ → String → String → JobRow → JobRow
unfolding value
start_set polls message now r = record r {
  job_status = value running;
  progress_message = message;
  completion_refreshes_remaining = some polls;
  completion_ready_at = none;
  updated_at = now;
}

unfoldable pub start_job : String → String → String → Exec JobStore (Option JobState)
unfolding start_set
start_job k message now s =
    change_status k running (λ job. ok (start_set s.completion_refresh_polls message now)) s

unfoldable pub fail_set : String → String → String → JobRow → JobRow
unfolding value
fail_set message error now r = record r {
  job_status = value failed;
  progress_message = message;
  error_message = some error;
  failed_at = some now;
  completion_refreshes_remaining = none;
  completion_ready_at = none;
  updated_at = now;
}

unfoldable pub fail_job : String → String → Option String → String → Exec JobStore (Option JobState)
unfolding fail_set text_or
fail_job k error message now =
    change_status k failed (λ job. ok (fail_set (text_or message job.progress_message) error now))

unfoldable pub cancel_set : String → String → JobRow → JobRow
unfolding value
cancel_set message now r = record r {
  job_status = value cancelled;
  progress_message = message;
  completion_refreshes_remaining = none;
  completion_ready_at = none;
  updated_at = now;
}

unfoldable pub cancel_job : String → String → String → Exec JobStore (Option JobState)
unfolding cancel_set
cancel_job k message now = change_status k cancelled (λ job. ok (cancel_set message now))

unfoldable pub expire_set : String → String → JobRow → JobRow
unfolding value
expire_set message now r = record r {
  job_status = value expired;
  progress_message = message;
  error_message = some "Job exceeded maximum execution time.";
  completion_refreshes_remaining = none;
  completion_ready_at = none;
  updated_at = now;
}

unfoldable pub expire_job : String → String → String → Exec JobStore (Option JobState)
unfolding expire_set
expire_job k message now = change_status k expired (λ job. ok (expire_set message now))

unfoldable pub complete_set : String → String → Payload → String → JobRow → JobRow
unfolding value
complete_set response message result now r = record r {
  job_status = value succeeded;
  progress_message = message;
  completed_response_id = some response;
  result_payload = some result;
  completion_refreshes_remaining = none;
  completion_ready_at = none;
  error_message = none;
  updated_at = now;
  completed_at = some now;
}

-- str(result["response_id"]), read before the statement
unfoldable pub complete_plan : Payload → String → String → JobState → Result (JobRow → JobRow)
complete_plan result message now job =
    and_then (item result "response_id") (λ id. ok (complete_set (str id) message result now))

unfoldable pub complete_job : String → Payload → String → String → Exec JobStore (Option JobState)
unfolding complete_plan
complete_job k result message now = change_status k succeeded (complete_plan result message now)

unfoldable pub count_set : ℕ → String → JobRow → JobRow
count_set n now r = record r { completion_refreshes_remaining = some n; updated_at = now }

-- int(row["completion_refreshes_remaining"] or 0)
unfoldable pub remaining : JobRow → ℕ
remaining r = elim r.completion_refreshes_remaining [ none ↦ 0 | some n ↦ n ]

-- One poll of a running job whose result is prepared.
poll_prepared : String → Payload → ℕ → String → Exec JobStore (Option JobState)
unfolding count_set get_job get_text
poll_prepared k prepared zero now =
    complete_job k prepared
      (get_text prepared "summary" "Background refresh completed for Memphis exceptions.") now
poll_prepared k prepared (suc n) now = do execute k (count_set n now); get_job k

poll_row : String → JobState → Option JobRow → String → Exec JobStore (Option JobState)
unfolding poll_prepared remaining
poll_row k job none now = pure (some job)
poll_row k job (some r) now = elim r.prepared_result_payload [
  | none ↦ pure (some job)
  | some prepared ↦ poll_prepared k prepared (remaining r) now
]

-- job.status != JobStatus.RUNNING
poll_status : String → JobState → JobStatus → String → Exec JobStore (Option JobState)
unfolding poll_row
poll_status k job running now s = poll_row k job (row k s) now s
poll_status k job other now s = pure (some job) s

poll_found : String → Option JobState → String → Exec JobStore (Option JobState)
unfolding poll_status
poll_found k none now = pure none
poll_found k (some job) now = poll_status k job job.status now

unfoldable pub refresh_job : String → String → Exec JobStore (Option JobState)
unfolding poll_found get_job
refresh_job k now = do found ← get_job k; poll_found k found now

unfoldable pub metadata_set : Payload → Bool → String → JobRow → JobRow
metadata_set m trigger now r = record r {
  autonomy_metadata = some m;
  updated_at = now;
  completion_refreshes_remaining = if trigger then some 0 else r.completion_refreshes_remaining;
}

metadata_found :
    String → Payload → Bool → String → Option JobState → Exec JobStore (Option JobState)
unfolding metadata_set get_job
metadata_found k m trigger now none = pure none
metadata_found k m trigger now (some job) = do execute k (metadata_set m trigger now); get_job k

unfoldable pub update_autonomy_metadata :
    String → Payload → Bool → String → Exec JobStore (Option JobState)
unfolding metadata_found get_job
update_autonomy_metadata k m trigger now = do
  found ← get_job k
  metadata_found k m trigger now found

unfoldable pub reset : Exec JobStore (Unit {0})
reset = modify (λ s. record s { jobs = [] })
