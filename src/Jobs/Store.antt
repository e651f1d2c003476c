-- ===== src/Jobs/Store.antt =====
-- backend/app/jobs/store.py, `InMemoryJobStore`, and the `JobState` of models.py. The table
-- `generation_jobs` is the list of its rows. What the clock, `uuid4` and `secrets` give is an
-- argument of each method; the lock of the store makes each statement one step.
use meridian_logistics.Prelude.{
  arith, ◌≡◌, inl, inr, ap, sym, ◌∙◌, eq_iff, Bool-cases, ℕ, String, Bool, Option, none, some, List,
  ◌&&◌, ◌==◌, opt_eq, if◌then◌else◌,
}
use meridian_logistics.Python.{Result-cases, Result, ok, err, Exec, modify, and_then, Value, Dict}
use meridian_logistics.Table.{select_one, update}
use meridian_logistics.Jobs.Status.{JobStatus, from_string, is_terminal_status, is_transient_status}

-- A JSON object, as it is before `json.dumps` and after `json.loads`.
abbrev pub Payload : Type 0
Payload = Dict Value

pub record JobRow : Type 0 where
  pub job_id : String
  pub session_id : String
  pub office_id : String
  pub broker_id : String
  pub job_kind : String
  pub job_status : String
  pub progress_message : String
  pub retry_allowed : Bool
  pub pending_response_id : Option String
  pub completed_response_id : Option String
  pub prepared_result_payload : Option Payload
  pub result_payload : Option Payload
  pub job_poll_token : Option String
  pub completion_refreshes_remaining : Option ℕ
  pub completion_ready_at : Option Value
  pub created_at : String
  pub updated_at : String
  pub completed_at : Option String
  pub error_message : Option String
  pub failed_at : Option String
  pub autonomy_metadata : Option Payload

pub record JobState : Type 0 where
  pub job_id : String
  pub session_id : String
  pub broker_id : String
  pub office_id : String
  pub status : JobStatus
  pub created_at : String
  pub updated_at : String
  pub progress_message : String
  pub retry_allowed : Bool
  pub pending_response_id : Option String
  pub completed_response_id : Option String
  pub result : Option Payload
  pub job_poll_token : Option String
  pub completion_refreshes_remaining : Option ℕ
  pub completion_ready_at : Option Value
  pub error_message : Option String
  pub failed_at : Option String
  pub autonomy_metadata : Option Payload

pub record JobStore : Type 0 where
  pub jobs : List JobRow
  pub completion_refresh_polls : ℕ

-- job.is_terminal() and job.is_transient()
abbrev pub is_terminal : JobState → Bool
is_terminal j = is_terminal_status j.status

abbrev pub is_transient : JobState → Bool
is_transient j = is_transient_status j.status

retry_status : String → Result JobStatus → Result JobStatus
retry_status v (ok s) = ok s
retry_status v (err e) = from_string (if v == "queued" then "queued" else v)

-- _status_from_string
status_from_string : String → Result JobStatus
unfolding retry_status
status_from_string v = retry_status v (from_string v)

abbrev pub to_state : JobRow → JobStatus → JobState
to_state r s = record {
  job_id = r.job_id;
  session_id = r.session_id;
  broker_id = r.broker_id;
  office_id = r.office_id;
  status = s;
  created_at = r.created_at;
  updated_at = r.updated_at;
  progress_message = r.progress_message;
  retry_allowed = r.retry_allowed;
  pending_response_id = r.pending_response_id;
  completed_response_id = r.completed_response_id;
  result = r.result_payload;
  job_poll_token = r.job_poll_token;
  completion_refreshes_remaining = r.completion_refreshes_remaining;
  completion_ready_at = r.completion_ready_at;
  error_message = r.error_message;
  failed_at = r.failed_at;
  autonomy_metadata = r.autonomy_metadata;
}

unfoldable pub row_to_job : JobRow → Result JobState
unfolding status_from_string
row_to_job r = and_then (status_from_string r.job_status) (λ s. ok (to_state r s))

-- WHERE job_id = ?
abbrev pub has_id : String → JobRow → Bool
has_id k r = r.job_id == k

abbrev pub row : String → JobStore → Option JobRow
row k s = select_one (has_id k) s.jobs

abbrev pub read_row : Option JobRow → Result (Option JobState)
read_row none = ok none
read_row (some r) = and_then (row_to_job r) (λ j. ok (some j))

unfoldable pub get_job : String → Exec JobStore (Option JobState)
get_job k s = (read_row (row k s), s)

-- WHERE job_id = ? AND job_poll_token = ?
abbrev pub has_token : String → String → JobRow → Bool
has_token k t r = r.job_id == k && opt_eq r.job_poll_token (some t)

unfoldable pub get_job_by_poll_token : String → String → Exec JobStore (Option JobState)
get_job_by_poll_token k t s = (read_row (select_one (has_token k t) s.jobs), s)

abbrev pub set_rows : String → (JobRow → JobRow) → JobStore → JobStore
set_rows k f s = record s { jobs = update (has_id k) f s.jobs }

-- An UPDATE of the row of one job.
abbrev pub execute : String → (JobRow → JobRow) → Exec JobStore (Unit {0})
execute k f = modify (set_rows k f)

-- Asking `from_string` again gives what it gave: the retry of `_status_from_string` changes nothing.
status_from_string_lem : (v : String) → status_from_string v ≡ from_string v
unfolding status_from_string
status_from_string_lem v = elim (Result-cases (from_string v)) [
  | inl (s, e) ↦ ground (arith, e)
  | inr (x, e) ↦ elim (Bool-cases (v == "queued")) [
    | inl q ↦ rw (e, q) (ap from_string (sym ((eq_iff v "queued").0 q)) ∙ e)
    | inr q ↦ rw (e, q) e
  ]
]

pub row_to_job_lem :
    (r : JobRow) → row_to_job r ≡ and_then (from_string r.job_status) (λ s. ok (to_state r s))
unfolding row_to_job
row_to_job_lem r =
    ap (λ (x : Result JobStatus). and_then x (λ s. ok (to_state r s)))
      (status_from_string_lem r.job_status)
