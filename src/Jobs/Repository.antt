-- ===== src/Jobs/Repository.antt =====
-- backend/app/jobs/repository.py: `JobRepository`, on the table `generation_jobs` of the durable
-- database. A time is kept as its text, and a JSONB column as the dict that it encodes; the
-- references to other tables are not checked.
pub mod Laws
use meridian_logistics.Prelude.{
  ℕ, zero, suc, String, Bool, true, false, not, Option, none, some, List, [], ◌∷◌, map, ◌==◌, ◌&&◌,
  ◌||◌, opt_eq, if◌then◌else◌,
}
use meridian_logistics.Python.{
  integrity_error, Result, ok, err, Exec, pure, lift, gets, modify, ◌>>=◌, ◌>>◌, Value, get_text,
}
use meridian_logistics.Table.{select_one, select_all, limit, update, insert, delete}
use meridian_logistics.Jobs.Store.{Payload}

-- A row of the table, and the dict that `_row_to_dict` makes of it, which has the same entries.
pub record Job : Type 0 where
  pub job_id : String
  pub session_id : String
  pub office_id : String
  pub broker_id : String
  pub job_kind : String
  pub status : String
  pub progress_message : String
  pub retry_allowed : Bool
  pub pending_response_id : Option String
  pub completed_response_id : Option String
  pub result : Option Payload
  pub prepared_result : Option Payload
  pub job_poll_token : Option String
  pub completion_refreshes_remaining : Option ℕ
  pub completion_ready_at : Option Value
  pub artifact_key : Option String
  pub artifact_mime_type : Option String
  pub artifact_size_bytes : Option ℕ
  pub created_at : String
  pub updated_at : String
  pub completed_at : Option String

abbrev pub Jobs : Type 0
Jobs = List Job

abbrev pub has_id : String → Job → Bool
has_id k j = j.job_id == k

unfoldable pub get : String → Exec Jobs (Option Job)
get k = gets (λ t. select_one (has_id k) t)

unfoldable pub get_by_poll_token : String → String → Exec Jobs (Option Job)
get_by_poll_token k token =
    gets (λ t. select_one (λ j. j.job_id == k && opt_eq j.job_poll_token (some token)) t)

-- What a caller of `create` gives, and what the generators give it.
pub record NewJob : Type 0 where
  pub job_id : String
  pub job_poll_token : String
  pub session_id : String
  pub office_id : String
  pub broker_id : String
  pub job_kind : String
  pub progress_message : String
  pub retry_allowed : Bool

abbrev pub new_job : NewJob → String → Job
new_job n now = record {
  job_id = n.job_id;
  session_id = n.session_id;
  office_id = n.office_id;
  broker_id = n.broker_id;
  job_kind = n.job_kind;
  status = "queued";
  progress_message = n.progress_message;
  retry_allowed = n.retry_allowed;
  pending_response_id = none;
  completed_response_id = none;
  result = none;
  prepared_result = none;
  job_poll_token = some n.job_poll_token;
  completion_refreshes_remaining = none;
  completion_ready_at = none;
  artifact_key = none;
  artifact_mime_type = none;
  artifact_size_bytes = none;
  created_at = now;
  updated_at = now;
  completed_at = none;
}

inserted : Jobs → Option Jobs → Result (Unit {0}) × Jobs
inserted t none = (err integrity_error, t)
inserted t (some rows) = (ok tt, rows)

unfoldable pub create : NewJob → String → Exec Jobs (Option Job)
unfolding inserted get
create n now = do (λ t. inserted t (insert (has_id n.job_id) (new_job n now) t)); get n.job_id

-- An UPDATE of the row of one job, and the job as it is then.
abbrev pub set_rows : (Job → Bool) → (Job → Job) → Exec Jobs (Unit {0})
set_rows p f = modify (update p f)

-- if progress_message: it is not empty
unfoldable pub status_set : String → Option String → String → Job → Job
status_set status none now j = record j { status = status; updated_at = now }
status_set status (some message) now j =
    if message == ""
    then record j { status = status; updated_at = now }
    else record j { status = status; progress_message = message; updated_at = now }

unfoldable pub update_status : String → String → Option String → String → Exec Jobs (Option Job)
unfolding status_set get
update_status k status message now = do set_rows (has_id k) (status_set status message now); get k

abbrev pub start_set : String → ℕ → String → Job → Job
start_set message refreshes now j = record j {
  status = "running";
  progress_message = message;
  completion_refreshes_remaining = some refreshes;
  completion_ready_at = none;
  updated_at = now;
}

unfoldable pub start : String → String → ℕ → String → Exec Jobs (Option Job)
unfolding get
start k message refreshes now = do
  set_rows (λ j. j.job_id == k && j.status == "queued") (start_set message refreshes now)
  get k

unfoldable pub prepare_result : String → Payload → String → Exec Jobs (Unit {0})
prepare_result k result now =
    set_rows (has_id k) (λ j. record j { prepared_result = some result; updated_at = now })

-- The object that a caller links to a job.
pub record Artifact : Type 0 where
  pub key : Option String
  pub mime_type : Option String
  pub size_bytes : Option ℕ

abbrev pub no_artifact : Artifact
no_artifact = record { key = none; mime_type = none; size_bytes = none }

abbrev pub complete_set : Payload → String → Artifact → String → Job → Job
complete_set result message a now j = record j {
  status = "succeeded";
  progress_message = message;
  completed_response_id = some (get_text result "response_id" "");
  result = some result;
  completion_refreshes_remaining = none;
  completion_ready_at = none;
  artifact_key = a.key;
  artifact_mime_type = a.mime_type;
  artifact_size_bytes = a.size_bytes;
  updated_at = now;
  completed_at = some now;
}

unfoldable pub complete : String → Payload → String → Artifact → String → Exec Jobs (Option Job)
unfolding get get_text
complete k result message a now = do set_rows (has_id k) (complete_set result message a now); get k

-- retry_allowed is not used.
unfoldable pub fail : String → String → String → Exec Jobs (Option Job)
unfolding update_status
fail k error now = update_status k "failed" (some error) now

unfoldable pub bind_pending_response : String → String → String → Exec Jobs (Option Job)
unfolding get
bind_pending_response k response now = do
  set_rows (has_id k) (λ j. record j { pending_response_id = some response; updated_at = now })
  get k

-- remaining and remaining > 0
refresh_prepared : String → Payload → Option ℕ → String → Exec Jobs (Option Job)
unfolding complete get get_text
refresh_prepared k prepared (some (suc n)) now = do
  set_rows (has_id k) (λ j. record j { completion_refreshes_remaining = some n; updated_at = now })
  get k
refresh_prepared k prepared _ now =
    complete k prepared (get_text prepared "summary" "Background refresh completed.") no_artifact
      now

refresh_running : String → Job → Option Payload → String → Exec Jobs (Option Job)
unfolding refresh_prepared
refresh_running k job none now = pure (some job)
refresh_running k job (some []) now = pure (some job)
refresh_running k job (some (x ∷ p)) now =
    refresh_prepared k (x ∷ p) job.completion_refreshes_remaining now

refresh_found : String → Option Job → String → Exec Jobs (Option Job)
unfolding refresh_running
refresh_found k none now t = pure none t
refresh_found k (some job) now t =
    if not (job.status == "running")
    then pure (some job) t
    else refresh_running k job job.prepared_result now t

unfoldable pub refresh : String → String → Exec Jobs (Option Job)
unfolding refresh_found get
refresh k now = do found ← get k; refresh_found k found now

unfoldable pub link_artifact : String → String → String → ℕ → String → Exec Jobs (Option Job)
unfolding get
link_artifact k key mime_type size now = do
  set_rows (has_id k) (λ j. record j {
    artifact_key = some key;
    artifact_mime_type = some mime_type;
    artifact_size_bytes = some size;
    updated_at = now;
  })
  get k

-- completed_at < NOW() - INTERVAL; a comparison with NULL does not hold
unfoldable pub is_older : (String → Bool) → Option String → Bool
is_older old none = false
is_older old (some t) = old t

-- `old` is the comparison of a time with the limit.
unfoldable pub cleanup_old : (String → Bool) → Exec Jobs ℕ
unfolding is_older
cleanup_old old = do
  modify (
      delete (λ j.
        (j.status == "succeeded" || j.status == "failed" || j.status == "cancelled")
        && is_older old j.completed_at))
  pure 0

-- `newest` and `oldest` are the two ORDER BY clauses on created_at.
module _ (newest oldest : Jobs → Jobs) where
  unfoldable pub get_by_session : String → ℕ → Exec Jobs (List Job)
  get_by_session session n =
      gets (λ t. limit n (newest (select_all (λ j. j.session_id == session) t)))

  unfoldable pub get_by_broker : String → ℕ → Exec Jobs (List Job)
  get_by_broker broker n = gets (λ t. limit n (newest (select_all (λ j. j.broker_id == broker) t)))

  unfoldable pub list_pending : ℕ → Exec Jobs (List Job)
  list_pending n =
      gets
        (λ t. limit n (oldest (select_all (λ j. j.status == "queued" || j.status == "running") t)))
