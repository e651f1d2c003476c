-- ===== src/Api/Jobs.antt =====
-- backend/app/api/routes/jobs.py: the routes of the jobs, over the job store, the session store and
-- the checkpoint directory. The validation of a response is a parameter of the routes.
use Prim.Native.String.{◌++◌}
use meridian_logistics.Prelude.{
  String, Bool, true, false, not, Option, none, some, ◌==◌, ◌&&◌, if◌then◌else◌, [], ◌∷◌,
}
use meridian_logistics.Python.{
  http_error, Result, ok, Exec, pure, raise, lift, gets, modify, ◌>>=◌, ◌>>◌, Dict,
}
use meridian_logistics.Python.Json.{Json}
use meridian_logistics.Jobs.Status.{
  JobStatus, pending, running, succeeded, failed, cancelled, expired, value,
}
use meridian_logistics.Jobs.Store.{Payload, JobState, JobStore, is_transient, get_job_by_poll_token}
use meridian_logistics.Jobs.Store as Store
use meridian_logistics.Jobs.Methods.{NewJob, refresh_job, fail_job, update_autonomy_metadata}
use meridian_logistics.Jobs.Methods as Methods
use meridian_logistics.Jobs.Documents.{to_api_dict}
use meridian_logistics.Session.{
  SessionState, SessionStore, get_session_by_access_token, promote_job_completion,
}
use meridian_logistics.Controller.Runtime.{Runtime, Files}
use meridian_logistics.Autonomy.Models.{StepOutcome, metadata_to_dict, metadata_from_dict}
use meridian_logistics.Autonomy.Service.{is_enabled, advance_step}

-- request.app.state
pub record App : Type 0 where
  pub job_store : JobStore
  pub session_store : SessionStore
  pub files : Files

-- What the clock gives to the statements of one request.
pub record Clock : Type 0 where
  pub annotated : String
  pub failed : String
  pub refreshed : String
  pub promoted : String

module _ {A : Type 0} where
  abbrev pub on_jobs : Exec JobStore A → Exec App A
  on_jobs m a = ((m a.job_store).0, record a { job_store = (m a.job_store).1 })

  -- if value is None: raise HTTPException(status_code=404, detail=detail)
  abbrev pub known : String → Option A → Exec App A
  known detail none = raise (http_error 404 detail)
  known detail (some x) = pure x

-- try: ... except Exception: what was written before the exception stays
abbrev pub attempt : Exec App (Unit {0}) → Exec App (Unit {0})
attempt m a = (ok tt, (m a).1)

-- outcome.error_message is not empty
has_error : Option String → Bool
has_error none = false
has_error (some s) = not (s == "")

fail_on : String → StepOutcome → Option String → Clock → Exec App (Unit {0})
unfolding has_error fail_job
fail_on k o none clock a = pure tt a
fail_on k o (some message) clock a =
    if not (o.is_terminal && has_error (some message))
    then pure tt a
    else (do on_jobs (fail_job k message (some "Bounded autonomy failed.") clock.failed); pure tt) a

-- The body of the `try` of get_job. The job that it reloads is read again after it.
unfoldable pub autonomy_step : Runtime → String → Payload → Clock → Exec App (Unit {0})
unfolding fail_on has_error
autonomy_step rt k stored clock = do
  metadata ← lift (metadata_from_dict rt.reader stored)
  step ← (λ a. (advance_step rt k metadata a.files, a))
  on_jobs (
      update_autonomy_metadata k (metadata_to_dict step.0)
        (step.1.is_terminal && not (has_error step.1.error_message)) clock.annotated)
  fail_on k step.1 step.1.error_message clock
  on_jobs (Store.get_job k)
  pure tt

unfoldable pub autonomy_of : Runtime → String → Option Payload → Clock → Exec App (Unit {0})
unfolding autonomy_step
autonomy_of rt k none clock = pure tt
autonomy_of rt k (some stored) clock = attempt (autonomy_step rt k stored clock)

unfoldable pub promote_with : JobState → Option String → Option String → String → App → App
promote_with job (some response) (some expected) now a = record a {
  session_store =
      (promote_job_completion job.session_id expected response job.job_id now a.session_store).1;
}
promote_with job _ _ now a = a

-- What get_job does with the job that the token opened, up to the response.
unfoldable pub poll_job : Runtime → String → JobState → Clock → Exec App JobState
unfolding autonomy_of promote_with is_enabled refresh_job
poll_job rt k job clock = do
  (λ a.
      if is_transient job && is_enabled rt.config
      then autonomy_of rt k job.autonomy_metadata clock a
      else pure tt a)
  found ← on_jobs (refresh_job k clock.refreshed)
  polled ← known "unknown job" found
  modify
      (promote_with polled polled.completed_response_id polled.pending_response_id clock.promoted)
  pure polled

-- The dict of a JobLifecycleEnvelope.
pub record JobLifecycle : Type 0 where
  pub job_id : String
  pub session_id : String
  pub status : JobStatus
  pub created_at : String
  pub updated_at : String
  pub completed_at : Option String
  pub progress_message : String
  pub retry_allowed : Bool
  pub pending_response_id : Option String
  pub completed_response_id : Option String
  pub result : Option Payload
  pub lifecycle_state : String

-- _map_lifecycle_state
unfoldable pub map_lifecycle_state : JobStatus → String
map_lifecycle_state running = "active"
map_lifecycle_state succeeded = "completed"
map_lifecycle_state failed = "failed"
map_lifecycle_state cancelled = "cancelled"
map_lifecycle_state expired = "expired"
map_lifecycle_state pending = "pending"

unfoldable pub completed_at : JobState → JobStatus → Option String
completed_at j succeeded = some j.updated_at
completed_at j failed = j.failed_at
completed_at j cancelled = some j.updated_at
completed_at j expired = some j.updated_at
completed_at j pending = none
completed_at j running = none

-- job.result if job.result else None
shown_result : Option Payload → Option Payload
shown_result none = none
shown_result (some []) = none
shown_result (some (x ∷ p)) = some (x ∷ p)

unfoldable pub lifecycle : JobState → JobLifecycle
unfolding map_lifecycle_state completed_at shown_result
lifecycle j = record {
  job_id = j.job_id;
  session_id = j.session_id;
  status = j.status;
  created_at = j.created_at;
  updated_at = j.updated_at;
  completed_at = completed_at j j.status;
  progress_message = j.progress_message;
  retry_allowed = j.retry_allowed;
  pending_response_id = j.pending_response_id;
  completed_response_id = j.completed_response_id;
  result = shown_result j.result;
  lifecycle_state = map_lifecycle_state j.status;
}

-- job.status.value not in ("pending", "running")
unfoldable pub is_cancellable : JobStatus → Bool
is_cancellable pending = true
is_cancellable running = true
is_cancellable _ = false

-- The cancelling of the job that the token opened.
unfoldable pub cancel_found : String → JobState → String → Exec App JobState
unfolding is_cancellable value
cancel_found k job now a =
    if not (is_cancellable job.status)
    then raise (http_error 409 ("cannot cancel job with status: " ++ value job.status)) a
    else (do found ← on_jobs (Methods.cancel_job k "Job cancelled." now); known "unknown job" found)
        a

-- What a caller of POST /jobs gives that the route reads.
pub record JobCreateRequest : Type 0 where
  pub session_id : String
  pub session_access_token : String
  pub progress_message : String
  pub retry_allowed : Bool

new_job : JobCreateRequest → SessionState → String → String → NewJob
new_job request session id token = record {
  job_id = id;
  job_poll_token = token;
  session_id = session.session_id;
  broker_id = session.broker_id;
  office_id = session.office_id;
  progress_message = request.progress_message;
  retry_allowed = request.retry_allowed;
}

-- `envelope` is model_validate of AsyncJobEnvelope.
module _ {E : Type 0} (envelope : Dict Json → Result E) where
  -- `id` and `token` are what next_job_id and `secrets` give.
  unfoldable pub create_job : JobCreateRequest → String → String → String → Exec App E
  unfolding new_job
  create_job request id token now = do
    found ← gets (λ a.
        get_session_by_access_token request.session_id request.session_access_token a.session_store)
    session ← known "unknown session" found
    job ← on_jobs (Methods.create_job (new_job request session id token) now)
    lift (envelope (to_api_dict job))

  unfoldable pub get_job : Runtime → String → String → Clock → Exec App E
  unfolding poll_job
  get_job rt k token clock = do
    found ← on_jobs (get_job_by_poll_token k token)
    job ← known "unknown job" found
    polled ← poll_job rt k job clock
    lift (envelope (to_api_dict polled))

  unfoldable pub cancel_job : String → String → String → Exec App E
  unfolding cancel_found
  cancel_job k token now = do
    found ← on_jobs (get_job_by_poll_token k token)
    job ← known "unknown job" found
    cancelled_job ← cancel_found k job now
    lift (envelope (to_api_dict cancelled_job))

-- `shown` is JobLifecycleEnvelope, with model_validate of the ChatResponseEnvelope of its result.
module _ {L : Type 0} (shown : JobLifecycle → Result L) where
  unfoldable pub get_job_lifecycle : String → String → String → Exec App L
  unfolding lifecycle refresh_job
  get_job_lifecycle k token now = do
    found ← on_jobs (get_job_by_poll_token k token)
    job ← known "unknown job" found
    refreshed ← on_jobs (refresh_job k now)
    polled ← known "unknown job" refreshed
    lift (shown (lifecycle polled))
