-- ===== src/Jobs/Idempotent.antt =====
-- backend/app/jobs/idempotent_store.py: `IdempotentJobStore`, which puts the idempotency store before
-- the repository. A call that would wait for a claim answers `blocked`.
pub mod Replays
mod Examples
use Prim.Native.String.{◌++◌}
use meridian_logistics.Prelude.{
  ℕ, List, ℕ, String, Bool, true, false, not, Option, none, some, List, [], ◌∷◌, ◌==◌,
  if◌then◌else◌,
}
use meridian_logistics.Python.{Error, Result, ok, err, Exec, pure, lift, modify, ◌>>=◌, ◌>>◌}
use meridian_logistics.Gateway.Idempotency.{
  Completed, Claims, Claim, execute, replay, conflict, Step, blocked, returned, claim_record,
  complete_record,
}
use meridian_logistics.Jobs.Store.{Payload}
use meridian_logistics.Jobs.Repository.{Job, Jobs, NewJob, no_artifact}
use meridian_logistics.Jobs.Repository as Repository

pub data Outcome : Type 0 where
  created replayed in_conflict error : Outcome

-- IdempotentJobResult; `error_message` is its error.
pub record IdempotentJobResult : Type 0 where
  pub outcome : Outcome
  pub job : Option Job
  pub error_message : Option String

-- The result that a completed record keeps: of a creation the job, of a completion the status.
pub record Cached : Type 0 where
  pub job_id : String
  pub job : Option Job
  pub status : Option String

pub record Durable : Type 0 where
  pub jobs : Jobs
  pub claims : Claims Cached

-- What Python gives here: the digests of a request and of a result, `==` on two dicts, and the text
-- of an exception.
pub record Digests : Type 0 where
  pub request : String → String → String → String → Payload → String
  pub result : Payload → String
  pub same : Payload → Payload → Bool
  pub message : Error → String

module _ {A : Type 0} where
  abbrev pub on_repo : Exec Jobs A → Exec Durable A
  on_repo m s = ((m s.jobs).0, record s { jobs = (m s.jobs).1 })

  abbrev pub on_claims : Exec (Claims Cached) A → Exec Durable A
  on_claims m s = ((m s.claims).0, record s { claims = (m s.claims).1 })

abbrev pub Answer : Type 0
Answer = Step IdempotentJobResult

abbrev pub answer : Outcome → Option Job → Option String → Answer
answer o j e = returned (record { outcome = o; job = j; error_message = e })

-- try: ... except Exception as e: what was written before the exception stays
settled : Digests → Result Answer → Durable → Result Answer × Durable
settled g (ok a) s = (ok a, s)
settled g (err e) s = (ok (answer error none (some (g.message e))), s)

abbrev guarded : Digests → Exec Durable Answer → Exec Durable Answer
guarded g m s = settled g (m s).0 (m s).1

-- _job_request_fingerprint of a request
unfoldable pub fingerprint : Digests → NewJob → Payload → String
fingerprint g n context = g.request n.session_id n.office_id n.broker_id n.job_kind context

unfoldable pub create_key : String → String
create_key f = "job:create:" ++ f

unfoldable pub complete_key : String → String
complete_key id = "job:complete:" ++ id

unfoldable pub cached_job : Job → Cached
cached_job j = record { job_id = j.job_id; job = some j; status = none }

-- job["job_id"] of what `create` returned; None has no keys
unfoldable pub created_job : Option Job → Exec Durable Job
created_job none = λ s. (err Error.type_error, s)
created_job (some j) = pure j

unfoldable pub create_new : Digests → NewJob → String → String → Exec Durable Answer
unfolding settled create_key cached_job created_job
create_new g n f now = guarded g (do
  found ← on_repo (Repository.create n now)
  job ← created_job found
  on_claims (complete_record (create_key f) f (cached_job job))
  pure (answer created (some job) none))

-- The replay of a record: its job, where the repository still has it.
create_replayed : Digests → NewJob → String → String → Option Job → Exec Durable Answer
unfolding create_new
create_replayed g n f now (some job) = pure (answer replayed (some job) none)
create_replayed g n f now none = create_new g n f now

create_claimed : Digests → NewJob → String → String → Step (Claim Cached) → Exec Durable Answer
unfolding create_replayed create_new
create_claimed g n f now blocked s = pure blocked s
create_claimed g n f now (returned execute) s = create_new g n f now s
create_claimed g n f now (returned (replay c)) s =
    (do
      found ←
          (if c.result.job_id == "" then pure none else on_repo (Repository.get c.result.job_id))
      create_replayed g n f now found)
      s
create_claimed g n f now (returned (conflict c)) s =
    pure (answer in_conflict none (some "Duplicate job request with different parameters")) s

-- `claim` of a key, in the state.
abbrev pub claim : String → String → Exec Durable (Step (Claim Cached))
claim key f s =
    (ok (claim_record key f s.claims).0, record s { claims = (claim_record key f s.claims).1 })

unfoldable pub create_job : Digests → NewJob → Payload → String → Exec Durable Answer
unfolding fingerprint create_claimed claim_record
create_job g n context now = do
  c ← claim (create_key (fingerprint g n context)) (fingerprint g n context)
  create_claimed g n (fingerprint g n context) now c

complete_found : String → String → Option Job → Exec Durable Answer
unfolding complete_key complete_record
complete_found k f none = pure (answer error none (some ("Job " ++ k ++ " not found")))
complete_found k f (some job) = do
  on_claims (
      complete_record (complete_key k) f
        (record { job_id = k; job = none; status = some "succeeded" }))
  pure (answer created (some job) none)

unfoldable pub complete_new :
    Digests → String → Payload → String → String → String → Exec Durable Answer
unfolding settled complete_found
complete_new g k result message f now = guarded g (do
  found ← on_repo (Repository.complete k result message no_artifact now)
  complete_found k f found)

complete_replayed :
    Digests → String → Payload → String → String → String → Option Job → Exec Durable Answer
unfolding complete_new
complete_replayed g k result message f now (some job) = pure (answer replayed (some job) none)
complete_replayed g k result message f now none = complete_new g k result message f now

complete_claimed :
    Digests
    → String
    → Payload
    → String
    → String
    → String
    → Step (Claim Cached)
    → Exec Durable Answer
unfolding complete_replayed complete_new
complete_claimed g k result message f now blocked s = pure blocked s
complete_claimed g k result message f now (returned execute) s =
    complete_new g k result message f now s
complete_claimed g k result message f now (returned (replay c)) s =
    (do found ← on_repo (Repository.get k); complete_replayed g k result message f now found) s
complete_claimed g k result message f now (returned (conflict c)) s =
    pure (answer in_conflict none (some "Concurrent completion attempt")) s

-- The claim and what follows it; a thread that waited goes on from here.
unfoldable pub complete_claim :
    Digests → String → Payload → String → String → String → Exec Durable Answer
unfolding complete_claimed complete_key claim_record
complete_claim g k result message f now = do
  c ← claim (complete_key k) f
  complete_claimed g k result message f now c

is_same : Digests → Option Payload → Payload → Bool
is_same g none result = false
is_same g (some p) result = g.same p result

complete_existing :
    Digests → String → Payload → String → String → String → Option Job → Exec Durable Answer
unfolding complete_claim is_same
complete_existing g k result message f now none s = complete_claim g k result message f now s
complete_existing g k result message f now (some job) s =
    if not (job.status == "succeeded")
    then complete_claim g k result message f now s
    else if is_same g job.result result
    then pure (answer replayed (some job) none) s
    else pure (answer in_conflict (some job) (some "Job already completed with different result")) s

-- request_fingerprint or the digest of the result
unfoldable pub completion_fingerprint : Digests → Option String → Payload → String
completion_fingerprint g none result = g.result result
completion_fingerprint g (some f) result = if f == "" then g.result result else f

unfoldable pub complete_job :
    Digests → String → Payload → String → Option String → String → Exec Durable Answer
unfolding complete_existing completion_fingerprint
complete_job g k result message f now = do
  existing ← on_repo (Repository.get k)
  complete_existing g k result message (completion_fingerprint g f result) now existing

-- The methods that pass on to the repository.
unfoldable pub prepare_result : String → Payload → String → Exec Durable (Unit {0})
prepare_result k result now = on_repo (Repository.prepare_result k result now)

unfoldable pub start_job : String → String → String → Exec Durable (Option Job)
start_job k message now = on_repo (Repository.start k message 2 now)

unfoldable pub refresh_job : String → String → Exec Durable (Option Job)
refresh_job k now = on_repo (Repository.refresh k now)

unfoldable pub get_job : String → Exec Durable (Option Job)
get_job k = on_repo (Repository.get k)

unfoldable pub get_job_by_poll_token : String → String → Exec Durable (Option Job)
get_job_by_poll_token k token = on_repo (Repository.get_by_poll_token k token)

unfoldable pub get_session_jobs :
    (Jobs → Jobs) → (Jobs → Jobs) → String → ℕ → Exec Durable (List Job)
get_session_jobs newest oldest session n =
    on_repo (Repository.get_by_session newest oldest session n)

unfoldable pub bind_pending_response : String → String → String → Exec Durable (Option Job)
bind_pending_response k response now = on_repo (Repository.bind_pending_response k response now)

unfoldable pub link_artifact : String → String → String → ℕ → String → Exec Durable (Option Job)
link_artifact k key mime_type size now = on_repo (Repository.link_artifact k key mime_type size now)

unfoldable pub fail_job : String → String → String → Exec Durable (Option Job)
fail_job k error_message now = on_repo (Repository.fail k error_message now)
