-- ===== src/Jobs/Idempotent/Examples.antt =====
-- Runs of the idempotent job store, and of the repository under it, on concrete jobs.
use meridian_logistics.Prelude.{String, ◌≡◌, refl, true, false, none, some, [], ◌∷◌}
use meridian_logistics.Python.{ok, text, get}
use meridian_logistics.Table.{select_one}
use meridian_logistics.Gateway.Idempotency.{blocked}
use meridian_logistics.Jobs.Store.{Payload}
use meridian_logistics.Jobs.Repository.{
  Job, Jobs, NewJob, new_job, has_id, complete_set, no_artifact, fail, cleanup_old,
}
use meridian_logistics.Jobs.Repository.Laws.{failed_is_never_cleaned}
use meridian_logistics.Jobs.Idempotent.{
  created, replayed, error, Durable, Digests, answer, fingerprint, create_job, complete_job,
}
use meridian_logistics.Jobs.Idempotent.Replays.{
  create_job_once, failed_creation_blocks, complete_job_once,
}

abbrev digests : Digests
digests = record {
  request = λ session office broker kind context. session;
  result = λ p. "digest";
  same = λ p q. true;
  message = λ e. "duplicate key";
}

abbrev asked : String → NewJob
asked id = record {
  job_id = id;
  job_poll_token = "token-1";
  session_id = "session-1";
  office_id = "memphis";
  broker_id = "broker-123";
  job_kind = "analytics_refresh";
  progress_message = "Job queued";
  retry_allowed = false;
}

abbrev holding : Jobs → Durable
holding jobs = record { jobs = jobs; claims = record { records = []; targets = [] } }

abbrev queued : Job
queued = new_job (asked "job-1") "t0"

create_job_once_example :
    let s' : Durable = (create_job digests (asked "job-1") [] "t0" (holding [])).1 in
    ((create_job digests (asked "job-1") [] "t0" (holding [])).0
      ≡ ok (answer created (some queued) none))
    × (create_job digests (asked "job-2") [] "t1" s'
        ≡ (ok (answer replayed (some queued) none), s'))
create_job_once_example =
    create_job_once digests (asked "job-1") (asked "job-2") [] [] "t0" "t1" (holding [])
      (record { unclaimed = unfold get in refl; unused = unfold select_one in refl })
      (λ e. absurd (cc e)) (unfold fingerprint in refl)

failed_creation_blocks_example :
    let s' : Durable = (create_job digests (asked "job-1") [] "t1" (holding (queued ∷ []))).1 in
    ((create_job digests (asked "job-1") [] "t1" (holding (queued ∷ []))).0
      ≡ ok (answer error none (some "duplicate key")))
    × (create_job digests (asked "job-2") [] "t2" s' ≡ (ok blocked, s'))
failed_creation_blocks_example =
    failed_creation_blocks digests (asked "job-1") (asked "job-2") [] [] "t1" "t2"
      (holding (queued ∷ [])) queued (unfold get in refl) (unfold select_one in refl)
      (unfold fingerprint in refl)

abbrev outcome : Payload
outcome = ("response_id", text "response-2") ∷ []

complete_job_once_example :
    let s' : Durable =
      (complete_job digests "job-1" outcome "Done." none "t1" (holding (queued ∷ []))).1 in
    let done : Job = complete_set outcome "Done." no_artifact "t1" queued in
    ((complete_job digests "job-1" outcome "Done." none "t1" (holding (queued ∷ []))).0
      ≡ ok (answer created (some done) none))
    × (complete_job digests "job-1" outcome "Again." none "t2" s'
        ≡ (ok (answer replayed (some done) none), s'))
complete_job_once_example =
    complete_job_once digests "job-1" "Done." "Again." "t1" "t2" outcome outcome none none
      (holding (queued ∷ [])) queued (unfold select_one in refl) refl (unfold get in refl)

failed_is_never_cleaned_example :
    (j' : Job) × (select_one
        (has_id "job-1")
        (cleanup_old (λ t. true) (fail "job-1" "timeout" "t1" (queued ∷ [])).1).1
      ≡ some j')
    × (j'.status ≡ "failed")
failed_is_never_cleaned_example =
    failed_is_never_cleaned "job-1" "timeout" "t1" (λ t. true) (queued ∷ []) queued
      (unfold select_one in refl) refl
