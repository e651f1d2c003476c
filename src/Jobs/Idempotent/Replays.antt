-- ===== src/Jobs/Idempotent/Replays.antt =====
-- backend/app/jobs/idempotent_store.py: the same request made again.
use meridian_logistics.Prelude.{
  String, ◌≡◌, refl, ◌≢◌, false, Option, none, some, [], ◌∷◌, ◌++◌, ◌==◌, ◌∙◌, eq_refl, eq-false,
  Bool-cases, inl, inr, if◌then◌else◌, first_eq,
}
use meridian_logistics.Python.{integrity_error, ok, err, get, put}
use meridian_logistics.Python.Laws.{get-put}
use meridian_logistics.Table.{select_one, insert, update}
use meridian_logistics.Table.Laws.{select-snoc}
use meridian_logistics.Gateway.Idempotency.{
  in_progress, completed, blocked, claim_record, complete_record,
}
use meridian_logistics.Jobs.Store.{Payload}
use meridian_logistics.Jobs.Repository.{
  Job, Jobs, NewJob, new_job, has_id, complete_set, no_artifact,
}
use meridian_logistics.Jobs.Repository as Repository
use meridian_logistics.Jobs.Repository.Laws.{select-set}
use meridian_logistics.Jobs.Idempotent.{
  created, replayed, in_conflict, error, Cached, Durable, Digests, answer, fingerprint, create_key,
  created_job, create_new, create_job, cached_job, complete_key, complete_new, complete_claim,
  complete_job, completion_fingerprint,
}

-- No claim was made yet under the key, and no job has the id.
pub record IsFresh (s : Durable) (key id : String) : Type 0 where
  pub unclaimed : get s.claims.records key ≡ none
  pub unused : select_one (has_id id) s.jobs ≡ none

module _ (g : Digests) (n : NewJob) (context : Payload) (now : String) (s : Durable) where
  abbrev f : String
  f = fingerprint g n context

  abbrev job : Job
  job = new_job n now

  -- The state after a creation.
  abbrev with_job : Durable
  with_job = record {
    jobs = s.jobs ++ job ∷ [];
    claims = record s.claims {
      records =
          put (put s.claims.records (create_key f) (in_progress f)) (create_key f)
            (completed (record { request_fingerprint = f; result = cached_job job }));
    };
  }

  module _ (fresh : IsFresh s (create_key f) n.job_id) where
    inserted_row : select_one (has_id n.job_id) (s.jobs ++ job ∷ []) ≡ some job
    inserted_row =
        select-snoc (has_id n.job_id) s.jobs job ∙ rw (fresh.unused, eq_refl n.job_id) refl

    claimed_record :
        get (put s.claims.records (create_key f) (in_progress f)) (create_key f)
        ≡ some (in_progress f)
    claimed_record =
        get-put s.claims.records (create_key f) (in_progress f) (create_key f)
        ∙ rw (eq_refl (create_key f)) refl

    repository_creates : Repository.create n now s.jobs ≡ (ok (some job), s.jobs ++ job ∷ [])
    unfolding Repository.create insert Repository.get
    repository_creates = rw (fresh.unused, inserted_row) refl

    completes :
        complete_record
          (create_key f)
          f
          (cached_job job)
          (record s.claims { records = put s.claims.records (create_key f) (in_progress f) })
        ≡ (ok (record { request_fingerprint = f; result = cached_job job }), with_job.claims)
    unfolding complete_record
    completes = rw (claimed_record, eq_refl f) refl

    creates : create_job g n context now s ≡ (ok (answer created (some job) none), with_job)
    unfolding create_job create_new created_job claim_record
    creates = rw (fresh.unclaimed, repository_creates, completes) refl

    replays :
        (n' : NewJob) (context' : Payload) (now' : String)
        → n.job_id ≢ ""
        → fingerprint g n' context' ≡ f
        → create_job g n' context' now' with_job ≡ (ok (answer replayed (some job) none), with_job)
    unfolding create_job claim_record Repository.get cached_job
    replays n' context' now' named e =
        rw (e, kept, eq_refl f, eq-false n.job_id "" named, inserted_row) refl
      where
        kept :
            get with_job.claims.records (create_key f)
            ≡ some (completed (record { request_fingerprint = f; result = cached_job job }))
        kept =
            get-put (put s.claims.records (create_key f) (in_progress f)) (create_key f)
              (completed (record { request_fingerprint = f; result = cached_job job }))
              (create_key f)
            ∙ rw (eq_refl (create_key f)) refl

-- A creation under a free key and an unused id creates the job, and every later request with its
-- fingerprint, whatever id was made for it, is answered with that job and changes nothing.
pub create_job_once :
    (g : Digests) (n n' : NewJob) (context context' : Payload) (now now' : String) (s : Durable)
    → IsFresh s (create_key (fingerprint g n context)) n.job_id
    → n.job_id ≢ ""
    → fingerprint g n' context' ≡ fingerprint g n context
    → let s' : Durable = (create_job g n context now s).1 in
      ((create_job g n context now s).0 ≡ ok (answer created (some (new_job n now)) none))
      × (create_job g n' context' now' s' ≡ (ok (answer replayed (some (new_job n now)) none), s'))
create_job_once g n n' context context' now now' s fresh named e =
    let made = creates g n context now s fresh in
    (first_eq made, rw made (replays g n context now s fresh n' context' now' named e))

module _ (g : Digests) (n : NewJob) (context : Payload) (now : String) (s : Durable) (r : Job)
    (used : select_one (has_id n.job_id) s.jobs ≡ some r) where
  repository_refuses : Repository.create n now s.jobs ≡ (err integrity_error, s.jobs)
  unfolding Repository.create insert
  repository_refuses = rw used refl

  -- The state after a creation that failed.
  abbrev with_claim : Durable
  with_claim = record s {
    claims = record s.claims {
      records =
          put s.claims.records (create_key (fingerprint g n context))
            (in_progress (fingerprint g n context));
    };
  }

  fails :
      get s.claims.records (create_key (fingerprint g n context)) ≡ none
      → create_job g n context now s
        ≡ (ok (answer error none (some (g.message integrity_error))), with_claim)
  unfolding create_job create_new claim_record
  fails free = rw (free, repository_refuses) refl

  waits :
      (n' : NewJob) (context' : Payload) (now' : String)
      → fingerprint g n' context' ≡ fingerprint g n context
      → create_job g n' context' now' with_claim ≡ (ok blocked, with_claim)
  unfolding create_job claim_record
  waits n' context' now' e =
      rw
        (
          e,
          get-put s.claims.records (create_key (fingerprint g n context))
              (in_progress (fingerprint g n context)) (create_key (fingerprint g n context)),
          eq_refl (create_key (fingerprint g n context)),
        )
        refl

-- A creation that fails, here on an id that is in use, leaves its claim in progress: every later
-- request with its fingerprint waits, and changes nothing.
pub failed_creation_blocks :
    (g : Digests) (n n' : NewJob) (context context' : Payload) (now now' : String) (s : Durable)
    (r : Job)
    → get s.claims.records (create_key (fingerprint g n context)) ≡ none
    → select_one (has_id n.job_id) s.jobs ≡ some r
    → fingerprint g n' context' ≡ fingerprint g n context
    → let s' : Durable = (create_job g n context now s).1 in
      ((create_job g n context now s).0 ≡ ok (answer error none (some (g.message integrity_error))))
      × (create_job g n' context' now' s' ≡ (ok blocked, s'))
failed_creation_blocks g n n' context context' now now' s r free used e =
    let failed = fails g n context now s r used free in
    (first_eq failed, rw failed (waits g n context now s r used n' context' now' e))

module _ (g : Digests) (k message now : String) (result : Payload) (o : Option String) (s : Durable)
    (j : Job) (found : select_one (has_id k) s.jobs ≡ some j) where
  abbrev ended : Job
  ended = complete_set result message no_artifact now j

  abbrev completed_jobs : Jobs
  completed_jobs = update (has_id k) (complete_set result message no_artifact now) s.jobs

  ended_row : select_one (has_id k) completed_jobs ≡ some ended
  ended_row = select-set k (complete_set result message no_artifact now) s.jobs j (λ x. refl) found

  repository_completes :
      Repository.complete k result message no_artifact now s.jobs
      ≡ (ok (some ended), completed_jobs)
  unfolding Repository.complete Repository.get
  repository_completes = rw ended_row refl

  abbrev print : String
  print = completion_fingerprint g o result

  abbrev noted : Cached
  noted = record { job_id = k; job = none; status = some "succeeded" }

  abbrev with_completion : Durable
  with_completion = record {
    jobs = completed_jobs;
    claims = record s.claims {
      records =
          put (put s.claims.records (complete_key k) (in_progress print)) (complete_key k)
            (completed (record { request_fingerprint = print; result = noted }));
    };
  }

  claim_completes :
      complete_record
        (complete_key k)
        print
        noted
        (record s.claims { records = put s.claims.records (complete_key k) (in_progress print) })
      ≡ (ok (record { request_fingerprint = print; result = noted }), with_completion.claims)
  unfolding complete_record
  claim_completes =
      rw
        (
          get-put s.claims.records (complete_key k) (in_progress print) (complete_key k),
          eq_refl (complete_key k),
          eq_refl print,
        )
        refl

  completes_first :
      (j.status == "succeeded") ≡ false
      → get s.claims.records (complete_key k) ≡ none
      → complete_job g k result message o now s
        ≡ (ok (answer created (some ended) none), with_completion)
  unfolding complete_job complete_claim complete_new claim_record Repository.get
  completes_first unended free =
      rw (found, unended, free, repository_completes, claim_completes) refl

  answers_again :
      (message' now' : String) (result' : Payload) (o' : Option String)
      → complete_job g k result' message' o' now' with_completion ≡ (
        ok (
            if g.same result result'
            then answer replayed (some ended) none
            else answer in_conflict
                (some ended)
                (some "Job already completed with different result")),
        with_completion,
      )
  unfolding complete_job Repository.get
  answers_again message' now' result' o' = elim (Bool-cases (g.same result result')) [
    | inl e ↦ rw (ended_row, e) refl
    | inr e ↦ rw (ended_row, e) refl
  ]

-- A completion of a job that has not succeeded, under a free key, completes it; any later completion
-- of the job changes nothing: with an equal result it is answered with the job, and with another
-- result it is a conflict.
pub complete_job_once :
    (g : Digests) (k message message' now now' : String) (result result' : Payload)
    (o o' : Option String) (s : Durable) (j : Job)
    → select_one (has_id k) s.jobs ≡ some j
    → (j.status == "succeeded") ≡ false
    → get s.claims.records (complete_key k) ≡ none
    → let s' : Durable = (complete_job g k result message o now s).1 in
      let j' : Job = complete_set result message no_artifact now j in
      ((complete_job g k result message o now s).0 ≡ ok (answer created (some j') none))
      × (complete_job g k result' message' o' now' s' ≡ (
        ok (
            if g.same result result'
            then answer replayed (some j') none
            else answer in_conflict (some j') (some "Job already completed with different result")),
        s',
      ))
complete_job_once g k message message' now now' result result' o o' s j found unended free =
    let done = completes_first g k message now result o s j found unended free in
    (
      first_eq done,
      rw done (answers_again g k message now result o s j found message' now' result' o'),
    )
