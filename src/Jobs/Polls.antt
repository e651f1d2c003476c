-- ===== src/Jobs/Polls.antt =====
-- backend/app/jobs/store.py: one poll of a job: the branches of `refresh_job`.
use meridian_logistics.Prelude.{
  ℕ, suc, String, ◌≡◌, refl, ◌≢◌, inl, inr, none, some, arith, ap, Option-cases, ℕ-cases, second_eq,
}
use meridian_logistics.Python.{Error, ok, err, Result-cases, get_text}
use meridian_logistics.Jobs.Status.{JobStatus-discrete, running}
use meridian_logistics.Jobs.Store.{
  JobRow, Payload, JobState, JobStore, get_job, row_to_job, row, set_rows, read_row,
}
use meridian_logistics.Jobs.Methods.{complete_job, refresh_job, count_set, remaining}

-- What one poll of a job does to the store.
pub data Polled (k now : String) (s s' : JobStore) : Type 0 where
  idle : s' ≡ s → Polled k now s s'
  counted :
      (r : JobRow) (n : ℕ)
      → row k s ≡ some r
      → remaining r ≡ suc n
      → s' ≡ set_rows k (count_set n now) s
      → Polled k now s s'
  finished :
      (p : Payload) (message : String) → s' ≡ (complete_job k p message now s).1 → Polled k now s s'

module _ (k now : String) (s : JobStore) where
  idle_absent : row k s ≡ none → (refresh_job k now s).1 ≡ s
  unfolding refresh_job
  idle_absent e = ground (arith, e)

  idle_unreadable :
      (r : JobRow) (x : Error)
      → row k s ≡ some r
      → row_to_job r ≡ err x
      → (refresh_job k now s).1 ≡ s
  unfolding refresh_job
  idle_unreadable r x e f = ground (arith, e, f)

  -- A poll of a job that is not running returns the job and writes nothing.
  pub refresh_job_not_running :
      (r : JobRow) (j : JobState)
      → row k s ≡ some r
      → row_to_job r ≡ ok j
      → j.status ≢ running
      → refresh_job k now s ≡ (ok (some j), s)
  unfolding refresh_job
  refresh_job_not_running r j e f g = ground (arith, e, f)

  module _ (r : JobRow) (j : JobState) (e : row k s ≡ some r) (f : row_to_job r ≡ ok j)
      (g : j.status ≡ running) where
    pub refresh_job_unprepared :
        r.prepared_result_payload ≡ none → refresh_job k now s ≡ (ok (some j), s)
    unfolding refresh_job
    refresh_job_unprepared h = ground (arith, e, f, g, h)

    -- While polls remain, a poll of a prepared job counts one of them down.
    pub refresh_job_counts :
        (p : Payload) (n : ℕ)
        → r.prepared_result_payload ≡ some p
        → remaining r ≡ suc n
        → refresh_job k now s
          ≡ (read_row (row k (set_rows k (count_set n now) s)), set_rows k (count_set n now) s)
    unfolding refresh_job get_job
    refresh_job_counts p n h m = rw (e, f, g, e, h, m, refresh_job) refl

    -- Once none remain, it completes the job with the prepared result.
    pub refresh_job_finishes :
        (p : Payload)
        → r.prepared_result_payload ≡ some p
        → remaining r ≡ 0
        → refresh_job k now s
          ≡ complete_job k p
              (get_text p "summary" "Background refresh completed for Memphis exceptions.")
              now
              s
    unfolding refresh_job
    refresh_job_finishes p h m = rw (e, f, g, e, h, m, refresh_job) refl

-- Every poll is one of these.
pub refresh_job_effect : (k now : String) (s : JobStore) → Polled k now s (refresh_job k now s).1
refresh_job_effect k now s = elim (Option-cases (row k s)) [
  | inl e ↦ idle (idle_absent k now s e)
  | inr (r, e) ↦ elim (Result-cases (row_to_job r)) [
    | inr (x, f) ↦ idle (idle_unreadable k now s r x e f)
    | inl (j, f) ↦ elim (JobStatus-discrete j.status running) [
      | no g ↦ idle (second_eq (refresh_job_not_running k now s r j e f g))
      | yes g ↦ elim (Option-cases r.prepared_result_payload) [
        | inl h ↦ idle (second_eq (refresh_job_unprepared k now s r j e f g h))
        | inr (p, h) ↦ elim (ℕ-cases (remaining r)) [
          | inl m ↦
              finished p
                (get_text p "summary" "Background refresh completed for Memphis exceptions.")
                (ap (λ t. t.1) (refresh_job_finishes k now s r j e f g p h m))
          | inr (n, m) ↦ counted r n e m (second_eq (refresh_job_counts k now s r j e f g p n h m))
        ]
      ]
    ]
  ]
]
