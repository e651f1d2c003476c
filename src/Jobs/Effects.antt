-- ===== src/Jobs/Effects.antt =====
-- backend/app/jobs/store.py: when a method of the job store writes, and what: the branches of `change_status` and `refresh_job`.
use meridian_logistics.Prelude.{
  ◌⊎◌, String, ap, String, ◌≡◌, ◌⊎◌, inl, inr, true, false, Option, none, some, arith, Option-cases,
  Bool-cases,
}
use meridian_logistics.Python.{Error, Result, ok, err, Result-cases}
use meridian_logistics.Jobs.Status.{JobStatus, from_string, valid_transition}
use meridian_logistics.Jobs.Store.{
  JobRow, JobState, JobStore, row_to_job, row_to_job_lem, row, set_rows, read_row,
}
use meridian_logistics.Jobs.Methods.{change_status}

-- The status that a row is read with is that of its column.
pub status-row_to_job :
    (r : JobRow) (j : JobState) → row_to_job r ≡ ok j → from_string r.job_status ≡ ok j.status
status-row_to_job r j h = ground (arith, row_to_job_lem r)

-- The change was made: the job was found, its transition was legal, and the SET list was computed.
pub record Changed (k : String) (next : JobStatus) (plan : JobState → Result (JobRow → JobRow))
    (s s' : JobStore) : Type 0 where
  pub before : JobRow
  pub job : JobState
  pub set : JobRow → JobRow
  pub found : row k s ≡ some before
  pub read : row_to_job before ≡ ok job
  pub legal : valid_transition job.status next ≡ true
  pub planned : plan job ≡ ok set
  pub written : s' ≡ set_rows k set s

module _ (k : String) (next : JobStatus) (plan : JobState → Result (JobRow → JobRow))
    (s : JobStore) where
  absent : row k s ≡ none → (change_status k next plan s).1 ≡ s
  unfolding change_status
  absent e = ground (arith, e)

  unreadable :
      (r : JobRow) (x : Error)
      → row k s ≡ some r
      → row_to_job r ≡ err x
      → (change_status k next plan s).1 ≡ s
  unfolding change_status
  unreadable r x e f = ground (arith, e, f)

  -- A method whose transition is not legal leaves the store as it was and returns the job.
  pub change_status_refused :
      (r : JobRow) (j : JobState)
      → row k s ≡ some r
      → row_to_job r ≡ ok j
      → valid_transition j.status next ≡ false
      → change_status k next plan s ≡ (ok (some j), s)
  unfolding change_status
  change_status_refused r j e f g = ground (arith, e, f, g)

  unplanned :
      (r : JobRow) (j : JobState) (x : Error)
      → row k s ≡ some r
      → row_to_job r ≡ ok j
      → valid_transition j.status next ≡ true
      → plan j ≡ err x
      → (change_status k next plan s).1 ≡ s
  unfolding change_status
  unplanned r j x e f g h = ground (arith, e, f, g, h)

  pub change_status_legal :
      (r : JobRow) (j : JobState) (set : JobRow → JobRow)
      → row k s ≡ some r
      → row_to_job r ≡ ok j
      → valid_transition j.status next ≡ true
      → plan j ≡ ok set
      → change_status k next plan s ≡ (read_row (row k (set_rows k set s)), set_rows k set s)
  unfolding change_status
  change_status_legal r j set e f g h = ground (arith, e, f, g, h)

  -- Either nothing is written, or one legal change is.
  pub change_status_effect :
      ((change_status k next plan s).1 ≡ s) ⊎ Changed k next plan s (change_status k next plan s).1
  change_status_effect = elim (Option-cases (row k s)) [
    | inl e ↦ inl (absent e)
    | inr (r, e) ↦ elim (Result-cases (row_to_job r)) [
      | inr (x, f) ↦ inl (unreadable r x e f)
      | inl (j, f) ↦ elim (Bool-cases (valid_transition j.status next)) [
        | inr g ↦ inl (
            ap (λ (t : Result (Option JobState) × JobStore). t.1) (change_status_refused r j e f g))
        | inl g ↦ elim (Result-cases (plan j)) [
          | inr (x, h) ↦ inl (unplanned r j x e f g h)
          | inl (set, h) ↦ inr (record {
            before = r;
            job = j;
            set = set;
            found = e;
            read = f;
            legal = g;
            planned = h;
            written =
                ap (λ (t : Result (Option JobState) × JobStore). t.1)
                  (change_status_legal r j set e f g h);
          })
        ]
      ]
    ]
  ]
