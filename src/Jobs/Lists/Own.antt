-- ===== src/Jobs/Lists/Own.antt =====
-- backend/app/jobs/store.py, `list_jobs`: whose jobs it lists.
use meridian_logistics.Prelude.{
  ℕ, zero, suc, subst, String, ◌≡◌, refl, ◌≢◌, Bool, true, Option, some, List, [], ◌∷◌, All, arith,
  Bool-cases, inl, inr, eq_iff, eq-false,
}
use meridian_logistics.Python.{ok, Result-cases}
use meridian_logistics.Table.{select_all, limit}
use meridian_logistics.Jobs.Status.{JobStatus, from_string}
use meridian_logistics.Jobs.Store.{JobRow, JobState, JobStore, row_to_job, row_to_job_lem}
use meridian_logistics.Jobs.Lists.{offset, read_rows, is_listed, list_jobs}

module _ {R : Type 0} where
  All-select_all : (p : R → Bool) (t : List R) → All (λ r. p r ≡ true) (select_all p t)
  unfolding select_all
  All-select_all p [] = tt
  All-select_all p (r ∷ t) = elim (Bool-cases (p r)) [
    | inl e ↦ rw e (e, All-select_all p t)
    | inr e ↦ rw e (All-select_all p t)
  ]

  module _ (P : R → Type 0) where
    All-limit : (n : ℕ) (t : List R) → All P t → All P (limit n t)
    unfolding limit
    All-limit zero t h = tt
    All-limit (suc n) [] h = tt
    All-limit (suc n) (r ∷ t) h = (h.0, All-limit n t h.1)

    All-offset : (n : ℕ) (t : List R) → All P t → All P (offset n t)
    unfolding offset
    All-offset zero t h = h
    All-offset (suc n) [] h = tt
    All-offset (suc n) (r ∷ t) h = All-offset n t h.1

-- The job is one of the session.
abbrev pub IsOf : String → JobState → Type 0
IsOf session j = j.session_id ≡ session

own_row :
    (session : String) (status : Option JobStatus) (r : JobRow)
    → session ≢ ""
    → is_listed (some session) status r ≡ true
    → r.session_id ≡ session
unfolding is_listed
own_row session status r named h =
    (eq_iff r.session_id session).0 (ground (arith, eq-false session "" named, h))

own_job :
    (session : String) (r : JobRow) (j : JobState)
    → row_to_job r ≡ ok j
    → r.session_id ≡ session
    → IsOf session j
own_job session r j h e = elim (Result-cases (from_string r.job_status)) [
  | inl (a, f) ↦ ground (arith, f, row_to_job_lem r, h, e)
  | inr (x, f) ↦ ground (arith, f, row_to_job_lem r, h)
]

own_jobs :
    (session : String) (status : Option JobStatus) (t : List JobRow) (js : List JobState)
    → session ≢ ""
    → All (λ r. is_listed (some session) status r ≡ true) t
    → read_rows t ≡ ok js
    → All (IsOf session) js
unfolding read_rows
own_jobs session status [] js named h e = subst (All (IsOf session)) {x = []} {y = js} (cc e) tt
own_jobs session status (r ∷ t) js named h e = elim (Result-cases (row_to_job r)) [
  | inr (x, f) ↦ absurd (cc (e, f))
  | inl (j, f) ↦ elim (Result-cases (read_rows t)) [
    | inr (x, g) ↦ absurd (cc (e, f, g))
    | inl (rest, g) ↦ subst (All (IsOf session)) {x = j ∷ rest} {y = js} (cc (e, f, g)) (
      own_job session r j f (own_row session status r named h.0),
      own_jobs session status t rest named h.1 g,
    )
  ]
]

-- The jobs that are listed for a session, on any page and with any filter of status, are jobs of
-- that session, and listing changes nothing; what is asked of the order is that it shows no row that
-- is not there.
pub listed_jobs_are_own :
    (newest : List JobRow → List JobRow)
    (keeps : (P : JobRow → Type 0) (t : List JobRow) → All P t → All P (newest t))
    (session : String) (status : Option JobStatus) (skip n : ℕ) (s : JobStore) (js : List JobState)
    → session ≢ ""
    → (list_jobs newest (some session) status skip n s).0 ≡ ok js
    → All (λ j. j.session_id ≡ session) js
      × ((list_jobs newest (some session) status skip n s).1 ≡ s)
unfolding list_jobs
listed_jobs_are_own newest keeps session status skip n s js named e =
    let P : JobRow → Type 0 = λ r. is_listed (some session) status r ≡ true in
    let rows = select_all (is_listed (some session) status) s.jobs in
    (
      own_jobs session status (limit n (offset skip (newest rows))) js named
          (All-limit P n (offset skip (newest rows)) (
            All-offset P skip (newest rows)
              (keeps P rows (All-select_all (is_listed (some session) status) s.jobs))))
          e,
      refl,
    )
