-- ===== src/Jobs/Access.antt =====
-- backend/app/jobs/store.py: creating a job and finding it again, the poll token, and the methods that refuse a transition.
use meridian_logistics.Prelude.{
  String, ◌≡◌, refl, inl, inr, true, false, Option, none, some, [], ◌∷◌, arith, ap, ◌∙◌,
  Option-cases, opt_eq, first_eq, eq_refl, eq_iff, ◌++◌,
}
use meridian_logistics.Python.{integrity_error, ok, err, Result-cases}
use meridian_logistics.Table.{select_one, insert}
use meridian_logistics.Table.Laws.{select-snoc, select_holds}
use meridian_logistics.Jobs.Status.{
  pending, running, succeeded, failed, cancelled, expired, from_string, valid_transition,
  is_terminal_status, JobStatus, from_string-value,
}
use meridian_logistics.Jobs.Store.{
  Payload, JobRow, JobState, JobStore, row_to_job, has_id, row, get_job, get_job_by_poll_token,
  has_token, to_state, row_to_job_lem,
}
use meridian_logistics.Jobs.Methods.{
  NewJob, create_job, new_row, start_job, fail_job, cancel_job, expire_job, complete_job,
  complete_plan,
}
use meridian_logistics.Jobs.Effects.{change_status_refused}

-- The poll token guards a job: what a poll with an id and a token returns has that id and token, and
-- a poll changes nothing.
opt_eq-some : (a : Option String) (t : String) → opt_eq a (some t) ≡ true → a ≡ some t
opt_eq-some none t h = cc
opt_eq-some (some a) t h = ap some ((eq_iff a t).0 h)

has_token_parts :
    (k t : String) (r : JobRow)
    → has_token k t r ≡ true
    → (r.job_id ≡ k) × (r.job_poll_token ≡ some t)
has_token_parts k t r h =
    ((eq_iff r.job_id k).0 (ground arith), opt_eq-some r.job_poll_token t (ground arith))

pub poll_token_grants :
    (k t : String) (s : JobStore) (j : JobState)
    → (get_job_by_poll_token k t s).0 ≡ ok (some j)
    → (j.job_id ≡ k) × (j.job_poll_token ≡ some t) × ((get_job_by_poll_token k t s).1 ≡ s)
unfolding get_job_by_poll_token
poll_token_grants k t s j h = elim (Option-cases (select_one (has_token k t) s.jobs)) [
  | inl e ↦ absurd (ground (arith, e))
  | inr (r, e) ↦
      let parts = has_token_parts k t r (select_holds (has_token k t) s.jobs r e) in
      elim (Result-cases (from_string r.job_status)) [
        | inl (a, f) ↦ ground (arith, e, f, row_to_job_lem r, parts)
        | inr (x, f) ↦ ground (arith, e, f, row_to_job_lem r)
      ]
]

module _ (n : NewJob) (now : String) (s : JobStore) (free : row n.job_id s ≡ none) where
  abbrev pub with_row : JobStore
  with_row = record s { jobs = s.jobs ++ new_row n now ∷ [] }

  pub create_job_fresh : create_job n now s ≡ (ok (to_state (new_row n now) pending), with_row)
  unfolding create_job insert
  create_job_fresh = rw free refl

  pub row_created : row n.job_id with_row ≡ some (new_row n now)
  unfolding new_row
  row_created = select-snoc (has_id n.job_id) s.jobs (new_row n now) ∙ rw (free, eq_refl) refl

  read_created : row_to_job (new_row n now) ≡ ok (to_state (new_row n now) pending)
  unfolding new_row
  read_created = rw (row_to_job_lem, from_string-value) refl

  get_created : get_job n.job_id with_row ≡ (ok (some (to_state (new_row n now) pending)), with_row)
  unfolding get_job
  get_created = rw (row_created, read_created) refl

-- A job created under an unused id is returned by `get_job` as `create_job` returned it, pending.
pub create_job-get_job :
    (n : NewJob) (now : String) (s : JobStore)
    → row n.job_id s ≡ none
    → ((create_job n now s).0 ≡ ok (to_state (new_row n now) pending))
      × ((get_job n.job_id (create_job n now s).1).0 ≡ ok (some (to_state (new_row n now) pending)))
create_job-get_job n now s h = (
  first_eq (create_job_fresh n now s h),
  rw (create_job_fresh n now s h) (first_eq (get_created n now s h)),
)

-- The id of a job that is there is refused, and nothing is written.
pub create_job_duplicate :
    (n : NewJob) (now : String) (s : JobStore) (r : JobRow)
    → row n.job_id s ≡ some r
    → create_job n now s ≡ (err integrity_error, s)
unfolding create_job insert
create_job_duplicate n now s r h = rw h refl

no_transition : (a b : JobStatus) → is_terminal_status a ≡ true → valid_transition a b ≡ false
unfolding is_terminal_status valid_transition
no_transition a b h = ground arith

-- Each of the five methods that change a status leaves a terminal job alone: it returns the job as it
-- is, writes nothing and raises nothing.
pub terminal_is_left_alone :
    (k : String) (s : JobStore) (r : JobRow) (j : JobState) (m e now : String) (o : Option String)
    (p : Payload)
    → row k s ≡ some r
    → row_to_job r ≡ ok j
    → is_terminal_status j.status ≡ true
    → (start_job k m now s ≡ (ok (some j), s))
      × (fail_job k e o now s ≡ (ok (some j), s))
      × (cancel_job k m now s ≡ (ok (some j), s))
      × (expire_job k m now s ≡ (ok (some j), s))
      × (complete_job k p m now s ≡ (ok (some j), s))
unfolding start_job fail_job cancel_job expire_job complete_job
terminal_is_left_alone k s r j m e now o p h f t = (
  change_status_refused k running _ s r j h f (no_transition j.status running t),
  change_status_refused k failed _ s r j h f (no_transition j.status failed t),
  change_status_refused k cancelled _ s r j h f (no_transition j.status cancelled t),
  change_status_refused k expired _ s r j h f (no_transition j.status expired t),
  change_status_refused k succeeded (complete_plan p m now) s r j h f
      (no_transition j.status succeeded t),
)

-- A job that is still pending cannot be completed: the call returns it as it is and writes nothing.
pub pending_is_not_completed :
    (k : String) (s : JobStore) (r : JobRow) (j : JobState) (m now : String) (p : Payload)
    → row k s ≡ some r
    → row_to_job r ≡ ok j
    → j.status ≡ pending
    → complete_job k p m now s ≡ (ok (some j), s)
unfolding complete_job valid_transition
pending_is_not_completed k s r j m now p h f e =
    change_status_refused k succeeded (complete_plan p m now) s r j h f (rw e refl)
