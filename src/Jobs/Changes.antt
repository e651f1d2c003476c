-- ===== src/Jobs/Changes.antt =====
-- backend/app/jobs/store.py: what the methods that change a status, and `refresh_job`, do to the row
-- of any job.
use meridian_logistics.Prelude.{ℕ, String, ◌≡◌, refl, inl, inr, Option, some, arith, ap, subst}
use meridian_logistics.Python.{Result, ok, err, Value, and_then, item, str}
use meridian_logistics.Jobs.Status.{
  JobStatus, running, succeeded, failed, cancelled, expired, value,
}
use meridian_logistics.Jobs.Store.{Payload, JobRow, JobState, JobStore, row_to_job, row, set_rows}
use meridian_logistics.Jobs.Methods.{
  change_status, start_job, fail_job, cancel_job, expire_job, complete_job, complete_plan,
  refresh_job, count_set, start_set, fail_set, cancel_set, expire_set, complete_set,
}
use meridian_logistics.Jobs.Steps.{
  SameOutcome, SameOwner, RowStep, kept, moved, Follows, unmoved, updated, row-job_id,
}
use meridian_logistics.Jobs.Effects.{change_status_effect, status-row_to_job}
use meridian_logistics.Jobs.Polls.{Polled, idle, counted, finished, refresh_job_effect}

-- What a SET list of a status change does: the owner stays and the status becomes `next`.
record Sets (next : JobStatus) (set : JobRow → JobRow) : Type 0 where
  owner : (x : JobRow) → SameOwner x (set x)
  status : (x : JobRow) → (set x).job_status ≡ value next

ok_injective : {A : Type 0} {a b : A} → ok a ≡ ok b → a ≡ b
ok_injective h = cc

-- A plan that always gives the same SET list, which sets the status.
Sets-ok :
    (next : JobStatus) (f : JobRow → JobRow)
    → Sets next f
    → (job : JobState) (set : JobRow → JobRow) → ok f ≡ ok set
    → Sets next set
Sets-ok next f h job set e = subst (Sets next) (ok_injective e) h

start-Sets : (n : ℕ) (m now : String) → Sets running (start_set n m now)
unfolding start_set
start-Sets n m now = record { owner = λ x. ground arith; status = λ x. refl }

fail-Sets : (m e now : String) → Sets failed (fail_set m e now)
unfolding fail_set
fail-Sets m e now = record { owner = λ x. ground arith; status = λ x. refl }

cancel-Sets : (m now : String) → Sets cancelled (cancel_set m now)
unfolding cancel_set
cancel-Sets m now = record { owner = λ x. ground arith; status = λ x. refl }

expire-Sets : (m now : String) → Sets expired (expire_set m now)
unfolding expire_set
expire-Sets m now = record { owner = λ x. ground arith; status = λ x. refl }

complete-Sets :
    (i m : String) (p : Payload) (now : String) → Sets succeeded (complete_set i m p now)
unfolding complete_set
complete-Sets i m p now = record { owner = λ x. ground arith; status = λ x. refl }

-- The SET list of a completion, when the result has a response id.
planned-Sets :
    (p : Payload) (m now : String) (id : Result Value) (set : JobRow → JobRow)
    → and_then id (λ v. ok (complete_set (str v) m p now)) ≡ ok set
    → Sets succeeded set
planned-Sets p m now (ok v) set e =
    subst (Sets succeeded) (ok_injective e) (complete-Sets (str v) m p now)
planned-Sets p m now (err x) set e = cc

complete_plan-Sets :
    (p : Payload) (m now : String) (job : JobState) (set : JobRow → JobRow)
    → complete_plan p m now job ≡ ok set
    → Sets succeeded set
unfolding complete_plan
complete_plan-Sets p m now job = planned-Sets p m now (item p "response_id")

module _ (j : String) (s : JobStore) (r : JobRow) (here : row j s ≡ some r) where
  same_row :
      (k : String) (x : JobRow) {job : JobState}
      → r.job_id ≡ k
      → row k s ≡ some x
      → row_to_job x ≡ ok job
      → row_to_job r ≡ ok job
  same_row k x at found read = cc (row-job_id j s r here, ap (λ (i : String). row i s) at)

  change_status-Follows :
      (k : String) (next : JobStatus) (plan : JobState → Result (JobRow → JobRow))
      → ((job : JobState) (set : JobRow → JobRow) → plan job ≡ ok set → Sets next set)
      → Follows j (change_status k next plan s).1 r
  change_status-Follows k next plan sets = elim (change_status_effect k next plan s) [
    | inl e ↦ unmoved j s _ r here e
    | inr c ↦
        let move : r.job_id ≡ k → RowStep r (c.set r) = λ at.
          moved c.job.status next
            (status-row_to_job r c.job (same_row k c.before at c.found c.read))
            ((sets c.job c.set c.planned).status r) c.legal in
        rw c.written (updated k j c.set s r (sets c.job c.set c.planned).owner move here)
  ]

  -- An UPDATE that leaves the outcome of every row.
  pub kept-Follows :
      (k : String) (f : JobRow → JobRow)
      → ((x : JobRow) → SameOwner x (f x))
      → ((x : JobRow) → SameOutcome x (f x))
      → Follows j (set_rows k f s) r
  kept-Follows k f own out = updated k j f s r own (λ _. kept (out r)) here

  pub start_job-Follows : (k m now : String) → Follows j (start_job k m now s).1 r
  unfolding start_job
  start_job-Follows k m now =
      change_status-Follows k running (λ _. ok (start_set s.completion_refresh_polls m now))
        (Sets-ok running _ (start-Sets s.completion_refresh_polls m now))

  pub fail_job-Follows :
      (k e : String) (m : Option String) (now : String) → Follows j (fail_job k e m now s).1 r
  unfolding fail_job
  fail_job-Follows k e m now =
      change_status-Follows k failed _ (λ job. Sets-ok failed _ (fail-Sets _ e now) job)

  pub cancel_job-Follows : (k m now : String) → Follows j (cancel_job k m now s).1 r
  unfolding cancel_job
  cancel_job-Follows k m now =
      change_status-Follows k cancelled _ (Sets-ok cancelled _ (cancel-Sets m now))

  pub expire_job-Follows : (k m now : String) → Follows j (expire_job k m now s).1 r
  unfolding expire_job
  expire_job-Follows k m now =
      change_status-Follows k expired _ (Sets-ok expired _ (expire-Sets m now))

  pub complete_job-Follows :
      (k : String) (p : Payload) (m now : String) → Follows j (complete_job k p m now s).1 r
  unfolding complete_job
  complete_job-Follows k p m now =
      change_status-Follows k succeeded (complete_plan p m now) (complete_plan-Sets p m now)

  count-Follows : (k : String) (n : ℕ) (now : String) → Follows j (set_rows k (count_set n now) s) r
  unfolding count_set
  count-Follows k n now = kept-Follows k (count_set n now) (λ x. ground arith) (λ x. ground arith)

  polled : {k now : String} {s' : JobStore} → Polled k now s s' → Follows j s' r
  polled {k} {now} (idle e) = unmoved j s _ r here e
  polled {k} {now} (counted x n e m w) = rw w (count-Follows k n now)
  polled {k} {now} (finished p m w) = rw w (complete_job-Follows k p m now)

  pub refresh_job-Follows : (k now : String) → Follows j (refresh_job k now s).1 r
  refresh_job-Follows k now = polled (refresh_job_effect k now s)
