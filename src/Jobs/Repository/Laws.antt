-- ===== src/Jobs/Repository/Laws.antt =====
-- backend/app/jobs/repository.py: what a statement leaves of a job.
use meridian_logistics.Prelude.{String, ◌≡◌, refl, Bool, Option, none, some, ◌==◌, arith, ap, ◌∙◌}
use meridian_logistics.Python.{ok}
use meridian_logistics.Table.{select_one, update}
use meridian_logistics.Table.Laws.{select-update, select_holds, select-delete}
use meridian_logistics.Jobs.Store.{Payload}
use meridian_logistics.Jobs.Repository.{
  Job, Jobs, has_id, get, complete, complete_set, Artifact, update_status, status_set, fail,
  cleanup_old,
}

-- The row of a job after a statement that updates it.
pub select-set :
    (k : String) (f : Job → Job) (t : Jobs) (j : Job)
    → ((x : Job) → (f x).job_id ≡ x.job_id)
    → select_one (has_id k) t ≡ some j
    → select_one (has_id k) (update (has_id k) f t) ≡ some (f j)
select-set k f t j same h =
    select-update (has_id k) (has_id k) f (λ r. ap (λ (i : String). i == k) (same r)) t
    ∙ rw (h, select_holds (has_id k) t j h) refl

-- The repository completes a job whatever its status: also a job that was failed or cancelled, and
-- one that was completed with another result, is then completed with the given result.
pub complete_ignores_status :
    (k message now : String) (result : Payload) (a : Artifact) (t : Jobs) (j : Job)
    → select_one (has_id k) t ≡ some j
    → let after = complete k result message a now t in
      (after.0 ≡ ok (some (complete_set result message a now j)))
      × (select_one (has_id k) after.1 ≡ some (complete_set result message a now j))
      × ((complete_set result message a now j).status ≡ "succeeded")
unfolding complete get
complete_ignores_status k message now result a t j h =
    let row = select-set k (complete_set result message a now) t j (λ x. refl) h in
    (ap (λ (o : Option Job). ok o) row, row, refl)

same_id :
    (error now : String) (x : Job) → (status_set "failed" (some error) now x).job_id ≡ x.job_id
unfolding status_set
same_id error now x = ground (arith)

never_completed :
    (error now : String) (x : Job)
    → (status_set "failed" (some error) now x).completed_at ≡ x.completed_at
unfolding status_set
never_completed error now x = ground (arith)

status_failed :
    (error now : String) (x : Job) → (status_set "failed" (some error) now x).status ≡ "failed"
unfolding status_set
status_failed error now x = ground (arith)

-- A job that `fail` ends has no time of completion, so no cleaning ever deletes it, however old it
-- is, although it is among the statuses to delete.
pub failed_is_never_cleaned :
    (k error now : String) (old : String → Bool) (t : Jobs) (j : Job)
    → select_one (has_id k) t ≡ some j
    → j.completed_at ≡ none
    → (j' : Job) × (select_one (has_id k) (cleanup_old old (fail k error now t).1).1 ≡ some j')
      × (j'.status ≡ "failed")
unfolding cleanup_old fail update_status get
failed_is_never_cleaned k error now old t j h e = (
  status_set "failed" (some error) now j,
  select-delete (has_id k) _ (update (has_id k) (status_set "failed" (some error) now) t)
      (status_set "failed" (some error) now j)
      (select-set k (status_set "failed" (some error) now) t j (same_id error now) h)
      (rw (never_completed error now j, status_failed error now j, e) refl),
  status_failed error now j,
)
