-- ===== src/Jobs/Polling.antt =====
-- backend/app/jobs/store.py, `refresh_job`: a sequence of polls of a running job.
use meridian_logistics.Prelude.{
  ℕ, suc, String, ◌≡◌, refl, inl, inr, Bool, true, Option, some, List, [], ◌∷◌, arith, ap, ◌∙◌,
  ℕ-cases, length, ◌≤◌, ◌<◌, ◌+◌, second_eq, eq_iff,
}
use meridian_logistics.Python.{Result, ok, Value, get, get_text, item, str}
use meridian_logistics.Jobs.Status.{
  running, succeeded, value, from_string, valid_transition, is_terminal_status, from_string-value,
}
use meridian_logistics.Jobs.Store.{
  Payload, JobRow, JobState, JobStore, row_to_job, row, set_rows, to_state, read_row,
  row_to_job_lem,
}
use meridian_logistics.Jobs.Methods.{
  complete_job, complete_plan, refresh_job, update_autonomy_metadata, count_set, metadata_set,
  complete_set, remaining,
}
use meridian_logistics.Jobs.Ops.{Op, refresh, annotate, apply, run}
use meridian_logistics.Jobs.Steps.{SameOutcome, row-set_rows, row-job_id}
use meridian_logistics.Jobs.Effects.{change_status_legal}
use meridian_logistics.Jobs.Polls.{refresh_job_counts, refresh_job_finishes}
use meridian_logistics.Jobs.Progress.{run_keeps_outcome}

-- A poll of each of these times.
abbrev pub polls : String → List String → List Op
polls k [] = []
polls k (now ∷ nows) = refresh k now ∷ polls k nows

-- A row whose status is `running` reads as a running job.
pub running_job :
    (r : JobRow) → r.job_status ≡ value running → row_to_job r ≡ ok (to_state r running)
running_job r h = rw (row_to_job_lem, h, from_string-value) refl

-- The row of a job that a statement updates.
pub row-set_rows_self :
    (k : String) (f : JobRow → JobRow) (same : (x : JobRow) → (f x).job_id ≡ x.job_id)
    → (s : JobStore) (r : JobRow) → row k s ≡ some r
    → row k (set_rows k f s) ≡ some (f r)
row-set_rows_self k f same s r h =
    row-set_rows k k f same s ∙ rw (h, (eq_iff r.job_id k).1 (row-job_id k s r h)) refl

-- A job that is ready to complete: it runs, and its result is prepared and has a response id.
pub record IsPrepared (r : JobRow) (p : Payload) (v : Value) : Type 0 where
  pub is_running : r.job_status ≡ value running
  pub prepared : r.prepared_result_payload ≡ some p
  pub response_id : get p "response_id" ≡ some v

-- The job ended well, with the prepared result and its response id.
pub record IsCompleted (r : JobRow) (p : Payload) (v : Value) : Type 0 where
  pub has_succeeded : r.job_status ≡ value succeeded
  pub result : r.result_payload ≡ some p
  pub response_id : r.completed_response_id ≡ some (str v)

module _ (k : String) (s : JobStore) (r : JobRow) (h : row k s ≡ some r) (p : Payload) (v : Value)
    (ready : IsPrepared r p v) where
  counted_row :
      (n : ℕ) (now : String)
      → remaining r ≡ suc n
      → row k (refresh_job k now s).1 ≡ some (count_set n now r)
  counted_row n now m =
      ap (λ (t : JobStore). row k t)
        (second_eq (
          refresh_job_counts k now s r (to_state r running) h (running_job r ready.is_running) refl
            p n ready.prepared m))
      ∙ row-set_rows_self k (count_set n now) (unfold count_set in λ x. refl) s r h

  planned :
      (m now : String) (job : JobState)
      → complete_plan p m now job ≡ ok (complete_set (str v) m p now)
  unfolding complete_plan item
  planned m now job = rw ready.response_id refl

  -- A poll that finds no count left completes the job and returns it.
  pub refresh_job_completes :
      (now : String)
      → remaining r ≡ 0
      → let m = get_text p "summary" "Background refresh completed for Memphis exceptions." in
        let f = complete_set (str v) m p now in
        (refresh_job k now s ≡ (ok (some (to_state (f r) succeeded)), set_rows k f s))
        × (row k (set_rows k f s) ≡ some (f r))
  refresh_job_completes now z = (
    refresh_job_finishes k now s r (to_state r running) h (running_job r ready.is_running) refl p
          ready.prepared z
        ∙ completed_pair
        ∙ rw (after, completed_job) refl,
    after,
  )
    where
      m : String
      m = get_text p "summary" "Background refresh completed for Memphis exceptions."

      f : JobRow → JobRow
      f = complete_set (str v) m p now

      after : row k (set_rows k f s) ≡ some (f r)
      after = row-set_rows_self k f (unfold complete_set in λ x. refl) s r h

      completed_job : row_to_job (f r) ≡ ok (to_state (f r) succeeded)
      completed_job =
          rw (row_to_job_lem (f r)) (unfold complete_set in rw (from_string-value succeeded) refl)

      completed_pair :
          complete_job k p m now s ≡ (read_row (row k (set_rows k f s)), set_rows k f s)
      completed_pair =
          unfold complete_job valid_transition in
          change_status_legal k succeeded (complete_plan p m now) s r (to_state r running) f h
            (running_job r ready.is_running) refl (planned m now (to_state r running))

  pub complete_set-IsCompleted : (m now : String) → IsCompleted (complete_set (str v) m p now r) p v
  unfolding complete_set
  complete_set-IsCompleted m now = ground arith

  refresh_job-IsCompleted :
      (now : String)
      → remaining r ≡ 0
      → (r' : JobRow) × (row k (refresh_job k now s).1 ≡ some r') × IsCompleted r' p v
  refresh_job-IsCompleted now m =
      let message = get_text p "summary" "Background refresh completed for Memphis exceptions." in
      (
        complete_set (str v) message p now r,
        ap (λ (t : Result (Option JobState) × JobStore). row k t.1) (refresh_job_completes now m).0
            ∙ (refresh_job_completes now m).1,
        complete_set-IsCompleted message now,
      )

pub count-IsPrepared :
    (r : JobRow) (p : Payload) (v : Value) (n : ℕ) (now : String)
    → IsPrepared r p v
    → IsPrepared (count_set n now r) p v
unfolding count_set
count-IsPrepared r p v n now c = ground arith

remaining-count : (n : ℕ) (now : String) (r : JobRow) → remaining (count_set n now r) ≡ n
unfolding remaining count_set
remaining-count n now r = refl

-- While the polls are no more than those that remain, the job stays running and prepared, and each
-- poll uses up one of them.
pub polls_count :
    (nows : List String) (k : String) (s : JobStore) (r : JobRow) (p : Payload) (v : Value)
    → row k s ≡ some r
    → IsPrepared r p v
    → length nows ≤ remaining r
    → (r' : JobRow) × (row k (run (polls k nows) s) ≡ some r')
      × IsPrepared r' p v
      × (remaining r' + length nows ≡ remaining r)
unfolding run apply
polls_count [] k s r p v h c l = (r, h, c, omega arith)
polls_count (now ∷ nows) k s r p v h c l = elim (ℕ-cases (remaining r)) [
  | inl e ↦ absurd (omega arith)
  | inr (n, e) ↦
      let (r', h', c', e') =
        polls_count nows k (refresh_job k now s).1 (count_set n now r) p v
          (counted_row k s r h p v c n now e) (count-IsPrepared r p v n now c)
          (omega (arith, remaining-count n now r)) in
      (r', h', c', omega (arith, remaining-count n now r))
]

-- Writing metadata for a running job returns it, with them.
pub annotate_running :
    (k : String) (s : JobStore) (r : JobRow) (m : Payload) (trigger : Bool) (now : String)
    → row k s ≡ some r
    → r.job_status ≡ value running
    → let f = metadata_set m trigger now in
      (update_autonomy_metadata k m trigger now s
        ≡ (ok (some (to_state (f r) running)), set_rows k f s))
      × (row k (set_rows k f s) ≡ some (f r))
annotate_running k s r m trigger now h e = (
  unfold update_autonomy_metadata in rw (h, running_job r e, after, running_job (f r) still) refl,
  after,
)
  where
    f : JobRow → JobRow
    f = metadata_set m trigger now

    after : row k (set_rows k f s) ≡ some (f r)
    after = row-set_rows_self k f (unfold metadata_set in λ x. refl) s r h

    still : (f r).job_status ≡ value running
    still = unfold metadata_set in e

keep-IsCompleted :
    {r r' : JobRow} {p : Payload} {v : Value}
    → SameOutcome r r'
    → IsCompleted r p v
    → IsCompleted r' p v
keep-IsCompleted o c = ground arith

-- One poll more than those that remain completes a running job with its prepared result, and
-- further polls leave it so.
pub polls_complete :
    (nows : List String) (k : String) (s : JobStore) (r : JobRow) (p : Payload) (v : Value)
    → row k s ≡ some r
    → IsPrepared r p v
    → remaining r < length nows
    → (r' : JobRow) × (row k (run (polls k nows) s) ≡ some r') × IsCompleted r' p v
unfolding run apply
polls_complete [] k s r p v h c l = absurd (omega arith)
polls_complete (now ∷ nows) k s r p v h c l = elim (ℕ-cases (remaining r)) [
  | inl e ↦
      let (x, hx, cx) = refresh_job-IsCompleted k s r h p v c now e in
      let (r', h', o) =
        run_keeps_outcome (polls k nows) k (refresh_job k now s).1 x succeeded hx
          (ap from_string cx.has_succeeded ∙ from_string-value succeeded)
          (unfold is_terminal_status in refl) in
      (r', h', keep-IsCompleted o cx)
  | inr (n, e) ↦
      polls_complete nows k (refresh_job k now s).1 (count_set n now r) p v
        (counted_row k s r h p v c n now e) (count-IsPrepared r p v n now c)
        (omega (arith, remaining-count n now r))
]

-- Metadata written with `trigger_completion` make the next poll of a running, prepared job complete
-- it, however many polls remained.
pub triggered_completes :
    (k : String) (s : JobStore) (r : JobRow) (p m : Payload) (v : Value) (t now : String)
    → row k s ≡ some r
    → IsPrepared r p v
    → (r' : JobRow) × (row k (run (annotate k m true t ∷ refresh k now ∷ []) s) ≡ some r')
      × IsCompleted r' p v
unfolding run apply
triggered_completes k s r p m v t now h c =
    refresh_job-IsCompleted k (update_autonomy_metadata k m true t s).1 (metadata_set m true t r)
      annotated p v prepared now (unfold remaining metadata_set in refl)
  where
    annotated : row k (update_autonomy_metadata k m true t s).1 ≡ some (metadata_set m true t r)
    annotated =
        let written = annotate_running k s r m true t h c.is_running in
        ap (λ (x : Result (Option JobState) × JobStore). row k x.1) written.0 ∙ written.1

    prepared : IsPrepared (metadata_set m true t r) p v
    prepared = unfold metadata_set in ground arith
