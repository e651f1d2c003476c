-- ===== src/Jobs/Opening.antt =====
-- backend/app/jobs/store.py: the calls that open a job, each on the row that the one before it left.
use meridian_logistics.Prelude.{String, ◌≡◌, refl, Bool, some, ◌∙◌}
use meridian_logistics.Python.{ok}
use meridian_logistics.Jobs.Status.{
  JobStatus, pending, running, value, from_string-value, valid_transition,
}
use meridian_logistics.Jobs.Store.{
  Payload, JobRow, JobStore, row_to_job, row, set_rows, to_state, row_to_job_lem,
}
use meridian_logistics.Jobs.Methods.{
  prepare_result, prepare_set, bind_pending_response, bind_set, start_job, start_set,
  update_autonomy_metadata, metadata_set,
}
use meridian_logistics.Jobs.Effects.{change_status_legal}
use meridian_logistics.Jobs.Polling.{row-set_rows_self}

-- A row reads with the status that its column names.
pub reads_status :
    (r : JobRow) (b : JobStatus) → r.job_status ≡ value b → row_to_job r ≡ ok (to_state r b)
reads_status r b h = rw (row_to_job_lem, h, from_string-value) refl

module _ (k : String) (s : JobStore) (r : JobRow) (here : row k s ≡ some r)
    (is_pending : r.job_status ≡ value pending) where
  pub annotate_pending :
      (m : Payload) (trigger : Bool) (now : String)
      → let f = metadata_set m trigger now in
        (update_autonomy_metadata k m trigger now s
          ≡ (ok (some (to_state (f r) pending)), set_rows k f s))
        × (row k (set_rows k f s) ≡ some (f r))
        × ((f r).job_status ≡ value pending)
  unfolding update_autonomy_metadata metadata_set
  annotate_pending m trigger now =
      let after = row-set_rows_self k (metadata_set m trigger now) (λ x. refl) s r here in
      (
        rw
            (
              here,
              reads_status r pending is_pending,
              after,
              reads_status (metadata_set m trigger now r) pending is_pending,
            )
            refl,
        after,
        is_pending,
      )

  pub prepare_pending :
      (p : Payload) (now : String)
      → let f = prepare_set p now in
        (prepare_result k p now s ≡ (ok tt, set_rows k f s))
        × (row k (set_rows k f s) ≡ some (f r))
        × ((f r).job_status ≡ value pending)
  unfolding prepare_result prepare_set
  prepare_pending p now =
      (refl, row-set_rows_self k (prepare_set p now) (λ x. refl) s r here, is_pending)

  pub bind_pending :
      (response now : String)
      → let f = bind_set response now in
        (bind_pending_response k response now s
          ≡ (ok (some (to_state (f r) pending)), set_rows k f s))
        × (row k (set_rows k f s) ≡ some (f r))
        × ((f r).job_status ≡ value pending)
  unfolding bind_pending_response bind_set
  bind_pending response now =
      let after = row-set_rows_self k (bind_set response now) (λ x. refl) s r here in
      (
        rw (after, reads_status (bind_set response now r) pending is_pending) refl,
        after,
        is_pending,
      )

  pub start_pending :
      (message now : String)
      → let f = start_set s.completion_refresh_polls message now in
        (start_job k message now s ≡ (ok (some (to_state (f r) running)), set_rows k f s))
        × (row k (set_rows k f s) ≡ some (f r))
        × ((f r).job_status ≡ value running)
  unfolding start_job start_set
  start_pending message now =
      let f : JobRow → JobRow = start_set s.completion_refresh_polls message now in
      let after = row-set_rows_self k f (λ x. refl) s r here in
      (
        change_status_legal k running (λ job. ok f) s r (to_state r pending) f here
              (reads_status r pending is_pending) (unfold valid_transition in refl) refl
            ∙ rw (after, reads_status (f r) running refl) refl,
        after,
        refl,
      )
