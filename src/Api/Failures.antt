-- ===== src/Api/Failures.antt =====
-- backend/app/api/routes/jobs.py, `get_job`: a poll of a job whose autonomy run cannot go on.
use meridian_logistics.Prelude.{
  String, ◌≡◌, refl, true, false, none, some, arith, ap, ◌∙◌, ◌≤◌, leb,
}
use meridian_logistics.Python.{Result, ok, Dict}
use meridian_logistics.Python.Json.{Json}
use meridian_logistics.Jobs.Status.{
  running, failed, value, valid_transition, is_transient_status, from_string-value,
}
use meridian_logistics.Jobs.Store.{
  Payload, JobRow, JobState, JobStore, row, to_state, set_rows, get_job_by_poll_token, row_to_job,
  row_to_job_lem,
}
use meridian_logistics.Jobs.Store as Store
use meridian_logistics.Jobs.Methods.{
  metadata_set, fail_set, fail_job, update_autonomy_metadata, text_or,
}
use meridian_logistics.Jobs.Effects.{change_status_legal}
use meridian_logistics.Jobs.Polls.{refresh_job_not_running}
use meridian_logistics.Jobs.Polling.{running_job, annotate_running, row-set_rows_self}
use meridian_logistics.Jobs.Documents.{to_api_dict}
use meridian_logistics.Controller.Runtime.{Runtime}
use meridian_logistics.Autonomy.Models.{
  AutonomyJobMetadata, metadata_to_dict, metadata_from_dict-metadata_to_dict,
}
use meridian_logistics.Autonomy.Service.{
  is_enabled, advance_step, resume_one_step, stepped, failure,
}
use meridian_logistics.Api.Jobs.{
  App, Clock, autonomy_step, autonomy_of, poll_job, promote_with, get_job,
}
use meridian_logistics.Api.Polls.{opened}

-- A running job, opened with its token, with the metadata `m` of a run whose steps are used up.
pub record IsExhausted (rt : Runtime) (k token : String) (a : App) (r : JobRow)
    (m : AutonomyJobMetadata) : Type 0 where
  pub found : row k a.job_store ≡ some r
  pub has_it : r.job_poll_token ≡ some token
  pub is_running : r.job_status ≡ value running
  pub incomplete : r.completed_response_id ≡ none
  pub annotated : r.autonomy_metadata ≡ some (metadata_to_dict m)
  pub enabled : is_enabled rt.config ≡ true
  pub used_up : m.step_budget ≤ m.step_index

abbrev pub exhausted : String
exhausted = "Step budget exhausted"

-- Failing a running job with a message.
module _ (k now : String) (s : JobStore) (r : JobRow) (h : row k s ≡ some r)
    (e : r.job_status ≡ value running) where
  abbrev fail_row : JobRow → JobRow
  fail_row = fail_set "Bounded autonomy failed." exhausted now

  failed_row : row k (set_rows k fail_row s) ≡ some (fail_row r)
  failed_row = row-set_rows_self k fail_row (unfold fail_set in λ x. refl) s r h

  read_failed : row_to_job (fail_row r) ≡ ok (to_state (fail_row r) failed)
  read_failed =
      rw (row_to_job_lem (fail_row r)) (unfold fail_set in rw (from_string-value failed) refl)

  store_fails :
      fail_job k exhausted (some "Bounded autonomy failed.") now s
      ≡ (ok (some (to_state (fail_row r) failed)), set_rows k fail_row s)
  unfolding fail_job text_or valid_transition
  store_fails =
      change_status_legal k failed
        (λ job.
          ok (
            fail_set (text_or (some "Bounded autonomy failed.") job.progress_message) exhausted
              now))
        s r (to_state r running) fail_row h (running_job r e) refl refl
      ∙ rw (failed_row, read_failed) refl

module _ (rt : Runtime) (k token : String) (clock : Clock) (a : App) (r : JobRow)
    (m : AutonomyJobMetadata) (w : IsExhausted rt k token a r m) where
  step_fails : advance_step rt k m a.files ≡ ok (stepped m (failure exhausted), failure exhausted)
  unfolding advance_step resume_one_step
  step_fails = rw (w.enabled, over) refl
    where
      over : leb m.step_budget m.step_index ≡ true
      over = ground (arith, w.used_up)

  -- The row that the poll leaves.
  abbrev pub noted : JobRow → JobRow
  noted = metadata_set (metadata_to_dict (stepped m (failure exhausted))) false clock.annotated

  abbrev pub ended : JobRow
  ended = fail_set "Bounded autonomy failed." exhausted clock.failed (noted r)

  abbrev noted_store : JobStore
  noted_store = set_rows k noted a.job_store

  abbrev ended_store : JobStore
  ended_store = set_rows k (fail_set "Bounded autonomy failed." exhausted clock.failed) noted_store

  noted-running : (noted r).job_status ≡ value running
  noted-running = unfold metadata_set in w.is_running

  noted_written :
      (update_autonomy_metadata k
          (metadata_to_dict (stepped m (failure exhausted)))
          false
          clock.annotated
          a.job_store
        ≡ (ok (some (to_state (noted r) running)), noted_store))
      × (row k noted_store ≡ some (noted r))
  noted_written =
      annotate_running k a.job_store r (metadata_to_dict (stepped m (failure exhausted))) false
        clock.annotated w.found w.is_running

  ended-row : row k ended_store ≡ some ended
  ended-row = failed_row k clock.failed noted_store (noted r) noted_written.1 noted-running

  read_ended : row_to_job ended ≡ ok (to_state ended failed)
  read_ended = read_failed k clock.failed noted_store (noted r) noted_written.1 noted-running

  step_records :
      autonomy_step rt k (metadata_to_dict m) clock a
      ≡ (ok tt, record a { job_store = ended_store })
  unfolding autonomy_step Store.get_job
  step_records =
      rw
        (
          metadata_from_dict-metadata_to_dict rt.reader m,
          step_fails,
          noted_written.0,
          store_fails k clock.failed noted_store (noted r) noted_written.1 noted-running,
          ended-row,
          read_ended,
        )
        refl

  poll_fails :
      poll_job rt k (to_state r running) clock a
      ≡ (ok (to_state ended failed), record a { job_store = ended_store })
  unfolding poll_job autonomy_of is_transient_status promote_with fail_set metadata_set
  poll_fails =
      rw
        (
          w.enabled,
          w.annotated,
          step_records,
          refresh_job_not_running k clock.refreshed ended_store ended (to_state ended failed)
              ended-row read_ended (λ q. absurd (cc q)),
          w.incomplete,
        )
        refl

  -- The poll of a running job whose run has used up its steps fails the job: the response is the
  -- failed job, its row says so with the message of the step, and sessions and checkpoints are left
  -- alone.
  pub exhausted_run_fails :
      {E : Type 0} (envelope : Dict Json → Result E)
      → let after : Result E × App = get_job envelope rt k token clock a in
        (r' : JobRow) × (after.0 ≡ envelope (to_api_dict (to_state r' failed)))
        × (row k after.1.job_store ≡ some r')
        × (r'.job_status ≡ value failed)
        × (r'.error_message ≡ some exhausted)
        × (after.1.session_store ≡ a.session_store)
        × (after.1.files ≡ a.files)
  unfolding get_job get_job_by_poll_token fail_set
  exhausted_run_fails envelope =
      let done = route_fails envelope in
      (
        ended,
        ap (λ x. x.0) done,
        ap (λ x. row k x.1.job_store) done ∙ ended-row,
        refl,
        refl,
        ap (λ x. x.1.session_store) done,
        ap (λ x. x.1.files) done,
      )
    where
      route_fails :
          {E : Type 0} (envelope : Dict Json → Result E)
          → get_job envelope rt k token clock a
            ≡ (envelope (to_api_dict (to_state ended failed)), record a { job_store = ended_store })
      route_fails envelope =
          rw (opened k token a.job_store r w.found w.has_it, running_job r w.is_running, poll_fails)
            refl
