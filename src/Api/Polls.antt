-- ===== src/Api/Polls.antt =====
-- backend/app/api/routes/jobs.py, `get_job`: a poll of a job whose autonomy run is under way.
use meridian_logistics.Prelude.{
  suc, String, opt_eq, ◌≡◌, refl, true, Option, some, ap, ◌∙◌, ◌<◌, eq_refl,
}
use meridian_logistics.Python.{Result, ok, Value, str, get_text, Dict}
use meridian_logistics.Python.Json.{Json}
use meridian_logistics.Table.{select_one}
use meridian_logistics.Table.Laws.{select_and}
use meridian_logistics.Jobs.Status.{running, succeeded, is_transient_status}
use meridian_logistics.Jobs.Store.{
  Payload, JobRow, JobState, JobStore, row, has_id, has_token, to_state, set_rows,
  get_job_by_poll_token, row_to_job,
}
use meridian_logistics.Jobs.Store as Store
use meridian_logistics.Jobs.Methods.{metadata_set, complete_set, remaining, refresh_job}
use meridian_logistics.Jobs.Polling.{
  IsPrepared, IsCompleted, running_job, annotate_running, refresh_job_completes,
  complete_set-IsCompleted,
}
use meridian_logistics.Jobs.Documents.{to_api_dict}
use meridian_logistics.Session.{
  SessionState, SessionRow, get_session, read_session, promote_set, promote_job_completion,
}
use meridian_logistics.Session as Session
use meridian_logistics.Session.Access.{promote_advances}
use meridian_logistics.Controller.Models.{ControllerCheckpoint}
use meridian_logistics.Controller.Runtime.{Runtime}
use meridian_logistics.Autonomy.Models.{
  AutonomyJobMetadata, metadata_to_dict, metadata_from_dict-metadata_to_dict, StepKind, step_value,
}
use meridian_logistics.Autonomy.Service.{
  is_enabled, load_checkpoint, advance_step, stepped, success,
}
use meridian_logistics.Autonomy.Bounds.{advance_step_succeeds}
use meridian_logistics.Api.Jobs.{
  App, Clock, autonomy_step, autonomy_of, poll_job, promote_with, get_job,
}

-- The row that a token opens, where the job has that token.
pub opened :
    (k token : String) (s : JobStore) (r : JobRow)
    → row k s ≡ some r
    → r.job_poll_token ≡ some token
    → select_one (has_token k token) s.jobs ≡ some r
opened k token s r h t =
    select_and (has_id k) (λ x. opt_eq x.job_poll_token (some token)) s.jobs r h
      (rw t (eq_refl token))

-- A poll finds a job that runs, prepared, with the metadata `m` of a run that has steps left and a
-- checkpoint.
pub record IsUnderWay (rt : Runtime) (k : String) (a : App) (r : JobRow) (p : Payload) (v : Value)
    (m : AutonomyJobMetadata) : Type 0 where
  pub found : row k a.job_store ≡ some r
  pub prepared : IsPrepared r p v
  pub annotated : r.autonomy_metadata ≡ some (metadata_to_dict m)
  pub enabled : is_enabled rt.config ≡ true
  pub left : m.step_index < m.step_budget
  pub checkpoint : (c : ControllerCheckpoint) × (load_checkpoint rt k a.files ≡ ok (some c))

module _ (rt : Runtime) (k : String) (clock : Clock) (a : App) (r : JobRow) (p : Payload)
    (v : Value) (m : AutonomyJobMetadata) (w : IsUnderWay rt k a r p v m) where
  abbrev noted_metadata : StepKind → Payload
  noted_metadata kind =
      metadata_to_dict
        (record m { step_index = suc m.step_index; last_controller_action = step_value kind })

  abbrev noted : StepKind → JobRow → JobRow
  noted kind = metadata_set (noted_metadata kind) true clock.annotated

  noted-IsPrepared : (kind : StepKind) → IsPrepared (noted kind r) p v
  unfolding metadata_set
  noted-IsPrepared kind = record {
    is_running = w.prepared.is_running;
    prepared = w.prepared.prepared;
    response_id = w.prepared.response_id;
  }

  row-noted : (kind : StepKind) → row k (set_rows k (noted kind) a.job_store) ≡ some (noted kind r)
  row-noted kind =
      (annotate_running k a.job_store r (noted_metadata kind) true clock.annotated w.found
        w.prepared.is_running).1

  -- The step succeeds, and writes its metadata with the trigger.
  step_triggers :
      (kind : StepKind) (next : Option StepKind)
      → advance_step rt k m a.files ≡ ok (stepped m (success kind next), success kind next)
      → autonomy_step rt k (metadata_to_dict m) clock a
        ≡ (ok tt, record a { job_store = set_rows k (noted kind) a.job_store })
  unfolding autonomy_step Store.get_job
  step_triggers kind next e =
      rw
        (
          metadata_from_dict-metadata_to_dict rt.reader m,
          e,
          (annotate_running k a.job_store r (noted_metadata kind) true clock.annotated w.found
              w.prepared.is_running).0,
          row-noted kind,
          running_job (noted kind r) (noted-IsPrepared kind).is_running,
        )
        refl

  abbrev message : String
  message = get_text p "summary" "Background refresh completed for Memphis exceptions."

  abbrev ended : StepKind → JobRow
  ended kind = complete_set (str v) message p clock.refreshed (noted kind r)

  abbrev ended_store : StepKind → JobStore
  ended_store kind =
      set_rows k (complete_set (str v) message p clock.refreshed)
        (set_rows k (noted kind) a.job_store)

  refreshed :
      (kind : StepKind)
      → (refresh_job k clock.refreshed (set_rows k (noted kind) a.job_store)
          ≡ (ok (some (to_state (ended kind) succeeded)), ended_store kind))
        × (row k (ended_store kind) ≡ some (ended kind))
  refreshed kind =
      refresh_job_completes k (set_rows k (noted kind) a.job_store) (noted kind r) (row-noted kind)
        p v (noted-IsPrepared kind) clock.refreshed (unfold remaining metadata_set in refl)

  ended-IsCompleted : (kind : StepKind) → IsCompleted (ended kind) p v
  ended-IsCompleted kind =
      complete_set-IsCompleted k (set_rows k (noted kind) a.job_store) (noted kind r)
        (row-noted kind) p v (noted-IsPrepared kind) message clock.refreshed

  abbrev ended_job : StepKind → JobState
  ended_job kind = to_state (ended kind) succeeded

  -- The poll completes the job and promotes its response.
  poll_completes :
      (kind : StepKind) (next : Option StepKind)
      → advance_step rt k m a.files ≡ ok (stepped m (success kind next), success kind next)
      → poll_job rt k (to_state r running) clock a ≡ (
        ok (ended_job kind),
        promote_with
            (ended_job kind)
            (some (str v))
            r.pending_response_id
            clock.promoted
            (record a { job_store = ended_store kind }),
      )
  unfolding poll_job autonomy_of is_transient_status complete_set metadata_set
  poll_completes kind next e =
      rw (w.enabled, w.annotated, step_triggers kind next e, (refreshed kind).0) refl

module _ {E : Type 0} (envelope : Dict Json → Result E) where
  route_completes :
      (rt : Runtime) (k : String) (clock : Clock) (a : App) (r : JobRow) (p : Payload) (v : Value)
      (m : AutonomyJobMetadata) (w : IsUnderWay rt k a r p v m) (token : String)
      → r.job_poll_token ≡ some token
      → (kind : StepKind) (next : Option StepKind)
      → advance_step rt k m a.files ≡ ok (stepped m (success kind next), success kind next)
      → get_job envelope rt k token clock a ≡ (
        envelope (to_api_dict (ended_job rt k clock a r p v m w kind)),
        promote_with
            (ended_job rt k clock a r p v m w kind)
            (some (str v))
            r.pending_response_id
            clock.promoted
            (record a { job_store = ended_store rt k clock a r p v m w kind }),
      )
  unfolding get_job get_job_by_poll_token
  route_completes rt k clock a r p v m w token t kind next e =
      rw
        (
          opened k token a.job_store r w.found t,
          running_job r w.prepared.is_running,
          poll_completes rt k clock a r p v m w kind next e,
        )
        refl

  -- The poll of a job under way completes it at once: the response is the completed job, the row is
  -- completed with the prepared result, and the session that still awaits the pending response gets
  -- the new response and the job as its last ones.
  pub poll_completes_run :
      (rt : Runtime) (k token expected : String) (clock : Clock) (a : App) (r : JobRow)
      (p : Payload) (v : Value) (m : AutonomyJobMetadata) (x : SessionRow)
      → IsUnderWay rt k a r p v m
      → r.job_poll_token ≡ some token
      → r.pending_response_id ≡ some expected
      → Session.row r.session_id a.session_store ≡ some x
      → x.last_response_id ≡ some expected
      → let after : Result E × App = get_job envelope rt k token clock a in
        (r' : JobRow) × (after.0 ≡ envelope (to_api_dict (to_state r' succeeded)))
        × (row k after.1.job_store ≡ some r')
        × IsCompleted r' p v
        × ((s : SessionState) × (get_session r.session_id after.1.session_store ≡ some s)
            × (s.last_response_id ≡ some (str v))
            × (s.last_job_id ≡ some r.job_id))
  unfolding promote_with complete_set metadata_set
  poll_completes_run rt k token expected clock a r p v m x w t pending here awaits =
      let (kind, next, e) =
        advance_step_succeeds rt k m a.files w.checkpoint.0 w.enabled w.left w.checkpoint.1 in
      let j : JobState = ended_job rt k clock a r p v m w kind in
      let done : get_job envelope rt k token clock a ≡ (
        envelope (to_api_dict j),
        promote_with j (some (str v)) (some expected) clock.promoted
            (record a { job_store = ended_store rt k clock a r p v m w kind }),
      ) =
        route_completes rt k clock a r p v m w token t kind next e
        ∙ ap
            (λ (o : Option String). (
              envelope (to_api_dict j),
              promote_with j (some (str v)) o clock.promoted
                  (record a { job_store = ended_store rt k clock a r p v m w kind }),
            ))
            pending in
      let q =
        promote_advances r.session_id expected (str v) r.job_id clock.promoted a.session_store x
          here awaits in
      (
        ended rt k clock a r p v m w kind,
        ap (λ (x : Result E × App). x.0) done,
        ap (λ (x : Result E × App). row k x.1.job_store) done
            ∙ (refreshed rt k clock a r p v m w kind).1,
        ended-IsCompleted rt k clock a r p v m w kind,
        (
          read_session (promote_set (str v) r.job_id clock.promoted x),
          ap (λ (y : Result E × App). get_session r.session_id y.1.session_store) done ∙ q.1,
          q.2,
          q.3,
        ),
      )
