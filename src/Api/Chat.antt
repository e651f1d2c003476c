-- ===== src/Api/Chat.antt =====
-- backend/app/api/routes/chat.py: the chat route, over the stores of the application.
pub mod Refresh
pub mod Finish
pub mod Background
pub mod Completion
pub mod Keeping
pub mod Ownership
pub mod Stale
mod Examples
use Prim.Native.String.{◌++◌}
use meridian_logistics.Prelude.{
  String, Bool, true, false, not, Option, none, some, List, [], ◌∷◌, ◌==◌, ◌&&◌, ◌||◌, opt_eq,
  if◌then◌else◌,
}
use meridian_logistics.Python.{
  http_error, Result, ok, err, and_then, Exec, pure, raise, lift, gets, modify, ◌>>=◌, ◌>>◌, Value,
  null, bool, other, Dict, get, item, or_default,
}
use meridian_logistics.Python.Json.{
  Reader, Json, leaf, array, nil, text_leaf, optional_text_leaf, text_array, text_of, truth_of,
}
use meridian_logistics.Jobs.Store.{Payload, JobState, JobStore}
use meridian_logistics.Jobs.Methods.{
  NewJob, create_job, prepare_result, bind_pending_response, start_job, update_autonomy_metadata,
}
use meridian_logistics.Session.{
  ActiveResourceBinding, SessionState, SessionStore, get_session, save_session,
}
use meridian_logistics.Session.Documents.{next_session_id, resource_to_dict, resource_entry}
use meridian_logistics.Controller.Models.{ControllerCheckpoint}
use meridian_logistics.Controller.Runtime.{Runtime, Files}
use meridian_logistics.Autonomy.Models.{AutonomyJobMetadata, metadata_to_dict}
use meridian_logistics.Autonomy.Service.{mentions_any, is_eligible_for_autonomy, seed_autonomy_run}
use meridian_logistics.Responses.{build_response_envelope, is_given}
use meridian_logistics.Reads.Tools.{ReadTools, ReadResult, dict, items, message_block}
use meridian_logistics.Orchestrator.{execute_read_path}
use meridian_logistics.Api.Jobs.{App, on_jobs}
use meridian_logistics.Api.Actions.{
  TrustedIdentity, Caller, identity_from_request_state, trusted_or_seeded,
}
use meridian_logistics.Api.Requests.{
  trusted_chat_identity, ChatRequest, Stamps, is_async_refresh_request, session_state_for_request,
}
use meridian_logistics.Api.Payloads.{
  base_payload, build_read_result_payload, pending_content, flat_payload,
}

-- What the route uses of the application: the runtime of the autonomy service, the read tools, and
-- the validator of the response contract.
pub record Chat : Type 0 where
  pub runtime : Runtime
  pub tools : ReadTools
  pub is_valid : Dict Json → Bool

abbrev pub saving : SessionState → String → Exec App (Unit {0})
saving s now = modify (λ a. record a { session_store = (save_session s now a.session_store).1 })

abbrev on_files : {A : Type 0} → Exec Files A → Exec App A
on_files m a = ((m a.files).0, record a { files = (m a.files).1 })

abbrev pub queued_job : SessionState → Stamps → NewJob
queued_job s t = record {
  job_id = t.job_id;
  job_poll_token = t.job_poll_token;
  session_id = s.session_id;
  broker_id = s.broker_id;
  office_id = s.office_id;
  progress_message = "Background refresh queued for Memphis exceptions.";
  retry_allowed = true;
}

annotate_seeded :
    String → String → Option (AutonomyJobMetadata × ControllerCheckpoint) → Exec App (Unit {0})
unfolding update_autonomy_metadata metadata_to_dict
annotate_seeded k now none = pure tt
annotate_seeded k now (some (m, checkpoint)) = do
  on_jobs (update_autonomy_metadata k (metadata_to_dict m) false now)
  pure tt

-- Seed autonomy if enabled and eligible.
unfoldable pub seed_if_eligible : Chat → ChatRequest → String → Stamps → Exec App (Unit {0})
unfolding annotate_seeded is_eligible_for_autonomy seed_autonomy_run
seed_if_eligible c q k t a =
    if not (is_eligible_for_autonomy c.tools.prompts.lower c.runtime.config q.prompt true)
    then pure tt a
    else (do
      seeded ← on_files (seed_autonomy_run c.runtime.config k t.seeded)
      annotate_seeded k t.annotated seeded)
        a

unfoldable pub build : Chat → Dict Json → Result (Dict Json)
unfolding build_response_envelope
build c payload = build_response_envelope c.runtime.reader c.is_valid payload

-- The branch of an asynchronous refresh, up to its payload.
unfoldable pub refresh_payload :
    Chat → ChatRequest → TrustedIdentity → SessionState → Stamps → Exec App (Dict Json)
unfolding seed_if_eligible build build_read_result_payload base_payload pending_content flat_payload
refresh_payload c q i s t = do
  saving s t.saved
  job ← on_jobs (create_job (queued_job s t) t.created)
  seed_if_eligible c q job.job_id t
  result ←
      lift
        (and_then (build_read_result_payload c.tools q s i (some job.job_id) t.prepared) (build c))
  on_jobs (prepare_result job.job_id (flat_payload c.runtime.reader result) t.prepared_at)
  let s' = record s { last_job_id = some job.job_id }
  saving s' t.saved_again
  pure (base_payload s' (pending_content job) t.answered)

unfoldable pub read_payload :
    Chat → ChatRequest → TrustedIdentity → SessionState → Stamps → Exec App (Dict Json)
unfolding build_read_result_payload
read_payload c q i s t = do
  saving s t.saved
  lift (build_read_result_payload c.tools q s i none t.answered)

-- built_payload.get("job_id"), as text where it is not empty
unfoldable pub job_of : Reader → Option Json → Option String
unfolding is_given text_of
job_of r none = none
job_of r (some j) = if is_given (some j) then some (text_of r j) else none

unfoldable pub bind_and_start : Option String → String → Stamps → Exec App (Unit {0})
bind_and_start none response t = pure tt
bind_and_start (some k) response t = do
  on_jobs (bind_pending_response k response t.bound)
  on_jobs (start_job k "Background refresh running for Memphis exceptions." t.started)
  pure tt

last_job : Option String → Option String → Option String
last_job none old = old
last_job (some k) old = some k

-- The session as it was stored, with the response and the job of this request.
unfoldable pub finalized_session :
    SessionState → String → Option String → SessionStore → SessionState
unfolding last_job get_session
finalized_session s response job sessions =
    let stored : SessionState = or_default (get_session s.session_id sessions) s in
    record stored {
      last_response_id = some response;
      last_job_id = last_job job stored.last_job_id;
    }

unfoldable pub finish :
    {E : Type 0} → Chat → (Dict Json → Result E) → SessionState → Dict Json → Stamps → Exec App E
unfolding text_of
finish c validate s payload t = do
  built ← lift (build c payload)
  let job = job_of c.runtime.reader (get built "job_id")
  response ← lift (item built "response_id")
  let id = text_of c.runtime.reader response
  bind_and_start job id t
  final ← gets (λ a. finalized_session s id job a.session_store)
  saving final t.finalized
  lift (validate built)

-- `validate` is ChatResponseEnvelope.model_validate.
unfoldable pub post_chat :
    {E : Type 0} → Chat → (Dict Json → Result E) → Caller → ChatRequest → Stamps → Exec App E
post_chat c validate caller q t = do
  i ← lift (trusted_chat_identity caller)
  s ← session_state_for_request c.tools.prompts.lower q i t
  payload ← (λ a.
      if is_async_refresh_request c.tools.prompts.lower q.prompt
      then refresh_payload c q i s t a
      else read_payload c q i s t a)
  finish c validate s payload t
