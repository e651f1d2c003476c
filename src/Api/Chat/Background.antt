-- ===== src/Api/Chat/Background.antt =====
-- backend/app/api/routes/chat.py and jobs.py: a chat that asks for a background refresh, and the poll
-- of the job that it started.
use meridian_logistics.Prelude.{
  none, ap, if◌then◌else◌, String, ◌≡◌, refl, ◌∙◌, true, false, Option, some, ◌==◌, eq_refl, ◌<◌,
}
use meridian_logistics.Python.{Result, ok, and_then, Dict, get, text}
use meridian_logistics.Python.Json.{Json, text_leaf}
use meridian_logistics.Python.Laws.{and_then-eq-ok}
use meridian_logistics.Jobs.Status.{pending, value}
use meridian_logistics.Jobs.Store.{JobRow, JobState, row, to_state}
use meridian_logistics.Jobs.Methods.{new_row, metadata_set, prepare_set, bind_set, start_set}
use meridian_logistics.Session.{
  SessionState, SessionRow, SessionStore, session_row, get_session, created,
}
use meridian_logistics.Session as Session
use meridian_logistics.Session.Access.{get_session-save_session, row-save_session}
use meridian_logistics.Autonomy.Service.{seed_metadata, seed_checkpoint, load_checkpoint}
use meridian_logistics.Autonomy.Models.{metadata_to_dict}
use meridian_logistics.Controller.Runtime.{write_checkpoint}
use meridian_logistics.Jobs.Polling.{IsPrepared}
use meridian_logistics.Autonomy.Bounds.{load_checkpoint-write_checkpoint}
use meridian_logistics.Reads.Tools.{ReadResult}
use meridian_logistics.Api.Jobs.{App}
use meridian_logistics.Api.Polls.{IsUnderWay}
use meridian_logistics.Api.Actions.{TrustedIdentity, Caller}
use meridian_logistics.Api.Requests.{
  trusted_chat_identity, ChatRequest, Stamps, session_state_for_request, is_async_refresh_request,
}
use meridian_logistics.Api.Chat.{Chat, queued_job, build, post_chat}
use meridian_logistics.Api.Payloads.{
  read_result_for_request, read_content, build_read_result_payload, base_payload, pending_content,
  flat_payload,
}
use meridian_logistics.Api.Chat.Refresh.{
  is_taken, IsAccepted, eligible_enabled, refreshed, refresh_payload_lem, prepared, prepared_row,
}
use meridian_logistics.Api.Chat.Finish.{
  built_response_id, get-flat_payload, answered, started_row, finish_lem, row_started,
}

-- The job that the refresh creates, as create_job returns it.
abbrev pub queued_state : SessionState → Stamps → JobState
queued_state s t = to_state (new_row (queued_job s t) t.created) pending

-- A chat that starts a background refresh: the caller is trusted, the session `s` is opened, the
-- prompt asks for a refresh, the read gives `result`, and the contract accepts the pending answer `b`.
pub record IsRefresh (c : Chat) (caller : Caller) (q : ChatRequest) (t : Stamps) (a : App)
    (i : TrustedIdentity) (s : SessionState) (a1 : App) (result b : Dict Json) : Type 0 where
  pub trusted : trusted_chat_identity caller ≡ ok i
  pub opened : session_state_for_request c.tools.prompts.lower q i t a ≡ (ok s, a1)
  pub is_async : is_async_refresh_request c.tools.prompts.lower q.prompt ≡ true
  pub accepted : IsAccepted c q i s t a1 result
  pub built :
      build c (
        base_payload
          (record s { last_job_id = some t.job_id })
          (pending_content (queued_state s t))
          t.answered)
      ≡ ok b
  pub named : (t.job_id == "") ≡ false

-- The autonomy service takes the prompt, which it does only if it is enabled, and has a budget of steps.
pub record IsAutonomous (c : Chat) (q : ChatRequest) : Type 0 where
  pub taken : is_taken c q ≡ true
  pub budget : 0 < c.runtime.config.running_autonomy_max_steps

module _ (c : Chat) (q : ChatRequest) (i : TrustedIdentity) (s : SessionState) (t : Stamps)
    (job : Option String) (result : Dict Json) where
  result_response_id :
      and_then (build_read_result_payload c.tools q s i job t.prepared) (build c) ≡ ok result
      → get result "response_id" ≡ some (text_leaf t.prepared.response_id)
  unfolding build_read_result_payload
  result_response_id h =
      and_then-eq-ok (build_read_result_payload c.tools q s i job t.prepared) (build c) h λ p g f.
        and_then-eq-ok (read_result_for_request c.tools q s i) _ g λ r e d.
          built_response_id c s (read_content r job) t.prepared result (rw (payload_is p r d) f)
    where
      payload_is :
          (p : Dict Json) (r : ReadResult)
          → ok (base_payload s (read_content r job) t.prepared) ≡ ok p
          → base_payload s (read_content r job) t.prepared ≡ p
      payload_is p r d = cc

module _ (c : Chat) (caller : Caller) (q : ChatRequest) (t : Stamps) (a : App) (i : TrustedIdentity)
    (s : SessionState) (a1 : App) (result b : Dict Json)
    (w : IsRefresh c caller q t a i s a1 result b) where
  abbrev pub before : App
  before = refreshed c q i s t a1 result w.accepted

  abbrev pub stored : SessionState
  stored = record s { last_job_id = some t.job_id }

  pub is_stored : get_session s.session_id before.session_store ≡ some stored
  is_stored =
      get_session-save_session stored t.saved_again _ s.session_id ∙ rw (eq_refl s.session_id) refl

  pub is_prepared :
      (row t.job_id before.job_store ≡ some (prepared_row c q i s t a1 result w.accepted))
      × ((prepared_row c q i s t a1 result w.accepted).job_status ≡ value pending)
  is_prepared = prepared c q i s t a1 result w.accepted

  pub for_job : (pending_content (queued_state s t)).job_id ≡ some t.job_id
  unfolding pending_content new_row
  for_job = refl

  abbrev pub after : App
  after =
      answered c s stored (pending_content (queued_state s t)) t before b t.job_id
        (prepared_row c q i s t a1 result w.accepted) w.built for_job w.named is_prepared.0
        is_prepared.1 is_stored

  abbrev pub the_row : JobRow
  the_row =
      started_row c s stored (pending_content (queued_state s t)) t before b t.job_id
        (prepared_row c q i s t a1 result w.accepted) w.built for_job w.named is_prepared.0
        is_prepared.1 is_stored

  abbrev pub the_session : SessionRow
  the_session =
      session_row
        (record stored {
          last_response_id = some t.answered.response_id;
          last_job_id = some t.job_id;
        })
        (created (Session.row s.session_id before.session_store) t.finalized) t.finalized

  pub answers :
      {E : Type 0} (validate : Dict Json → Result E)
      → post_chat c validate caller q t a ≡ (validate b, after)
  unfolding post_chat
  answers validate =
      rw (w.trusted, w.opened, w.is_async, refresh_payload_lem c q i s t a1 result w.accepted)
        (finish_lem c s stored (pending_content (queued_state s t)) t before b t.job_id
          (prepared_row c q i s t a1 result w.accepted) w.built for_job w.named is_prepared.0
          is_prepared.1 is_stored validate)

  pub row_after : row t.job_id after.job_store ≡ some the_row
  row_after =
      (row_started c s stored (pending_content (queued_state s t)) t before b t.job_id
        (prepared_row c q i s t a1 result w.accepted) w.built for_job w.named is_prepared.0
        is_prepared.1 is_stored).0

  pub session_after : Session.row s.session_id after.session_store ≡ some the_session
  session_after =
      row-save_session
        (record stored {
          last_response_id = some t.answered.response_id;
          last_job_id = some t.job_id;
        })
        t.finalized before.session_store s.session_id
      ∙ rw (eq_refl s.session_id) refl

  pub is_ready :
      IsPrepared the_row (flat_payload c.runtime.reader result) (text t.prepared.response_id)
  unfolding start_set bind_set prepare_set
  is_ready = record {
    is_running = refl;
    prepared = refl;
    response_id =
        get-flat_payload c.runtime.reader result "response_id" t.prepared.response_id
          (result_response_id c q i s t (some t.job_id) result w.accepted.read);
  }

  -- What the autonomy service left of the job: its metadata and its checkpoint, if it took it.
  pub seeded :
      (the_row.autonomy_metadata ≡ (
        if is_taken c q
        then some (metadata_to_dict (seed_metadata c.runtime.config t.job_id))
        else none))
      × (after.files ≡ (
          if is_taken c q
          then write_checkpoint t.job_id (seed_checkpoint t.job_id t.seeded) a1.files
          else a1.files))
      × (the_row.completion_refreshes_remaining ≡ some a1.job_store.completion_refresh_polls)
  unfolding start_set bind_set prepare_set
  seeded = (refl, refl, refl)

  pub under_way :
      IsAutonomous c q
      → IsUnderWay c.runtime t.job_id after the_row
          (flat_payload c.runtime.reader result)
          (text t.prepared.response_id)
          (seed_metadata c.runtime.config t.job_id)
  under_way auto = record {
    found = row_after;
    prepared = is_ready;
    annotated = seeded.0 ∙ rw auto.taken refl;
    enabled = eligible_enabled c q auto.taken;
    left = unfold seed_metadata in auto.budget;
    checkpoint = (
      seed_checkpoint t.job_id t.seeded,
      ap (load_checkpoint c.runtime t.job_id) (seeded.1 ∙ rw auto.taken refl)
          ∙ load_checkpoint-write_checkpoint c.runtime t.job_id a1.files
              (seed_checkpoint t.job_id t.seeded),
    );
  }

  pub owned :
      (the_row.job_poll_token ≡ some t.job_poll_token)
      × (the_row.pending_response_id ≡ some t.answered.response_id)
      × (the_row.session_id ≡ s.session_id)
      × (the_row.job_id ≡ t.job_id)
  unfolding start_set bind_set prepare_set metadata_set new_row
  owned = (refl, refl, refl, refl)

  pub awaited :
      (the_session.last_response_id ≡ some t.answered.response_id)
      × (the_session.last_job_id ≡ some t.job_id)
  unfolding session_row
  awaited = (refl, refl)
