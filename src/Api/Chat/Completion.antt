-- ===== src/Api/Chat/Completion.antt =====
-- backend/app/api/routes/chat.py and jobs.py: what a chat that asks for a background refresh leaves,
-- and what the polls of its job do.
use meridian_logistics.Prelude.{
  String, false, ◌⊎◌, inl, inr, List, [], ◌∷◌, length, arith, ap, sym, ◌∙◌, ◌≡◌, refl, none, some,
  if◌then◌else◌,
}
use meridian_logistics.Python.{Result, Dict, text, str}
use meridian_logistics.Python.Json.{Json}
use meridian_logistics.Jobs.Status.{running, succeeded, value}
use meridian_logistics.Jobs.Store.{JobRow, row, to_state}
use meridian_logistics.Jobs.Methods.{start_set, bind_set, prepare_set, new_row, remaining}
use meridian_logistics.Jobs.Polling.{IsPrepared, IsCompleted}
use meridian_logistics.Jobs.Documents.{to_api_dict}
use meridian_logistics.Session.{SessionState, SessionRow, SessionStore, get_session}
use meridian_logistics.Session as Session
use meridian_logistics.Autonomy.Service.{seed_metadata, seed_checkpoint}
use meridian_logistics.Autonomy.Models.{metadata_to_dict}
use meridian_logistics.Controller.Runtime.{write_checkpoint}
use meridian_logistics.Api.Chat.Refresh.{is_taken}
use meridian_logistics.Api.Jobs.{App, Clock, get_job}
use meridian_logistics.Api.Waits.{IsWaiting, wait_ends, polled, polled-IsWaiting}
use meridian_logistics.Api.Polls.{poll_completes_run}
use meridian_logistics.Api.Actions.{TrustedIdentity, Caller}
use meridian_logistics.Api.Chat.{Chat, post_chat}
use meridian_logistics.Api.Requests.{ChatRequest, Stamps}
use meridian_logistics.Api.Payloads.{flat_payload}
use meridian_logistics.Api.Chat.Background.{
  IsRefresh, IsAutonomous, is_ready, seeded, row_after, after, answers, the_row, the_session,
  under_way, owned, awaited, session_after,
}

-- What a chat leaves of the job that it started: it runs, prepared with the result, with the poll token
-- and the pending response, and with all the polls that the store asks for before its completion; its
-- metadata are those of a seeded run, with the checkpoint stored, if the autonomy service takes the
-- prompt, and else there are none and no checkpoint changes; and the session of the request has the
-- pending response and the job as its last ones.
pub record IsOpened (c : Chat) (q : ChatRequest) (t : Stamps) (s : SessionState)
    (result : Dict Json) (before a : App) (r : JobRow) (x : SessionRow) : Type 0 where
  pub found : row t.job_id a.job_store ≡ some r
  pub ready : IsPrepared r (flat_payload c.runtime.reader result) (text t.prepared.response_id)
  pub token : r.job_poll_token ≡ some t.job_poll_token
  pub pending : r.pending_response_id ≡ some t.answered.response_id
  pub polls : r.completion_refreshes_remaining ≡ some before.job_store.completion_refresh_polls
  pub metadata : r.autonomy_metadata ≡ (
      if is_taken c q
      then some (metadata_to_dict (seed_metadata c.runtime.config t.job_id))
      else none)
  pub checkpoints : a.files ≡ (
      if is_taken c q
      then write_checkpoint t.job_id (seed_checkpoint t.job_id t.seeded) before.files
      else before.files)
  pub session : r.session_id ≡ s.session_id
  pub here : Session.row s.session_id a.session_store ≡ some x
  pub last_response : x.last_response_id ≡ some t.answered.response_id
  pub last_job : x.last_job_id ≡ some t.job_id

-- A chat that starts a background refresh answers with its pending envelope, and leaves its job running,
-- with the result prepared, the poll token set and all its polls to come, and the session awaiting the
-- pending response; a run of the job is seeded exactly if the autonomy service takes the prompt.
pub chat_opens_run :
    {E : Type 0} (c : Chat) (validate : Dict Json → Result E) (caller : Caller) (q : ChatRequest)
    (t : Stamps) (a : App) (i : TrustedIdentity) (s : SessionState) (a1 : App)
    (result b : Dict Json)
    → IsRefresh c caller q t a i s a1 result b
    → ((post_chat c validate caller q t a).0 ≡ validate b)
      × ((r : JobRow) × (x : SessionRow) × IsOpened c q t s result a1
            (post_chat c validate caller q t a).1
            r
            x)
chat_opens_run c validate caller q t a i s a1 result b w =
    let own = owned c caller q t a i s a1 result b w in
    let seed = seeded c caller q t a i s a1 result b w in
    rw (answers c caller q t a i s a1 result b w validate) (
      refl,
      (
        the_row c caller q t a i s a1 result b w,
        the_session c caller q t a i s a1 result b w,
        record {
          found = row_after c caller q t a i s a1 result b w;
          ready = is_ready c caller q t a i s a1 result b w;
          token = own.0;
          pending = own.1;
          polls = seed.2;
          metadata = seed.0;
          checkpoints = seed.1;
          session = own.2;
          here = session_after c caller q t a i s a1 result b w;
          last_response = (awaited c caller q t a i s a1 result b w).0;
          last_job = (awaited c caller q t a i s a1 result b w).1;
        },
      ),
    )

-- A poll finds the job of a chat running in the state `a`, completes it with the result that the chat
-- prepared, answers that job, and makes the prepared response and the job the last ones of the session
-- of the chat.
abbrev pub IsEnding :
    {E : Type 0}
    → (Dict Json → Result E)
    → Chat
    → Stamps
    → SessionState
    → Dict Json
    → Clock
    → App
    → Type 0
IsEnding {E} envelope c t s result clock a =
    let polled : Result E × App = get_job envelope c.runtime t.job_id t.job_poll_token clock a in
    ((r : JobRow) × (row t.job_id a.job_store ≡ some r) × (r.job_status ≡ value running))
    × ((r : JobRow) × (polled.0 ≡ envelope (to_api_dict (to_state r succeeded)))
        × (row t.job_id polled.1.job_store ≡ some r)
        × IsCompleted r (flat_payload c.runtime.reader result) (text t.prepared.response_id)
        × ((x : SessionState) × (get_session s.session_id polled.1.session_store ≡ some x)
            × (x.last_response_id ≡ some t.prepared.response_id)
            × (x.last_job_id ≡ some t.job_id)))

module _ {E : Type 0} (envelope : Dict Json → Result E) (c : Chat) (caller : Caller)
    (q : ChatRequest) (t : Stamps) (clock : Clock) (a : App) (i : TrustedIdentity)
    (s : SessionState) (a1 : App) (result b : Dict Json)
    (w : IsRefresh c caller q t a i s a1 result b) where
  abbrev state : App
  state = after c caller q t a i s a1 result b w

  abbrev started : JobRow
  started = the_row c caller q t a i s a1 result b w

  abbrev own :
      (started.job_poll_token ≡ some t.job_poll_token)
      × (started.pending_response_id ≡ some t.answered.response_id)
      × (started.session_id ≡ s.session_id)
      × (started.job_id ≡ t.job_id)
  own = owned c caller q t a i s a1 result b w

  autonomous_completes : IsAutonomous c q → IsEnding envelope c t s result clock state
  unfolding start_set bind_set prepare_set new_row str
  autonomous_completes auto = (
    (
      started,
      row_after c caller q t a i s a1 result b w,
      (is_ready c caller q t a i s a1 result b w).is_running,
    ),
    poll_completes_run envelope c.runtime t.job_id t.job_poll_token t.answered.response_id clock
        state started (flat_payload c.runtime.reader result) (text t.prepared.response_id)
        (seed_metadata c.runtime.config t.job_id) (the_session c caller q t a i s a1 result b w)
        (under_way c caller q t a i s a1 result b w auto) own.0 own.1
        (session_after c caller q t a i s a1 result b w)
        (awaited c caller q t a i s a1 result b w).0,
  )

  -- Without autonomy the job waits for its polls.
  waiting :
      (clocks : List Clock)
      → is_taken c q ≡ false
      → length clocks ≡ a1.job_store.completion_refresh_polls
      → IsWaiting t.job_id t.job_poll_token state started
          (flat_payload c.runtime.reader result)
          (text t.prepared.response_id)
          (length clocks)
  waiting clocks e n =
      let seed = seeded c caller q t a i s a1 result b w in
      record {
        found = row_after c caller q t a i s a1 result b w;
        prepared = is_ready c caller q t a i s a1 result b w;
        unmanaged = seed.0 ∙ rw e refl;
        incomplete = unfold start_set bind_set prepare_set new_row in refl;
        has_it = own.0;
        left = unfold remaining in rw seed.2 (sym n);
      }

  abbrev waited : List Clock → App
  waited clocks = polled c.runtime t.job_id t.job_poll_token clocks state

  abbrev last : List Clock → App
  last clocks = (get_job envelope c.runtime t.job_id t.job_poll_token clock (waited clocks)).1

  waited_completes :
      (clocks : List Clock)
      → is_taken c q ≡ false
      → length clocks ≡ a1.job_store.completion_refresh_polls
      → IsEnding envelope c t s result clock (waited clocks)
  unfolding str
  waited_completes clocks e n =
      let (r, x, same, expected, session, id) =
        polled-IsWaiting c.runtime t.job_id t.job_poll_token clocks state started
          (flat_payload c.runtime.reader result) (text t.prepared.response_id)
          (waiting clocks e n) in
      let (r', answer, found, done, (y, here, response, job)) =
        wait_ends c.runtime t.job_id t.job_poll_token clock (waited clocks) r
          (flat_payload c.runtime.reader result) (text t.prepared.response_id) x envelope
          t.answered.response_id (the_session c caller q t a i s a1 result b w) (expected ∙ own.1)
          (ap (λ (k : String). Session.row k (waited clocks).session_store) (session ∙ own.2)
            ∙ ap (λ (st : SessionStore). Session.row s.session_id st) same
            ∙ session_after c caller q t a i s a1 result b w)
          (awaited c caller q t a i s a1 result b w).0 in
      (
        (r, x.found, x.prepared.is_running),
        (
          r',
          answer,
          found,
          done,
          (
            y,
            ap (λ (k : String). get_session k (last clocks).session_store) (sym (session ∙ own.2))
                ∙ here,
            response,
            job ∙ ap some (id ∙ own.3),
          ),
        ),
      )

no_calls :
    (c : Chat) (t : Stamps) (clocks : List Clock) (a : App)
    → length clocks ≡ 0
    → polled c.runtime t.job_id t.job_poll_token clocks a ≡ a
unfolding polled
no_calls c t [] a h = refl
no_calls c t (x ∷ xs) a h = absurd (omega (arith, h))

-- A chat that started a background refresh has its job completed by polls with the job's id and token:
-- by the first one where autonomy is enabled and takes the prompt with a budget of steps, and by the one
-- after as many as the store asks for where it does not take the prompt, as when it is off. Up to then the job is running; then it is completed with the
-- result that the chat prepared, the answer is that job, and the session of the chat has the prepared
-- response and the job as its last ones.
pub chat_then_poll_completes :
    {D E : Type 0} (c : Chat) (validate : Dict Json → Result D) (envelope : Dict Json → Result E)
    (caller : Caller) (q : ChatRequest) (t : Stamps) (clocks : List Clock) (clock : Clock) (a : App)
    (i : TrustedIdentity) (s : SessionState) (a1 : App) (result b : Dict Json)
    → IsRefresh c caller q t a i s a1 result b
    → IsAutonomous c q ⊎ (is_taken c q ≡ false)
    → length clocks ≡ (if is_taken c q then 0 else a1.job_store.completion_refresh_polls)
    → IsEnding envelope c t s result clock
        (polled c.runtime t.job_id t.job_poll_token clocks (post_chat c validate caller q t a).1)
chat_then_poll_completes c validate envelope caller q t clocks clock a i s a1 result b w (inl auto)
      n =
    rw
      (
        answers c caller q t a i s a1 result b w validate,
        no_calls c t clocks (after c caller q t a i s a1 result b w) (n ∙ rw auto.taken refl),
      )
      (autonomous_completes envelope c caller q t clock a i s a1 result b w auto)
chat_then_poll_completes c validate envelope caller q t clocks clock a i s a1 result b w (inr e) n =
    rw (answers c caller q t a i s a1 result b w validate)
      (waited_completes envelope c caller q t clock a i s a1 result b w clocks e (n ∙ rw e refl))
