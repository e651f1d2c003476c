-- ===== src/Api/Refusals.antt =====
-- backend/app/api/routes/jobs.py: what the routes refuse, and a poll of a job that has ended.
use Prim.Native.String.{◌++◌}
use meridian_logistics.Prelude.{
  String, ◌≡◌, refl, Bool, true, false, Option, none, some, arith, ap, sym, ◌∙◌, ◌==◌, ◌&&◌, opt_eq,
  option_map, if◌then◌else◌, inl, inr, Bool-cases, ◌≢◌,
}
use meridian_logistics.Python.{Result, ok, err, http_error, Dict}
use meridian_logistics.Python.Json.{Json}
use meridian_logistics.Table.{select_one}
use meridian_logistics.Jobs.Status.{
  JobStatus, running, cancelled, value, is_terminal_status, is_transient_status, valid_transition,
  from_string-value,
}
use meridian_logistics.Jobs.Store.{
  JobRow, JobState, row, has_token, to_state, set_rows, get_job_by_poll_token, row_to_job,
  row_to_job_lem,
}
use meridian_logistics.Jobs.Methods.{cancel_set, refresh_job}
use meridian_logistics.Jobs.Methods as Methods
use meridian_logistics.Jobs.Effects.{change_status_legal}
use meridian_logistics.Jobs.Polls.{refresh_job_not_running}
use meridian_logistics.Jobs.Polling.{row-set_rows_self}
use meridian_logistics.Jobs.Documents.{to_api_dict}
use meridian_logistics.Session.{SessionState, get_session, promote_job_completion}
use meridian_logistics.Session.Access.{promoted_as, get_session-promote_job_completion}
use meridian_logistics.Controller.Runtime.{Runtime}
use meridian_logistics.Api.Jobs.{
  App, Clock, JobLifecycle, poll_job, promote_with, get_job, get_job_lifecycle, cancel_job,
  cancel_found, is_cancellable,
}
use meridian_logistics.Api.Polls.{opened}

-- Without the poll token of the job, each of the three routes answers 404 and changes nothing.
pub unknown_token_is_refused :
    {E L : Type 0} (envelope : Dict Json → Result E) (shown : JobLifecycle → Result L)
    (rt : Runtime) (k token now : String) (clock : Clock) (a : App)
    → select_one (has_token k token) a.job_store.jobs ≡ none
    → (get_job envelope rt k token clock a ≡ (err (http_error 404 "unknown job"), a))
      × (get_job_lifecycle shown k token now a ≡ (err (http_error 404 "unknown job"), a))
      × (cancel_job envelope k token now a ≡ (err (http_error 404 "unknown job"), a))
unfolding get_job get_job_lifecycle cancel_job get_job_by_poll_token
unknown_token_is_refused envelope shown rt k token now clock a h = (rw h refl, rw h refl, rw h refl)

-- The job that a token opens.
pub record Opened (k token : String) (a : App) (r : JobRow) (j : JobState) : Type 0 where
  pub found : row k a.job_store ≡ some r
  pub has_it : r.job_poll_token ≡ some token
  pub read : row_to_job r ≡ ok j

terminal_or_cancellable :
    (s : JobStatus)
    → is_terminal_status s ≡ true
    → (is_cancellable s ≡ false) × (is_transient_status s ≡ false) × (s ≢ running)
unfolding is_terminal_status is_cancellable is_transient_status
terminal_or_cancellable s h = ground (arith, h)

live_is_cancellable :
    (s : JobStatus)
    → is_terminal_status s ≡ false
    → (is_cancellable s ≡ true) × (valid_transition s cancelled ≡ true)
unfolding is_terminal_status is_cancellable valid_transition
live_is_cancellable s h = ground (arith, h)

module _ (k now : String) (a : App) (r : JobRow) (j : JobState) (found : row k a.job_store ≡ some r)
    (read : row_to_job r ≡ ok j) (live : is_terminal_status j.status ≡ false) where
  abbrev cancel_row : JobRow → JobRow
  cancel_row = cancel_set "Job cancelled." now

  cancelled_row : row k (set_rows k cancel_row a.job_store) ≡ some (cancel_row r)
  cancelled_row =
      row-set_rows_self k cancel_row (unfold cancel_set in λ x. refl) a.job_store r found

  read_cancelled : row_to_job (cancel_row r) ≡ ok (to_state (cancel_row r) cancelled)
  read_cancelled =
      rw (row_to_job_lem (cancel_row r))
        (unfold cancel_set in rw (from_string-value cancelled) refl)

  store_cancels :
      Methods.cancel_job k "Job cancelled." now a.job_store
      ≡ (ok (some (to_state (cancel_row r) cancelled)), set_rows k cancel_row a.job_store)
  unfolding Methods.cancel_job
  store_cancels =
      change_status_legal k cancelled (λ job. ok cancel_row) a.job_store r j cancel_row found read
        (live_is_cancellable j.status live).1 refl
      ∙ rw (cancelled_row, read_cancelled) refl

  cancel_found_lem : cancel_found k j now a ≡ (
    ok (to_state (cancel_row r) cancelled),
    record a { job_store = set_rows k cancel_row a.job_store },
  )
  unfolding cancel_found
  cancel_found_lem = rw ((live_is_cancellable j.status live).0, store_cancels) refl

module _ {E : Type 0} (envelope : Dict Json → Result E) where
  -- With its token, a job that has not ended is cancelled and answered as cancelled, and nothing but
  -- the job's row changes; a job that has ended is answered 409 and nothing changes.
  pub cancel_job_answers :
      (k token now : String) (a : App) (r : JobRow) (j : JobState)
      → Opened k token a r j
      → cancel_job envelope k token now a ≡ (
          if is_terminal_status j.status
          then (err (http_error 409 ("cannot cancel job with status: " ++ value j.status)), a)
          else (
            envelope (to_api_dict (to_state (cancel_set "Job cancelled." now r) cancelled)),
            record a { job_store = set_rows k (cancel_set "Job cancelled." now) a.job_store },
          ))
  unfolding cancel_job get_job_by_poll_token
  cancel_job_answers k token now a r j o = elim (Bool-cases (is_terminal_status j.status)) [
    | inl e ↦
        unfold cancel_found in
        rw
          (
            opened k token a.job_store r o.found o.has_it,
            o.read,
            e,
            (terminal_or_cancellable j.status e).0,
          )
          refl
    | inr e ↦
        rw
          (
            opened k token a.job_store r o.found o.has_it,
            o.read,
            e,
            cancel_found_lem k now a r j o.found o.read e,
          )
          refl
  ]

has_value : Option String → Bool
has_value none = false
has_value (some s) = true

-- What a session is once a poll has found the job `j` ended: if it still awaits the pending response of
-- the job, it has the completed response and the job as its last ones.
unfoldable pub with_ended_job : JobState → SessionState → SessionState
unfolding has_value
with_ended_job j s =
    if s.session_id == j.session_id
      && (has_value j.completed_response_id
          && (has_value j.pending_response_id && opt_eq s.last_response_id j.pending_response_id))
    then record s { last_response_id = j.completed_response_id; last_job_id = some j.job_id }
    else s

-- Nothing but the sessions differs, and each of them, the one of the id `n`, is as `with_ended_job`
-- says.
pub record IsPromoted (j : JobState) (n : String) (a b : App) : Type 0 where
  pub jobs : b.job_store ≡ a.job_store
  pub checkpoints : b.files ≡ a.files
  pub counters : b.session_store.counters ≡ a.session_store.counters
  pub session :
      get_session n b.session_store ≡ option_map (with_ended_job j) (get_session n a.session_store)

map_id :
    (f : SessionState → SessionState)
    → ((s : SessionState) → f s ≡ s)
    → (o : Option SessionState) → o ≡ option_map f o
map_id f h none = refl
map_id f h (some s) = ap some (sym (h s))

module _ (j : JobState) (n now : String) (a : App) where
  unpromoted : ((s : SessionState) → with_ended_job j s ≡ s) → IsPromoted j n a a
  unpromoted h = record {
    jobs = refl;
    checkpoints = refl;
    counters = refl;
    session = map_id (with_ended_job j) h (get_session n a.session_store);
  }

  promoted :
      (response expected : String)
      → j.completed_response_id ≡ some response
      → j.pending_response_id ≡ some expected
      → IsPromoted j n a (promote_with j (some response) (some expected) now a)
  unfolding promote_with
  promoted response expected h e = record {
    jobs = refl;
    checkpoints = refl;
    counters = unfold promote_job_completion in refl;
    session =
        get_session-promote_job_completion j.session_id expected response j.job_id now
          a.session_store n
        ∙ ap (λ (f : SessionState → SessionState). option_map f (get_session n a.session_store))
            (λ i s. same s i);
  }
    where
      same :
          (s : SessionState)
          → promoted_as j.session_id expected response j.job_id s ≡ with_ended_job j s
      same s = unfold promoted_as with_ended_job in rw (h, e) refl

  promote_ids :
      (o p : Option String)
      → j.completed_response_id ≡ o
      → j.pending_response_id ≡ p
      → IsPromoted j n a (promote_with j o p now a)
  unfolding promote_with
  promote_ids (some x) (some y) h e = promoted x y h e
  promote_ids none p h e = unpromoted λ s. unfold with_ended_job in rw h (ground arith)
  promote_ids (some x) none h e = unpromoted λ s. unfold with_ended_job in rw (h, e) (ground arith)

module _ {E : Type 0} (envelope : Dict Json → Result E) where
  terminal_poll_lem :
      (rt : Runtime) (k token : String) (clock : Clock) (a : App) (r : JobRow) (j : JobState)
      → Opened k token a r j
      → is_terminal_status j.status ≡ true
      → get_job envelope rt k token clock a ≡ (
        envelope (to_api_dict j),
        promote_with j j.completed_response_id j.pending_response_id clock.promoted a,
      )
  unfolding get_job get_job_by_poll_token poll_job
  terminal_poll_lem rt k token clock a r j o t =
      let (fixed, idle, apart) = terminal_or_cancellable j.status t in
      rw
        (
          opened k token a.job_store r o.found o.has_it,
          o.read,
          idle,
          refresh_job_not_running k clock.refreshed a.job_store r j o.found o.read apart,
        )
        refl

  -- A poll of a job that has ended, with its token, answers the job as it is. It changes no job, no
  -- checkpoint and no counter of sessions; and of the sessions, whatever their id `n`, it changes only
  -- the job's own, if that still awaits the pending response and the job has a completed one, which
  -- becomes the last response with the job as the last job.
  pub terminal_poll_promotes :
      (rt : Runtime) (k token : String) (clock : Clock) (a : App) (r : JobRow) (j : JobState)
      (n : String)
      → Opened k token a r j
      → is_terminal_status j.status ≡ true
      → ((get_job envelope rt k token clock a).0 ≡ envelope (to_api_dict j))
        × IsPromoted j n a (get_job envelope rt k token clock a).1
  terminal_poll_promotes rt k token clock a r j n o t =
      rw (terminal_poll_lem rt k token clock a r j o t) (
        refl,
        promote_ids j n clock.promoted a j.completed_response_id j.pending_response_id refl refl,
      )
