-- ===== src/Api/Waits.antt =====
-- backend/app/api/routes/jobs.py, `get_job`: the polls of a job that no autonomy run completes.
use meridian_logistics.Prelude.{
  ℕ, suc, String, ◌≡◌, refl, inl, inr, Bool-cases, Option, none, some, List, [], ◌∷◌, length, ap,
  sym, subst, ◌∙◌,
}
use meridian_logistics.Python.{Result, ok, Value, Dict, str, get_text}
use meridian_logistics.Python.Json.{Json}
use meridian_logistics.Jobs.Status.{running, succeeded, is_transient_status}
use meridian_logistics.Jobs.Store.{Payload, JobRow, row, to_state, set_rows, get_job_by_poll_token}
use meridian_logistics.Jobs.Methods.{count_set, complete_set, remaining, refresh_job}
use meridian_logistics.Jobs.Polls.{refresh_job_counts}
use meridian_logistics.Jobs.Polling.{
  IsPrepared, IsCompleted, running_job, row-set_rows_self, refresh_job_completes,
  complete_set-IsCompleted, count-IsPrepared,
}
use meridian_logistics.Jobs.Documents.{to_api_dict}
use meridian_logistics.Session.{SessionState, SessionRow, get_session, read_session, promote_set}
use meridian_logistics.Session as Session
use meridian_logistics.Session.Access.{promote_advances}
use meridian_logistics.Controller.Runtime.{Runtime}
use meridian_logistics.Autonomy.Service.{is_enabled}
use meridian_logistics.Api.Jobs.{App, Clock, autonomy_of, poll_job, promote_with, get_job}
use meridian_logistics.Api.Polls.{opened}

-- A job that runs, prepared, without a run of the autonomy service, and that has `n` polls to come
-- before the one that completes it.
pub record IsWaiting (k token : String) (a : App) (r : JobRow) (p : Payload) (v : Value) (n : ℕ)
    : Type 0 where
  pub found : row k a.job_store ≡ some r
  pub prepared : IsPrepared r p v
  pub unmanaged : r.autonomy_metadata ≡ none
  pub incomplete : r.completed_response_id ≡ none
  pub has_it : r.job_poll_token ≡ some token
  pub left : remaining r ≡ n

unmanaged_skips :
    (rt : Runtime) (k : String) (m : Option Payload) (clock : Clock) (a : App)
    → m ≡ none
    → autonomy_of rt k m clock a ≡ (ok tt, a)
unfolding autonomy_of
unmanaged_skips rt k none clock a h = refl
unmanaged_skips rt k (some m) clock a h = absurd (cc h)

module _ (rt : Runtime) (k token : String) (clock : Clock) (a : App) (r : JobRow) (p : Payload)
    (v : Value) where
  module _ (n : ℕ) (w : IsWaiting k token a r p v (suc n)) where
    abbrev pub counted : JobRow
    counted = count_set n clock.refreshed r

    abbrev pub counted_app : App
    counted_app = record a { job_store = set_rows k (count_set n clock.refreshed) a.job_store }

    counted_row : row k counted_app.job_store ≡ some counted
    counted_row =
        row-set_rows_self k (count_set n clock.refreshed) (unfold count_set in λ x. refl)
          a.job_store r w.found

    pub counted-IsWaiting : IsWaiting k token counted_app counted p v n
    counted-IsWaiting = record {
      found = counted_row;
      prepared = count-IsPrepared r p v n clock.refreshed w.prepared;
      unmanaged = unfold count_set in w.unmanaged;
      incomplete = unfold count_set in w.incomplete;
      has_it = unfold count_set in w.has_it;
      left = unfold count_set remaining in refl;
    }

    counted_job :
        refresh_job k clock.refreshed a.job_store
        ≡ (ok (some (to_state counted running)), counted_app.job_store)
    counted_job =
        refresh_job_counts k clock.refreshed a.job_store r (to_state r running) w.found
          (running_job r w.prepared.is_running) refl p n w.prepared.prepared w.left
        ∙ rw (counted_row, running_job counted counted-IsWaiting.prepared.is_running) refl

    poll_counts :
        poll_job rt k (to_state r running) clock a ≡ (ok (to_state counted running), counted_app)
    unfolding poll_job promote_with is_transient_status
    poll_counts = elim (Bool-cases (is_enabled rt.config)) [
      | inl e ↦
          rw
            (
              e,
              unmanaged_skips rt k r.autonomy_metadata clock a w.unmanaged,
              counted_job,
              counted-IsWaiting.incomplete,
            )
            refl
      | inr e ↦ rw (e, counted_job, counted-IsWaiting.incomplete) refl
    ]

    -- While polls are to come, one of them answers the running job and uses itself up.
    pub get_job_counts :
        {E : Type 0} (envelope : Dict Json → Result E)
        → get_job envelope rt k token clock a
          ≡ (envelope (to_api_dict (to_state counted running)), counted_app)
    unfolding get_job get_job_by_poll_token
    get_job_counts envelope =
        rw
          (
            opened k token a.job_store r w.found w.has_it,
            running_job r w.prepared.is_running,
            poll_counts,
          )
          refl

  abbrev message : String
  message = get_text p "summary" "Background refresh completed for Memphis exceptions."

  abbrev pub ended : JobRow
  ended = complete_set (str v) message p clock.refreshed r

  abbrev ended_app : App
  ended_app = record a {
    job_store = set_rows k (complete_set (str v) message p clock.refreshed) a.job_store;
  }

  module _ (w : IsWaiting k token a r p v 0) where
    ended_job :
        (refresh_job k clock.refreshed a.job_store
          ≡ (ok (some (to_state ended succeeded)), ended_app.job_store))
        × (row k ended_app.job_store ≡ some ended)
    ended_job = refresh_job_completes k a.job_store r w.found p v w.prepared clock.refreshed w.left

    promoted_app : App
    promoted_app =
        promote_with (to_state ended succeeded) (some (str v)) r.pending_response_id clock.promoted
          ended_app

    poll_ends :
        poll_job rt k (to_state r running) clock a ≡ (ok (to_state ended succeeded), promoted_app)
    unfolding poll_job is_transient_status complete_set promoted_app
    poll_ends = elim (Bool-cases (is_enabled rt.config)) [
      | inl e ↦
          rw (e, unmanaged_skips rt k r.autonomy_metadata clock a w.unmanaged, ended_job.0) refl
      | inr e ↦ rw (e, ended_job.0) refl
    ]

    get_job_ends :
        {E : Type 0} (envelope : Dict Json → Result E)
        → get_job envelope rt k token clock a
          ≡ (envelope (to_api_dict (to_state ended succeeded)), promoted_app)
    unfolding get_job get_job_by_poll_token
    get_job_ends envelope =
        rw
          (
            opened k token a.job_store r w.found w.has_it,
            running_job r w.prepared.is_running,
            poll_ends,
          )
          refl

    -- With no poll to come, the next one answers the completed job and promotes it in the session that
    -- awaits the pending response.
    pub wait_ends :
        {E : Type 0} (envelope : Dict Json → Result E) (expected : String) (x : SessionRow)
        → r.pending_response_id ≡ some expected
        → Session.row r.session_id a.session_store ≡ some x
        → x.last_response_id ≡ some expected
        → let after : Result E × App = get_job envelope rt k token clock a in
          (r' : JobRow) × (after.0 ≡ envelope (to_api_dict (to_state r' succeeded)))
          × (row k after.1.job_store ≡ some r')
          × IsCompleted r' p v
          × ((s : SessionState) × (get_session r.session_id after.1.session_store ≡ some s)
              × (s.last_response_id ≡ some (str v))
              × (s.last_job_id ≡ some r.job_id))
    unfolding promote_with complete_set promoted_app
    wait_ends envelope expected x pending here awaits =
        let q =
          promote_advances r.session_id expected (str v) r.job_id clock.promoted a.session_store x
            here awaits in
        let promoted : promoted_app
            ≡ promote_with (to_state ended succeeded) (some (str v)) (some expected) clock.promoted
                ended_app =
          ap
            (λ (o : Option String).
              promote_with (to_state ended succeeded) (some (str v)) o clock.promoted ended_app)
            pending in
        rw (get_job_ends envelope, promoted)
          (
            ended,
            refl,
            ended_job.1,
            complete_set-IsCompleted k a.job_store r w.found p v w.prepared message clock.refreshed,
            (read_session (promote_set (str v) r.job_id clock.promoted x), q.1, q.2, q.3),
          )

-- The state after polls of the job, whatever they answer.
unfoldable pub polled : Runtime → String → String → List Clock → App → App
unfolding get_job
polled rt k token [] a = a
polled rt k token (c ∷ cs) a = polled rt k token cs (get_job ok rt k token c a).1

-- Polls as many as are to come leave the job running, and its sessions as they were.
pub polled-IsWaiting :
    (rt : Runtime) (k token : String) (clocks : List Clock) (a : App) (r : JobRow) (p : Payload)
    (v : Value)
    → IsWaiting k token a r p v (length clocks)
    → (r' : JobRow) × IsWaiting k token (polled rt k token clocks a) r' p v 0
      × ((polled rt k token clocks a).session_store ≡ a.session_store)
      × (r'.pending_response_id ≡ r.pending_response_id)
      × (r'.session_id ≡ r.session_id)
      × (r'.job_id ≡ r.job_id)
unfolding polled
polled-IsWaiting rt k token [] a r p v w = (r, w, refl, refl, refl, refl)
polled-IsWaiting rt k token (c ∷ cs) a r p v w =
    let n = length cs in
    let (r', w', s, e, f, g) =
      polled-IsWaiting rt k token cs (counted_app rt k token c a r p v n w)
        (counted rt k token c a r p v n w) p v (counted-IsWaiting rt k token c a r p v n w) in
    let step : polled rt k token (c ∷ cs) a
        ≡ polled rt k token cs (counted_app rt k token c a r p v n w) =
      ap (λ (x : Result (Dict Json) × App). polled rt k token cs x.1)
        (get_job_counts rt k token c a r p v n w ok) in
    (
      r',
      subst (λ b. IsWaiting k token b r' p v 0) (sym step) w',
      ap (λ (b : App). b.session_store) step ∙ s,
      e ∙ unfold count_set in refl,
      f ∙ unfold count_set in refl,
      g ∙ unfold count_set in refl,
    )
