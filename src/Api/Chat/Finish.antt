-- ===== src/Api/Chat/Finish.antt =====
-- backend/app/api/routes/chat.py, `post_chat`: from the payload of a pending refresh to the answer.
use meridian_logistics.Prelude.{
  String, ◌≡◌, refl, ◌∙◌, false, some, arith, ◌==◌, [], ◌∷◌, Bool-cases, inl, inr,
}
use meridian_logistics.Python.{Result, ok, Dict, get, item, str, text}
use meridian_logistics.Python.Json.{Reader, Json, text_leaf, truth_of, text_of, optional_text_leaf}
use meridian_logistics.Jobs.Status.{pending, running, value}
use meridian_logistics.Jobs.Store.{JobRow, JobStore, row, set_rows}
use meridian_logistics.Jobs.Methods.{bind_set, start_set}
use meridian_logistics.Jobs.Opening.{bind_pending, start_pending}
use meridian_logistics.Session.{SessionState, get_session, save_session}
use meridian_logistics.Responses.Laws.{IsKept, get-built}
use meridian_logistics.Api.Jobs.{App}
use meridian_logistics.Api.Chat.{Chat, build, finish, job_of, bind_and_start, finalized_session}
use meridian_logistics.Api.Requests.{Stamps, ResponseIds}
use meridian_logistics.Api.Payloads.{Content, base_payload, flat_payload}

job_id-IsKept : IsKept "job_id"
job_id-IsKept = record {
  actions = refl;
  follow_up_prompt = refl;
  trace_id = refl;
  components = refl;
}

response_id-IsKept : IsKept "response_id"
response_id-IsKept = record {
  actions = refl;
  follow_up_prompt = refl;
  trace_id = refl;
  components = refl;
}

module _ (c : Chat) (s : SessionState) (x : Content) (ids : ResponseIds) (b : Dict Json)
    (h : build c (base_payload s x ids) ≡ ok b) where
  pub built_job_id : get b "job_id" ≡ some (optional_text_leaf x.job_id)
  unfolding build
  built_job_id =
      get-built c.runtime.reader c.is_valid (base_payload s x ids) b h "job_id" job_id-IsKept
      ∙ unfold get base_payload in refl

  pub built_response_id : get b "response_id" ≡ some (text_leaf ids.response_id)
  unfolding build
  built_response_id =
      get-built c.runtime.reader c.is_valid (base_payload s x ids) b h "response_id"
        response_id-IsKept
      ∙ unfold get base_payload in refl

-- A text of a dict is kept as it is by the job store.
pub get-flat_payload :
    (r : Reader) (d : Dict Json) (k s : String)
    → get d k ≡ some (text_leaf s)
    → get (flat_payload r d) k ≡ some (text s)
unfolding get flat_payload
get-flat_payload r [] k s h = ground arith
get-flat_payload r ((j, v) ∷ d) k s h = elim (Bool-cases (j == k)) [
  | inl e ↦ ground arith
  | inr e ↦ ground (arith, get-flat_payload r d k s)
]

started_message : String
started_message = "Background refresh running for Memphis exceptions."

-- The answer to a request whose job `k` is there, pending and prepared, and whose session is stored.
module _ (c : Chat) (s stored : SessionState) (x : Content) (t : Stamps) (a : App) (b : Dict Json)
    (k : String) (r : JobRow) (built : build c (base_payload stored x t.answered) ≡ ok b)
    (for_job : x.job_id ≡ some k) (named : (k == "") ≡ false) (here : row k a.job_store ≡ some r)
    (is_pending : r.job_status ≡ value pending)
    (is_stored : get_session s.session_id a.session_store ≡ some stored) where
  abbrev pub bound_row : JobRow
  bound_row = bind_set t.answered.response_id t.bound r

  abbrev bound_store : JobStore
  bound_store = set_rows k (bind_set t.answered.response_id t.bound) a.job_store

  abbrev pub started_row : JobRow
  started_row =
      start_set a.job_store.completion_refresh_polls
        "Background refresh running for Memphis exceptions." t.started bound_row

  abbrev started_store : JobStore
  started_store =
      set_rows k
        (start_set a.job_store.completion_refresh_polls
          "Background refresh running for Memphis exceptions." t.started)
        bound_store

  abbrev pub final_session : SessionState
  final_session = record stored {
    last_response_id = some t.answered.response_id;
    last_job_id = some k;
  }

  abbrev pub answered : App
  answered = record {
    job_store = started_store;
    session_store = (save_session final_session t.finalized a.session_store).1;
    files = a.files;
  }

  the_job : job_of c.runtime.reader (get b "job_id") ≡ some k
  unfolding job_of truth_of text_of
  the_job = rw (built_job_id c stored x t.answered b built, for_job, named) refl

  bound :
      (bind_and_start (some k) t.answered.response_id t a
        ≡ (ok tt, record a { job_store = started_store }))
      × (row k started_store ≡ some started_row)
      × (started_row.job_status ≡ value running)
  unfolding bind_and_start
  bound =
      let p = bind_pending k a.job_store r here is_pending t.answered.response_id t.bound in
      let q =
        start_pending k bound_store bound_row p.1 p.2
          "Background refresh running for Memphis exceptions." t.started in
      (rw (p.0, q.0) refl, q.1, q.2)

  final : finalized_session s t.answered.response_id (some k) a.session_store ≡ final_session
  unfolding finalized_session
  final = rw is_stored refl

  pub row_started :
      (row k started_store ≡ some started_row) × (started_row.job_status ≡ value running)
  row_started = (bound.1, bound.2)

  pub finish_lem :
      {E : Type 0} (validate : Dict Json → Result E)
      → finish c validate s (base_payload stored x t.answered) t a ≡ (validate b, answered)
  unfolding finish item text_of str
  finish_lem validate =
      rw (built, the_job, built_response_id c stored x t.answered b built, bound.0, final) refl
