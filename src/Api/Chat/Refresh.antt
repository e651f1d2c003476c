-- ===== src/Api/Chat/Refresh.antt =====
-- backend/app/api/routes/chat.py, `post_chat`: the branch of an asynchronous refresh up to its payload.
use meridian_logistics.Prelude.{
  ◌≡◌, ◌∙◌, Bool, if◌then◌else◌, refl, true, false, none, some, inl, inr, Bool-cases,
}
use meridian_logistics.Python.{ok, and_then, Dict}
use meridian_logistics.Python.Json.{Json}
use meridian_logistics.Jobs.Status.{pending, value}
use meridian_logistics.Jobs.Store.{Payload, JobRow, JobStore, row, set_rows, to_state}
use meridian_logistics.Jobs.Methods.{prepare_result, new_row, metadata_set, prepare_set}
use meridian_logistics.Jobs.Access.{with_row, create_job_fresh, row_created}
use meridian_logistics.Jobs.Opening.{annotate_pending, prepare_pending}
use meridian_logistics.Session.{SessionState, SessionStore, save_session}
use meridian_logistics.Controller.Runtime.{Files, write_checkpoint}
use meridian_logistics.Autonomy.Models.{metadata_to_dict}
use meridian_logistics.Autonomy.Service.{
  is_enabled, is_eligible_for_autonomy, seed_metadata, seed_checkpoint,
}
use meridian_logistics.Autonomy.Bounds.{seed_writes}
use meridian_logistics.Api.Jobs.{App}
use meridian_logistics.Api.Actions.{TrustedIdentity}
use meridian_logistics.Api.Chat.{Chat, queued_job, seed_if_eligible, build, refresh_payload}
use meridian_logistics.Api.Requests.{ChatRequest, Stamps}
use meridian_logistics.Api.Payloads.{
  build_read_result_payload, base_payload, pending_content, flat_payload,
}

pub eligible_enabled :
    (c : Chat) (q : ChatRequest)
    → is_eligible_for_autonomy c.tools.prompts.lower c.runtime.config q.prompt true ≡ true
    → is_enabled c.runtime.config ≡ true
unfolding is_eligible_for_autonomy
eligible_enabled c q h = elim (Bool-cases (is_enabled c.runtime.config)) [
  | inl e ↦ e
  | inr e ↦ absurd (cc (h, e))
]

-- The autonomy service takes the refresh.
abbrev pub is_taken : Chat → ChatRequest → Bool
is_taken c q = is_eligible_for_autonomy c.tools.prompts.lower c.runtime.config q.prompt true

-- A refresh that goes through: the id of its job is new, and its result is read and built.
pub record IsAccepted (c : Chat) (q : ChatRequest) (i : TrustedIdentity) (s : SessionState)
    (t : Stamps) (a : App) (result : Dict Json) : Type 0 where
  pub free : row t.job_id a.job_store ≡ none
  pub read :
      and_then (build_read_result_payload c.tools q s i (some t.job_id) t.prepared) (build c)
      ≡ ok result

module _ (c : Chat) (q : ChatRequest) (i : TrustedIdentity) (s : SessionState) (t : Stamps)
    (a : App) (result : Dict Json) (w : IsAccepted c q i s t a result) where
  abbrev pub created_row : JobRow
  created_row = new_row (queued_job s t) t.created

  abbrev pub created_store : JobStore
  created_store = with_row (queued_job s t) t.created a.job_store w.free

  abbrev pub metadata : Payload
  metadata = metadata_to_dict (seed_metadata c.runtime.config t.job_id)

  -- The row, the store and the checkpoints as the autonomy service leaves them, taken or not.
  abbrev annotated_row : JobRow
  annotated_row = record created_row {
    autonomy_metadata = if is_taken c q then some metadata else none;
    updated_at = if is_taken c q then t.annotated else t.created;
  }

  abbrev annotated_store : JobStore
  annotated_store = record created_store {
    jobs =
        if is_taken c q
        then (set_rows t.job_id (metadata_set metadata false t.annotated) created_store).jobs
        else created_store.jobs;
  }

  abbrev pub seeded_files : Files
  seeded_files =
      if is_taken c q
      then write_checkpoint t.job_id (seed_checkpoint t.job_id t.seeded) a.files
      else a.files

  abbrev pub prepared_row : JobRow
  prepared_row = prepare_set (flat_payload c.runtime.reader result) t.prepared_at annotated_row

  abbrev prepared_store : JobStore
  prepared_store =
      set_rows t.job_id (prepare_set (flat_payload c.runtime.reader result) t.prepared_at)
        annotated_store

  abbrev pub with_job : SessionState
  with_job = record s { last_job_id = some t.job_id }

  abbrev saved_once : SessionStore
  saved_once = (save_session s t.saved a.session_store).1

  abbrev pub refreshed : App
  refreshed = record {
    job_store = prepared_store;
    session_store = (save_session with_job t.saved_again saved_once).1;
    files = seeded_files;
  }

  created_pending : created_row.job_status ≡ value pending
  unfolding new_row
  created_pending = refl

  created : row t.job_id created_store ≡ some created_row
  created = row_created (queued_job s t) t.created a.job_store w.free

  abbrev saved_app : App
  saved_app = record { job_store = created_store; session_store = saved_once; files = a.files }

  abbrev seeded_app : App
  seeded_app = record {
    job_store = annotated_store;
    session_store = saved_once;
    files = seeded_files;
  }

  annotated :
      (seed_if_eligible c q t.job_id t saved_app ≡ (ok tt, seeded_app))
      × (row t.job_id annotated_store ≡ some annotated_row)
      × (annotated_row.job_status ≡ value pending)
  unfolding seed_if_eligible
  annotated = elim (Bool-cases (is_taken c q)) [
    | inl e ↦
        let n =
          annotate_pending t.job_id created_store created_row created created_pending metadata false
            t.annotated in
        (
          rw (e, seed_writes c.runtime t.job_id a.files t.seeded (eligible_enabled c q e), n.0)
              refl,
          rw e (n.1 ∙ unfold metadata_set in refl),
          created_pending,
        )
    | inr e ↦ (rw e refl, rw e (created ∙ unfold new_row in refl), created_pending)
  ]

  pub prepared :
      (row t.job_id prepared_store ≡ some prepared_row) × (prepared_row.job_status ≡ value pending)
  prepared =
      let p =
        prepare_pending t.job_id annotated_store annotated_row annotated.1 annotated.2
          (flat_payload c.runtime.reader result) t.prepared_at in
      (p.1, p.2)

  pub refresh_payload_lem : refresh_payload c q i s t a ≡ (
    ok (base_payload with_job (pending_content (to_state created_row pending)) t.answered),
    refreshed,
  )
  unfolding refresh_payload new_row prepare_result
  refresh_payload_lem =
      rw (create_job_fresh (queued_job s t) t.created a.job_store w.free, annotated.0, w.read) refl
