-- ===== src/Api/Chat/Keeping.antt =====
-- backend/app/api/routes/chat.py: what the statements of a chat leave of the session store.
use meridian_logistics.Prelude.{
  String, ◌≡◌, refl, ap, ◌∙◌, inl, inr, true, false, Option, none, some, arith, ◌==◌, eq_iff,
  Option-cases, Bool-cases,
}
use meridian_logistics.Python.{
  Result, ok, err, and_then, Exec, pure, lift, continue, ◌>>=◌, Dict, get, item,
}
use meridian_logistics.Python.Json.{Json, text_of}
use meridian_logistics.Jobs.Methods.{
  update_autonomy_metadata, create_job, prepare_result, bind_pending_response, start_job,
}
use meridian_logistics.Controller.Models.{ControllerCheckpoint}
use meridian_logistics.Autonomy.Models.{AutonomyJobMetadata, metadata_to_dict}
use meridian_logistics.Autonomy.Service.{is_eligible_for_autonomy, seed_autonomy_run}
use meridian_logistics.Table.{select_one}
use meridian_logistics.Table.Laws.{select_holds}
use meridian_logistics.Session.{SessionState, SessionStore, get_session, has_session, read_session}
use meridian_logistics.Session.Access.{get_session-save_session}
use meridian_logistics.Api.Jobs.{App, on_jobs}
use meridian_logistics.Api.Actions.{TrustedIdentity}
use meridian_logistics.Api.Chat.{
  Chat, refresh_payload, read_payload, finish, saving, finalized_session, bind_and_start,
  seed_if_eligible, queued_job, build, job_of, annotate_seeded, on_files,
}
use meridian_logistics.Api.Requests.{ChatRequest, Stamps}
use meridian_logistics.Api.Payloads.{build_read_result_payload, flat_payload}

-- What no request changes of a session.
pub record SameOwner (s x : SessionState) : Type 0 where
  pub id : x.session_id ≡ s.session_id
  pub token : x.session_access_token ≡ s.session_access_token
  pub broker : x.broker_id ≡ s.broker_id
  pub office : x.office_id ≡ s.office_id
  pub role : x.role ≡ s.role

pub get_session-id :
    (k : String) (st : SessionStore) (s : SessionState)
    → get_session k st ≡ some s
    → s.session_id ≡ k
unfolding get_session read_session
get_session-id k st s h = elim (Option-cases (select_one (has_session k) st.sessions)) [
  | inl e ↦ absurd (ground (arith, e))
  | inr (r, e) ↦
      let g = select_holds (has_session k) st.sessions r e in
      ground (arith, e, eq_iff r.session_id k)
]

-- An invariant of the session store that a statement keeps, whether it returns or raises.
abbrev pub Keeps : {A : Type 0} → (SessionStore → Type 0) → Exec App A → Type 0
Keeps P m = (a : App) → P a.session_store → P (m a).1.session_store

module _ {A B : Type 0} (P : SessionStore → Type 0) where
  continue-Keeps :
      (f : A → Exec App B)
      → ((x : A) → Keeps P (f x))
      → (r : Result A) (a : App) → P a.session_store
      → P (continue r f a).1.session_store
  continue-Keeps f g (ok x) a p = g x a p
  continue-Keeps f g (err e) a p = p

  pub >>=-Keeps :
      (m : Exec App A) (f : A → Exec App B)
      → Keeps P m
      → ((x : A) → Keeps P (f x))
      → Keeps P (m >>= f)
  >>=-Keeps m f k g a p = continue-Keeps f g (m a).0 (m a).1 (k a p)

-- The session `k` is there with its owner, and the others are as they were.
pub record Kept (k : String) (st : SessionStore) (s : SessionState) (x : SessionStore)
    : Type 0 where
  pub others : (j : String) → (k == j) ≡ false → get_session j x ≡ get_session j st
  pub now : SessionState
  pub here : get_session k x ≡ some now
  pub owner : SameOwner s now

module _ (k : String) (st : SessionStore) (s : SessionState) (at : s.session_id ≡ k) where
  pub saving-Keeps :
      (x : SessionState) (now : String) → SameOwner s x → Keeps (Kept k st s) (saving x now)
  saving-Keeps x now o a p = record {
    others = λ j n.
        get_session-save_session x now a.session_store j
        ∙ rw (ap (λ (i : String). i == j) (o.id ∙ at) ∙ n) (p.others j n);
    now = x;
    here =
        get_session-save_session x now a.session_store k
        ∙ rw ((eq_iff x.session_id k).1 (o.id ∙ at)) refl;
    owner = o;
  }

  annotate-Keeps :
      (id now : String) (o : Option (AutonomyJobMetadata × ControllerCheckpoint))
      → Keeps (Kept k st s) (annotate_seeded id now o)
  unfolding annotate_seeded
  annotate-Keeps id now none a p = p
  annotate-Keeps id now (some (m, checkpoint)) a p =
      continue-Keeps (Kept k st s) (λ _. pure tt) (λ x b r. r)
        (update_autonomy_metadata id (metadata_to_dict m) false now a.job_store).0 _ p

  seed-Keeps :
      (c : Chat) (q : ChatRequest) (id : String) (t : Stamps)
      → Keeps (Kept k st s) (seed_if_eligible c q id t)
  unfolding seed_if_eligible
  seed-Keeps c q id t a p =
      elim (Bool-cases
        (is_eligible_for_autonomy c.tools.prompts.lower c.runtime.config q.prompt true)) [
          | inl e ↦ rw e (
              >>=-Keeps (Kept k st s) (on_files (seed_autonomy_run c.runtime.config id t.seeded))
                (annotate_seeded id t.annotated) (λ b r. r) (λ o. annotate-Keeps id t.annotated o) a
                p)
          | inr e ↦ rw e p
        ]

  with_job-SameOwner :
      (x : SessionState) (o : SameOwner s x) (id : Option String)
      → SameOwner s (record x { last_job_id = id })
  with_job-SameOwner x o id = record {
    id = o.id;
    token = o.token;
    broker = o.broker;
    office = o.office;
    role = o.role;
  }

  pub refresh-Keeps :
      (c : Chat) (q : ChatRequest) (i : TrustedIdentity) (x : SessionState) (t : Stamps)
      → SameOwner s x
      → Keeps (Kept k st s) (refresh_payload c q i x t)
  unfolding refresh_payload
  refresh-Keeps c q i x t o a p =
      >>=-Keeps {B = Dict Json} (Kept k st s) (on_jobs (create_job (queued_job x t) t.created)) _
        (λ b r. r)
        (λ job.
          >>=-Keeps {B = Dict Json} (Kept k st s) (seed_if_eligible c q job.job_id t) _
            (seed-Keeps c q job.job_id t)
            λ v.
              >>=-Keeps {B = Dict Json} (Kept k st s)
                (lift (
                  and_then (build_read_result_payload c.tools q x i (some job.job_id) t.prepared)
                    (build c)))
                _ (λ b r. r)
                λ result.
                  >>=-Keeps {B = Dict Json} (Kept k st s)
                    (on_jobs (
                      prepare_result job.job_id (flat_payload c.runtime.reader result)
                        t.prepared_at))
                    _ (λ b r. r)
                    λ y b r.
                      saving-Keeps (record x { last_job_id = some job.job_id }) t.saved_again
                        (with_job-SameOwner x o (some job.job_id)) b r)
        (saving x t.saved a).1 (saving-Keeps x t.saved o a p)

  pub read-Keeps :
      (c : Chat) (q : ChatRequest) (i : TrustedIdentity) (x : SessionState) (t : Stamps)
      → SameOwner s x
      → Keeps (Kept k st s) (read_payload c q i x t)
  unfolding read_payload
  read-Keeps c q i x t o a p = saving-Keeps x t.saved o a p

  bind-Keeps :
      (o : Option String) (response : String) (t : Stamps)
      → Keeps (Kept k st s) (bind_and_start o response t)
  unfolding bind_and_start
  bind-Keeps none response t a p = p
  bind-Keeps (some id) response t a p =
      >>=-Keeps {B = Unit {0}} (Kept k st s) (on_jobs (bind_pending_response id response t.bound)) _
        (λ b r. r)
        (λ x.
          >>=-Keeps {B = Unit {0}} (Kept k st s)
            (on_jobs (start_job id "Background refresh running for Memphis exceptions." t.started))
            _ (λ b r. r) λ y b r. r)
        a p

  final-SameOwner :
      (x : SessionState) (response : String) (job : Option String) (st' : SessionStore)
      → x.session_id ≡ k
      → Kept k st s st'
      → SameOwner s (finalized_session x response job st')
  unfolding finalized_session
  final-SameOwner x response job st' e p =
      rw (e, p.here)
        (record {
          id = p.owner.id;
          token = p.owner.token;
          broker = p.owner.broker;
          office = p.owner.office;
          role = p.owner.role;
        })

  pub finish-Keeps :
      {E : Type 0} (c : Chat) (validate : Dict Json → Result E) (x : SessionState)
      (payload : Dict Json) (t : Stamps)
      → SameOwner s x
      → Keeps (Kept k st s) (finish c validate x payload t)
  unfolding finish
  finish-Keeps {E} c validate x payload t o =
      >>=-Keeps {B = E} (Kept k st s) (lift (build c payload)) _ (λ b r. r)
        λ built.
          >>=-Keeps {B = E} (Kept k st s) (lift (item built "response_id")) _ (λ b r. r)
            λ response.
              let job : Option String = job_of c.runtime.reader (get built "job_id") in
              let id : String = text_of c.runtime.reader response in
              >>=-Keeps {B = E} (Kept k st s) (bind_and_start job id t) _ (bind-Keeps job id t)
                λ y a p.
                  saving-Keeps (finalized_session x id job a.session_store) t.finalized
                    (final-SameOwner x id job a.session_store (o.id ∙ at) p) a p
