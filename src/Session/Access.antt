-- ===== src/Session/Access.antt =====
-- backend/app/session/store.py: saving and reading a session, its access token, and the promotion of
-- a completed job.
use meridian_logistics.Prelude.{
  String, ◌≡◌, refl, inl, inr, false, Option, none, some, List, [], ◌∷◌, ◌++◌, ◌==◌, ◌&&◌, arith,
  ap, subst, sym, ◌∙◌, eq_iff, eq_refl, eq-false, Option-cases, Bool-cases, opt_eq, option_map,
  if◌then◌else◌,
}
use meridian_logistics.Table.{select_one, update}
use meridian_logistics.Table.Laws.{
  select-update, select_holds, select-snoc, select_and, update-none,
}
use meridian_logistics.Session.{
  ActiveResourceBinding, SessionState, SessionRow, SessionStore, read_resource, type_column,
  id_column, fingerprint_column, read_session, session_row, has_session, row, get_session,
  has_access, get_session_by_access_token, upsert, created, save_session, awaits, promote_set,
  promote_job_completion,
}

read_columns :
    (a : Option ActiveResourceBinding)
    → read_resource (type_column a) (id_column a) (fingerprint_column a) ≡ a
read_columns none = refl
read_columns (some a) = refl

read-session_row : (s : SessionState) (c now : String) → read_session (session_row s c now) ≡ s
unfolding read_session session_row
read-session_row s c now = λ i. record s { active_resource = read_columns s.active_resource i }

-- The row that is appended for a new session.
row-append :
    (n : SessionRow) (t : List SessionRow) (k : String)
    → select_one (has_session n.session_id) t ≡ none
    → select_one (has_session k) (t ++ n ∷ [])
      ≡ (if n.session_id == k then some n else select_one (has_session k) t)
row-append n t k h = elim (Bool-cases (n.session_id == k)) [
  | inl e ↦
      let g : select_one (has_session k) t ≡ none =
        subst (λ x. select_one (has_session x) t ≡ none) ((eq_iff n.session_id k).0 e) h in
      ground (arith, select-snoc (has_session k) t n)
  | inr e ↦ elim (Option-cases (select_one (has_session k) t)) [
    | inl g ↦ ground (arith, select-snoc (has_session k) t n)
    | inr (r, g) ↦ ground (arith, select-snoc (has_session k) t n)
  ]
]

-- The row that is overwritten keeps its id and its creation time.
row-overwrite :
    (n r : SessionRow) (t : List SessionRow) (k : String)
    → select_one (has_session n.session_id) t ≡ some r
    → n.created_at ≡ r.created_at
    → select_one (has_session k) (
        update
          (has_session n.session_id)
          (λ x. record n { session_id = x.session_id; created_at = x.created_at })
          t)
      ≡ (if n.session_id == k then some n else select_one (has_session k) t)
row-overwrite n r t k h c =
    select-update (has_session k) (has_session n.session_id)
      (λ x. record n { session_id = x.session_id; created_at = x.created_at }) (λ x. refl) t
    ∙ elim (Bool-cases (n.session_id == k)) [
      | inl e ↦
          let g : select_one (has_session k) t ≡ some r =
            subst (λ x. select_one (has_session x) t ≡ some r) ((eq_iff n.session_id k).0 e) h in
          let same : r.session_id ≡ n.session_id =
            (eq_iff r.session_id n.session_id).0 (select_holds (has_session n.session_id) t r h) in
          rw (g, e, (eq_iff r.session_id n.session_id).1 same)
            (ap some (λ i. record n { session_id = same i; created_at = sym c i }))
      | inr e ↦ elim (Option-cases (select_one (has_session k) t)) [
        | inl g ↦ rw (g, e) refl
        | inr (x, g) ↦
            let at : x.session_id ≡ k =
              (eq_iff x.session_id k).0 (select_holds (has_session k) t x g) in
            let apart : (x.session_id == n.session_id) ≡ false =
              eq-false x.session_id n.session_id
                (λ q. ground (arith, (eq_iff n.session_id k).1 (sym q ∙ at))) in
            rw (g, e, apart) refl
      ]
    ]

pub row-save_session :
    (s : SessionState) (now : String) (st : SessionStore) (k : String)
    → row k (save_session s now st).1 ≡ (
        if s.session_id == k
        then some (session_row s (created (row s.session_id st) now) now)
        else row k st)
unfolding save_session upsert created session_row
row-save_session s now st k = elim (Option-cases (row s.session_id st)) [
  | inl e ↦ rw e (row-append (session_row s now now) st.sessions k e)
  | inr (r, e) ↦ rw e (row-overwrite (session_row s r.created_at now) r st.sessions k e refl)
]

-- Saving a session makes it what its id reads, and leaves every other session as it was.
pub get_session-save_session :
    (s : SessionState) (now : String) (st : SessionStore) (k : String)
    → get_session k (save_session s now st).1
      ≡ (if s.session_id == k then some s else get_session k st)
unfolding get_session
get_session-save_session s now st k =
    ap (λ (o : Option SessionRow). option_map read_session o) (row-save_session s now st k)
    ∙ elim (Bool-cases (s.session_id == k)) [
      | inl e ↦ rw e (ap some (read-session_row s (created (row s.session_id st) now) now))
      | inr e ↦ rw e refl
    ]

-- A session found by id and access token has that id and that token.
pub access_token_grants :
    (k t : String) (st : SessionStore) (x : SessionState)
    → get_session_by_access_token k t st ≡ some x
    → (x.session_id ≡ k) × (x.session_access_token ≡ t)
unfolding get_session_by_access_token read_session
access_token_grants k t st x h = elim (Option-cases (select_one (has_access k t) st.sessions)) [
  | inl e ↦ absurd (ground (arith, e))
  | inr (r, e) ↦
      let g = select_holds (has_access k t) st.sessions r e in
      ground (arith, e, eq_iff r.session_id k, eq_iff r.session_access_token t)
]

-- The row of a session that awaits the expected response, as the statement finds and leaves it.
module _ (k expected response job now : String) (st : SessionStore) (r : SessionRow)
    (here : row k st ≡ some r) (e : r.last_response_id ≡ some expected) where
  awaited : select_one (awaits k expected) st.sessions ≡ some r
  awaited =
      select_and (has_session k) (λ x. opt_eq x.last_response_id (some expected)) st.sessions r here
        (rw e (eq_refl expected))

  promoted_row :
      row k (promote_job_completion k expected response job now st).1
      ≡ some (promote_set response job now r)
  unfolding promote_job_completion promote_set
  promoted_row =
      select-update (has_session k) (awaits k expected) (promote_set response job now) (λ x. refl)
        st.sessions
      ∙ rw (here, select_holds (awaits k expected) st.sessions r awaited) refl

-- A completed job is promoted over the response that it was started from: where the last response of
-- the session is the expected one, the new response and the job become its last ones, and the session
-- that the call returns is the one that its id then reads.
pub promote_advances :
    (k expected response job now : String) (st : SessionStore) (r : SessionRow)
    → row k st ≡ some r
    → r.last_response_id ≡ some expected
    → let s : SessionState = read_session (promote_set response job now r) in
      let t = promote_job_completion k expected response job now st in
      (t.0 ≡ some s)
      × (get_session k t.1 ≡ some s)
      × (s.last_response_id ≡ some response)
      × (s.last_job_id ≡ some job)
unfolding promote_job_completion get_session promote_set read_session
promote_advances k expected response job now st r h e =
    let p = promoted_row k expected response job now st r h e in
    let q = ap (λ (o : Option SessionRow). option_map read_session o) p in
    (rw (awaited k expected response job now st r h e) q, q, refl, refl)

-- Where no row of the session has the expected response, the call returns nothing and writes nothing.
pub promote_refuses :
    (k expected response job now : String) (st : SessionStore)
    → select_one (awaits k expected) st.sessions ≡ none
    → promote_job_completion k expected response job now st ≡ (none, st)
unfolding promote_job_completion
promote_refuses k expected response job now st h =
    rw (h, update-none (awaits k expected) (promote_set response job now) st.sessions h) refl

-- What a promotion makes of each session: the awaiting one has the new response and the job.
unfoldable pub promoted_as : String → String → String → String → SessionState → SessionState
promoted_as k expected response job s =
    if s.session_id == k && opt_eq s.last_response_id (some expected)
    then record s { last_response_id = some response; last_job_id = some job }
    else s

pub get_session-promote_job_completion :
    (k expected response job now : String) (st : SessionStore) (n : String)
    → get_session n (promote_job_completion k expected response job now st).1
      ≡ option_map (promoted_as k expected response job) (get_session n st)
unfolding get_session promote_job_completion promoted_as promote_set read_session
get_session-promote_job_completion k expected response job now st n =
    ap (λ (o : Option SessionRow). option_map read_session o)
      (select-update (has_session n) (awaits k expected) (promote_set response job now) (λ x. refl)
        st.sessions)
    ∙ elim (Option-cases (row n st)) [
      | inl e ↦ rw e refl
      | inr (r, e) ↦ elim (Bool-cases (awaits k expected r)) [
        | inl w ↦ rw (e, w) refl
        | inr w ↦ rw (e, w) refl
      ]
    ]
