-- ===== src/Session.antt =====
-- backend/app/session: the session rows and the methods of `InMemorySessionStore`. Tokens and the
-- clock are arguments.
pub mod Access
pub mod Documents
mod Examples
use meridian_logistics.Prelude.{
  ℕ, ◌+◌, String, ◌≡◌, Bool, true, false, Option, none, some, List, [], ◌∷◌, ◌++◌, ◌==◌, ◌&&◌,
  opt_eq, option_map, if◌then◌else◌,
}
use meridian_logistics.Python.{Dict, get, put}
use meridian_logistics.Table.{select_one, update}

-- The id and the fingerprint are None where a row has a type and no such column.
pub record ActiveResourceBinding : Type 0 where
  pub resource_type : String
  pub resource_id : Option String
  pub resource_fingerprint : Option String

pub record SessionState : Type 0 where
  pub session_id : String
  pub session_access_token : String
  pub broker_id : String
  pub office_id : String
  pub role : String
  pub current_module : String
  pub conversation_scope : String
  pub context_binding_state : String
  pub screen_sync_state : String
  pub active_resource : Option ActiveResourceBinding
  pub last_response_id : Option String
  pub last_job_id : Option String

-- A row of `chat_sessions`.
pub record SessionRow : Type 0 where
  pub session_id : String
  pub session_access_token : String
  pub broker_id : String
  pub office_id : String
  pub role : String
  pub current_module : String
  pub conversation_scope : String
  pub context_binding_state : String
  pub screen_sync_state : String
  pub active_resource_type : Option String
  pub active_resource_id : Option String
  pub active_resource_fingerprint : Option String
  pub last_response_id : Option String
  pub last_job_id : Option String
  pub created_at : String
  pub updated_at : String

pub record SessionStore : Type 0 where
  pub sessions : List SessionRow
  pub counters : Dict ℕ

-- _resource_columns
abbrev type_column : Option ActiveResourceBinding → Option String
type_column none = none
type_column (some a) = some a.resource_type

abbrev id_column : Option ActiveResourceBinding → Option String
id_column none = none
id_column (some a) = a.resource_id

abbrev fingerprint_column : Option ActiveResourceBinding → Option String
fingerprint_column none = none
fingerprint_column (some a) = a.resource_fingerprint

abbrev read_resource : Option String → Option String → Option String → Option ActiveResourceBinding
read_resource none id fingerprint = none
read_resource (some type) id fingerprint =
    some (record { resource_type = type; resource_id = id; resource_fingerprint = fingerprint })

unfoldable pub read_session : SessionRow → SessionState
read_session r = record {
  session_id = r.session_id;
  session_access_token = r.session_access_token;
  broker_id = r.broker_id;
  office_id = r.office_id;
  role = r.role;
  current_module = r.current_module;
  conversation_scope = r.conversation_scope;
  context_binding_state = r.context_binding_state;
  screen_sync_state = r.screen_sync_state;
  active_resource =
      read_resource r.active_resource_type r.active_resource_id r.active_resource_fingerprint;
  last_response_id = r.last_response_id;
  last_job_id = r.last_job_id;
}

-- The row that the INSERT of `save_session` gives, created at `created`.
unfoldable pub session_row : SessionState → String → String → SessionRow
session_row s created now = record {
  session_id = s.session_id;
  session_access_token = s.session_access_token;
  broker_id = s.broker_id;
  office_id = s.office_id;
  role = s.role;
  current_module = s.current_module;
  conversation_scope = s.conversation_scope;
  context_binding_state = s.context_binding_state;
  screen_sync_state = s.screen_sync_state;
  active_resource_type = type_column s.active_resource;
  active_resource_id = id_column s.active_resource;
  active_resource_fingerprint = fingerprint_column s.active_resource;
  last_response_id = s.last_response_id;
  last_job_id = s.last_job_id;
  created_at = created;
  updated_at = now;
}

abbrev pub has_session : String → SessionRow → Bool
has_session k r = r.session_id == k

abbrev pub row : String → SessionStore → Option SessionRow
row k s = select_one (has_session k) s.sessions

unfoldable pub get_session : String → SessionStore → Option SessionState
get_session k s = option_map read_session (row k s)

-- WHERE session_id = ? AND session_access_token = ?
abbrev pub has_access : String → String → SessionRow → Bool
has_access k t r = r.session_id == k && r.session_access_token == t

unfoldable pub get_session_by_access_token : String → String → SessionStore → Option SessionState
get_session_by_access_token k t s = option_map read_session (select_one (has_access k t) s.sessions)

-- INSERT ... ON CONFLICT(session_id) DO UPDATE SET: every column but the key and `created_at` is that
-- of the new row.
upsert : SessionRow → Option SessionRow → List SessionRow → List SessionRow
upsert new none t = t ++ new ∷ []
upsert new (some old) t =
    update (has_session new.session_id)
      (λ r. record new { session_id = r.session_id; created_at = r.created_at }) t

pub created : Option SessionRow → String → String
created none now = now
created (some r) now = r.created_at

-- It returns the session that it was given.
unfoldable pub save_session : SessionState → String → SessionStore → SessionState × SessionStore
unfolding upsert created
save_session session now s =
    let old = row session.session_id s in
    (
      session,
      record s { sessions = upsert (session_row session (created old now) now) old s.sessions },
    )

-- WHERE session_id = ? AND last_response_id = ?
abbrev pub awaits : String → String → SessionRow → Bool
awaits k expected r = r.session_id == k && opt_eq r.last_response_id (some expected)

unfoldable pub promote_set : String → String → String → SessionRow → SessionRow
promote_set response job now r = record r {
  last_response_id = some response;
  last_job_id = some job;
  updated_at = now;
}

promoted : String → Option SessionRow → SessionStore → Option SessionState
promoted k none s = none
promoted k (some r) s = get_session k s

-- cursor.rowcount is 0 exactly if the WHERE clause finds no row.
unfoldable pub promote_job_completion :
    String → String → String → String → String → SessionStore → Option SessionState × SessionStore
unfolding promoted promote_set get_session
promote_job_completion k expected response job now s =
    let s' : SessionStore = record s {
      sessions = update (awaits k expected) (promote_set response job now) s.sessions;
    } in
    (promoted k (select_one (awaits k expected) s.sessions) s', s')

count_next : Option ℕ → ℕ
count_next none = 1
count_next (some n) = n + 1

-- The index that next_session_id takes for the day: INSERT ... ON CONFLICT DO UPDATE ... RETURNING.
unfoldable pub next_index : String → SessionStore → ℕ × SessionStore
unfolding count_next
next_index day s =
    let n = count_next (get s.counters day) in (n, record s { counters = put s.counters day n })

unfoldable pub reset : SessionStore → SessionStore
reset s = record s { sessions = [] }
