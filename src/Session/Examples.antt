-- ===== src/Session/Examples.antt =====
-- Runs of the session store on concrete sessions.
use meridian_logistics.Python.{get}
use meridian_logistics.Prelude.{◌≡◌, refl, none, some, [], ◌∷◌, ◌==◌, if◌then◌else◌}
use meridian_logistics.Session.{SessionState, SessionRow, SessionStore, get_session, save_session}
use meridian_logistics.Session.Documents.{next_session_id}
use meridian_logistics.Session.Access.{get_session-save_session}

abbrev session : SessionState
session = record {
  session_id = "s_1";
  session_access_token = "sat_1";
  broker_id = "broker-123";
  office_id = "memphis";
  role = "broker";
  current_module = "dispatch_board";
  conversation_scope = "analytics";
  context_binding_state = "bound";
  screen_sync_state = "in_sync";
  active_resource = some (record {
    resource_type = "shipment";
    resource_id = some "88219";
    resource_fingerprint = none;
  });
  last_response_id = some "r_1";
  last_job_id = none;
}

abbrev saved_row : SessionRow
saved_row = record {
  session_id = "s_1";
  session_access_token = "sat_1";
  broker_id = "broker-123";
  office_id = "memphis";
  role = "broker";
  current_module = "dispatch_board";
  conversation_scope = "analytics";
  context_binding_state = "bound";
  screen_sync_state = "in_sync";
  active_resource_type = some "shipment";
  active_resource_id = some "88219";
  active_resource_fingerprint = none;
  last_response_id = some "r_1";
  last_job_id = none;
  created_at = "t0";
  updated_at = "t0";
}

abbrev store : SessionStore
store = record { sessions = saved_row ∷ []; counters = [] }

get_session-save_session_example :
    get_session "s_1" (save_session (record session { office_id = "dallas" }) "t1" store).1 ≡ (
      if "s_1" == "s_1"
      then some (record session { office_id = "dallas" })
      else get_session "s_1" store)
get_session-save_session_example =
    get_session-save_session (record session { office_id = "dallas" }) "t1" store "s_1"

-- The first session of a day has index 1.
first_id : (next_session_id "20260320" store).0 ≡ "chat_s_20260320_0001"
unfolding next_session_id get
first_id = refl
