-- ===== src/Api/Actions/Examples.antt =====
-- A confirmation of a booking by the route of the actions.
use meridian_logistics.Prelude.{◌≡◌, refl, ◌⊎◌, true, none, some, [], ◌∷◌}
use meridian_logistics.Python.{Error, err, ok, text, get, truth, str}
use meridian_logistics.Table.{select_one, select_all}
use meridian_logistics.Gateway.Idempotency.{returned}
use meridian_logistics.Gateway.Bookings.{Context, World}
use meridian_logistics.Gateway.Booking.{execute_confirmed_booking}
use meridian_logistics.Session.{SessionRow, SessionStore}
use meridian_logistics.Api.Actions.{
  entries, Caller, trusted_action_identity, ConfirmRequest, Confirmation, post_confirm_action,
  step_map,
}
use meridian_logistics.Api.Actions.Authority.{IsOwn, confirmation-IsOwn}

abbrev caller : Caller
caller = record {
  trusted = entries (
      ("broker_id", text "broker-123")
      ∷ ("office_id", text "memphis")
      ∷ ("role", text "broker")
      ∷ []);
  header_broker_id = none;
  header_office_id = none;
  header_role = none;
  is_dev = true;
  default_office_id = "memphis";
  brokers = record { broker_id = "broker-123"; office_id = "memphis"; role = "broker" } ∷ [];
  lower = λ s. s;
}

abbrev request : ConfirmRequest
request = record {
  action_name = some "booking_create_confirmed";
  confirmation_token = some "token-1";
  idempotency_key = some "key-1";
  session_id = some "session-1";
  session_access_token = some "access-1";
}

abbrev session : SessionRow
session = record {
  session_id = "session-1";
  session_access_token = "access-1";
  broker_id = "broker-123";
  office_id = "memphis";
  role = "broker";
  current_module = "dispatch_board";
  conversation_scope = "global";
  context_binding_state = "bound";
  screen_sync_state = "not_applicable";
  active_resource_type = none;
  active_resource_id = none;
  active_resource_fingerprint = none;
  last_response_id = none;
  last_job_id = none;
  created_at = "t0";
  updated_at = "t0";
}

abbrev sessions : SessionStore
sessions = record { sessions = session ∷ []; counters = [] }

abbrev context : Context
context = record { now = 0; stamp = "t1"; parse_timestamp = λ s. ok 9; before_submit_hook = none }

abbrev world : World
world = record {
  working = record { confirmations = []; quotes = [] };
  committed = record { confirmations = []; quotes = [] };
  claims = record { records = []; targets = [] };
}

-- The dict of the request's state gives the identity of its broker.
identified :
    trusted_action_identity caller
    ≡ ok (record { broker_id = "broker-123"; office_id = "memphis"; role = "broker" })
unfolding trusted_action_identity get select_one select_all truth str
identified = refl

confirmation-IsOwn_example :
    ((e : Error) × (post_confirm_action (λ s. s) caller request context sessions world
        ≡ (returned (err e), world)))
    ⊎ ((k : Confirmation) × IsOwn caller request sessions k
        × (post_confirm_action (λ s. s) caller request context sessions world ≡ (
          step_map (λ s. s) k.session (execute_confirmed_booking k.request context world).0,
          (execute_confirmed_booking k.request context world).1,
        )))
confirmation-IsOwn_example = confirmation-IsOwn (λ s. s) caller request context sessions world
