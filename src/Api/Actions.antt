-- ===== src/Api/Actions.antt =====
-- backend/app/api/identity.py and api/routes/actions.py: who is asking, and the confirmation of a
-- booking. The entries of a request are texts or absent; the entries of the response that are not
-- computed from the request, the session or the booking are left out.
pub mod Authority
mod Examples
use Prim.Native.String.{◌++◌}
use meridian_logistics.Prelude.{
  String, Bool, true, false, not, Option, none, some, List, [], ◌∷◌, ◌==◌, ◌&&◌, ◌||◌,
  if◌then◌else◌, ◌≡◌,
}
use meridian_logistics.Python.{
  Error, value_error, http_error, Result, ok, err, and_then, Value, Dict, get, truth, str,
  or_default,
}
use meridian_logistics.Table.{select_all, select_one}
use meridian_logistics.Gateway.Idempotency.{Step, blocked, returned}
use meridian_logistics.Gateway.Bookings.{Request, Booking, Context, World}
use meridian_logistics.Gateway.Booking.{Permission, execute_write_gateway}
use meridian_logistics.Session.{SessionState, SessionStore, get_session}

pub record TrustedIdentity : Type 0 where
  pub broker_id : String
  pub office_id : String
  pub role : String

-- request.state.trusted_chat_identity
pub data Trusted : Type 0 where
  absent : Trusted
  identity : TrustedIdentity → Trusted
  entries : Dict Value → Trusted
  unknown : Trusted

is_given : Option Value → Bool
is_given none = false
is_given (some v) = truth v

text_or_none : Option Value → String
text_or_none none = "None"
text_or_none (some v) = str v

unfoldable pub identity_from_request_state : Trusted → Result (Option TrustedIdentity)
unfolding is_given text_or_none
identity_from_request_state absent = ok none
identity_from_request_state (identity i) = ok (some i)
identity_from_request_state (entries d) =
    if is_given (get d "broker_id") && (is_given (get d "office_id") && is_given (get d "role"))
    then ok (
        some (record {
          broker_id = text_or_none (get d "broker_id");
          office_id = text_or_none (get d "office_id");
          role = text_or_none (get d "role");
        }))
    else err (http_error 503 "server auth context unavailable")
identity_from_request_state unknown = err (http_error 503 "server auth context unavailable")

-- A row of `brokers`, as brokers_for_office reads it.
pub record Broker : Type 0 where
  pub broker_id : String
  pub office_id : String
  pub role : String

-- backend/app/db/read_repository.py. `lower` is the database's lower(); the ORDER BY is left out, as
-- no more than one broker is picked from the answer.
unfoldable pub brokers_for_office : (String → String) → List Broker → String → String → List Broker
brokers_for_office lower t office role =
    select_all (λ b. b.office_id == office && lower b.role == lower role) t

unfoldable pub is_there {ℓ} : {A : Type ℓ} → Option A → Bool
is_there none = false
is_there (some a) = true

unfoldable pub validated_trusted_identity :
    (String → String) → List Broker → TrustedIdentity → Result TrustedIdentity
unfolding is_there brokers_for_office
validated_trusted_identity lower t i =
    if not (i.role == "broker")
    then err (http_error 403 "unsupported actor role")
    else if not (
        is_there (
          select_one (λ b. b.broker_id == i.broker_id)
            (brokers_for_office lower t i.office_id i.role)))
    then err (http_error 403 "unknown auth context")
    else ok i

-- What the route reads of a request and of the application. `is_dev` is _allow_seeded_dev_identity of
-- the configured environment, whose name goes through strip() and lower().
pub record Caller : Type 0 where
  pub trusted : Trusted
  pub header_broker_id : Option String
  pub header_office_id : Option String
  pub header_role : Option String
  pub is_dev : Bool
  pub default_office_id : String
  pub brokers : List Broker
  pub lower : String → String

-- The one broker of the default office.
unfoldable pub seeded : Caller → List Broker → Result TrustedIdentity
unfolding validated_trusted_identity
seeded c (b ∷ []) =
    validated_trusted_identity c.lower c.brokers
      (record { broker_id = b.broker_id; office_id = b.office_id; role = b.role })
seeded c _ = err (http_error 503 "server auth context unavailable")

unfoldable pub trusted_or_seeded : Caller → Option TrustedIdentity → Result TrustedIdentity
unfolding seeded validated_trusted_identity is_there
trusted_or_seeded c (some i) = validated_trusted_identity c.lower c.brokers i
trusted_or_seeded c none =
    if is_there c.header_broker_id || (is_there c.header_office_id || is_there c.header_role)
    then err (http_error 403 "untrusted auth context")
    else if not c.is_dev
    then err (http_error 503 "server auth context unavailable")
    else seeded c (brokers_for_office c.lower c.brokers c.default_office_id "broker")

unfoldable pub trusted_action_identity : Caller → Result TrustedIdentity
unfolding trusted_or_seeded identity_from_request_state
trusted_action_identity c = and_then (identity_from_request_state c.trusted) (trusted_or_seeded c)

pub record ConfirmRequest : Type 0 where
  pub action_name : Option String
  pub confirmation_token : Option String
  pub idempotency_key : Option String
  pub session_id : Option String
  pub session_access_token : Option String

-- if not value: raise HTTPException(status_code=400, detail=detail)
unfoldable pub required : String → Option String → Result String
required detail none = err (http_error 400 detail)
required detail (some s) = if s == "" then err (http_error 400 detail) else ok s

unfoldable pub action_of : Option String → Result String
action_of none = err (http_error 400 "unsupported action")
action_of (some s) =
    if not (s == "booking_create_confirmed")
    then err (http_error 400 "unsupported action")
    else ok s

unfoldable pub own_session : TrustedIdentity → String → Option SessionState → Result SessionState
own_session i token none = err (http_error 404 "unknown session")
own_session i token (some s) =
    if not (s.session_access_token == token)
    then err (http_error 404 "unknown session")
    else if not (s.broker_id == i.broker_id) || not (s.office_id == i.office_id)
    then err (http_error 403 "session identity mismatch")
    else ok s

-- What the guards of the route pass on.
pub record Confirmation : Type 0 where
  pub session : SessionState
  pub request : Request
  pub permission : Permission

abbrev pub confirmation : TrustedIdentity → SessionState → String → String → String → Confirmation
confirmation i s action token key = record {
  session = s;
  request = record {
    action_name = action;
    confirmation_token = token;
    idempotency_key = key;
    actor_broker_id = i.broker_id;
    office_id = i.office_id;
  };
  permission = record {
    role = some i.role;
    office_id = some i.office_id;
    broker_id = some i.broker_id;
  };
}

-- The guards, in order, up to the call of the gateway.
unfoldable pub guards : Caller → ConfirmRequest → SessionStore → Result Confirmation
unfolding trusted_action_identity action_of required own_session
guards c q sessions = and_then (trusted_action_identity c) λ i.
    and_then (action_of q.action_name) λ action.
      and_then (required "confirmation_token is required" q.confirmation_token) λ token.
        and_then (required "idempotency_key is required" q.idempotency_key) λ key.
          and_then (required "session_id is required" q.session_id) λ session_id.
            and_then (required "session_access_token is required" q.session_access_token) λ access.
              and_then (own_session i access (get_session session_id sessions))
                λ s. ok (confirmation i s action token key)

-- What of the response payload is computed from the result. `spaced` is replace("_", " ").
pub record Answer : Type 0 where
  pub session : SessionState
  pub intent_class : String
  pub status : String
  pub summary : String
  pub denial_reason_class : String

unfoldable pub answer : (String → String) → SessionState → Booking → Answer
answer spaced s b =
    let reason = or_default b.denial_reason_class "none" in
    if b.status == "denied"
    then record {
      session = s;
      intent_class = "write_denied";
      status = "denied";
      summary = "Booking confirmation denied: " ++ spaced reason;
      denial_reason_class = reason;
    }
    else record {
      session = s;
      intent_class = "write_submitted";
      status = "submitted";
      summary = "Booking submitted for quote " ++ or_default b.quote_id "None";
      denial_reason_class = reason;
    }

-- except ValueError as e: raise HTTPException(status_code=400, detail=str(e))
answered : (String → String) → SessionState → Result Booking → Result Answer
unfolding answer
answered spaced s (ok b) = ok (answer spaced s b)
answered spaced s (err (value_error m)) = err (http_error 400 m)
answered spaced s (err e) = err e

unfoldable pub step_map :
    (String → String) → SessionState → Step (Result Booking) → Step (Result Answer)
unfolding answered
step_map spaced s blocked = blocked
step_map spaced s (returned r) = returned (answered spaced s r)

unfoldable pub confirmed :
    (String → String) → Context → World → Result Confirmation → Step (Result Answer) × World
unfolding step_map execute_write_gateway
confirmed spaced x w (err e) = (returned (err e), w)
confirmed spaced x w (ok c) =
    let (r, w') = execute_write_gateway c.request c.permission x w in
    (step_map spaced c.session r, w')

-- Sessions are only read.
unfoldable pub post_confirm_action :
    (String → String)
    → Caller
    → ConfirmRequest
    → Context
    → SessionStore
    → World
    → Step (Result Answer) × World
unfolding confirmed guards
post_confirm_action spaced c q x sessions w = confirmed spaced x w (guards c q sessions)
