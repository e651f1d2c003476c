-- ===== src/Gateway/Bookings.antt =====
-- backend/app/gateway/booking_actions.py: the rows and results of a booking, and the test whether a
-- confirmation is stale.
use Prim.Native.String.{◌++◌}
use meridian_logistics.Prelude.{
  ℕ, String, Bool, true, not, Option, none, some, List, [], ◌∷◌, ◌==◌, ◌||◌, leb, if◌then◌else◌,
}
use meridian_logistics.Python.{Result, ok, Exec, and_then}
use meridian_logistics.Table.{select_one}
use meridian_logistics.Gateway.Idempotency.{Claims}

-- A row of `booking_confirmations`.
pub record Confirmation : Type 0 where
  pub confirmation_token : String
  pub quote_id : String
  pub office_id : String
  pub broker_id : String
  pub carrier_id : String
  pub pickup_date : String
  pub confirmation_status : String
  pub expires_at : String

-- The columns of `shipment_quotes` that are read or written here.
pub record Quote : Type 0 where
  pub quote_id : String
  pub office_id : String
  pub broker_id : String
  pub carrier_id : String
  pub pickup_date : String
  pub quote_status : String

pub record Database : Type 0 where
  pub confirmations : List Confirmation
  pub quotes : List Quote

pub record Audit : Type 0 where
  pub tool_path : List String
  pub idempotency_key : String
  pub outcome : String
  pub actor_broker_id : String
  pub office_id : String
  pub outcome_recorded_at : String

-- The result dict of a booking. A submitted result has no denial reason.
pub record Booking : Type 0 where
  pub action_name : String
  pub status : String
  pub confirmation_token : String
  pub quote_id : Option String
  pub carrier_id : Option String
  pub pickup_date : Option String
  pub office_id : String
  pub actor_broker_id : String
  pub idempotency_key : String
  pub denial_reason_class : Option String
  pub audit : Audit

-- WriteGatewayRequest
pub record Request : Type 0 where
  pub action_name : String
  pub confirmation_token : String
  pub idempotency_key : String
  pub actor_broker_id : String
  pub office_id : String

-- What a call reads of its surroundings: the clock, as a number for the comparison and as a text for
-- the audit, the parser of ISO timestamps, and the hook that the caller may pass.
pub record Context : Type 0 where
  pub now : ℕ
  pub stamp : String
  pub parse_timestamp : String → Result ℕ
  pub before_submit_hook : Option (Exec Database (Unit {0}))

-- The connection's working data, what was last committed, and the idempotency store.
pub record World : Type 0 where
  pub working : Database
  pub committed : Database
  pub claims : Claims Booking

unfoldable pub request_fingerprint : Request → String
request_fingerprint q =
    q.action_name ++ "|" ++ q.confirmation_token ++ "|" ++ q.actor_broker_id ++ "|" ++ q.office_id

-- The audit of _result_audit with a time given, or with the time of the clock where it is missing or
-- empty.
unfoldable pub result_audit : Request → String → Option String → String → Audit
result_audit q outcome recorded stamp = record {
  tool_path = "booking_create_confirmed" ∷ [];
  idempotency_key = q.idempotency_key;
  outcome = outcome;
  actor_broker_id = q.actor_broker_id;
  office_id = q.office_id;
  outcome_recorded_at = elim recorded [ none ↦ stamp | some t ↦ if t == "" then stamp else t ];
}

unfoldable pub submitted_result : Request → Confirmation → String → Booking
unfolding result_audit
submitted_result q c stamp = record {
  action_name = q.action_name;
  status = "submitted";
  confirmation_token = q.confirmation_token;
  quote_id = some c.quote_id;
  carrier_id = some c.carrier_id;
  pickup_date = some c.pickup_date;
  office_id = q.office_id;
  actor_broker_id = q.actor_broker_id;
  idempotency_key = q.idempotency_key;
  denial_reason_class = none;
  audit = result_audit q "submitted" none stamp;
}

-- The three columns of a confirmation or of an earlier result that a denial repeats.
pub record Subject : Type 0 where
  pub quote_id : Option String
  pub carrier_id : Option String
  pub pickup_date : Option String

abbrev pub no_subject : Subject
no_subject = record { quote_id = none; carrier_id = none; pickup_date = none }

unfoldable pub denied_result :
    Request → String → String → Subject → Option String → String → Booking
unfolding result_audit
denied_result q token reason about recorded stamp = record {
  action_name = q.action_name;
  status = "denied";
  confirmation_token = token;
  quote_id = about.quote_id;
  carrier_id = about.carrier_id;
  pickup_date = about.pickup_date;
  office_id = q.office_id;
  actor_broker_id = q.actor_broker_id;
  idempotency_key = q.idempotency_key;
  denial_reason_class = some reason;
  audit = result_audit q reason recorded stamp;
}

-- The two queries by primary key.
unfoldable pub confirmation_row : String → Database → Option Confirmation
confirmation_row token d = select_one (λ c. c.confirmation_token == token) d.confirmations

unfoldable pub quote_row : String → Database → Option Quote
quote_row id d = select_one (λ q. q.quote_id == id) d.quotes

-- The last four tests of _stale_result_if_needed, over the quote.
quote_stale : Request → Confirmation → Option Quote → Bool
quote_stale q c none = true
quote_stale q c (some u) =
    not (u.office_id == q.office_id)
    || not (u.broker_id == q.actor_broker_id)
    || not (u.quote_status == "eligible_for_booking")
    || not (u.carrier_id == c.carrier_id)
    || not (u.pickup_date == c.pickup_date)

-- Which of its tests fails does not show in the result, so they are joined; a time that does not
-- parse raises only when the tests before it pass.
unfoldable pub is_stale : Request → Context → Confirmation → Option Quote → Result Bool
unfolding quote_stale
is_stale q x c u =
    if not (c.office_id == q.office_id)
      || not (c.broker_id == q.actor_broker_id)
      || not (c.confirmation_status == "pending")
    then ok true
    else and_then (x.parse_timestamp c.expires_at)
        (λ expires. ok (leb expires x.now || quote_stale q c u))

unfoldable pub stale_denial : Request → Context → Confirmation → Booking
stale_denial q x c =
    denied_result q c.confirmation_token "stale_state"
      (record {
        quote_id = some c.quote_id;
        carrier_id = some c.carrier_id;
        pickup_date = some c.pickup_date;
      })
      none x.stamp

unfoldable pub stale_result_if_needed :
    Request → Context → Confirmation → Option Quote → Result (Option Booking)
stale_result_if_needed q x c u =
    and_then (is_stale q x c u) (λ stale. ok (if stale then some (stale_denial q x c) else none))
