-- ===== src/Gateway/Booking.antt =====
-- backend/app/gateway/booking_actions.py and write_gateway.py: the execution of a confirmed booking.
pub mod Attempt
pub mod Outcome
pub mod Safety
pub mod Once
pub mod Guards
mod Examples
use meridian_logistics.Prelude.{String, not, Option, none, some, ◌==◌, if◌then◌else◌, opt_eq}
use meridian_logistics.Python.{
  value_error, Result, ok, err, Exec, pure, lift, gets, modify, ◌>>=◌, ◌>>◌, and_then,
}
use meridian_logistics.Table.{update}
use meridian_logistics.Gateway.Idempotency.{
  Claims, Claim, execute, replay, conflict, Step, blocked, returned, claim_record, complete_record,
  abandon_record, claim_target_execution, release_target_execution,
}
use meridian_logistics.Gateway.Bookings.{
  Confirmation, Database, Booking, Request, Context, World, no_subject, request_fingerprint,
  submitted_result, denied_result, confirmation_row, quote_row, stale_result_if_needed,
}

-- complete_record(...); return result
unfoldable pub finish : Request → Booking → Exec World Booking
finish q result w =
    let (r, s) = complete_record q.idempotency_key (request_fingerprint q) result w.claims in
    (and_then r (λ _. ok result), record w { claims = s })

run_hook : Option (Exec Database (Unit {0})) → Exec World (Unit {0})
run_hook none = pure tt
run_hook (some hook) = λ w. let (r, d) = hook w.working in (r, record w { working = d })

-- The two UPDATE statements.
unfoldable pub book : String → String → Database → Database
book quote token d = record {
  quotes = update (λ u. u.quote_id == quote) (λ u. record u { quote_status = "booked" }) d.quotes;
  confirmations =
      update (λ c. c.confirmation_token == token)
        (λ c. record c { confirmation_status = "consumed" }) d.confirmations;
}

-- connection.commit()
commit : Exec World (Unit {0})
commit = modify (λ w. record w { committed = w.working })

pub submit : Request → Context → Confirmation → Exec World Booking
unfolding run_hook commit
submit q x c = do
  run_hook x.before_submit_hook
  modify (λ w. record w { working = book c.quote_id q.confirmation_token w.working })
  commit
  finish q (submitted_result q c x.stamp)

decide : Request → Context → Confirmation → Option Booking → Exec World Booking
decide q x c none = submit q x c
decide q x c (some denial) = finish q denial

confirmed : Request → Context → Option Confirmation → Exec World Booking
unfolding decide stale_result_if_needed
confirmed q x none = finish q (
    denied_result q q.confirmation_token "unsupported_or_missing_confirmation" no_subject none
      x.stamp)
confirmed q x (some c) = do
  quote ← gets (λ w. quote_row c.quote_id w.working)
  denial ← lift (stale_result_if_needed q x c quote)
  decide q x c denial

-- The body of the `try`, once the target is claimed.
unfoldable pub attempt : Request → Context → Exec World Booking
unfolding confirmed
attempt q x = do
  confirmation ← gets (λ w. confirmation_row q.confirmation_token w.working)
  confirmed q x confirmation

-- `except`: rollback, abandon the claim and raise again. Where no transaction is open the working
-- data are those last committed, and the rollback changes nothing.
recover : Request → Result Booking → World → World
recover q (ok b) w = w
recover q (err e) w = record w {
  working = w.committed;
  claims = abandon_record q.idempotency_key (request_fingerprint q) w.claims;
}

-- `finally`: release the target.
release : Request → World → World
release q w = record w {
  claims = release_target_execution q.confirmation_token q.idempotency_key w.claims;
}

pub guarded : Request → Context → World → Step (Result Booking) × World
unfolding recover release
guarded q x w = let (r, v) = attempt q x w in (returned r, release q (recover q r v))

pub with_target :
    Request → Context → World → Step (Unit {0}) × Claims Booking → Step (Result Booking) × World
with_target q x w (blocked, s) = (blocked, record w { claims = s })
with_target q x w (returned u, s) = guarded q x (record w { claims = s })

conflict_denial : Request → Context → Booking → Booking
conflict_denial q x b =
    denied_result q q.confirmation_token "idempotency_conflict"
      (record { quote_id = b.quote_id; carrier_id = b.carrier_id; pickup_date = b.pickup_date })
      (some b.audit.outcome_recorded_at) x.stamp

claimed :
    Request
    → Context
    → World
    → Step (Claim Booking) × Claims Booking
    → Step (Result Booking) × World
unfolding conflict_denial
claimed q x w (blocked, s) = (blocked, record w { claims = s })
claimed q x w (returned (replay c), s) = (returned (ok c.result), record w { claims = s })
claimed q x w (returned (conflict c), s) =
    (returned (ok (conflict_denial q x c.result)), record w { claims = s })
claimed q x w (returned execute, s) =
    with_target q x (record w { claims = s })
      (claim_target_execution q.confirmation_token q.idempotency_key s)

-- A call answers `blocked` where its thread waits for another one's claim.
unfoldable pub execute_confirmed_booking : Request → Context → World → Step (Result Booking) × World
unfolding claimed
execute_confirmed_booking q x w =
    claimed q x w (claim_record q.idempotency_key (request_fingerprint q) w.claims)

-- permission_context["claims"]; a missing one is None
pub record Permission : Type 0 where
  pub role : Option String
  pub office_id : Option String
  pub broker_id : Option String

-- The message of the first guard that refuses the request.
unfoldable pub refusal : Request → Permission → Option String
refusal q p =
    if not (q.action_name == "booking_create_confirmed")
    then some "unsupported action"
    else if not (opt_eq p.role (some "broker"))
    then some "broker role required"
    else if not (opt_eq p.office_id (some q.office_id))
    then some "permission context office does not match request"
    else if not (opt_eq p.broker_id (some q.actor_broker_id))
    then some "permission context broker does not match request"
    else if q.confirmation_token == ""
    then some "confirmation token is required"
    else if q.idempotency_key == ""
    then some "idempotency key is required"
    else none

unfoldable pub execute_write_gateway :
    Request → Permission → Context → World → Step (Result Booking) × World
execute_write_gateway q p x w = elim (refusal q p) [
  | some message ↦ (returned (err (value_error message)), w)
  | none ↦ execute_confirmed_booking q x w
]
