-- ===== src/Gateway/Booking/Examples.antt =====
-- Runs of the write gateway on a concrete booking.
use meridian_logistics.Prelude.{◌≡◌, refl, none, some, [], ◌∷◌}
use meridian_logistics.Python.{ok, err, hook_error, get, put, pop}
use meridian_logistics.Table.{select_one, update}
use meridian_logistics.Gateway.Idempotency.{
  returned, claim_record, complete_record, claim_target_execution, release_target_execution,
  abandon_record,
}
use meridian_logistics.Gateway.Bookings.{
  Confirmation, Quote, Database, Booking, Request, Context, World, request_fingerprint,
  submitted_result, stale_denial, stale_result_if_needed, confirmation_row, quote_row, is_stale,
}
use meridian_logistics.Gateway.Booking.{
  book, with_target, guarded, submit, attempt, finish, execute_confirmed_booking, Permission,
}
use meridian_logistics.Gateway.Booking.Outcome.{Finished, Closed, execute_ends}
use meridian_logistics.Gateway.Booking.Safety.{booking_replays, failure_leaves_nothing}
use meridian_logistics.Gateway.Booking.Once.{IsBookable, submitted_is_authorised, no_double_booking}

abbrev confirmation : Confirmation
confirmation = record {
  confirmation_token = "token-1";
  quote_id = "quote-1";
  office_id = "memphis";
  broker_id = "broker-123";
  carrier_id = "carrier-1";
  pickup_date = "2026-03-20";
  confirmation_status = "pending";
  expires_at = "t9";
}

abbrev quote : Quote
quote = record {
  quote_id = "quote-1";
  office_id = "memphis";
  broker_id = "broker-123";
  carrier_id = "carrier-1";
  pickup_date = "2026-03-20";
  quote_status = "eligible_for_booking";
}

abbrev database : Database
database = record { confirmations = confirmation ∷ []; quotes = quote ∷ [] }

abbrev request : Request
request = record {
  action_name = "booking_create_confirmed";
  confirmation_token = "token-1";
  idempotency_key = "key-1";
  actor_broker_id = "broker-123";
  office_id = "memphis";
}

abbrev second_request : Request
second_request = record request { idempotency_key = "key-2" }

abbrev stranger : Request
stranger = record request { actor_broker_id = "broker-9" }

-- Every confirmation here expires at 9.
abbrev context : Context
context = record { now = 5; stamp = "t5"; parse_timestamp = λ s. ok 9; before_submit_hook = none }

abbrev broken : Context
broken = record context {
  before_submit_hook = some (λ d. (err hook_error, record d { quotes = [] }));
}

abbrev world : World
world = record {
  working = database;
  committed = database;
  claims = record { records = []; targets = [] };
}

abbrev booking : Booking
unfolding submitted_result
booking = submitted_result request confirmation "t5"

-- The booking is submitted, with what it wrote committed and its claims given back.
first_call : (execute_confirmed_booking request context world).0 ≡ returned (ok booking)
unfolding execute_confirmed_booking get put pop claim_record claim_target_execution complete_record
    release_target_execution attempt confirmation_row quote_row select_one is_stale
    stale_result_if_needed with_target guarded submit booking book update request_fingerprint finish
first_call = refl

execute_ends_example :
    Finished request context world (execute_confirmed_booking request context world)
execute_ends_example = execute_ends request context world (unfold get in refl) (unfold get in refl)

booking_replays_example :
    let later = (execute_confirmed_booking request context world).1 in
    execute_confirmed_booking request broken later ≡ (returned (ok booking), later)
booking_replays_example =
    booking_replays request context broken world booking (unfold get in refl) first_call

failing_call : (execute_confirmed_booking request broken world).0 ≡ returned (err hook_error)
unfolding execute_confirmed_booking get put pop claim_record claim_target_execution complete_record
    release_target_execution abandon_record attempt confirmation_row quote_row select_one is_stale
    stale_result_if_needed with_target guarded submit booking book update request_fingerprint finish
failing_call = refl

failure_leaves_nothing_example :
    Closed request (execute_confirmed_booking request broken world).1 none database database
failure_leaves_nothing_example =
    failure_leaves_nothing request broken world hook_error (unfold get in refl) failing_call

abbrev denial : Booking
denial = stale_denial stranger context confirmation

denied_call : (execute_confirmed_booking stranger context world).0 ≡ returned (ok denial)
unfolding execute_confirmed_booking get put pop claim_record claim_target_execution complete_record
    release_target_execution attempt confirmation_row quote_row select_one is_stale
    stale_result_if_needed with_target guarded submit booking book update request_fingerprint finish
denied_call = refl

submitted_is_authorised_example :
    (c : Confirmation) × (u : Quote) × (confirmation_row "token-1" database ≡ some c)
    × (quote_row c.quote_id database ≡ some u)
    × IsBookable request context c u
    × (booking ≡ submitted_result request c "t5")
    × ((execute_confirmed_booking request context world).1.committed
        ≡ (execute_confirmed_booking request context world).1.working)
submitted_is_authorised_example =
    submitted_is_authorised request context world booking (unfold get in refl) first_call
      (unfold submitted_result in refl)

new_key : get (execute_confirmed_booking request context world).1.claims.records "key-2" ≡ none
unfolding execute_confirmed_booking get put pop claim_record claim_target_execution complete_record
    release_target_execution attempt confirmation_row quote_row select_one is_stale
    stale_result_if_needed with_target guarded submit booking book update request_fingerprint finish
new_key = refl

no_double_booking_example :
    let later = (execute_confirmed_booking request context world).1 in
    (b : Booking) × ((execute_confirmed_booking second_request context later).0 ≡ returned (ok b))
    × (b.status ≡ "denied")
    × ((execute_confirmed_booking second_request context later).1.working ≡ later.working)
    × ((execute_confirmed_booking second_request context later).1.committed ≡ later.committed)
no_double_booking_example =
    no_double_booking request second_request context context world booking (unfold get in refl)
      first_call (unfold submitted_result in refl) refl new_key

abbrev permission : Permission
permission = record {
  role = some "broker";
  office_id = some "memphis";
  broker_id = some "broker-123";
}
