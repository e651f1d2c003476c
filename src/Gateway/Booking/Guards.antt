-- ===== src/Gateway/Booking/Guards.antt =====
-- backend/app/gateway/write_gateway.py: the guards before a booking.
use meridian_logistics.Prelude.{
  String, refl, ◌≡◌, ◌≢◌, ◌⊎◌, inl, inr, true, Option, none, some, arith, ap, eq_iff, Option-cases,
  opt_eq,
}
use meridian_logistics.Python.{Error, err, value_error}
use meridian_logistics.Gateway.Idempotency.{returned}
use meridian_logistics.Gateway.Bookings.{Request, Context, World}
use meridian_logistics.Gateway.Booking.{
  execute_confirmed_booking, Permission, refusal, execute_write_gateway,
}

-- What the gateway has checked of a request that it passes on.
pub record IsAdmitted (q : Request) (p : Permission) : Type 0 where
  pub action : q.action_name ≡ "booking_create_confirmed"
  pub role : p.role ≡ some "broker"
  pub office : p.office_id ≡ some q.office_id
  pub broker : p.broker_id ≡ some q.actor_broker_id
  pub token : q.confirmation_token ≢ ""
  pub key : q.idempotency_key ≢ ""

opt_eq_holds : (a b : Option String) → opt_eq a b ≡ true → a ≡ b
opt_eq_holds none none h = cc
opt_eq_holds (some a) (some b) h = ap some ((eq_iff a b).0 h)
opt_eq_holds none (some b) h = cc
opt_eq_holds (some a) none h = cc

unrefused-IsAdmitted : (q : Request) (p : Permission) → refusal q p ≡ none → IsAdmitted q p
unfolding refusal
unrefused-IsAdmitted q p h = record {
  action = (eq_iff q.action_name "booking_create_confirmed").0 (ground arith);
  role = opt_eq_holds p.role (some "broker") (ground arith);
  office = opt_eq_holds p.office_id (some q.office_id) (ground arith);
  broker = opt_eq_holds p.broker_id (some q.actor_broker_id) (ground arith);
  token = λ e. ground (arith, (eq_iff q.confirmation_token "").1 e);
  key = λ e. ground (arith, (eq_iff q.idempotency_key "").1 e);
}

-- The gateway either refuses a request with a ValueError and changes nothing, or the request is a
-- booking by the broker and office of the permission context, with a token and a key, and the answer
-- is that of the booking.
pub gateway_admits :
    (q : Request) (p : Permission) (x : Context) (w : World)
    → ((e : Error) × (execute_write_gateway q p x w ≡ (returned (err e), w)))
      ⊎ (IsAdmitted q p × (execute_write_gateway q p x w ≡ execute_confirmed_booking q x w))
unfolding execute_write_gateway
gateway_admits q p x w = elim (Option-cases (refusal q p)) [
  | inl e ↦ inr (unrefused-IsAdmitted q p e, rw (e, execute_write_gateway) refl)
  | inr (m, e) ↦ inl (value_error m, rw (e, execute_write_gateway) refl)
]
