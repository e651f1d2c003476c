-- ===== src/Gateway/Booking/Once.antt =====
-- backend/app/gateway/booking_actions.py: the tests that a submitted booking passes, and a second
-- request for its confirmation.
use meridian_logistics.Prelude.{
  ℕ, String, ◌≡◌, refl, inl, inr, Bool, true, false, Option, none, some, ◌==◌, arith, ap, sym, ◌∙◌,
  eq_iff, Option-cases, option_map, ◌<◌,
}
use meridian_logistics.Python.{Result, ok, Result-cases, get}
use meridian_logistics.Table.{select_one, update, apply_if}
use meridian_logistics.Table.Laws.{select-update, select_holds}
use meridian_logistics.Gateway.Idempotency.{Step, returned}
use meridian_logistics.Gateway.Bookings.{
  Confirmation, Quote, Database, Booking, Request, Context, World, is_stale, submitted_result,
  confirmation_row, quote_row,
}
use meridian_logistics.Gateway.Booking.{book, execute_confirmed_booking}
use meridian_logistics.Gateway.Booking.Outcome.{
  Closed, Finished, raised, refused, submitted, result_of, execute_ends,
}
use meridian_logistics.Gateway.Booking.Safety.{IsNew, answered, denied_ne_submitted}

-- What the tests of a booking establish, at the time of the call.
pub record IsBookable (q : Request) (x : Context) (c : Confirmation) (u : Quote) : Type 0 where
  pub confirmation_office : c.office_id ≡ q.office_id
  pub confirmation_broker : c.broker_id ≡ q.actor_broker_id
  pub is_pending : c.confirmation_status ≡ "pending"
  pub expires : ℕ
  pub parsed : x.parse_timestamp c.expires_at ≡ ok expires
  pub not_expired : x.now < expires
  pub quote_office : u.office_id ≡ q.office_id
  pub quote_broker : u.broker_id ≡ q.actor_broker_id
  pub is_eligible : u.quote_status ≡ "eligible_for_booking"
  pub same_carrier : u.carrier_id ≡ c.carrier_id
  pub same_pickup : u.pickup_date ≡ c.pickup_date

not_stale-IsBookable :
    (q : Request) (x : Context) (c : Confirmation) (o : Option Quote)
    → is_stale q x c o ≡ ok false
    → (u : Quote) × (o ≡ some u) × IsBookable q x c u
unfolding is_stale
not_stale-IsBookable q x c none h = elim (Result-cases (x.parse_timestamp c.expires_at)) [
  | inl (t, e) ↦ absurd (ground (arith, e))
  | inr (z, e) ↦ absurd (ground (arith, e))
]
not_stale-IsBookable q x c (some u) h = elim (Result-cases (x.parse_timestamp c.expires_at)) [
  | inr (z, e) ↦ absurd (ground (arith, e))
  | inl (t, e) ↦ (
    u,
    refl,
    record {
      confirmation_office = (eq_iff c.office_id q.office_id).0 (ground (arith, e));
      confirmation_broker = (eq_iff c.broker_id q.actor_broker_id).0 (ground (arith, e));
      is_pending = (eq_iff c.confirmation_status "pending").0 (ground (arith, e));
      expires = t;
      parsed = e;
      not_expired = ground (arith, e);
      quote_office = (eq_iff u.office_id q.office_id).0 (ground (arith, e));
      quote_broker = (eq_iff u.broker_id q.actor_broker_id).0 (ground (arith, e));
      is_eligible = (eq_iff u.quote_status "eligible_for_booking").0 (ground (arith, e));
      same_carrier = (eq_iff u.carrier_id c.carrier_id).0 (ground (arith, e));
      same_pickup = (eq_iff u.pickup_date c.pickup_date).0 (ground (arith, e));
    },
  )
]

-- What a submitted booking of a call with a new key rests on.
record Submitted (q : Request) (x : Context) (w : World) (t : Step (Result Booking) × World)
    (b : Booking) : Type 0 where
  confirmation : Confirmation
  after_hook : Database
  found : confirmation_row q.confirmation_token w.working ≡ some confirmation
  tested : is_stale q x confirmation (quote_row confirmation.quote_id w.working) ≡ ok false
  result : b ≡ submitted_result q confirmation x.stamp
  closed :
      let d = book confirmation.quote_id q.confirmation_token after_hook in
      Closed q t.1 (result_of q (submitted_result q confirmation x.stamp)) d d

ended-Submitted :
    {q : Request} {x : Context} {w : World} {t : Step (Result Booking) × World} (b : Booking)
    → Finished q x w t
    → t.0 ≡ returned (ok b)
    → b.status ≡ "submitted"
    → Submitted q x w t b
ended-Submitted b (raised e c f n p k) h s = absurd (cc)
ended-Submitted b (refused a z p k) h s =
    let e : a ≡ b = cc in
    absurd (denied_ne_submitted b.status (ap (λ (r : Booking). r.status) (sym e) ∙ z) s)
ended-Submitted b (submitted c d f n p k) h s = record {
  confirmation = c;
  after_hook = d;
  found = f;
  tested = n;
  result = cc;
  closed = k;
}

-- A call with a new key that submits found a confirmation and a quote that pass every test; its
-- result is that of this confirmation, and what it wrote is committed.
pub submitted_is_authorised :
    (q : Request) (x : Context) (w : World) (b : Booking)
    → IsNew q w
    → (execute_confirmed_booking q x w).0 ≡ returned (ok b)
    → b.status ≡ "submitted"
    → (c : Confirmation) × (u : Quote) × (confirmation_row q.confirmation_token w.working ≡ some c)
      × (quote_row c.quote_id w.working ≡ some u)
      × IsBookable q x c u
      × (b ≡ submitted_result q c x.stamp)
      × ((execute_confirmed_booking q x w).1.committed
          ≡ (execute_confirmed_booking q x w).1.working)
submitted_is_authorised q x w b n h s =
    let m = ended-Submitted b (answered q x w n (ok b) h) h s in
    let (u, e, k) =
      not_stale-IsBookable q x m.confirmation (quote_row m.confirmation.quote_id w.working)
        m.tested in
    (m.confirmation, u, m.found, e, k, m.result, m.closed.committed ∙ sym m.closed.working)

-- After the UPDATEs the confirmation, if it is there, is consumed.
book_consumes :
    (quote token : String) (d : Database) (c : Confirmation)
    → confirmation_row token (book quote token d) ≡ some c
    → c.confirmation_status ≡ "consumed"
unfolding confirmation_row book
book_consumes quote token d c h = elim (Option-cases (select_one has d.confirmations)) [
  | inl e ↦ ground (arith, e, found)
  | inr (r, e) ↦ ground (arith, e, found, select_holds has d.confirmations r e)
]
  where
    has : Confirmation → Bool
    has k = k.confirmation_token == token

    consume : Confirmation → Confirmation
    consume k = record k { confirmation_status = "consumed" }

    found :
        select_one has (update has consume d.confirmations)
        ≡ option_map (apply_if has consume) (select_one has d.confirmations)
    found = select-update has has consume (λ r. refl) d.confirmations

consumed_is_stale :
    (q : Request) (x : Context) (c : Confirmation) (o : Option Quote)
    → c.confirmation_status ≡ "consumed"
    → is_stale q x c o ≡ ok true
unfolding is_stale
consumed_is_stale q x c o e =
    ground (arith, eq_iff c.confirmation_status "pending", eq_iff "consumed" "pending")

stale_is_denied :
    {q : Request} {x : Context} {w : World} {t : Step (Result Booking) × World}
    → Finished q x w t
    → ((c : Confirmation)
        → confirmation_row q.confirmation_token w.working ≡ some c
        → is_stale q x c (quote_row c.quote_id w.working) ≡ ok true)
    → (b : Booking) × (t.0 ≡ returned (ok b))
      × (b.status ≡ "denied")
      × (t.1.working ≡ w.working)
      × (t.1.committed ≡ w.committed)
stale_is_denied (raised e c f n p k) all = absurd (n (all c f))
stale_is_denied (refused b s p k) all = (b, p, s, k.working, k.committed)
stale_is_denied (submitted c d f n p k) all = absurd (cc (all c f))

-- After a submitted booking no other request books its confirmation again: a request for the same
-- confirmation under another new key ends, at any time and under any hook, with a denial, and leaves
-- the data as they are.
pub no_double_booking :
    (q r : Request) (x y : Context) (w : World) (b : Booking)
    → IsNew q w
    → (execute_confirmed_booking q x w).0 ≡ returned (ok b)
    → b.status ≡ "submitted"
    → r.confirmation_token ≡ q.confirmation_token
    → IsNew r (execute_confirmed_booking q x w).1
    → let later = (execute_confirmed_booking q x w).1 in
      (b' : Booking) × ((execute_confirmed_booking r y later).0 ≡ returned (ok b'))
      × (b'.status ≡ "denied")
      × ((execute_confirmed_booking r y later).1.working ≡ later.working)
      × ((execute_confirmed_booking r y later).1.committed ≡ later.committed)
no_double_booking q r x y w b n h s same new =
    let later = (execute_confirmed_booking q x w).1 in
    let m = ended-Submitted b (answered q x w n (ok b) h) h s in
    let target : get later.claims.targets r.confirmation_token ≡ none = rw same m.closed.target in
    stale_is_denied (execute_ends r y later new target) (λ c f.
      consumed_is_stale r y c (quote_row c.quote_id later.working) (
        book_consumes m.confirmation.quote_id q.confirmation_token m.after_hook c (
          ap (λ (d : Database). confirmation_row q.confirmation_token d) (sym m.closed.working)
          ∙ ap (λ (k : String). confirmation_row k later.working) (sym same)
          ∙ f)))
