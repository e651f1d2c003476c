-- ===== src/Gateway/Booking/Safety.antt =====
-- backend/app/gateway/booking_actions.py: a repeated request, a failing one and a denied one.
use meridian_logistics.Prelude.{
  String, ◌≡◌, refl, inl, inr, none, arith, ap, subst, ◌∙◌, eq_iff, eq_refl,
}
use meridian_logistics.Python.{Error, Result, ok, err, get}
use meridian_logistics.Gateway.Idempotency.{Step, returned, claim_record}
use meridian_logistics.Gateway.Bookings.{
  Confirmation, Booking, Request, Context, World, submitted_result,
}
use meridian_logistics.Gateway.Booking.{execute_confirmed_booking}
use meridian_logistics.Gateway.Booking.Outcome.{
  Closed, Finished, raised, refused, submitted, result_of, execute-Finished,
}

-- The key of the request is new.
abbrev pub IsNew : Request → World → Type 0
IsNew q w = get w.claims.records q.idempotency_key ≡ none

module _ (q : Request) (x : Context) (w : World) (new : IsNew q w) where
  -- A call that answers has ended.
  pub answered :
      (r : Result Booking)
      → (execute_confirmed_booking q x w).0 ≡ returned r
      → Finished q x w (execute_confirmed_booking q x w)
  answered r h = elim (execute-Finished q x w new) [ inl e ↦ absurd (cc) | inr f ↦ f ]

returned_injective : {A : Type 0} {a b : A} → returned a ≡ returned b → a ≡ b
returned_injective h = cc

-- The record of a key after a call that returned a result is that result.
recorded :
    {q : Request} {x : Context} {w : World} {t : Step (Result Booking) × World} (b : Booking)
    → Finished q x w t
    → t.0 ≡ returned (ok b)
    → get t.1.claims.records q.idempotency_key ≡ result_of q b
recorded b (raised e c f n p k) h = absurd (cc)
recorded {q} b (refused a s p k) h = k.key ∙ ap (result_of q) (cc)
recorded {q} b (submitted c d f n p k) h = k.key ∙ ap (result_of q) (cc)

replay_lem :
    (q : Request) (y : Context) (v : World) (b : Booking)
    → get v.claims.records q.idempotency_key ≡ result_of q b
    → execute_confirmed_booking q y v ≡ (returned (ok b), v)
unfolding execute_confirmed_booking claim_record
replay_lem q y v b h = rw (h, eq_refl) refl

-- A request with a new key that returned a result returns the same result when it is made again, at
-- any later time and under any hook, and the second call changes nothing.
pub booking_replays :
    (q : Request) (x y : Context) (w : World) (b : Booking)
    → IsNew q w
    → (execute_confirmed_booking q x w).0 ≡ returned (ok b)
    → let later = (execute_confirmed_booking q x w).1 in
      execute_confirmed_booking q y later ≡ (returned (ok b), later)
booking_replays q x y w b n h =
    replay_lem q y (execute_confirmed_booking q x w).1 b (recorded b (answered q x w n (ok b) h) h)

failed-Closed :
    {q : Request} {x : Context} {w : World} {t : Step (Result Booking) × World} (e : Error)
    → Finished q x w t
    → t.0 ≡ returned (err e)
    → Closed q t.1 none w.committed w.committed
failed-Closed e (raised z c f n p k) h = k
failed-Closed e (refused a s p k) h = absurd (cc)
failed-Closed e (submitted c d f n p k) h = absurd (cc)

-- A call with a new key that raises leaves the data as they were last committed, and gives back its
-- key and its target, so that the request can be made again.
pub failure_leaves_nothing :
    (q : Request) (x : Context) (w : World) (e : Error)
    → IsNew q w
    → (execute_confirmed_booking q x w).0 ≡ returned (err e)
    → Closed q (execute_confirmed_booking q x w).1 none w.committed w.committed
failure_leaves_nothing q x w e n h = failed-Closed e (answered q x w n (err e) h) h

pub submitted-status :
    (q : Request) (c : Confirmation) (stamp : String)
    → (submitted_result q c stamp).status ≡ "submitted"
unfolding submitted_result
submitted-status q c stamp = refl

pub denied_ne_submitted : (s : String) → s ≡ "denied" → s ≡ "submitted" → ⊥
denied_ne_submitted s d e = ground (arith, eq_iff "denied" "submitted")

-- A denial with a new key leaves the data, working and committed, as they were.
denial-Closed :
    {q : Request} {x : Context} {w : World} {t : Step (Result Booking) × World} (b : Booking)
    → Finished q x w t
    → t.0 ≡ returned (ok b)
    → b.status ≡ "denied"
    → Closed q t.1 (result_of q b) w.working w.committed
denial-Closed b (raised e c f n p k) h s = absurd (cc)
denial-Closed {q} {w = w} {t = t} b (refused a z p k) h s =
    subst (λ (r : Booking). Closed q t.1 (result_of q r) w.working w.committed) (cc) k
denial-Closed {q} {x} b (submitted c d f n p k) h s =
    let e : b ≡ submitted_result q c x.stamp = cc in
    absurd (
      denied_ne_submitted b.status s
        (ap (λ (r : Booking). r.status) e ∙ submitted-status q c x.stamp))

-- A denial with a new key leaves the data, working and committed, as they were, records the denial
-- under the key and gives back the target.
pub denial_writes_nothing :
    (q : Request) (x : Context) (w : World) (b : Booking)
    → IsNew q w
    → (execute_confirmed_booking q x w).0 ≡ returned (ok b)
    → b.status ≡ "denied"
    → Closed q (execute_confirmed_booking q x w).1 (result_of q b) w.working w.committed
denial_writes_nothing q x w b n h s = denial-Closed b (answered q x w n (ok b) h) h s
