-- ===== src/Gateway/Booking/Attempt.antt =====
-- backend/app/gateway/booking_actions.py: what the body of `execute_confirmed_booking` can do, once its key and its target are claimed.
use meridian_logistics.Prelude.{
  ◌≡◌, refl, ◌≢◌, inl, inr, true, false, none, some, ◌∙◌, eq_refl, Option-cases,
}
use meridian_logistics.Python.{Error, Result, ok, err, Result-cases, Exec, get, put}
use meridian_logistics.Gateway.Idempotency.{Claims, in_progress, completed, complete_record}
use meridian_logistics.Gateway.Bookings.{
  Confirmation, Database, Booking, Request, Context, World, no_subject, request_fingerprint,
  is_stale, stale_denial, submitted_result, denied_result, confirmation_row, quote_row,
}
use meridian_logistics.Gateway.Booking.{finish, book, submit, attempt}

-- The claims once the record of the request is completed with a result.
abbrev pub done : Request → Booking → World → Claims Booking
done q b w = record w.claims {
  records =
      put w.claims.records q.idempotency_key
        (completed (record { request_fingerprint = request_fingerprint q; result = b }));
}

-- The key of the request is claimed and in progress.
abbrev pub IsClaimed : Request → World → Type 0
IsClaimed q w = get w.claims.records q.idempotency_key ≡ some (in_progress (request_fingerprint q))

-- The three ways in which the body ends: it raises before it commits, with the claims as they were,
-- for a confirmation that it found and did not deny as stale;
-- it denies and writes nothing but the result; or it books.
pub data Attempted (q : Request) (x : Context) (w : World) : Result Booking × World → Type 0 where
  failed :
      {t : Result Booking × World} (e : Error) (d : Database) (c : Confirmation)
      → confirmation_row q.confirmation_token w.working ≡ some c
      → is_stale q x c (quote_row c.quote_id w.working) ≢ ok true
      → t ≡ (err e, record w { working = d })
      → Attempted q x w t
  denied :
      {t : Result Booking × World} (b : Booking)
      → b.status ≡ "denied"
      → t ≡ (ok b, record w { claims = done q b w })
      → Attempted q x w t
  booked :
      {t : Result Booking × World} (c : Confirmation) (d : Database)
      → confirmation_row q.confirmation_token w.working ≡ some c
      → is_stale q x c (quote_row c.quote_id w.working) ≡ ok false
      → t ≡ (
        ok (submitted_result q c x.stamp),
        record w {
          working = book c.quote_id q.confirmation_token d;
          committed = book c.quote_id q.confirmation_token d;
          claims = done q (submitted_result q c x.stamp) w;
        },
      )
      → Attempted q x w t

module _ (q : Request) (x : Context) where
  finish_lem :
      (b : Booking) (w : World)
      → IsClaimed q w
      → finish q b w ≡ (ok b, record w { claims = done q b w })
  unfolding finish complete_record
  finish_lem b w h = rw (h, eq_refl) refl

  -- After the hook, the rest of the body books.
  submitted : (c : Confirmation) (w : World) (d : Database) → Result Booking × World
  submitted c w d = (
    ok (submitted_result q c x.stamp),
    record w {
      working = book c.quote_id q.confirmation_token d;
      committed = book c.quote_id q.confirmation_token d;
      claims = done q (submitted_result q c x.stamp) w;
    },
  )

  submit_unhooked :
      (c : Confirmation) (w : World) (h : IsClaimed q w)
      → x.before_submit_hook ≡ none
      → submit q x c w ≡ submitted c w w.working
  unfolding submit submitted finish complete_record
  submit_unhooked c w h k = rw (k, h, eq_refl) refl

  submit_hooked :
      (c : Confirmation) (w : World) (h : IsClaimed q w) (hook : Exec Database (Unit {0}))
      → x.before_submit_hook ≡ some hook
      → (hook w.working).0 ≡ ok tt
      → submit q x c w ≡ submitted c w (hook w.working).1
  unfolding submit submitted finish complete_record
  submit_hooked c w h hook k e = rw (k, e, h, eq_refl) refl

  submit_raised :
      (c : Confirmation) (w : World) (hook : Exec Database (Unit {0})) (z : Error)
      → x.before_submit_hook ≡ some hook
      → (hook w.working).0 ≡ err z
      → submit q x c w ≡ (err z, record w { working = (hook w.working).1 })
  unfolding submit
  submit_raised c w hook z k e = rw (k, e) refl

  submit-Attempted :
      (c : Confirmation) (w : World)
      → IsClaimed q w
      → confirmation_row q.confirmation_token w.working ≡ some c
      → is_stale q x c (quote_row c.quote_id w.working) ≡ ok false
      → Attempted q x w (submit q x c w)
  unfolding submitted
  submit-Attempted c w h e g = elim (Option-cases x.before_submit_hook) [
    | inl k ↦ booked c w.working e g (submit_unhooked c w h k)
    | inr (hook, k) ↦ elim (Result-cases (hook w.working).0) [
      | inl (t, r) ↦ booked c (hook w.working).1 e g (submit_hooked c w h hook k r)
      | inr (z, r) ↦ failed z (hook w.working).1 c e (λ p. cc) (submit_raised c w hook z k r)
    ]
  ]

  missing :
      (w : World)
      → IsClaimed q w
      → confirmation_row q.confirmation_token w.working ≡ none
      → Attempted q x w (attempt q x w)
  unfolding attempt finish complete_record denied_result
  missing w h e =
      denied
        (denied_result q q.confirmation_token "unsupported_or_missing_confirmation" no_subject none
          x.stamp)
        refl (rw (e, h, eq_refl) refl)

  undecided :
      (c : Confirmation) (w : World) (z : Error)
      → confirmation_row q.confirmation_token w.working ≡ some c
      → is_stale q x c (quote_row c.quote_id w.working) ≡ err z
      → attempt q x w ≡ (err z, w)
  unfolding attempt
  undecided c w z e g = rw (e, g) refl

  stale :
      (c : Confirmation) (w : World)
      → confirmation_row q.confirmation_token w.working ≡ some c
      → is_stale q x c (quote_row c.quote_id w.working) ≡ ok true
      → attempt q x w ≡ finish q (stale_denial q x c) w
  unfolding attempt
  stale c w e g = rw (e, g) refl

  fresh :
      (c : Confirmation) (w : World)
      → confirmation_row q.confirmation_token w.working ≡ some c
      → is_stale q x c (quote_row c.quote_id w.working) ≡ ok false
      → attempt q x w ≡ submit q x c w
  unfolding attempt
  fresh c w e g = rw (e, g) refl

  stale-status : (c : Confirmation) → (stale_denial q x c).status ≡ "denied"
  unfolding stale_denial denied_result
  stale-status c = refl

  -- The body ends in one of the three ways.
  pub attempt-Attempted : (w : World) → IsClaimed q w → Attempted q x w (attempt q x w)
  attempt-Attempted w h = elim (Option-cases (confirmation_row q.confirmation_token w.working)) [
    | inl e ↦ missing w h e
    | inr (c, e) ↦ elim (Result-cases (is_stale q x c (quote_row c.quote_id w.working))) [
      | inr (z, g) ↦ failed z w.working c e (λ p. cc) (undecided c w z e g)
      | inl (true, g) ↦
          denied (stale_denial q x c) (stale-status c)
            (stale c w e g ∙ finish_lem (stale_denial q x c) w h)
      | inl (false, g) ↦ rw (fresh c w e g) (submit-Attempted c w h e g)
    ]
  ]
