-- ===== src/Gateway/Booking/Outcome.antt =====
-- backend/app/gateway/booking_actions.py: what a call of `execute_confirmed_booking` with a new idempotency key leaves.
use meridian_logistics.Prelude.{
  String, ◌≡◌, refl, ◌≢◌, ◌⊎◌, inl, inr, true, false, Option, none, some, ◌==◌, ap, ◌∙◌, eq_iff,
  eq_refl, Bool-cases, Option-cases,
}
use meridian_logistics.Python.{Error, Result, ok, err, Dict, get, put, pop}
use meridian_logistics.Python.Laws.{get-put, get-pop}
use meridian_logistics.Gateway.Idempotency.{
  Claims, Entry, in_progress, completed, Step, blocked, returned, claim_record,
  claim_target_execution, abandon_record, release_target_execution,
}
use meridian_logistics.Gateway.Bookings.{
  Confirmation, Database, Booking, Request, Context, World, request_fingerprint, is_stale,
  submitted_result, confirmation_row, quote_row,
}
use meridian_logistics.Gateway.Booking.{
  book, attempt, recover, release, guarded, with_target, execute_confirmed_booking,
}
use meridian_logistics.Gateway.Booking.Attempt.{
  Attempted, failed, denied, booked, IsClaimed, done, attempt-Attempted,
}

-- The world once the request has claimed its key and its target.
abbrev pub with_claims : World → Claims Booking → World
with_claims w s = record w { claims = s }

abbrev pub opened : Request → World → World
opened q w =
    let s = (claim_record q.idempotency_key (request_fingerprint q) w.claims).1 in
    with_claims w (claim_target_execution q.confirmation_token q.idempotency_key s).1

abbrev Holds : Request → World → Type 0
Holds q w = get w.claims.targets q.confirmation_token ≡ some q.idempotency_key

-- The call has given back its target, and what its key and the data are now.
pub record Closed (q : Request) (t : World) (entry : Option (Entry Booking)) (d c : Database)
    : Type 0 where
  pub key : get t.claims.records q.idempotency_key ≡ entry
  pub target : get t.claims.targets q.confirmation_token ≡ none
  pub working : t.working ≡ d
  pub committed : t.committed ≡ c

abbrev pub result_of : Request → Booking → Option (Entry Booking)
result_of q b =
    some (completed (record { request_fingerprint = request_fingerprint q; result = b }))

pub data Finished (q : Request) (x : Context) (w : World)
    : Step (Result Booking) × World → Type 0 where
  raised :
      {t : Step (Result Booking) × World} (e : Error) (c : Confirmation)
      → confirmation_row q.confirmation_token w.working ≡ some c
      → is_stale q x c (quote_row c.quote_id w.working) ≢ ok true
      → t.0 ≡ returned (err e)
      → Closed q t.1 none w.committed w.committed
      → Finished q x w t
  refused :
      {t : Step (Result Booking) × World} (b : Booking)
      → b.status ≡ "denied"
      → t.0 ≡ returned (ok b)
      → Closed q t.1 (result_of q b) w.working w.committed
      → Finished q x w t
  submitted :
      {t : Step (Result Booking) × World} (c : Confirmation) (d : Database)
      → confirmation_row q.confirmation_token w.working ≡ some c
      → is_stale q x c (quote_row c.quote_id w.working) ≡ ok false
      → t.0 ≡ returned (ok (submitted_result q c x.stamp))
      → (let d' = book c.quote_id q.confirmation_token d in
          Closed q t.1 (result_of q (submitted_result q c x.stamp)) d' d')
      → Finished q x w t

module _ (q : Request) (x : Context) where
  release-Closed :
      (w : World)
      → Holds q w
      → Closed q (release q w) (get w.claims.records q.idempotency_key) w.working w.committed
  unfolding release release_target_execution
  release-Closed w h = record {
    key = rw (h, eq_refl) refl;
    target =
        rw (h, eq_refl)
          (get-pop w.claims.targets q.confirmation_token q.confirmation_token ∙ rw eq_refl refl);
    working = refl;
    committed = refl;
  }

  popped : (w : World) → get (pop w.claims.records q.idempotency_key) q.idempotency_key ≡ none
  popped w = get-pop w.claims.records q.idempotency_key q.idempotency_key ∙ rw eq_refl refl

  recover_ok : (b : Booking) (w : World) → recover q (ok b) w ≡ w
  unfolding recover
  recover_ok b w = refl

  abandoned :
      (w : World)
      → IsClaimed q w
      → abandon_record q.idempotency_key (request_fingerprint q) w.claims
        ≡ record w.claims { records = pop w.claims.records q.idempotency_key }
  unfolding abandon_record
  abandoned w c = rw (c, eq_refl) refl

  recover_err :
      (e : Error) (w : World)
      → IsClaimed q w
      → recover q (err e) w ≡ record w {
        working = w.committed;
        claims = record w.claims { records = pop w.claims.records q.idempotency_key };
      }
  unfolding recover
  recover_err e w c = rw (abandoned w c) refl

  recover-Closed :
      (e : Error) (w : World)
      → Holds q w
      → IsClaimed q w
      → Closed q (release q (recover q (err e) w)) none w.committed w.committed
  recover-Closed e w h c = rw (recover_err e w c) (
      let v : World = record w {
        working = w.committed;
        claims = record w.claims { records = pop w.claims.records q.idempotency_key };
      } in
      let r = release-Closed v h in
      record {
        key = r.key ∙ popped w;
        target = r.target;
        working = r.working;
        committed = r.committed;
      })

  done-key : (b : Booking) (w : World) → get (done q b w).records q.idempotency_key ≡ result_of q b
  done-key b w =
      get-put w.claims.records q.idempotency_key
        (completed (record { request_fingerprint = request_fingerprint q; result = b }))
        q.idempotency_key
      ∙ rw eq_refl refl

  done-Closed :
      (b : Booking) (w v : World)
      → Holds q w
      → v.claims ≡ done q b w
      → Closed q (release q v) (result_of q b) v.working v.committed
  done-Closed b w v h e =
      let r =
        release-Closed v (ap (λ (s : Claims Booking). get s.targets q.confirmation_token) e ∙ h) in
      record {
        key = r.key ∙ ap (λ (s : Claims Booking). get s.records q.idempotency_key) e ∙ done-key b w;
        target = r.target;
        working = r.working;
        committed = r.committed;
      }

  guarded_lem :
      (w : World) (r : Result Booking) (v : World)
      → attempt q x w ≡ (r, v)
      → guarded q x w ≡ (returned r, release q (recover q r v))
  unfolding guarded
  guarded_lem w r v h = rw h refl

  closing :
      {t : Result Booking × World} (w : World)
      → Holds q w
      → IsClaimed q w
      → attempt q x w ≡ t
      → Attempted q x w t
      → Finished q x w (guarded q x w)
  closing w h c e (failed z d k f n p) =
      rw (guarded_lem w (err z) (record w { working = d }) (e ∙ p))
        (raised z k f n refl (recover-Closed z (record w { working = d }) h c))
  closing w h c e (denied b s p) =
      rw (guarded_lem w (ok b) (with_claims w (done q b w)) (e ∙ p))
        (rw recover_ok (refused b s refl (done-Closed b w (with_claims w (done q b w)) h refl)))
  closing w h c e (booked k d f n p) =
      let b = submitted_result q k x.stamp in
      let d' = book k.quote_id q.confirmation_token d in
      let v : World = record { working = d'; committed = d'; claims = done q b w } in
      rw (guarded_lem w (ok b) v (e ∙ p))
        (rw recover_ok (submitted k d f n refl (done-Closed b w v h refl)))

  new_claims : World → Claims Booking
  new_claims w = record w.claims {
    records = put w.claims.records q.idempotency_key (in_progress (request_fingerprint q));
  }

  execute_lem :
      (w : World)
      → get w.claims.records q.idempotency_key ≡ none
      → execute_confirmed_booking q x w
        ≡ with_target q x
            (with_claims w (new_claims w))
            (claim_target_execution q.confirmation_token q.idempotency_key (new_claims w))
  unfolding execute_confirmed_booking claim_record new_claims
  execute_lem w h = rw h refl

  new_claims-key :
      (w : World)
      → get (new_claims w).records q.idempotency_key ≡ some (in_progress (request_fingerprint q))
  unfolding new_claims
  new_claims-key w =
      get-put w.claims.records q.idempotency_key (in_progress (request_fingerprint q))
        q.idempotency_key
      ∙ rw eq_refl refl

  -- The world of a call that has its key and its target.
  entered : World → Dict String → World
  unfolding new_claims
  entered w targets = with_claims w (record (new_claims w) { targets = targets })

  with_target-none :
      (w : World)
      → get w.claims.targets q.confirmation_token ≡ none
      → with_target q x
          (with_claims w (new_claims w))
          (claim_target_execution q.confirmation_token q.idempotency_key (new_claims w))
        ≡ guarded q x (entered w (put w.claims.targets q.confirmation_token q.idempotency_key))
  unfolding with_target claim_target_execution new_claims entered
  with_target-none w h = rw h refl

  with_target-own :
      (w : World)
      → get w.claims.targets q.confirmation_token ≡ some q.idempotency_key
      → with_target q x
          (with_claims w (new_claims w))
          (claim_target_execution q.confirmation_token q.idempotency_key (new_claims w))
        ≡ guarded q x (entered w w.claims.targets)
  unfolding with_target claim_target_execution new_claims entered
  with_target-own w h = rw (h, eq_refl) refl

  with_target-other :
      (w : World) (by : String)
      → get w.claims.targets q.confirmation_token ≡ some by
      → (by == q.idempotency_key) ≡ false
      → (with_target q x
          (with_claims w (new_claims w))
          (claim_target_execution q.confirmation_token q.idempotency_key (new_claims w))).0
        ≡ blocked
  unfolding with_target claim_target_execution new_claims
  with_target-other w by h n = rw (h, n) refl

  same_data :
      (w : World) (targets : Dict String) {t : Step (Result Booking) × World}
      → Finished q x (entered w targets) t
      → Finished q x w t
  unfolding entered
  same_data w targets (raised e k f n p c) = raised e k f n p c
  same_data w targets (refused b s p c) = refused b s p c
  same_data w targets (submitted c d f g p n) = submitted c d f g p n

  entered-Finished :
      (w : World) (targets : Dict String)
      → get targets q.confirmation_token ≡ some q.idempotency_key
      → Finished q x w (guarded q x (entered w targets))
  entered-Finished w targets h = same_data w targets (
      closing (entered w targets) (unfold entered in h) (unfold entered in new_claims-key w) refl
        (attempt-Attempted q x (entered w targets) (unfold entered in new_claims-key w)))

  -- With a new key and a free target the call ends, in one of the three ways.
  pub execute_ends :
      (w : World)
      → get w.claims.records q.idempotency_key ≡ none
      → get w.claims.targets q.confirmation_token ≡ none
      → Finished q x w (execute_confirmed_booking q x w)
  execute_ends w h f =
      rw (execute_lem w h, with_target-none w f)
        (entered-Finished w (put w.claims.targets q.confirmation_token q.idempotency_key) (
          get-put w.claims.targets q.confirmation_token q.idempotency_key q.confirmation_token
          ∙ rw eq_refl refl))

  -- With a new key a call waits for its target, or it ends in one of the three ways.
  pub execute-Finished :
      (w : World)
      → get w.claims.records q.idempotency_key ≡ none
      → ((execute_confirmed_booking q x w).0 ≡ blocked)
        ⊎ Finished q x w (execute_confirmed_booking q x w)
  execute-Finished w h = elim (Option-cases (get w.claims.targets q.confirmation_token)) [
    | inl f ↦ inr (execute_ends w h f)
    | inr (by, f) ↦ elim (Bool-cases (by == q.idempotency_key)) [
      | inl e ↦ inr (
          rw (execute_lem w h, with_target-own w (f ∙ ap some ((eq_iff by q.idempotency_key).0 e)))
            (entered-Finished w w.claims.targets (f ∙ ap some ((eq_iff by q.idempotency_key).0 e))))
      | inr e ↦ inl (
          ap (λ (t : Step (Result Booking) × World). t.0) (execute_lem w h)
          ∙ with_target-other w by f e)
    ]
  ]
