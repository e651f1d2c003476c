-- ===== src/Api/Actions/Authority.antt =====
-- backend/app/api/routes/actions.py: what the guards of the confirmation make sure of.
use meridian_logistics.Prelude.{
  String, ◌≡◌, refl, ◌⊎◌, inl, inr, false, Option, none, some, List, [], ◌∷◌, eq_refl, ◌==◌, ◌||◌,
  arith, ap, ◌∙◌, sym, eq_iff, Bool-cases, subst,
}
use meridian_logistics.Python.{Error, Result, ok, err, Result-cases}
use meridian_logistics.Python.Laws.{and_then-eq-ok}
use meridian_logistics.Gateway.Idempotency.{Step, returned}
use meridian_logistics.Gateway.Bookings.{Booking, Context, World}
use meridian_logistics.Gateway.Booking.{refusal, execute_write_gateway, execute_confirmed_booking}
use meridian_logistics.Session.{SessionState, SessionStore, get_session}
use meridian_logistics.Api.Actions.{
  Broker, is_there, brokers_for_office, identity_from_request_state, TrustedIdentity, Caller,
  trusted_action_identity, trusted_or_seeded, seeded, validated_trusted_identity, ConfirmRequest,
  required, action_of, own_session, Confirmation, confirmation, guards, post_confirm_action,
  confirmed, step_map,
}

validated_role :
    (c : Caller) (i j : TrustedIdentity)
    → validated_trusted_identity c.lower c.brokers i ≡ ok j
    → j.role ≡ "broker"
unfolding validated_trusted_identity
validated_role c i j h = ground (arith, h, eq_iff i.role "broker")

required_given :
    (d : String) (o : Option String) (s : String)
    → required d o ≡ ok s
    → (o ≡ some s) × ((s == "") ≡ false)
unfolding required
required_given d none s h = absurd (cc h)
required_given d (some t) s h = ground (arith, h)

action_given :
    (o : Option String) (s : String) → action_of o ≡ ok s → s ≡ "booking_create_confirmed"
unfolding action_of
action_given none s h = absurd (cc h)
action_given (some t) s h = ground (arith, h, eq_iff t "booking_create_confirmed")

own_given :
    (i : TrustedIdentity) (t : String) (o : Option SessionState) (s : SessionState)
    → own_session i t o ≡ ok s
    → (o ≡ some s)
      × (s.session_access_token ≡ t)
      × (s.broker_id ≡ i.broker_id)
      × (s.office_id ≡ i.office_id)
unfolding own_session
own_given i t none s h = absurd (cc h)
own_given i t (some x) s h = ground (
  arith,
  h,
  eq_iff x.session_access_token t,
  eq_iff x.broker_id i.broker_id,
  eq_iff x.office_id i.office_id,
)

seeded_role :
    (c : Caller) (t : List Broker) (j : TrustedIdentity) → seeded c t ≡ ok j → j.role ≡ "broker"
unfolding seeded
seeded_role c [] j h = absurd (cc h)
seeded_role c (b ∷ []) j h =
    validated_role c (record { broker_id = b.broker_id; office_id = b.office_id; role = b.role }) j
      h
seeded_role c (b ∷ x ∷ t) j h = absurd (cc h)

trusted_role :
    (c : Caller) (o : Option TrustedIdentity) (j : TrustedIdentity)
    → trusted_or_seeded c o ≡ ok j
    → j.role ≡ "broker"
unfolding trusted_or_seeded seeded
trusted_role c (some i) j h = validated_role c i j h
trusted_role c none j h =
    elim (Bool-cases
      (is_there c.header_broker_id || (is_there c.header_office_id || is_there c.header_role))) [
        | inl e ↦ absurd (cc (h, e))
        | inr e ↦ elim (Bool-cases c.is_dev) [
          | inl d ↦
              seeded_role c (brokers_for_office c.lower c.brokers c.default_office_id "broker") j
                (sym (rw (e, d) refl) ∙ h)
          | inr d ↦ absurd (cc (h, e, d))
        ]
      ]

identity_role :
    (c : Caller) (j : TrustedIdentity) → trusted_action_identity c ≡ ok j → j.role ≡ "broker"
unfolding trusted_action_identity
identity_role c j h =
    and_then-eq-ok (identity_from_request_state c.trusted) _ h (λ o h1 r. trusted_role c o j r)

-- What holds of a confirmation that the guards pass on: the session is the one that is asked for,
-- with its access token, and the booking is asked for by a broker of the service whose own session
-- it is.
pub record IsOwn (c : Caller) (q : ConfirmRequest) (sessions : SessionStore) (k : Confirmation)
    : Type 0 where
  pub identity : TrustedIdentity
  pub is_trusted : trusted_action_identity c ≡ ok identity
  pub is_broker : identity.role ≡ "broker"
  pub session_id : String
  pub found : get_session session_id sessions ≡ some k.session
  pub asked : q.session_id ≡ some session_id
  pub has_access : q.session_access_token ≡ some k.session.session_access_token
  pub broker :
      (k.session.broker_id ≡ identity.broker_id) × (k.request.actor_broker_id ≡ identity.broker_id)
  pub office :
      (k.session.office_id ≡ identity.office_id) × (k.request.office_id ≡ identity.office_id)
  pub unrefused : refusal k.request k.permission ≡ none

IsOwn-confirmation :
    (c : Caller) (q : ConfirmRequest) (sessions : SessionStore) (i : TrustedIdentity)
    (action token key sid access : String) (s : SessionState)
    → trusted_action_identity c ≡ ok i
    → action_of q.action_name ≡ ok action
    → required "confirmation_token is required" q.confirmation_token ≡ ok token
    → required "idempotency_key is required" q.idempotency_key ≡ ok key
    → required "session_id is required" q.session_id ≡ ok sid
    → required "session_access_token is required" q.session_access_token ≡ ok access
    → own_session i access (get_session sid sessions) ≡ ok s
    → IsOwn c q sessions (confirmation i s action token key)
IsOwn-confirmation c q sessions i action token key sid access s h1 h2 h3 h4 h5 h6 h7 = record {
  identity = i;
  is_trusted = h1;
  is_broker = role;
  session_id = sid;
  found = own.0;
  asked = (required_given _ q.session_id sid h5).0;
  has_access = (required_given _ q.session_access_token access h6).0 ∙ ap some (sym own.1);
  broker = (own.2, refl);
  office = (own.3, refl);
  unrefused =
      unfold refusal in
      rw
        (
          action_given q.action_name action h2,
          role,
          eq_refl i.office_id,
          eq_refl i.broker_id,
          (required_given _ q.confirmation_token token h3).1,
          (required_given _ q.idempotency_key key h4).1,
        )
        refl;
}
  where
    own :
        (get_session sid sessions ≡ some s)
        × (s.session_access_token ≡ access)
        × (s.broker_id ≡ i.broker_id)
        × (s.office_id ≡ i.office_id)
    own = own_given i access (get_session sid sessions) s h7

    role : i.role ≡ "broker"
    role = identity_role c i h1

passes :
    (spaced : String → String) (x : Context) (w : World) (k : Confirmation)
    → refusal k.request k.permission ≡ none
    → confirmed spaced x w (ok k) ≡ (
      step_map spaced k.session (execute_confirmed_booking k.request x w).0,
      (execute_confirmed_booking k.request x w).1,
    )
unfolding confirmed
passes spaced x w k h =
    ap (λ (t : Step (Result Booking) × World). (step_map spaced k.session t.0, t.1)) admitted
  where
    admitted :
        execute_write_gateway k.request k.permission x w ≡ execute_confirmed_booking k.request x w
    admitted = unfold execute_write_gateway in rw (h, execute_write_gateway) refl

guards-IsOwn :
    (c : Caller) (q : ConfirmRequest) (sessions : SessionStore) (k : Confirmation)
    → guards c q sessions ≡ ok k
    → IsOwn c q sessions k
unfolding guards
guards-IsOwn c q sessions k h = and_then-eq-ok (trusted_action_identity c) _ h λ i h1 r1.
    and_then-eq-ok (action_of q.action_name) _ r1 λ action h2 r2.
      and_then-eq-ok (required "confirmation_token is required" q.confirmation_token) _ r2
        λ token h3 r3.
          and_then-eq-ok (required "idempotency_key is required" q.idempotency_key) _ r3
            λ key h4 r4.
              and_then-eq-ok (required "session_id is required" q.session_id) _ r4 λ sid h5 r5.
                and_then-eq-ok (required "session_access_token is required" q.session_access_token)
                  _ r5
                  λ access h6 r6.
                    and_then-eq-ok (own_session i access (get_session sid sessions)) _ r6 λ s h7 r7.
                      subst (IsOwn c q sessions) {x = confirmation i s action token key} {y = k}
                        (cc r7)
                        (IsOwn-confirmation c q sessions i action token key sid access s h1 h2 h3 h4
                          h5 h6 h7)

-- A confirmation is either refused by the guards of the route, and nothing changes, or it is the
-- broker's own, and then the gateway does not refuse it: what is answered is the booking's result,
-- and what changes is what the booking changes.
pub confirmation-IsOwn :
    (spaced : String → String) (c : Caller) (q : ConfirmRequest) (x : Context)
    (sessions : SessionStore) (w : World)
    → ((e : Error) × (post_confirm_action spaced c q x sessions w ≡ (returned (err e), w)))
      ⊎ ((k : Confirmation) × IsOwn c q sessions k
          × (post_confirm_action spaced c q x sessions w ≡ (
            step_map spaced k.session (execute_confirmed_booking k.request x w).0,
            (execute_confirmed_booking k.request x w).1,
          )))
unfolding post_confirm_action
confirmation-IsOwn spaced c q x sessions w = elim (Result-cases (guards c q sessions)) [
  | inr (e, h) ↦ inl (e, rw h refl)
  | inl (k, h) ↦
      let own = guards-IsOwn c q sessions k h in
      inr (k, own, rw h (passes spaced x w k own.unrefused))
]
