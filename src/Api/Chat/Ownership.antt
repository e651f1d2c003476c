-- ===== src/Api/Chat/Ownership.antt =====
-- backend/app/api/routes/chat.py: whose session a chat uses, and what a chat does to the sessions.
use meridian_logistics.Prelude.{
  String, ◌≡◌, refl, ap, ◌⊎◌, inl, inr, true, Option, none, some, arith, eq_iff, opt_eq, Bool-cases,
}
use meridian_logistics.Python.{Error, http_error, Result, ok, err, Result-cases, Dict}
use meridian_logistics.Python.Json.{Json}
use meridian_logistics.Session.{SessionState, get_session}
use meridian_logistics.Api.Jobs.{App}
use meridian_logistics.Api.Actions.{TrustedIdentity, Caller}
use meridian_logistics.Api.Requests.{
  trusted_chat_identity, ChatRequest, Stamps, admitted, existing_session, in_context, open_session,
  session_state_for_request, is_async_refresh_request,
}
use meridian_logistics.Api.Chat.{Chat, post_chat, refresh_payload, read_payload, finish}
use meridian_logistics.Api.Chat.Keeping.{
  SameOwner, Kept, get_session-id, >>=-Keeps, refresh-Keeps, read-Keeps, finish-Keeps,
}

-- The session `s` is asked for by its own broker, with its access token.
pub record IsOwnSession (i : TrustedIdentity) (token : Option String) (s : SessionState)
    : Type 0 where
  pub has_token : token ≡ some s.session_access_token
  pub broker : s.broker_id ≡ i.broker_id
  pub office : s.office_id ≡ i.office_id
  pub role : s.role ≡ i.role

opt_eq-some : (a : Option String) (t : String) → opt_eq a (some t) ≡ true → a ≡ some t
opt_eq-some none t h = cc
opt_eq-some (some a) t h = ap some ((eq_iff a t).0 h)

admitted-IsOwnSession :
    (i : TrustedIdentity) (token : Option String) (o : Option SessionState) (s : SessionState)
    → admitted i token o ≡ ok s
    → (o ≡ some s) × IsOwnSession i token s
unfolding admitted
admitted-IsOwnSession i token none s h = absurd (cc h)
admitted-IsOwnSession i token (some x) s h =
    elim (Bool-cases (opt_eq token (some x.session_access_token))) [
      | inl e ↦ ground (
        arith,
        h,
        e,
        opt_eq-some token x.session_access_token e,
        eq_iff x.broker_id i.broker_id,
        eq_iff x.office_id i.office_id,
        eq_iff x.role i.role,
      )
      | inr e ↦ absurd (cc (h, e))
    ]

-- Anything else is an unknown session.
admitted-else :
    (i : TrustedIdentity) (token : Option String) (o : Option SessionState) (e : Error)
    → admitted i token o ≡ err e
    → e ≡ http_error 404 "unknown session"
unfolding admitted
admitted-else i token none e h = cc
admitted-else i token (some x) e h = ground (arith, h)

module _ {E : Type 0} (c : Chat) (validate : Dict Json → Result E) (caller : Caller)
    (q : ChatRequest) (t : Stamps) (a : App) (i : TrustedIdentity)
    (trusted : trusted_chat_identity caller ≡ ok i) where
  reopened-SameOwner :
      (s : SessionState) → SameOwner s (in_context c.tools.prompts.lower q (some s) s)
  unfolding in_context
  reopened-SameOwner s = record {
    id = refl;
    token = refl;
    broker = refl;
    office = refl;
    role = refl;
  }

  pub reopened :
      (k : String) (s : SessionState)
      → q.session_id ≡ some k
      → admitted i q.session_access_token (get_session k a.session_store) ≡ ok s
      → session_state_for_request c.tools.prompts.lower q i t a
        ≡ (ok (in_context c.tools.prompts.lower q (some s) s), a)
  unfolding session_state_for_request existing_session open_session
  reopened k s e h = rw (e, h) refl

  refused :
      (k : String) (x : Error)
      → q.session_id ≡ some k
      → admitted i q.session_access_token (get_session k a.session_store) ≡ err x
      → post_chat c validate caller q t a ≡ (err x, a)
  unfolding post_chat session_state_for_request existing_session
  refused k x e h = rw (trusted, e, h) refl

  goes_on :
      (k : String) (s : SessionState)
      → q.session_id ≡ some k
      → admitted i q.session_access_token (get_session k a.session_store) ≡ ok s
      → s.session_id ≡ k
      → Kept k a.session_store s a.session_store
      → Kept k a.session_store s (post_chat c validate caller q t a).1.session_store
  unfolding post_chat
  goes_on k s e h at p =
      let x : SessionState = in_context c.tools.prompts.lower q (some s) s in
      rw (trusted, reopened k s e h)
        (elim (Bool-cases (is_async_refresh_request c.tools.prompts.lower q.prompt)) [
          | inl f ↦ rw f (
              >>=-Keeps {B = E} (Kept k a.session_store s) (refresh_payload c q i x t)
                (λ payload. finish c validate x payload t)
                (refresh-Keeps k a.session_store s at c q i x t (reopened-SameOwner s))
                (λ payload.
                  finish-Keeps k a.session_store s at c validate x payload t (reopened-SameOwner s))
                a p)
          | inr f ↦ rw f (
              >>=-Keeps {B = E} (Kept k a.session_store s) (read_payload c q i x t)
                (λ payload. finish c validate x payload t)
                (read-Keeps k a.session_store s at c q i x t (reopened-SameOwner s))
                (λ payload.
                  finish-Keeps k a.session_store s at c validate x payload t (reopened-SameOwner s))
                a p)
        ])

-- Why a chat is refused before it does anything: the caller is not trusted, or the session is not
-- known to be the caller's.
abbrev pub IsRefusal : Caller → Error → Type 0
IsRefusal caller e = (trusted_chat_identity caller ≡ err e) ⊎ (e ≡ http_error 404 "unknown session")

-- A chat that names a session is either refused, with the error of the caller's identity or as an
-- unknown session, and changes nothing at all; or the session is there, is named with its access token
-- by its own broker in its own office and role, and then, whatever the chat answers or raises, the
-- session stays with its owner and token, and no other session changes.
pub post_chat-IsOwnSession :
    {E : Type 0} (c : Chat) (validate : Dict Json → Result E) (caller : Caller) (q : ChatRequest)
    (t : Stamps) (a : App) (k : String)
    → q.session_id ≡ some k
    → ((e : Error) × IsRefusal caller e × (post_chat c validate caller q t a ≡ (err e, a)))
      ⊎ ((i : TrustedIdentity) × (s : SessionState) × (trusted_chat_identity caller ≡ ok i)
          × (get_session k a.session_store ≡ some s)
          × IsOwnSession i q.session_access_token s
          × Kept k a.session_store s (post_chat c validate caller q t a).1.session_store)
post_chat-IsOwnSession c validate caller q t a k e =
    elim (Result-cases (trusted_chat_identity caller)) [
      | inr (x, h) ↦ inl (x, inl h, unfold post_chat in rw h refl)
      | inl (i, h) ↦
          elim (Result-cases (admitted i q.session_access_token (get_session k a.session_store))) [
            | inr (x, f) ↦ inl (
              x,
              inr (admitted-else i q.session_access_token _ x f),
              refused c validate caller q t a i h k x e f,
            )
            | inl (s, f) ↦
                let own = admitted-IsOwnSession i q.session_access_token _ s f in
                inr (
                  i,
                  s,
                  h,
                  own.0,
                  own.1,
                  goes_on c validate caller q t a i h k s e f
                      (get_session-id k a.session_store s own.0)
                      (record {
                        others = λ j n. refl;
                        now = s;
                        here = own.0;
                        owner = record {
                          id = refl;
                          token = refl;
                          broker = refl;
                          office = refl;
                          role = refl;
                        };
                      }),
                )
          ]
    ]
