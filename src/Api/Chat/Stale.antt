-- ===== src/Api/Chat/Stale.antt =====
-- backend/app/api/routes/chat.py: a chat about another resource than the one of its session.
use meridian_logistics.Prelude.{
  String, ◌≡◌, refl, ◌≢◌, ap, inl, inr, true, Option, none, some, arith, ◌==◌, eq_iff, opt_eq,
  Bool-cases,
}
use meridian_logistics.Python.{Result, ok, Dict}
use meridian_logistics.Python.Json.{Json}
use meridian_logistics.Session.{ActiveResourceBinding, SessionState, get_session}
use meridian_logistics.Reads.Repository.{ReadRepository}
use meridian_logistics.Api.Jobs.{App}
use meridian_logistics.Api.Chat.Ownership.{reopened}
use meridian_logistics.Api.Actions.{TrustedIdentity, Caller}
use meridian_logistics.Api.Chat.{finish, build, Chat, refresh_payload, read_payload, post_chat}
use meridian_logistics.Api.Requests.{
  ChatRequest, Stamps, ResponseIds, trusted_chat_identity, admitted, in_context, normalize_resource,
  session_state_for_request, context_binding_state, same_resource,
}
use meridian_logistics.Api.Payloads.{read_result_for_request, build_read_result_payload}

-- Equal resources have equal parts.
opt_eq-eq : (a b : Option String) → opt_eq a b ≡ true → a ≡ b
opt_eq-eq none none h = refl
opt_eq-eq none (some b) h = absurd (cc h)
opt_eq-eq (some a) none h = absurd (cc h)
opt_eq-eq (some a) (some b) h = ap some ((eq_iff a b).0 h)

same_resource-eq : (a b : ActiveResourceBinding) → same_resource a b ≡ true → a ≡ b
unfolding same_resource
same_resource-eq a b h = ground (
  arith,
  h,
  eq_iff a.resource_type b.resource_type,
  opt_eq-eq a.resource_id b.resource_id,
  opt_eq-eq a.resource_fingerprint b.resource_fingerprint,
)

stale_binding :
    (s : SessionState) (a r : ActiveResourceBinding)
    → s.active_resource ≡ some a
    → a ≢ r
    → context_binding_state (some s) (some r) ≡ "stale"
unfolding context_binding_state
stale_binding s a r h n = elim (Bool-cases (same_resource a r)) [
  | inl e ↦ absurd (n (same_resource-eq a r e))
  | inr e ↦ rw (h, e) refl
]

-- The chat with another repository to read from.
abbrev pub with_reads : Chat → ReadRepository → Chat
with_reads c r = record c { tools = record c.tools { repository = r } }

module _ (c : Chat) (r : ReadRepository) (q : ChatRequest) (i : TrustedIdentity) (s : SessionState)
    (stale : (s.context_binding_state == "stale") ≡ true) where
  same_read :
      (job : Option String) (ids : ResponseIds)
      → build_read_result_payload (with_reads c r).tools q s i job ids
        ≡ build_read_result_payload c.tools q s i job ids
  unfolding build_read_result_payload read_result_for_request
  same_read job ids = rw stale refl

  same_read_payload : (t : Stamps) → read_payload (with_reads c r) q i s t ≡ read_payload c q i s t
  unfolding read_payload
  same_read_payload t = rw (same_read none t.answered) refl

  same_refresh_payload :
      (t : Stamps) → refresh_payload (with_reads c r) q i s t ≡ refresh_payload c q i s t
  unfolding refresh_payload
  same_refresh_payload t = simp same_read

-- A chat that names its own session, but another resource than the one that the session is bound to,
-- reads nothing: the session is opened as stale, and the answer or the error, and everything that is
-- written, are the same whatever the database holds.
pub stale_chat_reads_nothing :
    {E : Type 0} (c : Chat) (validate : Dict Json → Result E) (caller : Caller) (q : ChatRequest)
    (t : Stamps) (a : App) (i : TrustedIdentity) (k : String) (s : SessionState)
    (bound named : ActiveResourceBinding) (r : ReadRepository)
    → trusted_chat_identity caller ≡ ok i
    → q.session_id ≡ some k
    → admitted i q.session_access_token (get_session k a.session_store) ≡ ok s
    → s.active_resource ≡ some bound
    → normalize_resource q.current_resource ≡ some named
    → bound ≢ named
    → ((x : SessionState) × (session_state_for_request c.tools.prompts.lower q i t a ≡ (ok x, a))
        × (x.context_binding_state ≡ "stale"))
      × (post_chat (with_reads c r) validate caller q t a ≡ post_chat c validate caller q t a)
unfolding post_chat finish build
stale_chat_reads_nothing c validate caller q t a i k s bound named r trusted asked own b n apart = (
  (x, opened, stale),
  rw (trusted, opened, same_read_payload c r q i x is_so t, same_refresh_payload c r q i x is_so t)
      refl,
)
  where
    x : SessionState
    x = in_context c.tools.prompts.lower q (some s) s

    opened : session_state_for_request c.tools.prompts.lower q i t a ≡ (ok x, a)
    opened = reopened c validate caller q t a i trusted k s asked own

    stale : x.context_binding_state ≡ "stale"
    stale = unfold in_context in rw n (stale_binding s bound named b apart)

    is_so : (x.context_binding_state == "stale") ≡ true
    is_so = (eq_iff x.context_binding_state "stale").1 stale
