-- ===== src/Api/Requests.antt =====
-- backend/app/api/routes/chat.py: the caller and the request of a chat, and the session that it opens.
-- The identity of the caller is found as in Api/Actions.antt, whose code the route repeats.
use Prim.Native.String.{◌++◌}
use meridian_logistics.Prelude.{
  String, Bool, not, Option, none, some, [], ◌∷◌, ◌==◌, ◌&&◌, ◌||◌, opt_eq, if◌then◌else◌,
}
use meridian_logistics.Python.{http_error, Result, ok, err, and_then, Exec, pure, lift, ◌>>=◌}
use meridian_logistics.Session.{ActiveResourceBinding, SessionState, SessionStore, get_session}
use meridian_logistics.Session.Documents.{next_session_id}
use meridian_logistics.Autonomy.Service.{mentions_any}
use meridian_logistics.Api.Jobs.{App}
use meridian_logistics.Api.Actions.{
  TrustedIdentity, Caller, identity_from_request_state, trusted_or_seeded,
}

-- The helpers that it calls are repeated in both routes.
unfoldable pub trusted_chat_identity : Caller → Result TrustedIdentity
unfolding identity_from_request_state trusted_or_seeded
trusted_chat_identity c = and_then (identity_from_request_state c.trusted) (trusted_or_seeded c)

pub record ActiveResourcePayload : Type 0 where
  pub resource_type : String
  pub resource_id : String
  pub resource_fingerprint : Option String

-- The route reads no other field of the request.
pub record ChatRequest : Type 0 where
  pub prompt : String
  pub session_id : Option String
  pub session_access_token : Option String
  pub current_module : String
  pub current_resource : Option ActiveResourcePayload

-- What uuid4 and the clock give to one response.
pub record ResponseIds : Type 0 where
  pub response_id : String
  pub request_id : String
  pub trace_id : String
  pub response_generated_at : String

-- What the generators and the clock give to the statements of one request: the times in the order of
-- the writes.
pub record Stamps : Type 0 where
  pub day : String
  pub session_access_token : String
  pub job_id : String
  pub job_poll_token : String
  pub prepared : ResponseIds
  pub answered : ResponseIds
  pub saved : String
  pub created : String
  pub seeded : String
  pub annotated : String
  pub prepared_at : String
  pub saved_again : String
  pub bound : String
  pub started : String
  pub finalized : String

scope_of : Option ActiveResourceBinding → String → String
unfolding mentions_any
scope_of (some r) prompt_text = r.resource_type
scope_of none prompt_text =
    if mentions_any ("analytics" ∷ "ranking" ∷ "metric" ∷ "refresh" ∷ "background" ∷ "async" ∷ [])
      prompt_text
    then "analytics"
    else "office"

unfoldable pub scope_for_resource :
    (String → String) → Option ActiveResourceBinding → String → String
unfolding scope_of
scope_for_resource lower resource prompt = scope_of resource (lower prompt)

-- a or b, where a may be None
text_or_else : Option String → String → String
text_or_else none b = b
text_or_else (some a) b = if a == "" then b else a

unfoldable pub normalize_resource : Option ActiveResourcePayload → Option ActiveResourceBinding
unfolding text_or_else
normalize_resource none = none
normalize_resource (some r) = some (record {
  resource_type = r.resource_type;
  resource_id = some r.resource_id;
  resource_fingerprint =
      some (text_or_else r.resource_fingerprint (r.resource_type ++ ":" ++ r.resource_id ++ ":v1"));
})

unfoldable pub is_async_refresh_request : (String → String) → String → Bool
unfolding mentions_any
is_async_refresh_request lower prompt =
    let prompt_text : String = lower prompt in
    mentions_any ("background" ∷ []) prompt_text
    && (mentions_any ("refresh" ∷ []) prompt_text
        && (mentions_any ("analytics" ∷ []) prompt_text
            && mentions_any ("exception" ∷ "exceptions" ∷ []) prompt_text))

-- The guards on a session that is asked for.
unfoldable pub admitted :
    TrustedIdentity → Option String → Option SessionState → Result SessionState
admitted i token none = err (http_error 404 "unknown session")
admitted i token (some s) =
    if not (opt_eq token (some s.session_access_token))
    then err (http_error 404 "unknown session")
    else if not (s.broker_id == i.broker_id)
        || (not (s.office_id == i.office_id) || not (s.role == i.role))
    then err (http_error 404 "unknown session")
    else ok s

unfoldable pub existing_session :
    ChatRequest → TrustedIdentity → Option String → SessionStore → Result (Option SessionState)
unfolding admitted
existing_session q i none sessions = ok none
existing_session q i (some k) sessions =
    and_then (admitted i q.session_access_token (get_session k sessions)) λ s. ok (some s)

unfoldable pub same_resource : ActiveResourceBinding → ActiveResourceBinding → Bool
same_resource a b =
    a.resource_type == b.resource_type
    && (opt_eq a.resource_id b.resource_id && opt_eq a.resource_fingerprint b.resource_fingerprint)

unfoldable pub rebound : Option ActiveResourceBinding → ActiveResourceBinding → String
unfolding same_resource
rebound none r = "bound"
rebound (some a) r = if same_resource a r then "bound" else "stale"

bound_as : Option ActiveResourceBinding → String
bound_as none = "missing"
bound_as (some a) = "bound"

unfoldable pub context_binding_state : Option SessionState → Option ActiveResourceBinding → String
unfolding rebound bound_as
context_binding_state none none = "missing"
context_binding_state (some s) none = bound_as s.active_resource
context_binding_state none (some r) = "bound"
context_binding_state (some s) (some r) = rebound s.active_resource r

unfoldable pub active_resource_for :
    Option SessionState → Option ActiveResourceBinding → Option ActiveResourceBinding
active_resource_for (some s) none = s.active_resource
active_resource_for _ r = r

-- request_payload.session_id or next_session_id()
fresh_session_id : Option String → String → Exec App String
unfolding next_session_id
fresh_session_id none day a =
    let (id, s) = next_session_id day a.session_store in (ok id, record a { session_store = s })
fresh_session_id (some k) day a =
    let (id, s) = next_session_id day a.session_store in
    if k == "" then (ok id, record a { session_store = s }) else (ok k, a)

-- The session without what an existing one keeps.
blank_session : TrustedIdentity → String → String → SessionState
blank_session i id token = record {
  session_id = id;
  session_access_token = token;
  broker_id = i.broker_id;
  office_id = i.office_id;
  role = i.role;
  current_module = "";
  conversation_scope = "";
  context_binding_state = "";
  screen_sync_state = "";
  active_resource = none;
  last_response_id = none;
  last_job_id = none;
}

-- The fields that each request sets.
unfoldable pub in_context :
    (String → String) → ChatRequest → Option SessionState → SessionState → SessionState
unfolding scope_for_resource normalize_resource context_binding_state active_resource_for
in_context lower q existing s =
    let incoming : Option ActiveResourceBinding = normalize_resource q.current_resource in
    let active : Option ActiveResourceBinding = active_resource_for existing incoming in
    record s {
      current_module = q.current_module;
      conversation_scope = scope_for_resource lower active q.prompt;
      context_binding_state = context_binding_state existing incoming;
      screen_sync_state = "not_applicable";
      active_resource = active;
    }

unfoldable pub open_session :
    (String → String)
    → ChatRequest
    → TrustedIdentity
    → Stamps
    → Option SessionState
    → Exec App SessionState
unfolding in_context fresh_session_id blank_session
open_session lower q i t (some s) = pure (in_context lower q (some s) s)
open_session lower q i t none = do
  id ← fresh_session_id q.session_id t.day
  pure (in_context lower q none (blank_session i id t.session_access_token))

unfoldable pub session_state_for_request :
    (String → String) → ChatRequest → TrustedIdentity → Stamps → Exec App SessionState
unfolding open_session existing_session
session_state_for_request lower q i t a =
    (do
      existing ← lift (existing_session q i q.session_id a.session_store)
      open_session lower q i t existing)
      a

-- The second part of what _session_state_for_request returns.
abbrev pub is_stale : SessionState → Bool
is_stale s = s.context_binding_state == "stale"
