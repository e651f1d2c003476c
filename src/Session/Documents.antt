-- ===== src/Session/Documents.antt =====
-- backend/app/session: the summary of a session, and the text of a new session's id.
use Prim.Native.String.{◌++◌}
use meridian_logistics.Prelude.{ℕ, ltb, String, Option, none, some, [], ◌∷◌, if◌then◌else◌}
use meridian_logistics.Python.{Dict, decimal, null}
use meridian_logistics.Python.Json.{Json, leaf, object, field, end, text_leaf, optional_text_leaf}
use meridian_logistics.Session.{ActiveResourceBinding, SessionState, SessionStore, next_index}

unfoldable pub resource_to_dict : ActiveResourceBinding → Json
resource_to_dict r = object (
    field "resource_type" (text_leaf r.resource_type) (
      field "resource_id" (optional_text_leaf r.resource_id)
        (field "resource_fingerprint" (optional_text_leaf r.resource_fingerprint) end)))

unfoldable pub resource_entry : Option ActiveResourceBinding → Json
unfolding resource_to_dict
resource_entry none = leaf null
resource_entry (some r) = resource_to_dict r

unfoldable pub to_summary : SessionState → Dict Json
unfolding resource_entry
to_summary s =
    ("session_id", text_leaf s.session_id)
    ∷ ("broker_id", text_leaf s.broker_id)
    ∷ ("office_id", text_leaf s.office_id)
    ∷ ("role", text_leaf s.role)
    ∷ ("current_module", text_leaf s.current_module)
    ∷ ("conversation_scope", text_leaf s.conversation_scope)
    ∷ ("context_binding_state", text_leaf s.context_binding_state)
    ∷ ("screen_sync_state", text_leaf s.screen_sync_state)
    ∷ ("active_resource", resource_entry s.active_resource)
    ∷ ("last_response_id", optional_text_leaf s.last_response_id)
    ∷ ("last_job_id", optional_text_leaf s.last_job_id)
    ∷ []

-- f"{n:04d}"
padded : ℕ → String
unfolding decimal
padded n =
    if ltb n 10
    then "000" ++ decimal n
    else if ltb n 100
    then "00" ++ decimal n
    else if ltb n 1000
    then "0" ++ decimal n
    else decimal n

-- `day` is the date of the clock.
unfoldable pub next_session_id : String → SessionStore → String × SessionStore
unfolding next_index padded
next_session_id day s = let (n, s') = next_index day s in ("chat_s_" ++ day ++ "_" ++ padded n, s')
