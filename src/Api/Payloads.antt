-- ===== src/Api/Payloads.antt =====
-- backend/app/api/routes/chat.py: the payloads of a chat, and how the job store keeps one.
use meridian_logistics.Prelude.{
  String, true, false, Option, none, some, List, [], ◌∷◌, if◌then◌else◌,
}
use meridian_logistics.Python.{Result, ok, and_then, Value, null, bool, other, Dict, or_default}
use meridian_logistics.Python.Json.{
  Reader, Json, leaf, array, nil, text_leaf, optional_text_leaf, text_array, text_of, truth_of,
}
use meridian_logistics.Jobs.Store.{Payload, JobState}
use meridian_logistics.Session.{ActiveResourceBinding, SessionState}
use meridian_logistics.Session.Documents.{resource_to_dict, resource_entry}
use meridian_logistics.Reads.Tools.{ReadTools, ReadResult, dict, items, message_block}
use meridian_logistics.Orchestrator.{execute_read_path}
use meridian_logistics.Api.Actions.{TrustedIdentity}
use meridian_logistics.Api.Requests.{ChatRequest, ResponseIds, is_stale}

-- The arguments of _base_payload beside the session.
pub record Content : Type 0 where
  pub intent_class : String
  pub status : String
  pub summary : String
  pub components : List Json
  pub tool_path : List String
  pub denial_reason_class : String
  pub job_id : Option String
  pub job_poll_token : Option String

unfoldable pub base_payload : SessionState → Content → ResponseIds → Dict Json
unfolding resource_entry text_array
base_payload s c ids =
    ("contract_version", text_leaf "0.1.0")
    ∷ ("response_id", text_leaf ids.response_id)
    ∷ ("request_id", text_leaf ids.request_id)
    ∷ ("trace_id", text_leaf ids.trace_id)
    ∷ ("session_id", text_leaf s.session_id)
    ∷ ("session_access_token", text_leaf s.session_access_token)
    ∷ ("conversation_scope", text_leaf s.conversation_scope)
    ∷ ("context_binding_state", text_leaf s.context_binding_state)
    ∷ ("screen_sync_state", text_leaf s.screen_sync_state)
    ∷ ("active_resource", resource_entry s.active_resource)
    ∷ ("job_id", optional_text_leaf c.job_id)
    ∷ ("job_poll_token", optional_text_leaf c.job_poll_token)
    ∷ ("intent_class", text_leaf c.intent_class)
    ∷ ("status", text_leaf c.status)
    ∷ ("summary", text_leaf c.summary)
    ∷ ("follow_up_prompt", leaf null)
    ∷ ("components", items c.components)
    ∷ ("actions", array nil)
    ∷ (
      "policy",
      dict (
          ("permission_context_applied", leaf (bool true))
          ∷ ("sensitive_fields_redacted", leaf (bool true))
          ∷ ("write_confirmation_required", leaf (bool false))
          ∷ ("denial_reason_class", text_leaf c.denial_reason_class)
          ∷ []),
    )
    ∷ (
      "audit",
      dict (
          ("actor_role", text_leaf s.role)
          ∷ ("office_scope", text_leaf s.office_id)
          ∷ ("tool_path", text_array c.tool_path)
          ∷ ("response_generated_at", text_leaf ids.response_generated_at)
          ∷ []),
    )
    ∷ []

abbrev stale_message : String
stale_message = "Shipment context changed. Refresh before taking further action."

unfoldable pub stale_result : ReadResult
unfolding message_block
stale_result = record {
  tool_name = "shipment_exception_lookup";
  summary = stale_message;
  components = message_block "msg-chat-read" stale_message "warning" ∷ [];
  denial_reason_class = some "stale_state";
}

resource_dict : Option ActiveResourceBinding → Option Json
unfolding resource_to_dict
resource_dict none = none
resource_dict (some r) = some (resource_to_dict r)

unfoldable pub read_result_for_request :
    ReadTools → ChatRequest → SessionState → TrustedIdentity → Result ReadResult
unfolding stale_result resource_dict execute_read_path
read_result_for_request tools q s i =
    if is_stale s
    then ok stale_result
    else execute_read_path tools q.prompt i.broker_id i.office_id i.role
        (resource_dict s.active_resource)

unfoldable pub read_content : ReadResult → Option String → Content
read_content r job_id = record {
  intent_class = "read_result";
  status = "success";
  summary = r.summary;
  components = r.components;
  tool_path = r.tool_name ∷ [];
  denial_reason_class = or_default r.denial_reason_class "none";
  job_id = job_id;
  job_poll_token = none;
}

unfoldable pub build_read_result_payload :
    ReadTools
    → ChatRequest
    → SessionState
    → TrustedIdentity
    → Option String
    → ResponseIds
    → Result (Dict Json)
unfolding read_result_for_request read_content base_payload
build_read_result_payload tools q s i job_id ids =
    and_then (read_result_for_request tools q s i)
      λ r. ok (base_payload s (read_content r job_id) ids)

abbrev pending_message : String
pending_message = "Background refresh started for the Memphis exception view."

unfoldable pub pending_content : JobState → Content
unfolding message_block
pending_content job = record {
  intent_class = "read_pending";
  status = "pending";
  summary = pending_message;
  components = message_block "msg-job-pending" pending_message "informational" ∷ [];
  tool_path = [];
  denial_reason_class = "none";
  job_id = some job.job_id;
  job_poll_token = job.job_poll_token;
}

-- A dict as the job store keeps it: lists and dicts are known by their texts.
flat : Reader → Json → Value
unfolding text_of truth_of
flat r (leaf v) = v
flat r j = other (text_of r j) (truth_of j)

unfoldable pub flat_payload : Reader → Dict Json → Payload
unfolding flat
flat_payload r [] = []
flat_payload r ((k, j) ∷ d) = (k, flat r j) ∷ flat_payload r d
