-- ===== src/Responses.antt =====
-- backend/app/responses/builder.py: the envelope of a response. The validator of the contract is a
-- parameter.
pub mod Laws
mod Examples
use meridian_logistics.Prelude.{
  String, Bool, true, false, not, Option, none, some, [], ◌∷◌, if◌then◌else◌,
}
use meridian_logistics.Python.{value_error, Result, ok, err, null, Dict, get, put}
use meridian_logistics.Python.Json.{
  Reader, Json, leaf, array, object, nil, items_of, fields_of, text_leaf, text_of, truth_of,
}

set_missing : Option Json → Dict Json → String → Json → Dict Json
unfolding put
set_missing none d k v = put d k v
set_missing (some w) d k v = d

-- d.setdefault(k, v)
unfoldable pub set_default : Dict Json → String → Json → Dict Json
unfolding set_missing get
set_default d k v = set_missing (get d k) d k v

unfoldable pub with_defaults : Dict Json → Dict Json
unfolding set_default
with_defaults d =
    set_default (set_default (set_default d "actions" (array nil)) "follow_up_prompt" (leaf null))
      "trace_id" (leaf null)

-- bool(d.get(k))
unfoldable pub is_given : Option Json → Bool
unfolding truth_of
is_given none = false
is_given (some j) = truth_of j

-- str(envelope.get("summary", ""))
summary_of : Reader → Option Json → String
unfolding text_of
summary_of r none = ""
summary_of r (some j) = text_of r j

default_components : String → Json
unfolding items_of fields_of
default_components body = array (
    items_of (
      object (
        fields_of (
          ("component_id", text_leaf "summary-message")
          ∷ ("component_type", text_leaf "message_block")
          ∷ ("body", text_leaf body)
          ∷ ("tone", text_leaf "informational")
          ∷ []))
      ∷ []))

unfoldable pub with_components : Reader → Dict Json → Dict Json
unfolding is_given summary_of default_components put get
with_components r d =
    if not (is_given (get d "components"))
    then put d "components" (default_components (summary_of r (get d "summary")))
    else d

-- `is_valid` says that the validator finds no error.
unfoldable pub build_response_envelope :
    Reader → (Dict Json → Bool) → Dict Json → Result (Dict Json)
unfolding with_components with_defaults
build_response_envelope r is_valid payload =
    let envelope : Dict Json = with_components r (with_defaults payload) in
    if is_valid envelope then ok envelope else err (value_error "schema validation failed")
