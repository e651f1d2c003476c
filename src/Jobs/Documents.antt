-- ===== src/Jobs/Documents.antt =====
-- backend/app/jobs/models.py: the dict forms of a job, and a job with another status.
use meridian_logistics.Prelude.{
  String, ◌≡◌, refl, Bool, true, false, Option, none, some, [], ◌∷◌, ◌++◌, map, ◌==◌, if◌then◌else◌,
  ◌∙◌,
}
use meridian_logistics.Python.{
  Result, ok, err, invalid_transition, and_then, Value, bool, Dict, get, put, pop,
}
use meridian_logistics.Python.Json.{Json, leaf, object, fields_of, text_leaf, optional_text_leaf}
use meridian_logistics.Python.Laws.{get-put, get-pop}
use meridian_logistics.Jobs.Status.{JobStatus, value, validate_job_transition}
use meridian_logistics.Jobs.Store.{Payload, JobState}
use meridian_logistics.Jobs.Methods.{text_or}

is_allowed : Result (Unit {0}) → Result Bool
is_allowed (ok u) = ok true
is_allowed (err invalid_transition) = ok false
is_allowed (err e) = err e

unfoldable pub can_transition_to : JobState → JobStatus → Result Bool
unfolding is_allowed
can_transition_to j next = is_allowed (validate_job_transition j.status next)

entry : String × Value → String × Json
entry (k, v) = (k, leaf v)

unfoldable pub payload_json : Payload → Json
unfolding fields_of entry
payload_json p = object (fields_of (map entry p))

-- if self.field: base[key] = self.field
text_entry : String → Option String → Dict Json
text_entry k none = []
text_entry k (some s) = if s == "" then [] else (k, text_leaf s) ∷ []

payload_entry : String → Option Payload → Dict Json
unfolding payload_json
payload_entry k none = []
payload_entry k (some []) = []
payload_entry k (some (x ∷ p)) = (k, payload_json (x ∷ p)) ∷ []

unfoldable pub to_dict : JobState → Dict Json
unfolding text_entry payload_entry value
to_dict j =
    (("job_id", text_leaf j.job_id)
      ∷ ("session_id", text_leaf j.session_id)
      ∷ ("status", text_leaf (value j.status))
      ∷ ("created_at", text_leaf j.created_at)
      ∷ ("updated_at", text_leaf j.updated_at)
      ∷ ("progress_message", text_leaf j.progress_message)
      ∷ ("retry_allowed", leaf (bool j.retry_allowed))
      ∷ [])
    ++ text_entry "completed_response_id" j.completed_response_id
    ++ payload_entry "result" j.result
    ++ text_entry "error_message" j.error_message
    ++ text_entry "failed_at" j.failed_at
    ++ payload_entry "autonomy_metadata" j.autonomy_metadata

unfoldable pub to_api_dict : JobState → Dict Json
unfolding put pop
to_api_dict j =
    pop (put (to_dict j) "job_poll_token" (optional_text_leaf j.job_poll_token)) "autonomy_metadata"

-- What a caller of `with_status` gives.
pub record Update : Type 0 where
  pub progress_message : Option String
  pub result : Option Payload
  pub error_message : Option String
  pub failed_at : Option String
  pub updated_at : Option String
  pub autonomy_metadata : Option Payload

-- `a or b` where both may be None, on texts and on dicts
text_or_else : Option String → Option String → Option String
text_or_else none b = b
text_or_else (some a) b = if a == "" then b else some a

payload_or_else : Option Payload → Option Payload → Option Payload
payload_or_else none b = b
payload_or_else (some []) b = b
payload_or_else (some (x ∷ p)) b = some (x ∷ p)

unfoldable pub with_status : JobState → JobStatus → Update → Result JobState
unfolding text_or_else payload_or_else text_or validate_job_transition
with_status j new u = and_then (validate_job_transition j.status new) λ legal. ok (record j {
  status = new;
  updated_at = text_or u.updated_at j.updated_at;
  progress_message = text_or u.progress_message j.progress_message;
  result = payload_or_else u.result j.result;
  error_message = text_or_else u.error_message j.error_message;
  failed_at = text_or_else u.failed_at j.failed_at;
  autonomy_metadata = payload_or_else u.autonomy_metadata j.autonomy_metadata;
})

-- The public form of a job has no autonomy metadata, has the poll token, and is otherwise the
-- internal form, at every key.
pub get-to_api_dict :
    (j : JobState) (k : String)
    → get (to_api_dict j) k ≡ (
        if "autonomy_metadata" == k
        then none
        else if "job_poll_token" == k
        then some (optional_text_leaf j.job_poll_token)
        else get (to_dict j) k)
unfolding to_api_dict
get-to_api_dict j k =
    get-pop (put (to_dict j) "job_poll_token" (optional_text_leaf j.job_poll_token))
      "autonomy_metadata" k
    ∙ rw (get-put (to_dict j) "job_poll_token" (optional_text_leaf j.job_poll_token) k) refl
