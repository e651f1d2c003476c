-- ===== src/Responses/Examples.antt =====
-- An envelope that is built of a payload with no components.
use meridian_logistics.Prelude.{◌≡◌, refl, true, [], ◌∷◌}
use meridian_logistics.Python.{Dict, ok, err, value_error, get, put}
use meridian_logistics.Python.Json.{Reader, Json, text_leaf}
use meridian_logistics.Responses.{build_response_envelope, with_components, with_defaults, is_given}
use meridian_logistics.Responses.Laws.{build_response_envelope_again}

abbrev reader : Reader
reader = record { shown = λ j. "[]"; int_of = λ s. err (value_error s) }

abbrev payload : Dict Json
payload = ("response_id", text_leaf "response-1") ∷ ("summary", text_leaf "Done.") ∷ []

abbrev built : Dict Json
built = with_components reader (with_defaults payload)

build_response_envelope_again_example :
    (build_response_envelope reader (λ d. is_given (get d "components")) built ≡ ok built)
    × (is_given (get built "components") ≡ true)
    × (is_given (get built "components") ≡ true)
    × (get built "response_id" ≡ get payload "response_id")
build_response_envelope_again_example =
    build_response_envelope_again reader (λ d. is_given (get d "components")) payload built
      "response_id"
      (record { actions = refl; follow_up_prompt = refl; trace_id = refl; components = refl })
      (unfold build_response_envelope with_components with_defaults get put is_given in refl)
