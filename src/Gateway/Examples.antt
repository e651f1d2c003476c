-- ===== src/Gateway/Examples.antt =====
-- Runs of the idempotency store on concrete claims.
use meridian_logistics.Prelude.{String, ◌≡◌, refl, List, [], ◌∷◌}
use meridian_logistics.Python.{get}
use meridian_logistics.Gateway.Idempotency.{Completed, completed, Claims, blocked, claim_record}
use meridian_logistics.Gateway.Keys.{key_run, keys_are_independent}
use meridian_logistics.Gateway.Exclusion.{Call, claim, complete, abandon, run, ends, claim_excludes}

abbrev no_claims : Claims String
no_claims = record { records = []; targets = [] }

abbrev finished : Completed String
finished = record { request_fingerprint = "f"; result = "r" }

abbrev one_result : Claims String
one_result = record { records = ("key", completed finished) ∷ []; targets = [] }

abbrev other_calls : List (Call String)
other_calls = claim "other" "g" ∷ abandon "key" "g" ∷ complete "other" "g" "r2" ∷ []

claim_excludes_example :
    claim_record "key" "h" (run other_calls (claim_record "key" "f" no_claims).1)
    ≡ (blocked, run other_calls (claim_record "key" "f" no_claims).1)
claim_excludes_example =
    claim_excludes other_calls no_claims "key" "f" "h" (unfold claim_record get in refl)
      (unfold ends in (refl, (refl, (refl, tt))))

keys_are_independent_example :
    get (run other_calls one_result).records "key"
    ≡ key_run "key" other_calls (get one_result.records "key")
keys_are_independent_example = keys_are_independent other_calls one_result "key"
