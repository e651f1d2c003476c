-- ===== src/Gateway/Keys.antt =====
-- backend/app/gateway/idempotency_store.py as a specification: the life of one idempotency key, as a
-- state machine of its own, beside the calls of the store.
use meridian_logistics.Prelude.{
  String, ◌≡◌, refl, Option, none, some, List, [], ◌∷◌, ◌==◌, arith, ap, ◌∙◌, eq_iff, if◌then◌else◌,
}
use meridian_logistics.Python.{get}
use meridian_logistics.Python.Laws.{get-put, get-pop}
use meridian_logistics.Gateway.Idempotency.{
  Entry, Claims, in_progress, completed, claim_record, complete_record, abandon_record,
  claim_target_execution, release_target_execution,
}
use meridian_logistics.Gateway.Exclusion.{
  Call, claim, complete, abandon, claim_target, release_target, apply, run, completion,
}

module _ {R : Type 0} where
  -- A free key is claimed; a claimed key is completed or freed under its fingerprint; a completed key
  -- stays so. A free key is completed too.
  unfoldable pub key_claim : String → Option (Entry R) → Option (Entry R)
  key_claim f none = some (in_progress f)
  key_claim f (some e) = some e

  unfoldable pub key_complete : String → R → Option (Entry R) → Option (Entry R)
  key_complete f r none = some (completed (completion f r))
  key_complete f r (some (in_progress g)) =
      if g == f then some (completed (completion f r)) else some (in_progress g)
  key_complete f r (some (completed c)) = some (completed c)

  unfoldable pub key_abandon : String → Option (Entry R) → Option (Entry R)
  key_abandon f none = none
  key_abandon f (some (in_progress g)) = if g == f then none else some (in_progress g)
  key_abandon f (some (completed c)) = some (completed c)

  -- What a call does to a key: nothing, if it is a call on another key or on a target.
  unfoldable pub key_step : String → Call R → Option (Entry R) → Option (Entry R)
  unfolding key_claim key_complete key_abandon
  key_step key (claim k f) e = if k == key then key_claim f e else e
  key_step key (complete k f r) e = if k == key then key_complete f r e else e
  key_step key (abandon k f) e = if k == key then key_abandon f e else e
  key_step key (claim_target t k) e = e
  key_step key (release_target t k) e = e

  unfoldable pub key_run : String → List (Call R) → Option (Entry R) → Option (Entry R)
  key_run key [] e = e
  key_run key (c ∷ cs) e = key_run key cs (key_step key c e)

  step_lem :
      (call : Call R) (s : Claims R) (key : String)
      → get (apply call s).records key ≡ key_step key call (get s.records key)
  unfolding apply claim_record complete_record abandon_record claim_target_execution
      release_target_execution key_step
  step_lem (claim k f) s key = ground (arith, get-put s.records k (in_progress f) key, eq_iff k key)
  step_lem (complete k f r) s key =
      ground (arith, get-put s.records k (completed (completion f r)) key, eq_iff k key)
  step_lem (abandon k f) s key = ground (arith, get-pop s.records k key, eq_iff k key)
  step_lem (claim_target t k) s key = ground arith
  step_lem (release_target t k) s key = ground arith

  -- The store implements, key by key, the machine of a single key: after any calls the record of a
  -- key is what its machine comes to, whatever the other keys and the targets hold.
  pub keys_are_independent :
      (calls : List (Call R)) (s : Claims R) (key : String)
      → get (run calls s).records key ≡ key_run key calls (get s.records key)
  unfolding run key_run
  keys_are_independent [] s key = refl
  keys_are_independent (c ∷ calls) s key =
      keys_are_independent calls (apply c s) key ∙ ap (key_run key calls) (step_lem c s key)
