-- ===== src/Gateway/Idempotency.antt =====
-- backend/app/gateway/idempotency_store.py. Each function runs under the store's condition variable,
-- so a call is one step; where the source waits on the condition, the step answers `blocked` and
-- changes nothing, and the thread makes it again after a `notify_all`.
use meridian_logistics.Prelude.{String, Bool, true, false, Option, none, some, ◌==◌, if◌then◌else◌}
use meridian_logistics.Python.{Error, value_error, ok, err, Dict, get, put, pop, Exec}

-- A completed record: its request fingerprint and its result.
pub record Completed (R : Type 0) : Type 0 where
  pub request_fingerprint : String
  pub result : R

-- A record of the store, by its "state".
pub data Entry (R : Type 0) : Type 0 where
  in_progress : String → Entry R
  completed : Completed R → Entry R

-- An idempotency mapping, and the target claims that the module keeps beside it.
pub record Claims (R : Type 0) : Type 0 where
  pub records : Dict (Entry R)
  pub targets : Dict String

-- IdempotencyClaim, by its outcome
pub data Claim (R : Type 0) : Type 0 where
  execute : Claim R
  replay : Completed R → Claim R
  conflict : Completed R → Claim R

-- What a step that may wait answers.
pub data Step (A : Type 0) : Type 0 where
  blocked : Step A
  returned : A → Step A

abbrev pub mismatch : Error
mismatch = value_error "idempotency claim does not match completion request"

-- resolve_store
unfoldable pub resolve_store : {R : Type 0} → Option (Claims R) → Claims R → Claims R
resolve_store none default = default
resolve_store (some raw) default = raw

held_by : Option String → String → Bool
held_by none key = false
held_by (some by) key = by == key

module _ {R : Type 0} where
  loaded : Option (Entry R) → Option (Completed R)
  loaded none = none
  loaded (some (in_progress f)) = none
  loaded (some (completed c)) = some c

  unfoldable pub load_record : Claims R → String → Option (Completed R)
  unfolding loaded
  load_record s key = loaded (get s.records key)

  claim_at : String → String → Option (Entry R) → Claims R → Step (Claim R) × Claims R
  claim_at key f none s =
      (returned execute, record s { records = put s.records key (in_progress f) })
  claim_at key f (some (in_progress g)) s = (blocked, s)
  claim_at key f (some (completed c)) s =
      (returned (if c.request_fingerprint == f then replay c else conflict c), s)

  unfoldable pub claim_record : String → String → Claims R → Step (Claim R) × Claims R
  unfolding claim_at
  claim_record key f s = claim_at key f (get s.records key) s

  -- existing is None or is in progress under the same fingerprint
  may_complete : Option (Entry R) → String → Bool
  may_complete none f = true
  may_complete (some (in_progress g)) f = g == f
  may_complete (some (completed c)) f = false

  unfoldable pub complete_record : String → String → R → Exec (Claims R) (Completed R)
  unfolding may_complete
  complete_record key f result s =
      let c : Completed R = record { request_fingerprint = f; result = result } in
      if may_complete (get s.records key) f
      then (ok c, record s { records = put s.records key (completed c) })
      else (err mismatch, s)

  unfoldable pub save_record : String → String → R → Exec (Claims R) (Completed R)
  unfolding complete_record
  save_record key f result = complete_record key f result

  is_mine : Option (Entry R) → String → Bool
  is_mine (some (in_progress g)) f = g == f
  is_mine _ f = false

  unfoldable pub abandon_record : String → String → Claims R → Claims R
  unfolding is_mine
  abandon_record key f s =
      if is_mine (get s.records key) f then record s { records = pop s.records key } else s

  claim_target_at : String → String → Option String → Claims R → Step (Unit {0}) × Claims R
  claim_target_at token key none s = (returned tt, record s { targets = put s.targets token key })
  claim_target_at token key (some by) s = if by == key then (returned tt, s) else (blocked, s)

  unfoldable pub claim_target_execution : String → String → Claims R → Step (Unit {0}) × Claims R
  unfolding claim_target_at
  claim_target_execution token key s = claim_target_at token key (get s.targets token) s

  unfoldable pub release_target_execution : String → String → Claims R → Claims R
  unfolding held_by
  release_target_execution token key s =
      if held_by (get s.targets token) key then record s { targets = pop s.targets token } else s
