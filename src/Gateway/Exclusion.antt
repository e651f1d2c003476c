-- ===== src/Gateway/Exclusion.antt =====
-- backend/app/gateway/idempotency_store.py under any interleaving of the calls of several threads,
-- as a sequence of calls.
use meridian_logistics.Prelude.{
  String, ◌≡◌, refl, ◌≢◌, ◌⊎◌, inl, inr, Bool, false, none, some, List, [], ◌∷◌, ◌==◌, ◌&&◌, arith,
  eq_iff, eq_refl, Option-cases, eq-false, All, if◌then◌else◌, ◌∙◌,
}
use meridian_logistics.Python.{ok, err, get}
use meridian_logistics.Python.Laws.{get-put, get-pop}
use meridian_logistics.Gateway.Idempotency.{
  Completed, in_progress, completed, Claims, execute, replay, conflict, blocked, returned,
  claim_record, complete_record, mismatch, abandon_record, claim_target_execution,
  release_target_execution,
}

-- A call, by any thread.
pub data Call (R : Type 0) : Type 0 where
  claim : String → String → Call R
  complete : String → String → R → Call R
  abandon : String → String → Call R
  claim_target : String → String → Call R
  release_target : String → String → Call R

unfoldable pub apply : {R : Type 0} → Call R → Claims R → Claims R
apply (claim key f) s = (claim_record key f s).1
apply (complete key f r) s = (complete_record key f r s).1
apply (abandon key f) s = abandon_record key f s
apply (claim_target t key) s = (claim_target_execution t key s).1
apply (release_target t key) s = release_target_execution t key s

unfoldable pub run : {R : Type 0} → List (Call R) → Claims R → Claims R
run [] s = s
run (c ∷ cs) s = run cs (apply c s)

-- The call gives back the claim of a key: it completes or abandons it under its fingerprint.
unfoldable pub ends : {R : Type 0} → String → String → Call R → Bool
ends key f (complete k g r) = k == key && g == f
ends key f (abandon k g) = k == key && g == f
ends key f _ = false

-- The call gives back the target.
unfoldable pub releases : {R : Type 0} → String → String → Call R → Bool
releases token key (release_target t k) = t == token && k == key
releases token key _ = false

module _ {R : Type 0} where
  -- No call changes a completed record.
  completed-apply :
      (call : Call R) (s : Claims R) (key : String) (c : Completed R)
      → get s.records key ≡ some (completed c)
      → get (apply call s).records key ≡ some (completed c)
  unfolding apply claim_record complete_record abandon_record claim_target_execution
      release_target_execution
  completed-apply (claim k f) s key c h =
      ground (arith, get-put s.records k (in_progress f) key, eq_iff k key)
  completed-apply (complete k f r) s key c h = ground (
    arith,
    get-put s.records k (completed (record { request_fingerprint = f; result = r })) key,
    eq_iff k key,
  )
  completed-apply (abandon k f) s key c h = ground (arith, get-pop s.records k key, eq_iff k key)
  completed-apply (claim_target t k) s key c h = ground arith
  completed-apply (release_target t k) s key c h = ground arith

  -- A claim in progress stays until a call ends it.
  in_progress-apply :
      (call : Call R) (s : Claims R) (key f : String)
      → get s.records key ≡ some (in_progress f)
      → ends key f call ≡ false
      → get (apply call s).records key ≡ some (in_progress f)
  unfolding apply claim_record complete_record abandon_record claim_target_execution
      release_target_execution ends
  in_progress-apply (claim k g) s key f h n =
      ground (arith, get-put s.records k (in_progress g) key, eq_iff k key)
  in_progress-apply (complete k g r) s key f h n = ground (
    arith,
    get-put s.records k (completed (record { request_fingerprint = g; result = r })) key,
    eq_iff k key,
    eq_iff f g,
    eq_iff g f,
  )
  in_progress-apply (abandon k g) s key f h n =
      ground (arith, get-pop s.records k key, eq_iff k key, eq_iff f g, eq_iff g f)
  in_progress-apply (claim_target t k) s key f h n = ground arith
  in_progress-apply (release_target t k) s key f h n = ground arith

  target-apply :
      (call : Call R) (s : Claims R) (token key : String)
      → get s.targets token ≡ some key
      → releases token key call ≡ false
      → get (apply call s).targets token ≡ some key
  unfolding apply claim_record complete_record abandon_record claim_target_execution
      release_target_execution releases
  target-apply (claim k g) s token key h n = ground arith
  target-apply (complete k g r) s token key h n = ground arith
  target-apply (abandon k g) s token key h n = ground arith
  target-apply (claim_target t k) s token key h n =
      ground (arith, get-put s.targets t k token, eq_iff t token)
  target-apply (release_target t k) s token key h n =
      ground (arith, get-pop s.targets t token, eq_iff t token, eq_iff k key, eq_iff key k)

  completed-run :
      (calls : List (Call R)) (s : Claims R) (key : String) (c : Completed R)
      → get s.records key ≡ some (completed c)
      → get (run calls s).records key ≡ some (completed c)
  unfolding run
  completed-run [] s key c h = h
  completed-run (x ∷ calls) s key c h =
      completed-run calls (apply x s) key c (completed-apply x s key c h)

  in_progress-run :
      (calls : List (Call R)) (s : Claims R) (key f : String)
      → get s.records key ≡ some (in_progress f)
      → All (λ x. ends key f x ≡ false) calls
      → get (run calls s).records key ≡ some (in_progress f)
  unfolding run
  in_progress-run [] s key f h a = h
  in_progress-run (x ∷ calls) s key f h a =
      in_progress-run calls (apply x s) key f (in_progress-apply x s key f h a.0) a.1

  target-run :
      (calls : List (Call R)) (s : Claims R) (token key : String)
      → get s.targets token ≡ some key
      → All (λ x. releases token key x ≡ false) calls
      → get (run calls s).targets token ≡ some key
  unfolding run
  target-run [] s token key h a = h
  target-run (x ∷ calls) s token key h a =
      target-run calls (apply x s) token key (target-apply x s token key h a.0) a.1

  -- A claim that answers `execute` found no record and leaves one in progress.
  pub execute_claims :
      (key f : String) (s : Claims R)
      → (claim_record key f s).0 ≡ returned execute
      → (get s.records key ≡ none)
        × (get (claim_record key f s).1.records key ≡ some (in_progress f))
  unfolding claim_record
  execute_claims key f s h =
      ground (arith, get-put s.records key (in_progress f) key, eq_iff key key)

  -- Once a record is completed, whatever is called in between, every claim of its key answers at
  -- once with that record: a replay under its own fingerprint, a conflict under any other.
  pub completed_is_final :
      (calls : List (Call R)) (s : Claims R) (key g : String) (c : Completed R)
      → get s.records key ≡ some (completed c)
      → claim_record key g (run calls s)
        ≡ (returned (if c.request_fingerprint == g then replay c else conflict c), run calls s)
  unfolding claim_record
  completed_is_final calls s key g c h = rw (completed-run calls s key c h) refl

  claim_waits :
      (key f g : String) (s : Claims R)
      → get s.records key ≡ some (in_progress f)
      → claim_record key g s ≡ (blocked, s)
  unfolding claim_record
  claim_waits key f g s h = rw h refl

  abbrev pub completion : String → R → Completed R
  completion f r = record { request_fingerprint = f; result = r }

  completes :
      (key f : String) (r : R) (s : Claims R)
      → get s.records key ≡ some (in_progress f)
      → ((complete_record key f r s).0 ≡ ok (completion f r))
        × (get (complete_record key f r s).1.records key ≡ some (completed (completion f r)))
  unfolding complete_record
  completes key f r s h =
      rw (h, eq_refl f)
        (refl, get-put s.records key (completed (completion f r)) key ∙ rw eq_refl refl)

  claim_target_holds :
      (token key : String) (s : Claims R)
      → (claim_target_execution token key s).0 ≡ returned tt
      → get (claim_target_execution token key s).1.targets token ≡ some key
  unfolding claim_target_execution
  claim_target_holds token key s h = elim (Option-cases (get s.targets token)) [
    | inl e ↦ rw e (get-put s.targets token key token ∙ rw eq_refl refl)
    | inr (by, e) ↦ ground (arith, e, eq_iff by key)
  ]

  target_waits :
      (token key other : String) (s : Claims R)
      → get s.targets token ≡ some key
      → claim_target_execution token other s
        ≡ (if key == other then (returned tt, s) else (blocked, s))
  unfolding claim_target_execution
  target_waits token key other s h = rw h refl

  -- After one thread's claim of a key answered `execute`, every claim of that key by any thread
  -- waits, through any calls that do not complete or abandon the key under that fingerprint.
  pub claim_excludes :
      (calls : List (Call R)) (s : Claims R) (key f g : String)
      → (claim_record key f s).0 ≡ returned execute
      → All (λ x. ends key f x ≡ false) calls
      → let later = run calls (claim_record key f s).1 in
        claim_record key g later ≡ (blocked, later)
  claim_excludes calls s key f g h a =
      claim_waits key f g (run calls (claim_record key f s).1)
        (in_progress-run calls (claim_record key f s).1 key f (execute_claims key f s h).1 a)

  -- The thread whose claim answered `execute` completes it, whatever the others called in between,
  -- and from then on its result is replayed to every claim under its fingerprint.
  pub claim_completes :
      (calls more : List (Call R)) (s : Claims R) (key f : String) (r : R)
      → (claim_record key f s).0 ≡ returned execute
      → All (λ x. ends key f x ≡ false) calls
      → let c = completion f r in
        let later = run calls (claim_record key f s).1 in
        let after = run more (complete_record key f r later).1 in
        ((complete_record key f r later).0 ≡ ok c)
        × (claim_record key f after ≡ (returned (replay c), after))
  claim_completes calls more s key f r h a =
      let p =
        completes key f r (run calls (claim_record key f s).1)
          (in_progress-run calls (claim_record key f s).1 key f (execute_claims key f s h).1 a) in
      (p.0, completed_is_final more _ key f (completion f r) p.1 ∙ rw eq_refl refl)

  -- A target that a key holds keeps every other key waiting, and admits that key again at once, until
  -- it is released under that key.
  pub target_excludes :
      (calls : List (Call R)) (s : Claims R) (token key other : String)
      → (claim_target_execution token key s).0 ≡ returned tt
      → All (λ x. releases token key x ≡ false) calls
      → let later = run calls (claim_target_execution token key s).1 in
        claim_target_execution token other later
        ≡ (if key == other then (returned tt, later) else (blocked, later))
  target_excludes calls s token key other h a =
      target_waits token key other (run calls (claim_target_execution token key s).1) (
        target-run calls (claim_target_execution token key s).1 token key
          (claim_target_holds token key s h) a)

  -- A completion under another fingerprint, or of a completed record, raises and writes nothing.
  pub complete_mismatch :
      (key f g : String) (r : R) (s : Claims R)
      → (get s.records key ≡ some (in_progress g)) × (g ≢ f)
        ⊎ ((c : Completed R) × (get s.records key ≡ some (completed c)))
      → complete_record key f r s ≡ (err mismatch, s)
  unfolding complete_record
  complete_mismatch key f g r s (inl (h, n)) = rw (h, eq-false g f n) refl
  complete_mismatch key f g r s (inr (c, h)) = rw h refl
