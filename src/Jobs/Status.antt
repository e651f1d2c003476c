-- ===== src/Jobs/Status.antt =====
-- backend/app/jobs/models.py: the job statuses and the transitions between them.
use meridian_logistics.Prelude.{
  ℕ, ◌≡◌, refl, ◌<◌, ◌⊎◌, inl, inr, arith, ap, sym, String, Bool, true, false, List, [], ◌∷◌, ◌==◌,
  if◌then◌else◌,
}
use meridian_logistics.Python.{Result, ok, err, value_error, invalid_transition}

pub data JobStatus : Type 0 where
  pending running succeeded failed cancelled expired : JobStatus

pub JobStatus-discrete : Discrete JobStatus
JobStatus-discrete = hlevel

-- JobStatus.value
unfoldable pub value : JobStatus → String
value pending = "pending"
value running = "running"
value succeeded = "succeeded"
value failed = "failed"
value cancelled = "cancelled"
value expired = "expired"

-- The loop `for status in cls`, over the members in order, and then the legacy name.
from_members : List JobStatus → String → Result JobStatus
from_members [] s = if s == "queued" then ok pending else err (value_error s)
from_members (m ∷ ms) s = if value m == s then ok m else from_members ms s

abbrev members : List JobStatus
members = pending ∷ running ∷ succeeded ∷ failed ∷ cancelled ∷ expired ∷ []

-- JobStatus.from_string
unfoldable pub from_string : String → Result JobStatus
unfolding from_members value
from_string s = from_members members s

-- status_val in _TERMINAL_STATUSES
unfoldable pub is_terminal_status : JobStatus → Bool
is_terminal_status succeeded = true
is_terminal_status failed = true
is_terminal_status cancelled = true
is_terminal_status expired = true
is_terminal_status _ = false

-- status_val in _TRANSIENT_STATUSES
unfoldable pub is_transient_status : JobStatus → Bool
is_transient_status pending = true
is_transient_status running = true
is_transient_status _ = false

-- next in _VALID_TRANSITIONS[current]
unfoldable pub valid_transition : JobStatus → JobStatus → Bool
valid_transition pending running = true
valid_transition pending failed = true
valid_transition pending cancelled = true
valid_transition pending expired = true
valid_transition running succeeded = true
valid_transition running failed = true
valid_transition running cancelled = true
valid_transition running expired = true
valid_transition _ _ = false

unfoldable pub validate_job_transition : JobStatus → JobStatus → Result (Unit {0})
unfolding valid_transition
validate_job_transition current next =
    if valid_transition current next then ok tt else err invalid_transition

-- Reading back the text of a status gives the status.
pub from_string-value : (a : JobStatus) → from_string (value a) ≡ ok a
unfolding from_string
from_string-value pending = refl
from_string-value running = refl
from_string-value succeeded = refl
from_string-value failed = refl
from_string-value cancelled = refl
from_string-value expired = refl

-- The statuses that a job can come to by legal transitions.
pub data Reach (a : JobStatus) : JobStatus → Type 0 where
  here : Reach a a
  next : {b c : JobStatus} → Reach a b → valid_transition b c ≡ true → Reach a c

pub Reach-trans : {a b c : JobStatus} → Reach a b → Reach b c → Reach a c
Reach-trans p here = p
Reach-trans p (next q t) = next (Reach-trans p q) t

-- A transition is legal to a terminal status from a transient one only, never from a terminal one.
pub valid_transition_from :
    (a b : JobStatus) → valid_transition a b ≡ true → is_terminal_status a ≡ false
unfolding valid_transition is_terminal_status
valid_transition_from a b h = ground arith

-- Legal transitions lead to no status but itself from a terminal status, and pending to no second
-- time: what is reached from a status has a rank at least its own, and a higher one if it differs.
rank : JobStatus → ℕ
rank pending = 0
rank running = 1
rank _ = 2

valid_transition-rank : (a b : JobStatus) → valid_transition a b ≡ true → rank a < rank b
unfolding valid_transition rank
valid_transition-rank a b h = ground arith

Reach-rank : {a b : JobStatus} → Reach a b → (a ≡ b) ⊎ (rank a < rank b)
Reach-rank here = inl refl
Reach-rank {a} (next {b} {c} p t) = elim (Reach-rank p) [
  | inl e ↦ inr (omega (arith, valid_transition-rank b c t, ap rank e))
  | inr l ↦ inr (omega (arith, valid_transition-rank b c t))
]

-- Two statuses that legal transitions lead to from one another are the same: no job comes back to a
-- status that it left.
pub Reach-antisym : {a b : JobStatus} → Reach a b → Reach b a → a ≡ b
Reach-antisym p q = elim (Reach-rank p) [
  | inl e ↦ e
  | inr l ↦ elim (Reach-rank q) [ inl e ↦ sym e | inr m ↦ absurd (omega arith) ]
]
