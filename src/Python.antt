-- ===== src/Python.antt =====
-- What the modelled code uses of Python: exceptions, methods that change an object and may raise,
-- and dictionaries of dynamic values.
pub mod Laws
pub mod Json
use Prim.Native.Nat.{◌/◌, ◌%◌}
use Prim.Native.String.{◌++◌}
use meridian_logistics.Prelude.{
  ℕ, zero, suc, ltb, leb, String, ◌≡◌, refl, ◌⊎◌, inl, inr, Bool, true, false, not, Option, none,
  some, List, [], ◌∷◌, ◌==◌, if◌then◌else◌,
}

-- The exceptions that the modelled code raises, by class.
pub data Error : Type 0 where
  value_error : String → Error
  key_error : String → Error
  integrity_error : Error
  invalid_transition : Error
  hook_error : Error
  type_error : Error
  binding_error : Error
  overflow_error : Error
  http_error : ℕ → String → Error

pub data Result {ℓ} (A : Type ℓ) : Type ℓ where
  ok : A → Result A
  err : Error → Result A

-- A method: what was written before a raise stays written.
abbrev pub Exec : Type 0 → Type 0 → Type 0
Exec S A = S → Result A × S

module _ {S A : Type 0} where
  abbrev pub pure : A → Exec S A
  pure a s = (ok a, s)

  abbrev pub raise : Error → Exec S A
  raise e s = (err e, s)

  abbrev pub lift : Result A → Exec S A
  lift r s = (r, s)

  abbrev pub gets : (S → A) → Exec S A
  gets f s = (ok (f s), s)

module _ {S : Type 0} where
  -- A statement for its effect.
  abbrev pub modify : (S → S) → Exec S (Unit {0})
  modify f s = (ok tt, f s)

module _ {S A B : Type 0} where
  abbrev pub continue : Result A → (A → Exec S B) → Exec S B
  continue (ok a) f s = f a s
  continue (err e) f s = (err e, s)

  infixl 5 ◌>>=◌ ◌>>◌
  abbrev pub ◌>>=◌ : Exec S A → (A → Exec S B) → Exec S B
  ◌>>=◌ m f s = continue (m s).0 f (m s).1

  abbrev pub ◌>>◌ : Exec S A → Exec S B → Exec S B
  m >> n = m >>= λ _. n

-- The bind of pure code that may raise.
abbrev pub and_then {ℓ κ} : {A : Type ℓ} {B : Type κ} → Result A → (A → Result B) → Result B
and_then (ok a) f = f a
and_then (err e) f = err e

-- A dynamic value; `other` is any further object, by the text that `str` gives it and by its truth
-- value.
pub data Value : Type 0 where
  null : Value
  bool : Bool → Value
  text : String → Value
  number : ℕ → Value
  other : String → Bool → Value

digit : ℕ → String
digit d =
    if leb d 0
    then "0"
    else if leb d 1
    then "1"
    else if leb d 2
    then "2"
    else if leb d 3
    then "3"
    else if leb d 4
    then "4"
    else if leb d 5
    then "5"
    else if leb d 6
    then "6"
    else if leb d 7
    then "7"
    else if leb d 8
    then "8"
    else "9"

-- The digits of a number before a text; a number has no more digits than its value, so that value is
-- fuel enough.
digits : ℕ → ℕ → String → String
unfolding digit
digits zero n s = digit n ++ s
digits (suc fuel) n s =
    let rest = digits fuel (n / 10) (digit (n % 10) ++ s) in if ltb n 10 then digit n ++ s else rest

unfoldable pub decimal : ℕ → String
unfolding digits
decimal n = digits n n ""

-- str(value)
unfoldable pub str : Value → String
unfolding decimal
str null = "None"
str (bool true) = "True"
str (bool false) = "False"
str (text s) = s
str (number n) = decimal n
str (other s t) = s

-- bool(value)
unfoldable pub truth : Value → Bool
truth null = false
truth (bool b) = b
truth (text s) = not (s == "")
truth (number n) = ltb 0 n
truth (other s t) = t

-- A dict with text keys.
abbrev pub Dict : Type 0 → Type 0
Dict V = List (String × V)

module _ {V : Type 0} where
  -- d.get(key)
  unfoldable pub get : Dict V → String → Option V
  get [] k = none
  get ((j, v) ∷ d) k = if j == k then some v else get d k

  -- d[key] = v
  unfoldable pub put : Dict V → String → V → Dict V
  put [] k v = (k, v) ∷ []
  put ((j, w) ∷ d) k v = if j == k then (k, v) ∷ d else (j, w) ∷ put d k v

  -- d.pop(key, None)
  unfoldable pub pop : Dict V → String → Dict V
  pop [] k = []
  pop ((j, w) ∷ d) k = let rest = pop d k in if j == k then rest else (j, w) ∷ rest

  abbrev found : String → Option V → Result V
  found k none = err (key_error k)
  found k (some v) = ok v

  -- d[key]
  unfoldable pub item : Dict V → String → Result V
  unfolding get
  item d k = found k (get d k)

abbrev pub or_default {ℓ} : {A : Type ℓ} → Option A → A → A
or_default none d = d
or_default (some a) d = a

-- bool(d.get(key, False))
unfoldable pub get_flag : Dict Value → String → Bool
unfolding get truth
get_flag d k = truth (or_default (get d k) (bool false))

-- str(d.get(key, default))
unfoldable pub get_text : Dict Value → String → String → String
unfolding get str
get_text d k default = str (or_default (get d k) (text default))

-- To split on a computed result and keep the equation.
pub Result-cases {ℓ} :
    {A : Type ℓ} (r : Result A) → ((a : A) × (r ≡ ok a)) ⊎ ((e : Error) × (r ≡ err e))
Result-cases (ok a) = inl (a, refl)
Result-cases (err e) = inr (e, refl)
