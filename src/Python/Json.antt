-- ===== src/Python/Json.antt =====
-- JSON documents, as `json.loads` gives them, and what the modelled code does to read one.
use meridian_logistics.Prelude.{
  ℕ, ◌≡◌, refl, ap, String, Bool, true, false, Option, none, some, List, [], ◌∷◌, map, ◌==◌,
  if◌then◌else◌,
}
use meridian_logistics.Python.{
  key_error, type_error, Result, ok, err, and_then, Value, null, bool, text, number, other, str,
  truth,
}

-- A leaf is null, a truth value, a text or a natural number; any other number is an `other`.
mutual
  pub data Json : Type 0 where
    leaf : Value → Json
    array : Items → Json
    object : Fields → Json

  pub data Items : Type 0 where
    nil : Items
    cons : Json → Items → Items

  pub data Fields : Type 0 where
    end : Fields
    field : String → Json → Fields → Fields

-- What Python gives here: str() of a list or a dict, and int() of a text or of another number, where
-- the integer is natural.
pub record Reader : Type 0 where
  pub shown : Json → String
  pub int_of : String → Result ℕ

unfoldable pub items_of : List Json → Items
items_of [] = nil
items_of (x ∷ xs) = cons x (items_of xs)

unfoldable pub list_of : Items → List Json
list_of nil = []
list_of (cons x xs) = x ∷ list_of xs

unfoldable pub fields_of : List (String × Json) → Fields
fields_of [] = end
fields_of ((k, v) ∷ fs) = field k v (fields_of fs)

unfoldable pub find : Fields → String → Option Json
find end k = none
find (field j v fs) k = if j == k then some v else find fs k

keys : Fields → List Json
keys end = []
keys (field k v fs) = leaf (text k) ∷ keys fs

letters : String → List Json
letters String.[] = []
letters (String.◌∷◌ c s) = leaf (text (String.◌∷◌ c String.[])) ∷ letters s

found : String → Option Json → Result Json
found k none = err (key_error k)
found k (some v) = ok v

-- payload[key]; only a dict has text keys
unfoldable pub at_key : Json → String → Result Json
unfolding find found
at_key (object fs) k = found k (find fs k)
at_key _ k = err type_error

-- payload.get(key); a value with no `get` raises
unfoldable pub get_key : Json → String → Result (Option Json)
unfolding find
get_key (object fs) k = ok (find fs k)
get_key _ k = err type_error

-- for item in payload
unfoldable pub elements : Json → Result (List Json)
unfolding list_of keys letters
elements (array xs) = ok (list_of xs)
elements (object fs) = ok (keys fs)
elements (leaf (text s)) = ok (letters s)
elements (leaf _) = err type_error

module _ (r : Reader) where
  unfoldable pub text_of : Json → String
  unfolding str
  text_of (leaf v) = str v
  text_of j = r.shown j

  -- str(payload[key])
  unfoldable pub text_at : Json → String → Result String
  unfolding at_key text_of
  text_at j k = and_then (at_key j k) λ v. ok (text_of v)

  -- tuple(str(item) for item in payload[key])
  unfoldable pub texts_at : Json → String → Result (List String)
  unfolding at_key elements text_of
  texts_at j k = and_then (at_key j k) λ v. and_then (elements v) λ xs. ok (map text_of xs)

  -- int(value)
  unfoldable pub int_value : Value → Result ℕ
  int_value (number n) = ok n
  int_value (bool true) = ok 1
  int_value (bool false) = ok 0
  int_value (text s) = r.int_of s
  int_value (other s t) = r.int_of s
  int_value null = err type_error

  unfoldable pub int_json : Json → Result ℕ
  unfolding int_value
  int_json (leaf v) = int_value v
  int_json j = err type_error

  unfoldable pub ints : List Json → Result (List ℕ)
  unfolding int_json
  ints [] = ok []
  ints (x ∷ xs) = and_then (int_json x) λ n. and_then (ints xs) λ ns. ok (n ∷ ns)

  unfoldable pub int_at : Json → String → Result ℕ
  unfolding at_key int_json
  int_at j k = and_then (at_key j k) int_json

  -- tuple(int(item) for item in payload[key])
  unfoldable pub ints_at : Json → String → Result (List ℕ)
  unfolding at_key elements ints
  ints_at j k = and_then (at_key j k) λ v. and_then (elements v) ints

  -- None if payload.get(key) is None or missing, and otherwise what `f` reads
  unfoldable pub present : {A : Type 0} → (Json → Result A) → Option Json → Result (Option A)
  present f none = ok none
  present f (some (leaf null)) = ok none
  present f (some v) = and_then (f v) λ a. ok (some a)

  unfoldable pub optional_at : {A : Type 0} → (Json → Result A) → Json → String → Result (Option A)
  unfolding get_key present
  optional_at f j k = and_then (get_key j k) (present f)

  unfoldable pub text_json : Json → Result String
  unfolding text_of
  text_json j = ok (text_of j)

-- bool(payload)
unfoldable pub truth_of : Json → Bool
unfolding truth
truth_of (leaf v) = truth v
truth_of (array nil) = false
truth_of (array _) = true
truth_of (object end) = false
truth_of (object _) = true

-- How the values that are written stand in a document.
abbrev pub text_leaf : String → Json
text_leaf s = leaf (text s)

unfoldable pub text_array : List String → Json
unfolding items_of
text_array ss = array (items_of (map text_leaf ss))

unfoldable pub number_array : List ℕ → Json
unfolding items_of
number_array ns = array (items_of (map (λ n. leaf (number n)) ns))

abbrev pub optional_text_leaf : Option String → Json
optional_text_leaf none = leaf null
optional_text_leaf (some s) = text_leaf s

-- A list of texts, or of numbers, reads back.
pub list_of-items_of : (xs : List Json) → list_of (items_of xs) ≡ xs
unfolding list_of items_of
list_of-items_of [] = refl
list_of-items_of (x ∷ xs) = ap (λ ys. x ∷ ys) (list_of-items_of xs)

module _ (r : Reader) where
  pub texts-map : (ss : List String) → map (text_of r) (map text_leaf ss) ≡ ss
  unfolding text_of str
  texts-map [] = refl
  texts-map (s ∷ ss) = ap (λ ys. s ∷ ys) (texts-map ss)

  pub ints-map : (ns : List ℕ) → ints r (map (λ n. leaf (number n)) ns) ≡ ok ns
  unfolding ints
  ints-map [] = refl
  ints-map (n ∷ ns) = rw (ints-map ns) refl

  pub texts_back : (ss : List String) → map (text_of r) (list_of (items_of (map text_leaf ss))) ≡ ss
  texts_back ss = rw (list_of-items_of (map text_leaf ss)) (texts-map ss)

  pub optional_text_back :
      (o : Option String) → present r (text_json r) (some (optional_text_leaf o)) ≡ ok o
  unfolding present text_json
  optional_text_back none = refl
  optional_text_back (some s) = refl
