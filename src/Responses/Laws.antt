-- ===== src/Responses/Laws.antt =====
-- backend/app/responses/builder.py: what an envelope that was built holds.
use meridian_logistics.Prelude.{
  ◌≡◌, refl, ap, ◌∙◌, Bool, true, false, inl, inr, Option-cases, Bool-cases, ◌==◌, some, eq_refl,
  String,
}
use meridian_logistics.Python.{ok, Dict, get, null}
use meridian_logistics.Python.Json.{Reader, Json, leaf, array, nil}
use meridian_logistics.Python.Laws.{get-put}
use meridian_logistics.Responses.{
  set_default, with_defaults, is_given, with_components, build_response_envelope,
}

get-set_default :
    (d : Dict Json) (k : String) (v : Json) (j : String)
    → (k == j) ≡ false
    → get (set_default d k v) j ≡ get d j
unfolding set_default
get-set_default d k v j n = elim (Option-cases (get d k)) [
  | inl e ↦ rw e (get-put d k v j ∙ rw n refl)
  | inr (w, e) ↦ rw e refl
]

get-with_components :
    (r : Reader) (d : Dict Json) (j : String)
    → ("components" == j) ≡ false
    → get (with_components r d) j ≡ get d j
unfolding with_components
get-with_components r d j n = elim (Bool-cases (is_given (get d "components"))) [
  | inl e ↦ rw e refl
  | inr e ↦ rw e (get-put d "components" _ j ∙ rw n refl)
]

-- The keys that the builder may set.
pub record IsKept (j : String) : Type 0 where
  pub actions : ("actions" == j) ≡ false
  pub follow_up_prompt : ("follow_up_prompt" == j) ≡ false
  pub trace_id : ("trace_id" == j) ≡ false
  pub components : ("components" == j) ≡ false

module _ (r : Reader) (is_valid : Dict Json → Bool) (d e : Dict Json)
    (h : build_response_envelope r is_valid d ≡ ok e) where
  pub built : e ≡ with_components r (with_defaults d)
  unfolding build_response_envelope
  built = elim (Bool-cases (is_valid (with_components r (with_defaults d)))) [
    | inl v ↦ cc (h, v)
    | inr v ↦ absurd (cc (h, v))
  ]

  pub built_valid : is_valid e ≡ true
  unfolding build_response_envelope
  built_valid = elim (Bool-cases (is_valid (with_components r (with_defaults d)))) [
    | inl v ↦ rw built v
    | inr v ↦ absurd (cc (h, v))
  ]

  pub get-built : (j : String) → IsKept j → get e j ≡ get d j
  unfolding with_defaults
  get-built j k =
      ap (λ (x : Dict Json). get x j) built
      ∙ get-with_components r (with_defaults d) j k.components
      ∙ get-set_default _ "trace_id" (leaf null) j k.trace_id
      ∙ get-set_default _ "follow_up_prompt" (leaf null) j k.follow_up_prompt
      ∙ get-set_default d "actions" (array nil) j k.actions

set_default-present :
    (d : Dict Json) (k : String) (v w : Json) → get d k ≡ some w → set_default d k v ≡ d
unfolding set_default
set_default-present d k v w h = rw h refl

-- A key with a value keeps one, and the key that is set has one.
abbrev Has : Dict Json → String → Type 0
Has d k = (w : Json) × (get d k ≡ some w)

set_default-Has : (d : Dict Json) (k : String) (v : Json) → Has (set_default d k v) k
unfolding set_default
set_default-Has d k v = elim (Option-cases (get d k)) [
  | inl e ↦ (v, rw e (get-put d k v k ∙ rw (eq_refl k) refl))
  | inr (w, e) ↦ (w, rw e e)
]

Has-set_default :
    (d : Dict Json) (k : String) (v : Json) (j : String) → Has d j → Has (set_default d k v) j
unfolding set_default
Has-set_default d k v j (w, h) = elim (Option-cases (get d k)) [
  | inr (x, e) ↦ (w, rw e h)
  | inl e ↦ elim (Bool-cases (k == j)) [
    | inl same ↦ (v, rw e (get-put d k v j ∙ rw same refl))
    | inr apart ↦ (w, rw e (get-put d k v j ∙ rw apart h))
  ]
]

Has-with_components :
    (r : Reader) (d : Dict Json) (j : String)
    → ("components" == j) ≡ false
    → Has d j
    → Has (with_components r d) j
Has-with_components r d j n (w, h) = (w, get-with_components r d j n ∙ h)

components_given :
    (r : Reader) (d : Dict Json) → is_given (get (with_components r d) "components") ≡ true
unfolding with_components
components_given r d = elim (Bool-cases (is_given (get d "components"))) [
  | inl e ↦ rw e e
  | inr e ↦ rw (e, get-put d "components" _ "components") refl
]

module _ (r : Reader) (d : Dict Json) where
  abbrev envelope : Dict Json
  envelope = with_components r (with_defaults d)

  abbrev once : Dict Json
  once = set_default d "actions" (array nil)

  abbrev twice : Dict Json
  twice = set_default once "follow_up_prompt" (leaf null)

  same_defaults : with_defaults envelope ≡ envelope
  unfolding with_defaults
  same_defaults =
      let a = Has-with_components r (with_defaults d) "actions" refl (
        Has-set_default twice "trace_id" (leaf null) "actions" (
          Has-set_default once "follow_up_prompt" (leaf null) "actions"
            (set_default-Has d "actions" (array nil)))) in
      let f = Has-with_components r (with_defaults d) "follow_up_prompt" refl (
        Has-set_default twice "trace_id" (leaf null) "follow_up_prompt"
          (set_default-Has once "follow_up_prompt" (leaf null))) in
      let t =
        Has-with_components r (with_defaults d) "trace_id" refl
          (set_default-Has twice "trace_id" (leaf null)) in
      rw
        (
          set_default-present envelope "actions" (array nil) a.0 a.1,
          set_default-present envelope "follow_up_prompt" (leaf null) f.0 f.1,
        )
        (set_default-present envelope "trace_id" (leaf null) t.0 t.1)

  same_components : with_components r envelope ≡ envelope
  same_components = unfold with_components in rw (components_given r (with_defaults d)) refl

-- An envelope that was built is valid, has some component, and is built again to itself; the keys that
-- the builder does not set are those of the payload.
pub build_response_envelope_again :
    (r : Reader) (is_valid : Dict Json → Bool) (d e : Dict Json) (j : String)
    → IsKept j
    → build_response_envelope r is_valid d ≡ ok e
    → (build_response_envelope r is_valid e ≡ ok e)
      × (is_valid e ≡ true)
      × (is_given (get e "components") ≡ true)
      × (get e j ≡ get d j)
build_response_envelope_again r is_valid d e j k h =
    let b = built r is_valid d e h in
    let v = built_valid r is_valid d e h in
    (
      unfold build_response_envelope in rw (again, v) refl,
      v,
      rw b (components_given r (with_defaults d)),
      get-built r is_valid d e h j k,
    )
  where
    again : with_components r (with_defaults e) ≡ e
    again =
        rw (built r is_valid d e h)
          (ap (with_components r) (same_defaults r d) ∙ same_components r d)
