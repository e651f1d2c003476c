-- ===== src/Python/Laws.antt =====
-- The dictionaries of Python.antt: what an assignment and a deletion do to a lookup.
use meridian_logistics.Prelude.{
  String, ◌≡◌, refl, ap, none, some, [], ◌∷◌, arith, ◌==◌, eq_iff, if◌then◌else◌,
}
use meridian_logistics.Python.{
  Dict, get, put, pop, Result, ok, err, Exec, continue, ◌>>=◌, and_then,
}

module _ {V : Type 0} where
  pub get-put :
      (d : Dict V) (k : String) (v : V) (j : String)
      → get (put d k v) j ≡ (if k == j then some v else get d j)
  unfolding get put
  get-put [] k v j = refl
  get-put ((i, w) ∷ d) k v j = ground (arith, eq_iff i k, eq_iff i j, eq_iff k j, get-put d k v j)

  pub get-pop : (d : Dict V) (k j : String) → get (pop d k) j ≡ (if k == j then none else get d j)
  unfolding get pop
  get-pop [] k j = ground arith
  get-pop ((i, w) ∷ d) k j = ground (arith, eq_iff i k, eq_iff i j, eq_iff k j, get-pop d k j)

pub ruleset dict_laws = (get-put, get-pop)

module _ {S A B : Type 0} where
  pub continue-eq-ok :
      (r : Result A) (f : A → Exec S B) (s : S) {b : B} {t : S}
      → continue r f s ≡ (ok b, t)
      → (a : A) × (r ≡ ok a) × (f a s ≡ (ok b, t))
  continue-eq-ok (ok a) f s h = (a, refl, h)
  continue-eq-ok (err e) f s h = absurd (cc (ap (λ x. x.0) h))

  -- The parts of a statement that returned.
  pub >>=-eq-ok :
      (m : Exec S A) (f : A → Exec S B) (s : S) {b : B} {t : S}
      → (m >>= f) s ≡ (ok b, t)
      → (a : A) × ((m s).0 ≡ ok a) × (f a (m s).1 ≡ (ok b, t))
  >>=-eq-ok m f s h = continue-eq-ok (m s).0 f (m s).1 h

-- To go on from the parts of pure code that returned.
pub and_then-eq-ok :
    {A B C : Type 0} (r : Result A) (f : A → Result B) {b : B}
    → and_then r f ≡ ok b
    → ((a : A) → r ≡ ok a → f a ≡ ok b → C)
    → C
and_then-eq-ok (ok a) f h go = go a refl h
and_then-eq-ok (err e) f h go = absurd (cc h)
