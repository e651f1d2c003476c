-- ===== src/Table/Laws.antt =====
-- What a statement on a table does to the row that a query finds.
use mathlib.Core.List.{Memᴰ}
use meridian_logistics.Prelude.{
  ◌≡◌, refl, Bool, true, false, Option, none, some, List, [], ◌∷◌, ◌++◌, arith, ap, ◌&&◌,
  option_map, All, Bool-cases, inl, inr, if◌then◌else◌,
}
use meridian_logistics.Table.{select_one, update, delete, apply_if}

module _ {R : Type 0} (q p : R → Bool) (f : R → R) (same : (r : R) → q (f r) ≡ q r) where
  -- If the SET list leaves what the query reads, the query finds the row updated.
  pub select-update :
      (t : List R) → select_one q (update p f t) ≡ option_map (apply_if p f) (select_one q t)
  unfolding select_one update
  select-update [] = refl
  select-update (r ∷ t) = ground (arith, same r, select-update t)

module _ {R : Type 0} (q : R → Bool) where
  -- What a query finds satisfies it.
  pub select_holds : (t : List R) (r : R) → select_one q t ≡ some r → q r ≡ true
  unfolding select_one
  select_holds [] r h = ground arith
  select_holds (x ∷ t) r h = ground (arith, select_holds t r)

  -- A query over a table with one more row at the end.
  pub select-snoc :
      (t : List R) (x : R)
      → select_one q (t ++ x ∷ [])
        ≡ elim (select_one q t) [ none ↦ if q x then some x else none | some r ↦ some r ]
  unfolding select_one
  select-snoc [] x = ground arith
  select-snoc (r ∷ t) x = ground (arith, select-snoc t x)

module _ {R : Type 0} (q : R → Bool) where
  -- A query that finds nothing refutes every row.
  pub select_none : (t : List R) → select_one q t ≡ none → All (λ r. q r ≡ false) t
  unfolding select_one
  select_none [] h = tt
  select_none (x ∷ t) h = (ground arith, select_none t (ground arith))

  -- What a query finds is a row.
  pub select-Memᴰ : (t : List R) (r : R) → select_one q t ≡ some r → Memᴰ r t
  unfolding select_one
  select-Memᴰ [] r h = absurd (ground arith)
  select-Memᴰ (x ∷ t) r h = elim (Bool-cases (q x)) [
    | inl e ↦ Memᴰ.head (ground arith)
    | inr e ↦ Memᴰ.tail (select-Memᴰ t r (ground arith))
  ]

-- The first row, where the condition holds of it.
first_found :
    {R : Type 0} {b : Bool} (x r : R) (o : Option R)
    → b ≡ true
    → (if b then some x else o) ≡ some r
    → x ≡ r
first_found x r o f h = ground arith

module _ {R : Type 0} (p q : R → Bool) where
  -- A first match of one condition that meets another is the first match of both.
  pub select_and :
      (t : List R) (r : R)
      → select_one p t ≡ some r
      → q r ≡ true
      → select_one (λ x. p x && q x) t ≡ some r
  unfolding select_one
  select_and [] r h e = ground arith
  select_and (x ∷ t) r h e = elim (Bool-cases (p x)) [
    | inl f ↦ ground (arith, ap q (first_found x r _ f h))
    | inr f ↦ ground (arith, select_and t r (ground arith) e)
  ]

module _ {R : Type 0} (p : R → Bool) (f : R → R) where
  -- An UPDATE whose WHERE clause finds no row changes nothing.
  pub update-none : (t : List R) → select_one p t ≡ none → update p f t ≡ t
  unfolding select_one update
  update-none [] h = refl
  update-none (x ∷ t) h = elim (Bool-cases (p x)) [
    | inl e ↦ ground arith
    | inr e ↦ ground (arith, update-none t (ground arith))
  ]

module _ {R : Type 0} (q p : R → Bool) where
  -- A row that is found and not deleted is found afterwards.
  pub select-delete :
      (t : List R) (r : R)
      → select_one q t ≡ some r
      → p r ≡ false
      → select_one q (delete p t) ≡ some r
  unfolding select_one delete
  select-delete [] r h e = h
  select-delete (x ∷ t) r h e = elim (Bool-cases (q x)) [
    | inl f ↦ ground (arith, ap p (first_found x r _ f h))
    | inr f ↦ ground (arith, select-delete t r (ground arith) e)
  ]
