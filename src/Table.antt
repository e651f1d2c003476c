-- ===== src/Table.antt =====
-- A database table as the list of its rows: the statements that the stores execute. A predicate is
-- a WHERE clause, a function on rows a SET list.
pub mod Laws
use meridian_logistics.Prelude.{
  ℕ, zero, suc, String, Bool, true, false, Option, none, some, List, [], ◌∷◌, ◌++◌, ◌==◌,
  if◌then◌else◌,
}

module _ {R : Type 0} where
  -- SELECT * FROM t WHERE p, then fetchone()
  unfoldable pub select_one : (R → Bool) → List R → Option R
  select_one p [] = none
  select_one p (r ∷ t) = if p r then some r else select_one p t

  abbrev pub apply_if : (R → Bool) → (R → R) → R → R
  apply_if p f r = if p r then f r else r

  -- UPDATE t SET f WHERE p
  unfoldable pub update : (R → Bool) → (R → R) → List R → List R
  update p f [] = []
  update p f (r ∷ t) = apply_if p f r ∷ update p f t

  abbrev exists : Option R → Bool
  exists none = false
  exists (some r) = true

  -- INSERT INTO t, which fails on a primary key that is there (`p` finds it)
  unfoldable pub insert : (R → Bool) → R → List R → Option (List R)
  unfolding select_one
  insert p r t = if exists (select_one p t) then none else some (t ++ r ∷ [])

  -- SELECT * FROM t WHERE p, then fetchall()
  unfoldable pub select_all : (R → Bool) → List R → List R
  select_all p [] = []
  select_all p (r ∷ t) = let rest = select_all p t in if p r then r ∷ rest else rest

  -- LIMIT n
  unfoldable pub limit : ℕ → List R → List R
  limit zero t = []
  limit (suc n) [] = []
  limit (suc n) (r ∷ t) = r ∷ limit n t

  -- DELETE FROM t WHERE p
  unfoldable pub delete : (R → Bool) → List R → List R
  delete p [] = []
  delete p (r ∷ t) = let rest = delete p t in if p r then rest else r ∷ rest

  -- One row of an ORDER BY: before the first row that it precedes.
  place : (R → R → Bool) → R → List R → List R
  place precedes r [] = r ∷ []
  place precedes r (x ∷ t) =
      let rest = place precedes r t in if precedes r x then r ∷ x ∷ t else x ∷ rest

  -- ORDER BY, where `precedes` is the strict order; the order of other rows is left
  -- open by SQL, and here the later comes first.
  unfoldable pub order_by : (R → R → Bool) → List R → List R
  unfolding place
  order_by precedes [] = []
  order_by precedes (r ∷ t) = place precedes r (order_by precedes t)
