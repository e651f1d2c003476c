-- ===== src/Reads/Ranges.antt =====
-- backend/app/db/read_repository.py: the ranges of what is normalised, and the length of a ranking.
use meridian_logistics.Prelude.{
  ℕ, zero, suc, ◌≤◌, String, ◌≡◌, Option, none, some, List, [], ◌∷◌, arith, ap, length, inl, inr,
}
use meridian_logistics.Python.{Result, ok, err, Result-cases, null, bool, number, text, other}
use meridian_logistics.Python.Laws.{and_then-eq-ok}
use meridian_logistics.Python.Json.{Reader, Json, text_leaf, leaf, array, object, int_json}
use meridian_logistics.Table.{limit}
use meridian_logistics.Reads.Bounds.{
  coerce_bounded_int, bounded, candidate, normalize_limit, max_read_limit, normalize_ranking_metric,
  normalize_date_range_days,
}
use meridian_logistics.Reads.Repository.{ReadRepository, cutoff, bound}
use meridian_logistics.Reads.Joins.{Ranking, carrier_rankings, limited, bounded_limit}

bounded_range :
    (f : String) (maximum n : ℕ) (x : Result ℕ)
    → 1 ≤ maximum
    → bounded f maximum x ≡ ok n
    → (1 ≤ n) × (n ≤ maximum)
unfolding bounded
bounded_range f maximum n (ok m) p h = ground (arith, h)
bounded_range f maximum n (err e) p h = absurd (ground (arith, h))

module _ (r : Reader) (f : String) (maximum n : ℕ) (p : 1 ≤ maximum) where
  coerced_range : (j : Json) → coerce_bounded_int r j f maximum ≡ ok n → (1 ≤ n) × (n ≤ maximum)
  unfolding coerce_bounded_int
  coerced_range (leaf (bool b)) h = absurd (cc h)
  coerced_range (leaf null) h = bounded_range f maximum n (int_json r (candidate (leaf null))) p h
  coerced_range (leaf (text s)) h =
      bounded_range f maximum n (int_json r (candidate (leaf (text s)))) p h
  coerced_range (leaf (number m)) h =
      bounded_range f maximum n (int_json r (candidate (leaf (number m)))) p h
  coerced_range (leaf (other s t)) h =
      bounded_range f maximum n (int_json r (candidate (leaf (other s t)))) p h
  coerced_range (array xs) h = bounded_range f maximum n (int_json r (candidate (array xs))) p h
  coerced_range (object fs) h = bounded_range f maximum n (int_json r (candidate (object fs))) p h

  coerced_again : 1 ≤ n → n ≤ maximum → coerce_bounded_int r (leaf (number n)) f maximum ≡ ok n
  unfolding coerce_bounded_int int_json bounded
  coerced_again a b = ground arith

-- What is normalised within a maximum, whatever value it is read from, lies between 1 and the maximum,
-- and is normalised again to itself.
pub coerce_bounded_int_range :
    (r : Reader) (j : Json) (f : String) (maximum n : ℕ)
    → 1 ≤ maximum
    → coerce_bounded_int r j f maximum ≡ ok n
    → (1 ≤ n) × (n ≤ maximum) × (coerce_bounded_int r (leaf (number n)) f maximum ≡ ok n)
coerce_bounded_int_range r j f maximum n p h =
    let (a, b) = coerced_range r f maximum n p j h in (a, b, coerced_again r f maximum n p a b)

length-limit : {A : Type 0} (n : ℕ) (t : List A) → length (limit n t) ≤ n
unfolding limit
length-limit zero t = omega arith
length-limit (suc n) [] = omega arith
length-limit (suc n) (x ∷ t) = omega (arith, length-limit n t)

limited_most :
    (r : ReadRepository) (n : ℕ) (most : Option ℕ)
    → bounded_limit r (some n) ≡ ok most
    → (m : ℕ) × (most ≡ some m) × (1 ≤ n) × (m ≤ n) × (m ≤ max_read_limit)
unfolding bounded_limit normalize_limit int_json
limited_most r n most h = elim (Result-cases (bounded "limit" max_read_limit (ok n))) [
  | inl (m, e) ↦ (
    m,
    unfold bounded in ground (arith, h, e),
    unfold bounded in ground (arith, e),
    unfold bounded in ground (arith, e),
    unfold bounded in ground (arith, e),
  )
  | inr (x, e) ↦ absurd (unfold bounded in ground (arith, h, e))
]

limited_rows :
    (r : ReadRepository) (most : Option ℕ) (m : ℕ) (t rows : List Ranking)
    → most ≡ some m
    → ok (limited r most t) ≡ ok rows
    → length rows ≤ m
unfolding limited
limited_rows r none m t rows e h = absurd (cc e)
limited_rows r (some k) m t rows e h =
    let same : limit k t ≡ rows = cc h in
    omega (arith, length-limit k t, ap length same, same_number e)
  where
    same_number : some k ≡ some m → k ≡ m
    same_number e = cc

-- A ranking that is asked for with a limit has at most five rows and no more than the limit, which is
-- at least one.
pub carrier_rankings_limited :
    (r : ReadRepository) (office metric : String) (days n : ℕ) (mode weight region : Json)
    (rows : List Ranking)
    → carrier_rankings r office metric days mode weight region (some n) ≡ ok rows
    → (1 ≤ n) × (length rows ≤ n) × (length rows ≤ 5)
unfolding carrier_rankings
carrier_rankings_limited r office metric days n mode weight region rows h =
    and_then-eq-ok (normalize_ranking_metric (text_leaf metric)) _ h λ k h1 r1.
      and_then-eq-ok (normalize_date_range_days r.reader (leaf (number days))) _ r1 λ d h2 r2.
        and_then-eq-ok (bounded_limit r (some n)) _ r2 λ most h3 r3.
          let (m, e, p, l, five) = limited_most r n most h3 in
          and_then-eq-ok (cutoff r office d) _ r3 λ start h4 r4.
            and_then-eq-ok (bound mode) _ r4 λ x h5 r5.
              and_then-eq-ok (bound weight) _ r5 λ y h6 r6.
                and_then-eq-ok (bound region) _ r6 λ z h7 r7.
                  let short : length rows ≤ m = limited_rows r most m _ rows e r7 in
                  (p, omega arith, omega arith)
