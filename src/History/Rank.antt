-- ===== src/History/Rank.antt =====
-- history.py, `latency_percentiles`: the least value whose CUME_DIST reaches a percentage.
use vigil_sre.Prelude.{
  ℕ, zero, suc, ◌+◌, ◌-◌, ◌*◌, ◌/◌, ◌≤◌, ◌<◌, String, true, Option, some, List, [], ◌∷◌, filter,
  filter-same, get_elem?, length, leb, ◌==◌, ◌≡◌, refl, ap, ◌∙◌, sym, arith, Bool-cases,
  Option-cases, inl, inr,
}
use native.Mathlib.Nat.{mul-le-mul_right, mul-pos}
use vigil_sre.History.{Database}
use vigil_sre.History.Reads.{
  is_selected, ttfbs, count_le, reaches, min_of, min_reaching, percentiles_of, percentile_rows,
}
use vigil_sre.History.Percentile.{
  insertion_sort, nearest_rank, Above, Ascending, has, insertion_sort-Ascending,
  length-insertion_sort, count_le-insertion_sort, has-insertion_sort,
}

Above-get : (x v k : ℕ) (ys : List ℕ) → Above x ys → get_elem? ys k ≡ some v → x ≤ v
unfolding Above get_elem?
Above-get x v k [] a e = cc
Above-get x v zero (y ∷ ys) (h, a) e = ground arith
Above-get x v (suc k) (y ∷ ys) (h, a) e = Above-get x v k ys a e

Above-none : (x y : ℕ) (ys : List ℕ) → Above x ys → y < x → count_le y ys ≡ 0
unfolding Above count_le
Above-none x y [] a h = refl
Above-none x y (z ∷ zs) (b, a) h = ground (arith, Above-none x y zs a h)

-- The value at place k is at most y exactly if more than k values are.
rank_below :
    (k v y : ℕ) (s : List ℕ)
    → Ascending s
    → get_elem? s k ≡ some v
    → leb (suc k) (count_le y s) ≡ leb v y
unfolding Ascending get_elem? count_le
rank_below k v y [] h e = cc
rank_below zero v y (x ∷ xs) (a, h) e = ground (arith, Above-none x y xs a)
rank_below (suc k) v y (x ∷ xs) (a, h) e =
    ground (arith, Above-get x v k xs a e, Above-none x y xs a, rank_below k v y xs h e)

has_get : (k v : ℕ) (s : List ℕ) → get_elem? s k ≡ some v → has v s ≡ true
unfolding has get_elem?
has_get k v [] e = cc
has_get zero v (x ∷ xs) e = ground arith
has_get (suc k) v (x ∷ xs) e = ground (arith, has_get k v xs e)

absurd : (k : ℕ) → k < 0 → ⊥
absurd k h = omega arith

get_some : (k : ℕ) (s : List ℕ) → k < length s → (v : ℕ) × (get_elem? s k ≡ some v)
unfolding get_elem?
get_some k [] h = elim (absurd k h) [ ]
get_some zero (x ∷ xs) h = (x, refl)
get_some (suc k) (x ∷ xs) h = get_some k xs (omega arith)

min_of_bound : (v m : ℕ) (xs : List ℕ) → min_of (filter (leb v) xs) ≡ some m → v ≤ m
unfolding min_of
min_of_bound v m [] e = cc
min_of_bound v m (x ∷ xs) e = elim (Bool-cases (leb v x)) [
  | inl b ↦ elim (Option-cases (min_of (filter (leb v) xs))) [
    | inl n ↦ ground arith
    | inr (w, p) ↦ ground (arith, min_of_bound v w xs p)
  ]
  | inr b ↦ min_of_bound v m xs (rw b at e)
]

min_of-filter : (v : ℕ) (xs : List ℕ) → has v xs ≡ true → min_of (filter (leb v) xs) ≡ some v
unfolding min_of has
min_of-filter v [] h = cc
min_of-filter v (x ∷ xs) h = elim (Bool-cases (v == x)) [
  | inl b ↦ elim (Option-cases (min_of (filter (leb v) xs))) [
    | inl n ↦ ground arith
    | inr (w, p) ↦ ground (arith, min_of_bound v w xs p)
  ]
  | inr b ↦ ground (arith, min_of-filter v xs)
]

threshold : (a c : ℕ) → 0 < a → leb a (100 * c) ≡ leb (suc ((a + 99) / 100 - 1)) c
threshold a c h = ground arith

scaled : (pct n : ℕ) → pct ≤ 100 → pct * n ≤ 100 * n
scaled pct n h = mul-le-mul_right n h

scaled_pos : (pct n : ℕ) → 0 < pct → 0 < pct * suc n
scaled_pos pct n h = mul-pos h (omega arith)

reaches_rank :
    (pct : ℕ) (xs : List ℕ) (v : ℕ)
    → 0 < pct * length xs
    → nearest_rank pct xs ≡ some v
    → (y : ℕ) → reaches pct xs y ≡ leb v y
unfolding reaches nearest_rank
reaches_rank pct xs v pos e y =
    let k = (pct * length xs + 99) / 100 - 1 in
    let rank = rank_below k v y (insertion_sort xs) (insertion_sort-Ascending xs) e in
    threshold (pct * length xs) (count_le y xs) pos
    ∙ ap (leb (suc k)) (sym (count_le-insertion_sort y xs))
    ∙ rank

min_reaching-some :
    (pct : ℕ) (xs : List ℕ) (v : ℕ)
    → 0 < pct * length xs
    → nearest_rank pct xs ≡ some v
    → min_reaching pct xs ≡ some v
unfolding min_reaching nearest_rank
min_reaching-some pct xs v pos e =
    ap min_of (filter-same (reaches pct xs) (leb v) xs (reaches_rank pct xs v pos e))
    ∙ min_of-filter v xs (sym (has-insertion_sort v xs) ∙ has_get _ v (insertion_sort xs) e)

pub nearest_rank-some :
    (pct x : ℕ) (xs : List ℕ) → pct ≤ 100 → (v : ℕ) × (nearest_rank pct (x ∷ xs) ≡ some v)
unfolding nearest_rank
nearest_rank-some pct x xs h =
    get_some _ (insertion_sort (x ∷ xs))
      (omega (arith, scaled pct (suc (length xs)) h, length-insertion_sort (x ∷ xs)))

-- The least measured value whose share of values at or below it reaches a percentage between 1 and
-- 100 is the value at the nearest rank of that percentage: the one at index ceil(pct * n / 100) of
-- the sorted values, counted from 1. Without a measured value there is neither.
pub min_reaching_lem :
    (pct : ℕ) (xs : List ℕ) → 0 < pct → pct ≤ 100 → min_reaching pct xs ≡ nearest_rank pct xs
unfolding min_reaching nearest_rank get_elem? insertion_sort min_of
min_reaching_lem pct [] p q = refl
min_reaching_lem pct (x ∷ xs) p q =
    let (v, e) = nearest_rank-some pct x xs q in
    min_reaching-some pct (x ∷ xs) v (scaled_pos pct (length xs) p) e ∙ sym e

-- For any target and window, the reported p50 and p95 are the nearest-rank percentiles of the
-- measured values, and the counts are those of the measured values and of all rows.
pub percentile_rows_lem :
    (url : String) (since : ℕ) (until : Option ℕ) (db : Database)
    → let rows = filter (is_selected url since until) db.results in
      percentile_rows url since until db
      ≡ percentiles_of
          (nearest_rank 50 (ttfbs rows))
          (nearest_rank 95 (ttfbs rows))
          (length (ttfbs rows))
          (length rows)
unfolding percentile_rows
percentile_rows_lem url since until db =
    let xs = ttfbs (filter (is_selected url since until) db.results) in
    rw
      (
        min_reaching_lem 50 xs (omega arith) (omega arith),
        min_reaching_lem 95 xs (omega arith) (omega arith),
      )
      refl
