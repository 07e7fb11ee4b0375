-- ===== src/History/Percentile.antt =====
-- history.py, `latency_percentiles`: the least value whose CUME_DIST reaches a percentage is the
-- value at its nearest rank.
use vigil_sre.Prelude.{
  ℕ, suc, ◌+◌, ◌-◌, ◌*◌, ◌/◌, ◌≤◌, Bool, false, ◌||◌, Option, List, [], ◌∷◌, get_elem?, length, leb,
  ◌==◌, if◌then◌else◌, ◌≡◌, refl, ap, ◌∙◌, arith, Bool-cases, inl, inr,
}
use vigil_sre.History.Reads.{count_le}

unfoldable insert_sorted : ℕ → List ℕ → List ℕ
insert_sorted x [] = x ∷ []
insert_sorted x (y ∷ ys) = if leb x y then x ∷ (y ∷ ys) else y ∷ insert_sorted x ys

unfoldable pub insertion_sort : List ℕ → List ℕ
unfolding insert_sorted
insertion_sort [] = []
insertion_sort (x ∷ xs) = insert_sorted x (insertion_sort xs)

-- The value at index ceil(pct * n / 100) of the sorted values, counted from 1.
unfoldable pub nearest_rank : ℕ → List ℕ → Option ℕ
unfolding insertion_sort get_elem?
nearest_rank pct xs = get_elem? (insertion_sort xs) ((pct * length xs + 99) / 100 - 1)

unfoldable pub Above : ℕ → List ℕ → Type 0
Above x [] = Unit
Above x (y ∷ ys) = (x ≤ y) × Above x ys

unfoldable pub Ascending : List ℕ → Type 0
unfolding Above
Ascending [] = Unit
Ascending (x ∷ xs) = Above x xs × Ascending xs

unfoldable pub has : ℕ → List ℕ → Bool
has x [] = false
has x (y ∷ ys) = x == y || has x ys

Above-≤ : (x y : ℕ) (ys : List ℕ) → x ≤ y → Above y ys → Above x ys
unfolding Above
Above-≤ x y [] h a = tt
Above-≤ x y (z ∷ zs) h (b, a) = (omega arith, Above-≤ x y zs h a)

Above-insert_sorted : (x y : ℕ) (ys : List ℕ) → x ≤ y → Above x ys → Above x (insert_sorted y ys)
unfolding Above insert_sorted
Above-insert_sorted x y [] h a = (h, tt)
Above-insert_sorted x y (z ∷ zs) h (b, a) = elim (Bool-cases (leb y z)) [
  | inl e ↦ rw e (h, (b, a))
  | inr e ↦ rw e (b, Above-insert_sorted x y zs h a)
]

insert_sorted-Ascending : (x : ℕ) (ys : List ℕ) → Ascending ys → Ascending (insert_sorted x ys)
unfolding Ascending Above insert_sorted
insert_sorted-Ascending x [] s = (tt, tt)
insert_sorted-Ascending x (y ∷ ys) (a, s) = elim (Bool-cases (leb x y)) [
  | inl e ↦ let h : x ≤ y = ground arith in rw e ((h, Above-≤ x y ys h a), (a, s))
  | inr e ↦
      let h : y ≤ x = ground arith in
      rw e (Above-insert_sorted y x ys h a, insert_sorted-Ascending x ys s)
]

pub insertion_sort-Ascending : (xs : List ℕ) → Ascending (insertion_sort xs)
unfolding insertion_sort Ascending
insertion_sort-Ascending [] = tt
insertion_sort-Ascending (x ∷ xs) = insert_sorted-Ascending x _ (insertion_sort-Ascending xs)

length-insert_sorted : (x : ℕ) (ys : List ℕ) → length (insert_sorted x ys) ≡ suc (length ys)
unfolding insert_sorted
length-insert_sorted x [] = refl
length-insert_sorted x (y ∷ ys) = ground (arith, length-insert_sorted x ys)

pub length-insertion_sort : (xs : List ℕ) → length (insertion_sort xs) ≡ length xs
unfolding insertion_sort
length-insertion_sort [] = refl
length-insertion_sort (x ∷ xs) =
    length-insert_sorted x (insertion_sort xs) ∙ ap suc (length-insertion_sort xs)

count_le-insert_sorted :
    (v x : ℕ) (ys : List ℕ)
    → count_le v (insert_sorted x ys) ≡ (if leb x v then suc (count_le v ys) else count_le v ys)
unfolding insert_sorted count_le
count_le-insert_sorted v x [] = ground arith
count_le-insert_sorted v x (y ∷ ys) = ground (arith, count_le-insert_sorted v x ys)

pub count_le-insertion_sort : (v : ℕ) (xs : List ℕ) → count_le v (insertion_sort xs) ≡ count_le v xs
unfolding insertion_sort count_le
count_le-insertion_sort v [] = refl
count_le-insertion_sort v (x ∷ xs) =
    ground (arith, count_le-insert_sorted v x (insertion_sort xs), count_le-insertion_sort v xs)

has-insert_sorted : (v x : ℕ) (ys : List ℕ) → has v (insert_sorted x ys) ≡ (v == x || has v ys)
unfolding insert_sorted has
has-insert_sorted v x [] = ground arith
has-insert_sorted v x (y ∷ ys) = ground (arith, has-insert_sorted v x ys)

pub has-insertion_sort : (v : ℕ) (xs : List ℕ) → has v (insertion_sort xs) ≡ has v xs
unfolding insertion_sort has
has-insertion_sort v [] = refl
has-insertion_sort v (x ∷ xs) =
    ground (arith, has-insert_sorted v x (insertion_sort xs), has-insertion_sort v xs)
