-- ===== src/History/Strip/Groups.antt =====
-- history.py, `status_strip`: which group ends up in a slot.
use vigil_sre.Prelude.{
  ℕ, zero, suc, ◌-◌, ◌<◌, String, Bool, true, false, ◌&&◌, Option, none, some, List, [], ◌∷◌,
  filter, get_elem?, get_or, ltb, ◌==◌, if◌then◌else◌, min, str_eq, eq_iff, ◌≡◌, refl, arith,
}
use vigil_sre.Prelude.Dict.{contains, lookup, insert, lookup-insert}
use vigil_sre.State.Record.{Status}
use vigil_sre.History.{Row}
use vigil_sre.History.Strip.{
  Strips, min_rank, rank_to_status, none_times, add_blank, blank, set_at, is_in_group, has_key,
  write_slot, paint,
}

abbrev in_strip : ℕ → Option (List (Option Status)) → Option (Option Status)
in_strip i none = none
in_strip i (some strip) = get_elem? strip i

-- `strips[url][i]`
unfoldable pub slot : String → ℕ → Strips → Option (Option Status)
unfolding lookup get_elem?
slot u i strips = in_strip i (lookup u strips)

abbrev pub overwrite : Bool → Option Status → Option (Option Status) → Option (Option Status)
overwrite false s old = old
overwrite true s none = none
overwrite true s (some old) = some s

get_elem-set_at :
    (i n : ℕ) (s : Option Status) (xs : List (Option Status))
    → get_elem? (set_at n s xs) i ≡ overwrite (n == i) s (get_elem? xs i)
unfolding set_at get_elem?
get_elem-set_at i n s [] = ground arith
get_elem-set_at zero zero s (x ∷ xs) = refl
get_elem-set_at (suc i) zero s (x ∷ xs) = ground arith
get_elem-set_at zero (suc n) s (x ∷ xs) = ground arith
get_elem-set_at (suc i) (suc n) s (x ∷ xs) = ground (arith, get_elem-set_at i n s xs)

get_elem-none_times : (i n : ℕ) → get_elem? (none_times n) i ≡ (if ltb i n then some none else none)
unfolding none_times get_elem?
get_elem-none_times i zero = ground arith
get_elem-none_times zero (suc n) = ground arith
get_elem-none_times (suc i) (suc n) = ground (arith, get_elem-none_times i n)

lookup-add_blank :
    (u : String) (n : ℕ) (urls : List String) (strips : Strips)
    → lookup u (add_blank n urls strips)
      ≡ (if contains urls u then some (none_times n) else lookup u strips)
unfolding add_blank contains
lookup-add_blank u n [] strips = refl
lookup-add_blank u n (v ∷ vs) strips = ground (
  arith,
  lookup-add_blank u n vs (insert v (none_times n) strips),
  lookup-insert v u (none_times n) strips,
)

pub slot-blank :
    (u : String) (i n : ℕ) (urls : List String)
    → contains urls u ≡ true
    → slot u i (blank n urls) ≡ (if ltb i n then some none else none)
unfolding slot lookup
slot-blank u i n urls h = rw (lookup-add_blank u n urls [], h) (get_elem-none_times i n)

unfoldable pub AllBelow : ℕ → List (String × ℕ) → Type 0
AllBelow n [] = Unit
AllBelow n (k ∷ ks) = (k.1 < n) × AllBelow n ks

module _ (bucket : ℕ → ℕ) (buckets : ℕ) (rows : List Row) where
  -- What the rows of a key make of a slot.
  unfoldable pub shown : String × ℕ → Option Status
  shown k = rank_to_status (min_rank (filter (is_in_group bucket buckets k) rows))

  slot-write_slot :
      (k : String × ℕ) (strips : Strips) (u : String) (i : ℕ)
      → k.1 < buckets
      → slot u i (write_slot bucket buckets rows k strips)
        ≡ overwrite (str_eq k.0 u && k.1 == i) (shown (u, i)) (slot u i strips)
  unfolding slot write_slot shown
  slot-write_slot (v, j) strips u i h =
      let strip : List (Option Status) = get_or (lookup v strips) [] in
      ground (
        arith,
        eq_iff v u,
        lookup-insert v u (set_at (min j (buckets - 1)) (shown (v, j)) strip) strips,
        get_elem-set_at i (min j (buckets - 1)) (shown (v, j)) strip,
      )

  pub slot-paint :
      (ks : List (String × ℕ)) (strips : Strips) (u : String) (i : ℕ)
      → AllBelow buckets ks
      → slot u i (paint bucket buckets rows ks strips)
        ≡ overwrite (has_key (u, i) ks) (shown (u, i)) (slot u i strips)
  unfolding paint AllBelow has_key
  slot-paint [] strips u i a = refl
  slot-paint (k ∷ ks) strips u i (b, a) =
      let rest = paint bucket buckets rows ks strips in
      ground (arith, slot-write_slot k rest u i b, slot-paint ks strips u i a)
