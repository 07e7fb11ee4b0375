-- ===== src/History/Strip/Worst.antt =====
-- history.py, `status_strip`: a slot shows the worst of its probes.
use vigil_sre.Prelude.{
  ℕ, ◌<◌, String, Bool, true, false, not, ◌&&◌, ◌||◌, Option, none, some, List, [], ◌∷◌, filter,
  filter-same, leb, ltb, ◌==◌, if◌then◌else◌, is_some, str_eq, eq_iff, ◌≡◌, refl, ap, ◌∙◌, arith,
  Bool-cases, inl, inr,
}
use vigil_sre.Prelude.Dict.{contains}
use vigil_sre.State.Record.{Status, up, degraded, down, is_down, is_degraded}
use vigil_sre.History.{Row, Database}
use vigil_sre.History.Reads.{tables}
use vigil_sre.History.Strip.{
  Strips, rank, min_rank, rank_to_status, blank, bucket_of, is_in_group, has_key, group_keys,
  strip_rows, status_strip,
}
use vigil_sre.History.Strip.Groups.{AllBelow, overwrite, slot, slot-blank, shown, slot-paint}

abbrev pub any : (Row → Bool) → List Row → Bool
any p [] = false
any p (r ∷ rs) = p r || any p rs

-- The probe failed: it has no answer, or the target counts as DOWN.
abbrev pub is_failure : Row → Bool
is_failure r = not (is_some r.columns.measured.ttfb) || is_down r.columns.status

abbrev pub is_slow : Row → Bool
is_slow r = is_degraded r.columns.status

-- Nothing without probes; else DOWN if one failed, else DEGRADED if one is, else UP.
unfoldable pub worst_of : List Row → Option Status
worst_of [] = none
worst_of (r ∷ rs) =
    if any is_failure (r ∷ rs)
    then some down
    else if any is_slow (r ∷ rs)
    then some degraded
    else some up

min_rank_lem :
    (rs : List Row)
    → min_rank rs ≡ (if any is_failure rs then 1 else if any is_slow rs then 2 else 3)
unfolding min_rank rank
min_rank_lem [] = refl
min_rank_lem (r ∷ rs) = ground (arith, min_rank_lem rs)

rank_to_status-min_rank :
    (r : Row) (rs : List Row) → rank_to_status (min_rank (r ∷ rs)) ≡ worst_of (r ∷ rs)
unfolding rank_to_status worst_of
rank_to_status-min_rank r rs = elim (Bool-cases (any is_failure (r ∷ rs))) [
  | inl f ↦ rw (min_rank_lem (r ∷ rs), f) refl
  | inr f ↦ elim (Bool-cases (any is_slow (r ∷ rs))) [
    | inl d ↦ rw (min_rank_lem (r ∷ rs), f, d) refl
    | inr d ↦ rw (min_rank_lem (r ∷ rs), f, d) refl
  ]
]

-- Every row is in one of the buckets.
unfoldable pub AllWithin : (ℕ → ℕ) → ℕ → List Row → Type 0
AllWithin bucket buckets [] = Unit
AllWithin bucket buckets (r ∷ rs) =
    (bucket r.columns.checked_at < buckets) × AllWithin bucket buckets rs

AllWithin-filter :
    (bucket : ℕ → ℕ) (buckets : ℕ) (p : Row → Bool) (rs : List Row)
    → AllWithin bucket buckets rs
    → AllWithin bucket buckets (filter p rs)
unfolding AllWithin
AllWithin-filter bucket buckets p [] a = a
AllWithin-filter bucket buckets p (r ∷ rs) (h, a) = elim (Bool-cases (p r)) [
  | inl e ↦ rw e (h, AllWithin-filter bucket buckets p rs a)
  | inr e ↦ rw e (AllWithin-filter bucket buckets p rs a)
]

-- The probes of a target, not before `since`, that are in a bucket.
abbrev pub is_in_slot : ℕ → (ℕ → ℕ) → String → ℕ → Row → Bool
is_in_slot since bucket u i r =
    str_eq r.columns.url u && (leb since r.columns.checked_at && bucket r.columns.checked_at == i)

module _ (bucket : ℕ → ℕ) (buckets : ℕ) where
  has_key-group_keys :
      (u : String) (i : ℕ) (rs : List Row)
      → has_key (u, i) (group_keys bucket buckets rs) ≡ any (is_in_group bucket buckets (u, i)) rs
  unfolding has_key group_keys is_in_group
  has_key-group_keys u i [] = refl
  has_key-group_keys u i (r ∷ rs) =
      ground (arith, has_key-group_keys u i rs, eq_iff r.columns.url u)

  group_keys-AllBelow :
      (rs : List Row)
      → AllWithin bucket buckets rs
      → AllBelow buckets (group_keys bucket buckets rs)
  unfolding AllWithin AllBelow group_keys bucket_of
  group_keys-AllBelow [] a = tt
  group_keys-AllBelow (r ∷ rs) (h, a) =
      elim (Bool-cases
        (has_key (r.columns.url, bucket r.columns.checked_at) (group_keys bucket buckets rs))) [
          | inl e ↦ rw e (group_keys-AllBelow rs a)
          | inr e ↦ rw e (h, group_keys-AllBelow rs a)
        ]

-- The bar of a target that a strip shows at a place, if there is one.
abbrev pub bar : String → ℕ → Option Strips → Option (Option Status)
bar u i none = none
bar u i (some strips) = slot u i strips

filter-filter :
    (p q : Row → Bool) (rs : List Row)
    → filter p (filter q rs) ≡ filter (λ (r : Row). q r && p r) rs
filter-filter p q [] = refl
filter-filter p q (r ∷ rs) = ground (arith, filter-filter p q rs)

abbrev is_cons : List Row → Bool
is_cons [] = false
is_cons (r ∷ rs) = true

any_lem : (p : Row → Bool) (rs : List Row) → any p rs ≡ is_cons (filter p rs)
any_lem p [] = refl
any_lem p (r ∷ rs) = ground (arith, any_lem p rs)

-- An empty slot that the group of these rows, if there are any, is written to.
shown_worst :
    (b : Bool) (rs : List Row)
    → overwrite (is_cons rs) (rank_to_status (min_rank rs)) (if b then some none else none)
      ≡ (if b then some (worst_of rs) else none)
unfolding worst_of
shown_worst true [] = refl
shown_worst true (r ∷ rs) = ap some (rank_to_status-min_rank r rs)
shown_worst false [] = refl
shown_worst false (r ∷ rs) = refl

module _ (since : ℕ) (bucket : ℕ → ℕ) (buckets : ℕ) (urls : List String) (u : String) (i : ℕ) where
  selected_slot :
      (r : Row)
      → contains urls u ≡ true
      → ((leb since r.columns.checked_at && contains urls r.columns.url)
          && is_in_group bucket buckets (u, i) r)
        ≡ is_in_slot since bucket u i r
  unfolding is_in_group bucket_of
  selected_slot r c = ground (arith, eq_iff r.columns.url u)

  strip_rows-slot :
      (db : Database)
      → AllWithin bucket buckets db.results
      → contains urls u ≡ true
      → bar u i (strip_rows bucket buckets since false urls db) ≡ (
          if ltb i buckets
          then some (worst_of (filter (is_in_slot since bucket u i) db.results))
          else none)
  unfolding strip_rows shown
  strip_rows-slot db a c =
      let sel = λ (r : Row). leb since r.columns.checked_at && contains urls r.columns.url in
      let rows = filter sel db.results in
      let group = is_in_group bucket buckets (u, i) in
      let ks = group_keys bucket buckets rows in
      let below =
        group_keys-AllBelow bucket buckets rows
          (AllWithin-filter bucket buckets sel db.results a) in
      let same : filter group rows ≡ filter (is_in_slot since bucket u i) db.results =
        filter-filter group sel db.results
        ∙ filter-same _ _ db.results (λ (r : Row). selected_slot r c) in
      rw
        (
          slot-paint bucket buckets rows ks (blank buckets urls) u i below,
          slot-blank u i buckets urls c,
          has_key-group_keys bucket buckets u i rows,
          any_lem group rows,
          same,
        )
        (shown_worst (ltb i buckets) _)

enough : (n : ℕ) → 0 < n → ltb n 1 ≡ false
enough n h = ground arith

-- Every strip of a readable database has one bar for each bucket and no other, and a bar shows the
-- worst of the target's probes since `since` that SQLite puts in its bucket: nothing without a probe,
-- DOWN if one failed or counts as DOWN, else DEGRADED if one is, else UP. This needs a window that
-- has a length, a number of buckets that is not zero, a requested target, and that SQLite puts no
-- row past the last bucket.
pub status_strip_lem :
    (since : ℕ) (bucket : ℕ → ℕ) (buckets : ℕ) (urls : List String) (u : String) (i : ℕ)
    (db : Database)
    → 0 < buckets
    → AllWithin bucket buckets db.results
    → contains urls u ≡ true
    → bar u i (status_strip bucket buckets since false urls false (tables db)) ≡ (
        if ltb i buckets
        then some (worst_of (filter (is_in_slot since bucket u i) db.results))
        else none)
unfolding status_strip contains
status_strip_lem since bucket buckets [] u i db b a c = cc
status_strip_lem since bucket buckets (v ∷ vs) u i db b a c =
    rw (enough buckets b) (strip_rows-slot since bucket buckets (v ∷ vs) u i db a c)
