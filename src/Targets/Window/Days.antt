-- ===== src/Targets/Window/Days.antt =====
-- targetstore.py: the validated days of a window are validated to themselves.
use vigil_sre.Prelude.{
  leb-true, ℕ, ◌≡◌, refl, ap, subst, ◌≤◌, ◌<◌, List, [], ◌∷◌, Option, none, some, ltb, ◌==◌, map,
  arith, Bool-cases, inl, inr,
}
use vigil_sre.Prelude.Int.{pos}
use vigil_sre.Targets.Value.{
  Value, text, null, array, object, boolean, integer, decimal, non_finite, elements,
  elements-of_elements,
}
use vigil_sre.Targets.Checked.{Checked, ok, refused, bind-ok}
use vigil_sre.Targets.Window.{add_day, day_of, sorted_days, some_days, validated_days, days_value}

abbrev Below : ℕ → List ℕ → Type 0
Below d [] = Unit
Below d (x ∷ xs) = d < x

-- Days of the week, in order and without repetition.
abbrev Days : List ℕ → Type 0
Days [] = Unit
Days (d ∷ ds) = (d ≤ 6) × (Below d ds × Days ds)

add_day-Below : (e d : ℕ) (ds : List ℕ) → e < d → Below e ds → Below e (add_day d ds)
unfolding add_day
add_day-Below e d [] h b = h
add_day-Below e d (x ∷ xs) h b = elim (Bool-cases (d == x)) [
  | inl p ↦ rw p b
  | inr p ↦ elim (Bool-cases (ltb d x)) [ inl q ↦ rw (p, q) h | inr q ↦ rw (p, q) b ]
]

add_day-Days : (d : ℕ) (ds : List ℕ) → d ≤ 6 → Days ds → Days (add_day d ds)
unfolding add_day
add_day-Days d [] h u = (h, (tt, tt))
add_day-Days d (x ∷ xs) h (le, (b, rest)) = elim (Bool-cases (d == x)) [
  | inl p ↦ rw p (le, (b, rest))
  | inr p ↦ elim (Bool-cases (ltb d x)) [
    | inl q ↦ rw (p, q) (h, (ground arith, (le, (b, rest))))
    | inr q ↦ rw (p, q) (le, (add_day-Below x d xs (ground arith) b, add_day-Days d xs h rest))
  ]
]

day_of-le : (v : Value) {d : ℕ} → day_of v ≡ ok d → d ≤ 6
day_of-le (integer (pos n)) h = ground arith
day_of-le (integer _) h = cc
day_of-le null h = cc
day_of-le (non_finite x) h = cc
day_of-le (boolean b) h = cc
day_of-le (decimal m p) h = cc
day_of-le (text s) h = cc
day_of-le (array vs) h = cc
day_of-le (object fs) h = cc

abbrev ok_or_nil : Checked (List ℕ) → List ℕ
ok_or_nil (ok ds) = ds
ok_or_nil (refused r) = []

sorted_days-Days : (vs : List Value) {ds : List ℕ} → sorted_days vs ≡ ok ds → Days ds
unfolding sorted_days
sorted_days-Days [] h = subst Days (ap ok_or_nil h) tt
sorted_days-Days (v ∷ vs) h =
    let (d, e, h1) = bind-ok (day_of v) _ h in
    let (es, e', h2) = bind-ok (sorted_days vs) _ h1 in
    subst Days (ap ok_or_nil h2) (add_day-Days d es (day_of-le v e) (sorted_days-Days vs e'))

add_day-first : (d : ℕ) (ds : List ℕ) → Below d ds → add_day d ds ≡ d ∷ ds
unfolding add_day
add_day-first d [] b = refl
add_day-first d (x ∷ xs) b = ground arith

abbrev day_value : ℕ → Value
day_value d = integer (pos d)

sorted_days-again : (ds : List ℕ) → Days ds → sorted_days (map day_value ds) ≡ ok ds
unfolding sorted_days
sorted_days-again [] h = refl
sorted_days-again (d ∷ ds) (le, (b, rest)) =
    rw (leb-true d 6 le) (rw (sorted_days-again ds rest) (ap ok (add_day-first d ds b)))

-- The days of a window that pass again.
abbrev pub Fixed : Option (List ℕ) → Type 0
Fixed o = validated_days (days_value o) ≡ ok o

abbrev days_in : Checked (Option (List ℕ)) → Option (List ℕ)
days_in (ok o) = o
days_in (refused r) = none

abbrev NonEmpty : List ℕ → Type 0
NonEmpty [] = ⊥
NonEmpty (d ∷ ds) = Unit

add_day-NonEmpty : (d : ℕ) (ds : List ℕ) → NonEmpty (add_day d ds)
unfolding add_day
add_day-NonEmpty d [] = tt
add_day-NonEmpty d (x ∷ xs) = elim (Bool-cases (d == x)) [
  | inl p ↦ rw p tt
  | inr p ↦ elim (Bool-cases (ltb d x)) [ inl q ↦ rw (p, q) tt | inr q ↦ rw (p, q) tt ]
]

sorted_days-NonEmpty :
    (v : Value) (vs : List Value) {ds : List ℕ} → sorted_days (v ∷ vs) ≡ ok ds → NonEmpty ds
unfolding sorted_days
sorted_days-NonEmpty v vs h =
    let (d, e, h1) = bind-ok (day_of v) _ h in
    let (es, e', h2) = bind-ok (sorted_days vs) _ h1 in
    subst NonEmpty (ap ok_or_nil h2) (add_day-NonEmpty d es)

Days-Fixed : (ds : List ℕ) → NonEmpty ds → Days ds → Fixed (some ds)
unfolding validated_days days_value some_days
Days-Fixed [] e h = absurd e
Days-Fixed (d ∷ ds) e h =
    rw (elements-of_elements (map day_value (d ∷ ds))) (rw (sorted_days-again (d ∷ ds) h) refl)

some_days-again : (vs : List Value) {o : Option (List ℕ)} → some_days vs ≡ ok o → Fixed o
unfolding some_days
some_days-again [] h = cc
some_days-again (v ∷ vs) h =
    let (ds, e, h1) = bind-ok (sorted_days (v ∷ vs)) _ h in
    subst Fixed (ap days_in h1)
      (Days-Fixed ds (sorted_days-NonEmpty v vs e) (sorted_days-Days (v ∷ vs) e))

pub validated_days-again :
    (v : Option Value) {o : Option (List ℕ)} → validated_days v ≡ ok o → Fixed o
unfolding validated_days days_value
validated_days-again none h = subst Fixed (ap days_in h) refl
validated_days-again (some null) h = subst Fixed (ap days_in h) refl
validated_days-again (some (array vs)) h = some_days-again (elements vs) h
validated_days-again (some (non_finite x)) h = cc
validated_days-again (some (boolean b)) h = cc
validated_days-again (some (integer n)) h = cc
validated_days-again (some (decimal m p)) h = cc
validated_days-again (some (text s)) h = cc
validated_days-again (some (object fs)) h = cc
