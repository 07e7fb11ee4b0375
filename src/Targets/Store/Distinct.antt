-- ===== src/Targets/Store/Distinct.antt =====
-- targetstore.py and main.py: the loop that refuses a URL that is listed twice.
use vigil_sre.Prelude.{
  not-true, ◌≡◌, refl, sym, String, Bool, true, false, not, ◌||◌, List, [], ◌∷◌, str_eq, eq_iff,
  Bool-cases, inl, inr,
}
use vigil_sre.Prelude.Dict.{contains}
use vigil_sre.Targets.Checked.{ok, guard, bind-ok, guard-ok}
use vigil_sre.Targets.Store.{check_unseen}

-- No text is listed twice.
abbrev pub Distinct : List String → Type 0
Distinct [] = Unit
Distinct (u ∷ us) = (contains us u ≡ false) × Distinct us

abbrev New : List String → List String → Type 0
New seen [] = Unit
New seen (u ∷ us) = (contains seen u ≡ false) × New seen us

str_eq-sym : (a b : String) → str_eq a b ≡ false → str_eq b a ≡ false
str_eq-sym a b h = elim (Bool-cases (str_eq b a)) [
  | inl e ↦ cc (h, (eq_iff a b).1 (sym ((eq_iff b a).0 e)))
  | inr e ↦ e
]

or-false : (a b : Bool) → (a || b) ≡ false → (a ≡ false) × (b ≡ false)
or-false true b h = cc
or-false false b h = (refl, h)

-- What is new beside a text and more is new beside the rest, and is not the text.
New-tail :
    (u : String) (seen us : List String) → New (u ∷ seen) us → New seen us × (contains us u ≡ false)
unfolding contains
New-tail u seen [] h = (tt, refl)
New-tail u seen (v ∷ vs) (h, rest) =
    let (fresh, absent) = New-tail u seen vs rest in
    let differ = or-false (str_eq u v) (contains seen v) h in
    ((differ.1, fresh), rw (str_eq-sym u v differ.0) absent)

pub check_unseen-Distinct :
    (seen us : List String) → check_unseen seen us ≡ ok tt → New seen us × Distinct us
unfolding check_unseen
check_unseen-Distinct seen [] h = (tt, tt)
check_unseen-Distinct seen (u ∷ us) h =
    let (x, e, h1) = bind-ok (guard (not (contains seen u)) _) _ h in
    let (fresh, distinct) = check_unseen-Distinct (u ∷ seen) us h1 in
    let (fresh', absent) = New-tail u seen us fresh in
    ((not-true (contains seen u) (guard-ok _ _ e), fresh'), (absent, distinct))
