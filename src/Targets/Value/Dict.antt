-- ===== src/Targets/Value/Dict.antt =====
-- targetstore.py: the dict that `validate_entry` fills, where a field that is not given is no key.
use vigil_sre.Prelude.{
  ◌≡◌, refl, String, Bool, true, ◌&&◌, List, [], ◌∷◌, Option, none, some, str_eq, if◌then◌else◌,
  Bool-cases, inl, inr, arith,
}
use vigil_sre.Prelude.Dict.{lookup, contains}
use vigil_sre.Targets.Value.{Value}

-- The given ones of some fields.
unfoldable pub given : List (String × Option Value) → List (String × Value)
given [] = []
given ((k, none) ∷ fs) = given fs
given ((k, some v) ∷ fs) = (k, v) ∷ given fs

abbrev pub or_else {ℓ} : {A : Type ℓ} → Option A → Option A → Option A
or_else none b = b
or_else (some a) b = some a

abbrev pub find : String → List (String × Option Value) → Option Value
find k [] = none
find k ((j, o) ∷ fs) = if str_eq j k then or_else o (find k fs) else find k fs

pub or_else-none {ℓ} : {A : Type ℓ} (o : Option A) → or_else o none ≡ o
or_else-none none = refl
or_else-none (some a) = refl

pub lookup-given :
    (k : String) (fs : List (String × Option Value)) → lookup k (given fs) ≡ find k fs
unfolding lookup given
lookup-given k [] = refl
lookup-given k ((j, none) ∷ fs) = elim (Bool-cases (str_eq j k)) [
  | inl e ↦ rw e (lookup-given k fs)
  | inr e ↦ rw e (lookup-given k fs)
]
lookup-given k ((j, some v) ∷ fs) = elim (Bool-cases (str_eq j k)) [
  | inl e ↦ rw e refl
  | inr e ↦ rw e (lookup-given k fs)
]

-- `not set(d) - allowed`
unfoldable pub has_only : List String → List (String × Value) → Bool
has_only allowed [] = true
has_only allowed ((k, v) ∷ fs) = contains allowed k && has_only allowed fs

abbrev pub all_allowed : List String → List (String × Option Value) → Bool
all_allowed allowed [] = true
all_allowed allowed ((k, o) ∷ fs) = contains allowed k && all_allowed allowed fs

pub has_only-given :
    (allowed : List String) (fs : List (String × Option Value))
    → all_allowed allowed fs ≡ true
    → has_only allowed (given fs) ≡ true
unfolding has_only given
has_only-given allowed [] h = refl
has_only-given allowed ((k, none) ∷ fs) h = has_only-given allowed fs (ground arith)
has_only-given allowed ((k, some v) ∷ fs) h =
    let rest = has_only-given allowed fs (ground arith) in ground (arith, rest)
