-- ===== src/Targets/Number/Again.antt =====
-- targetstore.py: a number that the validation has accepted is accepted again, unchanged.
use vigil_sre.Prelude.{
  ℕ, ◌/◌, ◌^◌, ◌≤◌, ◌<◌, ◌≡◌, refl, ap, subst, String, true, Option, none, some, arith,
}
use vigil_sre.Prelude.Int.{pos, negsuc}
use vigil_sre.Targets.Value.{
  Value, null, text, integer, decimal, non_finite, boolean, array, object,
}
use vigil_sre.Targets.Checked.{ok, bind-ok, if-ok, ok-injective}
use vigil_sre.Targets.Number.{
  Decimal, Bounds, is_within, checked_number, is_given, number_given, validated_number, whole,
  status_bounds, validated_status, decimal_value, status_value,
}
use native.Mathlib.Nat.{one-le-pow, le-div_iff_mul-le, div-le_of_le-mul}

checked_number-within :
    (name : String) (b : Bounds) (v : Value) {d : Decimal}
    → checked_number name b v ≡ ok d
    → is_within b d ≡ true
unfolding checked_number
checked_number-within name b (integer (pos n)) h =
    let (e, p) = if-ok (is_within b (record { mantissa = n; places = 0 })) _ h in
    subst (λ d. is_within b d ≡ true) p e
checked_number-within name b (decimal (pos m) k) h =
    let (e, p) = if-ok (is_within b (record { mantissa = m; places = k })) _ h in
    subst (λ d. is_within b d ≡ true) p e
checked_number-within name b (integer (negsuc n)) h = cc
checked_number-within name b (decimal (negsuc m) k) h = cc
checked_number-within name b (non_finite x) h = cc
checked_number-within name b null h = cc
checked_number-within name b (boolean x) h = cc
checked_number-within name b (text s) h = cc
checked_number-within name b (array vs) h = cc
checked_number-within name b (object fs) h = cc

-- A number that is given is within the bounds.
abbrev pub Within : Bounds → Option Decimal → Type 0
Within b none = Unit
Within b (some d) = is_within b d ≡ true

number_given-Within :
    (name : String) (b : Bounds) (v : Option Value) {o : Option Decimal}
    → number_given name b v ≡ ok o
    → Within b o
unfolding number_given
number_given-Within name b none h = subst (Within b) (ok-injective h) tt
number_given-Within name b (some v) h =
    let (d, e, h1) = bind-ok (checked_number name b v) _ h in
    subst (Within b) (ok-injective h1) (checked_number-within name b v e)

pub validated_number-Within :
    (name : String) (b : Bounds) (v : Option Value) {o : Option Decimal}
    → validated_number name b v ≡ ok o
    → Within b o
unfolding validated_number
validated_number-Within name b v h = number_given-Within name b (is_given v) h

pub validated_number-again :
    (name : String) (b : Bounds) (o : Option Decimal)
    → Within b o
    → validated_number name b (decimal_value o) ≡ ok o
unfolding validated_number number_given is_given checked_number
validated_number-again name b none h = refl
validated_number-again name b (some d) h = rw h refl

power-pos : (k : ℕ) → 0 < 10 ^ k
power-pos k = one-le-pow k 10 (omega arith)

abbrev pub IsStatus : Option ℕ → Type 0
IsStatus none = Unit
IsStatus (some n) = (100 ≤ n) × (n ≤ 599)

whole-IsStatus : (o : Option Decimal) → Within status_bounds o → IsStatus (whole o)
whole-IsStatus none h = tt
whole-IsStatus (some d) h = (
  (le-div_iff_mul-le (power-pos d.places)).1 (ground arith),
  div-le_of_le-mul (10 ^ d.places) (ground arith),
)

pub validated_status-IsStatus :
    (v : Option Value) {o : Option ℕ} → validated_status v ≡ ok o → IsStatus o
unfolding validated_status
validated_status-IsStatus v h =
    let (d, e, h1) = bind-ok (validated_number "expected_status" status_bounds v) _ h in
    subst IsStatus (ok-injective h1)
      (whole-IsStatus d (validated_number-Within "expected_status" status_bounds v e))

status-within :
    (n : ℕ)
    → 100 ≤ n
    → n ≤ 599
    → is_within status_bounds (record { mantissa = n; places = 0 }) ≡ true
status-within n low high = ground arith

div_one : (n : ℕ) → n / 1 ≡ n
div_one n = omega arith

pub validated_status-again : (o : Option ℕ) → IsStatus o → validated_status (status_value o) ≡ ok o
unfolding validated_status validated_number number_given is_given checked_number
validated_status-again none h = refl
validated_status-again (some n) h = rw (status-within n h.0 h.1) (ap (λ m. ok (some m)) (div_one n))
