-- ===== src/Targets/Number.antt =====
-- targetstore.py, `validate_entry`: the numbers of an entry and their bounds.
pub mod Again
use vigil_sre.Prelude.{
  ℕ, ◌*◌, ◌/◌, ◌^◌, String, Bool, true, false, ◌&&◌, Option, none, some, str_eq, leb, if◌then◌else◌,
}
use vigil_sre.Prelude.Int.{ℤ, pos, negsuc}
use vigil_sre.Targets.Value.{Value, null, text, integer, decimal, non_finite}
use vigil_sre.Targets.Checked.{
  Checked, ok, refused, Refusal, guard, ◌>>=◌, ◌>>◌, not_a_number, out_of_bounds,
}

-- A float that is not negative: mantissa / 10 ^ places.
pub record Decimal : Type 0 where
  pub mantissa : ℕ
  pub places : ℕ

-- Bounds of a field, in tenths.
pub record Bounds : Type 0 where
  pub low : ℕ
  pub high : ℕ

-- `low <= value <= high`
abbrev pub is_within : Bounds → Decimal → Bool
is_within b d =
    leb (b.low * 10 ^ d.places) (10 * d.mantissa) && leb (10 * d.mantissa) (b.high * 10 ^ d.places)

abbrev pub in_bounds : String → Bounds → Decimal → Checked Decimal
in_bounds name b d = if is_within b d then ok d else refused (out_of_bounds name)

-- Every lower bound is positive, so no negative number is within any bounds.
unfoldable pub checked_number : String → Bounds → Value → Checked Decimal
checked_number name b (integer (pos n)) = in_bounds name b (record { mantissa = n; places = 0 })
checked_number name b (integer (negsuc n)) = refused (out_of_bounds name)
checked_number name b (decimal (pos m) p) = in_bounds name b (record { mantissa = m; places = p })
checked_number name b (decimal (negsuc m) p) = refused (out_of_bounds name)
checked_number name b (non_finite x) = refused (out_of_bounds name)
checked_number name b _ = refused (not_a_number name)

-- `None` and "" read as a field that is not given.
unfoldable pub is_given : Option Value → Option Value
is_given none = none
is_given (some null) = none
is_given (some (text s)) = if str_eq s "" then none else some (text s)
is_given (some v) = some v

unfoldable pub number_given : String → Bounds → Option Value → Checked (Option Decimal)
unfolding checked_number
number_given name b none = ok none
number_given name b (some v) = do d ← checked_number name b v; ok (some d)

unfoldable pub validated_number : String → Bounds → Option Value → Checked (Option Decimal)
unfolding number_given is_given
validated_number name b v = number_given name b (is_given v)

-- `int(value)`
abbrev pub whole_part : Decimal → ℕ
whole_part d = d.mantissa / 10 ^ d.places

abbrev pub status_bounds : Bounds
status_bounds = record { low = 1000; high = 5990 }

abbrev pub timeout_bounds : Bounds
timeout_bounds = record { low = 1; high = 3000 }

abbrev pub degraded_bounds : Bounds
degraded_bounds = record { low = 10; high = 6000000 }

abbrev pub whole : Option Decimal → Option ℕ
whole none = none
whole (some d) = some (whole_part d)

unfoldable pub validated_status : Option Value → Checked (Option ℕ)
unfolding validated_number
validated_status v = do d ← validated_number "expected_status" status_bounds v; ok (whole d)

abbrev pub decimal_value : Option Decimal → Option Value
decimal_value none = none
decimal_value (some d) = some (decimal (pos d.mantissa) d.places)

abbrev pub status_value : Option ℕ → Option Value
status_value none = none
status_value (some n) = some (integer (pos n))
