-- ===== src/Targets/Target.antt =====
-- main.py: `Target`, `_resolve_expect_substring`, `_validated_numeric_field` and the target of an
-- entry of the store.
use vigil_sre.Prelude.{
  ℕ, ◌*◌, ◌^◌, String, Bool, List, Option, none, some, str_eq, ltb, if◌then◌else◌,
}
use vigil_sre.Prelude.Int.{pos, negsuc}
use vigil_sre.Targets.Text.{reference_of, is_suspect, has_lowercase}
use vigil_sre.Targets.Value.{
  Value, NonFinite, minus_infinity, null, text, integer, decimal, non_finite,
}
use vigil_sre.Targets.Checked.{
  Checked, ok, refused, ◌>>=◌, malformed_reference, lowercase_reference, unset_reference,
  substring_not_text, not_a_number, below_minimum, above_maximum,
}
use vigil_sre.Targets.Window.{TimeWindow}
use vigil_sre.Targets.Number.{Decimal}
use vigil_sre.Targets.Entry.{Entry, Env}
use Prim.Native.String.{◌++◌}

-- A number as YAML gives it: a seed's float has no upper bound.
pub data Number : Type 0 where
  finite : Decimal → Number
  unbounded : NonFinite → Number

-- `Target`
pub record Loaded : Type 0 where
  pub url : String
  pub expect_substring : Option String
  pub expect_substring_display : Option String
  pub expected_status : Option ℕ
  pub timeout_s : Option Number
  pub degraded_ttfb_ms : Option Number
  pub degraded_rtt_ms : Option Number
  pub degraded_backend_ms : Option Number
  pub remind : Bool
  pub trend_alerts : Bool
  pub maintenance : Option (List TimeWindow)

abbrev pub target_url : Loaded → String
target_url t = t.url

-- `f"${{{name}}} (from env)"`
abbrev pub display_of : String → String
display_of name = "${" ++ (name ++ "} (from env)")

-- What is sought in the body, and what is shown in its place.
abbrev pub Expectation : Type 0
Expectation = String × Option String

abbrev pub value_or : String → Option String → Checked Expectation
value_or name none = refused (unset_reference name)
value_or name (some s) =
    if str_eq s "" then refused (unset_reference name) else ok (s, some (display_of name))

abbrev pub resolve_match : Env → String → Option String → Checked Expectation
resolve_match env raw none = if is_suspect raw then refused malformed_reference else ok (raw, none)
resolve_match env raw (some name) =
    if has_lowercase name then refused (lowercase_reference name) else value_or name (env name)

unfoldable pub resolve_expect_substring : Env → String → Checked Expectation
unfolding reference_of is_suspect has_lowercase
resolve_expect_substring env raw = resolve_match env raw (reference_of raw)

-- Both results, for an expectation that is not given too.
unfoldable pub resolve_given : Env → Option String → Checked (Option String × Option String)
unfolding resolve_expect_substring
resolve_given env none = ok (none, none)
resolve_given env (some raw) = do
  resolved ← resolve_expect_substring env raw
  ok (some resolved.0, resolved.1)

abbrev pub number : Option Decimal → Option Number
number none = none
number (some d) = some (finite d)

-- `if e.get("expect_substring")`
abbrev pub if_any : Option String → Option String
if_any none = none
if_any (some s) = if str_eq s "" then none else some s

-- The target of an entry of the store.
unfoldable pub target_of_entry : Env → Entry → Checked Loaded
unfolding resolve_given
target_of_entry env e = do
  expect ← resolve_given env (if_any e.expect_substring)
  ok (record {
    url = e.url;
    expect_substring = expect.0;
    expect_substring_display = expect.1;
    expected_status = e.expected_status;
    timeout_s = number e.timeout_s;
    degraded_ttfb_ms = number e.degraded_ttfb_ms;
    degraded_rtt_ms = number e.degraded_rtt_ms;
    degraded_backend_ms = number e.degraded_backend_ms;
    remind = e.remind;
    trend_alerts = e.trend_alerts;
    maintenance = e.maintenance;
  })

-- `_validated_numeric_field` for `expected_status`: an int from 100 to 599.
unfoldable pub status_field : Option Value → Checked (Option ℕ)
status_field none = ok none
status_field (some null) = ok none
status_field (some (integer (pos n))) =
    if ltb n 100
    then refused (below_minimum "expected_status")
    else if ltb 599 n
    then refused (above_maximum "expected_status")
    else ok (some n)
status_field (some (integer (negsuc n))) = refused (below_minimum "expected_status")
status_field (some _) = refused (not_a_number "expected_status")

-- `value < 0.1`, of mantissa / 10 ^ places
abbrev pub at_least_tenth : String → Decimal → Checked (Option Number)
at_least_tenth name d =
    if ltb (10 * d.mantissa) (10 ^ d.places)
    then refused (below_minimum name)
    else ok (some (finite d))

-- `_validated_numeric_field` for the other fields: an int or a float from 0.1; a NaN passes.
unfoldable pub float_field : String → Option Value → Checked (Option Number)
float_field name none = ok none
float_field name (some null) = ok none
float_field name (some (integer (pos n))) =
    at_least_tenth name (record { mantissa = n; places = 0 })
float_field name (some (integer (negsuc n))) = refused (below_minimum name)
float_field name (some (decimal (pos m) p)) =
    at_least_tenth name (record { mantissa = m; places = p })
float_field name (some (decimal (negsuc m) p)) = refused (below_minimum name)
float_field name (some (non_finite minus_infinity)) = refused (below_minimum name)
float_field name (some (non_finite x)) = ok (some (unbounded x))
float_field name (some _) = refused (not_a_number name)

unfoldable pub substring_field : Option Value → Checked (Option String)
substring_field none = ok none
substring_field (some null) = ok none
substring_field (some (text s)) = ok (some s)
substring_field (some _) = refused substring_not_text
