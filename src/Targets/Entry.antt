-- ===== src/Targets/Entry.antt =====
-- targetstore.py, `validate_entry`: one entry of the target list.
pub mod Fields
pub mod Again
use vigil_sre.Prelude.{
  ℕ, String, Bool, true, false, not, ◌&&◌, List, [], ◌∷◌, Option, none, some, str_eq, if◌then◌else◌,
  map,
}
use vigil_sre.Prelude.Dict.{lookup}
use vigil_sre.Targets.Text.{reference_of, is_suspect, has_lowercase}
use vigil_sre.Targets.Value.{
  Value, Values, null, text, boolean, array, object, items, list_of, dict_of, is_truthy,
}
use vigil_sre.Targets.Value.Dict.{given, has_only}
use vigil_sre.Targets.Checked.{
  Checked, ok, refused, Refusal, guard, ◌>>=◌, ◌>>◌, entry_not_an_object, unrecognised_fields,
  substring_not_text, malformed_reference, lowercase_reference, unset_reference, not_a_boolean,
}
use vigil_sre.Targets.Window.{TimeWindow, validated_windows, window_value}
use vigil_sre.Targets.Url.{Python, validated_url}
use vigil_sre.Targets.Number.{
  Decimal, validated_number, validated_status, timeout_bounds, degraded_bounds, decimal_value,
  status_value,
}

pub record Entry : Type 0 where
  pub url : String
  pub expect_substring : Option String
  pub expected_status : Option ℕ
  pub timeout_s : Option Decimal
  pub degraded_ttfb_ms : Option Decimal
  pub degraded_rtt_ms : Option Decimal
  pub degraded_backend_ms : Option Decimal
  pub maintenance : Option (List TimeWindow)
  pub remind : Bool
  pub trend_alerts : Bool

abbrev pub allowed_keys : List String
allowed_keys =
    "url" ∷ "expect_substring" ∷ "expected_status" ∷ "timeout_s" ∷ "degraded_ttfb_ms"
    ∷ "degraded_rtt_ms" ∷ "degraded_backend_ms" ∷ "remind" ∷ "trend_alerts" ∷ "maintenance" ∷ []

-- `os.getenv`
abbrev pub Env : Type 0
Env = String → Option String

-- `not value`, of what `os.getenv` returns
abbrev pub is_unset : Option String → Bool
is_unset none = true
is_unset (some s) = str_eq s ""

-- The code of a problem, with the name or the text that it concerns.
pub data Problem : Type 0 where
  malformed lowercase unset : String → Problem

abbrev pub problem_of_reference : Env → String → Option Problem
problem_of_reference env name =
    if has_lowercase name
    then some (lowercase name)
    else if is_unset (env name)
    then some (unset name)
    else none

abbrev pub problem_of_match : Env → String → Option String → Option Problem
problem_of_match env raw none = if is_suspect raw then some (malformed raw) else none
problem_of_match env raw (some name) = problem_of_reference env name

unfoldable pub env_reference_problem : Env → String → Option Problem
unfolding reference_of is_suspect has_lowercase
env_reference_problem env raw = problem_of_match env raw (reference_of raw)

-- A problem refuses the entry; that a variable is not set counts only if it is asked for.
abbrev pub refuse_problem : Bool → Option Problem → Checked (Unit {0})
refuse_problem check_env none = ok tt
refuse_problem check_env (some (malformed raw)) = refused malformed_reference
refuse_problem check_env (some (lowercase name)) = refused (lowercase_reference name)
refuse_problem check_env (some (unset name)) = guard (not check_env) (unset_reference name)

unfoldable pub validated_substring : Env → Bool → Option Value → Checked (Option String)
unfolding env_reference_problem
validated_substring env check_env none = ok none
validated_substring env check_env (some null) = ok none
validated_substring env check_env (some (text s)) =
    let checked = refuse_problem check_env (env_reference_problem env s) >> ok (some s) in
    if str_eq s "" then ok none else checked
validated_substring env check_env (some _) = refused substring_not_text

unfoldable pub validated_flag : String → Bool → Option Value → Checked Bool
validated_flag name default none = ok default
validated_flag name default (some (boolean b)) = ok b
validated_flag name default (some _) = refused (not_a_boolean name)

module _ (digit : ℕ → Option ℕ) where
  abbrev pub windows_if : Bool → Value → Checked (Option (List TimeWindow))
  windows_if false v = ok none
  windows_if true v = do ws ← validated_windows digit v; ok (some ws)

  unfoldable pub validated_maintenance : Option Value → Checked (Option (List TimeWindow))
  unfolding is_truthy validated_windows
  validated_maintenance none = ok none
  validated_maintenance (some v) = windows_if (is_truthy v) v

module _ (py : Python) (env : Env) (check_env : Bool) where
  unfoldable pub entry_of_dict : List (String × Value) → Checked Entry
  unfolding lookup has_only validated_url validated_substring validated_status validated_number
      validated_maintenance validated_flag
  entry_of_dict raw = do
    guard (has_only allowed_keys raw) unrecognised_fields
    url ← validated_url py (lookup "url" raw)
    expect_substring ← validated_substring env check_env (lookup "expect_substring" raw)
    expected_status ← validated_status (lookup "expected_status" raw)
    timeout_s ← validated_number "timeout_s" timeout_bounds (lookup "timeout_s" raw)
    ttfb ← validated_number "degraded_ttfb_ms" degraded_bounds (lookup "degraded_ttfb_ms" raw)
    rtt ← validated_number "degraded_rtt_ms" degraded_bounds (lookup "degraded_rtt_ms" raw)
    backend ←
        validated_number "degraded_backend_ms" degraded_bounds (lookup "degraded_backend_ms" raw)
    maintenance ← validated_maintenance py.digit (lookup "maintenance" raw)
    remind ← validated_flag "remind" false (lookup "remind" raw)
    trend_alerts ← validated_flag "trend_alerts" true (lookup "trend_alerts" raw)
    ok (record {
      url = url;
      expect_substring = expect_substring;
      expected_status = expected_status;
      timeout_s = timeout_s;
      degraded_ttfb_ms = ttfb;
      degraded_rtt_ms = rtt;
      degraded_backend_ms = backend;
      maintenance = maintenance;
      remind = remind;
      trend_alerts = trend_alerts;
    })

  unfoldable pub validate_entry : Value → Checked Entry
  unfolding entry_of_dict items
  validate_entry (object fs) = entry_of_dict (items fs)
  validate_entry _ = refused entry_not_an_object

abbrev pub text_value : Option String → Option Value
text_value none = none
text_value (some s) = some (text s)

abbrev pub windows_value : Option (List TimeWindow) → Option Value
windows_value none = none
windows_value (some ws) = some (list_of (map window_value ws))

-- The dict of an entry: a field that is not given is no key.
abbrev pub entry_fields : Entry → List (String × Option Value)
entry_fields e =
    ("url", some (text e.url))
    ∷ ("expect_substring", text_value e.expect_substring)
    ∷ ("expected_status", status_value e.expected_status)
    ∷ ("timeout_s", decimal_value e.timeout_s)
    ∷ ("degraded_ttfb_ms", decimal_value e.degraded_ttfb_ms)
    ∷ ("degraded_rtt_ms", decimal_value e.degraded_rtt_ms)
    ∷ ("degraded_backend_ms", decimal_value e.degraded_backend_ms)
    ∷ ("maintenance", windows_value e.maintenance)
    ∷ ("remind", some (boolean e.remind))
    ∷ ("trend_alerts", some (boolean e.trend_alerts))
    ∷ []

unfoldable pub entry_value : Entry → Value
entry_value e = dict_of (given (entry_fields e))
