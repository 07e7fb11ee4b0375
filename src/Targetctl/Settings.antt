-- ===== src/Targetctl/Settings.antt =====
-- targetctl.py, `parse_settings`: the words of "--set". What `int`, `float`, `str.lower` and
-- `json.loads` answer is a parameter.
use vigil_sre.Prelude.{
  ℕ, String, Bool, not, ◌&&◌, ◌||◌, Option, none, some, List, [], ◌∷◌, str_eq, ◌==◌, if◌then◌else◌,
  is_some,
}
use vigil_sre.Prelude.Int.{ℤ}
use vigil_sre.Prelude.Dict.{contains, lookup, insert}
use Prim.Native.String.{[] as no_char, ◌∷◌ as ◌⊳◌, ◌++◌}
use Prim.Native.Char.{code}
use vigil_sre.Targets.Text.{strip}
use vigil_sre.Targets.Value.{Value, text, boolean, integer, non_finite}
use vigil_sre.Targets.Entry.{allowed_keys}
use vigil_sre.Targets.Checked.{Refusal}

pub record Words : Type 0 where
  pub lower : String → String
  pub int : String → Option ℤ
  pub float : String → Option Value
  pub loads : String → Option Value

-- What a `CliError` is about.
pub data Problem : Type 0 where
  not_key_value unknown_field given_twice : String → Problem
  no_token unsendable_token : Problem
  no_connection not_the_api : Problem
  -- an answer with this status code
  http_failure : ℕ → Problem
  seed_unreadable already_a_target not_a_target last_target entry_without_url : Problem
  file_unreadable file_not_valid no_list empty_list : Problem
  invalid_entries : Refusal → Problem

pub data Try {ℓ} (A : Type ℓ) : Type ℓ where
  good : A → Try A
  bad : Problem → Try A

abbrev pub at_front : String → Option (String × String) → Option (String × String)
at_front c none = none
at_front c (some (key, raw)) = some (c ++ key, raw)

-- `pair.partition("=")`
unfoldable pub partition : String → Option (String × String)
partition no_char = none
partition (c ⊳ s) =
    let rest = partition s in if code c == b'=' then some ("", s) else at_front (c ⊳ no_char) rest

abbrev pub settable : String → Bool
settable key = contains allowed_keys key && not (str_eq key "url")

abbrev bool_keys : List String
bool_keys = "remind" ∷ "trend_alerts" ∷ []

abbrev number_keys : List String
number_keys =
    "expected_status" ∷ "timeout_s" ∷ "degraded_ttfb_ms" ∷ "degraded_rtt_ms" ∷ "degraded_backend_ms"
    ∷ []

abbrev float_or : String → Option Value → Value
float_or raw none = text raw
float_or raw (some (non_finite x)) = text raw
float_or raw (some v) = v

abbrev number_or : String → Option ℤ → Option Value → Value
number_or raw (some n) other = integer n
number_or raw none other = float_or raw other

abbrev json_or : String → Option Value → Value
json_or raw none = text raw
json_or raw (some v) = v

module _ (w : Words) where
  abbrev is_word : String → String → Bool
  is_word word raw = str_eq (w.lower (strip raw)) word

  -- `_typed`
  unfoldable pub typed : String → String → Value
  unfolding contains strip
  typed key raw =
      if contains bool_keys key && (is_word "true" raw || is_word "false" raw)
      then boolean (is_word "true" raw)
      else if contains number_keys key
      then number_or raw (w.int (strip raw)) (w.float (strip raw))
      else if str_eq key "maintenance"
      then json_or raw (w.loads raw)
      else text raw

  abbrev pub set_key :
      String → Option (String × String) → List (String × Value) → Try (List (String × Value))
  set_key pair none settings = bad (not_key_value pair)
  set_key pair (some (name, raw)) settings =
      let key = strip name in
      if str_eq key ""
      then bad (not_key_value pair)
      else if not (settable key)
      then bad (unknown_field key)
      else if is_some (lookup key settings)
      then bad (given_twice key)
      else good (insert key (typed key raw) settings)

  abbrev pub then_pairs :
      (List (String × Value) → Try (List (String × Value)))
      → Try (List (String × Value))
      → Try (List (String × Value))
  then_pairs rest (bad p) = bad p
  then_pairs rest (good settings) = rest settings

  -- The loop over the pairs.
  unfoldable pub parse_pairs : List String → List (String × Value) → Try (List (String × Value))
  unfolding partition contains lookup insert typed strip
  parse_pairs [] settings = good settings
  parse_pairs (pair ∷ pairs) settings =
      then_pairs (parse_pairs pairs) (set_key pair (partition pair) settings)

  unfoldable pub parse_settings : List String → Try (List (String × Value))
  unfolding parse_pairs
  parse_settings pairs = parse_pairs pairs []
