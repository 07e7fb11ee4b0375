-- ===== src/Targets/Load.antt =====
-- main.py: `load_targets`, from the store or the seed to the targets that a round probes.
pub mod Source
pub mod Shown
use vigil_sre.Prelude.{
  ℕ, ◌+◌, ◌*◌, ◌^◌, String, Bool, true, false, not, List, [], ◌∷◌, Option, none, some, str_eq, leb,
  ltb, if◌then◌else◌, map, is_some,
}
use vigil_sre.Prelude.Int.{ℤ, pos, negsuc}
use vigil_sre.Prelude.Dict.{lookup}
use vigil_sre.Targets.Text.{reference_of, is_suspect, has_lowercase}
use vigil_sre.Targets.Value.{
  Value, NonFinite, nan, infinity, minus_infinity, Values, null, text, boolean, integer, decimal,
  non_finite, array, object, elements, items, dict_of, is_truthy,
}
use vigil_sre.Targets.Value.Dict.{given}
use vigil_sre.Targets.Checked.{
  Checked, ok, refused, Refusal, guard, ◌>>=◌, ◌>>◌, check_each, malformed_reference,
  lowercase_reference, unset_reference, substring_not_text, not_a_number, below_minimum,
  above_maximum, store_unreadable, store_not_json, seed_missing, seed_not_yaml, seed_unreadable,
  targets_not_iterable, invalid_target_entry, no_targets,
}
use vigil_sre.Targets.Window.{TimeWindow}
use vigil_sre.Targets.Url.{Python}
use vigil_sre.Targets.Number.{Decimal}
use vigil_sre.Targets.Entry.{Entry, Env, is_unset, validate_entry}
use vigil_sre.Targets.Store.{
  check_unseen, StoreFile, StoreRead, never_written, stored, unusable, Trouble, cannot_be_read,
  not_valid_json, refused_entry, Json, read_store,
}
use Prim.Native.String.{◌++◌, [] as no_char, ◌∷◌ as ◌⊳◌}
use vigil_sre.Targets.Target.{
  Expectation, Loaded, Number, at_least_tenth, display_of, finite, float_field, if_any, number,
  resolve_expect_substring, resolve_given, resolve_match, status_field, substring_field,
  target_of_entry, target_url, unbounded, value_or,
}

-- The seed's file.
pub data SeedFile : Type 0 where
  missing undecodable not_yaml : SeedFile
  parsed : Value → SeedFile

-- The loop `for entry in entries`, over what Python iterates.
unfoldable pub characters : String → List Value
characters no_char = []
characters (c ⊳ s) = text (c ⊳ no_char) ∷ characters s

abbrev pub names : List (String × Value) → List Value
names [] = []
names ((k, v) ∷ fs) = text k ∷ names fs

abbrev pub iterated : Value → Checked (List Value)
iterated (array vs) = ok (elements vs)
iterated (text s) = ok (characters s)
iterated (object fs) = ok (names (items fs))
iterated _ = refused targets_not_iterable

abbrev pub entries_or : Option Value → Checked (List Value)
entries_or none = ok []
entries_or (some v) = iterated v

-- `raw.get("targets", []) if isinstance(raw, dict) else []`
unfoldable pub seed_entries : Value → Checked (List Value)
unfolding lookup items characters elements
seed_entries (object fs) = entries_or (lookup "targets" (items fs))
seed_entries _ = ok []

abbrev pub url_entry : String → Value
url_entry url = dict_of (("url", text url) ∷ [])

abbrev pub bare_target : String → Loaded
bare_target url = record {
  url = url;
  expect_substring = none;
  expect_substring_display = none;
  expected_status = none;
  timeout_s = none;
  degraded_ttfb_ms = none;
  degraded_rtt_ms = none;
  degraded_backend_ms = none;
  remind = false;
  trend_alerts = true;
  maintenance = none;
}

-- The fields that `load_targets` leaves to `validate_entry`.
abbrev pub shared_entry : String → List (String × Value) → Value
shared_entry url entry = dict_of (
    given (
      ("url", some (text url))
      ∷ ("remind", lookup "remind" entry)
      ∷ ("trend_alerts", lookup "trend_alerts" entry)
      ∷ ("maintenance", lookup "maintenance" entry)
      ∷ []))

abbrev pub is_empty {ℓ} : {A : Type ℓ} → List A → Bool
is_empty [] = true
is_empty (x ∷ xs) = false

-- `str` of a value
abbrev pub Show : Type 0
Show = Value → String

abbrev pub shown_text : Show → Value → String
shown_text show (text s) = s
shown_text show v = show v

module _ (py : Python) (env : Env) (show : Show) where
  -- An entry that is an object with this URL.
  unfoldable pub target_of_dict : String → List (String × Value) → Checked Loaded
  unfolding validate_entry resolve_given status_field float_field substring_field lookup given
  target_of_dict url entry = do
    valid ← validate_entry py env true (url_entry url)
    raw ← substring_field (lookup "expect_substring" entry)
    expect ← resolve_given env raw
    expected_status ← status_field (lookup "expected_status" entry)
    timeout_s ← float_field "timeout_s" (lookup "timeout_s" entry)
    ttfb ← float_field "degraded_ttfb_ms" (lookup "degraded_ttfb_ms" entry)
    rtt ← float_field "degraded_rtt_ms" (lookup "degraded_rtt_ms" entry)
    backend ← float_field "degraded_backend_ms" (lookup "degraded_backend_ms" entry)
    checked ← validate_entry py env true (shared_entry url entry)
    ok (record {
      url = url;
      expect_substring = expect.0;
      expect_substring_display = expect.1;
      expected_status = expected_status;
      timeout_s = timeout_s;
      degraded_ttfb_ms = ttfb;
      degraded_rtt_ms = rtt;
      degraded_backend_ms = backend;
      remind = checked.remind;
      trend_alerts = checked.trend_alerts;
      maintenance = checked.maintenance;
    })

  abbrev pub target_with_url : Option Value → List (String × Value) → Checked Loaded
  target_with_url none entry = refused invalid_target_entry
  target_with_url (some v) entry =
      let target = target_of_dict (shown_text show v) entry in
      if is_truthy v then target else refused invalid_target_entry

  unfoldable pub target_of_value : Value → Checked Loaded
  unfolding validate_entry target_of_dict is_truthy lookup items
  target_of_value (text url) =
      validate_entry py env true (url_entry url) >>= λ e. ok (bare_target url)
  target_of_value (object fs) = target_with_url (lookup "url" (items fs)) (items fs)
  target_of_value _ = refused invalid_target_entry

  -- The targets of the seed's entries: some, and no URL twice.
  unfoldable pub seed_targets : List Value → Checked (List Loaded)
  unfolding check_each target_of_value check_unseen
  seed_targets entries = do
    targets ← check_each target_of_value entries
    guard (not (is_empty targets)) no_targets
    check_unseen [] (map target_url targets)
    ok targets

  unfoldable pub load_seed : SeedFile → Checked (List Loaded)
  unfolding seed_entries seed_targets
  load_seed missing = refused seed_missing
  load_seed undecodable = refused seed_unreadable
  load_seed not_yaml = refused seed_not_yaml
  load_seed (parsed raw) = seed_entries raw >>= seed_targets

  abbrev pub exit_of : Trouble → Refusal
  exit_of cannot_be_read = store_unreadable
  exit_of not_valid_json = store_not_json
  exit_of (refused_entry r) = r

  -- The store wins if there is one; only a store that was never written leaves the list to the seed.
  unfoldable pub load_from : StoreRead → SeedFile → Checked (List Loaded)
  unfolding check_each target_of_entry load_seed
  load_from (unusable t) seed = refused (exit_of t)
  load_from (stored es) seed = check_each (target_of_entry env) es
  load_from never_written seed = load_seed seed

  unfoldable pub load_targets : Json → StoreFile → SeedFile → Checked (List Loaded)
  unfolding read_store load_from
  load_targets json store seed = load_from (read_store py env json false store) seed
