-- ===== src/Tests/Targets.antt =====
-- A store of one target, and a seed of another.
use vigil_sre.Prelude.{
  is_some, ℕ, ◌+◌, ◌*◌, ◌≡◌, ◌⊎◌, refl, String, true, false, Option, none, some, List, [], ◌∷◌,
  str_eq, if◌then◌else◌, map, ◌==◌, ==_true, arith,
}
use vigil_sre.Prelude.Int.{pos}
use vigil_sre.Prelude.Dict.{contains}
use vigil_sre.Tests.Data.{api, night, api_entry, ascii_digit, python, api_env}
use vigil_sre.Diagnostics.Maintenance.Week.{AllTimed}
use vigil_sre.Targets.Value.{Value, text, integer, of_elements, of_items, list_of, dict_of}
use vigil_sre.Targets.Value.Dict.{given}
use vigil_sre.Targets.Checked.{ok}
use vigil_sre.Targets.Window.{validated_windows, window_value, days_value}
use vigil_sre.Targets.Window.Timed.{Decimals, window_of, validated_windows-AllTimed}
use vigil_sre.Targets.Entry.{Entry, Env, entry_value}
use vigil_sre.Targets.Store.{
  StoreFile, absent, content, Disk, replace_fails, saved, document, Json, write_store,
}
use vigil_sre.Targets.Store.Distinct.{Distinct}
use vigil_sre.Targets.Store.Kept.{write_store-atomic, IsSaved}
use vigil_sre.Targets.Target.{Loaded, target_url}
use vigil_sre.Targets.Load.{missing, parsed, Show, load_targets}
use vigil_sre.Api.{Request, given_length, put_targets, replaced, get_targets, listing, write_token}
use vigil_sre.Api.Guarded.{Admitted, put_targets-Admitted}
use vigil_sre.Api.Listed.{get_targets-put_targets}
use vigil_sre.Targets.Load.Source.{load_targets-store, load_targets-Distinct}
use vigil_sre.Targets.Load.Shown.{shown, load_targets-shown}
use Prim.Native.String.{[] as no_char, ◌∷◌ as ◌⊳◌}
use Prim.Native.Char.{code}

-- What the editor sends.
abbrev raw_entries : Value
raw_entries = list_of (
    dict_of (
      ("url", text api)
      ∷ ("expect_substring", text "${HEALTH_TOKEN}")
      ∷ ("expected_status", integer (pos 204))
      ∷ (
        "maintenance",
        list_of (
            dict_of (
              ("days", list_of (integer (pos 0) ∷ []))
              ∷ ("start", text "22:00")
              ∷ ("end", text "02:00")
              ∷ [])
            ∷ []),
      )
      ∷ [])
    ∷ [])

-- Two environments, by the token that they hold.
abbrev holding : String → Env
holding token name = if str_eq name "HEALTH_TOKEN" then some token else none

abbrev json : Json
json = record {
  dumps = λ v. "{targets}";
  loads = λ s. if str_eq s "{targets}" then some (document (api_entry ∷ [])) else none;
}

abbrev disk : Disk
disk = record { store = absent; temporaries = [] }

abbrev put_request : Request
put_request = record {
  route = "/api/targets";
  content_length = given_length (pos 180);
  body = λ n. some raw_entries;
  token = "t0ken";
}

abbrev unread_show : Show
unread_show v = "?"

put_targets-Admitted_example :
    (((put_targets python api_env json put_request none disk).1).store ≡ disk.store)
    ⊎ (Admitted python api_env json put_request disk
        × ((es : List Entry) × ((put_targets python api_env json put_request none disk).0
              ≡ replaced es)))
put_targets-Admitted_example = put_targets-Admitted python api_env json put_request none disk

get_targets-put_targets_example :
    get_targets python api_env unread_show json
      ((put_targets python api_env json put_request none disk).1).store
      missing
    ≡ listing (record {
      targets = api_entry ∷ [];
      managed = true;
      seed_error = none;
      writable = is_some (write_token api_env);
    })
unfolding put_targets of_elements of_items
get_targets-put_targets_example =
    get_targets-put_targets python api_env unread_show json put_request none disk missing
      (api_entry ∷ []) refl refl

write_store-atomic_example :
    let (outcome, d') =
      write_store python (holding "abc") json raw_entries (some replace_fails) disk in
    (d'.temporaries ≡ disk.temporaries)
    × (((¬ IsSaved outcome) × (d'.store ≡ disk.store))
        ⊎ ((es : List Entry) × (outcome ≡ saved es)
            × (d'.store ≡ content (json.dumps (document es)))))
write_store-atomic_example =
    write_store-atomic python (holding "abc") json raw_entries (some replace_fails) disk

-- The numbers that two ASCII digits are, with or without a line feed behind them.
abbrev two_digits : Option ℕ → Option ℕ → Option ℕ
two_digits (some m) (some n) = some (10 * m + n)
two_digits (some m) none = none
two_digits none _ = none

abbrev ascii_int : String → Option ℕ
ascii_int (a ⊳ b ⊳ no_char) = two_digits (ascii_digit (code a)) (ascii_digit (code b))
ascii_int (a ⊳ b ⊳ c ⊳ no_char) =
    if code c == 10 then two_digits (ascii_digit (code a)) (ascii_digit (code b)) else none
ascii_int _ = none

ascii-Decimals : Decimals ascii_digit ascii_int
ascii-Decimals = record {
  small = λ c n h. ground arith;
  ascii = λ c low high. ground arith;
  colon = refl;
  reads = λ a b m n h h'. rw (h, h') refl;
  reads_line = λ a b c m n h h' l. rw (h, h', ==_true (code c) 10 l) refl;
}

validated_windows-AllTimed_example : AllTimed (map (window_of ascii_int) (night ∷ []))
unfolding validated_windows window_value of_elements of_items given contains days_value
validated_windows-AllTimed_example =
    validated_windows-AllTimed ascii_digit ascii_int ascii-Decimals
      (list_of (window_value night ∷ [])) (night ∷ []) refl

abbrev store : StoreFile
store = content "{targets}"

load_targets-store_example :
    load_targets python (holding "abc") unread_show json store missing
    ≡ load_targets python (holding "abc") unread_show json store (parsed (text "seed"))
load_targets-store_example =
    load_targets-store python (holding "abc") unread_show json store missing (parsed (text "seed"))
      (λ h. cc)

abbrev loaded_with : String → Loaded
loaded_with token = record {
  url = api;
  expect_substring = some token;
  expect_substring_display = some "${HEALTH_TOKEN} (from env)";
  expected_status = some 204;
  timeout_s = none;
  degraded_ttfb_ms = none;
  degraded_rtt_ms = none;
  degraded_backend_ms = none;
  remind = false;
  trend_alerts = true;
  maintenance = some (night ∷ []);
}

loads_with_abc :
    load_targets python (holding "abc") unread_show json store missing ≡ ok (loaded_with "abc" ∷ [])
unfolding load_targets document of_elements of_items entry_value window_value days_value
loads_with_abc = refl

loads_with_xyz :
    load_targets python (holding "xyz") unread_show json store missing ≡ ok (loaded_with "xyz" ∷ [])
unfolding load_targets document of_elements of_items entry_value window_value days_value
loads_with_xyz = refl

load_targets-Distinct_example : Distinct (map target_url (loaded_with "abc" ∷ []))
load_targets-Distinct_example =
    load_targets-Distinct python (holding "abc") unread_show json store missing
      (loaded_with "abc" ∷ []) loads_with_abc

load_targets-shown_example : map shown (loaded_with "abc" ∷ []) ≡ map shown (loaded_with "xyz" ∷ [])
load_targets-shown_example =
    load_targets-shown python (holding "abc") (holding "xyz") unread_show json store missing
      (loaded_with "abc" ∷ []) (loaded_with "xyz" ∷ []) loads_with_abc loads_with_xyz
