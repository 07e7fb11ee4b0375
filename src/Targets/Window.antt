-- ===== src/Targets/Window.antt =====
-- targetstore.py, `_validated_windows`: the maintenance windows of an entry.
pub mod Days
pub mod Again
pub mod Timed
use vigil_sre.Prelude.{
  ℕ, String, Bool, true, false, not, ◌&&◌, ◌||◌, List, [], ◌∷◌, Option, none, some, str_eq, leb,
  ltb, ◌==◌, if◌then◌else◌, length, map,
}
use vigil_sre.Prelude.Int.{pos}
use vigil_sre.Prelude.Dict.{lookup}
use vigil_sre.Targets.Text.{is_hhmm}
use vigil_sre.Targets.Value.{
  Value, Values, Fields, null, text, integer, array, object, elements, items, list_of, dict_of,
}
use vigil_sre.Targets.Value.Dict.{given, has_only}
use vigil_sre.Targets.Checked.{
  Checked, ok, refused, Refusal, guard, ◌>>=◌, ◌>>◌, check_each, windows_not_a_list,
  too_many_windows, window_not_an_object, window_with_other_keys, bad_days, equal_times, bad_time,
}

pub record TimeWindow : Type 0 where
  pub start : String
  pub end : String
  pub days : Option (List ℕ)

abbrev pub max_windows : ℕ
max_windows = 20

abbrev pub window_keys : List String
window_keys = "days" ∷ "start" ∷ "end" ∷ []

-- One day, put in its place: `sorted(set(days))` is built day by day.
unfoldable pub add_day : ℕ → List ℕ → List ℕ
add_day d [] = d ∷ []
add_day d (x ∷ xs) = if d == x then x ∷ xs else if ltb d x then d ∷ x ∷ xs else x ∷ add_day d xs

-- `isinstance(d, int) and not isinstance(d, bool) and 0 <= d <= 6`
abbrev pub day_of : Value → Checked ℕ
day_of (integer (pos d)) = if leb d 6 then ok d else refused bad_days
day_of _ = refused bad_days

unfoldable pub sorted_days : List Value → Checked (List ℕ)
unfolding add_day
sorted_days [] = ok []
sorted_days (v ∷ vs) = do d ← day_of v; ds ← sorted_days vs; ok (add_day d ds)

unfoldable pub some_days : List Value → Checked (Option (List ℕ))
unfolding sorted_days
some_days [] = refused bad_days
some_days (v ∷ vs) = do ds ← sorted_days (v ∷ vs); ok (some ds)

unfoldable pub validated_days : Option Value → Checked (Option (List ℕ))
unfolding some_days
validated_days none = ok none
validated_days (some null) = ok none
validated_days (some (array vs)) = some_days (elements vs)
validated_days (some _) = refused bad_days

module _ (digit : ℕ → Option ℕ) where
  unfoldable pub validated_time : String → Option Value → Checked String
  unfolding is_hhmm
  validated_time name (some (text s)) = if is_hhmm digit s then ok s else refused (bad_time name)
  validated_time name _ = refused (bad_time name)

  unfoldable pub window_of_dict : List (String × Value) → Checked TimeWindow
  unfolding lookup has_only validated_time validated_days
  window_of_dict window = do
    guard (has_only window_keys window) window_with_other_keys
    start ← validated_time "start" (lookup "start" window)
    end ← validated_time "end" (lookup "end" window)
    guard (not (str_eq start end)) equal_times
    days ← validated_days (lookup "days" window)
    ok (record { start = start; end = end; days = days })

  unfoldable pub validated_window : Value → Checked TimeWindow
  unfolding window_of_dict items
  validated_window (object fs) = window_of_dict (items fs)
  validated_window _ = refused window_not_an_object

  unfoldable pub validated_windows : Value → Checked (List TimeWindow)
  unfolding check_each validated_window elements
  validated_windows (array raw) = do
    guard (leb (length (elements raw)) max_windows) too_many_windows
    check_each validated_window (elements raw)
  validated_windows _ = refused windows_not_a_list

-- The dict of a window; `days` is no key if it is not given.
unfoldable pub days_value : Option (List ℕ) → Option Value
days_value none = none
days_value (some ds) = some (list_of (map (λ d. integer (pos d)) ds))

abbrev pub window_fields : TimeWindow → List (String × Option Value)
window_fields w =
    ("start", some (text w.start)) ∷ ("end", some (text w.end)) ∷ ("days", days_value w.days) ∷ []

unfoldable pub window_value : TimeWindow → Value
window_value w = dict_of (given (window_fields w))
