-- ===== src/Diagnostics/Maintenance.antt =====
-- diagnostics.py, `in_maintenance`: the maintenance window in effect.
-- The clock is in seconds after the epoch, UTC; 1 January 1970 was a Thursday, day 3 of the week.
pub mod Week
use vigil_sre.Prelude.{
  ℕ, ◌+◌, ◌*◌, ◌/◌, ◌%◌, Bool, true, false, ◌&&◌, ◌||◌, Option, none, some, List, [], ◌∷◌, leb, ltb,
  ◌==◌, if◌then◌else◌,
}

-- A time of day is `none` where the text is missing or is not two numbers.
pub record Window : Type 0 where
  pub days : Option (List ℕ)
  pub start : Option (ℕ × ℕ)
  pub end : Option (ℕ × ℕ)

abbrev pub weekday : ℕ → ℕ
weekday now = (now / 86400 + 3) % 7

abbrev pub minute_of_day : ℕ → ℕ
minute_of_day now = now % 86400 / 60

unfoldable pub mem : ℕ → List ℕ → Bool
mem d [] = false
mem d (x ∷ xs) = x == d || mem d xs

-- `days is None or d in days`
unfoldable pub on_day : Option (List ℕ) → ℕ → Bool
unfolding mem
on_day none d = true
on_day (some ds) d = mem d ds

-- 23:59 as an end means the whole day.
abbrev pub end_minute : ℕ → ℕ
end_minute e = if e == 1439 then 1440 else e

-- `(d - 1) % 7`, never negative in Python
abbrev pub day_before : ℕ → ℕ
day_before d = (d + 6) % 7

-- Is the window from minute `start` to minute `end` in effect?
unfoldable pub covers : Option (List ℕ) → ℕ → ℕ → ℕ → ℕ → Bool
unfolding on_day
covers days start end day minutes =
    if leb start end
    then on_day days day && (leb start minutes && ltb minutes end)
    else if leb start minutes
    then on_day days day
    else ltb minutes end && on_day days (day_before day)

-- A window whose times are missing or unreadable is skipped.
unfoldable pub span_in_effect : Option (List ℕ) → Option (ℕ × ℕ) → Option (ℕ × ℕ) → ℕ → ℕ → Bool
unfolding covers
span_in_effect days (some (start_h, start_m)) (some (end_h, end_m)) day minutes =
    covers days (start_h * 60 + start_m) (end_minute (end_h * 60 + end_m)) day minutes
span_in_effect days (some start) none day minutes = false
span_in_effect days none _ day minutes = false

unfoldable pub in_effect : Window → ℕ → ℕ → Bool
unfolding span_in_effect
in_effect w day minutes = span_in_effect w.days w.start w.end day minutes

unfoldable pub first_in_effect : List Window → ℕ → ℕ → Option Window
unfolding in_effect
first_in_effect [] day minutes = none
first_in_effect (w ∷ ws) day minutes =
    if in_effect w day minutes then some w else first_in_effect ws day minutes

unfoldable pub in_maintenance : Option (List Window) → ℕ → Option Window
unfolding first_in_effect
in_maintenance none now = none
in_maintenance (some windows) now = first_in_effect windows (weekday now) (minute_of_day now)
