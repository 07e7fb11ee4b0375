-- ===== src/Diagnostics/Reminders.antt =====
-- diagnostics.py: how many reminders an outage of a given age should have had.
pub mod Schedule
use vigil_sre.Prelude.{ℕ, ◌+◌, ◌-◌, ◌*◌, ◌/◌, List, [], ◌∷◌, leb, if◌then◌else◌}

-- `REMINDER_SCHEDULE_H`, in hours
abbrev pub reminder_schedule_h : List ℕ
reminder_schedule_h = 1 ∷ 2 ∷ 4 ∷ 6 ∷ 12 ∷ []

abbrev pub reminder_repeat_h : ℕ
reminder_repeat_h = 24

abbrev pub last_scheduled_h : ℕ
last_scheduled_h = 12

abbrev pub hour_s : ℕ
hour_s = 3600

-- `sum(1 for threshold in REMINDER_SCHEDULE_H if elapsed_hours >= threshold)`
unfoldable pub passed : List ℕ → ℕ → ℕ
passed [] elapsed_s = 0
passed (t ∷ ts) elapsed_s = (if leb (t * hour_s) elapsed_s then 1 else 0) + passed ts elapsed_s

-- The elapsed time is in whole seconds: every threshold is a whole number of seconds.
unfoldable pub reminders_due : ℕ → ℕ
unfolding passed
reminders_due elapsed_s =
    let due = passed reminder_schedule_h elapsed_s in
    if leb (last_scheduled_h * hour_s) elapsed_s
    then due + (elapsed_s - last_scheduled_h * hour_s) / (reminder_repeat_h * hour_s)
    else due
