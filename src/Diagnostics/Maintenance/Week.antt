-- ===== src/Diagnostics/Maintenance/Week.antt =====
-- diagnostics.py, `in_maintenance`: a window as a span of the week.
use vigil_sre.Prelude.{
  ℕ, ◌+◌, ◌*◌, ◌%◌, ◌/◌, ◌≤◌, ◌<◌, ◌≡◌, refl, ◌⊎◌, ◌↔◌, inl, inr, true, Option, none, some, List,
  [], ◌∷◌, arith, leb, if◌then◌else◌, Bool-cases, dec_lt, is_some,
}
use vigil_sre.Diagnostics.Maintenance.{
  end_minute, span_in_effect, Window, on_day, covers, day_before, in_effect, first_in_effect,
  in_maintenance, weekday, minute_of_day,
}

-- The minute of the week, day 0 being Monday.
abbrev pub week_minute : ℕ → ℕ → ℕ
week_minute day minutes = 1440 * day + minutes

-- The end of a window that starts on a day: one that does not end after its start crosses midnight.
abbrev pub length_end : ℕ → ℕ → ℕ
length_end start end = if leb start end then end else end + 1440

-- The minute `t` of the week, or the same minute a week on, is in the span of the window of day `d`.
abbrev pub InSpan : ℕ → ℕ → ℕ → ℕ → Type 0
InSpan start end d t =
    ((week_minute d start ≤ t) × (t < week_minute d (length_end start end)))
    ⊎ ((week_minute d start ≤ t + 10080) × (t + 10080 < week_minute d (length_end start end)))

-- Some day of the window's list has a span that holds the minute.
abbrev pub Covered : Option (List ℕ) → ℕ → ℕ → ℕ → Type 0
Covered days start end t = (d : ℕ) × (d < 7) × (on_day days d ≡ true) × InSpan start end d t

-- A minute's day is the span's day, or the day after it.
abbrev SpanDay : ℕ → ℕ → ℕ → ℕ → ℕ → Type 0
SpanDay start end d day minutes =
    ((d ≡ day) × (start ≤ minutes) × (end < start ⊎ minutes < end))
    ⊎ ((d ≡ day_before day) × (end < start) × (minutes < end))

module _ (start end day minutes : ℕ) (s : start < 1440) (e : end ≤ 1440) (dd : day < 7)
    (mm : minutes < 1440) where
  span_day :
      (d : ℕ)
      → d < 7
      → InSpan start end d (week_minute day minutes)
      → SpanDay start end d day minutes
  span_day d lt h = elim (Bool-cases (leb start end)) [
    | inl le ↦ inl (same le)
    | inr gt ↦ elim (Bool-cases (leb start minutes)) [
      | inl p ↦ inl ground arith
      | inr p ↦ inr ground arith
    ]
  ]
    where
      same : leb start end ≡ true → (d ≡ day) × (start ≤ minutes) × (end < start ⊎ minutes < end)
      same le = ground arith

  before-span :
      end < start → minutes < end → InSpan start end (day_before day) (week_minute day minutes)
  before-span gt p = elim (dec_lt 0 day) [ yes q ↦ inl ground arith | no q ↦ inr ground arith ]

module _ (days : Option (List ℕ)) (start end day minutes : ℕ) (s : start < 1440) (e : end ≤ 1440)
    (dd : day < 7) (mm : minutes < 1440) where
  covers-Covered :
      covers days start end day minutes ≡ true → Covered days start end (week_minute day minutes)
  unfolding covers
  covers-Covered c = elim (Bool-cases (leb start end)) [
    | inl le ↦ (day, dd, ground arith, ground arith)
    | inr gt ↦ elim (Bool-cases (leb start minutes)) [
      | inl p ↦ (day, dd, ground arith, ground arith)
      | inr p ↦ (
        day_before day,
        omega arith,
        ground arith,
        before-span start end day minutes s e dd mm (ground arith) (ground arith),
      )
    ]
  ]

  Covered-covers :
      Covered days start end (week_minute day minutes) → covers days start end day minutes ≡ true
  unfolding covers
  Covered-covers (d, lt, on, span) = elim (span_day start end day minutes s e dd mm d lt span) [
    | inl (p, q, r) ↦ ground arith
    | inr (p, q, r) ↦ ground arith
  ]

-- The minute of the week that a clock reading lies in.
abbrev pub minute_of_week : ℕ → ℕ
minute_of_week now = (now / 60 + 4320) % 10080

minute_of_week_lem : (now : ℕ) → week_minute (weekday now) (minute_of_day now) ≡ minute_of_week now
minute_of_week_lem now = omega arith

-- Two times that are times of day.
abbrev pub TimesOfDay : Option (ℕ × ℕ) → Option (ℕ × ℕ) → Type 0
TimesOfDay (some (h, m)) (some (h', m')) = (h * 60 + m < 1440) × (h' * 60 + m' < 1440)
TimesOfDay (some start) none = ⊥
TimesOfDay none _ = ⊥

abbrev pub SpanCovers : Option (List ℕ) → Option (ℕ × ℕ) → Option (ℕ × ℕ) → ℕ → Type 0
SpanCovers days (some (h, m)) (some (h', m')) t =
    Covered days (h * 60 + m) (end_minute (h' * 60 + m')) t
SpanCovers days (some start) none t = ⊥
SpanCovers days none _ t = ⊥

abbrev pub AllTimed : List Window → Type 0
AllTimed [] = Unit
AllTimed (w ∷ ws) = TimesOfDay w.start w.end × AllTimed ws

abbrev pub AnyCovers : List Window → ℕ → Type 0
AnyCovers [] t = ⊥
AnyCovers (w ∷ ws) t = SpanCovers w.days w.start w.end t ⊎ AnyCovers ws t

module _ (now : ℕ) where
  end_minute-le : (e : ℕ) → e < 1440 → end_minute e ≤ 1440
  end_minute-le e h = ground arith

  in_effect_lem :
      (days : Option (List ℕ)) (h m h' m' : ℕ)
      → h * 60 + m < 1440
      → h' * 60 + m' < 1440
      → (covers days (h * 60 + m) (end_minute (h' * 60 + m')) (weekday now) (minute_of_day now)
          ≡ true)
        ↔ Covered days (h * 60 + m) (end_minute (h' * 60 + m')) (minute_of_week now)
  in_effect_lem days h m h' m' s e = rw (← minute_of_week_lem now) (
    covers-Covered days (h * 60 + m) _ (weekday now) (minute_of_day now) s (end_minute-le _ e)
        (omega arith) (omega arith),
    Covered-covers days (h * 60 + m) _ (weekday now) (minute_of_day now) s (end_minute-le _ e)
        (omega arith) (omega arith),
  )

  span_in_effect_lem :
      (days : Option (List ℕ)) (start end : Option (ℕ × ℕ))
      → TimesOfDay start end
      → (span_in_effect days start end (weekday now) (minute_of_day now) ≡ true)
        ↔ SpanCovers days start end (minute_of_week now)
  unfolding span_in_effect
  span_in_effect_lem days (some (h, m)) (some (h', m')) ok = in_effect_lem days h m h' m' ok.0 ok.1
  span_in_effect_lem days (some start) none ok = absurd ok
  span_in_effect_lem days none end ok = absurd ok

  first_in_effect_lem :
      (ws : List Window)
      → AllTimed ws
      → (is_some (first_in_effect ws (weekday now) (minute_of_day now)) ≡ true)
        ↔ AnyCovers ws (minute_of_week now)
  unfolding first_in_effect
  first_in_effect_lem [] ok = (λ h. cc, λ h. absurd h)
  first_in_effect_lem (w ∷ ws) ok =
      let this = span_in_effect_lem w.days w.start w.end ok.0 in
      let later = first_in_effect_lem ws ok.1 in
      elim (Bool-cases (in_effect w (weekday now) (minute_of_day now))) [
        | inl e ↦ rw e (λ h. inl (this.0 e), λ h. refl)
        | inr e ↦ rw e (λ h. inr (later.0 h), elim [ inl c ↦ cc (e, this.1 c) | inr c ↦ later.1 c ])
      ]

  -- For windows with readable times, a target is in maintenance exactly if the minute of the week
  -- lies in the span of some window on one of its days, where a span runs up to its end, or past
  -- midnight if the end is before the start.
  pub in_maintenance_lem :
      (ws : List Window)
      → AllTimed ws
      → (is_some (in_maintenance (some ws) now) ≡ true) ↔ AnyCovers ws (minute_of_week now)
  unfolding in_maintenance
  in_maintenance_lem ws ok = first_in_effect_lem ws ok
