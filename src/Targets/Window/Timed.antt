-- ===== src/Targets/Window/Timed.antt =====
-- targetstore.py, `_HHMM`, and diagnostics.py, `in_maintenance`: the times of a validated window are
-- times of day, so that no window of a validated entry is skipped.
use vigil_sre.Prelude.{
  ℕ, ◌+◌, ◌*◌, ◌-◌, ◌≤◌, ◌<◌, ◌≡◌, refl, ap, String, Bool, true, false, ◌&&◌, ◌||◌, Option, none,
  some, List, [], ◌∷◌, ◌==◌, map, arith, Bool-cases, Option-cases, inl, inr, is_some,
}
use vigil_sre.Targets.Text.{is_hhmm, between}
use vigil_sre.Targets.Url.{split}
use vigil_sre.Targets.Checked.{ok, Each}
use vigil_sre.Targets.Value.{Value}
use vigil_sre.Targets.Window.{TimeWindow, validated_windows}
use vigil_sre.Targets.Window.Again.{Passes, validated_windows-Each}
use vigil_sre.Diagnostics.Maintenance.{Window}
use vigil_sre.Diagnostics.Maintenance.Week.{TimesOfDay, AllTimed}
use Prim.Native.String.{[] as no_char, ◌∷◌ as ◌⊳◌}
use Prim.Native.Char.{Char, code}

-- What `unicodedata` and `int` say of decimal digits.
pub record Decimals (digit : ℕ → Option ℕ) (int_of : String → Option ℕ) : Type 0 where
  pub small : (c n : ℕ) → digit c ≡ some n → n < 10
  pub ascii : (c : ℕ) → 48 ≤ c → c ≤ 57 → digit c ≡ some (c - 48)
  pub colon : digit 58 ≡ none
  -- two digits are a number
  pub reads :
      (a b : Char) (m n : ℕ)
      → digit (code a) ≡ some m
      → digit (code b) ≡ some n
      → int_of (a ⊳ b ⊳ no_char) ≡ some (10 * m + n)
  -- and with a line feed at the end, which `int` strips
  pub reads_line :
      (a b c : Char) (m n : ℕ)
      → digit (code a) ≡ some m
      → digit (code b) ≡ some n
      → code c ≡ 10
      → int_of (a ⊳ b ⊳ c ⊳ no_char) ≡ some (10 * m + n)

module _ (int_of : String → Option ℕ) where
  abbrev pub both : Option ℕ → Option ℕ → Option (ℕ × ℕ)
  both (some h) (some m) = some (h, m)
  both (some h) none = none
  both none _ = none

  abbrev pub pair_of : List String → Option (ℕ × ℕ)
  pair_of (h ∷ m ∷ []) = both (int_of h) (int_of m)
  pair_of _ = none

  -- `(int(part) for part in text.split(":"))`, of two parts
  unfoldable pub time_of : String → Option (ℕ × ℕ)
  unfolding split
  time_of s = pair_of (split b':' s)

  -- A window of an entry, as `in_maintenance` reads it.
  unfoldable pub window_of : TimeWindow → Window
  unfolding time_of
  window_of w = record { days = w.days; start = time_of w.start; end = time_of w.end }

abbrev IsTime : Option (ℕ × ℕ) → Type 0
IsTime none = ⊥
IsTime (some (h, m)) = h * 60 + m < 1440

parts :
    (a b c d e : Bool)
    → (a && b && c && d && e) ≡ true
    → (a ≡ true) × (b ≡ true) × ((c && d) ≡ true) × (e ≡ true)
parts true true true true true h = (refl, refl, refl, refl)
parts true true true true false h = cc
parts true true true false e h = cc
parts true true false d e h = cc
parts true false c d e h = cc
parts false b c d e h = cc

line_feed : (c : ℕ) → (c == 10) ≡ true → (c == 58) ≡ false
line_feed c h = ground arith

module _ (digit : ℕ → Option ℕ) (int_of : String → Option ℕ) (laws : Decimals digit int_of) where
  digit-colon : (c : Char) → is_some (digit (code c)) ≡ true → (code c == 58) ≡ false
  digit-colon c h = elim (Bool-cases (code c == 58)) [
    | inl e ↦ absurd (no_digit (ground arith))
    | inr e ↦ e
  ]
    where
      no_digit : code c ≡ 58 → ⊥
      no_digit e = cc (ap digit e, laws.colon, h)

  -- A tens digit up to 5, and a digit.
  record Two (a b : Char) (n : ℕ) : Type 0 where
    first_part : (code a == 58) ≡ false
    second_part : (code b == 58) ≡ false
    number : int_of (a ⊳ b ⊳ no_char) ≡ some n
    line : (c : Char) → code c ≡ 10 → int_of (a ⊳ b ⊳ c ⊳ no_char) ≡ some n

  two_digits :
      (a b : Char) (n : ℕ)
      → 48 ≤ code a
      → code a ≤ 53
      → digit (code b) ≡ some n
      → Two a b (10 * (code a - 48) + n)
  two_digits a b n low high e = record {
    first_part = ground arith;
    second_part = digit-colon b (rw e refl);
    number = laws.reads a b (code a - 48) n (laws.ascii (code a) low (omega (arith, high))) e;
    line = λ c l.
        laws.reads_line a b c (code a - 48) n (laws.ascii (code a) low (omega (arith, high))) e l;
  }

  -- `[01]\d|2[0-3]`
  hour :
      (a b : Char)
      → ((between 48 49 (code a) && is_some (digit (code b)))
          || (code a == 50 && between 48 51 (code b)))
        ≡ true
      → (n : ℕ) × (n ≤ 23) × Two a b n
  hour a b h = elim (Bool-cases (between 48 49 (code a) && is_some (digit (code b)))) [
    | inl e ↦ elim (Option-cases (digit (code b))) [
      | inl none_ ↦ absurd (ground (arith, e, none_))
      | inr (n, d) ↦
          let small = laws.small (code b) n d in
          (10 * (code a - 48) + n, ground arith, two_digits a b n (ground arith) (ground arith) d)
    ]
    | inr e ↦
        let d = laws.ascii (code b) (ground arith) (ground arith) in
        (
          10 * (code a - 48) + (code b - 48),
          ground arith,
          two_digits a b (code b - 48) (ground arith) (ground arith) d,
        )
  ]

  -- `[0-5]\d`
  minute :
      (a b : Char)
      → (between 48 53 (code a) && is_some (digit (code b))) ≡ true
      → (n : ℕ) × (n ≤ 59) × Two a b n
  minute a b h = elim (Option-cases (digit (code b))) [
    | inl none_ ↦ absurd (ground (arith, h, none_))
    | inr (n, d) ↦
        let small = laws.small (code b) n d in
        (10 * (code a - 48) + n, ground arith, two_digits a b n (ground arith) (ground arith) d)
  ]

  is_hhmm-IsTime : (s : String) → is_hhmm digit s ≡ true → IsTime (time_of int_of s)
  unfolding is_hhmm time_of split
  is_hhmm-IsTime (a ⊳ b ⊳ c ⊳ d ⊳ e ⊳ no_char) h =
      let (i, j, k, l) =
        parts _ (code c == 58) (between 48 53 (code d)) (is_some (digit (code e))) true h in
      let (n, le, p) = hour a b i in
      let (m, le', q) = minute d e k in
      rw (p.first_part, p.second_part, j, q.first_part, q.second_part)
        (rw (p.number, q.number) (omega arith))
  is_hhmm-IsTime (a ⊳ b ⊳ c ⊳ d ⊳ e ⊳ f ⊳ no_char) h =
      let (i, j, k, l) =
        parts _ (code c == 58) (between 48 53 (code d)) (is_some (digit (code e))) (code f == 10)
          h in
      let (n, le, p) = hour a b i in
      let (m, le', q) = minute d e k in
      rw (p.first_part, p.second_part, j, q.first_part, q.second_part, line_feed (code f) l)
        (rw (p.number, q.line f (ground arith)) (omega arith))
  is_hhmm-IsTime (a ⊳ b ⊳ c ⊳ d ⊳ e ⊳ f ⊳ g ⊳ s) h = ground arith
  is_hhmm-IsTime no_char h = cc
  is_hhmm-IsTime (a ⊳ no_char) h = cc
  is_hhmm-IsTime (a ⊳ b ⊳ no_char) h = cc
  is_hhmm-IsTime (a ⊳ b ⊳ c ⊳ no_char) h = cc
  is_hhmm-IsTime (a ⊳ b ⊳ c ⊳ d ⊳ no_char) h = cc

  both_times : (start end : Option (ℕ × ℕ)) → IsTime start → IsTime end → TimesOfDay start end
  both_times (some (h, m)) (some (h', m')) a b = (a, b)
  both_times (some (h, m)) none a b = absurd b
  both_times none end a b = absurd a

  Each-AllTimed :
      (ws : List TimeWindow) → Each (Passes digit) ws → AllTimed (map (window_of int_of) ws)
  unfolding window_of
  Each-AllTimed [] h = tt
  Each-AllTimed (w ∷ ws) (p, rest) = (
    both_times _ _ (is_hhmm-IsTime w.start p.start_ok) (is_hhmm-IsTime w.end p.end_ok),
    Each-AllTimed ws rest,
  )

  -- Each window that the validation accepts has two times of day, so `in_maintenance` skips none.
  pub validated_windows-AllTimed :
      (raw : Value) (ws : List TimeWindow)
      → validated_windows digit raw ≡ ok ws
      → AllTimed (map (window_of int_of) ws)
  validated_windows-AllTimed raw ws h = Each-AllTimed ws (validated_windows-Each digit raw h).0
