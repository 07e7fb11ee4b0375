-- ===== src/Targets/Text/Strip.antt =====
-- targetstore.py: `str.strip` leaves nothing to strip.
use vigil_sre.Prelude.{String, ◌≡◌, refl, ap, ◌∙◌, inl, inr, false, Bool-cases}
use vigil_sre.Targets.Text.{is_space, trim_start, trim_end, strip, before}
use Prim.Native.String.{[], ◌∷◌}
use Prim.Native.Char.{Char, code}

-- A text that does not start with a space.
abbrev StartsClean : String → Type 0
StartsClean [] = Unit
StartsClean (c ∷ s) = is_space (code c) ≡ false

trim_start-StartsClean : (s : String) → StartsClean (trim_start s)
unfolding trim_start
trim_start-StartsClean [] = tt
trim_start-StartsClean (c ∷ s) = elim (Bool-cases (is_space (code c))) [
  | inl e ↦ rw e (trim_start-StartsClean s)
  | inr e ↦ rw e e
]

trim_start-id : (s : String) → StartsClean s → trim_start s ≡ s
unfolding trim_start
trim_start-id [] h = refl
trim_start-id (c ∷ s) h = rw h refl

before-StartsClean : (c : Char) (s : String) → is_space (code c) ≡ false → StartsClean (before c s)
before-StartsClean c [] h = rw h h
before-StartsClean c (d ∷ s) h = h

trim_end-StartsClean : (s : String) → StartsClean s → StartsClean (trim_end s)
unfolding trim_end
trim_end-StartsClean [] h = tt
trim_end-StartsClean (c ∷ s) h = before-StartsClean c (trim_end s) h

before-trim_end : (c : Char) (s : String) → trim_end s ≡ s → trim_end (before c s) ≡ before c s
unfolding trim_end
before-trim_end c [] h = elim (Bool-cases (is_space (code c))) [
  | inl e ↦ rw e refl
  | inr e ↦ rw e (rw e refl)
]
before-trim_end c (d ∷ s) h = ap (before c) h

trim_end-again : (s : String) → trim_end (trim_end s) ≡ trim_end s
unfolding trim_end
trim_end-again [] = refl
trim_end-again (c ∷ s) = before-trim_end c (trim_end s) (trim_end-again s)

pub strip-strip : (s : String) → strip (strip s) ≡ strip s
unfolding strip
strip-strip s =
    let clean = trim_end-StartsClean (trim_start s) (trim_start-StartsClean s) in
    ap trim_end (trim_start-id _ clean) ∙ trim_end-again (trim_start s)
