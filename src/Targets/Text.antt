-- ===== src/Targets/Text.antt =====
-- targetstore.py: the regular expressions on texts, and `str.strip`, as functions on code points.
pub mod Strip
use vigil_sre.Prelude.{
  ℕ, ◌+◌, ◌*◌, String, Bool, true, false, ◌&&◌, ◌||◌, Option, none, some, leb, ◌==◌, if◌then◌else◌,
  is_some,
}
use Prim.Native.String.{[], ◌∷◌}
use Prim.Native.Char.{Char, code}

abbrev pub between : ℕ → ℕ → ℕ → Bool
between low high c = leb low c && leb c high

-- `str.isspace` of a character, which `str.strip` drops.
unfoldable pub is_space : ℕ → Bool
is_space c =
    between 9 13 c
    || between 28 32 c
    || (c == 133 || c == 160 || c == 5760)
    || between 8192 8202 c
    || (c == 8232 || c == 8233 || c == 8239 || c == 8287 || c == 12288)

unfoldable pub trim_start : String → String
unfolding is_space
trim_start [] = []
trim_start (c ∷ s) = if is_space (code c) then trim_start s else c ∷ s

-- A character in front of a text that has no space at its end.
abbrev pub before : Char → String → String
before c [] = if is_space (code c) then [] else c ∷ []
before c (d ∷ s) = c ∷ d ∷ s

unfoldable pub trim_end : String → String
unfolding is_space
trim_end [] = []
trim_end (c ∷ s) = before c (trim_end s)

unfoldable pub strip : String → String
unfolding trim_start trim_end
strip s = trim_end (trim_start s)

-- `$` matches at the end of the text, and before a line feed that ends it.
abbrev pub is_end : String → Bool
is_end [] = true
is_end (c ∷ []) = code c == 10
is_end (c ∷ d ∷ s) = false

abbrev pub is_letter : ℕ → Bool
is_letter c = between b'A' b'Z' c || between b'a' b'z' c

abbrev pub is_name_start : ℕ → Bool
is_name_start c = is_letter c || c == b'_'

abbrev pub is_name_part : ℕ → Bool
is_name_part c = is_name_start c || between b'0' b'9' c

abbrev pub in_front : Char → Option String → Option String
in_front c none = none
in_front c (some s) = some (c ∷ s)

-- `[A-Za-z0-9_]*\}$`
unfoldable pub name_rest : String → Option String
name_rest [] = none
name_rest (c ∷ s) =
    let rest = name_rest s in
    if code c == b'}'
    then (if is_end s then some [] else none)
    else if is_name_part (code c)
    then in_front c rest
    else none

-- `ENV_VAR_REF`: the variable that a complete reference names.
unfoldable pub reference_of : String → Option String
unfolding name_rest
reference_of (a ∷ b ∷ c ∷ s) =
    if (code a == b'$' && code b == b'{') && is_name_start (code c)
    then in_front c (name_rest s)
    else none
reference_of _ = none

abbrev pub starts_brace : String → Bool
starts_brace [] = false
starts_brace (c ∷ s) = code c == b'{'

-- `ENV_VAR_SUSPECT`
unfoldable pub is_suspect : String → Bool
is_suspect [] = false
is_suspect (c ∷ s) = (code c == b'$' && starts_brace s) || is_suspect s

-- `name != name.upper()`, of an ASCII name
unfoldable pub has_lowercase : String → Bool
has_lowercase [] = false
has_lowercase (c ∷ s) = between b'a' b'z' (code c) || has_lowercase s

module _ (digit : ℕ → Option ℕ) where
  abbrev pub is_digit : ℕ → Bool
  is_digit c = is_some (digit c)

  -- `_HHMM`; `\d` takes the decimal digits of every script.
  unfoldable pub is_hhmm : String → Bool
  is_hhmm (a ∷ b ∷ c ∷ d ∷ e ∷ s) =
      ((between b'0' b'1' (code a) && is_digit (code b))
        || (code a == b'2' && between b'0' b'3' (code b)))
      && code c == b':'
      && between b'0' b'5' (code d)
      && is_digit (code e)
      && is_end s
  is_hhmm _ = false
