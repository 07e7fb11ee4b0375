-- ===== src/Targetctl/Without.antt =====
-- targetctl.py: the entries of one URL, among the values that a GET has listed.
use vigil_sre.Prelude.{
  ◌≡◌, refl, ap, String, true, false, not, List, [], ◌∷◌, map, filter, str_eq, ◌==◌, length,
  length-map, Bool-cases, inl, inr, arith,
}
use vigil_sre.Prelude.Dict.{lookup, contains}
use vigil_sre.Targets.Value.{Value, items, of_items}
use vigil_sre.Targets.Value.Dict.{given}
use vigil_sre.Targets.Checked.{Each}
use vigil_sre.Targets.Entry.{Entry, entry_value}
use vigil_sre.Targets.Store.{url_of}
use vigil_sre.Targetctl.Wire.{has_url, any_url}
use vigil_sre.Targetctl.{is_empty, kept_without}

has_url-entry_value : (url : String) (e : Entry) → has_url url (entry_value e) ≡ str_eq e.url url
unfolding has_url entry_value given lookup items of_items
has_url-entry_value url e = refl

pub any_url-entry_value :
    (url : String) (es : List Entry)
    → any_url url (map entry_value es) ≡ contains (map url_of es) url
unfolding any_url contains
any_url-entry_value url [] = refl
any_url-entry_value url (e ∷ es) = rw (has_url-entry_value url e, any_url-entry_value url es) refl

-- The entries of the other URLs.
unfoldable pub without : String → List Entry → List Entry
without url es = filter (λ (e : Entry). not (str_eq e.url url)) es

pub kept_without-entry_value :
    (url : String) (es : List Entry)
    → kept_without url (map entry_value es) ≡ map entry_value (without url es)
unfolding without
kept_without-entry_value url [] = refl
kept_without-entry_value url (e ∷ es) = elim (Bool-cases (str_eq e.url url)) [
  | inl t ↦ rw (has_url-entry_value url e, t) (kept_without-entry_value url es)
  | inr t ↦
      rw (has_url-entry_value url e, t)
        (ap (λ (vs : List Value). entry_value e ∷ vs) (kept_without-entry_value url es))
]

pub Each-without :
    (P : Entry → Type 0) (url : String) (es : List Entry) → Each P es → Each P (without url es)
unfolding without
Each-without P url [] a = tt
Each-without P url (e ∷ es) (p, a) = elim (Bool-cases (str_eq e.url url)) [
  | inl t ↦ rw t (Each-without P url es a)
  | inr t ↦ rw t (p, Each-without P url es a)
]

pub length-without :
    (url : String) (es : List Entry)
    → contains (map url_of es) url ≡ false
    → length (without url es) ≡ length es
unfolding without contains
length-without url [] h = refl
length-without url (e ∷ es) h = ground (arith, length-without url es)

pub was_listed :
    (url : String) (es : List Entry)
    → (length (map entry_value (without url es)) == length (map entry_value es)) ≡ false
    → contains (map url_of es) url ≡ true
was_listed url es h = ground (
  arith,
  length-without url es,
  length-map entry_value es,
  length-map entry_value (without url es),
)

pub is_empty-entry_value : (es : List Entry) → is_empty (map entry_value es) ≡ (length es == 0)
is_empty-entry_value [] = refl
is_empty-entry_value (e ∷ es) = ground arith
