-- ===== src/Targets/Value.antt =====
-- What `json.loads` and `yaml.safe_load` return: the values that targetstore.py and main.py inspect.
pub mod Dict
use vigil_sre.Prelude.{
  ℕ, ◌≡◌, refl, ap, String, Bool, true, false, List, [], ◌∷◌, Option, none, some, str_eq, not, ◌==◌,
}
use vigil_sre.Prelude.Int.{ℤ, pos}

pub data NonFinite : Type 0 where
  nan infinity minus_infinity : NonFinite

-- A finite float is its decimal fraction, mantissa / 10 ^ places. The keys of an object differ.
mutual
  pub data Value : Type 0 where
    null : Value
    boolean : Bool → Value
    integer : ℤ → Value
    non_finite : NonFinite → Value
    decimal : ℤ → ℕ → Value
    text : String → Value
    array : Values → Value
    object : Fields → Value

  pub data Values : Type 0 where
    no_value : Values
    value : Value → Values → Values

  pub data Fields : Type 0 where
    no_field : Fields
    field : String → Value → Fields → Fields

unfoldable pub elements : Values → List Value
elements no_value = []
elements (value v vs) = v ∷ elements vs

unfoldable pub of_elements : List Value → Values
of_elements [] = no_value
of_elements (v ∷ vs) = value v (of_elements vs)

unfoldable pub items : Fields → List (String × Value)
items no_field = []
items (field k v fs) = (k, v) ∷ items fs

unfoldable pub of_items : List (String × Value) → Fields
of_items [] = no_field
of_items ((k, v) ∷ fs) = field k v (of_items fs)

abbrev pub list_of : List Value → Value
list_of vs = array (of_elements vs)

abbrev pub dict_of : List (String × Value) → Value
dict_of fs = object (of_items fs)

pub elements-of_elements : (vs : List Value) → elements (of_elements vs) ≡ vs
unfolding elements of_elements
elements-of_elements [] = refl
elements-of_elements (v ∷ vs) = ap (λ ws. v ∷ ws) (elements-of_elements vs)

pub items-of_items : (fs : List (String × Value)) → items (of_items fs) ≡ fs
unfolding items of_items
items-of_items [] = refl
items-of_items ((k, v) ∷ fs) = ap (λ gs. (k, v) ∷ gs) (items-of_items fs)

-- `bool(value)`
unfoldable pub is_truthy : Value → Bool
is_truthy null = false
is_truthy (non_finite x) = true
is_truthy (boolean b) = b
is_truthy (integer (pos n)) = not (n == 0)
is_truthy (integer _) = true
is_truthy (decimal (pos n) p) = not (n == 0)
is_truthy (decimal _ p) = true
is_truthy (text s) = not (str_eq s "")
is_truthy (array no_value) = false
is_truthy (array (value v vs)) = true
is_truthy (object no_field) = false
is_truthy (object (field k v fs)) = true
