-- ===== src/Targets/Seed.antt =====
-- targetstore.py, `read_seed`: the seed as the editor shows it.
use vigil_sre.Prelude.{
  ◌≡◌, String, false, not, ◌&&◌, List, [], ◌∷◌, Option, none, some, str_eq, if◌then◌else◌, map,
}
use vigil_sre.Prelude.Dict.{lookup, contains}
use vigil_sre.Targets.Value.{
  Value, text, array, object, elements, items, list_of, dict_of, is_truthy,
}
use vigil_sre.Targets.Checked.{
  Checked, ok, refused, ◌>>=◌, check_each, bind-ok, invalid_target_entry, seed_missing,
  seed_not_yaml, seed_unreadable, not_a_list,
}
use vigil_sre.Targets.Url.{Python}
use vigil_sre.Targets.Entry.{Entry, Env, entry_value, allowed_keys}
use vigil_sre.Targets.Store.{validate_all}
use vigil_sre.Targets.Store.Kept.{validate_all-again}
use vigil_sre.Targets.Load.{SeedFile, missing, undecodable, not_yaml, parsed, Show, shown_text}

-- The items under the allowed keys, the URL aside.
unfoldable pub known_items : List (String × Value) → List (String × Value)
unfolding contains
known_items [] = []
known_items ((k, v) ∷ fs) =
    let rest = known_items fs in
    if contains allowed_keys k && not (str_eq k "url") then (k, v) ∷ rest else rest

abbrev pub coerced_with : Show → Option Value → List (String × Value) → Checked Value
coerced_with show none entry = refused invalid_target_entry
coerced_with show (some v) entry =
    if is_truthy v
    then ok (dict_of (("url", text (shown_text show v)) ∷ known_items entry))
    else refused invalid_target_entry

unfoldable pub coerced : Show → Value → Checked Value
unfolding lookup items is_truthy known_items
coerced show (text url) = ok (dict_of (("url", text url) ∷ []))
coerced show (object fs) = coerced_with show (lookup "url" (items fs)) (items fs)
coerced show _ = refused invalid_target_entry

abbrev pub listed : Option Value → Checked (List Value)
listed none = ok []
listed (some (array vs)) = ok (elements vs)
listed (some _) = refused not_a_list

-- `raw.get("targets", []) if isinstance(raw, dict) else []`, which has to be a list.
unfoldable pub listed_entries : Value → Checked (List Value)
unfolding lookup items elements
listed_entries (object fs) = listed (lookup "targets" (items fs))
listed_entries _ = ok []

-- A refusal stands for the empty list with its message.
unfoldable pub read_seed : Python → Env → Show → SeedFile → Checked (List Entry)
unfolding check_each coerced listed_entries validate_all
read_seed py env show missing = refused seed_missing
read_seed py env show undecodable = refused seed_unreadable
read_seed py env show not_yaml = refused seed_not_yaml
read_seed py env show (parsed raw) = do
  entries ← listed_entries raw
  values ← check_each (coerced show) entries
  validate_all py env false (some (list_of values))

-- The list that the editor shows of a seed is one that the store holds unchanged, in any environment.
pub read_seed-again :
    (py : Python) (env env' : Env) (show : Show) (seed : SeedFile) (es : List Entry)
    → read_seed py env show seed ≡ ok es
    → validate_all py env' false (some (list_of (map entry_value es))) ≡ ok es
unfolding read_seed
read_seed-again py env env' show (parsed raw) es h =
    let (entries, e, h0) = bind-ok (listed_entries raw) _ h in
    let (values, e1, h1) = bind-ok (check_each (coerced show) entries) _ h0 in
    validate_all-again py env env' false (some (list_of values)) es h1
read_seed-again py env env' show missing es h = cc
read_seed-again py env env' show undecodable es h = cc
read_seed-again py env env' show not_yaml es h = cc
