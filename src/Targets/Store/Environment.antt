-- ===== src/Targets/Store/Environment.antt =====
-- targetstore.py: a read that is not to check the environment does not depend on it.
use vigil_sre.Prelude.{◌≡◌, refl, ap, String, Bool, true, false, Option, none, some, if◌then◌else◌}
use vigil_sre.Prelude.Dict.{lookup}
use vigil_sre.Targets.Text.{reference_of, has_lowercase}
use vigil_sre.Targets.Value.{
  Value, null, text, boolean, integer, decimal, non_finite, array, object, items, elements,
}
use vigil_sre.Targets.Checked.{check_each-ext}
use vigil_sre.Targets.Url.{Python}
use vigil_sre.Targets.Entry.{
  Env, lowercase, unset, is_unset, refuse_problem, problem_of_match, env_reference_problem,
  validated_substring, entry_of_dict, validate_entry,
}
use vigil_sre.Targets.Store.{
  validate_all, StoreFile, absent, unreadable, content, Json, read_store, read_value, entries_of,
  read_of,
}

module _ (py : Python) (env env' : Env) where
  reference-env :
      (low void void' : Bool) (name : String)
      → refuse_problem false
          (if low then some (lowercase name) else if void then some (unset name) else none)
        ≡ refuse_problem false
            (if low then some (lowercase name) else if void' then some (unset name) else none)
  reference-env true void void' name = refl
  reference-env false true true name = refl
  reference-env false true false name = refl
  reference-env false false true name = refl
  reference-env false false false name = refl

  match-env :
      (raw : String) (m : Option String)
      → refuse_problem false (problem_of_match env raw m)
        ≡ refuse_problem false (problem_of_match env' raw m)
  match-env raw none = refl
  match-env raw (some name) =
      reference-env (has_lowercase name) (is_unset (env name)) (is_unset (env' name)) name

  validated_substring-env :
      (v : Option Value) → validated_substring env false v ≡ validated_substring env' false v
  unfolding validated_substring env_reference_problem
  validated_substring-env none = refl
  validated_substring-env (some null) = refl
  validated_substring-env (some (text s)) = rw (match-env s (reference_of s)) refl
  validated_substring-env (some (boolean b)) = refl
  validated_substring-env (some (integer n)) = refl
  validated_substring-env (some (decimal m p)) = refl
  validated_substring-env (some (non_finite x)) = refl
  validated_substring-env (some (array vs)) = refl
  validated_substring-env (some (object fs)) = refl

  validate_entry-env : (v : Value) → validate_entry py env false v ≡ validate_entry py env' false v
  unfolding validate_entry entry_of_dict
  validate_entry-env (object fs) =
      rw (validated_substring-env (lookup "expect_substring" (items fs))) refl
  validate_entry-env null = refl
  validate_entry-env (text s) = refl
  validate_entry-env (boolean b) = refl
  validate_entry-env (integer n) = refl
  validate_entry-env (decimal m p) = refl
  validate_entry-env (non_finite x) = refl
  validate_entry-env (array vs) = refl

  validate_all-env : (v : Option Value) → validate_all py env false v ≡ validate_all py env' false v
  unfolding validate_all
  validate_all-env (some (array vs)) =
      rw
        (check_each-ext (validate_entry py env false) (validate_entry py env' false)
          validate_entry-env (elements vs))
        refl
  validate_all-env none = refl
  validate_all-env (some null) = refl
  validate_all-env (some (text s)) = refl
  validate_all-env (some (boolean b)) = refl
  validate_all-env (some (integer n)) = refl
  validate_all-env (some (decimal m p)) = refl
  validate_all-env (some (non_finite x)) = refl
  validate_all-env (some (object fs)) = refl

  read_value-env :
      (json : Json) (o : Option Value)
      → read_value py env json false o ≡ read_value py env' json false o
  read_value-env json none = refl
  read_value-env json (some v) = ap read_of (validate_all-env (entries_of v))

  -- What is read of the store is the same in every environment.
  pub read_store-env :
      (json : Json) (f : StoreFile)
      → read_store py env json false f ≡ read_store py env' json false f
  unfolding read_store
  read_store-env json absent = refl
  read_store-env json unreadable = refl
  read_store-env json (content s) = read_value-env json (json.loads s)
