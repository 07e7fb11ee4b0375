-- ===== src/Targetctl/Kept.antt =====
-- targetctl.py: what the API stores of a list that a command puts back.
use vigil_sre.Prelude.{
  ◌≡◌, refl, ap, sym, ◌∙◌, subst, String, true, false, Option, none, some, List, [], ◌∷◌, ◌++◌, map,
  str_eq, leb, length, Bool-cases, inl, inr,
}
use mathlib.Core.List.{append-nil}
use vigil_sre.Prelude.Dict.{lookup}
use vigil_sre.Targets.Value.{
  Value, null, text, boolean, integer, decimal, non_finite, array, object, items, elements,
  of_elements, list_of, elements-of_elements,
}
use vigil_sre.Targets.Value.Dict.{has_only}
use vigil_sre.Targets.Checked.{
  ok, guard, ◌>>◌, check_each, Each, too_many_targets, bind-ok, then-ok, ok-injective,
}
use vigil_sre.Targets.Url.{Python, validated_url}
use vigil_sre.Targets.Entry.{
  Entry, Env, Problem, malformed, lowercase, unset, refuse_problem, env_reference_problem,
  validated_substring, entry_of_dict, validate_entry, entry_value, allowed_keys,
}
use vigil_sre.Targets.Entry.Again.{Accepted, Accepted-again}
use vigil_sre.Targets.Store.{check_unseen, url_of, validate_all}

refuse_problem-lax :
    (p : Option Problem) (s : String) (r : Option String)
    → (refuse_problem true p >> ok (some s)) ≡ ok r
    → (refuse_problem false p >> ok (some s)) ≡ ok r
refuse_problem-lax none s r h = h
refuse_problem-lax (some (malformed raw)) s r h = cc
refuse_problem-lax (some (lowercase name)) s r h = cc
refuse_problem-lax (some (unset name)) s r h = cc

module _ (py : Python) (env : Env) where
  validated_substring-lax :
      (v : Option Value) (r : Option String)
      → validated_substring env true v ≡ ok r
      → validated_substring env false v ≡ ok r
  unfolding validated_substring
  validated_substring-lax none r h = h
  validated_substring-lax (some null) r h = h
  validated_substring-lax (some (text s)) r h = elim (Bool-cases (str_eq s "")) [
    | inl e ↦ rw e (rw e at h)
    | inr e ↦ rw e (refuse_problem-lax (env_reference_problem env s) s r (rw e at h))
  ]
  validated_substring-lax (some (boolean b)) r h = cc
  validated_substring-lax (some (integer n)) r h = cc
  validated_substring-lax (some (decimal m p)) r h = cc
  validated_substring-lax (some (non_finite x)) r h = cc
  validated_substring-lax (some (array vs)) r h = cc
  validated_substring-lax (some (object fs)) r h = cc

  entry_of_dict-lax :
      (raw : List (String × Value)) (e : Entry)
      → entry_of_dict py env true raw ≡ ok e
      → entry_of_dict py env false raw ≡ ok e
  unfolding entry_of_dict
  entry_of_dict-lax raw e h =
      let (u, g, h1) = bind-ok (guard (has_only allowed_keys raw) _) _ h in
      let (url, eu, h2) = bind-ok (validated_url py (lookup "url" raw)) _ h1 in
      let (s, es, h3) =
        bind-ok (validated_substring env true (lookup "expect_substring" raw)) _ h2 in
      rw g (rw eu (rw (validated_substring-lax (lookup "expect_substring" raw) s es) h3))

  validate_entry-lax :
      (v : Value) (e : Entry)
      → validate_entry py env true v ≡ ok e
      → validate_entry py env false v ≡ ok e
  unfolding validate_entry
  validate_entry-lax (object fs) e h = entry_of_dict-lax (items fs) e h
  validate_entry-lax null e h = cc
  validate_entry-lax (text s) e h = cc
  validate_entry-lax (boolean b) e h = cc
  validate_entry-lax (integer n) e h = cc
  validate_entry-lax (decimal m p) e h = cc
  validate_entry-lax (non_finite x) e h = cc
  validate_entry-lax (array vs) e h = cc

  -- An entry that the store holds, sent back, is the same entry if it is accepted.
  unchanged :
      (e e' : Entry) → Accepted py e → validate_entry py env true (entry_value e) ≡ ok e' → e ≡ e'
  unchanged e e' a h =
      ok-injective (sym (Accepted-again py env e a) ∙ validate_entry-lax (entry_value e) e' h)

  -- Entries that the store holds, sent back with others behind them, come first in the list that is
  -- stored.
  check_each-held :
      (es : List Entry) (vs : List Value) (us : List Entry)
      → Each (Accepted py) es
      → check_each (validate_entry py env true) (map entry_value es ++ vs) ≡ ok us
      → (ws : List Entry) × (check_each (validate_entry py env true) vs ≡ ok ws) × (us ≡ es ++ ws)
  unfolding check_each
  check_each-held [] vs us a h = (us, h, refl)
  check_each-held (e ∷ es) vs us (ae, a) h =
      let f = validate_entry py env true in
      let (e', p, h1) = bind-ok (f (entry_value e)) _ h in
      let (us', q, h2) = bind-ok (check_each f (map entry_value es ++ vs)) _ h1 in
      let (ws, r, s) = check_each-held es vs us' a q in
      (ws, r, sym (ok-injective h2) ∙ cc (unchanged e e' ae p, s))

  validate_all-each :
      (vs : List Value) (us : List Entry)
      → validate_all py env true (some (list_of vs)) ≡ ok us
      → check_each (validate_entry py env true) vs ≡ ok us
  unfolding validate_all
  validate_all-each vs us h =
      let f = validate_entry py env true in
      let (u, few, h1) =
        bind-ok (guard (leb (length (elements (of_elements vs))) 200) too_many_targets) _ h in
      let (ws, p, h2) = bind-ok (check_each f (elements (of_elements vs))) _ h1 in
      let (unseen, same) = then-ok (check_unseen [] (map url_of ws)) h2 in
      subst (λ (l : List Value). check_each f l ≡ ok us) (elements-of_elements vs) (p ∙ ap ok same)

  pub validate_all-added :
      (es : List Entry) (v : Value) (us : List Entry)
      → Each (Accepted py) es
      → validate_all py env true (some (list_of (map entry_value es ++ v ∷ []))) ≡ ok us
      → (e : Entry) × (validate_entry py env true v ≡ ok e) × (us ≡ es ++ e ∷ [])
  unfolding check_each
  validate_all-added es v us a h =
      let (ws, p, q) = check_each-held es (v ∷ []) us a (validate_all-each _ us h) in
      let (e, r, s) = bind-ok (validate_entry py env true v) _ p in
      (e, r, q ∙ ap (λ (l : List Entry). es ++ l) (sym (ok-injective s)))

  pub validate_all-kept :
      (es us : List Entry)
      → Each (Accepted py) es
      → validate_all py env true (some (list_of (map entry_value es))) ≡ ok us
      → us ≡ es
  unfolding check_each
  validate_all-kept es us a h =
      let each = validate_all-each (map entry_value es) us h in
      let f = validate_entry py env true in
      let (ws, p, q) = check_each-held es [] us a (
        subst (λ (l : List Value). check_each f l ≡ ok us) (sym (append-nil (map entry_value es)))
          each) in
      q ∙ ap (λ (l : List Entry). es ++ l) (sym (ok-injective p)) ∙ append-nil es
