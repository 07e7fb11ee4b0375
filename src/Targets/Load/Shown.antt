-- ===== src/Targets/Load/Shown.antt =====
-- main.py, `_resolve_expect_substring`: what a failed content check shows of a target is not what
-- the environment holds.
use vigil_sre.Prelude.{
  ◌≡◌, ap, sym, ◌∙◌, String, Bool, true, false, not, List, [], Option, none, some, str_eq, map,
  if◌then◌else◌,
}
use vigil_sre.Prelude.Dict.{lookup}
use vigil_sre.Targets.Text.{reference_of, is_suspect, has_lowercase}
use vigil_sre.Targets.Value.{
  Value, text, null, boolean, integer, decimal, non_finite, array, object, items, is_truthy,
}
use vigil_sre.Targets.Checked.{
  Checked, ok, refused, guard, bind-ok, then-ok, ok-injective, check_each, check_each-map,
  malformed_reference, lowercase_reference, unset_reference, invalid_target_entry,
}
use vigil_sre.Targets.Url.{Python}
use vigil_sre.Targets.Entry.{Entry, Env, validate_entry}
use vigil_sre.Targets.Store.{
  StoreFile, StoreRead, never_written, stored, unusable, Json, read_store, check_unseen,
}
use vigil_sre.Targets.Store.Environment.{read_store-env}
use vigil_sre.Targets.Target.{
  Loaded, status_field, float_field, Expectation, display_of, value_or, resolve_match,
  resolve_expect_substring, resolve_given, if_any, target_of_entry, substring_field, target_url,
}
use vigil_sre.Targets.Load.{
  shared_entry, SeedFile, missing, undecodable, not_yaml, parsed, Show, target_of_dict,
  target_with_url, target_of_value, seed_entries, seed_targets, load_seed, load_from, load_targets,
  shown_text, url_entry, is_empty,
}

-- What is shown: the display if there is one, and else the value itself.
abbrev pub pick : Option String → Option String → Option String
pick expect none = expect
pick expect (some d) = some d

abbrev pub shown : Loaded → Option String
shown t = pick t.expect_substring t.expect_substring_display

-- The same, of the configuration alone.
abbrev label_match : String → Option String → String
label_match raw none = raw
label_match raw (some name) = display_of name

abbrev label : Option String → Option String
label none = none
label (some raw) = some (label_match raw (reference_of raw))

value_or-shown :
    (name : String) (v : Option String) (r : Expectation)
    → value_or name v ≡ ok r
    → pick (some r.0) r.1 ≡ some (display_of name)
value_or-shown name none r h = cc
value_or-shown name (some s) r h = go (str_eq s "") h
  where
    go :
        (b : Bool)
        → (if b then refused (unset_reference name) else ok (s, some (display_of name))) ≡ ok r
        → pick (some r.0) r.1 ≡ some (display_of name)
    go true h = cc
    go false h = sym (ap (λ (r : Expectation). pick (some r.0) r.1) (ok-injective h))

resolve_match-shown :
    (env : Env) (raw : String) (m : Option String) (r : Expectation)
    → resolve_match env raw m ≡ ok r
    → pick (some r.0) r.1 ≡ some (label_match raw m)
resolve_match-shown env raw none r h = go (is_suspect raw) h
  where
    go :
        (b : Bool)
        → (if b then refused malformed_reference else ok (raw, none)) ≡ ok r
        → pick (some r.0) r.1 ≡ some raw
    go true h = cc
    go false h = sym (ap (λ (r : Expectation). pick (some r.0) r.1) (ok-injective h))
resolve_match-shown env raw (some name) r h = go (has_lowercase name) h
  where
    go :
        (b : Bool)
        → (if b then refused (lowercase_reference name) else value_or name (env name)) ≡ ok r
        → pick (some r.0) r.1 ≡ some (display_of name)
    go true h = cc
    go false h = value_or-shown name (env name) r h

abbrev Resolved : Type 0
Resolved = Option String × Option String

resolve_given-shown :
    (env : Env) (o : Option String) (r : Resolved)
    → resolve_given env o ≡ ok r
    → pick r.0 r.1 ≡ label o
unfolding resolve_given resolve_expect_substring
resolve_given-shown env none r h = sym (ap (λ (r : Resolved). pick r.0 r.1) (ok-injective h))
resolve_given-shown env (some raw) r h =
    let (x, e, h0) = bind-ok (resolve_expect_substring env raw) _ h in
    sym (ap (λ (r : Resolved). pick r.0 r.1) (ok-injective h0))
    ∙ resolve_match-shown env raw (reference_of raw) x e

abbrev entry_label : Entry → Option String
entry_label e = label (if_any e.expect_substring)

target_of_entry-shown :
    (env : Env) (e : Entry) (t : Loaded) → target_of_entry env e ≡ ok t → shown t ≡ entry_label e
unfolding target_of_entry
target_of_entry-shown env e t h =
    let (r, e0, h0) = bind-ok (resolve_given env (if_any e.expect_substring)) _ h in
    sym (ap shown (ok-injective h0)) ∙ resolve_given-shown env (if_any e.expect_substring) r e0

abbrev label_of : Checked (Option String) → Option String
label_of (ok o) = label o
label_of (refused r) = none

abbrev dict_label : List (String × Value) → Option String
dict_label entry = label_of (substring_field (lookup "expect_substring" entry))

abbrev value_label : Value → Option String
value_label (text url) = none
value_label (object fs) = dict_label (items fs)
value_label _ = none

module _ (py : Python) (env : Env) (show : Show) where
  target_of_dict-shown :
      (url : String) (entry : List (String × Value)) (t : Loaded)
      → target_of_dict py env show url entry ≡ ok t
      → shown t ≡ dict_label entry
  unfolding target_of_dict
  target_of_dict-shown url entry t h =
      let (a, e, h) = bind-ok (validate_entry py env true (url_entry url)) _ h in
      let (raw, e1, h1) = bind-ok (substring_field (lookup "expect_substring" entry)) _ h in
      let (r, e2, h2) = bind-ok (resolve_given env raw) _ h1 in
      let (n, e3, h3) = bind-ok (status_field (lookup "expected_status" entry)) _ h2 in
      let (b, e4, h4) = bind-ok (float_field "timeout_s" (lookup "timeout_s" entry)) _ h3 in
      let (c, e5, h5) =
        bind-ok (float_field "degraded_ttfb_ms" (lookup "degraded_ttfb_ms" entry)) _ h4 in
      let (d, e6, h6) =
        bind-ok (float_field "degraded_rtt_ms" (lookup "degraded_rtt_ms" entry)) _ h5 in
      let (f, e7, h7) =
        bind-ok (float_field "degraded_backend_ms" (lookup "degraded_backend_ms" entry)) _ h6 in
      let (g, e8, h8) = bind-ok (validate_entry py env true (shared_entry url entry)) _ h7 in
      sym (ap shown (ok-injective h8)) ∙ (resolve_given-shown env raw r e2 ∙ sym (ap label_of e1))

  target_with_url-shown :
      (v : Option Value) (entry : List (String × Value)) (t : Loaded)
      → target_with_url py env show v entry ≡ ok t
      → shown t ≡ dict_label entry
  target_with_url-shown none entry t h = cc
  target_with_url-shown (some v) entry t h = go (is_truthy v) h
    where
      go :
          (b : Bool)
          → (if b
              then target_of_dict py env show (shown_text show v) entry
              else refused invalid_target_entry)
            ≡ ok t
          → shown t ≡ dict_label entry
      go true h = target_of_dict-shown (shown_text show v) entry t h
      go false h = cc

  target_of_value-shown :
      (v : Value) (t : Loaded) → target_of_value py env show v ≡ ok t → shown t ≡ value_label v
  unfolding target_of_value
  target_of_value-shown (text url) t h =
      let (a, e, h0) = bind-ok (validate_entry py env true (url_entry url)) _ h in
      sym (ap shown (ok-injective h0))
  target_of_value-shown (object fs) t h =
      target_with_url-shown (lookup "url" (items fs)) (items fs) t h
  target_of_value-shown null t h = cc
  target_of_value-shown (boolean b) t h = cc
  target_of_value-shown (integer n) t h = cc
  target_of_value-shown (decimal m p) t h = cc
  target_of_value-shown (non_finite x) t h = cc
  target_of_value-shown (array vs) t h = cc

  seed_targets-shown :
      (vs : List Value) (ts : List Loaded)
      → seed_targets py env show vs ≡ ok ts
      → map shown ts ≡ map value_label vs
  unfolding seed_targets
  seed_targets-shown vs ts h =
      let (us, e, h0) = bind-ok (check_each (target_of_value py env show) vs) _ h in
      let (x, some_, h1) = bind-ok (guard (not (is_empty us)) _) _ h0 in
      let (unseen, same) = then-ok (check_unseen [] (map target_url us)) h1 in
      sym (ap (map shown) same)
      ∙ check_each-map (target_of_value py env show) shown value_label target_of_value-shown vs e

abbrev labels : Checked (List Value) → List (Option String)
labels (ok vs) = map value_label vs
labels (refused r) = []

abbrev seed_labels : SeedFile → List (Option String)
seed_labels (parsed v) = labels (seed_entries v)
seed_labels _ = []

load_seed-shown :
    (py : Python) (env : Env) (show : Show) (seed : SeedFile) (ts : List Loaded)
    → load_seed py env show seed ≡ ok ts
    → map shown ts ≡ seed_labels seed
unfolding load_seed
load_seed-shown py env show (parsed v) ts h =
    let (vs, e, h0) = bind-ok (seed_entries v) _ h in
    seed_targets-shown py env show vs ts h0 ∙ sym (ap labels e)
load_seed-shown py env show missing ts h = cc
load_seed-shown py env show undecodable ts h = cc
load_seed-shown py env show not_yaml ts h = cc

abbrev read_labels : StoreRead → SeedFile → List (Option String)
read_labels (stored es) seed = map entry_label es
read_labels never_written seed = seed_labels seed
read_labels (unusable t) seed = []

load_from-shown :
    (py : Python) (env : Env) (show : Show) (r : StoreRead) (seed : SeedFile) (ts : List Loaded)
    → load_from py env show r seed ≡ ok ts
    → map shown ts ≡ read_labels r seed
unfolding load_from
load_from-shown py env show (stored es) seed ts h =
    check_each-map (target_of_entry env) shown entry_label (target_of_entry-shown env) es h
load_from-shown py env show never_written seed ts h = load_seed-shown py env show seed ts h
load_from-shown py env show (unusable t) seed ts h = cc

-- What the monitor shows of its targets' expectations does not depend on the environment: two
-- environments in which the same files load show the same, though the values sought may differ.
pub load_targets-shown :
    (py : Python) (env env' : Env) (show : Show) (json : Json) (store : StoreFile) (seed : SeedFile)
    (ts ts' : List Loaded)
    → load_targets py env show json store seed ≡ ok ts
    → load_targets py env' show json store seed ≡ ok ts'
    → map shown ts ≡ map shown ts'
unfolding load_targets
load_targets-shown py env env' show json store seed ts ts' h h' =
    load_from-shown py env show (read_store py env json false store) seed ts h
    ∙ (ap (λ r. read_labels r seed) (read_store-env py env env' json store)
        ∙ sym (load_from-shown py env' show (read_store py env' json false store) seed ts' h'))
