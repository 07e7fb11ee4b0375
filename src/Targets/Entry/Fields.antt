-- ===== src/Targets/Entry/Fields.antt =====
-- targetstore.py: the validated fields of an entry are validated to themselves.
use vigil_sre.Prelude.{
  ℕ, ◌≤◌, ◌≡◌, refl, subst, String, Bool, true, false, Option, none, some, List, str_eq,
  if◌then◌else◌, map, length,
}
use vigil_sre.Targets.Text.{strip, reference_of, is_suspect, has_lowercase}
use vigil_sre.Targets.Text.Strip.{strip-strip}
use vigil_sre.Targets.Value.{
  Value, null, non_finite, boolean, integer, decimal, text, array, object, list_of, is_truthy,
}
use vigil_sre.Targets.Checked.{ok, ◌>>◌, bind-ok, then-ok, ok-injective, Each}
use vigil_sre.Targets.Window.{TimeWindow, validated_windows, window_value}
use vigil_sre.Targets.Window.Again.{
  Passes, validated_windows-Each, windows-again, validated_windows-full,
}
use vigil_sre.Targets.Url.{Python, validated_url, check_url_text}
use vigil_sre.Targets.Entry.{
  Env, Problem, malformed, lowercase, unset, env_reference_problem, problem_of_match,
  refuse_problem, validated_substring, validated_flag, windows_if, validated_maintenance,
  text_value, windows_value, is_unset,
}

pub validated_url-again :
    (py : Python) (v : Option Value) {u : String}
    → validated_url py v ≡ ok u
    → validated_url py (some (text u)) ≡ ok u
unfolding validated_url
validated_url-again py (some (text s)) h =
    let (e, same) = then-ok (check_url_text py (strip s)) h in
    subst (λ t. (check_url_text py (strip t) >> ok (strip t)) ≡ ok t) same
      (rw (strip-strip s, e) refl)
validated_url-again py none h = cc
validated_url-again py (some null) h = cc
validated_url-again py (some (non_finite x)) h = cc
validated_url-again py (some (boolean b)) h = cc
validated_url-again py (some (integer n)) h = cc
validated_url-again py (some (decimal m p)) h = cc
validated_url-again py (some (array vs)) h = cc
validated_url-again py (some (object fs)) h = cc

malformed-again :
    (check_env b : Bool) (raw : String)
    → refuse_problem check_env (if b then some (malformed raw) else none) ≡ ok tt
    → refuse_problem false (if b then some (malformed raw) else none) ≡ ok tt
malformed-again c true raw h = h
malformed-again c false raw h = refl

abbrev problem_if : Bool → Bool → String → Option Problem
problem_if low void name =
    if low then some (lowercase name) else if void then some (unset name) else none

reference-again :
    (check_env low void void' : Bool) (name : String)
    → refuse_problem check_env (problem_if low void name) ≡ ok tt
    → refuse_problem false (problem_if low void' name) ≡ ok tt
reference-again c true void void' name h = h
reference-again c false void true name h = refl
reference-again c false void false name h = refl

-- A reference that is accepted is accepted whatever the environment, if it is not consulted.
refuse_problem-again :
    (env env' : Env) (check_env : Bool) (raw : String) (name : Option String)
    → refuse_problem check_env (problem_of_match env raw name) ≡ ok tt
    → refuse_problem false (problem_of_match env' raw name) ≡ ok tt
refuse_problem-again env env' c raw none h = malformed-again c (is_suspect raw) raw h
refuse_problem-again env env' c raw (some name) h =
    reference-again c (has_lowercase name) (is_unset (env name)) (is_unset (env' name)) name h

abbrev pub SubstringFixed : Env → Option String → Type 0
SubstringFixed env o = validated_substring env false (text_value o) ≡ ok o

text-again :
    (env env' : Env) (check_env : Bool) (s : String) (b : Bool) {o : Option String}
    → str_eq s "" ≡ b
    → (if b then ok none else refuse_problem check_env (env_reference_problem env s) >> ok (some s))
      ≡ ok o
    → SubstringFixed env' o
unfolding validated_substring env_reference_problem
text-again env env' c s true e h = subst (SubstringFixed env') (ok-injective h) refl
text-again env env' c s false e h =
    let (fine, same) = then-ok (refuse_problem c (env_reference_problem env s)) h in
    subst (SubstringFixed env') same
      (rw (e, refuse_problem-again env env' c s (reference_of s) fine) refl)

pub validated_substring-again :
    (env env' : Env) (check_env : Bool) (v : Option Value) {o : Option String}
    → validated_substring env check_env v ≡ ok o
    → SubstringFixed env' o
unfolding validated_substring env_reference_problem
validated_substring-again env env' c none h = subst (SubstringFixed env') (ok-injective h) refl
validated_substring-again env env' c (some null) h =
    subst (SubstringFixed env') (ok-injective h) refl
validated_substring-again env env' c (some (text s)) h =
    text-again env env' c s (str_eq s "") refl h
validated_substring-again env env' c (some (non_finite x)) h = cc
validated_substring-again env env' c (some (boolean b)) h = cc
validated_substring-again env env' c (some (integer n)) h = cc
validated_substring-again env env' c (some (decimal m p)) h = cc
validated_substring-again env env' c (some (array vs)) h = cc
validated_substring-again env env' c (some (object fs)) h = cc

pub validated_flag-again :
    (name : String) (default b : Bool) → validated_flag name default (some (boolean b)) ≡ ok b
unfolding validated_flag
validated_flag-again name default b = refl

module _ (digit : ℕ → Option ℕ) where
  -- The windows of an accepted entry.
  abbrev pub WindowsPass : Option (List TimeWindow) → Type 0
  WindowsPass none = Unit
  WindowsPass (some ws) =
      Each (Passes digit) ws × (length ws ≤ 20) × (is_truthy (list_of (map window_value ws)) ≡ true)

  windows_if-pass :
      (b : Bool) (v : Value) {o : Option (List TimeWindow)}
      → is_truthy v ≡ b
      → windows_if digit b v ≡ ok o
      → WindowsPass o
  windows_if-pass false v e h = subst WindowsPass (ok-injective h) tt
  windows_if-pass true v e h =
      let (ws, p, h1) = bind-ok (validated_windows digit v) _ h in
      let (each, few) = validated_windows-Each digit v p in
      subst WindowsPass (ok-injective h1) (each, few, validated_windows-full digit v e p)

  pub validated_maintenance-pass :
      (v : Option Value) {o : Option (List TimeWindow)}
      → validated_maintenance digit v ≡ ok o
      → WindowsPass o
  unfolding validated_maintenance
  validated_maintenance-pass none h = subst WindowsPass (ok-injective h) tt
  validated_maintenance-pass (some v) h = windows_if-pass (is_truthy v) v refl h

  pub validated_maintenance-again :
      (o : Option (List TimeWindow))
      → WindowsPass o
      → validated_maintenance digit (windows_value o) ≡ ok o
  unfolding validated_maintenance
  validated_maintenance-again none h = refl
  validated_maintenance-again (some ws) (each, few, full) =
      rw full (rw (windows-again digit ws each few) refl)
