-- ===== src/Targets/Checked.antt =====
-- targetstore.py and main.py, `load_targets`: the outcome of a validation, its error being a value.
use vigil_sre.Prelude.{
  String, ◌≡◌, refl, ap, sym, subst, ◌∙◌, suc, length, map, Bool, if◌then◌else◌, true, false, List,
  [], ◌∷◌,
}

-- The messages of `ValidationError`, and of `load_targets` before it exits, by what they refuse.
pub data Refusal : Type 0 where
  windows_not_a_list too_many_windows window_not_an_object window_with_other_keys : Refusal
  bad_days equal_times : Refusal
  bad_time : String → Refusal
  entry_not_an_object unrecognised_fields url_required url_too_long url_unparsable : Refusal
  no_host invalid_port port_zero url_with_user : Refusal
  scheme_not_allowed bad_domain : String → Refusal
  credential_parameter : String → String → Refusal
  substring_not_text malformed_reference : Refusal
  lowercase_reference unset_reference : String → Refusal
  not_a_number out_of_bounds not_a_boolean : String → Refusal
  not_a_list too_many_targets : Refusal
  duplicate_target : String → Refusal
  -- those that only `load_targets` has
  store_unreadable store_not_json seed_missing seed_not_yaml seed_unreadable : Refusal
  targets_not_iterable invalid_target_entry no_targets : Refusal
  below_minimum above_maximum : String → Refusal

pub data Checked {ℓ} (A : Type ℓ) : Type ℓ where
  ok : A → Checked A
  refused : Refusal → Checked A

infixl 5 ◌>>=◌ ◌>>◌
abbrev pub ◌>>=◌ {ℓ κ} : {A : Type ℓ} {B : Type κ} → Checked A → (A → Checked B) → Checked B
ok a >>= f = f a
refused r >>= f = refused r

abbrev pub ◌>>◌ {ℓ} : {B : Type ℓ} → Checked (Unit {0}) → Checked B → Checked B
m >> k = m >>= λ _. k

-- `if not test: raise ValidationError(...)`
abbrev pub guard : Bool → Refusal → Checked (Unit {0})
guard true r = ok tt
guard false r = refused r

module _ {ℓ κ} {A : Type ℓ} {B : Type κ} where
  -- A chain that comes to an end has passed each of its steps.
  pub bind-ok :
      (m : Checked A) (f : A → Checked B) {b : B}
      → (m >>= f) ≡ ok b
      → (a : A) × (m ≡ ok a) × (f a ≡ ok b)
  bind-ok (ok a) f h = (a, refl, h)
  bind-ok (refused r) f h = cc

  -- `[check(x) for x in xs]`: the first refusal, or all the results.
  unfoldable pub check_each : (A → Checked B) → List A → Checked (List B)
  check_each f [] = ok []
  check_each f (a ∷ rest) = do b ← f a; bs ← check_each f rest; ok (b ∷ bs)

pub guard-ok : (b : Bool) (r : Refusal) {u : Unit} → guard b r ≡ ok u → b ≡ true
guard-ok true r h = refl
guard-ok false r h = cc

module _ {ℓ} {A : Type ℓ} where
  abbrev pub result_or : A → Checked A → A
  result_or a (ok b) = b
  result_or a (refused r) = a

  pub ok-injective : {a b : A} → ok a ≡ ok b → a ≡ b
  ok-injective {a} h = ap (result_or a) h

  pub then-ok : (m : Checked (Unit {0})) {a b : A} → (m >> ok a) ≡ ok b → (m ≡ ok tt) × (a ≡ b)
  then-ok (ok u) h = (refl, ok-injective h)
  then-ok (refused r) h = cc

  pub if-ok :
      (b : Bool) (r : Refusal) {a c : A}
      → (if b then ok a else refused r) ≡ ok c
      → (b ≡ true) × (a ≡ c)
  if-ok true r h = (refl, ok-injective h)
  if-ok false r h = cc

-- Every element has the property.
abbrev pub Each {ℓ κ} : {A : Type ℓ} → (A → Type κ) → List A → Type κ
Each P [] = Unit
Each P (a ∷ rest) = P a × Each P rest

module _ {ℓ κ} {A : Type ℓ} {B : Type κ} (f : A → Checked B) where
  pub check_each-length :
      (vs : List A) {ws : List B} → check_each f vs ≡ ok ws → length ws ≡ length vs
  unfolding check_each
  check_each-length [] h = ap length (sym (ok-injective h))
  check_each-length (v ∷ vs) h =
      let (w, e, h1) = bind-ok (f v) _ h in
      let (us, e', h2) = bind-ok (check_each f vs) _ h1 in
      ap length (sym (ok-injective h2)) ∙ ap suc (check_each-length vs e')

module _ {ℓ κ μ} {A : Type ℓ} {B : Type κ} (f : A → Checked B) (P : B → Type μ) where
  pub check_each-Each :
      ((v : A) (w : B) → f v ≡ ok w → P w)
      → (vs : List A) {ws : List B} → check_each f vs ≡ ok ws
      → Each P ws
  unfolding check_each
  check_each-Each p [] h = subst (Each P) (ok-injective h) tt
  check_each-Each p (v ∷ vs) h =
      let (w, e, h1) = bind-ok (f v) _ h in
      let (us, e', h2) = bind-ok (check_each f vs) _ h1 in
      subst (Each P) (ok-injective h2) (p v w e, check_each-Each p vs e')

  -- The results, as values, are checked again.
  pub check_each-again :
      (g : B → A)
      → ((w : B) → P w → f (g w) ≡ ok w)
      → (ws : List B) → Each P ws
      → check_each f (map g ws) ≡ ok ws
  unfolding check_each
  check_each-again g p [] h = refl
  check_each-again g p (w ∷ ws) (h, rest) = rw (p w h) (rw (check_each-again g p ws rest) refl)

module _ {ℓ κ} {A : Type ℓ} {B : Type κ} where
  -- What is read off each result is what is read off each element.
  pub check_each-map :
      {C : Type 0} (f : A → Checked B) (g : B → C) (h : A → C)
      → ((v : A) (w : B) → f v ≡ ok w → g w ≡ h v)
      → (vs : List A) {ws : List B} → check_each f vs ≡ ok ws
      → map g ws ≡ map h vs
  unfolding check_each
  check_each-map f g h p [] e = ap (map g) (sym (ok-injective e))
  check_each-map f g h p (v ∷ vs) e =
      let (w, e0, e1) = bind-ok (f v) _ e in
      let (us, e2, e3) = bind-ok (check_each f vs) _ e1 in
      ap (map g) (sym (ok-injective e3)) ∙ cc (p v w e0, check_each-map f g h p vs e2)

  pub check_each-ext :
      (f g : A → Checked B)
      → ((v : A) → f v ≡ g v)
      → (vs : List A) → check_each f vs ≡ check_each g vs
  unfolding check_each
  check_each-ext f g p [] = refl
  check_each-ext f g p (v ∷ vs) = rw (p v, check_each-ext f g p vs) refl
