-- ===== src/Targets/Window/Again.antt =====
-- targetstore.py: a validated window passes the validation again, unchanged.
use vigil_sre.Prelude.{
  not-true, length-map, leb-true, ℕ, ◌≡◌, refl, subst, ◌≤◌, String, true, false, not, List, ◌∷◌,
  Option, none, some, str_eq, leb, length, map, arith,
}
use vigil_sre.Targets.Value.{
  Value, no_value, value, is_truthy, text, null, array, list_of, object, boolean, integer, decimal,
  non_finite, elements, of_elements, items, elements-of_elements, items-of_items,
}
use vigil_sre.Targets.Value.Dict.{has_only, lookup-given, has_only-given, given, or_else-none}
use vigil_sre.Prelude.Dict.{lookup, contains}
use vigil_sre.Targets.Text.{is_hhmm}
use vigil_sre.Targets.Checked.{
  ok, guard, bind-ok, guard-ok, if-ok, ok-injective, check_each, Each, check_each-length,
  check_each-Each, check_each-again,
}
use vigil_sre.Targets.Window.{
  TimeWindow, validated_days, validated_time, validated_window, window_of_dict, window_fields,
  window_keys, validated_windows, days_value, window_value,
}
use vigil_sre.Targets.Window.Days.{Fixed, validated_days-again}

module _ (digit : ℕ → Option ℕ) where
  -- What the validation leaves of a window.
  pub record Passes (w : TimeWindow) : Type 0 where
    pub start_ok : is_hhmm digit w.start ≡ true
    pub end_ok : is_hhmm digit w.end ≡ true
    pub differ : str_eq w.start w.end ≡ false
    pub days_ok : Fixed w.days

  validated_time-ok :
      (name : String) (v : Option Value) {s : String}
      → validated_time digit name v ≡ ok s
      → is_hhmm digit s ≡ true
  unfolding validated_time
  validated_time-ok name none h = cc
  validated_time-ok name (some (text s)) h =
      let (e, p) = if-ok (is_hhmm digit s) _ h in subst (λ u. is_hhmm digit u ≡ true) p e
  validated_time-ok name (some null) h = cc
  validated_time-ok name (some (non_finite x)) h = cc
  validated_time-ok name (some (boolean b)) h = cc
  validated_time-ok name (some (integer n)) h = cc
  validated_time-ok name (some (decimal m p)) h = cc
  validated_time-ok name (some (array vs)) h = cc
  validated_time-ok name (some (object fs)) h = cc

  validated_window-Passes :
      (v : Value) {w : TimeWindow} → validated_window digit v ≡ ok w → Passes w
  unfolding validated_window window_of_dict
  validated_window-Passes (object fs) h =
      let (u, known, h0) = bind-ok (guard (has_only window_keys (items fs)) _) _ h in
      let (start, e1, h1) =
        bind-ok (validated_time digit "start" (lookup "start" (items fs))) _ h0 in
      let (end, e2, h2) = bind-ok (validated_time digit "end" (lookup "end" (items fs))) _ h1 in
      let (u', differ, h3) = bind-ok (guard (not (str_eq start end)) _) _ h2 in
      let (days, e4, h4) = bind-ok (validated_days (lookup "days" (items fs))) _ h3 in
      subst Passes (ok-injective h4) (record {
        start_ok = validated_time-ok "start" (lookup "start" (items fs)) e1;
        end_ok = validated_time-ok "end" (lookup "end" (items fs)) e2;
        differ = not-true (str_eq start end) (guard-ok _ _ differ);
        days_ok = validated_days-again (lookup "days" (items fs)) e4;
      })
  validated_window-Passes null h = cc
  validated_window-Passes (non_finite x) h = cc
  validated_window-Passes (boolean b) h = cc
  validated_window-Passes (integer n) h = cc
  validated_window-Passes (decimal m p) h = cc
  validated_window-Passes (text s) h = cc
  validated_window-Passes (array vs) h = cc

  Passes-again : (w : TimeWindow) → Passes w → validated_window digit (window_value w) ≡ ok w
  unfolding validated_window window_of_dict window_value validated_time contains
  Passes-again w p = rw (items-of_items (given (window_fields w))) (
      rw
        (
          has_only-given window_keys (window_fields w) refl,
          lookup-given "start" (window_fields w),
          lookup-given "end" (window_fields w),
          lookup-given "days" (window_fields w),
        )
        (rw (p.start_ok, p.end_ok, p.differ, or_else-none (days_value w.days), p.days_ok) refl))

  pub validated_windows-Each :
      (v : Value) {ws : List TimeWindow}
      → validated_windows digit v ≡ ok ws
      → Each Passes ws × (length ws ≤ 20)
  unfolding validated_windows
  validated_windows-Each (array raw) h =
      let (u, few, h0) = bind-ok (guard (leb (length (elements raw)) 20) _) _ h in
      let short = guard-ok _ _ few in
      let same = check_each-length (validated_window digit) (elements raw) h0 in
      (
        check_each-Each (validated_window digit) Passes (λ v w. validated_window-Passes v)
            (elements raw) h0,
        ground arith,
      )
  validated_windows-Each null h = cc
  validated_windows-Each (non_finite x) h = cc
  validated_windows-Each (boolean b) h = cc
  validated_windows-Each (integer n) h = cc
  validated_windows-Each (decimal m p) h = cc
  validated_windows-Each (text s) h = cc
  validated_windows-Each (object fs) h = cc

  -- Windows that pass, written as a value, pass again.
  pub windows-again :
      (ws : List TimeWindow)
      → Each Passes ws
      → length ws ≤ 20
      → validated_windows digit (list_of (map window_value ws)) ≡ ok ws
  unfolding validated_windows
  windows-again ws p short = rw (elements-of_elements (map window_value ws)) (
      rw (length-map window_value ws, leb-true (length ws) 20 short)
        (check_each-again (validated_window digit) Passes window_value Passes-again ws p))

  full_list :
      (w : TimeWindow) (ws : List TimeWindow)
      → is_truthy (list_of (map window_value (w ∷ ws))) ≡ true
  unfolding is_truthy of_elements
  full_list w ws = refl

  check_each-full :
      (v : Value) (vs : List Value) {ws : List TimeWindow}
      → check_each (validated_window digit) (v ∷ vs) ≡ ok ws
      → is_truthy (list_of (map window_value ws)) ≡ true
  unfolding check_each
  check_each-full v vs h =
      let (w, e, h1) = bind-ok (validated_window digit v) _ h in
      let (us, e', h2) = bind-ok (check_each (validated_window digit) vs) _ h1 in
      subst (λ ws. is_truthy (list_of (map window_value ws)) ≡ true) (ok-injective h2)
        (full_list w us)

  pub validated_windows-full :
      (v : Value) {ws : List TimeWindow}
      → is_truthy v ≡ true
      → validated_windows digit v ≡ ok ws
      → is_truthy (list_of (map window_value ws)) ≡ true
  unfolding validated_windows is_truthy elements
  validated_windows-full (array no_value) t h = cc
  validated_windows-full (array (value v vs)) t h =
      let (u, few, h0) = bind-ok (guard (leb (length (elements (value v vs))) 20) _) _ h in
      check_each-full v (elements vs) h0
  validated_windows-full null t h = cc
  validated_windows-full (non_finite x) t h = cc
  validated_windows-full (boolean b) t h = cc
  validated_windows-full (integer n) t h = cc
  validated_windows-full (decimal m p) t h = cc
  validated_windows-full (text s) t h = cc
  validated_windows-full (object fs) t h = cc
