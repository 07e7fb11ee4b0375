-- ===== src/Targets/Entry/Again.antt =====
-- targetstore.py: an entry that the validation has accepted, written as a dict, is accepted again.
use vigil_sre.Prelude.{◌≡◌, refl, subst, String, Bool, true, false, some, List}
use vigil_sre.Prelude.Dict.{lookup, contains}
use vigil_sre.Targets.Value.{
  Value, null, non_finite, boolean, integer, decimal, text, array, object, items, items-of_items,
}
use vigil_sre.Targets.Value.Dict.{given, has_only, lookup-given, has_only-given, or_else-none}
use vigil_sre.Targets.Checked.{ok, guard, bind-ok, ok-injective}
use vigil_sre.Targets.Url.{Python, validated_url}
use vigil_sre.Targets.Number.{
  validated_number, validated_status, timeout_bounds, degraded_bounds, decimal_value, status_value,
}
use vigil_sre.Targets.Number.Again.{
  Within, validated_number-Within, validated_number-again, IsStatus, validated_status-IsStatus,
  validated_status-again,
}
use vigil_sre.Targets.Entry.{
  Entry, Env, validated_substring, validated_flag, validated_maintenance, entry_of_dict,
  validate_entry, text_value, windows_value, entry_fields, entry_value, allowed_keys,
}
use vigil_sre.Targets.Entry.Fields.{
  validated_url-again, validated_substring-again, WindowsPass, validated_maintenance-pass,
  validated_maintenance-again,
}

-- What the validation leaves of an entry.
pub record Accepted (py : Python) (e : Entry) : Type 0 where
  pub url_ok : validated_url py (some (text e.url)) ≡ ok e.url
  pub substring_ok :
      (env : Env)
      → validated_substring env false (text_value e.expect_substring) ≡ ok e.expect_substring
  pub status_ok : IsStatus e.expected_status
  pub timeout_ok : Within timeout_bounds e.timeout_s
  pub ttfb_ok : Within degraded_bounds e.degraded_ttfb_ms
  pub rtt_ok : Within degraded_bounds e.degraded_rtt_ms
  pub backend_ok : Within degraded_bounds e.degraded_backend_ms
  pub windows_ok : WindowsPass py.digit e.maintenance

module _ (py : Python) (env : Env) (check_env : Bool) where
  entry_of_dict-Accepted :
      (raw : List (String × Value)) {e : Entry}
      → entry_of_dict py env check_env raw ≡ ok e
      → Accepted py e
  unfolding entry_of_dict
  entry_of_dict-Accepted raw h =
      let (u, known, h0) = bind-ok (guard (has_only allowed_keys raw) _) _ h in
      let (url, e1, h1) = bind-ok (validated_url py (lookup "url" raw)) _ h0 in
      let (s, e2, h2) =
        bind-ok (validated_substring env check_env (lookup "expect_substring" raw)) _ h1 in
      let (n, e3, h3) = bind-ok (validated_status (lookup "expected_status" raw)) _ h2 in
      let (a, e4, h4) =
        bind-ok (validated_number "timeout_s" timeout_bounds (lookup "timeout_s" raw)) _ h3 in
      let (b, e5, h5) =
        bind-ok
          (validated_number "degraded_ttfb_ms" degraded_bounds (lookup "degraded_ttfb_ms" raw)) _
          h4 in
      let (c, e6, h6) =
        bind-ok (validated_number "degraded_rtt_ms" degraded_bounds (lookup "degraded_rtt_ms" raw))
          _ h5 in
      let (d, e7, h7) =
        bind-ok
          (validated_number "degraded_backend_ms" degraded_bounds
            (lookup "degraded_backend_ms" raw))
          _ h6 in
      let (ws, e8, h8) = bind-ok (validated_maintenance py.digit (lookup "maintenance" raw)) _ h7 in
      let (r, e9, h9) = bind-ok (validated_flag "remind" false (lookup "remind" raw)) _ h8 in
      let (t, e10, h10) =
        bind-ok (validated_flag "trend_alerts" true (lookup "trend_alerts" raw)) _ h9 in
      subst (Accepted py) (ok-injective h10) (record {
        url_ok = validated_url-again py (lookup "url" raw) e1;
        substring_ok =
            λ env'. validated_substring-again env env' check_env (lookup "expect_substring" raw) e2;
        status_ok = validated_status-IsStatus (lookup "expected_status" raw) e3;
        timeout_ok = validated_number-Within "timeout_s" timeout_bounds (lookup "timeout_s" raw) e4;
        ttfb_ok =
            validated_number-Within "degraded_ttfb_ms" degraded_bounds
              (lookup "degraded_ttfb_ms" raw) e5;
        rtt_ok =
            validated_number-Within "degraded_rtt_ms" degraded_bounds (lookup "degraded_rtt_ms" raw)
              e6;
        backend_ok =
            validated_number-Within "degraded_backend_ms" degraded_bounds
              (lookup "degraded_backend_ms" raw) e7;
        windows_ok = validated_maintenance-pass py.digit (lookup "maintenance" raw) e8;
      })

  pub validate_entry-Accepted :
      (v : Value) {e : Entry} → validate_entry py env check_env v ≡ ok e → Accepted py e
  unfolding validate_entry
  validate_entry-Accepted (object fs) h = entry_of_dict-Accepted (items fs) h
  validate_entry-Accepted null h = cc
  validate_entry-Accepted (non_finite x) h = cc
  validate_entry-Accepted (boolean b) h = cc
  validate_entry-Accepted (integer n) h = cc
  validate_entry-Accepted (decimal m p) h = cc
  validate_entry-Accepted (text s) h = cc
  validate_entry-Accepted (array vs) h = cc

-- An accepted entry, written as a dict, is validated to itself.
pub Accepted-again :
    (py : Python) (env : Env) (e : Entry)
    → Accepted py e
    → validate_entry py env false (entry_value e) ≡ ok e
unfolding validate_entry entry_of_dict entry_value contains
Accepted-again py env e a =
    let fs = entry_fields e in
    rw (items-of_items (given fs)) (
      rw
        (
          has_only-given allowed_keys fs refl,
          lookup-given "url" fs,
          lookup-given "expect_substring" fs,
          lookup-given "expected_status" fs,
          lookup-given "timeout_s" fs,
          lookup-given "degraded_ttfb_ms" fs,
          lookup-given "degraded_rtt_ms" fs,
          lookup-given "degraded_backend_ms" fs,
          lookup-given "maintenance" fs,
          lookup-given "remind" fs,
          lookup-given "trend_alerts" fs,
        )
        (rw
          (
            or_else-none (text_value e.expect_substring),
            or_else-none (status_value e.expected_status),
            or_else-none (decimal_value e.timeout_s),
            or_else-none (decimal_value e.degraded_ttfb_ms),
            or_else-none (decimal_value e.degraded_rtt_ms),
            or_else-none (decimal_value e.degraded_backend_ms),
            or_else-none (windows_value e.maintenance),
          )
          (rw
            (
              a.url_ok,
              a.substring_ok env,
              validated_status-again e.expected_status a.status_ok,
              validated_number-again "timeout_s" timeout_bounds e.timeout_s a.timeout_ok,
              validated_number-again "degraded_ttfb_ms" degraded_bounds e.degraded_ttfb_ms
                  a.ttfb_ok,
              validated_number-again "degraded_rtt_ms" degraded_bounds e.degraded_rtt_ms a.rtt_ok,
              validated_number-again "degraded_backend_ms" degraded_bounds e.degraded_backend_ms
                  a.backend_ok,
              validated_maintenance-again py.digit e.maintenance a.windows_ok,
            )
            refl)))
