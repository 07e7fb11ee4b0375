-- ===== src/Diagnostics/Findings/Reasons.antt =====
-- diagnostics.py: exactly which timings make a successful probe DEGRADED.
use vigil_sre.Prelude.{
  ℕ, ◌+◌, ◌*◌, ◌≤◌, ◌≡◌, ◌↔◌, refl, Bool, true, false, Option, none, some, List, [], ◌∷◌, arith,
  Bool-cases, inl, inr, leb,
}
use vigil_sre.Prelude.{String, ◌∙◌}
use vigil_sre.Prelude.Int.{ℤ}
use vigil_sre.Diagnostics.Phases.{Ratio, ProbePhases, window_of}
use vigil_sre.Diagnostics.Findings.{
  Diagnosis, Code, tls_overhead, high_rtt, slow_dns, slow_backend, window_finding, rule_rtt,
  rule_dns, rule_tls, tls_rule, rule_backend, rule_window, cert_rule, http2_rule, analyze,
  degrading, degraded_reason, reason_of, dns_slow, fire, is_degrading_code, above,
}

-- A value that was not measured, or is at most the limit.
abbrev pub AtMost : Option ℕ → ℕ → Type 0
AtMost none limit = Unit
AtMost (some x) limit = x ≤ limit

-- A handshake of at most two round trips and 50 ms, where both were measured.
abbrev pub QuickHandshake : Option ℕ → Option ℕ → Type 0
QuickHandshake (some tls) (some rtt) = tls ≤ 2 * rtt + 50000
QuickHandshake (some tls) none = Unit
QuickHandshake none _ = Unit

-- Nine tenths of 64 KiB in flight.
abbrev pub FillsWindow : Option Ratio → Type 0
FillsWindow none = Unit
FillsWindow (some w) = 589824 * w.den ≤ 10 * w.num

-- What a probe has to show to be healthy.
pub record Calm (ph : ProbePhases) (rtt_limit backend_limit ttfb_limit : ℕ) : Type 0 where
  pub near : AtMost ph.rtt rtt_limit
  pub resolved : AtMost ph.dns 200000
  pub handshake : QuickHandshake ph.tls ph.rtt
  pub backend : AtMost ph.server_processing backend_limit
  pub window : 262144 ≤ ph.body_bytes → FillsWindow (window_of ph.goodput ph.rtt)
  pub quick : ph.ttfb ≤ ttfb_limit

above-none : (c : Code) (o : Option ℕ) (limit : ℕ) → (above c o limit ≡ none) ↔ AtMost o limit
above-none c none limit = (λ h. tt, λ h. refl)
above-none c (some x) limit = (λ h. ground arith, λ h. ground arith)

tls_rule-none : (tls rtt : Option ℕ) → (tls_rule tls rtt ≡ none) ↔ QuickHandshake tls rtt
unfolding tls_rule
tls_rule-none (some tls) (some rtt) = above-none tls_overhead (some tls) (2 * rtt + 50000)
tls_rule-none (some tls) none = (λ h. tt, λ h. refl)
tls_rule-none none rtt = (λ h. tt, λ h. refl)

window_finding-none :
    (o : Option Ratio) (ph : ProbePhases) → (window_finding o ph ≡ none) ↔ FillsWindow o
unfolding window_finding
window_finding-none none ph = (λ h. tt, λ h. refl)
window_finding-none (some w) ph = (λ h. ground arith, λ h. ground arith)

rule_window-none :
    (ph : ProbePhases)
    → (rule_window ph ≡ none) ↔ (262144 ≤ ph.body_bytes → FillsWindow (window_of ph.goodput ph.rtt))
unfolding rule_window
rule_window-none ph =
    let w = window_finding-none (window_of ph.goodput ph.rtt) ph in
    elim (Bool-cases (leb 262144 ph.body_bytes)) [
      | inl big ↦ rw big (λ h _. w.0 h, λ f. w.1 (f (ground arith)))
      | inr small ↦ rw small (λ h l. absurd (ground arith), λ f. refl)
    ]

-- A rule whose finding counts, and one whose finding does not.
abbrev Counts : Bool → Option Diagnosis → Type 0
Counts b none = Unit
Counts b (some d) = is_degrading_code d.code ≡ b

above-Counts :
    (c : Code) (o : Option ℕ) (limit : ℕ)
    → is_degrading_code c ≡ true
    → Counts true (above c o limit)
above-Counts c none limit h = tt
above-Counts c (some x) limit h = ground arith

tls_rule-Counts : (tls rtt : Option ℕ) → Counts true (tls_rule tls rtt)
unfolding tls_rule
tls_rule-Counts (some tls) (some rtt) = above-Counts tls_overhead (some tls) (2 * rtt + 50000) refl
tls_rule-Counts (some tls) none = tt
tls_rule-Counts none rtt = tt

window_finding-Counts : (o : Option Ratio) (ph : ProbePhases) → Counts true (window_finding o ph)
unfolding window_finding
window_finding-Counts none ph = tt
window_finding-Counts (some w) ph = ground arith

rule_window-Counts : (ph : ProbePhases) → Counts true (rule_window ph)
unfolding rule_window
rule_window-Counts ph = ground (arith, window_finding-Counts (window_of ph.goodput ph.rtt) ph)

cert_rule-Counts : (days : Option ℤ) → Counts false (cert_rule days)
unfolding cert_rule
cert_rule-Counts none = tt
cert_rule-Counts (some days) = ground arith

http2_rule-Counts :
    (h2 : Option Bool) (rtt : Option ℕ) (protocol : Option String) (high : ℕ)
    → Counts false (http2_rule h2 rtt protocol high)
unfolding http2_rule
http2_rule-Counts (some false) (some rtt) protocol high = ground arith
http2_rule-Counts (some false) none protocol high = tt
http2_rule-Counts (some true) rtt protocol high = tt
http2_rule-Counts none rtt protocol high = tt

degrading-fire :
    (o : Option Diagnosis) (ds : List Diagnosis)
    → Counts true o
    → (degrading (fire o ds) ≡ []) ↔ ((o ≡ none) × (degrading ds ≡ []))
unfolding degrading
degrading-fire none ds h = (λ e. (refl, e), λ e. e.1)
degrading-fire (some d) ds h = (λ e. ground arith, λ e. cc e.0)

degrading-hint :
    (o : Option Diagnosis) (ds : List Diagnosis)
    → Counts false o
    → degrading (fire o ds) ≡ degrading ds
unfolding degrading
degrading-hint none ds h = refl
degrading-hint (some d) ds h = rw h

module _ (ph : ProbePhases) (rtt_limit backend_limit : ℕ) where
  abbrev hints : List Diagnosis
  hints =
      fire (cert_rule ph.tls_cert_days_left)
        (fire (http2_rule ph.h2_supported ph.rtt ph.alpn_protocol rtt_limit) [])

  hints_lem : degrading hints ≡ []
  unfolding degrading
  hints_lem =
      degrading-hint (cert_rule ph.tls_cert_days_left) _ (cert_rule-Counts ph.tls_cert_days_left)
      ∙ degrading-hint (http2_rule ph.h2_supported ph.rtt ph.alpn_protocol rtt_limit) []
          (http2_rule-Counts ph.h2_supported ph.rtt ph.alpn_protocol rtt_limit)

  -- The findings that count are those of the five performance rules.
  no_findings : (degrading (analyze ph rtt_limit backend_limit) ≡ []) ↔ (
      (rule_rtt ph rtt_limit ≡ none)
      × (rule_dns ph ≡ none)
      × (rule_tls ph ≡ none)
      × (rule_backend ph backend_limit ≡ none)
      × (rule_window ph ≡ none))
  unfolding analyze
  no_findings =
      let f1 =
        degrading-fire (rule_rtt ph rtt_limit) _ (above-Counts high_rtt ph.rtt rtt_limit refl) in
      let f2 = degrading-fire (rule_dns ph) _ (above-Counts slow_dns ph.dns dns_slow refl) in
      let f3 = degrading-fire (rule_tls ph) _ (tls_rule-Counts ph.tls ph.rtt) in
      let f4 =
        degrading-fire (rule_backend ph backend_limit) _
          (above-Counts slow_backend ph.server_processing backend_limit refl) in
      let f5 = degrading-fire (rule_window ph) hints (rule_window-Counts ph) in
      (
        λ e.
            let (a, e1) = f1.0 e in
            let (b, e2) = f2.0 e1 in
            let (c, e3) = f3.0 e2 in let (d, e4) = f4.0 e3 in (a, b, c, d, (f5.0 e4).0),
        λ e. f1.1 (e.0, f2.1 (e.1, f3.1 (e.2, f4.1 (e.3, f5.1 (e.4, hints_lem))))),
      )

reason_of-none :
    (ds : List Diagnosis) (ttfb limit : ℕ)
    → (reason_of ds ttfb limit ≡ none) ↔ ((ds ≡ []) × (ttfb ≤ limit))
reason_of-none [] ttfb limit = (λ h. ground arith, λ h. ground arith)
reason_of-none (d ∷ ds) ttfb limit = (λ h. cc, λ h. cc h.0)

-- A successful probe leaves its target healthy exactly if every timing that was measured is within
-- its limit: the round trip, the resolver, the handshake, the backend, the window of a transfer of
-- 256 KiB and more, and the time to the first byte. The certificate and HTTP/2 have no say.
pub degraded_reason_lem :
    (ph : ProbePhases) (rtt_limit backend_limit ttfb_limit : ℕ)
    → (degraded_reason ph (analyze ph rtt_limit backend_limit) ttfb_limit ≡ none)
      ↔ Calm ph rtt_limit backend_limit ttfb_limit
unfolding degraded_reason rule_rtt rule_dns tls_rule rule_tls rule_backend
degraded_reason_lem ph rtt_limit backend_limit ttfb_limit =
    let r = reason_of-none (degrading (analyze ph rtt_limit backend_limit)) ph.ttfb ttfb_limit in
    let f = no_findings ph rtt_limit backend_limit in
    let near = above-none high_rtt ph.rtt rtt_limit in
    let resolved = above-none slow_dns ph.dns dns_slow in
    let handshake = tls_rule-none ph.tls ph.rtt in
    let backend = above-none slow_backend ph.server_processing backend_limit in
    let window = rule_window-none ph in
    (
      λ h.
          let (e, q) = r.0 h in
          let (a, b, c, d, w) = f.0 e in
          record {
            near = near.0 a;
            resolved = resolved.0 b;
            handshake = handshake.0 c;
            backend = backend.0 d;
            window = window.0 w;
            quick = q;
          },
      λ calm. r.1 (
        f.1 (
          near.1 calm.near,
          resolved.1 calm.resolved,
          handshake.1 calm.handshake,
          backend.1 calm.backend,
          window.1 calm.window,
        ),
        calm.quick,
      ),
    )
