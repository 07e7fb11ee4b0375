-- ===== src/Notifiers/Send/Bounds.antt =====
-- notifiers.py, `Notifier.send`: its attempts, its waits, and when it delivers.
use vigil_sre.Prelude.{
  ℕ, zero, suc, ◌+◌, ◌*◌, ◌≤◌, ◌≡◌, ◌↔◌, inl, inr, true, some, List, arith, refl, ◌-◌, ==_true,
  ==_false, String, ◌==◌,
}
use vigil_sre.Notifiers.Send.{
  after_wait, ends, waits, Response, Channel, SendResult, returned, is_true, attempt_of,
  next_response, later_responses, send_loop, send, webhook_url,
}
use vigil_sre.Notifiers.Send.Answers.{
  Delivers, MayHeal, Accepted, kind, delivers, heals, fails, attempt-Delivers, attempt-heals,
  attempt-fails, attempt-last,
}

-- The loop with `left` attempts to go, the last of which is attempt 3.
record Bounded (left attempt : ℕ) (rs : List Response) : Type 0 where
  delivers_if : Accepted left rs → is_true (send_loop left attempt rs).result ≡ true
  only_if : is_true (send_loop left attempt rs).result ≡ true → Accepted left rs
  posts_le : (send_loop left attempt rs).posts ≤ left
  slept_le : (send_loop left attempt rs).slept_ms ≤ 30000 * (left - 1)

-- An attempt that ends the call, and one that waits for the next.
module _ (left attempt : ℕ) (rs : List Response) where
  send_loop-ends :
      (res : SendResult)
      → attempt_of (next_response rs) attempt (attempt == 3) ≡ ends res
      → send_loop (suc left) attempt rs
        ≡ record { result = res; slept_ms = 0; posts = 1; rest = later_responses rs }
  unfolding send_loop
  send_loop-ends res e = rw (send_loop, e)

  send_loop-waits :
      (w : ℕ)
      → attempt_of (next_response rs) attempt (attempt == 3) ≡ waits w
      → send_loop (suc left) attempt rs
        ≡ after_wait w (send_loop left (suc attempt) (later_responses rs))
  unfolding send_loop
  send_loop-waits w e = rw (send_loop, e)

  ends-Bounded :
      (res : SendResult)
      → attempt_of (next_response rs) attempt (attempt == 3) ≡ ends res
      → (Accepted (suc left) rs → is_true res ≡ true)
      → (is_true res ≡ true → Accepted (suc left) rs)
      → Bounded (suc left) attempt rs
  ends-Bounded res e i o = record {
    delivers_if = rw (send_loop-ends res e) i;
    only_if = rw (send_loop-ends res e) o;
    posts_le = rw (send_loop-ends res e) (omega arith);
    slept_le = rw (send_loop-ends res e) (omega arith);
  }

waits-Bounded :
    (left attempt w : ℕ) (rs : List Response)
    → attempt_of (next_response rs) attempt (attempt == 3) ≡ waits w
    → w ≤ 30000
    → MayHeal (next_response rs)
    → (Delivers (next_response rs) → ⊥)
    → Bounded (suc left) (suc attempt) (later_responses rs)
    → Bounded (suc (suc left)) attempt rs
waits-Bounded left attempt w rs e le m d ih = record {
  delivers_if =
      rw (send_loop-waits (suc left) attempt rs w e)
        (elim [ inl x ↦ absurd (d x) | inr x ↦ ih.delivers_if x.1 ]);
  only_if = rw (send_loop-waits (suc left) attempt rs w e) (λ t. inr (m, ih.only_if t));
  posts_le = rw (send_loop-waits (suc left) attempt rs w e) (omega (arith, ih.posts_le));
  slept_le = rw (send_loop-waits (suc left) attempt rs w e) (omega (arith, ih.slept_le));
}

send_loop-Bounded :
    (left attempt : ℕ) (rs : List Response) → attempt + left ≡ 4 → Bounded left attempt rs
send_loop-Bounded zero attempt rs e =
    unfold send_loop in
    record {
      delivers_if = λ a. absurd a;
      only_if = λ h. cc;
      posts_le = omega arith;
      slept_le = omega arith;
    }
send_loop-Bounded (suc left) attempt rs e = elim (kind (next_response rs)) [
  | delivers d ↦
      ends-Bounded left attempt rs (returned true)
        (attempt-Delivers attempt (omega arith) (next_response rs) (attempt == 3) d) (λ _. refl)
        (λ _. inl d)
  | heals m d ↦
      healing left e m d (send_loop-Bounded left (suc attempt) (later_responses rs) (omega arith))
  | fails m d ↦
      let (res, p, q) = attempt-fails attempt (attempt == 3) (next_response rs) m d in
      ends-Bounded left attempt rs res p (elim [ inl x ↦ absurd (d x) | inr x ↦ absurd (m x.0) ])
        (λ t. cc (t, q))
]
  where
    healing :
        (n : ℕ)
        → attempt + suc n ≡ 4
        → MayHeal (next_response rs)
        → (Delivers (next_response rs) → ⊥)
        → Bounded n (suc attempt) (later_responses rs)
        → Bounded (suc n) attempt rs
    healing zero a m d ih =
        let (res, p, q) = attempt-last attempt (next_response rs) d in
        ends-Bounded zero attempt rs res (rw (==_true attempt 3 (omega arith)) p)
          (elim [ inl x ↦ absurd (d x) | inr x ↦ absurd x.1 ]) (λ t. cc (t, q))
    healing (suc n) a m d ih =
        let (w, p, q) = attempt-heals attempt (omega arith) (next_response rs) m in
        waits-Bounded n attempt w rs (rw (==_false attempt 3 (omega arith)) p) q m d ih

send-hook :
    (c : Channel) (hook : String) → webhook_url c ≡ some hook → send c ≡ send_loop 3 1 c.script
unfolding send
send-hook c hook e = rw (send, e)

-- On a configured channel `send` delivers exactly if one of its first three attempts is answered
-- with a 2xx and every attempt before that meets a timeout, a client error, a 429 or a 5xx. It
-- never makes more than three attempts, and never waits for more than a minute in all.
pub send_lem :
    (c : Channel) (hook : String)
    → webhook_url c ≡ some hook
    → ((is_true (send c).result ≡ true) ↔ Accepted 3 c.script)
      × ((send c).posts ≤ 3)
      × ((send c).slept_ms ≤ 60000)
send_lem c hook e =
    let l = send_loop-Bounded 3 1 c.script refl in
    rw (send-hook c hook e) ((l.only_if, l.delivers_if), l.posts_le, l.slept_le)
