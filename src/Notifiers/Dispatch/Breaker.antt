-- ===== src/Notifiers/Dispatch/Breaker.antt =====
-- notifiers.py: what the circuit breaker spares, and what a dispatch delivers.
use vigil_sre.Prelude.{
  ℕ, zero, suc, ◌+◌, ◌≤◌, ◌<◌, ◌≡◌, ◌↔◌, ◌⊎◌, true, List, [], ◌∷◌, map, arith, refl, get_or, String,
  str_eq, eq_iff, if◌then◌else◌, ◌∙◌,
}
use vigil_sre.Prelude.Dict.{lookup, lookup-insert}
use vigil_sre.Notifiers.Send.{Channel, send, is_true}
use vigil_sre.Notifiers.Dispatch.{
  Circuits, circuit_is_open, record_circuit, is_active, active_notifiers, deliver, after_deliver,
  record_all, any_delivered, dispatch_alert,
}

abbrev pub failures : Circuits → String → ℕ
failures circuits name = get_or (lookup name circuits) 0

-- Some configured channel with a closed breaker delivers.
abbrev pub SomeDelivers : Circuits → List Channel → Type 0
SomeDelivers circuits [] = ⊥
SomeDelivers circuits (c ∷ cs) =
    ((is_active c ≡ true) × (failures circuits c.name < 3) × (is_true (send c).result ≡ true))
    ⊎ SomeDelivers circuits cs

any_delivered-SomeDelivers :
    (circuits : Circuits) (cs : List Channel)
    → (any_delivered circuits (active_notifiers cs) ≡ true) ↔ SomeDelivers circuits cs
unfolding any_delivered active_notifiers deliver circuit_is_open
any_delivered-SomeDelivers circuits [] = (λ h. cc, λ h. absurd h)
any_delivered-SomeDelivers circuits (c ∷ cs) =
    let ih = any_delivered-SomeDelivers circuits cs in
    (λ h. ground (arith, ih), λ h. ground (arith, ih))

-- A dispatch delivers exactly if some configured channel whose breaker is closed does.
pub dispatch_alert-delivered :
    (all : List Channel) (circuits : Circuits)
    → ((dispatch_alert all circuits).delivered ≡ true) ↔ SomeDelivers circuits all
unfolding dispatch_alert
dispatch_alert-delivered all circuits = any_delivered-SomeDelivers circuits all

module _ (name : String) (before : Circuits) (open_before : 3 ≤ failures before name) where
  record_circuit-open :
      (c : Channel) (circuits : Circuits)
      → 3 ≤ failures circuits name
      → 3 ≤ failures (record_circuit c.name (is_true (deliver before c)) circuits) name
  unfolding record_circuit deliver circuit_is_open
  record_circuit-open c circuits h = ground (
    arith,
    lookup-insert c.name name
        (if is_true (deliver before c) then 0 else failures circuits c.name + 1) circuits,
    eq_iff c.name name,
  )

  record_all-open :
      (cs : List Channel) (circuits : Circuits)
      → 3 ≤ failures circuits name
      → 3 ≤ failures (record_all cs before circuits) name
  unfolding record_all
  record_all-open [] circuits h = h
  record_all-open (c ∷ cs) circuits h =
      record_all-open cs (record_circuit c.name (is_true (deliver before c)) circuits)
        (record_circuit-open c circuits h)

-- The channels of one name.
abbrev pub named : String → List Channel → List Channel
named name [] = []
named name (c ∷ cs) = if str_eq c.name name then c ∷ named name cs else named name cs

after_deliver-name : (circuits : Circuits) (c : Channel) → (after_deliver circuits c).name ≡ c.name
unfolding after_deliver
after_deliver-name circuits c = ground arith

named-map :
    (name : String) (circuits : Circuits) (cs : List Channel)
    → 3 ≤ failures circuits name
    → named name (map (after_deliver circuits) cs) ≡ named name cs
unfolding after_deliver circuit_is_open
named-map name circuits [] h = refl
named-map name circuits (c ∷ cs) h =
    ground (arith, named-map name circuits cs h, eq_iff c.name name, after_deliver-name circuits c)

-- So many dispatches, one after the other.
unfoldable pub dispatches : ℕ → List Channel → Circuits → List Channel × Circuits
dispatches zero all circuits = (all, circuits)
dispatches (suc n) all circuits =
    let d = dispatch_alert all circuits in dispatches n d.channels d.circuits

-- Once three deliveries in a row have failed on a channel, no number of later dispatches in the
-- round makes a POST on it: its breaker stays open and its script of responses is not touched.
pub open_breaker_stays :
    (n : ℕ) (name : String) (all : List Channel) (circuits : Circuits)
    → 3 ≤ failures circuits name
    → (3 ≤ failures (dispatches n all circuits).1 name)
      × (named name (dispatches n all circuits).0 ≡ named name all)
unfolding dispatches dispatch_alert
open_breaker_stays zero name all circuits h = (h, refl)
open_breaker_stays (suc n) name all circuits h =
    let d = dispatch_alert all circuits in
    let (still, same) =
      open_breaker_stays n name d.channels d.circuits
        (record_all-open name circuits h (active_notifiers all) circuits h) in
    (still, same ∙ named-map name circuits all h)
