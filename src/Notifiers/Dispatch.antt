-- ===== src/Notifiers/Dispatch.antt =====
-- notifiers.py: the circuit breaker of one run, and `dispatch_alert`.
-- Each task of the gather checks its breaker before its first wait and the outcomes are recorded
-- after all of them, so all the checks read the counts from before the call.
pub mod Breaker
use vigil_sre.Prelude.{
  ℕ, ◌+◌, String, Bool, false, ◌||◌, List, [], ◌∷◌, map, leb, if◌then◌else◌, get_or, is_some,
}
use vigil_sre.Prelude.Dict.{lookup, insert}
use vigil_sre.Notifiers.Send.{Channel, SendResult, returned, is_true, webhook_url, send}

abbrev pub circuit_break_after : ℕ
circuit_break_after = 3

-- Consecutive failures by channel name.
abbrev pub Circuits : Type 0
Circuits = List (String × ℕ)

unfoldable pub reset_circuits : Circuits → Circuits
reset_circuits c = []

unfoldable pub circuit_is_open : Circuits → String → Bool
circuit_is_open c channel = leb circuit_break_after (get_or (lookup channel c) 0)

unfoldable pub record_circuit : String → Bool → Circuits → Circuits
record_circuit channel delivered c =
    insert channel (if delivered then 0 else get_or (lookup channel c) 0 + 1) c

abbrev pub is_active : Channel → Bool
is_active c = is_some (webhook_url c)

unfoldable pub active_notifiers : List Channel → List Channel
active_notifiers [] = []
active_notifiers (c ∷ cs) = let rest = active_notifiers cs in if is_active c then c ∷ rest else rest

-- The inner function `_deliver`: its result, and the channel after it.
unfoldable pub deliver : Circuits → Channel → SendResult
deliver circuits c = if circuit_is_open circuits c.name then returned false else (send c).result

unfoldable pub after_deliver : Circuits → Channel → Channel
after_deliver circuits c =
    if is_active c
    then if circuit_is_open circuits c.name then c else record c { script = (send c).rest }
    else c

-- `for channel, result in zip(channels, results): _record_circuit(channel.name, result is True)`
unfoldable pub record_all : List Channel → Circuits → Circuits → Circuits
unfolding deliver
record_all [] before circuits = circuits
record_all (c ∷ cs) before circuits =
    record_all cs before (record_circuit c.name (is_true (deliver before c)) circuits)

-- `any(result is True for result in results)`
unfoldable pub any_delivered : Circuits → List Channel → Bool
unfolding deliver
any_delivered circuits [] = false
any_delivered circuits (c ∷ cs) = is_true (deliver circuits c) || any_delivered circuits cs

pub record Dispatched : Type 0 where
  pub delivered : Bool
  pub channels : List Channel
  pub circuits : Circuits

-- With no active channel nothing is sent, the breaker is left alone, and the answer is false.
unfoldable pub dispatch_alert : List Channel → Circuits → Dispatched
unfolding active_notifiers record_all any_delivered after_deliver
dispatch_alert all circuits =
    let channels = active_notifiers all in
    record {
      delivered = any_delivered circuits channels;
      channels = map (after_deliver circuits) all;
      circuits = record_all channels circuits circuits;
    }
