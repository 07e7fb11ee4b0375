-- ===== src/Check/World.antt =====
-- What one round of main.py works on: the state manager, the channels with their breaker, and the
-- clock. The clock is a script of readings, which need not rise; past its end it stands still.
use vigil_sre.Prelude.{ℕ, String, Bool, List, [], ◌∷◌}
use vigil_sre.Notifiers.Kind.{AlertKind}
use vigil_sre.Notifiers.Send.{Channel}
use vigil_sre.Notifiers.Dispatch.{Circuits}
use vigil_sre.State.Manager.{StateManager, Detail}

-- One call of `dispatch_alert` and its answer.
pub record Dispatch : Type 0 where
  pub url : String
  pub kind : AlertKind
  pub detail : Detail
  pub delivered : Bool

pub record World : Type 0 where
  pub state : StateManager
  pub channels : List Channel
  pub circuits : Circuits
  pub now : ℕ
  pub clock : List ℕ
  -- what was dispatched this round, the latest last
  pub dispatches : List Dispatch

abbrev pub next_reading : List ℕ → ℕ → ℕ
next_reading [] now = now
next_reading (n ∷ ns) now = n

abbrev pub later_readings : List ℕ → List ℕ
later_readings [] = []
later_readings (n ∷ ns) = ns

-- `datetime.now(timezone.utc)`: the reading is the field `now` of the result.
unfoldable pub read_clock : World → World
read_clock w = record w { now = next_reading w.clock w.now; clock = later_readings w.clock }

-- A method of the state manager, run on the world's.
abbrev pub with_state : (StateManager → StateManager) → World → World
with_state f w = record w { state = f w.state }
