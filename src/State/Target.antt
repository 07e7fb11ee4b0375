-- ===== src/State/Target.antt =====
-- main.py: the state manager is one machine for each target, whatever the order of the calls.
-- A call holds the lock from its first line to its last, so a round's concurrent checks are some
-- sequence of calls, each on the target of its check.
pub mod Machine
mod Slots
mod Own
mod Others
pub mod Refines
pub use Slots.{machine}
pub use Own.{
  machine-mark_muted, machine-claim, machine-unclaim, machine-outcome, machine-mark_cert,
  machine-mark_trend, machine-release_mute,
}
pub use Others.{machine-perform_other}
pub use Refines.{interleaving}
