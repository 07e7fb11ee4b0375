-- ===== src/State.antt =====
-- main.py, `StateManager`: the persisted record of each target and the operations on it.
pub mod InStep
pub mod Record
pub mod Performance
pub mod Manager
pub mod Setters
pub mod Markers
pub mod Observe
pub mod Laws
pub mod Marks
pub mod Rounds
pub mod Announce
pub mod Target
pub mod Reminder
pub mod Prune
pub mod Survive
