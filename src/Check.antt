-- ===== src/Check.antt =====
-- main.py: the check of one target, from its probe to its alerts.
pub mod World
pub mod Funnel
pub mod Body
pub mod Once
pub mod Probe
pub mod Certificate
pub mod Url
