-- ===== src/Run.antt =====
-- main.py: one round over all targets, its exit code and its heartbeat, and the liveness probe.
pub mod Report
pub mod Trend
pub mod Summary
pub mod Round
pub mod Liveness
