-- ===== src/Tests.antt =====
-- The theorems at concrete inputs.
mod Data
mod Alerts
mod Delivery
mod Rules
mod Probe
mod Targets
mod History
mod Commands
mod Reads
