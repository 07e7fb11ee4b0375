-- ===== src/Diagnostics.antt =====
-- diagnostics.py: the pure rules, on phases, certificates, reminders, trends and maintenance.
pub mod Cert
pub mod Phases
pub mod Findings
pub mod Reminders
pub mod Trend
pub mod Maintenance
