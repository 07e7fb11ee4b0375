-- ===== src/Notifiers.antt =====
-- notifiers.py: alert kinds, delivery on one channel, the circuit breaker and the dispatch.
pub mod Kind
pub mod Send
pub mod Dispatch
