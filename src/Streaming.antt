-- ===== src/Streaming.antt =====
-- sapl_base/src/sapl_base/pep/streaming: the state machine of a subscription and its driver.
pub mod Transitions
pub mod Mealy
pub mod Pipeline
