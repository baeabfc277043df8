-- ===== src/Dispatch.antt =====
-- internal/dispatch: judging an attempt, waiting, and delivering.
pub mod Outcome
pub mod Backoff
pub mod RetryAfter
pub mod Deliver
pub mod Target
pub mod Request
pub mod Exchange
pub mod Run
