-- ===== src/Api.antt =====
-- internal/api/api.go: what the handlers check, what they do to the queue, and what they answer.
pub mod Validate
pub mod Submit
pub mod Promises
pub mod Retry
pub mod Auth
pub mod Reads
pub mod Receive
pub mod Probes
