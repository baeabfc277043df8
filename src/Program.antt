-- ===== src/Program.antt =====
-- The running program, as cmd/notifyd/main.go puts it together: the dispatcher and its workers, the
-- requests and the maintenance, over one queue.
pub mod Steps
pub mod Sound
pub mod Moves
pub mod Workers
pub mod Kept
pub mod Reach
pub mod Courses
pub mod Answers
pub mod Shutdown
pub mod Exits
pub mod Start
