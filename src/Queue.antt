-- ===== src/Queue.antt =====
-- internal/queue: the state of the queue, its operations, and what they keep.
pub mod Heap
pub mod State
pub mod Ops
pub mod Restore
pub mod Maintain
pub mod Invariant
pub mod Keeps
pub mod Admits
pub mod Lease
pub mod Purge
pub mod Victims
pub mod Cap
pub mod Upkeep
pub mod Durable
pub mod Ledger
pub mod Lives
pub mod Race
pub mod Stranded
pub mod Listing
pub mod Counts
pub mod Sending
pub mod Still
