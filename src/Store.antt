-- ===== src/Store.antt =====
-- internal/store: the records of the journal and the write-ahead log.
pub mod Record
pub mod Codec
pub mod Wal
pub mod Replay
