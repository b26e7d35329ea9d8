-- ===== src/Wal.antt =====
-- The write-ahead log of observations (crates/wal/src).
pub mod Bytes
pub mod Format
pub mod Reader
pub mod Recovery
pub mod Writer
pub mod Scan
pub mod Replay
pub mod Written
pub mod Append
pub mod Covered
pub mod Commit
pub mod Seal
pub mod Reopen
pub mod Created
pub mod Calls
mod Tests
