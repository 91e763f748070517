-- ===== src/Wal.antt =====
-- pkg/wal/wal.go.
pub mod Directory
pub mod Bytes
pub mod Entry
pub mod Scan
pub mod Recovery
pub mod State
pub mod Open
pub mod Append
pub mod Sync
pub mod Rotate
pub mod Write
pub mod View
pub mod Mixing
pub mod Crash
pub mod Reopen
pub mod Faults
pub mod Create
mod Tests
pub mod Soundness
