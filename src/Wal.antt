-- ===== src/Wal.antt =====
-- internal/database/storage/engine/in_memory/wal
pub mod Log
pub mod Stream
pub mod Request
pub mod Writer
pub mod Apply
pub mod Batch
pub mod Pending
pub mod Replay
pub mod Restart
pub mod Output
pub mod Flush
pub mod Flusher
pub mod Answered
pub mod Drain
pub mod Push
pub mod Recovery
pub mod FirstFlush
pub mod Early
pub mod Idle
pub mod System
