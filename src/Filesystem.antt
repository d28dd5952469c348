-- ===== src/Filesystem.antt =====
-- internal/database/storage/engine/in_memory/filesystem
pub mod Disk
pub mod Segment
pub mod Contents
pub mod Landed
pub mod Write
pub mod Ready
pub mod Append
pub mod Names
pub mod Chronology
pub mod Rotation
pub mod There
pub mod Directory
