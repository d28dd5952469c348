-- ===== src/Tests.antt =====
-- The theorems at concrete inputs, and runs of the code.
mod Data
mod Wal
mod System
mod Filesystem
mod Compute
mod Engine
mod Service
mod Started
mod Network
mod Settings
mod Segments
mod Accept
mod Start
