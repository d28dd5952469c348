-- ===== src/Compute.antt =====
-- internal/database/compute
pub mod Chars
pub mod Fields
pub mod Layout
pub mod Parse
pub mod Grammar
pub mod Case
