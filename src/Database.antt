-- ===== src/Database.antt =====
-- internal/database/database.go
pub mod Handler
pub mod Answers
