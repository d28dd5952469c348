-- ===== src/Engine.antt =====
-- internal/database/storage/engine/in_memory: engine.go, id_generator.go, and the package
-- internal/lib/context_util that they use.
pub mod IdGenerator
pub mod Context
pub mod Ids
pub mod Calls
