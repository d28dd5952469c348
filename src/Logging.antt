-- ===== src/Logging.antt =====
-- internal/lib/logger, and the two CreateLogger (internal/initialization/logger_initializer.go,
-- internal/application_cli/cli_app.go).
pub mod Pretty
pub mod Sinks
pub mod Rendered
