-- ===== src/Cli.antt =====
-- internal/application_cli: the command line client.
pub mod Flags
pub mod Repl
pub mod Requests
pub mod Run
pub mod Settings
