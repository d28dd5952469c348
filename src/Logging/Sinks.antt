-- ===== src/Logging/Sinks.antt =====
-- The two CreateLogger, of the server and of the command line client, and what becomes of a record
-- in a slog.Logger.
use in_memory_base.Base.{Bool, false, Option, none, some, if◌then◌else◌}
use in_memory_base.Base.Int.{ℤ}
use in_memory_base.Base.Text.{Text, runes, text_eq}
use in_memory_base.Base.Errors.{Result, ok, err}
use in_memory_base.Logging.Pretty.{
  Console, PrettyHandler, Record, new_pretty_handler, level_debug, level_info, handle, enabled,
}

-- The handlers of the repository: PrettyHandler, and the DiscardHandler of slogdiscard.go.
pub data Sink : Type 0 where
  pretty : PrettyHandler → Sink
  discard : Sink

-- CreateLogger of the server: an unknown level is taken for info.
unfoldable pub create_logger : Text → Sink
unfolding new_pretty_handler
create_logger level =
    if text_eq level (runes "info")
    then pretty (new_pretty_handler level_info)
    else if text_eq level (runes "dev")
    then pretty (new_pretty_handler level_debug)
    else if text_eq level (runes "prod")
    then discard
    else pretty (new_pretty_handler level_info)

-- CreateLogger of the command line client.
unfoldable pub create_client_logger : Text → Sink
unfolding new_pretty_handler
create_client_logger env =
    if text_eq env (runes "info")
    then pretty (new_pretty_handler level_info)
    else if text_eq env (runes "dev")
    then pretty (new_pretty_handler level_debug)
    else if text_eq env (runes "prod")
    then discard
    else pretty (new_pretty_handler level_info)

-- Enabled
unfoldable pub sink_enabled : Sink → ℤ → Bool
unfolding enabled
sink_enabled (pretty h) level = enabled h level
sink_enabled discard level = false

-- slog.Logger: a record that is not enabled does not reach Handle, and errors of Handle are dropped.
unfoldable pub log_record : Console → (ℤ → Text) → Sink → Record → Option Text
log_record console level_text (pretty h) r =
    if enabled h r.level then written (handle console level_text h r) else none
  where
    written : Result Text → Option Text
    written (ok line) = some line
    written (err e) = none
log_record console level_text discard r = none
