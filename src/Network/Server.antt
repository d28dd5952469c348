-- ===== src/Network/Server.antt =====
-- NewTCPServer (tcp_server.go) and CreateTCPNetwork (internal/initialization). `listens` says
-- whether net.ListenConfig.Listen succeeds on an address.
use in_memory_base.Base.{◌*◌, Bool, true, false, List, [], ◌∷◌, Option, none, some, if◌then◌else◌}
use in_memory_base.Base.Int.{ℤ, pos, eq_ℤ}
use in_memory_base.Base.Text.{Text, runes, text_eq}
use in_memory_base.Base.Errors.{
  Result, ok, err, io, invalid_logger, invalid_config, invalid_max_conn, invalid_buffer_size,
}
use in_memory_base.Network.Option.{
  ServerSettings, minute, with_server_tcp_idle_timeout, with_server_tcp_max_connection_number,
  with_server_tcp_buffer_size,
}

-- The loop over the options, in their order.
unfoldable pub with_options :
    List (ServerSettings → ServerSettings) → ServerSettings → ServerSettings
with_options [] server = server
with_options (option ∷ options) server = with_options options (option server)

-- The checks after the loop.
checked : ServerSettings → Result ServerSettings
checked server =
    if eq_ℤ server.max_connections (pos 0)
    then err invalid_max_conn
    else if eq_ℤ server.buffer_size (pos 0)
    then err invalid_buffer_size
    else ok server

-- NewTCPServer: `has_log` is `log != nil`.
unfoldable pub new_tcp_server :
    (Text → Bool) → Text → Bool → List (ServerSettings → ServerSettings) → Result ServerSettings
unfolding with_options checked
new_tcp_server listens address has_log options =
    if has_log
    then if listens address
      then checked (
          with_options options
            (record { idle_timeout = pos 0; max_connections = pos 0; buffer_size = pos 0 }))
      else err io
    else err invalid_logger

-- config.NetworkConfig, as far as CreateTCPNetwork reads it.
pub record NetworkConfig : Type 0 where
  pub address : Text
  pub idle_timeout : ℤ
  pub max_connections : ℤ
  pub buffer_size : ℤ

or_if_zero : ℤ → ℤ → ℤ
or_if_zero default value = if eq_ℤ value (pos 0) then default else value

-- The options that CreateTCPNetwork collects.
unfoldable pub options_of : NetworkConfig → List (ServerSettings → ServerSettings)
unfolding or_if_zero
options_of cfg =
    with_server_tcp_idle_timeout (or_if_zero (pos (10 * minute)) cfg.idle_timeout)
    ∷ with_server_tcp_max_connection_number (or_if_zero (pos 10) cfg.max_connections)
    ∷ with_server_tcp_buffer_size (or_if_zero (pos 4096) cfg.buffer_size)
    ∷ []

unfoldable pub address_of : NetworkConfig → Text
address_of cfg = if text_eq cfg.address [] then runes "127.0.0.1:3323" else cfg.address

-- CreateTCPNetwork, where a config of `none` is nil.
unfoldable pub create_tcp_network :
    (Text → Bool) → Bool → Option NetworkConfig → Result ServerSettings
create_tcp_network listens false cfg = err invalid_logger
create_tcp_network listens true none = err invalid_config
create_tcp_network listens true (some cfg) =
    new_tcp_server listens (address_of cfg) true (options_of cfg)
