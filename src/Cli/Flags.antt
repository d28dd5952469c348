-- ===== src/Cli/Flags.antt =====
-- AppCli.parseFlags (cli_app.go), after flag.Parse, and AppCli.buildClient.
use in_memory_base.Base.{◌*◌, Bool, true, [], if◌then◌else◌}
use in_memory_base.Base.Int.{ℤ, pos, leb_ℤ}
use in_memory_base.Base.Text.{Text, runes, text_eq}
use in_memory_base.Network.Option.{
  ClientSettings, minute, with_client_tcp_address, with_client_tcp_idle_timeout,
  with_client_tcp_max_message_size,
}

-- The values of the flags.
pub record Flags : Type 0 where
  pub address : Text
  pub idle : ℤ
  pub mes_size : ℤ
  pub debug : Bool

-- The defaults of the flags.
abbrev pub default_flags : Flags
default_flags = record {
  address = runes "127.0.0.1:3323";
  idle = pos (5 * minute);
  mes_size = pos 4096;
  debug = true;
}

-- What parseFlags returns: the settings of the connection, and the environment of the logger.
unfoldable pub parse_flags : Flags → ClientSettings × Text
parse_flags flags = (
  record {
    address = if text_eq flags.address [] then runes "127.0.0.1:3323" else flags.address;
    idle_timeout = flags.idle;
    max_message_size = if leb_ℤ flags.mes_size (pos 0) then pos 4096 else flags.mes_size;
  },
  if flags.debug then runes "dev" else runes "info",
)

-- The options of buildClient, applied by NewTCPClient in their order.
unfoldable pub build_client : ClientSettings → ClientSettings
build_client settings = with_client_tcp_idle_timeout settings.idle_timeout (
    with_client_tcp_max_message_size settings.max_message_size (
      with_client_tcp_address settings.address
        (record { address = []; idle_timeout = pos 0; max_message_size = pos 0 })))
