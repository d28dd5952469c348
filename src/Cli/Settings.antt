-- ===== src/Cli/Settings.antt =====
-- The settings that the flags of the command line client (cli_app.go) come to.
use in_memory_base.Base.{◌*◌, ◌≡◌, refl, false, if◌then◌else◌, arith}
use in_memory_base.Base.Int.{ℤ, pos, leb_ℤ, ltb_ℤ}
use in_memory_base.Network.Option.{
  minute, with_client_tcp_address, with_client_tcp_idle_timeout, with_client_tcp_max_message_size,
}
use in_memory_base.Cli.Flags.{Flags, parse_flags, build_client}

size_positive : (size : ℤ) → ltb_ℤ (if leb_ℤ size (pos 0) then pos 4096 else size) (pos 0) ≡ false
size_positive size = ground arith

-- The client is made with the settings that parseFlags returns: the fall-back of the message size in
-- its option never takes effect, and of the timeout only a negative one is replaced, by five minutes.
pub build_client-parse_flags :
    (flags : Flags)
    → build_client (parse_flags flags).0 ≡ record (parse_flags flags).0 {
      idle_timeout = if ltb_ℤ flags.idle (pos 0) then pos (5 * minute) else flags.idle;
    }
unfolding build_client parse_flags with_client_tcp_address with_client_tcp_idle_timeout
    with_client_tcp_max_message_size
build_client-parse_flags flags = rw (size_positive flags.mes_size) refl
