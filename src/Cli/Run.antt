-- ===== src/Cli/Run.antt =====
-- AppCli.Run (cli_app.go): the flags, the connection, and the loop over the lines.
use in_memory_base.Base.{
  ◌*◌, ◌≡◌, refl, ap, ◌∙◌, Bool, true, false, List, [], ◌∷◌, Option, if◌then◌else◌,
}
use in_memory_base.Base.Int.{ℤ, pos, ltb_ℤ}
use in_memory_base.Base.Text.{Text}
use in_memory_base.Base.Errors.{Result, ok, err, formatted}
use in_memory_base.Network.Option.{
  ClientSettings, minute, with_client_tcp_address, with_client_tcp_idle_timeout,
  with_client_tcp_max_message_size,
}
use in_memory_base.Network.Client.{new_tcp_client, with_client_options, dial_timeout}
use in_memory_base.Cli.Flags.{Flags, parse_flags, build_client}
use in_memory_base.Cli.Settings.{build_client-parse_flags}
use in_memory_base.Cli.Repl.{Transcript, repl_loop}
use in_memory_base.Cli.Requests.{requests_in, repl_loop-requests_in}

-- The process exits with a code, or the loop has ended.
pub data RunEnding (S : Type 0) : Type 0 where
  exits_with_1 : RunEnding S
  ended : ClientSettings → Transcript S → RunEnding S

-- The options of buildClient, in their order.
abbrev pub client_options : ClientSettings → List (ClientSettings → ClientSettings)
client_options settings =
    with_client_tcp_address settings.address
    ∷ with_client_tcp_max_message_size settings.max_message_size
    ∷ with_client_tcp_idle_timeout settings.idle_timeout
    ∷ []

module _ {S : Type 0} (dials : Option ℤ → Text → Bool)
    (send_and_receive : Text → S → Result Text × S) where
  -- What follows NewTCPClient: os.Exit(1) on an error.
  unfoldable pub connected : Result ClientSettings → List Text → S → RunEnding S
  connected (err e) lines s = exits_with_1
  connected (ok client) lines s = ended client (repl_loop send_and_receive lines s)

  -- AppCli.Run, where CreateLogger never fails.
  unfoldable pub run : Flags → List Text → S → RunEnding S
  unfolding connected
  run flags lines s =
      connected (new_tcp_client dials true (client_options (parse_flags flags).0)) lines s

  new_tcp_client-build_client :
      (settings : ClientSettings)
      → new_tcp_client dials true (client_options settings) ≡ (
          if dials (dial_timeout (build_client settings)) (build_client settings).address
          then ok (build_client settings)
          else err formatted)
  unfolding new_tcp_client with_client_options build_client
  new_tcp_client-build_client settings = refl

  connected-if :
      (b : Bool) (client : ClientSettings) (lines : List Text) (s : S)
      → connected (if b then ok client else err formatted) lines s
        ≡ (if b then ended client (repl_loop send_and_receive lines s) else exits_with_1)
  unfolding connected
  connected-if true client lines s = refl
  connected-if false client lines s = refl

  -- AppCli.Run exits with code 1 exactly where the address cannot be connected to in time, and else ends
  -- with its loop. The client has the settings of the flags: the fall-back of the message size in its
  -- option never takes effect, and of the timeout only a negative one is replaced, by five minutes. It
  -- has called SendAndReceive for the trimmed lines that are not empty, in their order, up to the first
  -- one that is `exit` in any case, once for each, whether it succeeded or not; the cancellation of the
  -- context, which bounds the dial, has no part in the loop.
  pub run-requests_in :
      (flags : Flags) (lines : List Text) (s : S)
      → (run flags lines s ≡ (
          if dials
            (dial_timeout (build_client (parse_flags flags).0))
            (build_client (parse_flags flags).0).address
          then ended (build_client (parse_flags flags).0) (repl_loop send_and_receive lines s)
          else exits_with_1))
        × (build_client (parse_flags flags).0 ≡ record (parse_flags flags).0 {
          idle_timeout = if ltb_ℤ flags.idle (pos 0) then pos (5 * minute) else flags.idle;
        })
        × ((repl_loop send_and_receive lines s).attempted ≡ requests_in lines)
  unfolding run
  run-requests_in flags lines s = (
    ap (λ r. connected r lines s) (new_tcp_client-build_client (parse_flags flags).0)
        ∙ connected-if
            (dials (dial_timeout (build_client (parse_flags flags).0))
              (build_client (parse_flags flags).0).address)
            (build_client (parse_flags flags).0) lines s,
    build_client-parse_flags flags,
    repl_loop-requests_in send_and_receive lines s,
  )
