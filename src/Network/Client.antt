-- ===== src/Network/Client.antt =====
-- tcp_client.go: a request and its response over one connection. An error of Write or Read carries
-- the name of the operation and wraps that of the system.
use in_memory_base.Base.{Bool, List, [], ◌∷◌, Option, none, some, if◌then◌else◌}
use in_memory_base.Base.Int.{ℤ, pos, ltb_ℤ}
use in_memory_base.Network.Option.{ClientSettings}
use in_memory_base.Base.Text.{Text}
use in_memory_base.Base.Errors.{Result, ok, err, io, formatted}
use in_memory_base.Compute.Fields.{trim_space}

-- How the connection answers: Write succeeds or not, and Read gives at most `maxMessageSize` bytes.
-- Errors of the two deadlines are logged only.
pub record Exchange : Type 0 where
  pub writes : Bool
  pub response : Option Text

read_response : Option Text → Result Text
read_response none = err io
read_response (some response) = ok (trim_space response)

-- TCPClient.SendAndReceive
unfoldable pub send_and_receive : Exchange → Result Text
unfolding read_response
send_and_receive exchange = if exchange.writes then read_response exchange.response else err io

-- The loop over the options, in their order.
unfoldable pub with_client_options :
    List (ClientSettings → ClientSettings) → ClientSettings → ClientSettings
with_client_options [] client = client
with_client_options (option ∷ options) client = with_client_options options (option client)

-- The limit of the dial besides that of the caller's context.
unfoldable pub dial_timeout : ClientSettings → Option ℤ
dial_timeout client = if ltb_ℤ (pos 0) client.idle_timeout then some client.idle_timeout else none

-- NewTCPClient: `has_log` is `log != nil`, and `dials` says whether the address can be connected to
-- within the limit.
unfoldable pub new_tcp_client :
    (Option ℤ → Text → Bool) → Bool → List (ClientSettings → ClientSettings) → Result ClientSettings
unfolding with_client_options dial_timeout
new_tcp_client dials has_log options =
    let client =
      with_client_options options
        (record { address = []; idle_timeout = pos 0; max_message_size = pos 0 }) in
    if has_log
    then (if dials (dial_timeout client) client.address then ok client else err formatted)
    else err formatted
