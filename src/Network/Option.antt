-- ===== src/Network/Option.antt =====
-- network_option.go. A duration is its number of nanoseconds.
use in_memory_base.Base.{ℕ, ◌*◌, if◌then◌else◌}
use in_memory_base.Base.Int.{ℤ, pos, ltb_ℤ}
use in_memory_base.Base.Text.{Text}

-- What the options set in a TCPServer and in a TCPClient.
pub record ServerSettings : Type 0 where
  pub idle_timeout : ℤ
  pub max_connections : ℤ
  pub buffer_size : ℤ

pub record ClientSettings : Type 0 where
  pub address : Text
  pub idle_timeout : ℤ
  pub max_message_size : ℤ

-- `5 * time.Minute`
abbrev pub minute : ℕ
minute = 60000000000

or_if_negative : ℤ → ℤ → ℤ
or_if_negative default value = if ltb_ℤ value (pos 0) then default else value

-- WithClientTCPAddress
unfoldable pub with_client_tcp_address : Text → ClientSettings → ClientSettings
with_client_tcp_address address client = record client { address = address }

-- WithClientTCPIdleTimeout
unfoldable pub with_client_tcp_idle_timeout : ℤ → ClientSettings → ClientSettings
unfolding or_if_negative
with_client_tcp_idle_timeout timeout client = record client {
  idle_timeout = or_if_negative (pos (5 * minute)) timeout;
}

-- WithClientTCPMaxMessageSize
unfoldable pub with_client_tcp_max_message_size : ℤ → ClientSettings → ClientSettings
unfolding or_if_negative
with_client_tcp_max_message_size size client = record client {
  max_message_size = or_if_negative (pos 4098) size;
}

-- WithServerTCPIdleTimeout
unfoldable pub with_server_tcp_idle_timeout : ℤ → ServerSettings → ServerSettings
unfolding or_if_negative
with_server_tcp_idle_timeout timeout server = record server {
  idle_timeout = or_if_negative (pos (5 * minute)) timeout;
}

-- WithServerTCPMaxConnectionNumber
unfoldable pub with_server_tcp_max_connection_number : ℤ → ServerSettings → ServerSettings
unfolding or_if_negative
with_server_tcp_max_connection_number max_connections server = record server {
  max_connections = or_if_negative (pos 100) max_connections;
}

-- WithServerTCPBufferSize
unfoldable pub with_server_tcp_buffer_size : ℤ → ServerSettings → ServerSettings
unfolding or_if_negative
with_server_tcp_buffer_size buffer_size server = record server {
  buffer_size = or_if_negative (pos 4098) buffer_size;
}
