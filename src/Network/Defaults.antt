-- ===== src/Network/Defaults.antt =====
-- What a TCP server is created with, whatever the configuration says.
use in_memory_base.Base.{
  ℕ, ◌*◌, ◌≡◌, refl, Bool, true, false, some, if◌then◌else◌, arith, Bool-cases, inl, inr,
}
use in_memory_base.Base.Int.{ℤ, pos, eq_ℤ, ltb_ℤ}
use in_memory_base.Base.Text.{Text}
use in_memory_base.Base.Errors.{ok, err, io}
use in_memory_base.Network.Option.{
  ServerSettings, minute, with_server_tcp_idle_timeout, with_server_tcp_max_connection_number,
  with_server_tcp_buffer_size,
}
use in_memory_base.Network.Server.{
  NetworkConfig, new_tcp_server, options_of, address_of, create_tcp_network,
}

-- A setting after both fall-backs: that of CreateTCPNetwork for zero, that of the option below it.
abbrev pub setting : ℤ → ℤ → ℤ → ℤ
setting if_zero if_negative value =
    if eq_ℤ value (pos 0) then if_zero else if ltb_ℤ value (pos 0) then if_negative else value

abbrev pub settings_of : NetworkConfig → ServerSettings
settings_of cfg = record {
  idle_timeout = setting (pos (10 * minute)) (pos (5 * minute)) cfg.idle_timeout;
  max_connections = setting (pos 10) (pos 100) cfg.max_connections;
  buffer_size = setting (pos 4096) (pos 4098) cfg.buffer_size;
}

positive :
    (zero_default negative_default : ℕ) (value : ℤ)
    → ltb_ℤ (pos 0) (pos zero_default) ≡ true
    → ltb_ℤ (pos 0) (pos negative_default) ≡ true
    → ltb_ℤ (pos 0) (setting (pos zero_default) (pos negative_default) value) ≡ true
positive zero_default negative_default value z n = ground arith

not_zero :
    (zero_default negative_default : ℕ) (value : ℤ)
    → ltb_ℤ (pos 0) (pos zero_default) ≡ true
    → ltb_ℤ (pos 0) (pos negative_default) ≡ true
    → eq_ℤ (setting (pos zero_default) (pos negative_default) value) (pos 0) ≡ false
not_zero zero_default negative_default value z n = ground arith

setting_lem :
    (zero_default : ℕ) (negative_default value : ℤ)
    → (if ltb_ℤ (if eq_ℤ value (pos 0) then pos zero_default else value) (pos 0)
        then negative_default
        else if eq_ℤ value (pos 0)
        then pos zero_default
        else value)
      ≡ setting (pos zero_default) negative_default value
setting_lem zero_default negative_default value = elim (Bool-cases (eq_ℤ value (pos 0))) [
  | inl e ↦ rw e (ground arith)
  | inr e ↦ rw e refl
]

-- With any configuration CreateTCPNetwork fails only where the address cannot be listened on: it
-- never runs into ErrInvalidMaxConn or ErrInvalidBufferSize. The server then has the settings of the
-- configuration, each with its fall-backs, and all three are positive.
pub create_tcp_network-settings_of :
    (listens : Text → Bool) (cfg : NetworkConfig)
    → (create_tcp_network listens true (some cfg)
        ≡ (if listens (address_of cfg) then ok (settings_of cfg) else err io))
      × (ltb_ℤ (pos 0) (settings_of cfg).idle_timeout ≡ true)
      × (ltb_ℤ (pos 0) (settings_of cfg).max_connections ≡ true)
      × (ltb_ℤ (pos 0) (settings_of cfg).buffer_size ≡ true)
unfolding create_tcp_network new_tcp_server options_of with_server_tcp_idle_timeout
    with_server_tcp_max_connection_number with_server_tcp_buffer_size
create_tcp_network-settings_of listens cfg = (
  rw
      (
        setting_lem (10 * minute) (pos (5 * minute)) cfg.idle_timeout,
        setting_lem 10 (pos 100) cfg.max_connections,
        setting_lem 4096 (pos 4098) cfg.buffer_size,
        not_zero 10 100 cfg.max_connections refl refl,
        not_zero 4096 4098 cfg.buffer_size refl refl,
      )
      refl,
  positive _ _ cfg.idle_timeout refl refl,
  positive _ _ cfg.max_connections refl refl,
  positive _ _ cfg.buffer_size refl refl,
)
