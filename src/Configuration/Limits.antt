-- ===== src/Configuration/Limits.antt =====
-- What the validation of NewConfig (config.go) is worth to the rest of the program.
use mathlib.Core.Path.{subst}
use in_memory_base.Base.{
  ◌*◌, ◌≡◌, refl, ap, ◌∙◌, Bool, true, false, ◌&&◌, not, [], some, if◌then◌else◌, arith, Bool-cases,
  inl, inr,
}
use in_memory_base.Base.Int.{ℤ, pos, ltb_ℤ}
use in_memory_base.Base.Text.{Text, text_eq}
use in_memory_base.Base.Errors.{Result, ok, err, ◌>>=◌, io}
use in_memory_base.Network.Option.{ServerSettings, minute}
use in_memory_base.Network.Server.{NetworkConfig, address_of, create_tcp_network}
use in_memory_base.Network.Defaults.{setting, settings_of, create_tcp_network-settings_of}
use in_memory_base.HashTable.{HashTable}
use in_memory_base.Wal.Batch.{WalConfig, new_wal, is_full}
use in_memory_base.Wal.Writer.{Output}
use in_memory_base.Configuration.{
  NetworkSection, WalSection, Configuration, Surroundings, loaded, validated, new_config,
}

abbrev positive : ℤ → Bool
positive n = ltb_ℤ (pos 0) n

-- The tags `validate:"gt=0"` and `validate:"required"` of NetworkConfig and WalConfig.
abbrev pub network_tags : NetworkSection → Bool
network_tags n =
    positive n.max_connections
    && positive n.max_message_size
    && positive n.idle_timeout
    && positive n.buffer_size

abbrev pub wal_tags : WalSection → Bool
wal_tags w =
    positive w.flushing_batch_timeout
    && positive w.flushing_batch_count
    && positive w.flushing_batch_volume
    && positive w.max_segment_size
    && not (text_eq w.segment_storage_path [])
    && not (text_eq w.mask_name [])

-- The validator lets nothing through that breaks a tag; it goes into a section that is there.
pub record ObeysTags (validates : Configuration → Bool) : Type 0 where
  pub network :
      (cfg : Configuration) (n : NetworkSection)
      → validates cfg ≡ true
      → cfg.network ≡ some n
      → network_tags n ≡ true
  pub wal :
      (cfg : Configuration) (w : WalSection)
      → validates cfg ≡ true
      → cfg.wal ≡ some w
      → wal_tags w ≡ true

-- What CreateTCPNetwork reads of the section.
abbrev pub network_config : NetworkSection → NetworkConfig
network_config n = record {
  address = n.address;
  idle_timeout = n.idle_timeout;
  max_connections = n.max_connections;
  buffer_size = n.buffer_size;
}

abbrev pub server_settings : NetworkSection → ServerSettings
server_settings n = record {
  idle_timeout = n.idle_timeout;
  max_connections = n.max_connections;
  buffer_size = n.buffer_size;
}

same_ok : {x y : Configuration} → ok x ≡ ok y → x ≡ y
same_ok h = cc

after_validation :
    (s : Surroundings) (loaded_one : Result Configuration) (cfg : Configuration)
    → (loaded_one >>= validated s) ≡ ok cfg
    → s.validates cfg ≡ true
unfolding validated
after_validation s (err e) cfg h = cc h
after_validation s (ok x) cfg h = elim (Bool-cases (s.validates x)) [
  | inl e ↦ subst (λ c. s.validates c ≡ true) (same_ok (rw e at h)) e
  | inr e ↦ cc (rw e at h)
]

new_config-validates :
    (s : Surroundings) (cfg : Configuration) → new_config s ≡ ok cfg → s.validates cfg ≡ true
unfolding new_config
new_config-validates s cfg h = after_validation s (loaded s) cfg h

both : (a b : Bool) → (a && b) ≡ true → (a ≡ true) × (b ≡ true)
both true b h = (refl, h)
both false b h = cc h

setting_positive : (a b value : ℤ) → ltb_ℤ (pos 0) value ≡ true → setting a b value ≡ value
setting_positive a b value h = ground arith

settings_of-positive :
    (n : NetworkSection)
    → network_tags n ≡ true
    → settings_of (network_config n) ≡ server_settings n
settings_of-positive n h =
    let (h₁, buffer) = both _ (positive n.buffer_size) h in
    let (h₂, timeout) = both _ (positive n.idle_timeout) h₁ in
    let (connections, message) = both _ (positive n.max_message_size) h₂ in
    rw
      (
        setting_positive (pos (10 * minute)) (pos (5 * minute)) n.idle_timeout timeout,
        setting_positive (pos 10) (pos 100) n.max_connections connections,
        setting_positive (pos 4096) (pos 4098) n.buffer_size buffer,
      )
      refl

-- What NewWal reads of the section.
abbrev pub wal_config : WalSection → WalConfig
wal_config w = record {
  flushing_batch_count = w.flushing_batch_count;
  flushing_batch_volume = w.flushing_batch_volume;
}

not_full :
    (config : WalConfig) (output : Output) (table : HashTable)
    → ltb_ℤ (pos 0) config.flushing_batch_count ≡ true
    → ltb_ℤ (pos 0) config.flushing_batch_volume ≡ true
    → is_full (new_wal config output table) ≡ false
not_full config output table c v = ground arith

-- Where the validator obeys the tags, and NewConfig returns a configuration with both sections: the
-- server is created with the timeout, the number of connections and the buffer size of its section, for
-- which no fall-back of CreateTCPNetwork or of an option takes effect, and with its address or, if that
-- is empty, the default one; and the WAL is created with positive thresholds, below both of them.
pub new_config-settings :
    (s : Surroundings) (cfg : Configuration) (n : NetworkSection) (w : WalSection)
    (listens : Text → Bool) (output : Output) (table : HashTable)
    → ObeysTags s.validates
    → new_config s ≡ ok cfg
    → cfg.network ≡ some n
    → cfg.wal ≡ some w
    → (create_tcp_network listens true (some (network_config n))
        ≡ (if listens (address_of (network_config n)) then ok (server_settings n) else err io))
      × (ltb_ℤ (pos 0) w.flushing_batch_count ≡ true)
      × (ltb_ℤ (pos 0) w.flushing_batch_volume ≡ true)
      × (is_full (new_wal (wal_config w) output table) ≡ false)
new_config-settings s cfg n w listens output table obeys h hn hw =
    let valid = new_config-validates s cfg h in
    let (h₁, mask) = both _ (not (text_eq w.mask_name [])) (obeys.wal cfg w valid hw) in
    let (h₂, path) = both _ (not (text_eq w.segment_storage_path [])) h₁ in
    let (h₃, size) = both _ (positive w.max_segment_size) h₂ in
    let (h₄, volume) = both _ (positive w.flushing_batch_volume) h₃ in
    let (timeout, count) = both _ (positive w.flushing_batch_count) h₄ in
    (
      (create_tcp_network-settings_of listens (network_config n)).0
          ∙ ap (λ x. if listens (address_of (network_config n)) then ok x else err io)
              (settings_of-positive n (obeys.network cfg n valid hn)),
      count,
      volume,
      not_full (wal_config w) output table count volume,
    )
