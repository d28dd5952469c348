-- ===== src/Configuration.antt =====
-- internal/config/config.go: NewConfig. cleanenv, which reads a YAML file and the environment, and
-- the validator are parameters.
use in_memory_base.Base.{[], ◌*◌, Bool, Option, none, some, if◌then◌else◌}
use in_memory_base.Base.Int.{ℤ, pos}
use in_memory_base.Base.Text.{Text, runes, text_eq}
use in_memory_base.Base.Errors.{Result, ok, err, ◌>>=◌, formatted}
use in_memory_base.Network.Option.{minute}
pub mod Limits

-- NetworkConfig. A duration is its number of nanoseconds.
pub record NetworkSection : Type 0 where
  pub address : Text
  pub max_connections : ℤ
  pub max_message_size : ℤ
  pub idle_timeout : ℤ
  pub buffer_size : ℤ
  pub type_conn : Text

-- LoggingConfig
pub record LoggingSection : Type 0 where
  pub level : Text

-- WalConfig
pub record WalSection : Type 0 where
  pub flushing_batch_timeout : ℤ
  pub flushing_batch_count : ℤ
  pub flushing_batch_volume : ℤ
  pub max_segment_size : ℤ
  pub segment_storage_path : Text
  pub mask_name : Text

-- Config; a nil pointer is `none`.
pub record Configuration : Type 0 where
  pub network : Option NetworkSection
  pub logger : Option LoggingSection
  pub wal : Option WalSection
  pub engine_type : Text

-- The literal that NewConfig starts from.
abbrev pub default_network : NetworkSection
default_network = record {
  address = runes "127.0.0.1:3323";
  max_connections = pos 100;
  max_message_size = pos 4096;
  idle_timeout = pos (5 * minute);
  buffer_size = pos 4096;
  type_conn = runes "tcp";
}

abbrev pub default_wal : WalSection
default_wal = record {
  flushing_batch_timeout = pos 10000000;
  flushing_batch_count = pos 2;
  flushing_batch_volume = pos 10485760;
  max_segment_size = pos 1073741824;
  segment_storage_path = runes "./storage/wal";
  mask_name = runes "segment_";
}

abbrev pub default_configuration : Configuration
default_configuration = record {
  network = some default_network;
  logger = some (record { level = runes "info" });
  wal = some default_wal;
  engine_type = runes "in_memory";
}

-- What NewConfig meets: CONFIG_PATH, whether os.Stat finds a path, cleanenv.ReadConfig and
-- cleanenv.ReadEnv, which write over a Config, and `validator.New().Struct`.
pub record Surroundings : Type 0 where
  pub config_path : Text
  pub exists : Text → Bool
  pub read_config : Text → Configuration → Result Configuration
  pub read_env : Configuration → Result Configuration
  pub validates : Configuration → Bool

or_formatted : Result Configuration → Result Configuration
or_formatted (ok cfg) = ok cfg
or_formatted (err e) = err formatted

-- The configuration before its validation.
unfoldable pub loaded : Surroundings → Result Configuration
unfolding or_formatted
loaded s =
    if text_eq s.config_path []
    then or_formatted (s.read_env default_configuration)
    else if s.exists s.config_path
    then or_formatted (s.read_config s.config_path default_configuration)
    else err formatted

unfoldable pub validated : Surroundings → Configuration → Result Configuration
validated s cfg = if s.validates cfg then ok cfg else err formatted

-- NewConfig
unfoldable pub new_config : Surroundings → Result Configuration
new_config s = loaded s >>= validated s
