-- ===== src/Tests/Settings.antt =====
-- The theorems on the configuration and on the log at concrete inputs.
use in_memory_base.Base.{
  ◌≡◌, refl, Bool, true, false, ◌&&◌, List, [], ◌∷◌, Option, none, some, if◌then◌else◌,
}
use in_memory_base.Base.Int.{pos, ltb_ℤ}
use in_memory_base.Base.Text.{Text, runes, text_eq}
use in_memory_base.Base.Errors.{ok, err, io}
use in_memory_base.Configuration.{
  NetworkSection, WalSection, Configuration, Surroundings, default_network, default_wal,
  default_configuration, loaded, validated, new_config,
}
use in_memory_base.Configuration.Limits.{
  network_tags, wal_tags, ObeysTags, network_config, server_settings, wal_config,
  new_config-settings,
}
use in_memory_base.HashTable.{new_hash_table}
use in_memory_base.Logging.Pretty.{
  Attr, Record, PrettyHandler, new_pretty_handler, level_info, fields_of, with_attrs, with_group,
}
use in_memory_base.Logging.Rendered.{field, last_value, or_before, field-with_attrs}
use in_memory_base.Network.Server.{create_tcp_network}
use in_memory_base.Wal.Batch.{new_wal, is_full}
use in_memory_base.Tests.Data.{output}

abbrev network_ok : Option NetworkSection → Bool
network_ok none = true
network_ok (some n) = network_tags n

abbrev wal_ok : Option WalSection → Bool
wal_ok none = true
wal_ok (some w) = wal_tags w

abbrev validates : Configuration → Bool
validates cfg = network_ok cfg.network && wal_ok cfg.wal

left_of : (a b : Bool) → (a && b) ≡ true → a ≡ true
left_of true b h = refl
left_of false b h = cc h

right_of : (a b : Bool) → (a && b) ≡ true → b ≡ true
right_of true b h = h
right_of false b h = cc h

obeys : ObeysTags validates
obeys = record {
  network = λ cfg n h e. rw e at (left_of (network_ok cfg.network) (wal_ok cfg.wal) h);
  wal = λ cfg w h e. rw e at (right_of (network_ok cfg.network) (wal_ok cfg.wal) h);
}

-- No file, and nothing in the environment.
abbrev surroundings : Surroundings
surroundings = record {
  config_path = [];
  exists = λ path. false;
  read_config = λ path cfg. err io;
  read_env = λ cfg. ok cfg;
  validates = validates;
}

by_default : new_config surroundings ≡ ok default_configuration
unfolding new_config loaded validated text_eq
by_default = refl

new_config-settings_example :
    (create_tcp_network (λ a. true) true (some (network_config default_network))
      ≡ (if true then ok (server_settings default_network) else err io))
    × (ltb_ℤ (pos 0) default_wal.flushing_batch_count ≡ true)
    × (ltb_ℤ (pos 0) default_wal.flushing_batch_volume ≡ true)
    × (is_full (new_wal (wal_config default_wal) output new_hash_table) ≡ false)
new_config-settings_example =
    new_config-settings surroundings default_configuration default_network default_wal (λ a. true)
      output new_hash_table obeys by_default refl refl

abbrev handler : PrettyHandler
handler = new_pretty_handler level_info

abbrev attr : Text → Text → Attr
attr key value = record { key = key; value = value }

abbrev record_ : Record
record_ = record {
  time = 0;
  level = level_info;
  message = runes "m";
  attrs = attr (runes "k") (runes "r") ∷ [];
}

abbrev first : List Attr
first = attr (runes "op") (runes "x") ∷ []

abbrev second : List Attr
second = attr (runes "k") (runes "y") ∷ []

field-with_attrs_example :
    (field (runes "op") (fields_of (with_attrs second (with_attrs first handler)) record_)
      ≡ or_before (last_value (runes "op") second) (last_value (runes "op") record_.attrs))
    × (field (runes "op") (fields_of (with_group (runes "g") (with_attrs first handler)) record_)
        ≡ last_value (runes "op") record_.attrs)
field-with_attrs_example = field-with_attrs (runes "op") handler record_ first second (runes "g")
