-- ===== src/Initialization/Start.antt =====
-- CreateWal, CreateEngine, NewInitializer and the set-up in StartDatabase (internal/initialization).
-- The logger that CreateLogger makes is never nil, so `has_log` is true for what comes after it.
use in_memory_base.Base.{Bool, true, Option, none, some, if◌then◌else◌}
use in_memory_base.Base.Int.{ℤ}
use in_memory_base.Base.Text.{Text}
use in_memory_base.Base.Errors.{Error, Result, ok, err, ◌>>=◌, invalid_logger, formatted}
use in_memory_base.Engine.Calls.{Engine, new_engine}
use in_memory_base.Filesystem.Disk.{Disk, Os}
use in_memory_base.Filesystem.Directory.{Host, make_directory}
use in_memory_base.Filesystem.Segment.{new_segment}
use in_memory_base.HashTable.{new_hash_table}
use in_memory_base.Network.Option.{ServerSettings}
use in_memory_base.Network.Server.{NetworkConfig, create_tcp_network}
use in_memory_base.Wal.Log.{Gob}
use in_memory_base.Wal.Request.{Channels}
use in_memory_base.Wal.Batch.{Wal, WalConfig, new_wal}
use in_memory_base.Wal.Recovery.{recovery}

-- config.Config, as far as the initializers read it.
pub record Config : Type 0 where
  pub network : Option NetworkConfig
  pub wal : WalConfig
  pub segment_storage_path : Text
  pub mask_name : Text
  pub max_segment_size : ℤ

-- What the program runs on: the files of the directory at a path, and what the system answers.
pub record Machine : Type 0 where
  pub gob : Gob
  pub os : Os
  pub host : Host
  pub disk_at : Text → Disk
  pub channels : Channels
  pub listens : Text → Bool

-- `if err != nil { return nil, nil, err }` after Recovery.
unfoldable pub recovered : Option Error × Wal → Result Wal
recovered (none, wal) = ok wal
recovered (some e, wal) = err e

-- CreateWal, once it has the directory.
unfoldable pub open_wal : Machine → Config → Text → Result Wal
unfolding recovered
open_wal machine cfg directory = recovered (
    recovery machine.gob machine.os (
      new_wal cfg.wal
        (record {
          segment = new_segment directory cfg.mask_name cfg.max_segment_size;
          disk = machine.disk_at directory;
          channels = machine.channels;
        })
        new_hash_table))

-- CreateWal
unfoldable pub create_wal : Machine → Bool → Config → Result Wal
unfolding open_wal
create_wal machine has_log cfg =
    if has_log
    then make_directory machine.host cfg.segment_storage_path >>= open_wal machine cfg
    else err invalid_logger

-- CreateEngine: NewEngine refuses a nil logger; the WAL and its table are there.
unfoldable pub create_engine : Bool → Wal → Result (Engine Wal)
create_engine has_log wal = if has_log then ok (new_engine wal) else err invalid_logger

pub record Initializer : Type 0 where
  pub engine : Engine Wal
  pub server : ServerSettings

with_engine : Machine → Config → Result (Engine Wal) → Result Initializer
with_engine machine cfg (err e) = err formatted
with_engine machine cfg (ok engine) =
    create_tcp_network machine.listens true cfg.network >>= λ server.
    ok (record { engine = engine; server = server })

-- NewInitializer, where a config of `none` is nil.
unfoldable pub new_initializer : Machine → Option Config → Result Initializer
unfolding with_engine
new_initializer machine none = err formatted
new_initializer machine (some cfg) =
    create_wal machine true cfg >>= λ wal. with_engine machine cfg (create_engine true wal)
