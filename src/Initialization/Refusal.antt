-- ===== src/Initialization/Refusal.antt =====
-- When NewInitializer (internal/initialization/initializer.go) gives no server.
use in_memory_base.Base.{◌≡◌, ◌≢◌, refl, List, ◌∷◌, ◌++◌, Option, none, some}
use in_memory_base.Base.Text.{Text}
use in_memory_base.Base.Errors.{Error, Result, ok, err}
use in_memory_base.Filesystem.Disk.{get_file_list}
use in_memory_base.Filesystem.Directory.{make_directory}
use in_memory_base.Filesystem.Segment.{new_segment}
use in_memory_base.HashTable.{new_hash_table}
use in_memory_base.Wal.Batch.{Wal, new_wal}
use in_memory_base.Wal.Recovery.{recovery}
use in_memory_base.Wal.Replay.{HoldsTwo, recovery-HoldsTwo}
use in_memory_base.Initialization.Start.{
  Machine, Config, recovered, open_wal, create_wal, new_initializer,
}

abbrev pub Fails : {A : Type 0} → Result A → Type 0
Fails r = (e : Error) × (r ≡ err e)

recovered-Fails : (r : Option Error × Wal) → r.0 ≢ none → Fails (recovered r)
unfolding recovered
recovered-Fails (none, w) h = absurd (h refl)
recovered-Fails (some e, w) h = (e, refl)

-- A server whose directory has a file with two batches in it does not start, whatever else is right:
-- NewInitializer returns an error.
pub new_initializer-HoldsTwo :
    (machine : Machine) (cfg : Config) (directory : Text) (before : List Text) (path : Text)
    (after : List Text)
    → make_directory machine.host cfg.segment_storage_path ≡ ok directory
    → get_file_list machine.os (machine.disk_at directory) ≡ ok (before ++ (path ∷ after))
    → HoldsTwo machine.os (machine.disk_at directory) path
    → Fails (new_initializer machine (some cfg))
unfolding new_initializer create_wal open_wal
new_initializer-HoldsTwo machine cfg directory before path after made listed two =
    let wal =
      new_wal cfg.wal
        (record {
          segment = new_segment directory cfg.mask_name cfg.max_segment_size;
          disk = machine.disk_at directory;
          channels = machine.channels;
        })
        new_hash_table in
    let (e, failed) =
      recovered-Fails (recovery machine.gob machine.os wal)
        (recovery-HoldsTwo machine.gob machine.os wal before path after listed two) in
    (e, rw (made, failed) refl)
