-- ===== src/Wal/Idle.antt =====
-- Wal.Recovery (wal.go) leaves the WAL with nothing to write.
use in_memory_base.Base.{◌≡◌, refl, Bool, true, false, List, [], ◌∷◌, Option, none, some}
use in_memory_base.Base.Text.{Text}
use in_memory_base.Base.Errors.{Error, Result, ok, err}
use in_memory_base.Filesystem.Disk.{Disk, Os, Handle, get_file_list}
use in_memory_base.Filesystem.Segment.{Segment, create}
use in_memory_base.HashTable.{HashTable}
use in_memory_base.Wal.Log.{Gob}
use in_memory_base.Wal.Writer.{Output}
use in_memory_base.Wal.Batch.{Wal, WalConfig, new_wal}
use in_memory_base.Wal.Recovery.{recover_files, after_files, after_list, recovery}

-- It is as NewWal made it, with some output and some table.
pub record IsIdle (config : WalConfig) (wal : Wal) : Type 0 where
  pub output : Output
  pub table : HashTable
  pub same : wal ≡ new_wal config output table

module _ (gob : Gob) (os : Os) (config : WalConfig) where
  IsIdle-as_made :
      (output : Output) (table : HashTable) → IsIdle config (new_wal config output table)
  IsIdle-as_made output table = record { output = output; table = table; same = refl }

  first-IsIdle :
      (output : Output) (table : HashTable) (r : Result Handle × Segment × Disk)
      → create os output.segment output.disk ≡ r
      → IsIdle config (after_files gob os [] (none, table) (new_wal config output table)).1
  unfolding after_files
  first-IsIdle output table (ok file, segment, disk) e = rw e (IsIdle-as_made _ _)
  first-IsIdle output table (err x, segment, disk) e = rw e (IsIdle-as_made _ _)

  last-IsIdle :
      (path : Text) (paths : List Text) (output : Output) (table : HashTable) (opens : Bool)
      → os.opens ≡ opens
      → IsIdle config
          (after_files gob os (path ∷ paths) (none, table) (new_wal config output table)).1
  unfolding after_files
  last-IsIdle path paths output table true e = rw e (IsIdle-as_made _ _)
  last-IsIdle path paths output table false e = rw e (IsIdle-as_made _ _)

  files-IsIdle :
      (paths : List Text) (r : Option Error × HashTable) (output : Output) (before : HashTable)
      → IsIdle config (after_files gob os paths r (new_wal config output before)).1
  unfolding after_files
  files-IsIdle paths (some x, table) output before = IsIdle-as_made output table
  files-IsIdle [] (none, table) output before =
      first-IsIdle output table (create os output.segment output.disk) refl
  files-IsIdle (path ∷ paths) (none, table) output before =
      last-IsIdle path paths output table os.opens refl

  list-IsIdle :
      (r : Result (List Text)) (output : Output) (table : HashTable)
      → IsIdle config (after_list gob os r (new_wal config output table)).1
  unfolding after_list
  list-IsIdle (err x) output table = IsIdle-as_made output table
  list-IsIdle (ok paths) output table =
      files-IsIdle paths (recover_files os output.disk paths table) output table

  -- Whatever the files hold and the system answers, and whether it succeeds: no request is in the open
  -- batch or in the channel.
  pub recovery-IsIdle :
      (output : Output) (table : HashTable)
      → IsIdle config (recovery gob os (new_wal config output table)).1
  unfolding recovery
  recovery-IsIdle output table = list-IsIdle (get_file_list os output.disk) output table
