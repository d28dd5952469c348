-- ===== src/Wal/Replay.antt =====
-- Wal.Recovery (wal.go): which directories it rebuilds the table from, and which it refuses.
use in_memory_base.Base.{
  ◌≡◌, ◌≢◌, refl, List, [], ◌∷◌, ◌++◌, Option, none, some, All, inl, inr, Option-cases,
}
use in_memory_base.Base.Text.{Text}
use in_memory_base.Base.Sort.{sort_by, All-sort_by}
use in_memory_base.Base.Errors.{Error, ok, failed_decode}
use in_memory_base.Filesystem.Disk.{Disk, Os, read_file, get_file_list}
use in_memory_base.HashTable.{HashTable}
use in_memory_base.Wal.Log.{Log, Message, Gob}
use in_memory_base.Wal.Stream.{stream, decode_all-stream, decode_all-two_streams}
use in_memory_base.Wal.Writer.{or_else}
use in_memory_base.Wal.Apply.{apply, apply_logged, apply_or_fail}
use in_memory_base.Wal.Batch.{Wal}
use in_memory_base.Wal.Recovery.{
  by_lsn, apply_decoded, recover_data, recover_files, after_list, after_files, recovery,
}

-- A record that `apply` takes: SET has a key and a value, DEL has a key, and other commands are
-- passed over.
abbrev pub IsApplicable : Log → Type 0
IsApplicable log = (table : HashTable) → (t : HashTable) × (apply log table ≡ ok t)

apply_or_fail-logged :
    (logs : List Log) (table : HashTable)
    → All IsApplicable logs
    → apply_or_fail logs table ≡ (none, apply_logged logs table)
unfolding apply_or_fail apply_logged
apply_or_fail-logged [] table h = refl
apply_or_fail-logged (log ∷ logs) table h =
    let (t, e) = h.0 table in rw (e, apply_or_fail-logged logs t h.1)

-- The table after some batches, each applied in the order of its LSN, one after the other.
abbrev pub apply_batches : List (List Log) → HashTable → HashTable
apply_batches [] table = table
apply_batches (logs ∷ batches) table =
    apply_batches batches (apply_logged (sort_by by_lsn logs) table)

-- The files, in the order of the list, can be read, and each holds one stream of applicable records.
abbrev pub Holds : Os → Disk → List Text → List (List Log) → Type 0
Holds os disk [] [] = Unit
Holds os disk [] (logs ∷ batches) = ⊥
Holds os disk (path ∷ paths) [] = ⊥
Holds os disk (path ∷ paths) (logs ∷ batches) =
    (read_file os path disk ≡ ok (stream logs))
    × All IsApplicable logs
    × Holds os disk paths batches

-- Recovery rebuilds what the flushes made: from files that each hold the stream of one batch, it
-- gets the table that comes of applying these batches one after the other, each in the order of
-- its LSN, as flushBatch did, and no error.
pub recover_files-Holds :
    (os : Os) (disk : Disk) (paths : List Text) (batches : List (List Log)) (table : HashTable)
    → Holds os disk paths batches
    → recover_files os disk paths table ≡ (none, apply_batches batches table)
unfolding recover_files recover_data apply_decoded
recover_files-Holds os disk [] [] table h = refl
recover_files-Holds os disk [] (logs ∷ batches) table h = absurd h
recover_files-Holds os disk (path ∷ paths) [] table h = absurd h
recover_files-Holds os disk (path ∷ paths) (logs ∷ batches) table (data_in, good, rest) = rw (
  data_in,
  decode_all-stream logs,
  apply_or_fail-logged (sort_by by_lsn logs) table (All-sort_by by_lsn IsApplicable logs good),
  recover_files-Holds os disk paths batches (apply_logged (sort_by by_lsn logs) table) rest,
)

-- A file that holds at least two streams one after the other.
pub record HoldsTwo (os : Os) (disk : Disk) (path : Text) : Type 0 where
  pub first : Log
  pub logs : List Log
  pub second : Log
  pub more : List Log
  pub rest : List Message
  pub data_in :
      read_file os path disk ≡ ok (stream (first ∷ logs) ++ (stream (second ∷ more) ++ rest))

recover_data-HoldsTwo :
    (os : Os) (disk : Disk) (path : Text) (table : HashTable)
    → HoldsTwo os disk path
    → recover_data (read_file os path disk) table ≡ (some failed_decode, table)
unfolding recover_data apply_decoded
recover_data-HoldsTwo os disk path table h =
    rw (h.data_in, decode_all-two_streams h.first h.second h.logs h.more h.rest)

recover_files-HoldsTwo :
    (os : Os) (disk : Disk) (before : List Text) (path : Text) (after : List Text)
    (table : HashTable)
    → HoldsTwo os disk path
    → (recover_files os disk (before ++ (path ∷ after)) table).0 ≢ none
unfolding recover_files
recover_files-HoldsTwo os disk [] path after table h =
    rw (recover_data-HoldsTwo os disk path table h) (λ e. cc)
recover_files-HoldsTwo os disk (p ∷ before) path after table h =
    elim (Option-cases (recover_data (read_file os p disk) table).0) [
      | inl e ↦ rw (e, or_else) (recover_files-HoldsTwo os disk before path after _ h)
      | inr (x, e) ↦ rw (e, or_else) (λ y. cc)
    ]

after_files-failed :
    (gob : Gob) (os : Os) (paths : List Text) (r : Option Error × HashTable) (wal : Wal)
    → r.0 ≢ none
    → (after_files gob os paths r wal).0 ≢ none
unfolding after_files
after_files-failed gob os paths (none, table) wal h = absurd (h refl)
after_files-failed gob os paths (some e, table) wal h = λ x. cc

-- Recovery refuses a directory in which some file holds two streams, wherever that file stands in
-- the list, and so the server does not start.
pub recovery-HoldsTwo :
    (gob : Gob) (os : Os) (wal : Wal) (before : List Text) (path : Text) (after : List Text)
    → get_file_list os wal.output.disk ≡ ok (before ++ (path ∷ after))
    → HoldsTwo os wal.output.disk path
    → (recovery gob os wal).0 ≢ none
unfolding recovery
recovery-HoldsTwo gob os wal before path after listed h =
    rw (listed, after_list)
      (after_files-failed gob os (before ++ (path ∷ after)) _ wal
        (recover_files-HoldsTwo os wal.output.disk before path after wal.command_hash_table h))
