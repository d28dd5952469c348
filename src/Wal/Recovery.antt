-- ===== src/Wal/Recovery.antt =====
-- Wal.Recovery of wal.go.
use in_memory_base.Base.{true, false, List, [], ◌∷◌, Option, none, some, if◌then◌else◌}
use in_memory_base.Base.Int.{ℤ}
use in_memory_base.Base.Text.{Text}
use in_memory_base.Base.Sort.{sort_by}
use in_memory_base.Base.Errors.{
  Error, Result, ok, err, failed_to_read_directory, failed_open_last_segment, failed_decode,
}
use in_memory_base.Filesystem.Disk.{Disk, Os, Handle, read_file, get_file_list}
use in_memory_base.Filesystem.Segment.{Segment, create, set_file}
use in_memory_base.HashTable.{HashTable}
use in_memory_base.Wal.Log.{Log, Message, Gob, decode_all}
use in_memory_base.Wal.Writer.{or_else}
use in_memory_base.Wal.Apply.{apply_or_fail}
use in_memory_base.Wal.Batch.{Wal}

abbrev pub by_lsn : Log → ℤ
by_lsn log = log.lsn

-- The records of one segment file, sorted and applied.
unfoldable pub apply_decoded : Option (List Log) → HashTable → Option Error × HashTable
apply_decoded none table = (some failed_decode, table)
apply_decoded (some logs) table = apply_or_fail (sort_by by_lsn logs) table

unfoldable pub recover_data : Result (List Message) → HashTable → Option Error × HashTable
recover_data (err e) table = (some e, table)
recover_data (ok messages) table = apply_decoded (decode_all false messages) table

-- The loop over the files: the first error ends it.
unfoldable pub recover_files : Os → Disk → List Text → HashTable → Option Error × HashTable
recover_files os disk [] table = (none, table)
recover_files os disk (path ∷ paths) table =
    let (e, table') = recover_data (read_file os path disk) table in
    let rest = recover_files os disk paths table' in or_else e (e, table') rest

abbrev last : Text → List Text → Text
last path [] = path
last path (next ∷ paths) = last next paths

-- `wal.walWriter.segment.SetFile(file)`. The reader and the writer share their segment.
install : Gob → Os → Handle → Segment → Disk → Wal → Option Error × Wal
install gob os file segment disk wal = (
  none,
  record wal {
    output = record wal.output { segment = set_file gob os (some file) segment disk; disk = disk };
  },
)

-- No segment yet: CreateFile.
adopt_first : Gob → Os → Result Handle × Segment × Disk → Wal → Option Error × Wal
adopt_first gob os (err e, segment, disk) wal =
    (some e, record wal { output = record wal.output { segment = segment; disk = disk } })
adopt_first gob os (ok file, segment, disk) wal = install gob os file segment disk wal

-- os.OpenFile of the last segment, for append.
open_last : Gob → Os → Text → Wal → Option Error × Wal
open_last gob os path wal =
    if os.opens
    then install gob os (record { path = path; is_open = true }) wal.output.segment wal.output.disk
        wal
    else (some failed_open_last_segment, wal)

open_segment : Gob → Os → List Text → Wal → Option Error × Wal
open_segment gob os [] wal = adopt_first gob os (create os wal.output.segment wal.output.disk) wal
open_segment gob os (path ∷ paths) wal = open_last gob os (last path paths) wal

unfoldable pub after_files :
    Gob → Os → List Text → Option Error × HashTable → Wal → Option Error × Wal
unfolding open_segment open_last adopt_first install
after_files gob os paths (some e, table) wal = (some e, record wal { command_hash_table = table })
after_files gob os paths (none, table) wal =
    open_segment gob os paths (record wal { command_hash_table = table })

unfoldable pub after_list : Gob → Os → Result (List Text) → Wal → Option Error × Wal
unfolding after_files
after_list gob os (err e) wal = (some failed_to_read_directory, wal)
after_list gob os (ok paths) wal =
    after_files gob os paths (recover_files os wal.output.disk paths wal.command_hash_table) wal

-- Wal.Recovery
unfoldable pub recovery : Gob → Os → Wal → Option Error × Wal
unfolding after_list
recovery gob os wal = after_list gob os (get_file_list os wal.output.disk) wal
