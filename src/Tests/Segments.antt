-- ===== src/Tests/Segments.antt =====
-- The order of the segments at concrete times.
use mathlib.Core.List.{Perm}
use in_memory_base.Base.{ℕ, ◌≡◌, refl, true, false, List, [], ◌∷◌, ◌++◌, map, arith}
use in_memory_base.Base.Int.{pos}
use in_memory_base.Base.Text.{runes, text_eq}
use in_memory_base.Base.Decimal.{digits}
use in_memory_base.Base.Errors.{ok}
use in_memory_base.Base.Sort.{sort_by, IsAscending}
use in_memory_base.Filesystem.Disk.{
  Disk, Os, File, Handle, find_file, create_file, open_exclusive, regular_paths, get_file_list,
}
use in_memory_base.Filesystem.Names.{segment_path}
use in_memory_base.Filesystem.Chronology.{get_file_list-create_file}
use in_memory_base.Tests.Data.{os}

-- Two segments, the later one first, and a directory.
abbrev nanos : List ℕ
nanos = 1700000000000000010 ∷ 1700000000000000009 ∷ []

abbrev file_at : ℕ → File
file_at nano = record {
  path = segment_path (runes "wal") (runes "wal_") nano;
  is_dir = false;
  contents = [];
}

abbrev archive : File
archive = record { path = runes "wal/archive"; is_dir = true; contents = [] }

abbrev disk : Disk
disk = record { files = file_at 1700000000000000010 ∷ archive ∷ file_at 1700000000000000009 ∷ [] }

abbrev at_time : Os
at_time = record os { unix_nano = 1700000000000000100 }

abbrev made : Handle
made = record {
  path = segment_path (runes "wal") (runes "wal_") 1700000000000000100;
  is_open = true;
}

named : regular_paths disk.files ≡ map (segment_path (runes "wal") (runes "wal_")) nanos
unfolding regular_paths
named = refl

created : (create_file at_time (runes "wal") (runes "wal_") disk).0 ≡ ok made
unfolding create_file open_exclusive find_file text_eq digits
created = refl

get_file_list-create_file_example :
    (get_file_list os (create_file at_time (runes "wal") (runes "wal_") disk).1
      ≡ ok
          (map (segment_path (runes "wal") (runes "wal_")) (sort_by pos nanos) ++ (made.path ∷ [])))
    × IsAscending pos (sort_by pos nanos)
    × Perm (sort_by pos nanos) nanos
get_file_list-create_file_example =
    get_file_list-create_file at_time os (runes "wal") (runes "wal_") disk nanos made named
      ((omega arith, omega arith), ((omega arith, omega arith), tt)) (omega arith, omega arith)
      (omega arith, (omega arith, tt)) created refl
