-- ===== src/Filesystem/Segment.antt =====
-- segment.go: the segment that is written to. Logging is left out.
use in_memory_base.Base.{
  ℕ, ◌+◌, Bool, true, false, ◌&&◌, List, Option, none, some, ltb, if◌then◌else◌,
}
use in_memory_base.Base.Int.{ℤ, pos, ltb_ℤ}
use in_memory_base.Base.Text.{Text}
use in_memory_base.Base.Errors.{Error, Result, ok, err, failed_save_file, failed_file_create}
use in_memory_base.Wal.Log.{Message, Gob, bytes_of}
use in_memory_base.Filesystem.Disk.{
  Disk, Os, Handle, find_file, create_file, write_file, read_file, get_file_list,
}

pub record Segment : Type 0 where
  pub file : Option Handle
  pub directory : Text
  pub mask_name : Text
  pub segment_size : ℕ
  pub max_segment_size : ℤ

-- NewSegment
abbrev pub new_segment : Text → Text → ℤ → Segment
new_segment directory mask_name max_segment_size = record {
  file = none;
  directory = directory;
  mask_name = mask_name;
  segment_size = 0;
  max_segment_size = max_segment_size;
}

-- A method: it returns a value or an error, and leaves the segment and the disk as they are then.
abbrev pub Method : Type 0 → Type 0
Method A = Segment → Disk → Result A × Segment × Disk

abbrev pub continue : {A B : Type 0} → Result A → (A → Method B) → Method B
continue (ok a) f seg disk = f a seg disk
continue (err e) f seg disk = (err e, seg, disk)

infixl 5 ◌>>=◌ ◌>>◌
abbrev pub ◌>>=◌ : {A B : Type 0} → Method A → (A → Method B) → Method B
◌>>=◌ m f seg disk = let (r, seg', disk') = m seg disk in continue r f seg' disk'

abbrev pub ◌>>◌ : {A B : Type 0} → Method A → Method B → Method B
m >> n = m >>= λ _. n

-- A new file becomes the target of the writes; on an error the segment stays as it is.
unfoldable pub adopt :
    (Error → Error) → Result Handle → Segment → Disk → Result Handle × Segment × Disk
adopt wrap (ok file) seg disk = (ok file, record seg { file = some file; segment_size = 0 }, disk)
adopt wrap (err e) seg disk = (err (wrap e), seg, disk)

-- Segment.CreateFile
unfoldable pub create : Os → Method Handle
unfolding adopt
create os seg disk =
    let (r, disk') = create_file os seg.directory seg.mask_name disk in
    adopt (λ _. failed_file_create) r seg disk'

-- Segment.Read and Segment.GetList
abbrev pub read : Os → Text → Disk → Result (List Message)
read = read_file

abbrev pub get_list : Os → Disk → Result (List Text)
get_list = get_file_list

-- `seg.file.Close()`: whatever it answers, the file is closed.
unfoldable pub close : Option Handle → Option Handle
close none = none
close (some file) = some (record file { is_open = false })

-- Segment.getNextSegment: the error of CreateFile is passed on as it is, and the segment then
-- still holds the file that was closed.
unfoldable pub get_next_segment : Os → Method Handle
unfolding adopt close
get_next_segment os seg disk =
    let (r, disk') = create_file os seg.directory seg.mask_name disk in
    adopt (λ e. e) r (record seg { file = close seg.file }) disk'

-- The first two steps of Segment.Write: a file if there is none, and the next one if there is no
-- room in this one.
-- `return nil`
abbrev pub nil_error : Method (Unit {0})
nil_error seg disk = (ok tt, seg, disk)

unfoldable pub file_or_new : Os → Option Handle → Method (Unit {0})
file_or_new os none = create os >>= λ _. nil_error
file_or_new os (some file) = nil_error

unfoldable pub ensure_file : Os → Method (Unit {0})
ensure_file os seg disk = file_or_new os seg.file seg disk

-- `segmentSize + int64(len(data)) > maxSegmentSize`, where the segment is not empty.
abbrev pub has_no_room : Segment → ℕ → Bool
has_no_room seg len =
    ltb_ℤ (pos 0) seg.max_segment_size
    && ltb 0 seg.segment_size
    && ltb_ℤ seg.max_segment_size (pos (seg.segment_size + len))

unfoldable pub next_or_stay : Os → Bool → Method (Unit {0})
next_or_stay os true = get_next_segment os >>= λ _. nil_error
next_or_stay os false = nil_error

unfoldable pub ensure_room : Os → ℕ → Method (Unit {0})
ensure_room os len seg disk = next_or_stay os (has_no_room seg len) seg disk

-- The last step: WriteFile, and the size.
unfoldable pub account : Result ℕ → Segment → Disk → Result (Unit {0}) × Segment × Disk
account (ok written_bytes) seg disk =
    (ok tt, record seg { segment_size = seg.segment_size + written_bytes }, disk)
account (err e) seg disk = (err failed_save_file, seg, disk)

unfoldable pub store_to : Gob → Os → List Message → Option Handle → Method (Unit {0})
store_to gob os data_in none seg disk = (err failed_save_file, seg, disk)
store_to gob os data_in (some file) seg disk =
    let (r, disk') = write_file gob os file data_in disk in account r seg disk'

unfoldable pub store : Gob → Os → List Message → Method (Unit {0})
unfolding store_to account
store gob os data_in seg disk = store_to gob os data_in seg.file seg disk

-- Segment.Write
unfoldable pub write : Gob → Os → List Message → Method (Unit {0})
write gob os data_in = do
  ensure_file os
  ensure_room os (bytes_of gob data_in)
  store gob os data_in

-- Segment.SetFile: the size is that of the file, or 0 if Stat fails or the file is not there.
unfoldable pub set_file : Gob → Os → Option Handle → Segment → Disk → Segment
set_file gob os none seg disk = record seg { file = none; segment_size = 0 }
set_file gob os (some file) seg disk = record seg {
  file = some file;
  segment_size =
      if os.stats
      then elim (find_file file.path disk.files) [ none ↦ 0 | some f ↦ bytes_of gob f.contents ]
      else 0;
}
