-- ===== src/Tests/Filesystem.antt =====
-- The theorems of the segments at concrete inputs.
use in_memory_base.Base.{◌≡◌, refl, true, false, List, [], ◌∷◌, some}
use in_memory_base.Base.Int.{pos}
use in_memory_base.Base.Text.{runes, text_eq}
use in_memory_base.Base.Errors.{ok, err, io, failed_save_file}
use in_memory_base.Filesystem.Disk.{Os, find_file, create_file, open_exclusive, write_file, land}
use in_memory_base.Filesystem.Segment.{
  Segment, write, adopt, create, ensure_file, file_or_new, ensure_room, next_or_stay, store,
  store_to, account,
}
use in_memory_base.Filesystem.Contents.{Exists, Extends}
use in_memory_base.Filesystem.Write.{write-Extends}
use in_memory_base.Filesystem.Append.{HasWritten, write-HasWritten}
use in_memory_base.Filesystem.Rotation.{segment_with, write_after_failed_rotation}
use in_memory_base.Wal.Log.{Message, type_definition, value, bytes_of}
use in_memory_base.Tests.Data.{
  gob, os, segment, empty_disk, first, second, path, used_segment, used_disk,
}

abbrev data_in : List Message
data_in = type_definition ∷ value first ∷ []

-- The first write makes a file.
write_first : (write gob os data_in segment empty_disk).0 ≡ ok tt
unfolding write ensure_file file_or_new create create_file open_exclusive adopt ensure_room
    next_or_stay store store_to account write_file land find_file bytes_of
write_first = refl

write-HasWritten_example :
    HasWritten
      (bytes_of gob data_in)
      data_in
      (pos 100)
      empty_disk
      (write gob os data_in segment empty_disk).1
      (write gob os data_in segment empty_disk).2
write-HasWritten_example = write-HasWritten gob os data_in segment empty_disk tt write_first

write-Extends_example :
    Extends (used_disk data_in) (write gob os data_in used_segment (used_disk data_in)).2
write-Extends_example = write-Extends gob os data_in used_segment (used_disk data_in)

file_there : Exists path (used_disk data_in)
unfolding find_file text_eq
file_there = (_, refl)

abbrev full_os : Os
full_os = record os { creates = false }

-- Of 100 bytes 75 are taken: three messages have no room, and one has.
abbrev large : List Message
large = type_definition ∷ value first ∷ value second ∷ []

abbrev small : List Message
small = type_definition ∷ []

abbrev nearly_full : Segment
nearly_full =
    segment_with gob (runes "wal") (runes "segment_") 75 (pos 100) path (used_disk data_in) true

write_after_failed_rotation_example :
    ((write gob full_os large nearly_full (used_disk data_in)).0 ≡ err io)
    × (write gob os small
          (write gob full_os large nearly_full (used_disk data_in)).1
          (write gob full_os large nearly_full (used_disk data_in)).2
        ≡ (
          err failed_save_file,
          record nearly_full { file = some (record { path = path; is_open = false }) },
          used_disk data_in,
        ))
write_after_failed_rotation_example =
    write_after_failed_rotation gob (runes "wal") (runes "segment_") 75 (pos 100) path
      (used_disk data_in) full_os true large os small (unfold bytes_of in refl) refl
      (unfold bytes_of in refl)
