-- ===== src/Filesystem/Rotation.antt =====
-- A rotation that fails (getNextSegment of segment.go) leaves the segment with a closed file.
use in_memory_base.Base.{ℕ, ◌≡◌, refl, Bool, true, false, List, some}
use in_memory_base.Base.Int.{ℤ}
use in_memory_base.Base.Text.{Text}
use in_memory_base.Base.Errors.{err, io, failed_save_file}
use in_memory_base.Wal.Log.{Message, Gob, bytes_of}
use in_memory_base.Filesystem.Disk.{Disk, Os, open_exclusive, create_file, land, write_file}
use in_memory_base.Filesystem.Segment.{
  Segment, adopt, close, get_next_segment, file_or_new, ensure_file, has_no_room, next_or_stay,
  ensure_room, account, store_to, store, write,
}

module _ (gob : Gob) (directory mask_name : Text) (size : ℕ) (limit : ℤ) (path : Text)
    (disk : Disk) where
  -- A segment whose file is open, and the same one with the file closed.
  abbrev pub segment_with : Bool → Segment
  segment_with is_open = record {
    file = some (record { path = path; is_open = is_open });
    directory = directory;
    mask_name = mask_name;
    segment_size = size;
    max_segment_size = limit;
  }

  -- Where a batch has no room and no file can be created, the write fails, and the segment keeps
  -- its file, now closed, and its size.
  write_failed_rotation :
      (os : Os) (is_open : Bool) (data_in : List Message)
      → has_no_room (segment_with is_open) (bytes_of gob data_in) ≡ true
      → os.creates ≡ false
      → write gob os data_in (segment_with is_open) disk ≡ (err io, segment_with false, disk)
  unfolding write ensure_file file_or_new ensure_room next_or_stay get_next_segment create_file
      open_exclusive adopt close
  write_failed_rotation os is_open data_in full fails = rw (full, fails)

  -- After that every batch that has room is refused, whatever the system answers from then on:
  -- nothing is written, and the segment stays as it is.
  write_closed :
      (os : Os) (data_in : List Message)
      → has_no_room (segment_with false) (bytes_of gob data_in) ≡ false
      → write gob os data_in (segment_with false) disk
        ≡ (err failed_save_file, segment_with false, disk)
  unfolding write ensure_file file_or_new ensure_room next_or_stay store store_to write_file land
      account
  write_closed os data_in room = rw room

  -- A batch that has no room, where the next file cannot be created, is refused with the error of
  -- the system; from then on every batch that has room is refused too, though the system may
  -- answer every call, and nothing is written. (`later_os` and `later` are any such call.)
  pub write_after_failed_rotation :
      (os : Os) (is_open : Bool) (data_in : List Message) (later_os : Os) (later : List Message)
      → has_no_room (segment_with is_open) (bytes_of gob data_in) ≡ true
      → os.creates ≡ false
      → has_no_room (segment_with false) (bytes_of gob later) ≡ false
      → (write gob os data_in (segment_with is_open) disk).0 ≡ err io
        × (write gob later_os later
              (write gob os data_in (segment_with is_open) disk).1
              (write gob os data_in (segment_with is_open) disk).2
            ≡ (err failed_save_file, segment_with false, disk))
  write_after_failed_rotation os is_open data_in later_os later full fails room =
      let e = write_failed_rotation os is_open data_in full fails in
      rw e (refl, write_closed later_os later room)
