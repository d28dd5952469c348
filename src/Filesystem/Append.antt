-- ===== src/Filesystem/Append.antt =====
-- What Segment.Write (segment.go) has done when it returns nil, and when a rotation has failed.
use mathlib.Core.Path.{subst}
use in_memory_base.Base.{
  ℕ, ◌+◌, ◌≡◌, refl, ap, sym, ◌∙◌, ◌⊎◌, true, false, ◌&&◌, List, ◌++◌, some, arith, if◌then◌else◌,
  ltb,
}
use in_memory_base.Base.Int.{ℤ, pos, ltb_ℤ, ◌≤ℤ◌}
use in_memory_base.Base.Text.{Text, text_eq}
use in_memory_base.Base.Errors.{Result, ok, err}
use in_memory_base.Wal.Log.{Message, Gob, bytes_of}
use in_memory_base.Filesystem.Disk.{Disk, Os, Handle, write_file}
use in_memory_base.Filesystem.Segment.{
  Segment, ◌>>◌, ensure_file, has_no_room, ensure_room, account, store_to, store, write,
}
use in_memory_base.Filesystem.Contents.{contents, Exists}
use in_memory_base.Filesystem.Landed.{write_file-ok, write_file-Extends}
use in_memory_base.Filesystem.Write.{>>=-ok, account_disk}
use in_memory_base.Filesystem.Ready.{
  IsThere, IsReady, rebase, based, ensure_file-IsReady, ensure_room-IsReady,
}

-- What a successful write leaves: the data at the end of the segment's file, which the segment
-- still has, every other file as it was, and a size within the limit, if there is a limit, unless
-- the data alone is larger.
pub record HasWritten (len : ℕ) (data_in : List Message) (limit : ℤ) (before : Disk) (seg : Segment)
    (disk : Disk) : Type 0 where
  pub file : Handle
  pub has : seg.file ≡ some file
  pub there : Exists file.path disk
  pub holds :
      (q : Text)
      → contents q disk
        ≡ (if text_eq file.path q then contents q before ++ data_in else contents q before)
  pub bounded :
      ltb_ℤ (pos 0) limit ≡ true → (seg.segment_size ≡ len) ⊎ (pos seg.segment_size ≤ℤ limit)

pub account-ok :
    (r : Result ℕ) (seg : Segment) (disk : Disk)
    → (account r seg disk).0 ≡ ok tt
    → (n : ℕ) × (r ≡ ok n)
      × ((account r seg disk).1 ≡ record seg { segment_size = seg.segment_size + n })
unfolding account
account-ok (ok n) seg disk h = (n, refl, refl)
account-ok (err e) seg disk h = cc h

size_bound :
    (size len : ℕ) (limit : ℤ)
    → ltb_ℤ (pos 0) limit && ltb 0 size && ltb_ℤ limit (pos (size + len)) ≡ false
    → ltb_ℤ (pos 0) limit ≡ true
    → (size + len ≡ len) ⊎ (pos (size + len) ≤ℤ limit)
size_bound size len limit room h = ground arith

module _ (gob : Gob) (os : Os) (data_in : List Message) where
  store_to-HasWritten :
      (before : Disk) (seg : Segment) (disk : Disk) (file : Handle)
      → seg.file ≡ some file
      → Exists file.path disk
      → ((q : Text) → contents q disk ≡ contents q before)
      → has_no_room seg (bytes_of gob data_in) ≡ false
      → (store_to gob os data_in (some file) seg disk).0 ≡ ok tt
      → HasWritten
          (bytes_of gob data_in)
          data_in
          seg.max_segment_size
          before
          (store_to gob os data_in (some file) seg disk).1
          (store_to gob os data_in (some file) seg disk).2
  unfolding store_to
  store_to-HasWritten before seg disk file has there same room h =
      let (r, disk') = write_file gob os file data_in disk in
      let (n, e, s) = account-ok (write_file gob os file data_in disk).0 seg disk' h in
      let (len, holds) = write_file-ok gob os file data_in disk n there e in
      rw (account_disk (write_file gob os file data_in disk).0 seg disk', s, len)
        (record {
          file = file;
          has = has;
          there = (write_file-Extends gob os file data_in disk).keeps file.path there;
          holds = λ q.
              holds q
              ∙ ap (λ (l : List Message). if text_eq file.path q then l ++ data_in else l) (same q);
          bounded = size_bound seg.segment_size (bytes_of gob data_in) seg.max_segment_size room;
        })

  store-HasWritten :
      (before : Disk) (seg : Segment) (disk : Disk)
      → IsReady before seg disk
      → has_no_room seg (bytes_of gob data_in) ≡ false
      → (store gob os data_in seg disk).0 ≡ ok tt
      → HasWritten
          (bytes_of gob data_in)
          data_in
          seg.max_segment_size
          before
          (store gob os data_in seg disk).1
          (store gob os data_in seg disk).2
  unfolding store
  store-HasWritten before seg disk ready room h =
      subst
        (λ o.
          HasWritten (bytes_of gob data_in) data_in seg.max_segment_size before
            (store_to gob os data_in o seg disk).1 (store_to gob os data_in o seg disk).2)
        (sym ready.has)
        (store_to-HasWritten before seg disk ready.file ready.has ready.there ready.same room
          (subst (λ o. (store_to gob os data_in o seg disk).0 ≡ ok tt) ready.has h))

  abbrev Written : ℤ → Disk → Result (Unit {0}) × Segment × Disk → Type 0
  Written limit before (r, seg, disk) =
      HasWritten (bytes_of gob data_in) data_in limit before seg disk

  room_store-Written :
      (before : Disk) (seg : Segment) (disk : Disk)
      → IsReady before seg disk
      → ((ensure_room os (bytes_of gob data_in) >> store gob os data_in) seg disk).0 ≡ ok tt
      → Written seg.max_segment_size before
          ((ensure_room os (bytes_of gob data_in) >> store gob os data_in) seg disk)
  room_store-Written before seg disk ready h =
      let len = bytes_of gob data_in in
      let (a, made, eq) = >>=-ok (ensure_room os len) (λ _. store gob os data_in) seg disk tt h in
      let (next, limit, room) = ensure_room-IsReady os seg disk len (rebase ready) made in
      let ready' = based ready next in
      subst (Written seg.max_segment_size before) (sym eq) (
        subst
          (λ max.
            Written max before (
              store gob os data_in (ensure_room os len seg disk).1 (ensure_room os len seg disk).2))
          limit
          (store-HasWritten before (ensure_room os len seg disk).1 (ensure_room os len seg disk).2
            ready' room (ap (λ (r : Result (Unit {0}) × Segment × Disk). r.0) (sym eq) ∙ h)))

  -- When Segment.Write returns nil, the data stands at the end of the file of the segment, every
  -- other file holds what it held, and the size of the segment is within MaxSegmentSize, if that
  -- is positive, unless the data alone is larger. The file that the segment had, if any, was in
  -- the directory.
  pub write-HasWritten :
      (seg : Segment) (disk : Disk)
      → IsThere seg.file disk
      → (write gob os data_in seg disk).0 ≡ ok tt
      → HasWritten
          (bytes_of gob data_in)
          data_in
          seg.max_segment_size
          disk
          (write gob os data_in seg disk).1
          (write gob os data_in seg disk).2
  unfolding write
  write-HasWritten seg disk there h =
      let rest = ensure_room os (bytes_of gob data_in) >> store gob os data_in in
      let (a, made, eq) = >>=-ok (ensure_file os) (λ _. rest) seg disk tt h in
      let (ready, limit) = ensure_file-IsReady os seg disk there made in
      subst (Written seg.max_segment_size disk) (sym eq) (
        subst
          (λ max. Written max disk (rest (ensure_file os seg disk).1 (ensure_file os seg disk).2))
          limit
          (room_store-Written disk (ensure_file os seg disk).1 (ensure_file os seg disk).2 ready
            (ap (λ (r : Result (Unit {0}) × Segment × Disk). r.0) (sym eq) ∙ h)))
