-- ===== src/Wal/Restart.antt =====
-- Two flushes into one segment (segment.go, wal_writer.go), and the Recovery after them (wal.go).
use mathlib.Core.Path.{subst}
use in_memory_base.Base.{
  ℕ, ◌≡◌, ◌≢◌, refl, ap, sym, ◌∙◌, true, false, List, [], ◌∷◌, ◌++◌, none, some, append-nil,
}
use in_memory_base.Base.Text.{Text, text_eq_refl}
use in_memory_base.Base.Errors.{Result, ok}
use in_memory_base.Filesystem.Disk.{Disk, Os, Handle, write_file, read_file, get_file_list}
use in_memory_base.Filesystem.Segment.{
  Segment, file_or_new, ensure_file, has_no_room, next_or_stay, ensure_room, store_to, store, write,
}
use in_memory_base.Filesystem.Contents.{contents, Exists}
use in_memory_base.Filesystem.Landed.{write_file-ok, write_file-Extends}
use in_memory_base.Filesystem.Write.{account_disk}
use in_memory_base.Filesystem.Append.{account-ok}
use in_memory_base.Wal.Log.{Log, Message, Gob, bytes_of}
use in_memory_base.Wal.Stream.{stream}
use in_memory_base.Wal.Batch.{Wal}
use in_memory_base.Wal.Recovery.{recovery}
use in_memory_base.Wal.Replay.{HoldsTwo, recovery-HoldsTwo}

module _ (os : Os) (seg : Segment) (disk : Disk) where
  ensure_file-some :
      (file : Handle) → seg.file ≡ some file → ensure_file os seg disk ≡ (ok tt, seg, disk)
  unfolding ensure_file file_or_new
  ensure_file-some file has =
      subst (λ o. file_or_new os o seg disk ≡ (ok tt, seg, disk)) (sym has) refl

  ensure_room_room :
      (len : ℕ) → has_no_room seg len ≡ false → ensure_room os len seg disk ≡ (ok tt, seg, disk)
  unfolding ensure_room next_or_stay
  ensure_room_room len room = rw room

-- With a file and room in it, Write is its last step.
write-store_to :
    (gob : Gob) (os : Os) (data_in : List Message) (seg : Segment) (disk : Disk) (file : Handle)
    → seg.file ≡ some file
    → has_no_room seg (bytes_of gob data_in) ≡ false
    → write gob os data_in seg disk ≡ store_to gob os data_in (some file) seg disk
unfolding write store
write-store_to gob os data_in seg disk file has room =
    rw
      (
        ensure_file-some os seg disk file has,
        ensure_room_room os seg disk (bytes_of gob data_in) room,
      )
      (subst
        (λ o. store_to gob os data_in o seg disk ≡ store_to gob os data_in (some file) seg disk)
        (sym has) refl)

read_file-contents :
    (os : Os) (path : Text) (disk : Disk)
    → os.reads path ≡ true
    → Exists path disk
    → read_file os path disk ≡ ok (contents path disk)
unfolding read_file
read_file-contents os path disk r (f, e) = rw (r, e)

module _ (gob : Gob) (os : Os) (first : Log) (logs : List Log) (second : Log) (more : List Log)
    (seg : Segment) (disk : Disk) (file : Handle) where
  abbrev pub after : Result (Unit {0}) × Segment × Disk
  after = write gob os (stream (second ∷ more)) seg disk

  second_write-HoldsTwo :
      (later : Os)
      → seg.file ≡ some file
      → Exists file.path disk
      → contents file.path disk ≡ stream (first ∷ logs)
      → has_no_room seg (bytes_of gob (stream (second ∷ more))) ≡ false
      → after.0 ≡ ok tt
      → later.reads file.path ≡ true
      → HoldsTwo later after.2 file.path
  unfolding store_to
  second_write-HoldsTwo later has there holds room h r =
      let data_in = stream (second ∷ more) in
      let e = write-store_to gob os data_in seg disk file has room in
      let disk' = (write_file gob os file data_in disk).1 in
      let (n, wrote, _) =
        account-ok (write_file gob os file data_in disk).0 seg disk' (rw e at h) in
      let (_, now) = write_file-ok gob os file data_in disk n there wrote in
      let kept = (write_file-Extends gob os file data_in disk).keeps file.path there in
      rw (e, account_disk (write_file gob os file data_in disk).0 seg disk')
        (record {
          first = first;
          logs = logs;
          second = second;
          more = more;
          rest = [];
          data_in =
              read_file-contents later file.path disk' r kept
              ∙ ap ok (now file.path ∙ rw (text_eq_refl file.path, holds, append-nil));
        })

  -- A segment that holds one batch and takes another, without a rotation in between, can never be
  -- recovered: a later Recovery over a directory that lists the file fails, whatever the first and
  -- the second batch are (neither is empty), and whatever other files there are.
  pub recovery_after_second_write :
      (later : Os) (wal : Wal) (before rest : List Text)
      → seg.file ≡ some file
      → Exists file.path disk
      → contents file.path disk ≡ stream (first ∷ logs)
      → has_no_room seg (bytes_of gob (stream (second ∷ more))) ≡ false
      → after.0 ≡ ok tt
      → later.reads file.path ≡ true
      → wal.output.disk ≡ after.2
      → get_file_list later wal.output.disk ≡ ok (before ++ (file.path ∷ rest))
      → (recovery gob later wal).0 ≢ none
  recovery_after_second_write later wal before rest has there holds room h r same listed =
      recovery-HoldsTwo gob later wal before file.path rest listed (
        subst (λ d. HoldsTwo later d file.path) (sym same)
          (second_write-HoldsTwo later has there holds room h r))
