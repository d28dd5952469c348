-- ===== src/Filesystem/Ready.antt =====
-- The segment before the last step of Segment.Write (segment.go): a file, and room in it.
use in_memory_base.Base.{ℕ, ◌≡◌, refl, ap, ◌∙◌, Bool, true, false, Option, none, some, arith, ◌≢◌}
use in_memory_base.Base.Text.{Text}
use in_memory_base.Base.Errors.{Error, Result, ok, err, failed_file_create}
use in_memory_base.Filesystem.Disk.{Disk, Os, Handle, create_file}
use in_memory_base.Filesystem.Segment.{
  Segment, nil_error, adopt, create, close, get_next_segment, file_or_new, ensure_file, has_no_room,
  next_or_stay, ensure_room,
}
use in_memory_base.Filesystem.Contents.{contents, Exists, create_file-IsNew, contents-create_file}
use in_memory_base.Filesystem.Write.{>>=-ok}

-- The file of a segment, if it has one, is in the directory.
abbrev pub IsThere : Option Handle → Disk → Type 0
IsThere none disk = Unit
IsThere (some file) disk = Exists file.path disk

-- A segment with a file to write to, in a directory where every file still holds what it did.
pub record IsReady (before : Disk) (seg : Segment) (disk : Disk) : Type 0 where
  pub file : Handle
  pub has : seg.file ≡ some file
  pub there : Exists file.path disk
  pub same : (q : Text) → contents q disk ≡ contents q before

pub rebase :
    {before : Disk} {seg : Segment} {disk : Disk} → IsReady before seg disk → IsReady disk seg disk
rebase r = record { file = r.file; has = r.has; there = r.there; same = λ q. refl }

pub based :
    {before : Disk} {seg seg' : Segment} {disk disk' : Disk}
    → IsReady before seg disk
    → IsReady disk seg' disk'
    → IsReady before seg' disk'
based r s = record { file = s.file; has = s.has; there = s.there; same = λ q. s.same q ∙ r.same q }

adopt-ok :
    (wrap : Error → Error) (r : Result Handle) (seg : Segment) (disk : Disk) (file : Handle)
    → (adopt wrap r seg disk).0 ≡ ok file
    → (r ≡ ok file)
      × ((adopt wrap r seg disk).1 ≡ record seg { file = some file; segment_size = 0 })
unfolding adopt
adopt-ok wrap (ok h) seg disk file e = (cc e, cc e)
adopt-ok wrap (err x) seg disk file e = cc e

-- A file that has just been created becomes the segment's.
adopt_created :
    (wrap : Error → Error) (os : Os) (directory mask_name : Text) (seg : Segment) (disk : Disk)
    (file : Handle)
    → (adopt wrap
        (create_file os directory mask_name disk).0
        seg
        (create_file os directory mask_name disk).1).0
      ≡ ok file
    → IsReady disk
        (record seg { file = some file; segment_size = 0 })
        (create_file os directory mask_name disk).1
      × (adopt wrap
            (create_file os directory mask_name disk).0
            seg
            (create_file os directory mask_name disk).1
          ≡ (
            ok file,
            record seg { file = some file; segment_size = 0 },
            (create_file os directory mask_name disk).1,
          ))
adopt_created wrap os directory mask_name seg disk file h =
    let (e, s) =
      adopt-ok wrap (create_file os directory mask_name disk).0 seg
        (create_file os directory mask_name disk).1 file h in
    (
      record {
        file = file;
        has = refl;
        there = (create_file-IsNew os directory mask_name disk file e).there;
        same = contents-create_file os directory mask_name disk;
      },
      rw e (unfold adopt in refl),
    )

module _ (os : Os) (seg : Segment) (disk : Disk) where
  create-IsReady :
      (file : Handle)
      → (create os seg disk).0 ≡ ok file
      → IsReady disk (create os seg disk).1 (create os seg disk).2
        × ((create os seg disk).1 ≡ record seg { file = some file; segment_size = 0 })
  unfolding create
  create-IsReady file h =
      let (r, e) =
        adopt_created (λ _. failed_file_create) os seg.directory seg.mask_name seg disk file h in
      rw e (r, refl)

  get_next_segment-IsReady :
      (file : Handle)
      → (get_next_segment os seg disk).0 ≡ ok file
      → IsReady disk (get_next_segment os seg disk).1 (get_next_segment os seg disk).2
        × ((get_next_segment os seg disk).1 ≡ record seg { file = some file; segment_size = 0 })
  unfolding get_next_segment
  get_next_segment-IsReady file h =
      let (r, e) =
        adopt_created (λ e. e) os seg.directory seg.mask_name (record seg { file = close seg.file })
          disk file h in
      rw e (r, refl)

  IsReady-of :
      (file : Option Handle)
      → seg.file ≡ file
      → file ≢ none
      → IsThere file disk
      → IsReady disk seg disk
  IsReady-of none e ne there = absurd (ne refl)
  IsReady-of (some file) e ne there = record {
    file = file;
    has = e;
    there = there;
    same = λ q. refl;
  }

  file_or_new-IsReady :
      (file : Option Handle)
      → seg.file ≡ file
      → IsThere file disk
      → (file_or_new os file seg disk).0 ≡ ok tt
      → IsReady disk (file_or_new os file seg disk).1 (file_or_new os file seg disk).2
        × ((file_or_new os file seg disk).1.max_segment_size ≡ seg.max_segment_size)
  unfolding file_or_new
  file_or_new-IsReady none e there h =
      let (a, made, eq) = >>=-ok (create os) (λ _. nil_error) seg disk tt h in
      let (r, s) = create-IsReady a made in rw eq (r, ap (λ (x : Segment). x.max_segment_size) s)
  file_or_new-IsReady (some file) e there h = (IsReady-of (some file) e (λ x. cc x) there, refl)

  pub ensure_file-IsReady :
      IsThere seg.file disk
      → (ensure_file os seg disk).0 ≡ ok tt
      → IsReady disk (ensure_file os seg disk).1 (ensure_file os seg disk).2
        × ((ensure_file os seg disk).1.max_segment_size ≡ seg.max_segment_size)
  unfolding ensure_file
  ensure_file-IsReady there h = file_or_new-IsReady seg.file refl there h

  next_or_stay-IsReady :
      (len : ℕ) (full : Bool)
      → has_no_room seg len ≡ full
      → IsReady disk seg disk
      → (next_or_stay os full seg disk).0 ≡ ok tt
      → IsReady disk (next_or_stay os full seg disk).1 (next_or_stay os full seg disk).2
        × ((next_or_stay os full seg disk).1.max_segment_size ≡ seg.max_segment_size)
        × (has_no_room (next_or_stay os full seg disk).1 len ≡ false)
  unfolding next_or_stay
  next_or_stay-IsReady len true e ready h =
      let (a, made, eq) = >>=-ok (get_next_segment os) (λ _. nil_error) seg disk tt h in
      let (r, s) = get_next_segment-IsReady a made in
      rw eq (r, ap (λ (x : Segment). x.max_segment_size) s, rw s (ground arith))
  next_or_stay-IsReady len false e ready h = (ready, refl, e)

  pub ensure_room-IsReady :
      (len : ℕ)
      → IsReady disk seg disk
      → (ensure_room os len seg disk).0 ≡ ok tt
      → IsReady disk (ensure_room os len seg disk).1 (ensure_room os len seg disk).2
        × ((ensure_room os len seg disk).1.max_segment_size ≡ seg.max_segment_size)
        × (has_no_room (ensure_room os len seg disk).1 len ≡ false)
  unfolding ensure_room
  ensure_room-IsReady len ready h = next_or_stay-IsReady len (has_no_room seg len) refl ready h
