-- ===== src/Filesystem/There.antt =====
-- The file of a segment stays in the directory, whether Segment.Write (segment.go) succeeds or not.
use in_memory_base.Base.{ℕ, ◌≡◌, refl, Bool, true, false, List, Option, none, some, inl, inr}
use in_memory_base.Base.Text.{Text}
use in_memory_base.Base.Errors.{Error, Result, Result-cases, ok, err}
use in_memory_base.Wal.Log.{Message, Gob, bytes_of}
use in_memory_base.Filesystem.Disk.{Disk, Os, Handle, create_file}
use in_memory_base.Filesystem.Segment.{
  Segment, Method, ◌>>=◌, nil_error, adopt, create, close, get_next_segment, file_or_new,
  ensure_file, has_no_room, next_or_stay, ensure_room, account, store_to, store, write,
}
use in_memory_base.Filesystem.Contents.{Exists, Extends, create_file-Extends, create_file-IsNew}
use in_memory_base.Filesystem.Landed.{write_file-Extends}
use in_memory_base.Filesystem.Write.{account_disk}
use in_memory_base.Filesystem.Ready.{IsThere}

IsThere-Extends :
    (file : Option Handle) {a b : Disk} → Extends a b → IsThere file a → IsThere file b
IsThere-Extends none x h = tt
IsThere-Extends (some file) x h = x.keeps file.path h

IsThere-close : (file : Option Handle) (disk : Disk) → IsThere file disk → IsThere (close file) disk
unfolding close
IsThere-close none disk h = tt
IsThere-close (some file) disk h = h

abbrev Keeps : {A : Type 0} → Method A → Type 0
Keeps m =
    (seg : Segment) (disk : Disk)
    → IsThere seg.file disk
    → IsThere (m seg disk).1.file (m seg disk).2

Keeps-bind :
    {A B : Type 0} (m : Method A) (f : A → Method B)
    → Keeps m
    → ((a : A) → Keeps (f a))
    → Keeps (m >>= f)
Keeps-bind m f km kf seg disk h = elim (Result-cases (m seg disk).0) [
  | inl (a, e) ↦ rw e (kf a (m seg disk).1 (m seg disk).2 (km seg disk h))
  | inr (x, e) ↦ rw e (km seg disk h)
]

Keeps-nil_error : Keeps nil_error
Keeps-nil_error seg disk h = h

adopt-IsThere :
    (wrap : Error → Error) (r : Result Handle) (seg : Segment) (disk : Disk)
    → ((file : Handle) → r ≡ ok file → Exists file.path disk)
    → IsThere seg.file disk
    → IsThere (adopt wrap r seg disk).1.file (adopt wrap r seg disk).2
unfolding adopt
adopt-IsThere wrap (ok file) seg disk new h = new file refl
adopt-IsThere wrap (err e) seg disk new h = h

created :
    (os : Os) (directory mask_name : Text) (disk : Disk) (file : Handle)
    → (create_file os directory mask_name disk).0 ≡ ok file
    → Exists file.path (create_file os directory mask_name disk).1
created os directory mask_name disk file e =
    (create_file-IsNew os directory mask_name disk file e).there

Keeps-create : (os : Os) → Keeps (create os)
unfolding create
Keeps-create os seg disk h =
    adopt-IsThere _ (create_file os seg.directory seg.mask_name disk).0 seg
      (create_file os seg.directory seg.mask_name disk).1
      (created os seg.directory seg.mask_name disk)
      (IsThere-Extends seg.file (create_file-Extends os seg.directory seg.mask_name disk) h)

Keeps-get_next_segment : (os : Os) → Keeps (get_next_segment os)
unfolding get_next_segment
Keeps-get_next_segment os seg disk h =
    adopt-IsThere (λ e. e) (create_file os seg.directory seg.mask_name disk).0
      (record seg { file = close seg.file }) (create_file os seg.directory seg.mask_name disk).1
      (created os seg.directory seg.mask_name disk)
      (IsThere-close seg.file _
        (IsThere-Extends seg.file (create_file-Extends os seg.directory seg.mask_name disk) h))

Keeps-ensure_file : (os : Os) → Keeps (ensure_file os)
unfolding ensure_file
Keeps-ensure_file os seg disk h = go seg.file
  where
    go :
        (file : Option Handle)
        → IsThere (file_or_new os file seg disk).1.file (file_or_new os file seg disk).2
    go none =
        unfold file_or_new in
        Keeps-bind (create os) _ (Keeps-create os) (λ _. Keeps-nil_error) seg disk h
    go (some file) = unfold file_or_new in h

Keeps-next_or_stay : (os : Os) (full : Bool) → Keeps (next_or_stay os full)
unfolding next_or_stay
Keeps-next_or_stay os true =
    Keeps-bind (get_next_segment os) _ (Keeps-get_next_segment os) (λ _. Keeps-nil_error)
Keeps-next_or_stay os false = Keeps-nil_error

Keeps-ensure_room : (os : Os) (len : ℕ) → Keeps (ensure_room os len)
unfolding ensure_room
Keeps-ensure_room os len seg disk h = Keeps-next_or_stay os (has_no_room seg len) seg disk h

account_file : (r : Result ℕ) (seg : Segment) (disk : Disk) → (account r seg disk).1.file ≡ seg.file
unfolding account
account_file (ok n) seg disk = refl
account_file (err e) seg disk = refl

Keeps-store : (gob : Gob) (os : Os) (data_in : List Message) → Keeps (store gob os data_in)
unfolding store
Keeps-store gob os data_in seg disk h = go seg.file
  where
    go :
        (file : Option Handle)
        → IsThere
            (store_to gob os data_in file seg disk).1.file
            (store_to gob os data_in file seg disk).2
    go none = unfold store_to in h
    go (some file) =
        unfold store_to in
        rw (account_file, account_disk)
          (IsThere-Extends seg.file (write_file-Extends gob os file data_in disk) h)

-- After Segment.Write, whatever the system answers, the segment's file, if it has one, is in the
-- directory, if it was so before.
pub write-IsThere : (gob : Gob) (os : Os) (data_in : List Message) → Keeps (write gob os data_in)
unfolding write
write-IsThere gob os data_in = Keeps-bind (ensure_file os) _ (Keeps-ensure_file os) (λ _.
    Keeps-bind (ensure_room os (bytes_of gob data_in)) _ (Keeps-ensure_room os _)
      (λ _. Keeps-store gob os data_in))
