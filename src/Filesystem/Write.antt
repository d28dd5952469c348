-- ===== src/Filesystem/Write.antt =====
-- Segment.Write (segment.go): what it leaves in the files, and the size of a segment.
use in_memory_base.Base.{ℕ, ◌≡◌, refl, inl, inr, Bool, true, false, List, Option, none, some}
use in_memory_base.Base.Errors.{Error, Result, Result-cases, ok, err}
use in_memory_base.Wal.Log.{Message, Gob, bytes_of}
use in_memory_base.Filesystem.Disk.{Disk, Os, Handle}
use in_memory_base.Filesystem.Segment.{
  Segment, Method, ◌>>=◌, adopt, create, get_next_segment, nil_error, file_or_new, ensure_file,
  has_no_room, next_or_stay, ensure_room, account, store_to, store, write,
}
use in_memory_base.Filesystem.Contents.{Extends, Extends-refl, Extends-trans, create_file-Extends}
use in_memory_base.Filesystem.Landed.{write_file-Extends}

-- A bind that returns is its two parts, one after the other.
pub >>=-ok :
    {A B : Type 0} (m : Method A) (f : A → Method B) (seg : Segment) (disk : Disk) (b : B)
    → ((m >>= f) seg disk).0 ≡ ok b
    → (a : A) × ((m seg disk).0 ≡ ok a) × ((m >>= f) seg disk ≡ f a (m seg disk).1 (m seg disk).2)
>>=-ok m f seg disk b h = elim (Result-cases (m seg disk).0) [
  | inl (a, e) ↦ (a, e, rw e)
  | inr (x, e) ↦ cc (rw e at h)
]

-- A method that loses nothing of what the files hold, whether it returns or fails.
abbrev Grows : {A : Type 0} → Method A → Type 0
Grows m = (seg : Segment) (disk : Disk) → Extends disk (m seg disk).2

Grows-bind :
    {A B : Type 0} (m : Method A) (f : A → Method B)
    → Grows m
    → ((a : A) → Grows (f a))
    → Grows (m >>= f)
Grows-bind m f gm gf seg disk = elim (Result-cases (m seg disk).0) [
  | inl (a, e) ↦ rw e (Extends-trans (gm seg disk) (gf a (m seg disk).1 (m seg disk).2))
  | inr (x, e) ↦ rw e (gm seg disk)
]

adopt_disk :
    (wrap : Error → Error) (r : Result Handle) (seg : Segment) (disk : Disk)
    → (adopt wrap r seg disk).2 ≡ disk
unfolding adopt
adopt_disk wrap (ok file) seg disk = refl
adopt_disk wrap (err e) seg disk = refl

Grows-create : (os : Os) → Grows (create os)
unfolding create
Grows-create os seg disk = rw adopt_disk (create_file-Extends os seg.directory seg.mask_name disk)

Grows-get_next_segment : (os : Os) → Grows (get_next_segment os)
unfolding get_next_segment
Grows-get_next_segment os seg disk =
    rw adopt_disk (create_file-Extends os seg.directory seg.mask_name disk)

Grows-done : Grows nil_error
Grows-done seg disk = Extends-refl disk

Grows-file_or_new : (os : Os) (file : Option Handle) → Grows (file_or_new os file)
unfolding file_or_new
Grows-file_or_new os none = Grows-bind (create os) _ (Grows-create os) (λ _. Grows-done)
Grows-file_or_new os (some file) = Grows-done

Grows-ensure_file : (os : Os) → Grows (ensure_file os)
unfolding ensure_file
Grows-ensure_file os seg disk = Grows-file_or_new os seg.file seg disk

Grows-next_or_stay : (os : Os) (full : Bool) → Grows (next_or_stay os full)
unfolding next_or_stay
Grows-next_or_stay os true =
    Grows-bind (get_next_segment os) _ (Grows-get_next_segment os) (λ _. Grows-done)
Grows-next_or_stay os false = Grows-done

Grows-ensure_room : (os : Os) (len : ℕ) → Grows (ensure_room os len)
unfolding ensure_room
Grows-ensure_room os len seg disk = Grows-next_or_stay os (has_no_room seg len) seg disk

pub account_disk : (r : Result ℕ) (seg : Segment) (disk : Disk) → (account r seg disk).2 ≡ disk
unfolding account
account_disk (ok n) seg disk = refl
account_disk (err e) seg disk = refl

Grows-store : (gob : Gob) (os : Os) (data_in : List Message) → Grows (store gob os data_in)
unfolding store
Grows-store gob os data_in seg disk = go seg.file
  where
    go : (file : Option Handle) → Extends disk (store_to gob os data_in file seg disk).2
    go none = Extends-refl disk
    go (some file) = rw account_disk (write_file-Extends gob os file data_in disk)

-- Segment.Write, whatever the system answers, loses nothing that a file of the directory holds:
-- every file is kept, and has at most grown at its end.
pub write-Extends :
    (gob : Gob) (os : Os) (data_in : List Message) (seg : Segment) (disk : Disk)
    → Extends disk (write gob os data_in seg disk).2
unfolding write
write-Extends gob os data_in = Grows-bind (ensure_file os) _ (Grows-ensure_file os) (λ _.
    Grows-bind (ensure_room os (bytes_of gob data_in)) _ (Grows-ensure_room os _)
      (λ _. Grows-store gob os data_in))
