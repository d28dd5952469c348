-- ===== src/Filesystem/Landed.antt =====
-- What WriteFile (segment_utils.go) leaves in the files.
use in_memory_base.Base.{
  ℕ, ◌≡◌, refl, Bool, true, false, List, ◌++◌, Option, none, some, arith, if◌then◌else◌,
}
use mathlib.Core.Path.{subst}
use in_memory_base.Base.Text.{Text, text_eq, text_eq_iff}
use in_memory_base.Base.Errors.{ok}
use in_memory_base.Wal.Log.{Message, Gob, bytes_of}
use in_memory_base.Filesystem.Disk.{
  File, Disk, Os, Handle, Landing, written, failed, find_file, land, write_file,
}
use in_memory_base.Filesystem.Contents.{
  contents_of, contents_of, contents, Exists, appended, find_file-append_to, Extends, Extends-refl,
  append_to-Extends,
}

land-Extends :
    (gob : Gob) (is_open : Bool) (landing : Landing) (path : Text) (data_in : List Message)
    (disk : Disk)
    → Extends disk (land gob is_open landing path data_in disk).1
unfolding land
land-Extends gob true written path data_in disk = append_to-Extends path data_in disk
land-Extends gob true (failed landed) path data_in disk = append_to-Extends path landed disk
land-Extends gob false landing path data_in disk = Extends-refl disk

-- Writing to a file, whether that succeeds or not.
pub write_file-Extends :
    (gob : Gob) (os : Os) (file : Handle) (data_in : List Message) (disk : Disk)
    → Extends disk (write_file gob os file data_in disk).1
unfolding write_file
write_file-Extends gob os file data_in disk =
    land-Extends gob file.is_open os.landing file.path data_in disk

appended_here :
    (here : Bool) (data_in : List Message) (o : Option File)
    → (here ≡ true → (f : File) × (o ≡ some f))
    → contents_of (appended here data_in o)
      ≡ (if here then contents_of o ++ data_in else contents_of o)
appended_here true data_in none h = cc (h refl).1
appended_here true data_in (some f) h = refl
appended_here false data_in none h = refl
appended_here false data_in (some f) h = refl

-- A write that succeeds adds its data to that file, and to no other.
land-ok :
    (gob : Gob) (is_open : Bool) (landing : Landing) (path : Text) (data_in : List Message)
    (disk : Disk) (n : ℕ)
    → Exists path disk
    → (land gob is_open landing path data_in disk).0 ≡ ok n
    → (n ≡ bytes_of gob data_in)
      × ((q : Text)
          → contents q (land gob is_open landing path data_in disk).1
            ≡ (if text_eq path q then contents q disk ++ data_in else contents q disk))
unfolding land
land-ok gob true written path data_in disk n e h = (
  ground arith,
  λ q. rw (find_file-append_to path q data_in disk.files) (
      appended_here (text_eq path q) data_in (find_file q disk.files)
        (λ t. subst (λ p. Exists p disk) ((text_eq_iff path q).0 t) e)),
)
land-ok gob true (failed landed) path data_in disk n e h = cc
land-ok gob false landing path data_in disk n e h = cc

pub write_file-ok :
    (gob : Gob) (os : Os) (file : Handle) (data_in : List Message) (disk : Disk) (n : ℕ)
    → Exists file.path disk
    → (write_file gob os file data_in disk).0 ≡ ok n
    → (n ≡ bytes_of gob data_in)
      × ((q : Text)
          → contents q (write_file gob os file data_in disk).1
            ≡ (if text_eq file.path q then contents q disk ++ data_in else contents q disk))
unfolding write_file
write_file-ok gob os file data_in disk n e h =
    land-ok gob file.is_open os.landing file.path data_in disk n e h
