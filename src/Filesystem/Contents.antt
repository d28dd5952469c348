-- ===== src/Filesystem/Contents.antt =====
-- What a file holds before and after the calls of segment_utils.go.
use in_memory_base.Base.{
  ◌≡◌, refl, ap, sym, ◌∙◌, Bool, true, false, List, [], ◌∷◌, ◌++◌, Option, none, some, arith,
  if◌then◌else◌, append_assoc, append-nil,
}
use mathlib.Core.Path.{subst}
use in_memory_base.Base.Text.{Text, text_eq, text_eq_iff, text_eq_refl}
use in_memory_base.Base.Errors.{ok}
use in_memory_base.Wal.Log.{Message}
use in_memory_base.Filesystem.Disk.{
  File, Disk, Os, Handle, find_file, create_file, append_to, open_exclusive,
}

-- What is read under a path; nothing, if there is no such file.
abbrev pub contents_of : Option File → List Message
contents_of none = []
contents_of (some f) = f.contents

abbrev pub contents : Text → Disk → List Message
contents path disk = contents_of (find_file path disk.files)

-- The file is there.
abbrev pub Exists : Text → Disk → Type 0
Exists path disk = (f : File) × (find_file path disk.files ≡ some f)

abbrev pub appended : Bool → List Message → Option File → Option File
appended here data_in none = none
appended here data_in (some f) =
    some (if here then record f { contents = f.contents ++ data_in } else f)

pub find_file-append_to :
    (p q : Text) (data_in : List Message) (files : List File)
    → find_file q (append_to p data_in files) ≡ appended (text_eq p q) data_in (find_file q files)
unfolding find_file append_to
find_file-append_to p q data_in [] = refl
find_file-append_to p q data_in (f ∷ files) = ground (
  arith,
  find_file-append_to p q data_in files,
  text_eq_iff f.path p,
  text_eq_iff f.path q,
  text_eq_iff p q,
)

abbrev or_new : Text → File → Option File → Option File
or_new q new none = if text_eq new.path q then some new else none
or_new q new (some f) = some f

find_file-snoc :
    (q : Text) (new : File) (files : List File)
    → find_file q (files ++ (new ∷ [])) ≡ or_new q new (find_file q files)
unfolding find_file
find_file-snoc q new [] = refl
find_file-snoc q new (f ∷ files) = ground (arith, find_file-snoc q new files)

-- Nothing that a file held is lost or changed: files only come and grow.
pub record Extends (before after : Disk) : Type 0 where
  pub grows :
      (path : Text) → (more : List Message) × (contents path after ≡ contents path before ++ more)
  pub keeps : (path : Text) → Exists path before → Exists path after

pub Extends-refl : (disk : Disk) → Extends disk disk
Extends-refl disk = record {
  grows = λ path. ([], sym (append-nil (contents path disk)));
  keeps = λ path e. e;
}

pub Extends-trans : {a b c : Disk} → Extends a b → Extends b c → Extends a c
Extends-trans {a} {b} {c} x y = record {
  grows = λ path.
      let (m, e) = x.grows path in
      let (n, f) = y.grows path in
      (m ++ n, f ∙ ap (λ (l : List Message). l ++ n) e ∙ append_assoc (contents path a) m n);
  keeps = λ path e. y.keeps path (x.keeps path e);
}

contents-appended :
    (here : Bool) (data_in : List Message) (o : Option File)
    → (more : List Message) × (contents_of (appended here data_in o) ≡ contents_of o ++ more)
contents-appended here data_in none = ([], refl)
contents-appended true data_in (some f) = (data_in, refl)
contents-appended false data_in (some f) = ([], sym (append-nil f.contents))

exists-appended :
    (here : Bool) (data_in : List Message) (f : File)
    → (g : File) × (appended here data_in (some f) ≡ some g)
exists-appended here data_in f = (_, refl)

pub append_to-Extends :
    (p : Text) (data_in : List Message) (disk : Disk)
    → Extends disk (record { files = append_to p data_in disk.files })
append_to-Extends p data_in disk = record {
  grows = λ q.
      rw (find_file-append_to p q data_in disk.files)
        (contents-appended (text_eq p q) data_in (find_file q disk.files));
  keeps = λ q (f, e).
      rw (find_file-append_to p q data_in disk.files, e) (exists-appended (text_eq p q) data_in f);
}

contents-or_new :
    (q : Text) (new : File) (o : Option File)
    → new.contents ≡ []
    → contents_of (or_new q new o) ≡ contents_of o ++ []
contents-or_new q new none h = ground arith
contents-or_new q new (some f) h = sym (append-nil f.contents)

add-Extends :
    (new : File) (disk : Disk)
    → new.contents ≡ []
    → Extends disk (record { files = disk.files ++ (new ∷ []) })
add-Extends new disk h = record {
  grows = λ q.
      ([], rw (find_file-snoc q new disk.files) (contents-or_new q new (find_file q disk.files) h));
  keeps = λ q (f, e). (f, rw (find_file-snoc q new disk.files, e));
}

-- A file that has been created is open and empty, and was not there before.
pub record IsNew (before after : Disk) (file : Handle) : Type 0 where
  pub is_open : file.is_open ≡ true
  pub absent : find_file file.path before.files ≡ none
  pub there : Exists file.path after
  pub empty : contents file.path after ≡ []

module _ (path : Text) (disk : Disk) where
  open_exclusive-Extends :
      (creates : Bool) (found : Option File)
      → Extends disk (open_exclusive creates found path disk).1
  unfolding open_exclusive
  open_exclusive-Extends true none =
      add-Extends (record { path = path; is_dir = false; contents = [] }) disk refl
  open_exclusive-Extends true (some f) = Extends-refl disk
  open_exclusive-Extends false found = Extends-refl disk

  find_file_new :
      find_file path disk.files ≡ none
      → find_file path (disk.files ++ (record { path = path; is_dir = false; contents = [] } ∷ []))
        ≡ some (record { path = path; is_dir = false; contents = [] })
  find_file_new h = rw (
    find_file-snoc path (record { path = path; is_dir = false; contents = [] }) disk.files,
    h,
    text_eq_refl path,
  )

  open_exclusive-IsNew :
      (creates : Bool) (found : Option File) (file : Handle)
      → find_file path disk.files ≡ found
      → (open_exclusive creates found path disk).0 ≡ ok file
      → (path ≡ file.path) × IsNew disk (open_exclusive creates found path disk).1 file
  unfolding open_exclusive
  open_exclusive-IsNew true none file absent h =
      subst (λ new. (path ≡ new.path) × IsNew disk (open_exclusive true none path disk).1 new)
        (let e : record { path = path; is_open = true } ≡ file = cc h in e)
        (
          refl,
          record {
            is_open = refl;
            absent = absent;
            there = (_, find_file_new absent);
            empty = rw (find_file_new absent);
          },
        )
  open_exclusive-IsNew true (some f) file absent h = cc
  open_exclusive-IsNew false found file absent h = cc

-- Creating a file, whether that succeeds or not.
pub create_file-Extends :
    (os : Os) (directory mask_name : Text) (disk : Disk)
    → Extends disk (create_file os directory mask_name disk).1
unfolding create_file
create_file-Extends os directory mask_name disk = open_exclusive-Extends _ disk os.creates _

contents-open_exclusive :
    (path : Text) (disk : Disk) (creates : Bool) (found : Option File) (q : Text)
    → contents q (open_exclusive creates found path disk).1 ≡ contents q disk
unfolding open_exclusive
contents-open_exclusive path disk true none q =
    let new : File = record { path = path; is_dir = false; contents = [] } in
    rw (find_file-snoc q new disk.files)
      (contents-or_new q new (find_file q disk.files) refl ∙ append-nil (contents q disk))
contents-open_exclusive path disk true (some f) q = refl
contents-open_exclusive path disk false found q = refl

pub contents-create_file :
    (os : Os) (directory mask_name : Text) (disk : Disk) (q : Text)
    → contents q (create_file os directory mask_name disk).1 ≡ contents q disk
unfolding create_file
contents-create_file os directory mask_name disk q = contents-open_exclusive _ disk os.creates _ q

pub create_file-IsNew :
    (os : Os) (directory mask_name : Text) (disk : Disk) (file : Handle)
    → (create_file os directory mask_name disk).0 ≡ ok file
    → IsNew disk (create_file os directory mask_name disk).1 file
unfolding create_file
create_file-IsNew os directory mask_name disk file h =
    (open_exclusive-IsNew _ disk os.creates _ file refl h).1
