-- ===== src/Filesystem/Disk.antt =====
-- segment_utils.go, and what it uses of the operating system: the directory of the segments, and
-- the calls on its files. What the system answers to one call is an `Os` value.
use in_memory_base.Base.{
  ℕ, Bool, true, false, ◌&&◌, ◌||◌, List, [], ◌∷◌, ◌++◌, Option, none, some, ltb, ◌==◌,
  if◌then◌else◌,
}
use in_memory_base.Base.Text.{Text, runes, text_eq}
use in_memory_base.Base.Decimal.{format_uint}
use in_memory_base.Base.Errors.{Result, ok, err, io}
use in_memory_base.Wal.Log.{Message, Gob, bytes_of}

-- An entry of the directory, under its joined path.
pub record File : Type 0 where
  pub path : Text
  pub is_dir : Bool
  pub contents : List Message

pub record Disk : Type 0 where
  pub files : List File

-- `file.Write` and `file.Sync` both succeed, or one of them fails after some messages, or pieces
-- of messages, have reached the file.
pub data Landing : Type 0 where
  written : Landing
  failed : List Message → Landing

-- How the system answers.
pub record Os : Type 0 where
  pub unix_nano : ℕ  -- time.Now().UnixNano()
  pub creates : Bool  -- whether OpenFile may create a file
  pub landing : Landing
  pub lists : Bool  -- whether ReadDir succeeds
  pub reads : Text → Bool  -- whether Open and ReadFile succeed on a path
  pub opens : Bool  -- whether OpenFile may open a file for append
  pub stats : Bool  -- whether Stat succeeds

-- An open *os.File, or one that has been closed.
pub record Handle : Type 0 where
  pub path : Text
  pub is_open : Bool

-- filepath.Join of a clean directory and a name.
abbrev pub join_path : Text → Text → Text
join_path directory name = directory ++ (b'/' ∷ name)

-- fmt.Sprintf("%s%d.log", maskName, time.Now().UnixNano())
abbrev pub file_name : Text → ℕ → Text
file_name mask_name nano = mask_name ++ (format_uint nano ++ runes ".log")

unfoldable pub find_file : Text → List File → Option File
find_file path [] = none
find_file path (f ∷ files) = if text_eq f.path path then some f else find_file path files

-- os.OpenFile with O_CREATE and O_EXCL: a name that is there is refused.
unfoldable pub open_exclusive : Bool → Option File → Text → Disk → Result Handle × Disk
open_exclusive true none path disk = (
  ok (record { path = path; is_open = true }),
  record { files = disk.files ++ (record { path = path; is_dir = false; contents = [] } ∷ []) },
)
open_exclusive true (some f) path disk = (err io, disk)
open_exclusive false found path disk = (err io, disk)

-- CreateFile
unfoldable pub create_file : Os → Text → Text → Disk → Result Handle × Disk
create_file os directory mask_name disk =
    let path = join_path directory (file_name mask_name os.unix_nano) in
    open_exclusive os.creates (find_file path disk.files) path disk

unfoldable pub append_to : Text → List Message → List File → List File
append_to path data_in [] = []
append_to path data_in (f ∷ files) =
    (if text_eq f.path path then record f { contents = f.contents ++ data_in } else f)
    ∷ append_to path data_in files

-- WriteFile: the bytes written, or an error; a closed file takes nothing.
unfoldable pub land : Gob → Bool → Landing → Text → List Message → Disk → Result ℕ × Disk
land gob true written path data_in disk =
    (ok (bytes_of gob data_in), record { files = append_to path data_in disk.files })
land gob true (failed landed) path data_in disk =
    (err io, record { files = append_to path landed disk.files })
land gob false landing path data_in disk = (err io, disk)

unfoldable pub write_file : Gob → Os → Handle → List Message → Disk → Result ℕ × Disk
write_file gob os file data_in disk = land gob file.is_open os.landing file.path data_in disk

-- ReadFile
unfoldable pub read_file : Os → Text → Disk → Result (List Message)
read_file os path disk =
    if os.reads path
    then elim (find_file path disk.files) [ none ↦ err io | some f ↦ ok f.contents ]
    else err io

-- sort.Strings: by the bytes, which for UTF-8 is by the runes.
unfoldable pub text_ltb : Text → Text → Bool
text_ltb [] [] = false
text_ltb [] (d ∷ t) = true
text_ltb (c ∷ s) [] = false
text_ltb (c ∷ s) (d ∷ t) = ltb c d || c == d && text_ltb s t

unfoldable pub insert_text : Text → List Text → List Text
insert_text x [] = x ∷ []
insert_text x (y ∷ ys) = if text_ltb y x then y ∷ insert_text x ys else x ∷ y ∷ ys

unfoldable pub sort_strings : List Text → List Text
unfolding insert_text
sort_strings [] = []
sort_strings (x ∷ xs) = insert_text x (sort_strings xs)

-- The loop over the entries: directories are passed over.
unfoldable pub regular_paths : List File → List Text
regular_paths [] = []
regular_paths (f ∷ files) =
    let rest = regular_paths files in if f.is_dir then rest else f.path ∷ rest

-- GetFileList
unfoldable pub get_file_list : Os → Disk → Result (List Text)
unfolding sort_strings regular_paths
get_file_list os disk = if os.lists then ok (sort_strings (regular_paths disk.files)) else err io
