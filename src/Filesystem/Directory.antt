-- ===== src/Filesystem/Directory.antt =====
-- segments_directory.go. `work_dir` is what os.Getwd answers, a rooted path if it succeeds, and
-- `makes` says whether os.MkdirAll succeeds.
use in_memory_base.Base.{
  ℕ, ◌≡◌, refl, Bool, true, false, List, [], ◌∷◌, ◌++◌, Option, none, some, if◌then◌else◌, ◌==◌,
  arith,
}
use in_memory_base.Base.Text.{Text, runes, text_eq}
use in_memory_base.Base.Errors.{
  Result, ok, err, failed_resolve_segment_path, invalid_working_folder, failed_to_create_directory,
}

pub record Host : Type 0 where
  pub work_dir : Option Text
  pub makes : Bool

-- filepath.IsAbs
abbrev pub is_abs : Text → Bool
is_abs [] = false
is_abs (c ∷ path) = c == b'/'

prepend : ℕ → List Text → List Text
prepend c [] = (c ∷ []) ∷ []
prepend c (name ∷ names) = (c ∷ name) ∷ names

-- The names of a path, between its slashes.
split_path : Text → List Text
unfolding prepend
split_path [] = [] ∷ []
split_path (c ∷ path) =
    let names = split_path path in if c == b'/' then [] ∷ names else prepend c names

drop_last : List Text → List Text
drop_last [] = []
drop_last (name ∷ outer) = outer

enter : Text → List Text → List Text
unfolding drop_last
enter name outer =
    if text_eq name []
    then outer
    else if text_eq name (runes ".")
    then outer
    else if text_eq name (runes "..")
    then drop_last outer
    else name ∷ outer

-- filepath.Clean on the names of a rooted path, from the outermost: the innermost comes first in
-- the result.
clean : List Text → List Text → List Text
unfolding enter
clean outer [] = outer
clean outer (name ∷ names) = clean (enter name outer) names

render : List Text → Text → Text
render [] tail = tail
render (name ∷ outer) tail = render outer (b'/' ∷ (name ++ tail))

root_if_empty : Text → Text
root_if_empty [] = runes "/"
root_if_empty (c ∷ path) = c ∷ path

-- filepath.Join of a rooted directory and a path.
unfoldable pub join_rooted : Text → Text → Text
unfolding root_if_empty render clean split_path
join_rooted directory path =
    root_if_empty (render (clean [] (split_path (directory ++ (b'/' ∷ path)))) [])

default_if_empty : Text → Text
default_if_empty directory = if text_eq directory [] then runes "storage/wal" else directory

resolve_in : Option Text → Text → Result Text
resolve_in work_dir directory = if is_abs directory then ok directory else elim work_dir [
  | none ↦ err invalid_working_folder
  | some dir ↦ ok (join_rooted dir directory)
]

-- resolveWalPath
unfoldable pub resolve_wal_path : Host → Text → Result Text
unfolding default_if_empty resolve_in
resolve_wal_path host directory = resolve_in host.work_dir (default_if_empty directory)

made : Bool → Result Text → Result Text
made makes (err e) = err failed_resolve_segment_path
made makes (ok path) = if makes then ok path else err failed_to_create_directory

-- MakeDirectory
unfoldable pub make_directory : Host → Text → Result Text
unfolding made
make_directory host directory = made host.makes (resolve_wal_path host directory)

render-is_abs :
    (outer : List Text) (tail : Text) → is_abs tail ≡ true → is_abs (render outer tail) ≡ true
unfolding render
render-is_abs [] tail h = h
render-is_abs (name ∷ outer) tail h = render-is_abs outer (b'/' ∷ (name ++ tail)) refl

root_if_empty-is_abs : (path : Text) → is_abs path ≡ true → is_abs (root_if_empty path) ≡ true
unfolding root_if_empty
root_if_empty-is_abs [] h = refl
root_if_empty-is_abs (c ∷ path) h = h

rooted-is_abs : (outer : List Text) → is_abs (root_if_empty (render outer [])) ≡ true
rooted-is_abs [] = unfold render root_if_empty in refl
rooted-is_abs (name ∷ outer) =
    unfold render in
    root_if_empty-is_abs (render outer (b'/' ∷ (name ++ [])))
      (render-is_abs outer (b'/' ∷ (name ++ [])) refl)

join_rooted-is_abs : (directory path : Text) → is_abs (join_rooted directory path) ≡ true
unfolding join_rooted
join_rooted-is_abs directory path =
    rooted-is_abs (clean [] (split_path (directory ++ (b'/' ∷ path))))

resolve_in-is_abs :
    (work_dir : Option Text) (directory path : Text)
    → resolve_in work_dir directory ≡ ok path
    → is_abs path ≡ true
unfolding resolve_in
resolve_in-is_abs none directory path h = ground arith
resolve_in-is_abs (some dir) directory path h = ground (arith, join_rooted-is_abs dir directory)

resolve_wal_path-is_abs :
    (host : Host) (path : Text) → is_abs path ≡ true → resolve_wal_path host path ≡ ok path
unfolding resolve_wal_path default_if_empty resolve_in text_eq
resolve_wal_path-is_abs host [] h = cc
resolve_wal_path-is_abs host (c ∷ path) h = rw h refl

resolve_wal_path-rooted :
    (host : Host) (directory path : Text)
    → resolve_wal_path host directory ≡ ok path
    → is_abs path ≡ true
unfolding resolve_wal_path
resolve_wal_path-rooted host directory path =
    resolve_in-is_abs host.work_dir (default_if_empty directory) path

made-ok : (makes : Bool) (r : Result Text) (path : Text) → made makes r ≡ ok path → r ≡ ok path
unfolding made
made-ok makes (err e) path h = cc
made-ok true (ok p) path h = h
made-ok false (ok p) path h = cc

-- MakeDirectory returns an absolute path, if it returns one, and it takes such a path as it is: a
-- directory that it made is found under the same path whatever the working directory is then.
pub make_directory-is_abs :
    (host later : Host) (directory path : Text)
    → make_directory host directory ≡ ok path
    → (is_abs path ≡ true) × (later.makes ≡ true → make_directory later path ≡ ok path)
unfolding make_directory
make_directory-is_abs host later directory path h =
    let resolved = made-ok host.makes (resolve_wal_path host directory) path h in
    let rooted : is_abs path ≡ true = resolve_wal_path-rooted host directory path resolved in
    (rooted, λ m. rw (resolve_wal_path-is_abs later path rooted, m) (unfold made in refl))
