-- ===== src/Filesystem/Chronology.antt =====
-- The order of the list of GetFileList (segment_utils.go), of segments that CreateFile made.
use mathlib.Core.List.{Perm, map-append}
use in_memory_base.Base.{
  ℕ, ◌<◌, ◌≡◌, refl, sym, ap, ◌∙◌, Bool, true, false, Option, none, some, List, [], ◌∷◌, ◌++◌, map,
  arith, inl, inr, Bool-cases, All, All-append,
}
use in_memory_base.Base.Int.{pos, ltb_ℤ}
use in_memory_base.Base.Text.{Text}
use in_memory_base.Base.Errors.{ok}
use in_memory_base.Base.Sort.{
  sort_by, insert_by, IsAscending, sort_by-IsAscending, sort_by-perm, All-sort_by,
}
use in_memory_base.Filesystem.Disk.{
  Disk, Os, File, Handle, open_exclusive, find_file, create_file, insert_text, sort_strings,
  regular_paths, get_file_list,
}
use in_memory_base.Filesystem.Names.{IsTime, segment_path, path_order}

module _ (directory mask_name : Text) where
  -- Sorting the paths sorts the times.
  insert_text-segment_path :
      (n : ℕ) (ns : List ℕ)
      → IsTime n
      → All IsTime ns
      → insert_text (segment_path directory mask_name n) (map (segment_path directory mask_name) ns)
        ≡ map (segment_path directory mask_name) (insert_by pos n ns)
  unfolding insert_text insert_by
  insert_text-segment_path n [] h hs = refl
  insert_text-segment_path n (m ∷ ns) h hs = elim (Bool-cases (ltb_ℤ (pos m) (pos n))) [
    | inl e ↦
        rw (path_order directory mask_name m n hs.0 h, e, insert_text-segment_path n ns h hs.1)
    | inr e ↦ rw (path_order directory mask_name m n hs.0 h, e)
  ]

  sort_strings-segment_path :
      (ns : List ℕ)
      → All IsTime ns
      → sort_strings (map (segment_path directory mask_name) ns)
        ≡ map (segment_path directory mask_name) (sort_by pos ns)
  unfolding sort_strings sort_by
  sort_strings-segment_path [] h = refl
  sort_strings-segment_path (n ∷ ns) h =
      rw (sort_strings-segment_path ns h.1)
        (insert_text-segment_path n (sort_by pos ns) h.0 (All-sort_by pos IsTime ns h.1))

-- A time later than all others is sorted to the end.
insert_by_last :
    (n t : ℕ) (ns : List ℕ)
    → n < t
    → insert_by pos n (ns ++ (t ∷ [])) ≡ insert_by pos n ns ++ (t ∷ [])
unfolding insert_by
insert_by_last n t [] h = ground arith
insert_by_last n t (m ∷ ns) h = elim (Bool-cases (ltb_ℤ (pos m) (pos n))) [
  | inl e ↦ rw (e, insert_by_last n t ns h)
  | inr e ↦ rw e
]

sort_by_last :
    (t : ℕ) (ns : List ℕ)
    → All (λ n. n < t) ns
    → sort_by pos (ns ++ (t ∷ [])) ≡ sort_by pos ns ++ (t ∷ [])
unfolding sort_by insert_by
sort_by_last t [] h = refl
sort_by_last t (n ∷ ns) h = rw (sort_by_last t ns h.1) (insert_by_last n t (sort_by pos ns) h.0)

regular_paths-append :
    (xs ys : List File) → regular_paths (xs ++ ys) ≡ regular_paths xs ++ regular_paths ys
unfolding regular_paths
regular_paths-append [] ys = refl
regular_paths-append (f ∷ xs) ys = ground (arith, regular_paths-append xs ys)

-- What is in a directory of segments after CreateFile has added one.
regular_paths-open_exclusive :
    (creates : Bool) (found : Option File) (path : Text) (disk : Disk) (file : Handle)
    → (open_exclusive creates found path disk).0 ≡ ok file
    → (regular_paths (open_exclusive creates found path disk).1.files
        ≡ regular_paths disk.files ++ (path ∷ []))
      × (file.path ≡ path)
unfolding open_exclusive regular_paths
regular_paths-open_exclusive true none path disk file h = (regular_paths-append disk.files _, cc)
regular_paths-open_exclusive true (some f) path disk file h = cc
regular_paths-open_exclusive false found path disk file h = cc

-- Where the regular files of the directory are segments, made at these times and named by them,
-- each between 2001 and 2286, and CreateFile makes another at a later time: the list of GetFileList
-- has the former in the order of their times, and then the new one.
pub get_file_list-create_file :
    (os later : Os) (directory mask_name : Text) (disk : Disk) (nanos : List ℕ) (file : Handle)
    → regular_paths disk.files ≡ map (segment_path directory mask_name) nanos
    → All IsTime nanos
    → IsTime os.unix_nano
    → All (λ n. n < os.unix_nano) nanos
    → (create_file os directory mask_name disk).0 ≡ ok file
    → later.lists ≡ true
    → (get_file_list later (create_file os directory mask_name disk).1
        ≡ ok (map (segment_path directory mask_name) (sort_by pos nanos) ++ (file.path ∷ [])))
      × IsAscending pos (sort_by pos nanos)
      × Perm (sort_by pos nanos) nanos
unfolding get_file_list create_file
get_file_list-create_file os later directory mask_name disk nanos file named times now before made
      lists =
    let path = segment_path directory mask_name os.unix_nano in
    let new =
      regular_paths-open_exclusive os.creates (find_file path disk.files) path disk file made in
    (
      rw (lists, new.0, named, new.1)
          (ap (λ l. ok (sort_strings l))
              (sym (map-append (segment_path directory mask_name) nanos (os.unix_nano ∷ [])))
            ∙ ap ok (
                sort_strings-segment_path directory mask_name (nanos ++ (os.unix_nano ∷ []))
                  (All-append IsTime nanos (os.unix_nano ∷ []) times (now, tt)))
            ∙ ap (λ l. ok (map (segment_path directory mask_name) l))
                (sort_by_last os.unix_nano nanos before)
            ∙ ap ok (
                map-append (segment_path directory mask_name) (sort_by pos nanos)
                  (os.unix_nano ∷ []))),
      sort_by-IsAscending pos nanos,
      sort_by-perm pos nanos,
    )
