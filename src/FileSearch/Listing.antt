-- ===== src/FileSearch/Listing.antt =====
-- What `search_file` finds, by the list of all files.
use s4_lib_lite.Prelude.{
  ◌≡◌, refl, List, [], ◌∷◌, ◌++◌, none, some, Bool, true, false, Bytes, same_bytes, Bool-cases, inl,
  inr, if◌then◌else◌,
}
use s4_lib_lite.FileSearch.Search.{
  plain, folder, Entries, end, entry, FilePath, filename, search_item, search_entries, search_file,
}

-- Every file of a folder, those of its folders too if they are wanted.
abbrev pub files : Bool → FilePath → Entries → List FilePath
files deep root end = []
files deep root (entry n plain rest) = (n ∷ root) ∷ files deep root rest
files deep root (entry n (folder es) rest) =
    (if deep then files deep (n ∷ root) es else []) ++ files deep root rest

-- Those of a name.
abbrev pub named : Bytes → List FilePath → List FilePath
named name [] = []
named name (p ∷ ps) = if same_bytes (filename p) name then p ∷ named name ps else named name ps

named-append :
    (name : Bytes) (xs ys : List FilePath) → named name (xs ++ ys) ≡ named name xs ++ named name ys
named-append name [] ys = refl
named-append name (p ∷ xs) ys = elim (Bool-cases (same_bytes (filename p) name)) [
  | inl e ↦ rw (e, named-append name xs ys) refl
  | inr e ↦ rw (e, named-append name xs ys) refl
]

search_entries_lem :
    (name : Bytes) (deep : Bool) (root : FilePath) (es : Entries)
    → search_entries name deep root es ≡ some (named name (files deep root es))
unfolding search_entries
search_entries_lem name deep root end = refl
search_entries_lem name deep root (entry n plain rest) =
    rw (search_entries_lem name deep root rest) refl
search_entries_lem name true root (entry n (folder es) rest) =
    rw
      (
        search_entries_lem name true (n ∷ root) es,
        search_entries_lem name true root rest,
        named-append name (files true (n ∷ root) es) (files true root rest),
      )
      refl
search_entries_lem name false root (entry n (folder es) rest) =
    search_entries_lem name false root rest

-- `search_file` of a folder finds exactly the files of the name, in the order of the disk: with
-- `recursive` those of every folder below, and otherwise those that stand in the folder itself. A folder
-- of the name is no file. Of a path where nothing is it finds nothing; a file is found if it has the
-- name itself, and otherwise the call throws.
pub search_file-files :
    (root : FilePath) (es : Entries) (name : Bytes) (recursive : Bool)
    → (search_file root (some (folder es)) name recursive
        ≡ some (named name (files recursive root es)))
      × (search_file root none name recursive ≡ some [])
      × (search_file root (some plain) name recursive
          ≡ (if same_bytes (filename root) name then some (root ∷ []) else none))
unfolding search_file search_item
search_file-files root es name recursive = (search_entries_lem name recursive root es, refl, refl)
