-- ===== src/FileSearch/Examples.antt =====
-- A folder with a file, and with a folder that holds a file of the same name.
use s4_lib_lite.Prelude.{◌≡◌, refl, [], ◌∷◌, none, some, true, codes, same_bytes, if◌then◌else◌}
use s4_lib_lite.FileSearch.Search.{
  plain, folder, Entries, end, entry, FilePath, filename, search_file,
}
use s4_lib_lite.FileSearch.Listing.{files, named, search_file-files}

abbrev on_disk : Entries
on_disk = entry (codes "a.txt") plain (
    entry (codes "sub") (folder (entry (codes "a.txt") plain end))
      (entry (codes "b.txt") plain end))

abbrev home : FilePath
home = codes "home" ∷ []

search_file-files_example :
    (search_file home (some (folder on_disk)) (codes "a.txt") true
      ≡ some (named (codes "a.txt") (files true home on_disk)))
    × (search_file home none (codes "a.txt") true ≡ some [])
    × (search_file home (some plain) (codes "a.txt") true
        ≡ (if same_bytes (filename home) (codes "a.txt") then some (home ∷ []) else none))
search_file-files_example = search_file-files home on_disk (codes "a.txt") true

found_both :
    search_file home (some (folder on_disk)) (codes "a.txt") true
    ≡ some ((codes "a.txt" ∷ home) ∷ (codes "a.txt" ∷ codes "sub" ∷ home) ∷ [])
unfolding search_file
found_both = refl
