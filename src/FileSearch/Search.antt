-- ===== src/FileSearch/Search.antt =====
-- source/common/s4filesystem.cpp: `search_file`, over what is on the disk. A folder's entries stand in
-- the order in which `directory_iterator` gives them; there are no links.
use s4_lib_lite.Prelude.{
  List, [], ◌∷◌, ◌++◌, Option, none, some, Bool, Bytes, same_bytes, if◌then◌else◌,
}

mutual
  -- What stands at a path: a folder, or something else.
  pub data Item : Type 0 where
    plain : Item
    folder : Entries → Item

  pub data Entries : Type 0 where
    end : Entries
    entry : Bytes → Item → Entries → Entries

-- A path is its names, the last one first.
abbrev pub FilePath : Type 0
FilePath = List Bytes

abbrev pub filename : FilePath → Bytes
filename [] = []
filename (n ∷ parent) = n

infixl 5 ◌>>=◌
abbrev pub ◌>>=◌ {ℓ κ} : {A : Type ℓ} {B : Type κ} → Option A → (A → Option B) → Option B
none >>= f = none
some a >>= f = f a

-- The loop over the entries of the folder at `root`; of a folder among them, `search_file` comes to
-- this loop again.
unfoldable pub search_entries : Bytes → Bool → FilePath → Entries → Option (List FilePath)
search_entries name recursive root end = some []
search_entries name recursive root (entry n plain rest) = do
  more ← search_entries name recursive root rest
  some (if same_bytes n name then (n ∷ root) ∷ more else more)
search_entries name recursive root (entry n (folder es) rest) =
    let deep : Option (List FilePath) = (do
      sub ← search_entries name recursive (n ∷ root) es
      more ← search_entries name recursive root rest
      some (sub ++ more)) in
    if recursive then deep else search_entries name recursive root rest

-- `search_file` of a path that exists; nothing is the exception of a `directory_iterator` over what
-- is no folder.
unfoldable pub search_item : Bytes → Bool → FilePath → Item → Option (List FilePath)
unfolding search_entries
search_item name recursive root plain =
    if same_bytes (filename root) name then some (root ∷ []) else none
search_item name recursive root (folder es) = search_entries name recursive root es

-- `search_file`, where nothing may stand at the path.
unfoldable pub search_file : FilePath → Option Item → Bytes → Bool → Option (List FilePath)
unfolding search_item
search_file root none name recursive = some []
search_file root (some item) name recursive = search_item name recursive root item
