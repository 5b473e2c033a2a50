-- ===== src/Filesystem/Scanner.antt =====
-- src/filesystem/FileScanner.cpp. The file system does not change while it is scanned, and its calls
-- succeed.
pub mod Order
pub mod Listing
pub mod Safety
use beam_drop.Prelude.{
  is_nil, ℕ, Bool, true, false, ◌||◌, ◌&&◌, Option, none, some, List, [], ◌∷◌, ◌++◌, Bytes, length,
  ltb, ◌==◌, if◌then◌else◌,
}
use beam_drop.Errors.{
  Result, ok, err, Exception, file_system, not_found, not_regular_file_or_directory, throw_if,
  ◌>>=◌, ◌>>◌,
}
use beam_drop.Filesystem.{
  Node, regular, folder, link, other, Items, nil, cons, FileEntry, DirectoryEntry,
}
use beam_drop.Filesystem.Normal.{filename, normal_filename}
use beam_drop.Transfer.Path.{join}

-- `lhs < rhs` on strings
unfoldable pub less : Bytes → Bytes → Bool
less xs [] = false
less [] (d ∷ ds) = true
less (c ∷ cs) (d ∷ ds) = let rest = less cs ds in ltb c d || (c == d && rest)

-- `std::sort` by a path.
module _ {A : Type 0} (path_of : A → Bytes) where
  unfoldable pub insert : A → List A → List A
  insert x [] = x ∷ []
  insert x (y ∷ ys) =
      let rest = insert x ys in if less (path_of y) (path_of x) then y ∷ rest else x ∷ y ∷ ys

  unfoldable pub sort_entries : List A → List A
  sort_entries [] = []
  sort_entries (x ∷ xs) = insert x (sort_entries xs)

abbrev pub not_supported : Exception
not_supported = file_system not_regular_file_or_directory

-- A path and what it names, below a directory.
abbrev pub Found : Type 0
Found = Bytes × Node

unfoldable pub below : Bytes → List Found → List Found
below name [] = []
below name ((path, node) ∷ rest) = (name ++ b'/' ∷ path, node) ∷ below name rest

-- `recursive_directory_iterator`, up to the first symbolic link, with the path of each item relative
-- to the directory.
unfoldable mutual
  pub walk : Items → Result (List Found)
  walk nil = ok []
  walk (cons name node rest) = do
    inner ← walk_node node
    later ← walk rest
    ok ((name, node) ∷ (below name inner ++ later))

  pub walk_node : Node → Result (List Found)
  walk_node (folder items) = walk items
  walk_node (link target_exists) = err not_supported
  walk_node _ = ok []

module _ (root_name input_path : Bytes) where
  abbrev pub file_entry : Bytes → Bytes → FileEntry
  file_entry relative content = record {
    source_path = join input_path relative;
    relative_path = join root_name relative;
    size = length content;
  }

  abbrev pub directory_entry : Bytes → DirectoryEntry
  directory_entry relative = record {
    source_path = join input_path relative;
    relative_path = join root_name relative;
  }

  unfoldable pub files_of : List Found → List FileEntry
  files_of [] = []
  files_of ((relative, regular content) ∷ rest) = file_entry relative content ∷ files_of rest
  files_of ((relative, _) ∷ rest) = files_of rest

  unfoldable pub directories_of : List Found → List DirectoryEntry
  directories_of [] = []
  directories_of ((relative, folder items) ∷ rest) = directory_entry relative ∷ directories_of rest
  directories_of ((relative, _) ∷ rest) = directories_of rest

abbrev pub file_path : FileEntry → Bytes
file_path entry = entry.relative_path

abbrev directory_path : DirectoryEntry → Bytes
directory_path entry = entry.relative_path

-- A link is there where its target is.
abbrev linked : Bool → Exception
linked true = not_supported
linked false = file_system not_found

-- `scan_files`, of a path and what it names
unfoldable pub scan_files : Bytes → Option Node → Result (List FileEntry)
scan_files path none = err (file_system not_found)
scan_files path (some (link target_exists)) = err (linked target_exists)
scan_files path (some (regular content)) =
    ok (record { source_path = path; relative_path = filename path; size = length content } ∷ [])
scan_files path (some other) = err not_supported
scan_files path (some (folder items)) = do
  throw_if (is_nil (normal_filename path)) not_supported
  found ← walk items
  ok (sort_entries file_path (files_of (normal_filename path) path found))

-- `scan_directories`
unfoldable pub scan_directories : Bytes → Option Node → Result (List DirectoryEntry)
scan_directories path none = err (file_system not_found)
scan_directories path (some (link target_exists)) = err (linked target_exists)
scan_directories path (some (regular content)) = ok []
scan_directories path (some other) = ok []
scan_directories path (some (folder items)) = do
  throw_if (is_nil (normal_filename path)) not_supported
  found ← walk items
  ok (
      sort_entries directory_path (
        record { source_path = path; relative_path = normal_filename path }
        ∷ directories_of (normal_filename path) path found))
