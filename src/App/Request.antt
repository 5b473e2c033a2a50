-- ===== src/App/Request.antt =====
-- What src/app/SendService.cpp does before it connects: the tests of the request, the scan of its
-- paths, and the test that no two entries have one target.
pub mod Targets
use beam_drop.Prelude.{
  is_nil, ℕ, ◌+◌, ◌%◌, ◌^◌, Bool, true, false, ◌||◌, Option, none, some, List, [], ◌∷◌, ◌++◌, Bytes,
  length, ◌==◌, if◌then◌else◌, same_bytes,
}
use beam_drop.Errors.{Result, ok, ◌>>=◌}
use beam_drop.Filesystem.{Node, FileEntry, DirectoryEntry}
use beam_drop.Filesystem.Scanner.{scan_files, scan_directories}
use beam_drop.App.{ErrorCode, invalid_request}

pub record SendRequest : Type 0 where
  pub paths : List Bytes
  pub host : Bytes
  pub port : ℕ
  pub chunk_size : ℕ

pub record SendResult : Type 0 where
  pub file_count : ℕ
  pub total_bytes : ℕ

-- `total_entry_bytes`, in 64 bits
unfoldable pub add_sizes : ℕ → List FileEntry → ℕ
add_sizes total [] = total
add_sizes total (entry ∷ entries) = add_sizes ((total + entry.size) % 2 ^ 64) entries

abbrev pub total_entry_bytes : List FileEntry → ℕ
total_entry_bytes entries = add_sizes 0 entries

-- `paths.insert(…).second` for one path after another: the set, or nothing at one that is in it.
abbrev pub contains : Bytes → List Bytes → Bool
contains path [] = false
contains path (seen ∷ rest) = same_bytes path seen || contains path rest

unfoldable pub insert_all : List Bytes → List Bytes → Option (List Bytes)
insert_all [] seen = some seen
insert_all (path ∷ paths) seen =
    let rest = insert_all paths (path ∷ seen) in if contains path seen then none else rest

abbrev pub directory_paths : List DirectoryEntry → List Bytes
directory_paths [] = []
directory_paths (entry ∷ entries) = entry.relative_path ∷ directory_paths entries

abbrev pub file_paths : List FileEntry → List Bytes
file_paths [] = []
file_paths (entry ∷ entries) = entry.relative_path ∷ file_paths entries

-- `validate_unique_targets`
unfoldable pub validate_unique_targets : List FileEntry → List DirectoryEntry → Option ErrorCode
validate_unique_targets files directories = elim (insert_all (directory_paths directories) []) [
  | none ↦ some invalid_request
  | some seen ↦ elim (insert_all (file_paths files) seen) [
    | none ↦ some invalid_request
    | some all ↦ none
  ]
]

abbrev pub some_empty : List Bytes → Bool
some_empty [] = false
some_empty (path ∷ paths) = is_nil path || some_empty paths

abbrev pub no_path : List Bytes → Bool
no_path [] = true
no_path (path ∷ paths) = false

-- `validate_send_request`
unfoldable pub validate_send_request : SendRequest → Option ErrorCode
validate_send_request r =
    if no_path r.paths || some_empty r.paths || is_nil r.host || r.port == 0 || r.chunk_size == 0
    then some invalid_request
    else none

-- The loop over the paths, on what each of them names.
unfoldable pub scan_all :
    (Bytes → Option Node) → List Bytes → Result (List FileEntry × List DirectoryEntry)
scan_all names [] = ok ([], [])
scan_all names (path ∷ paths) = do
  scanned ← scan_files path (names path)
  scanned_directories ← scan_directories path (names path)
  rest ← scan_all names paths
  ok (scanned ++ rest.0, scanned_directories ++ rest.1)
