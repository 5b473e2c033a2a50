-- ===== src/Filesystem/Tests.antt =====
-- File names of normal paths, and the scan of a small tree.
use mathlib.Core.List.{Memᴰ}
use mathlib.Core.List.Memᴰ.{head}
use beam_drop.Prelude.{◌≡◌, ◌↔◌, arith, refl, true, some, [], ◌∷◌, List, Bytes}
use beam_drop.Errors.{ok, err}
use beam_drop.Text.{codes}
use beam_drop.Filesystem.{FileEntry, Items, nil, cons, regular, folder, link, other}
use beam_drop.Filesystem.Normal.{normal_filename, normal_parts, take_part}
use beam_drop.Filesystem.Scanner.{
  scan_files, scan_directories, walk, below, insert, sort_entries, less, files_of, file_entry,
  file_path, not_supported,
}
use beam_drop.Filesystem.Scanner.Order.{IsSorted}
use beam_drop.Filesystem.Scanner.Safety.{IsName, AllNames, scan_files-safe_join}
use beam_drop.Transfer.Path.{safe_join, join}
use beam_drop.Filesystem.Scanner.Listing.{Contains, scan_files-Listing}

abbrev names : List Bytes → List Bytes
names [] = []
names (path ∷ paths) = normal_filename path ∷ names paths

normal_filenames :
    names (
      codes "a"
      ∷ codes "a/"
      ∷ codes "a/."
      ∷ codes "./a"
      ∷ codes "a/.."
      ∷ codes "a/b/.."
      ∷ codes "../a/.."
      ∷ codes "a/../.."
      ∷ codes "/"
      ∷ codes "/.."
      ∷ codes "/a/.."
      ∷ codes "//a//b"
      ∷ codes "a/../b"
      ∷ codes "../"
      ∷ [])
    ≡ codes "a"
      ∷ []
      ∷ []
      ∷ codes "a"
      ∷ codes "."
      ∷ []
      ∷ codes ".."
      ∷ codes ".."
      ∷ []
      ∷ []
      ∷ []
      ∷ codes "b"
      ∷ codes "b"
      ∷ codes ".."
      ∷ []
unfolding normal_filename normal_parts take_part beam_drop.Transfer.Path.parts_of
    beam_drop.Transfer.Path.is_absolute beam_drop.Prelude.same_bytes
normal_filenames = refl

-- A directory with a file, and a file in a directory.
abbrev tree : Items
tree = cons (codes "b") (regular (codes "xy")) (
    cons (codes "a") (folder (cons (codes "c") (regular (codes "z")) (cons (codes "p") other nil)))
      nil)

abbrev entries : List FileEntry
entries =
    record { source_path = codes "in/a/c"; relative_path = codes "in/a/c"; size = 1 }
    ∷ record { source_path = codes "in/b"; relative_path = codes "in/b"; size = 2 }
    ∷ []

tree_scanned : scan_files (codes "in") (some (folder tree)) ≡ ok entries
unfolding scan_files walk below insert sort_entries less files_of normal_filename normal_parts
    take_part beam_drop.Transfer.Path.join beam_drop.Transfer.Path.parts_of
    beam_drop.Transfer.Path.is_absolute beam_drop.Prelude.same_bytes
tree_scanned = refl

scan_files-Listing_example :
    IsSorted file_path entries
    × ((e : FileEntry)
        → Memᴰ e entries ↔ (
            (relative : Bytes) × (content : Bytes) × (e
              ≡ file_entry (normal_filename (codes "in")) (codes "in") relative content)
            × Contains tree relative (regular content)))
scan_files-Listing_example = scan_files-Listing (codes "in") tree entries tree_scanned

-- A link anywhere below stops the scan.
link_refused :
    scan_directories
      (codes "in")
      (some (folder (cons (codes "a") (folder (cons (codes "l") (link true) nil)) nil)))
    ≡ err not_supported
unfolding scan_directories walk normal_filename normal_parts take_part
    beam_drop.Transfer.Path.parts_of beam_drop.Transfer.Path.is_absolute
    beam_drop.Prelude.same_bytes
link_refused = refl

root_named : IsName (normal_filename (codes "in"))
unfolding normal_filename normal_parts take_part beam_drop.Transfer.Path.parts_of
    beam_drop.Transfer.Path.is_absolute beam_drop.Prelude.same_bytes
root_named = record { no_slash = ground arith; some_byte = refl; not_up = refl }

plain : AllNames tree
unfolding AllNames beam_drop.Prelude.same_bytes
plain = (
  record { no_slash = ground arith; some_byte = refl; not_up = refl },
  (
    tt,
    (
      record { no_slash = ground arith; some_byte = refl; not_up = refl },
      (
        (
          record { no_slash = ground arith; some_byte = refl; not_up = refl },
          (tt, (record { no_slash = ground arith; some_byte = refl; not_up = refl }, (tt, tt))),
        ),
        tt,
      ),
    ),
  ),
)

scan_files-safe_join_example :
    safe_join (codes "save") (codes "in/a/c") ≡ ok (join (codes "save") (codes "in/a/c"))
scan_files-safe_join_example =
    scan_files-safe_join (codes "in") (codes "save") tree entries
      (record { source_path = codes "in/a/c"; relative_path = codes "in/a/c"; size = 1 })
      tree_scanned root_named plain (head refl)

-- A directory that is given as `..` is sent under names that the receiver refuses.
parent_refused : normal_filename (codes "..") ≡ codes ".."
unfolding normal_filename normal_parts take_part beam_drop.Transfer.Path.parts_of
    beam_drop.Transfer.Path.is_absolute beam_drop.Prelude.same_bytes
parent_refused = refl
