-- ===== src/Filesystem/Normal.antt =====
-- What the code uses of `std::filesystem::path`, on POSIX: `filename`, and `lexically_normal` as far
-- as its file name goes.
use beam_drop.Prelude.{is_nil, Bool, true, false, List, [], ◌∷◌, Bytes, same_bytes, if◌then◌else◌}
use beam_drop.Text.{codes}
use beam_drop.Transfer.Path.{is_absolute, parts_of, last_of}

-- `path.filename()`: what is behind the last slash.
unfoldable pub filename : Bytes → Bytes
filename path = last_of (parts_of path)

-- A normal path: its parts, the last one first, and whether a slash is at its end.
pub record Parts : Type 0 where
  pub names : List Bytes
  pub open_end : Bool

-- A part `..` behind these.
abbrev go_up : Bool → List Bytes → Parts
go_up rooted [] = record { names = if rooted then [] else codes ".." ∷ []; open_end = false }
go_up rooted (name ∷ names) =
    if same_bytes name (codes "..")
    then record { names = codes ".." ∷ name ∷ names; open_end = false }
    else record { names = names; open_end = true }

unfoldable pub take_part : Bool → Bytes → Parts → Parts
take_part rooted part p =
    if is_nil part
    then record p { open_end = true }
    else if same_bytes part (codes ".")
    then record p { open_end = true }
    else if same_bytes part (codes "..")
    then go_up rooted p.names
    else record { names = part ∷ p.names; open_end = false }

unfoldable pub normal_parts : Bool → List Bytes → Parts → Parts
normal_parts rooted [] p = p
normal_parts rooted (part ∷ parts) p = normal_parts rooted parts (take_part rooted part p)

-- The file name of a normal path. No slash stands behind `..`, and a path without a part is `.`, or
-- the root, which has no file name.
abbrev name_of : Bool → List Bytes → Bool → Bytes
name_of rooted [] open_end = if rooted then [] else codes "."
name_of rooted (name ∷ names) open_end =
    if same_bytes name (codes "..") then name else if open_end then [] else name

-- `path.lexically_normal().filename()`, of a path that is not empty
unfoldable pub normal_filename : Bytes → Bytes
normal_filename path =
    let rooted = is_absolute path in
    let normal = normal_parts rooted (parts_of path) (record { names = []; open_end = false }) in
    name_of rooted normal.names normal.open_end
