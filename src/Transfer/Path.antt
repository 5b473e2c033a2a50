-- ===== src/Transfer/Path.antt =====
-- `safe_join` of src/transfer/Receiver.cpp, on POSIX paths: the parts of a path are what stands
-- between its slashes.
use mathlib.Core.List.{Memᴰ}
use mathlib.Core.List.Memᴰ.{head, tail}
use beam_drop.Prelude.{
  is_nil, ℕ, zero, suc, ◌≡◌, ◌≢◌, refl, Bool, true, false, not, inl, inr, ◌||◌, List, [], ◌∷◌, ◌++◌,
  arith, Bytes, ◌==◌, if◌then◌else◌, same_bytes, Bool-cases,
}
use beam_drop.Errors.{Result, ok, transfer, unsafe_path, throw_if, ◌>>=◌, ◌>>◌}
use beam_drop.Text.{codes}

unfoldable pub is_absolute : Bytes → Bool
is_absolute [] = false
is_absolute (c ∷ cs) = c == b'/'

abbrev push_front : ℕ → List Bytes → List Bytes
push_front c [] = (c ∷ []) ∷ []
push_front c (part ∷ parts) = (c ∷ part) ∷ parts

-- The parts of a path, those without a byte included.
unfoldable pub parts_of : Bytes → List Bytes
parts_of [] = [] ∷ []
parts_of (c ∷ cs) = let rest = parts_of cs in if c == b'/' then [] ∷ rest else push_front c rest

abbrev pub dot_dot : Bytes
dot_dot = codes ".."

unfoldable pub has_dot_dot : List Bytes → Bool
has_dot_dot [] = false
has_dot_dot (part ∷ parts) = same_bytes part dot_dot || has_dot_dot parts

-- `save_dir / path`, for a path that is not absolute
abbrev pub ends_open : Bytes → Bool
ends_open [] = false
ends_open (c ∷ []) = not (c == b'/')
ends_open (c ∷ cs) = ends_open cs

unfoldable pub join : Bytes → Bytes → Bytes
join save_dir path = if ends_open save_dir then save_dir ++ b'/' ∷ path else save_dir ++ path

-- The names of a path: an empty part and a dot stay where they are.
unfoldable pub names_of : List Bytes → List Bytes
names_of [] = []
names_of (part ∷ parts) =
    let rest = names_of parts in
    if is_nil part || same_bytes part (codes ".") then rest else part ∷ rest

abbrev pub start_of : Bytes → Bytes
start_of path = if is_absolute path then codes "/" else []

-- The places on the way along the names.
unfoldable pub way_down : Bytes → List Bytes → List Bytes
way_down here [] = []
way_down here (name ∷ names) = let next = join here name in next ∷ way_down next names

unfoldable pub end_of : Bytes → List Bytes → Bytes
end_of here [] = here
end_of here (name ∷ names) = end_of (join here name) names

-- The place that a path stands for, spelled in one way: `a/./b` and `a//b` are `a/b`.
unfoldable pub place : Bytes → Bytes
place path = end_of (start_of path) (names_of (parts_of path))

-- The places on the way to it, itself included.
unfoldable pub along : Bytes → List Bytes
along path = way_down (start_of path) (names_of (parts_of path))

down_end :
    (here name : Bytes) (names : List Bytes)
    → Memᴰ (end_of here (name ∷ names)) (way_down here (name ∷ names))
unfolding way_down end_of
down_end here name [] = head refl
down_end here name (other ∷ names) = tail (down_end (join here name) other names)

-- A path with a name stands for the last place on its way.
pub place_along : (path : Bytes) → names_of (parts_of path) ≢ [] → Memᴰ (place path) (along path)
unfolding place along
place_along path named = last (names_of (parts_of path)) named
  where
    last :
        (names : List Bytes)
        → names ≢ []
        → Memᴰ (end_of (start_of path) names) (way_down (start_of path) names)
    last [] ne = absurd (ne refl)
    last (name ∷ names) ne = down_end (start_of path) name names

abbrev pub without_last : List Bytes → List Bytes
without_last [] = []
without_last (part ∷ []) = []
without_last (part ∷ parts) = part ∷ without_last parts

-- The places on the way to its `parent_path()`.
unfoldable pub above : Bytes → List Bytes
above path = way_down (start_of path) (names_of (without_last (parts_of path)))

unfoldable pub safe_join : Bytes → Bytes → Result Bytes
safe_join save_dir relative_path = do
  throw_if (is_absolute relative_path) (transfer unsafe_path)
  throw_if (has_dot_dot (parts_of relative_path)) (transfer unsafe_path)
  ok (join save_dir relative_path)

-- `safe_directory_path`: the last part, the file name, is not empty.
abbrev pub last_of : List Bytes → Bytes
last_of [] = []
last_of (part ∷ []) = part
last_of (part ∷ parts) = last_of parts

unfoldable pub safe_directory_path : Bytes → Bytes → Result Bytes
safe_directory_path save_dir relative_path = do
  path ← safe_join save_dir relative_path
  throw_if (is_nil (last_of (parts_of path))) (transfer unsafe_path)
  ok path

-- Whether a walk along the parts, `depth` directories below its start, comes above its start. A part
-- that is empty or a dot stays, two dots go up, and every other part goes down.
unfoldable pub escapes : ℕ → List Bytes → Bool
escapes depth [] = false
escapes zero (part ∷ parts) =
    let stay = escapes 0 parts in
    let down = escapes 1 parts in
    if same_bytes part dot_dot
    then true
    else if is_nil part || same_bytes part (codes ".")
    then stay
    else down
escapes (suc depth) (part ∷ parts) =
    let up = escapes depth parts in
    let stay = escapes (suc depth) parts in
    let down = escapes (suc (suc depth)) parts in
    if same_bytes part dot_dot
    then up
    else if is_nil part || same_bytes part (codes ".")
    then stay
    else down

stays : (parts : List Bytes) (depth : ℕ) → has_dot_dot parts ≡ false → escapes depth parts ≡ false
unfolding has_dot_dot escapes
stays [] depth h = refl
stays (part ∷ parts) zero h = ground (arith, stays parts 0, stays parts 1)
stays (part ∷ parts) (suc depth) h =
    ground (arith, stays parts (suc depth), stays parts (suc (suc depth)))

-- A path that `safe_join` gives is the one below the save directory, of a relative path that is not
-- absolute, and a walk along the parts of that path never comes above the save directory.
pub safe_join_lem :
    (save_dir relative_path path : Bytes)
    → safe_join save_dir relative_path ≡ ok path
    → (path ≡ join save_dir relative_path)
      × ((is_absolute relative_path ≡ false) × (escapes 0 (parts_of relative_path) ≡ false))
unfolding safe_join
safe_join_lem save_dir relative_path path h = elim (Bool-cases (is_absolute relative_path)) [
  | inl absolute ↦ absurd (cc)
  | inr below ↦ elim (Bool-cases (has_dot_dot (parts_of relative_path))) [
    | inl up ↦ absurd (cc)
    | inr down ↦ (cc, (below, stays (parts_of relative_path) 0 down))
  ]
]
