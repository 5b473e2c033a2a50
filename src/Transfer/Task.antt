-- ===== src/Transfer/Task.antt =====
-- A task from one end to the other: `send_task` of Sender.cpp and `receive_task` of Receiver.cpp, into
-- a place where nothing is yet, without resume.
pub mod Files
pub mod Directories
pub mod Delivery
pub mod Answers
mod Tests
pub mod Spots
use beam_drop.Prelude.{
  ℕ, zero, suc, ◌≡◌, ◌≢◌, ap, ◌&&◌, Bool, true, false, Option, none, some, List, [], ◌∷◌, ◌++◌,
  Bytes, length, ◌+◌, ◌<◌, ◌^◌, All,
}
use beam_drop.Errors.{ok}
use beam_drop.Network.{Os}
use beam_drop.Protocol.{make_packet, directory_info, IsByte}
use beam_drop.Protocol.Codec
use beam_drop.Filesystem.{FileEntry, DirectoryEntry}
use beam_drop.Transfer.Disk.{Disk, Entry, Grows, exists, file, directory, is_file}
use beam_drop.Transfer.Path.{
  place, above, along, parts_of, names_of, safe_join, safe_directory_path,
}
use beam_drop.Transfer.EndToEnd.{answer, announced}
use beam_drop.Transfer.Receiver.{Side, plain_receiver}
use beam_drop.Transfer.Receiver.Total.{Works}
use beam_drop.Transfer.Receiver.Steps.{Honest}

-- A file on its way: what it holds, the hash of that, and the path that it gets.
pub record Parcel : Type 0 where
  pub path : Bytes
  pub content : Bytes
  pub hash : Bytes

-- A directory on its way, and the path that it gets.
pub record Places (save_dir : Bytes) (entry : DirectoryEntry) (path : Bytes) : Type 0 where
  pub path_ne : entry.relative_path ≢ []
  pub path_bytes : All IsByte entry.relative_path
  pub path_fits : 52 + length entry.relative_path < 2 ^ 64
  pub safe : safe_directory_path save_dir entry.relative_path ≡ ok path
  pub named : names_of (parts_of path) ≢ []

abbrev pub AllPlaces : Bytes → List DirectoryEntry → List Bytes → Type 0
AllPlaces save_dir [] [] = Unit {0}
AllPlaces save_dir (entry ∷ entries) (path ∷ paths) =
    Places save_dir entry path × AllPlaces save_dir entries paths
AllPlaces save_dir _ _ = ⊥

-- The packets of the directories.
abbrev pub directory_wire : List DirectoryEntry → Bytes
directory_wire [] = []
directory_wire (entry ∷ entries) =
    Codec.encode (make_packet directory_info entry.relative_path) ++ directory_wire entries

-- The answers of a receiver that has nothing yet.
abbrev pub replies : ℕ → Bytes
replies zero = []
replies (suc n) = Codec.encode (answer 0) ++ replies n

-- An entry's file, and where the receiver puts it.
pub record Carries (os : Os) (h : ℕ) (state_file : Bytes) (disk : Disk) (save_dir : Bytes)
    (entry : FileEntry) (p : Parcel) : Type 0 where
  pub there : disk entry.source_path ≡ some (file p.content)
  pub safe : safe_join save_dir entry.relative_path ≡ ok p.path
  pub honest :
      Honest os h
        (plain_receiver state_file)
        (announced entry.relative_path p.content p.hash)
        p.content
  pub way_apart : All (λ q. q ≢ place p.path) (above p.path)

abbrev pub AllCarry : Os → ℕ → Bytes → Disk → Bytes → List FileEntry → List Parcel → Type 0
AllCarry os h state_file disk save_dir [] [] = Unit {0}
AllCarry os h state_file disk save_dir (entry ∷ entries) (p ∷ ps) =
    Carries os h state_file disk save_dir entry p
    × AllCarry os h state_file disk save_dir entries ps
AllCarry os h state_file disk save_dir _ _ = ⊥

-- What is to come to a place, with the places on the way to it that become directories.
pub record Spot : Type 0 where
  pub at : Bytes
  pub ways : List Bytes
  pub entry : Entry

abbrev pub folders : List Bytes → List Spot
folders [] = []
folders (path ∷ paths) =
    (record { at = place path; ways = along path; entry = directory }) ∷ folders paths

abbrev pub files : List Parcel → List Spot
files [] = []
files (p ∷ ps) =
    (record { at = place p.path; ways = above p.path; entry = file p.content }) ∷ files ps

-- Nothing is at the places, and no file on the ways.
abbrev pub Ready : Disk → List Spot → Type 0
Ready disk spots = All (λ x. (disk x.at ≡ none) × All (λ p. is_file (disk p) ≡ false) x.ways) spots

-- A spot that comes first is out of the way of a later one: they are two places, the later one is not
-- made on the way to the first, and a file is not on the way to the later one.
abbrev pub Clear : Spot → Spot → Type 0
Clear x y =
    (y.at ≢ x.at)
    × All (λ p. p ≢ y.at) x.ways
    × (is_file (some x.entry) ≡ true → All (λ p. p ≢ x.at) y.ways)

abbrev pub Orderly : List Spot → Type 0
Orderly [] = Unit {0}
Orderly (x ∷ spots) = All (Clear x) spots × Orderly spots

abbrev pub all_ways : List Spot → List Bytes
all_ways [] = []
all_ways (x ∷ spots) = x.ways ++ all_ways spots

-- Everything came to its place.
abbrev pub Arrived : Disk → List Spot → Type 0
Arrived disk spots = All (λ x. disk x.at ≡ some x.entry) spots

-- At every other place the disk is as before, or has a directory where nothing was, on one of the
-- ways.
abbrev pub Untouched : List Spot → Disk → Disk → Type 0
Untouched spots d e =
    (other : Bytes) → All (λ x. other ≢ x.at) spots → Grows (all_ways spots) d e other

abbrev pub Changed : List Spot → Disk → Disk → Type 0
Changed spots d e = Arrived e spots × Untouched spots d e

pub is_free : (disk : Disk) (path : Bytes) → disk path ≡ none → exists disk path ≡ false
is_free disk path free = ap (λ (o : Option Entry). elim o [ none ↦ false | some entry ↦ true ]) free

pub nothing_there :
    (disk : Disk) (path : Bytes) → disk path ≡ none → (exists disk path && true) ≡ false
nothing_there disk path free = ap (λ b. b && true) (is_free disk path free)

-- A receiver without resume in front of a task: nothing fails but the connection, every directory and
-- then every file has a place of its own, out of the way of the later ones, nothing is there yet, and
-- no file is on the ways.
pub record Expects (os : Os) (h : ℕ) (state_file save_dir : Bytes) (source : Disk)
    (entries : List FileEntry) (directories : List DirectoryEntry) (ps : List Parcel)
    (paths : List Bytes) (r : Side os.State) : Type 0 where
  pub carried : AllCarry os h state_file source save_dir entries ps
  pub placed : AllPlaces save_dir directories paths
  pub free : Ready r.disk (folders paths ++ files ps)
  pub apart : Orderly (folders paths ++ files ps)
  pub works : Works os h (plain_receiver state_file) r
