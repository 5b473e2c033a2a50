-- ===== src/Filesystem.antt =====
-- The part of the file system that src/filesystem looks at: a tree.
pub mod Normal
pub mod Scanner
mod Tests
use beam_drop.Prelude.{ℕ, Bool, Bytes}

-- What a name stands for: a regular file, a directory, a symbolic link, to something or to nothing,
-- or something else. A directory lists its names in the order in which it is read.
mutual
  pub data Node : Type 0 where
    regular : Bytes → Node
    folder : Items → Node
    link : Bool → Node
    other : Node

  pub data Items : Type 0 where
    nil : Items
    cons : Bytes → Node → Items → Items

-- filesystem::FileEntry and filesystem::DirectoryEntry
pub record FileEntry : Type 0 where
  pub source_path : Bytes
  pub relative_path : Bytes
  pub size : ℕ

pub record DirectoryEntry : Type 0 where
  pub source_path : Bytes
  pub relative_path : Bytes
