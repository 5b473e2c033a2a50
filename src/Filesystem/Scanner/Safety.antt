-- ===== src/Filesystem/Scanner/Safety.antt =====
-- The receiver takes every path that a scan gives for a directory with plain names.
use mathlib.Core.Path.{subst}
use mathlib.Core.List.{Memᴰ}
use beam_drop.Prelude.{
  is_nil, ◌≡◌, refl, sym, true, false, List, [], ◌∷◌, ◌++◌, Bytes, ◌==◌, same_bytes, some, All,
}
use beam_drop.Errors.{ok}
use beam_drop.Text.{codes}
use beam_drop.Filesystem.{Node, regular, folder, Items, nil, cons, FileEntry}
use beam_drop.Filesystem.Normal.{normal_filename}
use beam_drop.Filesystem.Scanner.{scan_files}
use beam_drop.Filesystem.Scanner.Listing.{Contains, here, inside, later, mem-scan_files}
use beam_drop.Transfer.Path.{is_absolute, parts_of, has_dot_dot, join, safe_join, ends_open}

-- A name: it has no slash, and is neither empty nor `..`.
pub record IsName (name : Bytes) : Type 0 where
  pub no_slash : All (λ c. (c == b'/') ≡ false) name
  pub some_byte : is_nil name ≡ false
  pub not_up : same_bytes name (codes "..") ≡ false

-- The names of a tree.
unfoldable mutual
  pub AllNames : Items → Type 0
  AllNames nil = Unit {0}
  AllNames (cons name node rest) = IsName name × (NodeNames node × AllNames rest)

  pub NodeNames : Node → Type 0
  NodeNames (folder items) = AllNames items
  NodeNames _ = Unit {0}

-- The parts of a name, and of what is below it.
parts_of-append :
    (name path : Bytes)
    → All (λ c. (c == b'/') ≡ false) name
    → parts_of (name ++ b'/' ∷ path) ≡ name ∷ parts_of path
unfolding parts_of
parts_of-append [] path h = refl
parts_of-append (c ∷ name) path h = rw (parts_of-append name path h.1, h.0) refl

parts_of-name : (name : Bytes) → All (λ c. (c == b'/') ≡ false) name → parts_of name ≡ name ∷ []
unfolding parts_of
parts_of-name [] h = refl
parts_of-name (c ∷ name) h = rw (parts_of-name name h.1, h.0) refl

-- No path below a directory goes up.
stays_below :
    (items : Items) (path : Bytes) (node : Node)
    → AllNames items
    → Contains items path node
    → has_dot_dot (parts_of path) ≡ false
unfolding has_dot_dot AllNames
stays_below nil path node h c = elim c [ ]
stays_below (cons name first rest) path node h here =
    rw (parts_of-name path h.0.no_slash, h.0.not_up) refl
stays_below (cons name first rest) path node h (inside {path = below_path} {items = items} c) =
    rw (parts_of-append name below_path h.0.no_slash, h.0.not_up)
      (stays_below items below_path node h.1.0 c)
stays_below (cons name first rest) path node h (later c) = stays_below rest path node h.1.1 c

name-ends_open :
    (name : Bytes)
    → All (λ c. (c == b'/') ≡ false) name
    → is_nil name ≡ false
    → ends_open name ≡ true
name-ends_open [] h some_byte = absurd (cc some_byte)
name-ends_open (c ∷ []) h some_byte = rw (h.0) refl
name-ends_open (c ∷ d ∷ name) h some_byte = name-ends_open (d ∷ name) h.1 refl

name-is_absolute : (name path : Bytes) → IsName name → is_absolute (name ++ path) ≡ false
unfolding is_absolute
name-is_absolute [] path h = absurd (cc (h.some_byte))
name-is_absolute (c ∷ name) path h = h.no_slash.0

joined_safe :
    (save_dir root relative : Bytes)
    → IsName root
    → has_dot_dot (parts_of relative) ≡ false
    → safe_join save_dir (join root relative) ≡ ok (join save_dir (join root relative))
joined_safe save_dir root relative h below =
    let is : join root relative ≡ root ++ b'/' ∷ relative =
      unfold join in rw (name-ends_open root h.no_slash h.some_byte) refl in
    let flat : has_dot_dot (parts_of (root ++ b'/' ∷ relative)) ≡ false =
      unfold has_dot_dot in rw (parts_of-append root relative h.no_slash, h.not_up) below in
    rw is (unfold safe_join in rw (name-is_absolute root (b'/' ∷ relative) h, flat) refl)

-- Where the directory's name and the names below it are plain, the receiver takes the path of every
-- file that the scan lists, and puts it below its save directory.
pub scan_files-safe_join :
    (path save_dir : Bytes) (items : Items) (entries : List FileEntry) (e : FileEntry)
    → scan_files path (some (folder items)) ≡ ok entries
    → IsName (normal_filename path)
    → AllNames items
    → Memᴰ e entries
    → safe_join save_dir e.relative_path ≡ ok (join save_dir e.relative_path)
scan_files-safe_join path save_dir items entries e scanned root names m =
    let (relative, content, is, c) = (mem-scan_files path items entries e scanned).0 m in
    subst
      (λ (x : FileEntry). safe_join save_dir x.relative_path ≡ ok (join save_dir x.relative_path))
      (sym is)
      (joined_safe save_dir (normal_filename path) relative root
        (stays_below items relative (regular content) names c))
