-- ===== src/Filesystem/Scanner/Listing.antt =====
-- What a scan lists: every file of a tree, and nothing else, sorted by path.
use mathlib.Core.Path.{subst}
use mathlib.Core.List.{Memᴰ}
use mathlib.Core.List.Memᴰ.{head, tail, append_left, append_right, append_cases, not-nil}
use beam_drop.Prelude.{
  is_nil, ◌≡◌, ◌↔◌, inl, inr, refl, ap, sym, ◌∙◌, Bool, true, false, some, List, [], ◌∷◌, ◌++◌,
  Bytes,
}
use beam_drop.Errors.{Result, ok, err, ◌>>=◌, ◌>>◌, throw_if}
use beam_drop.Filesystem.{Node, regular, folder, link, other, Items, nil, cons, FileEntry}
use beam_drop.Filesystem.Normal.{normal_filename}
use beam_drop.Filesystem.Scanner.{
  Found, below, walk, walk_node, sort_entries, file_entry, files_of, file_path, scan_files,
  not_supported,
}
use beam_drop.Filesystem.Scanner.Order.{IsSorted, mem-sort_entries, sort_entries-IsSorted}

-- The tree has this node at this path.
pub data Contains : Items → Bytes → Node → Type 0 where
  here : {name : Bytes} {node : Node} {rest : Items} → Contains (cons name node rest) name node
  inside :
      {name path : Bytes} {items rest : Items} {node : Node}
      → Contains items path node
      → Contains (cons name (folder items) rest) (name ++ b'/' ∷ path) node
  later :
      {name path : Bytes} {first node : Node} {rest : Items}
      → Contains rest path node
      → Contains (cons name first rest) path node

-- What is below a directory.
mem-below :
    (name path : Bytes) (node : Node) (found : List Found)
    → Memᴰ (path, node) found
    → Memᴰ (name ++ b'/' ∷ path, node) (below name found)
unfolding below
mem-below name path node [] m = elim m [ ]
mem-below name path node ((p, n) ∷ rest) (head is) =
    head (ap (λ (f : Found). (name ++ b'/' ∷ f.0, f.1)) is)
mem-below name path node ((p, n) ∷ rest) (tail m) = tail (mem-below name path node rest m)

mem_of-below :
    (name path : Bytes) (node : Node) (found : List Found)
    → Memᴰ (path, node) (below name found)
    → (q : Bytes) × (path ≡ name ++ b'/' ∷ q) × Memᴰ (q, node) found
unfolding below
mem_of-below name path node [] m = elim m [ ]
mem_of-below name path node ((p, n) ∷ rest) (head is) =
    (p, ap (λ (f : Found). f.0) is, head (ap (λ (f : Found). (p, f.1)) is))
mem_of-below name path node ((p, n) ∷ rest) (tail m) =
    let (q, is, below_m) = mem_of-below name path node rest m in (q, is, tail below_m)

walk-cons :
    (name : Bytes) (node : Node) (rest : Items) (found : List Found)
    → walk (cons name node rest) ≡ ok found
    → (inner : List Found) × (behind : List Found) × (walk_node node ≡ ok inner)
      × (walk rest ≡ ok behind)
      × (found ≡ (name, node) ∷ (below name inner ++ behind))
unfolding walk
walk-cons name node rest found e = both (walk_node node) (walk rest) refl refl e
  where
    both :
        (r q : Result (List Found))
        → walk_node node ≡ r
        → walk rest ≡ q
        → (do inner ← r; behind ← q; ok ((name, node) ∷ (below name inner ++ behind))) ≡ ok found
        → (inner : List Found) × (behind : List Found) × (walk_node node ≡ ok inner)
          × (walk rest ≡ ok behind)
          × (found ≡ (name, node) ∷ (below name inner ++ behind))
    both (ok inner) (ok behind) r_is q_is e = (inner, behind, r_is, q_is, cc)
    both (ok inner) (err x) r_is q_is e = absurd (cc e)
    both (err x) q r_is q_is e = absurd (cc e)

-- The walk finds what the tree contains.
walk-mem :
    (items : Items) (found : List Found) (path : Bytes) (node : Node)
    → walk items ≡ ok found
    → Contains items path node
    → Memᴰ (path, node) found
unfolding walk_node
walk-mem nil found path node e c = elim c [ ]
walk-mem (cons name first rest) found path node e here =
    let (inner, behind, r_is, q_is, is) = walk-cons name node rest found e in
    subst (λ f. Memᴰ (path, node) f) (sym is) (head refl)
walk-mem (cons name first rest) found path node e (inside {path = below_path} {items = items} c) =
    let (inner, behind, r_is, q_is, is) = walk-cons name first rest found e in
    subst (λ f. Memᴰ (path, node) f) (sym is)
      (tail (
        append_left behind
          (mem-below name below_path node inner (walk-mem items inner below_path node r_is c))))
walk-mem (cons name first rest) found path node e (later c) =
    let (inner, behind, r_is, q_is, is) = walk-cons name first rest found e in
    subst (λ f. Memᴰ (path, node) f) (sym is)
      (tail (append_right (below name inner) (walk-mem rest behind path node q_is c)))

not_in : {B : Type 0} {x : Found} {found : List Found} → [] ≡ found → Memᴰ x found → B
not_in {x = x} is m = absurd (not-nil (subst (λ f. Memᴰ x f) (sym is) m))

found-Contains :
    (name : Bytes) (first : Node) (rest : Items) (inner behind : List Found) (path : Bytes)
    (node : Node)
    → Memᴰ (path, node) ((name, first) ∷ (below name inner ++ behind))
    → (Memᴰ (path, node) behind → Contains rest path node)
    → ((q : Bytes) → Memᴰ (q, node) inner → Contains (cons name first rest) (name ++ b'/' ∷ q) node)
    → Contains (cons name first rest) path node
found-Contains name first rest inner behind path node (head is) k sub =
    subst (λ (f : Found). Contains (cons name first rest) f.0 f.1) (sym is) here
found-Contains name first rest inner behind path node (tail m) k sub =
    elim (append_cases (below name inner) m) [
      | inl b ↦
          let (q, is, in_it) = mem_of-below name path node inner b in
          subst (λ p. Contains (cons name first rest) p node) (sym is) (sub q in_it)
      | inr b ↦ later (k b)
    ]

-- And nothing else.
mem-walk :
    (items : Items) (found : List Found) (path : Bytes) (node : Node)
    → walk items ≡ ok found
    → Memᴰ (path, node) found
    → Contains items path node
unfolding walk_node
mem-walk nil found path node e m = not_in (cc e) m
mem-walk (cons name (folder items) rest) found path node e m =
    let (inner, behind, r_is, q_is, is) = walk-cons name (folder items) rest found e in
    found-Contains name (folder items) rest inner behind path node
      (subst (λ f. Memᴰ (path, node) f) is m) (mem-walk rest behind path node q_is)
      (λ q k. inside (mem-walk items inner q node r_is k))
mem-walk (cons name (regular content) rest) found path node e m =
    let (inner, behind, r_is, q_is, is) = walk-cons name (regular content) rest found e in
    found-Contains name (regular content) rest inner behind path node
      (subst (λ f. Memᴰ (path, node) f) is m) (mem-walk rest behind path node q_is)
      (λ q k. not_in (cc r_is) k)
mem-walk (cons name other rest) found path node e m =
    let (inner, behind, r_is, q_is, is) = walk-cons name other rest found e in
    found-Contains name other rest inner behind path node (subst (λ f. Memᴰ (path, node) f) is m)
      (mem-walk rest behind path node q_is) (λ q k. not_in (cc r_is) k)
mem-walk (cons name (link t) rest) found path node e m =
    let (inner, behind, r_is, q_is, is) = walk-cons name (link t) rest found e in absurd (cc r_is)

-- The entries of the files among them.
mem-files_of :
    (root path relative content : Bytes) (found : List Found)
    → Memᴰ (relative, regular content) found
    → Memᴰ (file_entry root path relative content) (files_of root path found)
unfolding files_of
mem-files_of root path relative content [] m = elim m [ ]
mem-files_of root path relative content ((p, regular c) ∷ rest) (head is) =
    let same : relative ≡ p = ap (λ (f : Found). f.0) is in
    let node_is : regular content ≡ regular c = ap (λ (f : Found). f.1) is in
    head (
      ap (λ r. file_entry root path r content) same
      ∙ ap (λ b. file_entry root path p b) (cc node_is))
mem-files_of root path relative content ((p, folder items) ∷ rest) (head is) =
    absurd (cc (ap (λ (f : Found). f.1) is))
mem-files_of root path relative content ((p, link t) ∷ rest) (head is) =
    absurd (cc (ap (λ (f : Found). f.1) is))
mem-files_of root path relative content ((p, other) ∷ rest) (head is) =
    absurd (cc (ap (λ (f : Found). f.1) is))
mem-files_of root path relative content ((p, regular c) ∷ rest) (tail m) =
    tail (mem-files_of root path relative content rest m)
mem-files_of root path relative content ((p, folder items) ∷ rest) (tail m) =
    mem-files_of root path relative content rest m
mem-files_of root path relative content ((p, link t) ∷ rest) (tail m) =
    mem-files_of root path relative content rest m
mem-files_of root path relative content ((p, other) ∷ rest) (tail m) =
    mem-files_of root path relative content rest m

-- An entry of this list is that of a file that was found.
abbrev IsFrom : Bytes → Bytes → List Found → FileEntry → Type 0
IsFrom root path found e =
    (relative : Bytes) × (content : Bytes) × (e ≡ file_entry root path relative content)
    × Memᴰ (relative, regular content) found

IsFrom-rest :
    (root path : Bytes) {x : Found} {found : List Found} {e : FileEntry}
    → IsFrom root path found e
    → IsFrom root path (x ∷ found) e
IsFrom-rest root path (relative, content, is, m) = (relative, content, is, tail m)

mem_of-files_of :
    (root path : Bytes) (e : FileEntry) (found : List Found)
    → Memᴰ e (files_of root path found)
    → IsFrom root path found e
unfolding files_of
mem_of-files_of root path e [] m = elim m [ ]
mem_of-files_of root path e ((p, regular c) ∷ rest) (head is) = (p, c, is, head refl)
mem_of-files_of root path e ((p, regular c) ∷ rest) (tail m) =
    IsFrom-rest root path (mem_of-files_of root path e rest m)
mem_of-files_of root path e ((p, folder items) ∷ rest) m =
    IsFrom-rest root path (mem_of-files_of root path e rest m)
mem_of-files_of root path e ((p, link t) ∷ rest) m =
    IsFrom-rest root path (mem_of-files_of root path e rest m)
mem_of-files_of root path e ((p, other) ∷ rest) m =
    IsFrom-rest root path (mem_of-files_of root path e rest m)

-- A scan of a directory that succeeds gives the sorted entries of its walk.
scan_files-walk :
    (path : Bytes) (items : Items) (entries : List FileEntry)
    → scan_files path (some (folder items)) ≡ ok entries
    → (found : List Found) × (walk items ≡ ok found)
      × (entries ≡ sort_entries file_path (files_of (normal_filename path) path found))
unfolding scan_files
scan_files-walk path items entries e = behind (is_nil (normal_filename path)) (walk items) refl e
  where
    behind :
        (b : Bool) (r : Result (List Found))
        → walk items ≡ r
        → (do
          throw_if b not_supported
          found ← r
          ok (sort_entries file_path (files_of (normal_filename path) path found)))
          ≡ ok entries
        → (found : List Found) × (walk items ≡ ok found)
          × (entries ≡ sort_entries file_path (files_of (normal_filename path) path found))
    behind true r r_is e = absurd (cc e)
    behind false (err x) r_is e = absurd (cc e)
    behind false (ok found) r_is e = (found, r_is, cc)

pub mem-scan_files :
    (path : Bytes) (items : Items) (entries : List FileEntry) (e : FileEntry)
    → scan_files path (some (folder items)) ≡ ok entries
    → Memᴰ e entries ↔ (
        (relative : Bytes) × (content : Bytes) × (e
          ≡ file_entry (normal_filename path) path relative content)
        × Contains items relative (regular content))
mem-scan_files path items entries e scanned =
    let (found, walked, is) = scan_files-walk path items entries scanned in
    let all = files_of (normal_filename path) path found in
    (
      λ m.
          let (relative, content, e_is, there) =
            mem_of-files_of (normal_filename path) path e found
              ((mem-sort_entries file_path e all).0 (subst (λ l. Memᴰ e l) is m)) in
          (relative, content, e_is, mem-walk items found relative (regular content) walked there),
      λ (relative, content, e_is, there).
          subst (λ l. Memᴰ e l) (sym is)
            ((mem-sort_entries file_path e all).1 (
              subst (λ x. Memᴰ x all) (sym e_is)
                (mem-files_of (normal_filename path) path relative content found
                  (walk-mem items found relative (regular content) walked there)))),
    )

scan_files-IsSorted :
    (path : Bytes) (items : Items) (entries : List FileEntry)
    → scan_files path (some (folder items)) ≡ ok entries
    → IsSorted file_path entries
scan_files-IsSorted path items entries scanned =
    let (found, walked, is) = scan_files-walk path items entries scanned in
    subst (λ l. IsSorted file_path l) (sym is)
      (sort_entries-IsSorted file_path (files_of (normal_filename path) path found))

-- A scan of a directory that succeeds lists an entry exactly if the tree has a regular file whose
-- place, name and size the entry gives, and the list is sorted by the path that an entry is sent
-- under.
pub scan_files-Listing :
    (path : Bytes) (items : Items) (entries : List FileEntry)
    → scan_files path (some (folder items)) ≡ ok entries
    → IsSorted file_path entries
      × ((e : FileEntry)
          → Memᴰ e entries ↔ (
              (relative : Bytes) × (content : Bytes) × (e
                ≡ file_entry (normal_filename path) path relative content)
              × Contains items relative (regular content)))
scan_files-Listing path items entries scanned = (
  scan_files-IsSorted path items entries scanned,
  λ e. mem-scan_files path items entries e scanned,
)
