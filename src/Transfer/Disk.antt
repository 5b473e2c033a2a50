-- ===== src/Transfer/Disk.antt =====
-- The part of the file system that the transfer sees: what is at each place. There are no symbolic
-- links, and a place is spelled in one way (`place` of Transfer/Path.antt); the empty place is the
-- current directory.
use mathlib.Core.List.{Memᴰ}
use mathlib.Core.List.Memᴰ.{head, tail, append_left, append_right, not-nil}
use beam_drop.Prelude.{
  ℕ, ◌≡◌, refl, ◌⊎◌, inl, inr, sym, ap, ◌∙◌, Bool, true, false, Option, none, some, List, [], ◌∷◌,
  ◌++◌, ◌≢◌, Bytes, length, All, All-mono, Bool-cases, if◌then◌else◌, same_bytes, same_bytes_self,
  same_bytes_iff,
}
use beam_drop.Errors.{Result, ok, err, runtime}

-- What a path names.
pub data Entry : Type 0 where
  file : Bytes → Entry
  directory : Entry

abbrev pub Disk : Type 0
Disk = Bytes → Option Entry

abbrev pub put : Disk → Bytes → Entry → Disk
put disk path entry other = if same_bytes other path then some entry else disk other

abbrev pub exists : Disk → Bytes → Bool
exists disk path = elim (disk path) [ none ↦ false | some entry ↦ true ]

abbrev pub is_directory : Option Entry → Bool
is_directory (some directory) = true
is_directory _ = false

-- `std::filesystem::create_directories`, with the places on the way to the last one from the top: a
-- place where nothing is becomes a directory, and a file on the way is an exception.
abbrev make_one : Bool → Option Entry → Result Disk → Result Disk → Result Disk
make_one can_make (some directory) made there = there
make_one can_make (some (file content)) made there = err runtime
make_one true none made there = made
make_one false none made there = err runtime

unfoldable pub make_directories : Bool → Disk → List Bytes → Result Disk
make_directories can_make disk [] = ok disk
make_directories can_make disk (p ∷ ps) =
    make_one can_make (disk p) (make_directories can_make (put disk p directory) ps)
      (make_directories can_make disk ps)

abbrev pub size_of : Option Entry → ℕ
size_of (some (file content)) = length content
size_of _ = 0

unfoldable pub existing_file_size : Disk → Bytes → ℕ
existing_file_size disk path = size_of (disk path)

abbrev pub content_of : Option Entry → Bytes
content_of (some (file content)) = content
content_of _ = []

pub put_same : (disk : Disk) (path : Bytes) (entry : Entry) → put disk path entry path ≡ some entry
put_same disk path entry = rw (same_bytes_self path) refl

pub content_size : (o : Option Entry) → length (content_of o) ≡ size_of o
content_size none = refl
content_size (some (file content)) = refl
content_size (some directory) = refl

-- At `q`, the disk is as before, or a directory where nothing was, at one of the places.
abbrev pub Grows : List Bytes → Disk → Disk → Bytes → Type 0
Grows places d e q = (e q ≡ d q) ⊎ ((d q ≡ none) × (e q ≡ some directory) × Memᴰ q places)

Grows-more :
    (p : Bytes) (ps : List Bytes) (d e : Disk) (q : Bytes) → Grows ps d e q → Grows (p ∷ ps) d e q
Grows-more p ps d e q (inl same) = inl same
Grows-more p ps d e q (inr (free, made, at)) = inr (free, made, tail at)

Grows-put :
    (p : Bytes) (ps : List Bytes) (d e : Disk) (q : Bytes)
    → d p ≡ none
    → Grows ps (put d p directory) e q
    → Grows (p ∷ ps) d e q
Grows-put p ps d e q free (inr (nothing, made, at)) = elim (Bool-cases (same_bytes q p)) [
  | inl same ↦ absurd (cc)
  | inr apart ↦ inr (cc, made, tail at)
]
Grows-put p ps d e q free (inl same) = elim (Bool-cases (same_bytes q p)) [
  | inl at ↦ let q_is = (same_bytes_iff q p).0 at in inr (cc, cc, head q_is)
  | inr apart ↦ inl cc
]

make_one-Grows :
    (can : Bool) (o : Option Entry) (made there : Result Disk) (d e : Disk) (p : Bytes)
    (ps : List Bytes) (q : Bytes)
    → d p ≡ o
    → (made ≡ ok e → Grows ps (put d p directory) e q)
    → (there ≡ ok e → Grows ps d e q)
    → make_one can o made there ≡ ok e
    → Grows (p ∷ ps) d e q
make_one-Grows can (some directory) made there d e p ps q is k l h = Grows-more p ps d e q (l h)
make_one-Grows can (some (file content)) made there d e p ps q is k l h = absurd (cc h)
make_one-Grows true none made there d e p ps q is k l h = Grows-put p ps d e q is (k h)
make_one-Grows false none made there d e p ps q is k l h = absurd (cc h)

-- `create_directories` only makes directories where nothing was, at the places on the way.
pub make_directories-Grows :
    (can_make : Bool) (d e : Disk) (ps : List Bytes) (q : Bytes)
    → make_directories can_make d ps ≡ ok e
    → Grows ps d e q
unfolding make_directories
make_directories-Grows can_make d e [] q h = inl cc
make_directories-Grows can_make d e (p ∷ ps) q h =
    make_one-Grows can_make (d p) _ _ d e p ps q refl
      (make_directories-Grows can_make (put d p directory) e ps q)
      (make_directories-Grows can_make d e ps q) h

pub Grows-left :
    (ps qs : List Bytes) (d e : Disk) (q : Bytes) → Grows ps d e q → Grows (ps ++ qs) d e q
Grows-left ps qs d e q (inl same) = inl same
Grows-left ps qs d e q (inr (free, made, at)) = inr (free, made, append_left qs at)

pub Grows-right :
    (ps qs : List Bytes) (d e : Disk) (q : Bytes) → Grows qs d e q → Grows (ps ++ qs) d e q
Grows-right ps qs d e q (inl same) = inl same
Grows-right ps qs d e q (inr (free, made, at)) = inr (free, made, append_right ps at)

pub Grows-trans :
    (ps : List Bytes) (d e f : Disk) (q : Bytes) → Grows ps d e q → Grows ps e f q → Grows ps d f q
Grows-trans ps d e f q (inl same) (inl same') = inl (same' ∙ same)
Grows-trans ps d e f q (inl same) (inr (free, made, at)) = inr (sym same ∙ free, made, at)
Grows-trans ps d e f q (inr (free, made, at)) (inl same) = inr (free, same ∙ made, at)
Grows-trans ps d e f q (inr (free, made, at)) (inr (free', made', at')) = absurd (cc)

not_among : (ps : List Bytes) (q : Bytes) → All (λ p. p ≢ q) ps → Memᴰ q ps → ⊥
not_among [] q apart at = not-nil at
not_among (p ∷ ps) q (ne, apart) (head same) = ne (sym same)
not_among (p ∷ ps) q (ne, apart) (tail at) = not_among ps q apart at

-- An entry that is there stays.
pub Grows-kept :
    (ps : List Bytes) (d e : Disk) (q : Bytes) (entry : Entry)
    → Grows ps d e q
    → d q ≡ some entry
    → e q ≡ some entry
Grows-kept ps d e q entry (inl same) is = cc
Grows-kept ps d e q entry (inr (free, made, at)) is = absurd (cc)

make_one-at :
    (can : Bool) (o : Option Entry) (made there : Result Disk) (d e : Disk) (p : Bytes)
    (ps : List Bytes) (q : Bytes)
    → d p ≡ o
    → (made ≡ ok e → (put d p directory q ≡ some directory) ⊎ Memᴰ q ps → e q ≡ some directory)
    → (there ≡ ok e → (d q ≡ some directory) ⊎ Memᴰ q ps → e q ≡ some directory)
    → make_one can o made there ≡ ok e
    → Memᴰ q (p ∷ ps)
    → e q ≡ some directory
make_one-at can (some directory) made there d e p ps q is k l h (head same) =
    l h (inl (ap d same ∙ is))
make_one-at can (some directory) made there d e p ps q is k l h (tail at) = l h (inr at)
make_one-at can (some (file content)) made there d e p ps q is k l h at = absurd (cc h)
make_one-at true none made there d e p ps q is k l h (head same) =
    k h (inl (ap (put d p directory) same ∙ put_same d p directory))
make_one-at true none made there d e p ps q is k l h (tail at) = k h (inr at)
make_one-at false none made there d e p ps q is k l h at = absurd (cc h)

made_from :
    (can_make : Bool) (d e : Disk) (ps : List Bytes) (q : Bytes)
    → make_directories can_make d ps ≡ ok e
    → (Memᴰ q ps → e q ≡ some directory)
    → (d q ≡ some directory) ⊎ Memᴰ q ps
    → e q ≡ some directory
made_from can_make d e ps q h k (inl is) =
    Grows-kept ps d e q directory (make_directories-Grows can_make d e ps q h) is
made_from can_make d e ps q h k (inr at) = k at

-- Every place on the way becomes a directory.
pub make_directories-at :
    (can_make : Bool) (d e : Disk) (ps : List Bytes) (q : Bytes)
    → make_directories can_make d ps ≡ ok e
    → Memᴰ q ps
    → e q ≡ some directory
unfolding make_directories
make_directories-at can_make d e [] q h at = absurd (not-nil at)
make_directories-at can_make d e (p ∷ ps) q h at =
    make_one-at can_make (d p) _ _ d e p ps q refl
      (λ h.
        made_from can_make (put d p directory) e ps q h
          (make_directories-at can_make (put d p directory) e ps q h))
      (λ h. made_from can_make d e ps q h (make_directories-at can_make d e ps q h)) h at

-- What is at a place that is none of these is as before.
pub Grows-apart :
    (ps : List Bytes) (d e : Disk) (q : Bytes) → Grows ps d e q → All (λ p. p ≢ q) ps → e q ≡ d q
Grows-apart ps d e q (inl same) apart = same
Grows-apart ps d e q (inr (free, made, at)) apart = absurd (not_among ps q apart at)

abbrev pub is_file : Option Entry → Bool
is_file (some (file content)) = true
is_file _ = false

put_free : (d : Disk) (p q : Bytes) → is_file (d q) ≡ false → is_file (put d p directory q) ≡ false
put_free d p q free = elim (Bool-cases (same_bytes q p)) [
  | inl at ↦ rw at refl
  | inr apart ↦ rw apart free
]

make_one_total :
    (o : Option Entry) (made there : Result Disk)
    → is_file o ≡ false
    → ((e : Disk) × (made ≡ ok e))
    → ((e : Disk) × (there ≡ ok e))
    → (e : Disk) × (make_one true o made there ≡ ok e)
make_one_total (some directory) made there free k l = l
make_one_total (some (file content)) made there free k l = absurd (cc free)
make_one_total none made there free k l = k

-- Where directories can be made and no file is on the way, they are.
pub make_directories_total :
    (d : Disk) (ps : List Bytes)
    → All (λ p. is_file (d p) ≡ false) ps
    → (e : Disk) × (make_directories true d ps ≡ ok e)
unfolding make_directories
make_directories_total d [] h = (d, refl)
make_directories_total d (p ∷ ps) (h, hs) =
    make_one_total (d p) _ _ h
      (make_directories_total (put d p directory) ps (
        All-mono (λ q. is_file (d q) ≡ false) (λ q. is_file (put d p directory q) ≡ false)
          (λ q. put_free d p q) ps hs))
      (make_directories_total d ps hs)

-- Where they are directories already, nothing is made.
pub make_directories_same :
    (can_make : Bool) (d : Disk) (ps : List Bytes)
    → All (λ p. d p ≡ some directory) ps
    → make_directories can_make d ps ≡ ok d
unfolding make_directories
make_directories_same can_make d [] h = refl
make_directories_same can_make d (p ∷ ps) (h, hs) = rw h (make_directories_same can_make d ps hs)

pub put_elsewhere :
    (d : Disk) (path other : Bytes) (entry : Entry)
    → other ≢ path
    → put d path entry other ≡ d other
put_elsewhere d path other entry ne = elim (Bool-cases (same_bytes other path)) [
  | inl same ↦ absurd (ne ((same_bytes_iff other path).0 same))
  | inr apart ↦ rw apart refl
]

-- A file that is put where no directory was leaves the directories.
pub put-directories :
    (d : Disk) (path : Bytes) (content : Bytes) (ps : List Bytes)
    → is_directory (d path) ≡ false
    → All (λ p. d p ≡ some directory) ps
    → All (λ p. put d path (file content) p ≡ some directory) ps
put-directories d path content ps free h =
    All-mono (λ p. d p ≡ some directory) (λ p. put d path (file content) p ≡ some directory)
      (λ p is. elim (Bool-cases (same_bytes p path)) [
        | inl same ↦ let q = (same_bytes_iff p path).0 same in absurd (cc)
        | inr apart ↦ rw apart is
      ])
      ps h
