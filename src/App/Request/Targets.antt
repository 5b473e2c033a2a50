-- ===== src/App/Request/Targets.antt =====
-- `validate_unique_targets` finds every entry that has the target of another one.
use beam_drop.Prelude.{
  ◌≡◌, ◌≢◌, ◌↔◌, inl, inr, refl, sym, Bool, true, false, Option, none, some, List, [], ◌∷◌, ◌++◌,
  Bytes, same_bytes, same_bytes_iff, Bool-cases, All,
}
use beam_drop.Filesystem.{FileEntry, DirectoryEntry}
use beam_drop.App.{invalid_request}
use beam_drop.App.Request.{
  contains, insert_all, directory_paths, file_paths, validate_unique_targets,
}

-- No path stands twice.
abbrev pub Distinct : List Bytes → Type 0
Distinct [] = Unit
Distinct (path ∷ paths) = All (λ other. path ≢ other) paths × Distinct paths

-- No path is among those seen, nor among the ones before it.
Fresh : List Bytes → List Bytes → Type 0
Fresh [] seen = Unit
Fresh (path ∷ paths) seen = (contains path seen ≡ false) × Fresh paths (path ∷ seen)

insert_all-append :
    (xs ys seen : List Bytes)
    → (elim (insert_all xs seen) [ none ↦ none | some s ↦ insert_all ys s ])
      ≡ insert_all (xs ++ ys) seen
unfolding insert_all
insert_all-append [] ys seen = refl
insert_all-append (x ∷ xs) ys seen = elim (Bool-cases (contains x seen)) [
  | inl there ↦ rw there refl
  | inr fresh ↦ rw fresh (insert_all-append xs ys (x ∷ seen))
]

is_some : {A : Type 0} → Option A → Bool
is_some none = false
is_some (some a) = true

insert_all-Fresh :
    (paths seen : List Bytes) → (is_some (insert_all paths seen) ≡ true) ↔ Fresh paths seen
unfolding insert_all Fresh is_some
insert_all-Fresh [] seen = (λ e. tt, λ f. refl)
insert_all-Fresh (path ∷ paths) seen = elim (Bool-cases (contains path seen)) [
  | inl there ↦ rw there (λ e. absurd (cc e), λ f. absurd (cc (f.0)))
  | inr fresh ↦ rw fresh (
    λ e. (refl, (insert_all-Fresh paths (path ∷ seen)).0 e),
    λ f. (insert_all-Fresh paths (path ∷ seen)).1 f.1,
  )
]

apart-cons :
    (p path : Bytes) (seen : List Bytes)
    → (contains p (path ∷ seen) ≡ false) ↔ ((path ≢ p) × (contains p seen ≡ false))
apart-cons p path seen = elim (Bool-cases (same_bytes p path)) [
  | inl same ↦
      rw same (λ e. absurd (cc e), λ (ne, e). absurd (ne (sym ((same_bytes_iff p path).0 same))))
  | inr differs ↦
      rw differs (λ e. (λ is. cc (differs, (same_bytes_iff p path).1 (sym is)), e), λ (ne, e). e)
]

apart-All :
    (path : Bytes) (paths seen : List Bytes)
    → All (λ p. contains p (path ∷ seen) ≡ false) paths
      ↔ (All (λ p. path ≢ p) paths × All (λ p. contains p seen ≡ false) paths)
apart-All path [] seen = (λ a. (tt, tt), λ a. tt)
apart-All path (p ∷ paths) seen =
    let first = apart-cons p path seen in
    let rest = apart-All path paths seen in
    (
      λ (a, every). ((((first.0 a).0), (rest.0 every).0), ((first.0 a).1, (rest.0 every).1)),
      λ ((n, ns), (a, every)). (first.1 (n, a), rest.1 (ns, every)),
    )

-- What is fresh is distinct, and apart from what was seen.
Fresh-Distinct :
    (paths seen : List Bytes)
    → Fresh paths seen ↔ (Distinct paths × All (λ p. contains p seen ≡ false) paths)
unfolding Fresh
Fresh-Distinct [] seen = (λ f. (tt, tt), λ f. tt)
Fresh-Distinct (path ∷ paths) seen =
    let rest = Fresh-Distinct paths (path ∷ seen) in
    let apart = apart-All path paths seen in
    (
      λ (free, fresh).
          let (distinct, all) = rest.0 fresh in
          (((apart.0 all).0, distinct), (free, (apart.0 all).1)),
      λ ((others, distinct), (free, all)). (free, rest.1 (distinct, apart.1 (others, all))),
    )

all-apart : (paths : List Bytes) → All (λ p. contains p [] ≡ false) paths
all-apart [] = tt
all-apart (path ∷ paths) = (refl, all-apart paths)

-- The two loops are one, over the directories and then the files.
validate_unique_targets-insert_all :
    (files : List FileEntry) (directories : List DirectoryEntry)
    → (validate_unique_targets files directories ≡ none)
      ↔ (is_some (insert_all (directory_paths directories ++ file_paths files) []) ≡ true)
unfolding validate_unique_targets is_some
validate_unique_targets-insert_all files directories =
    rw (← insert_all-append (directory_paths directories) (file_paths files) [])
      (both (insert_all (directory_paths directories) []))
  where
    second :
        (r : Option (List Bytes))
        → ((elim r [ none ↦ some invalid_request | some all ↦ none ]) ≡ none) ↔ (is_some r ≡ true)
    second none = (λ e. absurd (cc e), λ e. absurd (cc e))
    second (some all) = (λ e. refl, λ e. refl)

    both :
        (r : Option (List Bytes))
        → ((elim r [
          | none ↦ some invalid_request
          | some seen ↦ elim (insert_all (file_paths files) seen) [
            | none ↦ some invalid_request
            | some all ↦ none
          ]
        ])
            ≡ none)
          ↔ (is_some (elim r [ none ↦ none | some seen ↦ insert_all (file_paths files) seen ])
              ≡ true)
    both none = (λ e. absurd (cc e), λ e. absurd (cc e))
    both (some seen) = second (insert_all (file_paths files) seen)

-- A request passes the test exactly if the relative paths of its directories and files are distinct.
pub validate_unique_targets-Distinct :
    (files : List FileEntry) (directories : List DirectoryEntry)
    → (validate_unique_targets files directories ≡ none)
      ↔ Distinct (directory_paths directories ++ file_paths files)
validate_unique_targets-Distinct files directories =
    let paths = directory_paths directories ++ file_paths files in
    let test = validate_unique_targets-insert_all files directories in
    let fresh = insert_all-Fresh paths [] in
    let distinct = Fresh-Distinct paths [] in
    (
      λ passed. (distinct.0 (fresh.0 (test.0 passed))).0,
      λ d. test.1 (fresh.1 (distinct.1 (d, all-apart paths))),
    )
