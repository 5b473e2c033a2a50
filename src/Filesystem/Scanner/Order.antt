-- ===== src/Filesystem/Scanner/Order.antt =====
-- The order of strings, and what `sort_entries` does.
use mathlib.Core.Path.{subst}
use mathlib.Core.List.{Memᴰ}
use mathlib.Core.List.Memᴰ.{head, tail}
use beam_drop.Prelude.{
  ◌≡◌, ◌↔◌, inl, inr, refl, true, false, List, [], ◌∷◌, arith, Bytes, if◌then◌else◌, Bool-cases,
  All, All-mono,
}
use beam_drop.Filesystem.Scanner.{less, insert, sort_entries}

-- The order of strings.
not_less_trans : (x y z : Bytes) → less z y ≡ false → less y x ≡ false → less z x ≡ false
unfolding less
not_less_trans [] y z p q = refl
not_less_trans (c ∷ cs) [] z p q = absurd (cc q)
not_less_trans (c ∷ cs) (d ∷ ds) [] p q = absurd (cc p)
not_less_trans (c ∷ cs) (d ∷ ds) (e ∷ es) p q = let next = not_less_trans cs ds es in ground arith

less-asym : (x y : Bytes) → less x y ≡ true → less y x ≡ false
unfolding less
less-asym x [] p = absurd (cc p)
less-asym [] (d ∷ ds) p = refl
less-asym (c ∷ cs) (d ∷ ds) p = let next = less-asym cs ds in ground arith

module _ {A : Type 0} where
  mem_cons :
      {e x : A} {xs ys : List A} → (Memᴰ e xs → Memᴰ e ys) → Memᴰ e (x ∷ xs) → Memᴰ e (x ∷ ys)
  mem_cons f (head is) = head is
  mem_cons f (tail m) = tail (f m)

  mem_swap : {e x y : A} {xs : List A} → Memᴰ e (x ∷ y ∷ xs) → Memᴰ e (y ∷ x ∷ xs)
  mem_swap (head is) = tail (head is)
  mem_swap (tail (head is)) = head is
  mem_swap (tail (tail m)) = tail (tail m)

module _ {A : Type 0} (path_of : A → Bytes) where
  -- Each entry's path is not above those behind it.
  abbrev pub IsSorted : List A → Type 0
  IsSorted [] = Unit
  IsSorted (x ∷ xs) = All (λ y. less (path_of y) (path_of x) ≡ false) xs × IsSorted xs

  -- An insertion adds the entry and no other.
  mem_of-insert : (e x : A) (xs : List A) → Memᴰ e (insert path_of x xs) → Memᴰ e (x ∷ xs)
  unfolding insert
  mem_of-insert e x [] m = m
  mem_of-insert e x (y ∷ ys) m = elim (Bool-cases (less (path_of y) (path_of x))) [
    | inl before ↦ mem_swap (
        mem_cons (mem_of-insert e x ys)
          (subst (λ b. Memᴰ e (if b then y ∷ insert path_of x ys else x ∷ y ∷ ys)) before m))
    | inr not_before ↦
        subst (λ b. Memᴰ e (if b then y ∷ insert path_of x ys else x ∷ y ∷ ys)) not_before m
  ]

  mem-insert : (e x : A) (xs : List A) → Memᴰ e (x ∷ xs) → Memᴰ e (insert path_of x xs)
  unfolding insert
  mem-insert e x [] m = m
  mem-insert e x (y ∷ ys) m = elim (Bool-cases (less (path_of y) (path_of x))) [
    | inl before ↦ rw before (mem_cons (mem-insert e x ys) (mem_swap m))
    | inr not_before ↦ rw not_before m
  ]

  pub mem-sort_entries : (e : A) (xs : List A) → Memᴰ e (sort_entries path_of xs) ↔ Memᴰ e xs
  unfolding sort_entries
  mem-sort_entries e [] = (λ m. m, λ m. m)
  mem-sort_entries e (x ∷ xs) = (
    λ m. mem_cons (mem-sort_entries e xs).0 (mem_of-insert e x (sort_entries path_of xs) m),
    λ m. mem-insert e x (sort_entries path_of xs) (mem_cons (mem-sort_entries e xs).1 m),
  )

  insert-All : (P : A → Type 0) (x : A) (xs : List A) → P x → All P xs → All P (insert path_of x xs)
  unfolding insert
  insert-All P x [] p q = (p, q)
  insert-All P x (y ∷ ys) p q = elim (Bool-cases (less (path_of y) (path_of x))) [
    | inl before ↦ rw before (q.0, insert-All P x ys p q.1)
    | inr not_before ↦ rw not_before (p, q)
  ]

  insert-IsSorted : (x : A) (xs : List A) → IsSorted xs → IsSorted (insert path_of x xs)
  unfolding insert
  insert-IsSorted x [] s = (tt, tt)
  insert-IsSorted x (y ∷ ys) s = elim (Bool-cases (less (path_of y) (path_of x))) [
    | inl before ↦ rw before (
      insert-All (λ z. less (path_of z) (path_of y) ≡ false) x ys
          (less-asym (path_of y) (path_of x) before) s.0,
      insert-IsSorted x ys s.1,
    )
    | inr not_before ↦ rw not_before (
      (
        not_before,
        All-mono _ _
            (λ z above. not_less_trans (path_of x) (path_of y) (path_of z) above not_before) ys s.0,
      ),
      s,
    )
  ]

  pub sort_entries-IsSorted : (xs : List A) → IsSorted (sort_entries path_of xs)
  unfolding sort_entries
  sort_entries-IsSorted [] = tt
  sort_entries-IsSorted (x ∷ xs) =
      insert-IsSorted x (sort_entries path_of xs) (sort_entries-IsSorted xs)
