-- ===== src/Transfer/Task/Spots.antt =====
-- Places that are filled one after another.
use beam_drop.Prelude.{
  ◌≡◌, ◌≢◌, refl, ap, sym, ◌∙◌, inl, inr, true, false, some, List, [], ◌∷◌, ◌++◌, append_assoc,
  Bytes, same_bytes, same_bytes_iff, Bool-cases, All, All-mono, All-left, All-right,
}
use mathlib.Core.Path.{subst}
use beam_drop.Transfer.Disk.{
  Disk, is_file, Grows, Grows-apart, Grows-kept, Grows-left, Grows-right, Grows-trans,
}
use beam_drop.Transfer.Task.{Spot, Ready, Clear, Orderly, Arrived, Untouched, Changed, all_ways}

pub Orderly-left : (xs ys : List Spot) → Orderly (xs ++ ys) → Orderly xs
Orderly-left [] ys h = tt
Orderly-left (x ∷ xs) ys (h, hs) = (All-left (Clear x) xs ys h, Orderly-left xs ys hs)

pub Orderly-right : (xs ys : List Spot) → Orderly (xs ++ ys) → Orderly ys
Orderly-right [] ys h = h
Orderly-right (x ∷ xs) ys (h, hs) = Orderly-right xs ys hs

-- On the way to a later spot there is no file still.
open_still :
    (x : Spot) (d e : Disk) (ways : List Bytes)
    → e x.at ≡ some x.entry
    → ((other : Bytes) → other ≢ x.at → Grows x.ways d e other)
    → (is_file (some x.entry) ≡ true → All (λ p. p ≢ x.at) ways)
    → All (λ p. is_file (d p) ≡ false) ways
    → All (λ p. is_file (e p) ≡ false) ways
open_still x d e [] is grown clear h = tt
open_still x d e (p ∷ ways) is grown clear (h, hs) = (
  elim (Bool-cases (same_bytes p x.at)) [
    | inl same ↦
        let q = (same_bytes_iff p x.at).0 same in
        elim (Bool-cases (is_file (some x.entry))) [
          | inl blocks ↦ absurd ((clear blocks).0 q)
          | inr passes ↦ ap (λ p. is_file (e p)) q ∙ ap is_file is ∙ passes
        ]
    | inr apart ↦ still p (grown p (λ q. not_same p q apart)) h
  ],
  open_still x d e ways is grown (λ b. (clear b).1) hs,
)
  where
    not_same : (p : Bytes) → p ≡ x.at → same_bytes p x.at ≡ false → ⊥
    not_same p q apart = let s = (same_bytes_iff p x.at).1 q in absurd (cc)

    still : (p : Bytes) → Grows x.ways d e p → is_file (d p) ≡ false → is_file (e p) ≡ false
    still p (inl same) h = ap is_file same ∙ h
    still p (inr (free, made, at)) h = ap is_file made

-- The others are ready when the first has come.
pub Ready-after :
    (x : Spot) (spots : List Spot) (d e : Disk)
    → e x.at ≡ some x.entry
    → ((other : Bytes) → other ≢ x.at → Grows x.ways d e other)
    → All (Clear x) spots
    → Ready d spots
    → Ready e spots
Ready-after x [] d e is grown clear h = tt
Ready-after x (y ∷ spots) d e is grown ((ne, free, blocks), clear) ((none_there, open_ways), hs) = (
  (
    Grows-apart x.ways d e y.at (grown y.at ne) free ∙ none_there,
    open_still x d e y.ways is grown blocks open_ways,
  ),
  Ready-after x spots d e is grown clear hs,
)

ways_append : (xs ys : List Spot) → all_ways (xs ++ ys) ≡ all_ways xs ++ all_ways ys
ways_append [] ys = refl
ways_append (x ∷ xs) ys =
    ap (λ w. x.ways ++ w) (ways_append xs ys)
    ∙ sym (append_assoc x.ways (all_ways xs) (all_ways ys))

-- What came first stays.
Arrived-kept :
    (xs ys : List Spot) (e f : Disk)
    → Orderly (xs ++ ys)
    → Untouched ys e f
    → Arrived e xs
    → Arrived f xs
Arrived-kept [] ys e f order kept h = tt
Arrived-kept (x ∷ xs) ys e f (clear, order) kept (is, h) = (
  Grows-kept (all_ways ys) e f x.at x.entry
      (kept x.at (
        All-mono (Clear x) (λ y. x.at ≢ y.at) (λ y c s. c.0 (sym s)) ys
          (All-right (Clear x) xs ys clear)))
      is,
  Arrived-kept xs ys e f order kept h,
)

All-both : (xs ys : List Spot) (P : Spot → Type 0) → All P xs → All P ys → All P (xs ++ ys)
All-both [] ys P h k = k
All-both (x ∷ xs) ys P (h, hs) k = (h, All-both xs ys P hs k)

-- First these, and then those.
pub Changed-append :
    (xs ys : List Spot) (d e f : Disk)
    → Orderly (xs ++ ys)
    → Changed xs d e
    → Changed ys e f
    → Changed (xs ++ ys) d f
Changed-append xs ys d e f order (came, kept) (came', kept') = (
  All-both xs ys (λ x. f x.at ≡ some x.entry) (Arrived-kept xs ys e f order kept' came) came',
  λ other all.
      subst (λ w. Grows w d f other) (sym (ways_append xs ys))
        (Grows-trans (all_ways xs ++ all_ways ys) d e f other
          (Grows-left (all_ways xs) (all_ways ys) d e other
            (kept other (All-left (λ x. other ≢ x.at) xs ys all)))
          (Grows-right (all_ways xs) (all_ways ys) e f other
            (kept' other (All-right (λ x. other ≢ x.at) xs ys all)))),
)

-- The first one, and then the others.
pub Changed-cons :
    (x : Spot) (ys : List Spot) (d e f : Disk)
    → Orderly (x ∷ ys)
    → e x.at ≡ some x.entry
    → ((other : Bytes) → other ≢ x.at → Grows x.ways d e other)
    → Changed ys e f
    → Changed (x ∷ ys) d f
Changed-cons x ys d e f order is grown changed =
    Changed-append (x ∷ []) ys d e f order
      ((is, tt), λ other all. Grows-left x.ways [] d e other (grown other all.0)) changed
