-- ===== src/Sha256/Blocks.antt =====
-- The 64-byte blocks of a byte string, and what `absorb` does with them.
use beam_drop.Prelude.{
  ℕ, zero, suc, ◌+◌, ◌-◌, ◌%◌, ◌≤◌, ◌<◌, ◌≡◌, refl, ap, sym, ◌∙◌, inl, inr, true, false, [], ◌∷◌,
  ◌++◌, arith, min, Bytes, length, take, drop, length-append, length-take, length-drop, drop_all,
  ltb, leb, ◌==◌, Bool-cases,
}
use beam_drop.Sha256.{Words, process_block, whole_blocks, fill, absorb_rest, absorb}

-- The blocks of a byte string, hashed one after another, and what is left.
unfoldable pub blocks : Words → Bytes → Words × Bytes
blocks s xs = whole_blocks (length xs) s xs

whole_blocks_short :
    (n : ℕ) (s : Words) (xs : Bytes) → length xs < 64 → whole_blocks n s xs ≡ (s, xs)
unfolding whole_blocks
whole_blocks_short zero s xs h = refl
whole_blocks_short (suc n) s xs h = let e : leb 64 (length xs) ≡ false = ground arith in rw e refl

whole_blocks_step :
    (n : ℕ) (s : Words) (xs : Bytes)
    → 64 ≤ length xs
    → whole_blocks (suc n) s xs ≡ whole_blocks n (process_block s (take 64 xs)) (drop 64 xs)
unfolding whole_blocks
whole_blocks_step n s xs h = let e : leb 64 (length xs) ≡ true = ground arith in rw e refl

-- More fuel than bytes changes nothing.
whole_blocks_fuel :
    (n m : ℕ) (s : Words) (xs : Bytes)
    → length xs ≤ n
    → length xs ≤ m
    → whole_blocks n s xs ≡ whole_blocks m s xs
whole_blocks_fuel zero m s xs hn hm =
    whole_blocks_short 0 s xs (omega arith) ∙ sym (whole_blocks_short m s xs (omega arith))
whole_blocks_fuel n zero s xs hn hm =
    whole_blocks_short n s xs (omega arith) ∙ sym (whole_blocks_short 0 s xs (omega arith))
whole_blocks_fuel (suc n) (suc m) s xs hn hm = elim (Bool-cases (leb 64 (length xs))) [
  | inl long ↦
      let l : 64 ≤ length xs = ground arith in
      let d = length-drop 64 xs in
      whole_blocks_step n s xs l
      ∙ whole_blocks_fuel n m (process_block s (take 64 xs)) (drop 64 xs) (omega arith)
          (omega arith)
      ∙ sym (whole_blocks_step m s xs l)
  | inr short ↦
      let l : length xs < 64 = ground arith in
      whole_blocks_short (suc n) s xs l ∙ sym (whole_blocks_short (suc m) s xs l)
]

pub blocks_short : (s : Words) (xs : Bytes) → length xs < 64 → blocks s xs ≡ (s, xs)
unfolding blocks
blocks_short s xs h = whole_blocks_short (length xs) s xs h

pub blocks_step :
    (s : Words) (xs : Bytes)
    → 64 ≤ length xs
    → blocks s xs ≡ blocks (process_block s (take 64 xs)) (drop 64 xs)
unfolding blocks
blocks_step s xs h =
    let d = length-drop 64 xs in
    whole_blocks_fuel (length xs) (suc (length xs)) s xs (omega arith) (omega arith)
    ∙ whole_blocks_step (length xs) s xs h
    ∙ whole_blocks_fuel (length xs) (length (drop 64 xs)) (process_block s (take 64 xs))
        (drop 64 xs) (omega arith) (omega arith)

take-front : (n : ℕ) (xs ys : Bytes) → n ≤ length xs → take n (xs ++ ys) ≡ take n xs
take-front zero xs ys h = refl
take-front (suc n) [] ys h = absurd (omega arith)
take-front (suc n) (x ∷ xs) ys h = ap (λ t. x ∷ t) (take-front n xs ys (omega arith))

drop-front : (n : ℕ) (xs ys : Bytes) → n ≤ length xs → drop n (xs ++ ys) ≡ drop n xs ++ ys
drop-front zero xs ys h = refl
drop-front (suc n) [] ys h = absurd (omega arith)
drop-front (suc n) (x ∷ xs) ys h = drop-front n xs ys (omega arith)

-- Hashing a part, and then what it left with the rest behind it, is hashing the whole.
pub blocks-append :
    (n : ℕ) (s : Words) (xs ys : Bytes)
    → length xs ≤ n
    → blocks s (xs ++ ys) ≡ blocks (blocks s xs).0 ((blocks s xs).1 ++ ys)
blocks-append zero s xs ys h = let e = blocks_short s xs (omega arith) in rw e refl
blocks-append (suc n) s xs ys h = elim (Bool-cases (leb 64 (length xs))) [
  | inl long ↦
      let l : 64 ≤ length xs = ground arith in
      let d = length-drop 64 xs in
      let a = length-append xs ys in
      rw
        (
          blocks_step s (xs ++ ys) (omega arith),
          take-front 64 xs ys l,
          drop-front 64 xs ys l,
          blocks_step s xs l,
        )
        (blocks-append n (process_block s (take 64 xs)) (drop 64 xs) ys (omega arith))
  | inr short ↦ let e = blocks_short s xs (ground arith) in rw e refl
]

-- What is left is less than a block.
pub blocks-rest : (n : ℕ) (s : Words) (xs : Bytes) → length xs ≤ n → length (blocks s xs).1 < 64
blocks-rest zero s xs h = let e = blocks_short s xs (omega arith) in rw e (omega arith)
blocks-rest (suc n) s xs h = elim (Bool-cases (leb 64 (length xs))) [
  | inl long ↦
      let l : 64 ≤ length xs = ground arith in
      let d = length-drop 64 xs in
      rw (blocks_step s xs l)
        (blocks-rest n (process_block s (take 64 xs)) (drop 64 xs) (omega arith))
  | inr short ↦ let e = blocks_short s xs (ground arith) in rw e (ground arith)
]

-- It is the size modulo that of a block.
pub blocks-mod :
    (n : ℕ) (s : Words) (xs : Bytes) → length xs ≤ n → length (blocks s xs).1 ≡ length xs % 64
blocks-mod zero s xs h = let e = blocks_short s xs (omega arith) in rw e (omega arith)
blocks-mod (suc n) s xs h = elim (Bool-cases (leb 64 (length xs))) [
  | inl long ↦
      let l : 64 ≤ length xs = ground arith in
      let d = length-drop 64 xs in
      let rest = blocks-mod n (process_block s (take 64 xs)) (drop 64 xs) (omega arith) in
      rw (blocks_step s xs l) (omega arith)
  | inr short ↦ let e = blocks_short s xs (ground arith) in rw e (ground arith)
]

nil_of_zero : (xs : Bytes) → (0 == length xs) ≡ true → xs ≡ []
nil_of_zero [] h = refl
nil_of_zero (x ∷ xs) h = absurd (ground arith)

absorb_rest-blocks : (s : Words) (bytes : Bytes) → absorb_rest s [] bytes ≡ blocks s bytes
unfolding absorb_rest blocks
absorb_rest-blocks s bytes =
    elim (Bool-cases (0 == length (whole_blocks (length bytes) s bytes).1)) [
      | inl nil ↦
          let e = nil_of_zero (whole_blocks (length bytes) s bytes).1 nil in
          rw nil (ap (λ r. ((whole_blocks (length bytes) s bytes).0, r)) (sym e))
      | inr more ↦ rw more refl
    ]

take_over : (xs ys : Bytes) (n : ℕ) → take (length xs + n) (xs ++ ys) ≡ xs ++ take n ys
take_over [] ys n = let e : 0 + n ≡ n = omega arith in rw e refl
take_over (x ∷ xs) ys n =
    let e : suc (length xs) + n ≡ suc (length xs + n) = omega arith in
    rw e (ap (λ t. x ∷ t) (take_over xs ys n))

drop_over : (xs ys : Bytes) (n : ℕ) → drop (length xs + n) (xs ++ ys) ≡ drop n ys
drop_over [] ys n = let e : 0 + n ≡ n = omega arith in rw e refl
drop_over (x ∷ xs) ys n =
    let e : suc (length xs) + n ≡ suc (length xs + n) = omega arith in rw e (drop_over xs ys n)

take_all : (xs : Bytes) → take (length xs) xs ≡ xs
take_all [] = refl
take_all (x ∷ xs) = ap (λ t. x ∷ t) (take_all xs)

pub take_short : (n : ℕ) (xs : Bytes) → length xs ≤ n → take n xs ≡ xs
take_short zero [] h = refl
take_short zero (x ∷ xs) h = absurd (omega arith)
take_short (suc n) [] h = refl
take_short (suc n) (x ∷ xs) h = ap (λ t. x ∷ t) (take_short n xs (omega arith))

-- A buffer that the new bytes do not fill, and one that they fill.
module _ (s : Words) (c : ℕ) (cs bytes : Bytes) where
  absorb_part :
      length (c ∷ cs) + length bytes < 64 → absorb s (c ∷ cs) bytes ≡ blocks s ((c ∷ cs) ++ bytes)
  unfolding absorb fill
  absorb_part h =
      let all : min (64 - length (c ∷ cs)) (length bytes) ≡ length bytes = omega arith in
      let a = length-append (c ∷ cs) bytes in
      let part : (length ((c ∷ cs) ++ bytes) == 64) ≡ false = ground arith in
      rw (all, take_all bytes, drop_all (length bytes) bytes (omega arith))
        (rw part
          (stays ((c ∷ cs) ++ bytes) ∙ sym (blocks_short s ((c ∷ cs) ++ bytes) (omega arith))))
    where
      stays : (buffer : Bytes) → absorb_rest s buffer [] ≡ (s, buffer)
      stays buffer = unfold absorb_rest whole_blocks in refl

  absorb_full :
      64 ≤ length (c ∷ cs) + length bytes
      → length (c ∷ cs) < 64
      → absorb s (c ∷ cs) bytes ≡ blocks s ((c ∷ cs) ++ bytes)
  unfolding absorb fill
  absorb_full h lt =
      let room = 64 - length (c ∷ cs) in
      let all : min (64 - length (c ∷ cs)) (length bytes) ≡ room = omega arith in
      let size : length (c ∷ cs) + room ≡ 64 = omega arith in
      let first : (c ∷ cs) ++ take room bytes ≡ take 64 ((c ∷ cs) ++ bytes) =
        sym (take_over (c ∷ cs) bytes room) ∙ ap (λ n. take n ((c ∷ cs) ++ bytes)) size in
      let rest : drop room bytes ≡ drop 64 ((c ∷ cs) ++ bytes) =
        sym (drop_over (c ∷ cs) bytes room) ∙ ap (λ n. drop n ((c ∷ cs) ++ bytes)) size in
      let a = length-append (c ∷ cs) (take room bytes) in
      let t = length-take room bytes in
      let b = length-append (c ∷ cs) bytes in
      let full : (length ((c ∷ cs) ++ take room bytes) == 64) ≡ true = ground arith in
      rw all (
        rw full (
          rw (first, rest)
            (absorb_rest-blocks (process_block s (take 64 ((c ∷ cs) ++ bytes)))
                (drop 64 ((c ∷ cs) ++ bytes))
              ∙ sym (blocks_step s ((c ∷ cs) ++ bytes) (omega arith)))))

-- `absorb` with the first bytes of a block in the buffer hashes the blocks of both.
pub absorb-blocks :
    (s : Words) (buffer bytes : Bytes)
    → length buffer < 64
    → absorb s buffer bytes ≡ blocks s (buffer ++ bytes)
absorb-blocks s [] bytes h = unfold absorb fill in absorb_rest-blocks s bytes
absorb-blocks s (c ∷ cs) bytes h = elim (Bool-cases (ltb (length (c ∷ cs) + length bytes) 64)) [
  | inl part ↦ absorb_part s c cs bytes (ground arith)
  | inr full ↦ absorb_full s c cs bytes (ground arith) h
]
