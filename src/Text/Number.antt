-- ===== src/Text/Number.antt =====
-- `stoull` reads back what `decimal` writes.
use beam_drop.Prelude.{
  ℕ, zero, suc, ◌+◌, ◌-◌, ◌*◌, ◌/◌, ◌%◌, ◌^◌, ◌≤◌, ◌<◌, ◌≡◌, inl, inr, refl, ap, arith, Bool, true,
  false, Bool-cases, [], ◌∷◌, ◌++◌, append-nil, Bytes, length, length-append, All, All-mono,
  All-append, ltb, ltb_of_le, if◌then◌else◌,
}
use native.Mathlib.Nat.{pow-suc}
use beam_drop.Errors.{ok}
use beam_drop.Text.{
  is_digit, digit, digits_upto, decimal, span, skip_spaces, number_of, read_sign, stoull_value,
  stoull,
}

abbrev pub IsDigit : ℕ → Type 0
IsDigit c = (b'0' ≤ c) × (c ≤ b'9')

digits_upto-IsDigit : (fuel n : ℕ) → All IsDigit (digits_upto fuel n)
unfolding digits_upto
digits_upto-IsDigit zero n = tt
digits_upto-IsDigit (suc fuel) n = elim (Bool-cases (ltb n 10)) [
  | inl h ↦ rw h (ground arith)
  | inr h ↦ rw h (All-append IsDigit _ _ (digits_upto-IsDigit fuel (n / 10)) (omega arith))
]

pub decimal-IsDigit : (n : ℕ) → All IsDigit (decimal n)
unfolding decimal
decimal-IsDigit n = digits_upto-IsDigit 20 n

number_of-append : (v : ℕ) (xs ys : Bytes) → number_of v (xs ++ ys) ≡ number_of (number_of v xs) ys
unfolding number_of
number_of-append v [] ys = refl
number_of-append v (x ∷ xs) ys = number_of-append (v * 10 + (x - b'0')) xs ys

number_of-digits_upto : (fuel n : ℕ) → n < 10 ^ fuel → number_of 0 (digits_upto fuel n) ≡ n
unfolding digits_upto
number_of-digits_upto zero n h = unfold number_of in omega arith
number_of-digits_upto (suc fuel) n h = elim (Bool-cases (ltb n 10)) [
  | inl e ↦ rw e (unfold number_of in ground arith)
  | inr e ↦
      rw (e, number_of-append, number_of-digits_upto fuel (n / 10) (omega (arith, pow-suc 10 fuel)))
        (unfold number_of in omega arith)
]

number_of-decimal : (n : ℕ) → n < 2 ^ 64 → number_of 0 (decimal n) ≡ n
unfolding decimal
number_of-decimal n h = number_of-digits_upto 20 n (omega arith)

-- A number is written with at least one digit.
pub decimal-cons : (n : ℕ) → (c : ℕ) × (cs : Bytes) × (decimal n ≡ c ∷ cs)
unfolding decimal
decimal-cons n = go (digits_upto 20 n) refl
  where
    some_digit : 0 < length (digits_upto 20 n)
    some_digit =
        unfold digits_upto in
        ground (arith, length-append (digits_upto 19 (n / 10)) (digit (n % 10) ∷ []))

    go : (ds : Bytes) → digits_upto 20 n ≡ ds → (c : ℕ) × (cs : Bytes) × (digits_upto 20 n ≡ c ∷ cs)
    go [] e = absurd (omega (arith, ap length e, some_digit))
    go (c ∷ cs) e = (c, cs, e)

-- A span stops where its test says no, or at the end.
abbrev pub Stops : (ℕ → Bool) → Bytes → Type 0
Stops p [] = Unit
Stops p (c ∷ cs) = p c ≡ false

pub span-All :
    (p : ℕ → Bool) (xs rest : Bytes)
    → All (λ c. p c ≡ true) xs
    → Stops p rest
    → span p (xs ++ rest) ≡ (xs, rest)
unfolding span
span-All p [] [] h e = refl
span-All p [] (c ∷ cs) h e = rw e
span-All p (x ∷ xs) rest h e = rw (span-All p xs rest h.1 e) (rw h.0)

is_digit_of : (c : ℕ) → IsDigit c → is_digit c ≡ true
is_digit_of c h = ground arith

span-digits :
    (xs rest : Bytes)
    → All IsDigit xs
    → Stops is_digit rest
    → span is_digit (xs ++ rest) ≡ (xs, rest)
span-digits xs rest h e =
    span-All is_digit xs rest (All-mono IsDigit (λ c. is_digit c ≡ true) is_digit_of xs h) e

skip_spaces-digit : (c : ℕ) (cs : Bytes) → IsDigit c → skip_spaces (c ∷ cs) ≡ c ∷ cs
unfolding skip_spaces
skip_spaces-digit c cs h = ground arith

read_sign-digit : (c : ℕ) (cs : Bytes) → IsDigit c → read_sign (c ∷ cs) ≡ (false, c ∷ cs)
unfolding read_sign
read_sign-digit c cs h = ground arith

stoull_value-digits :
    (negative : Bool) (c : ℕ) (cs : Bytes) (v : ℕ)
    → number_of 0 (c ∷ cs) ≡ v
    → v < 2 ^ 64
    → stoull_value negative (c ∷ cs) ≡ ok (if negative then (2 ^ 64 - v) % 2 ^ 64 else v)
unfolding stoull_value
stoull_value-digits negative c cs v e h = rw e (rw (ltb_of_le (2 ^ 64 - 1) v (omega arith)))

-- Digits with a value below 2 ^ 64, and something else behind them.
stoull-digits :
    (c : ℕ) (cs rest : Bytes) (v : ℕ)
    → All IsDigit (c ∷ cs)
    → Stops is_digit rest
    → number_of 0 (c ∷ cs) ≡ v
    → v < 2 ^ 64
    → stoull (c ∷ (cs ++ rest)) ≡ ok (v, length (c ∷ cs))
unfolding stoull
stoull-digits c cs rest v h e is small =
    rw
      (
        skip_spaces-digit c (cs ++ rest) h.0,
        read_sign-digit c (cs ++ rest) h.0,
        span-digits (c ∷ cs) rest h e,
        stoull_value-digits false c cs v is small,
      )
      (ap (λ k. ok (v, k)) (omega (arith, length-append cs rest)))

pub stoull-decimal : (n : ℕ) → n < 2 ^ 64 → stoull (decimal n) ≡ ok (n, length (decimal n))
stoull-decimal n h =
    let (c, cs, e) = decimal-cons n in
    let all_digits = rw e at (decimal-IsDigit n) in
    let value = rw e at (number_of-decimal n h) in
    rw e (rw append-nil at (stoull-digits c cs [] n all_digits tt value h))

-- A minus in front negates the value in 64 bits.
pub stoull-negative :
    (n : ℕ)
    → n < 2 ^ 64
    → stoull (b'-' ∷ decimal n) ≡ ok ((2 ^ 64 - n) % 2 ^ 64, length (b'-' ∷ decimal n))
unfolding stoull
stoull-negative n h =
    let (c, cs, e) = decimal-cons n in
    let all_digits = rw e at (decimal-IsDigit n) in
    let value = rw e at (number_of-decimal n h) in
    let digits = rw append-nil at (span-digits (c ∷ cs) [] all_digits tt) in
    unfold skip_spaces read_sign in
    rw (e, digits, stoull_value-digits true c cs n value h)
      (ap (λ k. ok ((2 ^ 64 - n) % 2 ^ 64, k)) (omega arith))

-- A written number in front of something else: no space is skipped, and its digits are the span.
pub skip_spaces-decimal :
    (n : ℕ) (rest : Bytes) → skip_spaces (decimal n ++ rest) ≡ decimal n ++ rest
skip_spaces-decimal n rest =
    let (c, cs, e) = decimal-cons n in
    let all_digits = rw e at (decimal-IsDigit n) in
    rw e (skip_spaces-digit c (cs ++ rest) all_digits.0)

pub span-decimal :
    (n : ℕ) (rest : Bytes)
    → Stops is_digit rest
    → span is_digit (decimal n ++ rest) ≡ (decimal n, rest)
span-decimal n rest e = span-digits (decimal n) rest (decimal-IsDigit n) e

length-digits_upto : (fuel n : ℕ) → length (digits_upto fuel n) ≤ fuel
unfolding digits_upto
length-digits_upto zero n = omega arith
length-digits_upto (suc fuel) n =
    let next = length-digits_upto fuel (n / 10) in
    let joined = length-append (digits_upto fuel (n / 10)) (digit (n % 10) ∷ []) in ground arith

pub length-decimal : (n : ℕ) → length (decimal n) ≤ 20
unfolding decimal
length-decimal n = length-digits_upto 20 n
