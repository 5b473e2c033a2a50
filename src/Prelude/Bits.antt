-- ===== src/Prelude/Bits.antt =====
-- The one law of `bit_or` that the code's byte order needs: `(a << 8) | b` is `a * 256 + b` for a
-- byte `b`.
use Prim.Native.Nat.{
  ℕ, zero, suc, ◌+◌, ◌*◌, ◌/◌, ◌%◌, ◌≤◌, ◌<◌, max, bit_or, digits, bit_or-bitwise,
}
use mathlib.Core.Path.{◌≡◌, refl}
use native.Mathlib.Omega.{arith}

zero-bit_or : (b : ℕ) → bit_or 0 b ≡ b
zero-bit_or b = bit_or-bitwise 0 b

-- The native operation's recursion, with its count of binary digits as a variable.
abbrev or_upto : ℕ → ℕ → ℕ → ℕ
or_upto n a b = digits (λ b. b) max n a b

or_upto_enough : (n m a b : ℕ) → a ≤ n → a ≤ m → or_upto n a b ≡ or_upto m a b
or_upto_enough zero zero a b p q = refl
or_upto_enough zero (suc m) zero b p q = refl
or_upto_enough zero (suc m) (suc a) b p q = absurd (omega arith)
or_upto_enough (suc n) zero zero b p q = refl
or_upto_enough (suc n) zero (suc a) b p q = absurd (omega arith)
or_upto_enough (suc n) (suc m) zero b p q = refl
or_upto_enough (suc n) (suc m) (suc a) b p q =
    omega (arith, or_upto_enough n m (suc a / 2) (b / 2) (omega arith) (omega arith))

bit_or_step : (a b : ℕ) → bit_or a b ≡ bit_or (a / 2) (b / 2) * 2 + max (a % 2) (b % 2)
bit_or_step zero b = omega (arith, zero-bit_or b, zero-bit_or (b / 2))
bit_or_step (suc a) b = omega (
  arith,
  bit_or-bitwise (suc a) b,
  bit_or-bitwise (suc a / 2) (b / 2),
  or_upto_enough a (suc a / 2) (suc a / 2) (b / 2) (omega arith) (omega arith),
)

bit_or-zero_upto : (n a : ℕ) → a ≤ n → bit_or a 0 ≡ a
bit_or-zero_upto n zero h = refl
bit_or-zero_upto zero (suc a) h = absurd (omega arith)
bit_or-zero_upto (suc n) (suc a) h =
    omega (arith, bit_or_step (suc a) 0, bit_or-zero_upto n (suc a / 2) (omega arith))

bit_or-zero : (a : ℕ) → bit_or a 0 ≡ a
bit_or-zero a = bit_or-zero_upto a a (omega arith)

-- One shift place at a time.
or_shift : (a b : ℕ) → bit_or (a * 2) b ≡ bit_or a (b / 2) * 2 + b % 2
or_shift a b =
    let e : a * 2 / 2 ≡ a = omega arith in
    let p : bit_or (a * 2 / 2) (b / 2) ≡ bit_or a (b / 2) = λ i. bit_or (e i) (b / 2) in
    omega (arith, bit_or_step (a * 2) b, p)

or_nibble : (a b : ℕ) → bit_or (a * 2 * 2 * 2 * 2) b ≡ bit_or a (b / 2 / 2 / 2 / 2) * 16 + b % 16
or_nibble a b = omega (
  arith,
  or_shift (a * 2 * 2 * 2) b,
  or_shift (a * 2 * 2) (b / 2),
  or_shift (a * 2) (b / 2 / 2),
  or_shift a (b / 2 / 2 / 2),
)

pub bit_or_byte : (a b : ℕ) → b < 256 → bit_or (a * 256) b ≡ a * 256 + b
bit_or_byte a b h =
    let e : a * 256 ≡ a * 2 * 2 * 2 * 2 * 2 * 2 * 2 * 2 = omega arith in
    let p : bit_or (a * 256) b ≡ bit_or (a * 2 * 2 * 2 * 2 * 2 * 2 * 2 * 2) b =
      λ i. bit_or (e i) b in
    let z : b / 2 / 2 / 2 / 2 / 2 / 2 / 2 / 2 ≡ 0 = omega arith in
    let q : bit_or a (b / 2 / 2 / 2 / 2 / 2 / 2 / 2 / 2) ≡ bit_or a 0 = λ i. bit_or a (z i) in
    omega
      (arith, p, q, bit_or-zero a, or_nibble (a * 2 * 2 * 2 * 2) b, or_nibble a (b / 2 / 2 / 2 / 2))
