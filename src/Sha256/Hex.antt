-- ===== src/Sha256/Hex.antt =====
-- The text of a hash is hexadecimal digits, and at least one.
use mathlib.Core.Path.{subst}
use beam_drop.Prelude.{
  ap, length, length-append, ℕ, zero, suc, ◌%◌, ◌/◌, ◌<◌, ◌≤◌, ◌≡◌, ◌≢◌, ◌⊎◌, refl, ◌∙◌, sym, [],
  ◌∷◌, ◌++◌, arith, Bytes, All, All-append,
}
use beam_drop.Errors.{ok}
use beam_drop.Sha256.{Words, initial_words, hex_digit, hex_word, to_hex, sha256_hex}
use beam_drop.Sha256.Blocks.{blocks}
use beam_drop.Sha256.Padding.{padding, sha256_hex-padding}

abbrev pub IsHex : ℕ → Type 0
IsHex c = ((b'0' ≤ c) × (c ≤ b'9')) ⊎ ((b'a' ≤ c) × (c ≤ b'f'))

hex_digit-IsHex : (n : ℕ) → n < 16 → IsHex (hex_digit n)
hex_digit-IsHex n h = ground arith

hex_word-IsHex : (n value : ℕ) → All IsHex (hex_word n value)
unfolding hex_word
hex_word-IsHex zero value = tt
hex_word-IsHex (suc n) value =
    All-append IsHex (hex_word n (value / 16)) _ (hex_word-IsHex n (value / 16))
      (hex_digit-IsHex (value % 16) (omega arith), tt)

to_hex-IsHex : (w : Words) → All IsHex (to_hex w)
unfolding to_hex
to_hex-IsHex w =
    let word = hex_word-IsHex 8 in
    let app = λ (n : ℕ) (rest : Bytes) (r : All IsHex rest).
      All-append IsHex (hex_word 8 n) rest (word n) r in
    app w.a _ (app w.b _ (app w.c _ (app w.d _ (app w.e _ (app w.f _ (app w.g _ (word w.h)))))))

length-hex_word : (n value : ℕ) → length (hex_word n value) ≡ n
unfolding hex_word
length-hex_word zero value = refl
length-hex_word (suc n) value = omega (
  arith,
  length-hex_word n (value / 16),
  length-append (hex_word n (value / 16)) (hex_digit (value % 16) ∷ []),
)

to_hex-ne-nil : (w : Words) → to_hex w ≢ []
unfolding to_hex
to_hex-ne-nil w e =
    let first = length-hex_word 8 w.a in
    let rest =
      hex_word 8 w.b
      ++ (hex_word 8 w.c
          ++ (hex_word 8 w.d
              ++ (hex_word 8 w.e ++ (hex_word 8 w.f ++ (hex_word 8 w.g ++ hex_word 8 w.h))))) in
    let all = length-append (hex_word 8 w.a) rest in let none = ap (λ b. length b) e in omega arith

pub sha256_hex-IsHex :
    (content hash : Bytes) → sha256_hex content ≡ ok hash → All IsHex hash × (hash ≢ [])
sha256_hex-IsHex content hash e =
    let w = (blocks initial_words (content ++ padding (length content))).0 in
    let same : ok (to_hex w) ≡ ok hash = sym (sha256_hex-padding content) ∙ e in
    let text : to_hex w ≡ hash = cc in
    (subst (λ b. All IsHex b) text (to_hex-IsHex w), subst (λ b. b ≢ []) text (to_hex-ne-nil w))
