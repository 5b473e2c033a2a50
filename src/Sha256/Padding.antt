-- ===== src/Sha256/Padding.antt =====
-- `sha256_hex` against the standard: the blocks of the padded message, hashed one after another.
use beam_drop.Prelude.{
  ℕ, zero, suc, ◌+◌, ◌-◌, ◌*◌, ◌%◌, ◌^◌, ◌≤◌, ◌<◌, ◌≡◌, ◌⊎◌, refl, ap, sym, ◌∙◌, inl, inr, true,
  false, ◌∷◌, ◌++◌, arith, Bytes, length, take, drop, replicate, length-append, length-drop,
  length-replicate, leb, ◌==◌, if◌then◌else◌,
}
use beam_drop.Errors.{ok}
use beam_drop.Sha256.{
  Words, Sha256, new, initial_words, process_block, length_bytes, final_size, final_blocks,
  last_words, final_hex, to_hex, sha256_hex,
}
use beam_drop.Sha256.Streaming.{Holds, after_update, update-after, new_after-Holds}
use beam_drop.Sha256.Blocks.{
  blocks, blocks_step, blocks_short, blocks-append, blocks-rest, blocks-mod,
}

-- The padding of a message of `n` bytes in FIPS 180-4: a 1 bit, the fewest 0 bits that leave room
-- for the length at the end of a block, and the length in bits, in 64 bits.
unfoldable pub padding : ℕ → Bytes
padding n = 128 ∷ (replicate ((119 - n % 64) % 64) 0 ++ length_bytes 8 (n * 8 % 2 ^ 64))

length-length_bytes : (n m : ℕ) → length (length_bytes n m) ≡ n
unfolding length_bytes
length-length_bytes zero m = refl
length-length_bytes (suc n) m = ap suc (length-length_bytes n m)

-- The two blocks or the one block of `final_hex`.
final_blocks-padding :
    (buffer : Bytes) (n total : ℕ)
    → length buffer ≡ n % 64
    → total ≡ n % 2 ^ 64
    → final_blocks buffer total ≡ buffer ++ padding n
unfolding final_blocks final_size padding
final_blocks-padding buffer n total size same =
    let zeros : (if leb (length buffer + 1) 56 then 64 else 128) - 8 - (length buffer + 1)
        ≡ (119 - n % 64) % 64 =
      ground arith in
    let bits : total * 8 % 2 ^ 64 ≡ n * 8 % 2 ^ 64 = omega arith in rw (zeros, bits) refl

final_size-cases :
    (buffer : Bytes)
    → ((length buffer ≤ 55) × (final_size buffer ≡ 64))
      ⊎ ((56 ≤ length buffer) × (final_size buffer ≡ 128))
unfolding final_size
final_size-cases buffer = ground arith

length-final_blocks :
    (buffer : Bytes) (total : ℕ)
    → length buffer < 64
    → length (final_blocks buffer total) ≡ final_size buffer
unfolding final_blocks
length-final_blocks buffer total h =
    let zeros = final_size buffer - 8 - (length buffer + 1) in
    let bits = total * 8 % 2 ^ 64 in
    let gap : Bytes = replicate zeros 0 in
    let a = length-append buffer (128 ∷ (gap ++ length_bytes 8 bits)) in
    let b = length-append gap (length_bytes 8 bits) in
    let c : length gap ≡ zeros = length-replicate zeros 0 in
    let d = length-length_bytes 8 bits in let n = final_size-cases buffer in ground arith

-- `last_words` hashes all of the final blocks.
last_words-blocks :
    (s : Words) (buffer : Bytes) (total : ℕ)
    → length buffer < 64
    → last_words s buffer total ≡ (blocks s (final_blocks buffer total)).0
unfolding last_words
last_words-blocks s buffer total h =
    let fb = final_blocks buffer total in
    let len = length-final_blocks buffer total h in
    let d = length-drop 64 fb in
    elim (final_size-cases buffer) [
      | inl (le, one) ↦
          let test : (final_size buffer == 128) ≡ false = ground arith in
          rw test (
            sym (
              ap (λ r. r.0)
                (blocks_step s fb (omega arith)
                  ∙ blocks_short (process_block s (take 64 fb)) (drop 64 fb) (omega arith))))
      | inr (ge, two) ↦
          let test : (final_size buffer == 128) ≡ true = ground arith in
          let e = length-drop 64 (drop 64 fb) in
          rw test (
            sym (
              ap (λ r. r.0)
                (blocks_step s fb (omega arith)
                  ∙ blocks_step (process_block s (take 64 fb)) (drop 64 fb) (omega arith)
                  ∙ blocks_short
                      (process_block (process_block s (take 64 fb)) (take 64 (drop 64 fb)))
                      (drop 64 (drop 64 fb)) (omega arith))))
    ]

final_hex-Holds :
    (x : Sha256) (message : Bytes)
    → Holds x message
    → (final_hex x).0 ≡ to_hex (blocks initial_words (message ++ padding (length message))).0
unfolding final_hex
final_hex-Holds x message h =
    let b = blocks initial_words message in
    let rest = blocks-rest (length message) initial_words message (omega arith) in
    let size = blocks-mod (length message) initial_words message (omega arith) in
    rw (h.not_final, h.state_is, h.buffer_is)
      (ap to_hex (
        last_words-blocks b.0 b.1 x.total_bytes rest
        ∙ ap (λ t. (blocks b.0 t).0)
            (final_blocks-padding b.1 (length message) x.total_bytes size h.total_is)
        ∙ sym (
            ap (λ r. r.0)
              (blocks-append (length message) initial_words message (padding (length message))
                (omega arith)))))

-- The hash of a message is the hexadecimal text of the words that the blocks of the padded message
-- give, hashed one after another from the initial words.
pub sha256_hex-padding :
    (message : Bytes)
    → sha256_hex message
      ≡ ok (to_hex (blocks initial_words (message ++ padding (length message))).0)
unfolding sha256_hex
sha256_hex-padding message =
    rw (update-after new message refl) (
      ap (λ t. ok t) (final_hex-Holds (after_update new message) message (new_after-Holds message)))
