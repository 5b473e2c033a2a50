-- ===== src/Sha256/Streaming.antt =====
-- `update` called on the pieces of a message does what it does on the whole, and the file hash is
-- the hash of the file's content, whatever the chunk size.
use mathlib.Core.Path.{subst}
use beam_drop.Prelude.{
  ℕ, zero, suc, ◌+◌, ◌%◌, ◌^◌, ◌<◌, ◌≡◌, ◌≢◌, refl, ap, sym, ◌∙◌, inl, inr, false, [], ◌∷◌, ◌++◌,
  append_assoc, append-nil, arith, Bytes, length, take, drop, length-append, length-take,
  length-drop, take-append-drop, ltb, ◌==◌, if◌then◌else◌, Bool-cases,
}
use beam_drop.Errors.{ok}
use beam_drop.Sha256.{
  Sha256, new, initial_words, whole_blocks, absorb, update, final_hex, sha256_hex, hash_chunks,
  sha256_file,
}
use beam_drop.Sha256.Blocks.{blocks, blocks-append, blocks-rest, take_short, absorb-blocks}

-- The state after a message: what `update` keeps.
pub record Holds (x : Sha256) (message : Bytes) : Type 0 where
  pub state_is : x.state ≡ (blocks initial_words message).0
  pub buffer_is : x.buffer ≡ (blocks initial_words message).1
  pub total_is : x.total_bytes ≡ length message % 2 ^ 64
  pub not_final : x.finalized ≡ false

unfoldable pub after_update : Sha256 → Bytes → Sha256
after_update x bytes =
    let after = absorb x.state x.buffer bytes in
    record {
      state = after.0;
      buffer = after.1;
      total_bytes = (x.total_bytes + length bytes) % 2 ^ 64;
      finalized = false;
    }

pub update-after :
    (x : Sha256) (bytes : Bytes) → x.finalized ≡ false → update x bytes ≡ ok (after_update x bytes)
unfolding update after_update
update-after x bytes e = rw e refl

after_update-Holds :
    (x : Sha256) (message bytes : Bytes)
    → Holds x message
    → Holds (after_update x bytes) (message ++ bytes)
unfolding after_update
after_update-Holds x message bytes h = record {
  state_is = ap (λ r. r.0) whole;
  buffer_is = ap (λ r. r.1) whole;
  total_is = total;
  not_final = refl;
}
  where
    whole : absorb x.state x.buffer bytes ≡ blocks initial_words (message ++ bytes)
    whole =
        let rest = blocks-rest (length message) initial_words message (omega arith) in
        rw (h.state_is, h.buffer_is)
          (absorb-blocks (blocks initial_words message).0 (blocks initial_words message).1 bytes
              rest
            ∙ sym (blocks-append (length message) initial_words message bytes (omega arith)))

    total : (x.total_bytes + length bytes) % 2 ^ 64 ≡ length (message ++ bytes) % 2 ^ 64
    total = let e = h.total_is in let a = length-append message bytes in omega arith

pub new-Holds : Holds new []
new-Holds = record {
  state_is = unfold blocks whole_blocks in refl;
  buffer_is = unfold blocks whole_blocks in refl;
  total_is = omega arith;
  not_final = refl;
}

-- Two objects that hold one message are the same.
pub Holds-unique : (x y : Sha256) (message : Bytes) → Holds x message → Holds y message → x ≡ y
Holds-unique x y message hx hy =
    let a = hx.state_is ∙ sym hy.state_is in
    let b = hx.buffer_is ∙ sym hy.buffer_is in
    let c = hx.total_is ∙ sym hy.total_is in let d = hx.not_final ∙ sym hy.not_final in cc

-- One turn of the loop of `sha256_file`.
pub chunk-Holds :
    (x : Sha256) (message chunk : Bytes)
    → Holds x message
    → (y : Sha256) × ((if 0 == length chunk then ok x else update x chunk) ≡ ok y)
      × Holds y (message ++ chunk)
chunk-Holds x message [] h = (x, refl, rw (append-nil message) h)
chunk-Holds x message (c ∷ cs) h =
    let more : (0 == length (c ∷ cs)) ≡ false = ground arith in
    (
      after_update x (c ∷ cs),
      rw more (update-after x (c ∷ cs) h.not_final),
      after_update-Holds x message (c ∷ cs) h,
    )

hash_chunks-Holds :
    (fuel chunk_size : ℕ) (content : Bytes) (x : Sha256) (message : Bytes)
    → chunk_size ≢ 0
    → length content < fuel
    → Holds x message
    → (y : Sha256) × (hash_chunks fuel chunk_size content x ≡ ok y) × Holds y (message ++ content)
unfolding hash_chunks
hash_chunks-Holds zero chunk_size content x message ne le h = absurd (omega arith)
hash_chunks-Holds (suc fuel) chunk_size content x message ne le h =
    let (y, is_ok, hy) = chunk-Holds x message (take chunk_size content) h in
    let t = length-take chunk_size content in
    let d = length-drop chunk_size content in
    elim (Bool-cases (ltb (length (take chunk_size content)) chunk_size)) [
      | inl short ↦
          let all : take chunk_size content ≡ content =
            take_short chunk_size content (ground arith) in
          (y, rw (short, is_ok) refl, subst (λ m. Holds y m) (ap (λ r. message ++ r) all) hy)
      | inr full ↦
          let (z, z_ok, hz) =
            hash_chunks-Holds fuel chunk_size (drop chunk_size content) y
              (message ++ take chunk_size content) ne (ground arith) hy in
          let join =
            append_assoc message (take chunk_size content) (drop chunk_size content)
            ∙ ap (λ r. message ++ r) (take-append-drop chunk_size content) in
          (z, rw (full, is_ok) z_ok, subst (λ m. Holds z m) join hz)
    ]

pub new_after-Holds : (content : Bytes) → Holds (after_update new content) content
new_after-Holds content = after_update-Holds new [] content new-Holds

-- The hash of a file is that of its content, for every chunk size but 0: the fuel of the loop is
-- enough.
pub sha256_file-sha256_hex :
    (chunk_size : ℕ) (content : Bytes)
    → chunk_size ≢ 0
    → sha256_file chunk_size content ≡ sha256_hex content
unfolding sha256_file sha256_hex
sha256_file-sha256_hex chunk_size content ne =
    let (y, is_ok, hy) =
      hash_chunks-Holds (suc (length content)) chunk_size content new [] ne (omega arith)
        new-Holds in
    let test : (0 == chunk_size) ≡ false = ground arith in
    rw (test, is_ok, update-after new content refl)
      (ap (λ z. ok (final_hex z).0)
        (Holds-unique y (after_update new content) content hy (new_after-Holds content)))
