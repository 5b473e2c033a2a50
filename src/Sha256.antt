-- ===== src/Sha256.antt =====
-- include/beamdrop/utils/Sha256.hpp and src/utils/Sha256.cpp: the streaming SHA-256, on 32-bit words
-- and bytes as natural numbers.
pub mod Blocks
pub mod Streaming
pub mod Padding
pub mod Hex
mod Tests
use Prim.Native.Nat.{bit_and, bit_xor}
use beam_drop.Prelude.{
  ℕ, zero, suc, ◌+◌, ◌-◌, ◌*◌, ◌/◌, ◌%◌, ◌^◌, min, bit_or, Bool, true, false, ◌&&◌, List, [], ◌∷◌,
  ◌++◌, Bytes, length, get_or, take, drop, replicate, ltb, leb, ◌==◌, if◌then◌else◌,
}
use beam_drop.Errors.{Result, ok, err, runtime, throw_if, ◌>>=◌, ◌>>◌}

abbrev word : ℕ
word = 2 ^ 32

abbrev k : List ℕ
k =
    1116352408 ∷ 1899447441 ∷ 3049323471 ∷ 3921009573 ∷ 961987163 ∷ 1508970993 ∷ 2453635748
    ∷ 2870763221 ∷ 3624381080 ∷ 310598401 ∷ 607225278 ∷ 1426881987 ∷ 1925078388 ∷ 2162078206
    ∷ 2614888103 ∷ 3248222580 ∷ 3835390401 ∷ 4022224774 ∷ 264347078 ∷ 604807628 ∷ 770255983
    ∷ 1249150122 ∷ 1555081692 ∷ 1996064986 ∷ 2554220882 ∷ 2821834349 ∷ 2952996808 ∷ 3210313671
    ∷ 3336571891 ∷ 3584528711 ∷ 113926993 ∷ 338241895 ∷ 666307205 ∷ 773529912 ∷ 1294757372
    ∷ 1396182291 ∷ 1695183700 ∷ 1986661051 ∷ 2177026350 ∷ 2456956037 ∷ 2730485921 ∷ 2820302411
    ∷ 3259730800 ∷ 3345764771 ∷ 3516065817 ∷ 3600352804 ∷ 4094571909 ∷ 275423344 ∷ 430227734
    ∷ 506948616 ∷ 659060556 ∷ 883997877 ∷ 958139571 ∷ 1322822218 ∷ 1537002063 ∷ 1747873779
    ∷ 1955562222 ∷ 2024104815 ∷ 2227730452 ∷ 2361852424 ∷ 2428436474 ∷ 2756734187 ∷ 3204031479
    ∷ 3329325298 ∷ []

-- `rotr`, for a word and fewer than 32 bits
unfoldable pub rotr : ℕ → ℕ → ℕ
rotr value bits = bit_or (value / 2 ^ bits) (value * 2 ^ (32 - bits) % word)

unfoldable pub load_be32 : Bytes → ℕ → ℕ
load_be32 bytes offset =
    let at = λ (i : ℕ). get_or bytes (offset + i) 0 in
    bit_or (bit_or (bit_or (at 0 * 2 ^ 24) (at 1 * 2 ^ 16)) (at 2 * 2 ^ 8)) (at 3)

-- The eight words `a` to `h`.
pub record Words : Type 0 where
  pub a : ℕ
  pub b : ℕ
  pub c : ℕ
  pub d : ℕ
  pub e : ℕ
  pub f : ℕ
  pub g : ℕ
  pub h : ℕ

abbrev pub initial_words : Words
initial_words = record {
  a = 1779033703;
  b = 3144134277;
  c = 1013904242;
  d = 2773480762;
  e = 1359893119;
  f = 2600822924;
  g = 528734635;
  h = 1541459225;
}

-- The first sixteen words of the schedule.
unfoldable pub loaded : ℕ → Bytes → List ℕ
loaded zero block = []
loaded (suc n) block = loaded n block ++ load_be32 block (n * 4) ∷ []

-- The word behind `w`, which has at least sixteen.
unfoldable pub next_word : List ℕ → ℕ
next_word w =
    let at = λ (back : ℕ). get_or w (length w - back) 0 in
    let s0 = bit_xor (bit_xor (rotr (at 15) 7) (rotr (at 15) 18)) (at 15 / 2 ^ 3) in
    let s1 = bit_xor (bit_xor (rotr (at 2) 17) (rotr (at 2) 19)) (at 2 / 2 ^ 10) in
    (at 16 + s0 + at 7 + s1) % word

unfoldable pub extended : ℕ → List ℕ → List ℕ
extended zero w = w
extended (suc n) w = extended n (w ++ next_word w ∷ [])

-- One round, with its constant and its word of the schedule.
unfoldable pub round : ℕ → ℕ → Words → Words
round ki wi v =
    let s1 = bit_xor (bit_xor (rotr v.e 6) (rotr v.e 11)) (rotr v.e 25) in
    let ch = bit_xor (bit_and v.e v.f) (bit_and (2 ^ 32 - 1 - v.e) v.g) in
    let temp1 = (v.h + s1 + ch + ki + wi) % word in
    let s0 = bit_xor (bit_xor (rotr v.a 2) (rotr v.a 13)) (rotr v.a 22) in
    let maj = bit_xor (bit_xor (bit_and v.a v.b) (bit_and v.a v.c)) (bit_and v.b v.c) in
    let temp2 = (s0 + maj) % word in
    record {
      a = (temp1 + temp2) % word;
      b = v.a;
      c = v.b;
      d = v.c;
      e = (v.d + temp1) % word;
      f = v.e;
      g = v.f;
      h = v.g;
    }

unfoldable pub rounds : List ℕ → List ℕ → Words → Words
rounds (ki ∷ ks) (wi ∷ ws) v = rounds ks ws (round ki wi v)
rounds _ _ v = v

-- `Sha256::process_block`, on a block of 64 bytes
unfoldable pub process_block : Words → Bytes → Words
process_block s block =
    let v = rounds k (extended 48 (loaded 16 block)) s in
    record {
      a = (s.a + v.a) % word;
      b = (s.b + v.b) % word;
      c = (s.c + v.c) % word;
      d = (s.d + v.d) % word;
      e = (s.e + v.e) % word;
      f = (s.f + v.f) % word;
      g = (s.g + v.g) % word;
      h = (s.h + v.h) % word;
    }

-- The object. `buffer` is the first `buffer_size_` bytes of `buffer_`, the only ones that are read.
pub record Sha256 : Type 0 where
  pub state : Words
  pub buffer : Bytes
  pub total_bytes : ℕ
  pub finalized : Bool

abbrev pub new : Sha256
new = record { state = initial_words; buffer = []; total_bytes = 0; finalized = false }

-- The `while` loop of `update`, from `offset` on; each turn takes 64 bytes.
unfoldable pub whole_blocks : ℕ → Words → Bytes → Words × Bytes
whole_blocks zero s bytes = (s, bytes)
whole_blocks (suc fuel) s bytes =
    let rest = whole_blocks fuel (process_block s (take 64 bytes)) (drop 64 bytes) in
    if leb 64 (length bytes) then rest else (s, bytes)

-- The bytes that fill up the buffer, and the block if it is full.
unfoldable pub fill : Words → Bytes → Bytes → (Words × Bytes) × Bytes
fill s [] bytes = ((s, []), bytes)
fill s (c ∷ cs) bytes =
    let buffer = c ∷ cs in
    let copy_size = min (64 - length buffer) (length bytes) in
    let filled = buffer ++ take copy_size bytes in
    let rest = drop copy_size bytes in
    if length filled == 64 then ((process_block s filled, []), rest) else ((s, filled), rest)

-- The rest of `update`: what is left behind the blocks replaces the buffer, unless it is nothing.
unfoldable pub absorb_rest : Words → Bytes → Bytes → Words × Bytes
absorb_rest s buffer bytes =
    let after = whole_blocks (length bytes) s bytes in
    if 0 == length after.1 then (after.0, buffer) else after

unfoldable pub absorb : Words → Bytes → Bytes → Words × Bytes
absorb s buffer bytes =
    let filled = fill s buffer bytes in absorb_rest filled.0.0 filled.0.1 filled.1

-- `Sha256::update`
unfoldable pub update : Sha256 → Bytes → Result Sha256
update x bytes = do
  throw_if x.finalized runtime
  let after = absorb x.state x.buffer bytes in
      ok (record {
        state = after.0;
        buffer = after.1;
        total_bytes = (x.total_bytes + length bytes) % 2 ^ 64;
        finalized = false;
      })

-- One word of `to_hex`, in eight digits.
abbrev pub hex_digit : ℕ → ℕ
hex_digit n = if ltb n 10 then b'0' + n else b'a' + (n - 10)

unfoldable pub hex_word : ℕ → ℕ → Bytes
hex_word zero value = []
hex_word (suc n) value = hex_word n (value / 16) ++ hex_digit (value % 16) ∷ []

unfoldable pub to_hex : Words → Bytes
to_hex s =
    hex_word 8 s.a
    ++ (hex_word 8 s.b
        ++ (hex_word 8 s.c
            ++ (hex_word 8 s.d
                ++ (hex_word 8 s.e ++ (hex_word 8 s.f ++ (hex_word 8 s.g ++ hex_word 8 s.h))))))

-- The loop over `shift`, from 56 down to 0.
unfoldable pub length_bytes : ℕ → ℕ → Bytes
length_bytes zero bit_length = []
length_bytes (suc n) bit_length = bit_length / 2 ^ (8 * n) % 256 ∷ length_bytes n bit_length

unfoldable pub final_size : Bytes → ℕ
final_size buffer = if leb (length buffer + 1) 56 then 64 else 128

-- `final_blocks`, of which only the first `final_size` bytes are read.
unfoldable pub final_blocks : Bytes → ℕ → Bytes
final_blocks buffer total_bytes =
    buffer
    ++ (128
        ∷ (replicate (final_size buffer - 8 - (length buffer + 1)) 0
            ++ length_bytes 8 (total_bytes * 8 % 2 ^ 64)))

unfoldable pub last_words : Words → Bytes → ℕ → Words
last_words s buffer total_bytes =
    let blocks = final_blocks buffer total_bytes in
    let first = process_block s (take 64 blocks) in
    if final_size buffer == 128 then process_block first (take 64 (drop 64 blocks)) else first

-- `Sha256::final_hex`
unfoldable pub final_hex : Sha256 → Bytes × Sha256
final_hex x =
    let last = last_words x.state x.buffer x.total_bytes in
    if x.finalized
    then (to_hex x.state, x)
    else (to_hex last, record x { state = last; finalized = true })

unfoldable pub sha256_hex : Bytes → Result Bytes
sha256_hex bytes = do x ← update new bytes; ok (final_hex x).0

-- The loop of `sha256_file` over a file of this content, whose reads give `chunk_size` bytes or all
-- that are left, where no stop is requested. It ends with the first read that is short.
unfoldable pub hash_chunks : ℕ → ℕ → Bytes → Sha256 → Result Sha256
hash_chunks zero chunk_size content x = err runtime
hash_chunks (suc fuel) chunk_size content x =
    let chunk = take chunk_size content in
    let updated = if 0 == length chunk then ok x else update x chunk in
    let go_on = updated >>= λ y. hash_chunks fuel chunk_size (drop chunk_size content) y in
    if ltb (length chunk) chunk_size then updated else go_on

-- `sha256_file` of a file that can be opened and read, where no stop is requested
unfoldable pub sha256_file : ℕ → Bytes → Result Bytes
sha256_file chunk_size content = do
  throw_if (0 == chunk_size) runtime
  x ← hash_chunks (suc (length content)) chunk_size content new
  ok (final_hex x).0
