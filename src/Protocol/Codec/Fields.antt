-- ===== src/Protocol/Codec/Fields.antt =====
-- Each header field: what a read gives on the bytes at its place, and the bytes that the serializer
-- appends for a value.
use beam_drop.Prelude.{
  ℕ, suc, ◌+◌, ◌*◌, ◌%◌, ◌^◌, ◌<◌, bit_or, bit_or_byte, ◌≡◌, ap, ◌∙◌, arith, Bytes,
}
use beam_drop.Errors.{ok}
use beam_drop.Protocol.{PacketType, type_code}
use beam_drop.Protocol.Codec.{byte_at, byte_of, read_u16, read_u32, read_u64, read_be, parse_type}

-- One round of the loop, while the value has room for a byte more.
join_byte :
    (width value b : ℕ)
    → value * 256 < 2 ^ width
    → b < 256
    → bit_or (value * 256 % 2 ^ width) b ≡ value * 256 + b
join_byte width value b h k =
    let e : value * 256 % 2 ^ width ≡ value * 256 = grind arith in
    ap (λ v. bit_or v b) e ∙ bit_or_byte value b k

-- The value of two, four and eight bytes, the highest first.
abbrev pub be16 : ℕ → ℕ → ℕ
be16 a b = a * 256 + b

abbrev pub be32 : ℕ → ℕ → ℕ → ℕ → ℕ
be32 a b c d = (be16 a b * 256 + c) * 256 + d

abbrev pub be64 : ℕ → ℕ → ℕ → ℕ → ℕ → ℕ → ℕ → ℕ → ℕ
be64 a b c d e f g h = (((be32 a b c d * 256 + e) * 256 + f) * 256 + g) * 256 + h

pub read_u16_bytes :
    (bytes : Bytes) (i a b : ℕ)
    → byte_of bytes i ≡ a
    → byte_of bytes (i + 1) ≡ b
    → a < 256
    → b < 256
    → read_u16 bytes i ≡ be16 a b
unfolding read_u16
read_u16_bytes bytes i a b p q ha hb =
    rw (p, q) (rw (join_byte 16 a b (omega arith) hb) (omega arith))

read_be_step :
    (width n value b : ℕ) (bytes : Bytes) (i : ℕ) {value' j : ℕ}
    → byte_of bytes i ≡ b
    → j ≡ i + 1
    → value' ≡ value * 256 + b
    → b < 256
    → value * 256 < 2 ^ width
    → read_be width (suc n) value bytes i ≡ read_be width n value' bytes j
unfolding read_be
read_be_step width n value b bytes i p e e' k h = rw (p, e, e') (rw (join_byte width value b h k))

pub read_u32_bytes :
    (a b c d : ℕ) (bytes : Bytes) (i : ℕ)
    → byte_of bytes i ≡ a
    → byte_of bytes (i + 1) ≡ b
    → byte_of bytes (i + 2) ≡ c
    → byte_of bytes (i + 3) ≡ d
    → a < 256
    → b < 256
    → c < 256
    → d < 256
    → read_u32 bytes i ≡ be32 a b c d
unfolding read_u32 read_be
read_u32_bytes a b c d bytes i pa pb pc pd ha hb hc hd =
    read_be_step 32 3 0 a bytes i {value' = a} {j = i + 1} pa (omega arith) (omega arith) ha
      (omega arith)
    ∙ read_be_step 32 2 a b bytes (i + 1) {value' = (a * 256 + b)} {j = i + 2} pb (omega arith)
        (omega arith) hb (omega arith)
    ∙ read_be_step 32 1 (a * 256 + b) c bytes (i + 2) {value' = ((a * 256 + b) * 256 + c)}
        {j = i + 3} pc (omega arith) (omega arith) hc (omega arith)
    ∙ read_be_step 32 0 ((a * 256 + b) * 256 + c) d bytes (i + 3)
        {value' = (((a * 256 + b) * 256 + c) * 256 + d)} {j = i + 4} pd (omega arith) (omega arith)
        hd (omega arith)

pub read_u64_bytes :
    (a b c d e f g h : ℕ) (bytes : Bytes) (i : ℕ)
    → byte_of bytes i ≡ a
    → byte_of bytes (i + 1) ≡ b
    → byte_of bytes (i + 2) ≡ c
    → byte_of bytes (i + 3) ≡ d
    → byte_of bytes (i + 4) ≡ e
    → byte_of bytes (i + 5) ≡ f
    → byte_of bytes (i + 6) ≡ g
    → byte_of bytes (i + 7) ≡ h
    → a < 256
    → b < 256
    → c < 256
    → d < 256
    → e < 256
    → f < 256
    → g < 256
    → h < 256
    → read_u64 bytes i ≡ be64 a b c d e f g h
unfolding read_u64 read_be
read_u64_bytes a b c d e f g h bytes i pa pb pc pd pe pf pg ph ha hb hc hd he hf hg hh =
    read_be_step 64 7 0 a bytes i {value' = a} {j = i + 1} pa (omega arith) (omega arith) ha
      (omega arith)
    ∙ read_be_step 64 6 a b bytes (i + 1) {value' = (a * 256 + b)} {j = i + 2} pb (omega arith)
        (omega arith) hb (omega arith)
    ∙ read_be_step 64 5 (a * 256 + b) c bytes (i + 2) {value' = ((a * 256 + b) * 256 + c)}
        {j = i + 3} pc (omega arith) (omega arith) hc (omega arith)
    ∙ read_be_step 64 4 ((a * 256 + b) * 256 + c) d bytes (i + 3)
        {value' = (((a * 256 + b) * 256 + c) * 256 + d)} {j = i + 4} pd (omega arith) (omega arith)
        hd (omega arith)
    ∙ read_be_step 64 3 (((a * 256 + b) * 256 + c) * 256 + d) e bytes (i + 4)
        {value' = ((((a * 256 + b) * 256 + c) * 256 + d) * 256 + e)} {j = i + 5} pe (omega arith)
        (omega arith) he (omega arith)
    ∙ read_be_step 64 2 ((((a * 256 + b) * 256 + c) * 256 + d) * 256 + e) f bytes (i + 5)
        {value' = (((((a * 256 + b) * 256 + c) * 256 + d) * 256 + e) * 256 + f)} {j = i + 6} pf
        (omega arith) (omega arith) hf (omega arith)
    ∙ read_be_step 64 1 (((((a * 256 + b) * 256 + c) * 256 + d) * 256 + e) * 256 + f) g bytes
        (i + 6) {value' = ((((((a * 256 + b) * 256 + c) * 256 + d) * 256 + e) * 256 + f) * 256 + g)}
        {j = i + 7} pg (omega arith) (omega arith) hg (omega arith)
    ∙ read_be_step 64 0 ((((((a * 256 + b) * 256 + c) * 256 + d) * 256 + e) * 256 + f) * 256 + g) h
        bytes (i + 7)
        {value' = (((((((a * 256 + b) * 256 + c) * 256 + d) * 256 + e) * 256 + f) * 256 + g) * 256
          + h)}
        {j = i + 8} ph (omega arith) (omega arith) hh (omega arith)

-- A value that fits is the value of the bytes that are appended for it.
pub be16-byte_at : (v : ℕ) → v < 2 ^ 16 → be16 (byte_at v 8) (byte_at v 0) ≡ v
be16-byte_at v h = omega arith

pub be32-byte_at :
    (v : ℕ) → v < 2 ^ 32 → be32 (byte_at v 24) (byte_at v 16) (byte_at v 8) (byte_at v 0) ≡ v
be32-byte_at v h = omega arith

pub be64-byte_at :
    (v : ℕ)
    → v < 2 ^ 64
    → be64
        (byte_at v 56)
        (byte_at v 48)
        (byte_at v 40)
        (byte_at v 32)
        (byte_at v 24)
        (byte_at v 16)
        (byte_at v 8)
        (byte_at v 0)
      ≡ v
be64-byte_at v h = omega arith

pub parse_type-type_code : (t : PacketType) → parse_type (type_code t) ≡ ok t
unfolding parse_type
parse_type-type_code _ = ground arith

-- Only the ten codes are accepted, each for its own type.
pub type_code-parse_type : (v : ℕ) (t : PacketType) → parse_type v ≡ ok t → v ≡ type_code t
unfolding parse_type
type_code-parse_type v t h = ground arith
