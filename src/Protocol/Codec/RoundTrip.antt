-- ===== src/Protocol/Codec/RoundTrip.antt =====
-- `parse` against `encode`: each undoes the other, and `parse` accepts nothing else.
use beam_drop.Prelude.{
  ℕ, zero, suc, ◌+◌, ◌^◌, ◌≤◌, ◌<◌, ◌≡◌, refl, sym, ◌∙◌, [], ◌∷◌, ◌++◌, arith, Bytes, length, drop,
  take-append-drop, drop-drop, All, length-drop,
}
use beam_drop.Errors.{ok}
use beam_drop.Protocol.{encoded_size, Packet, IsWellFormed, IsByte}
use beam_drop.Protocol.Codec.{encode, parse, byte_at, byte_of, read_bytes}
use beam_drop.Protocol.Codec.Fields.{
  read_u16_bytes, read_u32_bytes, read_u64_bytes, be16, be32, be64, type_code-parse_type,
}
use beam_drop.Protocol.Codec.Layout.{
  read_bytes-take, parse-Accepted, Accepted-parse, length_field_exact, layout, encode-layout,
  layout-Accepted,
}

-- Parsing what `encode` wrote for a well-formed packet gives the packet back, with its length
-- field set to the size of its payload.
pub parse-encode :
    (p : Packet)
    → IsWellFormed p
    → parse (encode p)
      ≡ ok (record p { header = record (p.header) { length_field = length p.payload } })
parse-encode p w = rw (encode-layout p w.magic_ok w.version_ok) (
    rw (w.magic_ok, w.version_ok)
      (Accepted-parse _ _ (
        layout-Accepted p.header.type p.header.flags p.header.checksum p.payload w.flags_lt
          w.checksum_size w.payload_fits)))

byte_of-lt : (bytes : Bytes) (i : ℕ) → All IsByte bytes → byte_of bytes i < 256
byte_of-lt [] i h = omega arith
byte_of-lt (x ∷ xs) zero h = h.0
byte_of-lt (x ∷ xs) (suc i) h = byte_of-lt xs i h.1

-- The bytes from place `i` on begin with `n` bytes read there.
read_bytes-append-drop :
    (n i : ℕ) (bytes : Bytes)
    → i + n ≤ length bytes
    → read_bytes n bytes i ++ drop (i + n) bytes ≡ drop i bytes
read_bytes-append-drop n i bytes h =
    rw (read_bytes-take n bytes i h, ← drop-drop n i bytes) (take-append-drop n (drop i bytes))

byte_at-be16 :
    (a b : ℕ) → a < 256 → b < 256 → (byte_at (be16 a b) 8 ≡ a) × (byte_at (be16 a b) 0 ≡ b)
byte_at-be16 a b ha hb = omega arith

byte_at-be32 :
    (a b c d : ℕ)
    → a < 256
    → b < 256
    → c < 256
    → d < 256
    → (byte_at (be32 a b c d) 24 ≡ a)
      × (byte_at (be32 a b c d) 16 ≡ b)
      × (byte_at (be32 a b c d) 8 ≡ c)
      × (byte_at (be32 a b c d) 0 ≡ d)
byte_at-be32 a b c d ha hb hc hd = omega arith

byte_at-be64 :
    (a b c d e f g h : ℕ)
    → a < 256
    → b < 256
    → c < 256
    → d < 256
    → e < 256
    → f < 256
    → g < 256
    → h < 256
    → (byte_at (be64 a b c d e f g h) 56 ≡ a)
      × (byte_at (be64 a b c d e f g h) 48 ≡ b)
      × (byte_at (be64 a b c d e f g h) 40 ≡ c)
      × (byte_at (be64 a b c d e f g h) 32 ≡ d)
      × (byte_at (be64 a b c d e f g h) 24 ≡ e)
      × (byte_at (be64 a b c d e f g h) 16 ≡ f)
      × (byte_at (be64 a b c d e f g h) 8 ≡ g)
      × (byte_at (be64 a b c d e f g h) 0 ≡ h)
byte_at-be64 a b c d e f g h ha hb hc hd he hf hg hh = omega arith

layout_bytes :
    (t0 t1 f0 f1 f2 f3 l0 l1 l2 l3 l4 l5 l6 l7 : ℕ) (checksum payload : Bytes)
    → t0 < 256
    → t1 < 256
    → f0 < 256
    → f1 < 256
    → f2 < 256
    → f3 < 256
    → l0 < 256
    → l1 < 256
    → l2 < 256
    → l3 < 256
    → l4 < 256
    → l5 < 256
    → l6 < 256
    → l7 < 256
    → layout (be16 t0 t1) (be32 f0 f1 f2 f3) (be64 l0 l1 l2 l3 l4 l5 l6 l7) checksum payload
      ≡ b'B'
        ∷ b'D'
        ∷ b'R'
        ∷ b'P'
        ∷ 0
        ∷ 1
        ∷ t0
        ∷ t1
        ∷ f0
        ∷ f1
        ∷ f2
        ∷ f3
        ∷ l0
        ∷ l1
        ∷ l2
        ∷ l3
        ∷ l4
        ∷ l5
        ∷ l6
        ∷ l7
        ∷ (checksum ++ payload)
layout_bytes t0 t1 f0 f1 f2 f3 l0 l1 l2 l3 l4 l5 l6 l7 checksum payload ht0 ht1 hf0 hf1 hf2 hf3 hl0
      hl1 hl2 hl3 hl4 hl5 hl6 hl7 =
    let t = byte_at-be16 t0 t1 ht0 ht1 in
    let f = byte_at-be32 f0 f1 f2 f3 hf0 hf1 hf2 hf3 in
    let l = byte_at-be64 l0 l1 l2 l3 l4 l5 l6 l7 hl0 hl1 hl2 hl3 hl4 hl5 hl6 hl7 in
    cc (t.0, t.1, f.0, f.1, f.2, f.3, l.0, l.1, l.2, l.3, l.4, l.5, l.6, l.7)

-- The first 20 bytes, one by one.
head_bytes : (bytes : Bytes) → 20 ≤ length bytes → read_bytes 20 bytes 0 ++ drop 20 bytes ≡ bytes
head_bytes bytes h = read_bytes-append-drop 20 0 bytes h

be64-lt :
    (a b c d e f g h : ℕ)
    → a < 256
    → b < 256
    → c < 256
    → d < 256
    → e < 256
    → f < 256
    → g < 256
    → h < 256
    → be64 a b c d e f g h < 2 ^ 64
be64-lt a b c d e f g h ha hb hc hd he hf hg hh = omega arith

-- Every payload that `parse` returns has the size that its header says, though the test is of a
-- 64-bit sum that can wrap around.
length-payload :
    (bytes : Bytes) (p : Packet)
    → All IsByte bytes
    → parse bytes ≡ ok p
    → (length p.payload ≡ p.header.length_field) × (length bytes ≡ encoded_size + length p.payload)
length-payload bytes p h e =
    let a = parse-Accepted bytes p e in
    let lt = λ (i : ℕ). byte_of-lt bytes i h in
    let len =
      a.length_is
      ∙ read_u64_bytes _ _ _ _ _ _ _ _ bytes 12 refl refl refl refl refl refl refl refl (lt 12)
          (lt 13) (lt 14) (lt 15) (lt 16) (lt 17) (lt 18) (lt 19) in
    let bound : p.header.length_field < 2 ^ 64 =
      rw len
        (be64-lt _ _ _ _ _ _ _ _ (lt 12) (lt 13) (lt 14) (lt 15) (lt 16) (lt 17) (lt 18) (lt 19)) in
    let size =
      length_field_exact (length bytes) p.header.length_field a.length_ok bound a.size_ok in
    let payload_size : length p.payload ≡ p.header.length_field =
      rw a.payload_is (omega (arith, length-drop 52 bytes)) in
    (payload_size, omega arith)

-- `parse` accepts only what `encode` writes: the bytes of an accepted packet are its encoding.
pub encode-parse :
    (bytes : Bytes) (p : Packet) → All IsByte bytes → parse bytes ≡ ok p → encode p ≡ bytes
unfolding read_bytes
encode-parse bytes p h e =
    let a = parse-Accepted bytes p e in
    let at = λ (i : ℕ). byte_of bytes i in
    let lt = λ (i : ℕ). byte_of-lt bytes i h in
    let version = a.version_is ∙ read_u16_bytes bytes 4 _ _ refl refl (lt 4) (lt 5) in
    let b4 : byte_of bytes 4 ≡ 0 = omega (arith, a.version_ok, version) in
    let b5 : byte_of bytes 5 ≡ 1 = omega (arith, a.version_ok, version) in
    let type =
      sym (type_code-parse_type _ _ a.type_is)
      ∙ read_u16_bytes bytes 6 _ _ refl refl (lt 6) (lt 7) in
    let flags =
      a.flags_is
      ∙ read_u32_bytes _ _ _ _ bytes 8 refl refl refl refl (lt 8) (lt 9) (lt 10) (lt 11) in
    let len =
      (length-payload bytes p h e).0
      ∙ a.length_is
      ∙ read_u64_bytes _ _ _ _ _ _ _ _ bytes 12 refl refl refl refl refl refl refl refl (lt 12)
          (lt 13) (lt 14) (lt 15) (lt 16) (lt 17) (lt 18) (lt 19) in
    let tail : p.header.checksum ++ p.payload ≡ drop 20 bytes =
      rw (a.checksum_is, a.payload_is) (read_bytes-append-drop 32 20 bytes a.size_ok) in
    rw (encode-layout p a.magic_ok a.version_ok, type, flags, len)
      (layout_bytes (at 6) (at 7) (at 8) (at 9) (at 10) (at 11) (at 12) (at 13) (at 14) (at 15)
          (at 16) (at 17) (at 18) (at 19) p.header.checksum p.payload (lt 6) (lt 7) (lt 8) (lt 9)
          (lt 10) (lt 11) (lt 12) (lt 13) (lt 14) (lt 15) (lt 16) (lt 17) (lt 18) (lt 19)
        ∙ cc (head_bytes bytes (omega arith), tail, a.magic_ok, a.magic_is, b4, b5))
