-- ===== src/Protocol/Codec/Layout.antt =====
-- The bytes of a packet, and what `parse` reads of them.
use beam_drop.Prelude.{
  ℕ, zero, suc, ◌+◌, ◌%◌, ◌^◌, ◌≤◌, ◌<◌, ◌≡◌, refl, sym, ap, ◌∙◌, [], ◌∷◌, ◌++◌, arith, Bytes,
  length, take, drop, take-append, drop-append, length-append, same_bytes_iff,
}
use beam_drop.Errors.{ok}
use beam_drop.Protocol.{PacketType, type_code, magic_bytes, encoded_size, Packet}
use beam_drop.Protocol.Codec.{
  encode, parse, byte_at, byte_of, read_bytes, read_u16, read_u32, read_u64, parse_type,
}
use beam_drop.Protocol.Codec.Fields.{
  read_u16_bytes, read_u32_bytes, read_u64_bytes, be16-byte_at, be32-byte_at, be64-byte_at,
  parse_type-type_code,
}

drop_next :
    (bytes : Bytes) (i : ℕ) → i < length bytes → drop i bytes ≡ byte_of bytes i ∷ drop (i + 1) bytes
drop_next [] i h = absurd (omega arith)
drop_next (x ∷ xs) zero h = refl
drop_next (x ∷ xs) (suc i) h =
    let e : suc i + 1 ≡ suc (i + 1) = omega arith in rw e (drop_next xs i (omega arith))

pub read_bytes-take :
    (n : ℕ) (bytes : Bytes) (i : ℕ)
    → i + n ≤ length bytes
    → read_bytes n bytes i ≡ take n (drop i bytes)
unfolding read_bytes
read_bytes-take zero bytes i h = refl
read_bytes-take (suc n) bytes i h =
    rw (drop_next bytes i (omega arith))
      (ap (◌∷◌ (byte_of bytes i)) (read_bytes-take n bytes (i + 1) (omega arith)))

-- What `parse` has read when it accepts.
pub record Accepted (bytes : Bytes) (p : Packet) : Type 0 where
  pub size_ok : encoded_size ≤ length bytes
  pub magic_is : p.header.magic ≡ read_bytes 4 bytes 0
  pub magic_ok : p.header.magic ≡ magic_bytes
  pub version_is : p.header.version ≡ read_u16 bytes 4
  pub version_ok : p.header.version ≡ 1
  pub type_is : parse_type (read_u16 bytes 6) ≡ ok p.header.type
  pub flags_is : p.header.flags ≡ read_u32 bytes 8
  pub length_is : p.header.length_field ≡ read_u64 bytes 12
  pub checksum_is : p.header.checksum ≡ read_bytes 32 bytes 20
  pub length_ok : length bytes ≡ (encoded_size + p.header.length_field) % 2 ^ 64
  pub payload_is : p.payload ≡ drop encoded_size bytes

pub parse-Accepted : (bytes : Bytes) (p : Packet) → parse bytes ≡ ok p → Accepted bytes p
unfolding parse
parse-Accepted bytes p h = ground (arith, same_bytes_iff (read_bytes 4 bytes 0) magic_bytes)

pub Accepted-parse : (bytes : Bytes) (p : Packet) → Accepted bytes p → parse bytes ≡ ok p
unfolding parse
Accepted-parse bytes p a = ground (arith, same_bytes_iff (read_bytes 4 bytes 0) magic_bytes)

-- The sum `kEncodedSize + length` may wrap around, but then it is below the size of any header.
pub length_field_exact :
    (n l : ℕ)
    → n ≡ (encoded_size + l) % 2 ^ 64
    → l < 2 ^ 64
    → encoded_size ≤ n
    → n ≡ encoded_size + l
length_field_exact n l e h k = omega arith

-- The bytes of a packet with type code `t`, flags `f` and a payload of `n` bytes.
abbrev pub layout : ℕ → ℕ → ℕ → Bytes → Bytes → Bytes
layout t f n checksum payload =
    b'B'
    ∷ b'D'
    ∷ b'R'
    ∷ b'P'
    ∷ 0
    ∷ 1
    ∷ byte_at t 8
    ∷ byte_at t 0
    ∷ byte_at f 24
    ∷ byte_at f 16
    ∷ byte_at f 8
    ∷ byte_at f 0
    ∷ byte_at n 56
    ∷ byte_at n 48
    ∷ byte_at n 40
    ∷ byte_at n 32
    ∷ byte_at n 24
    ∷ byte_at n 16
    ∷ byte_at n 8
    ∷ byte_at n 0
    ∷ (checksum ++ payload)

pub encode-layout :
    (p : Packet)
    → p.header.magic ≡ magic_bytes
    → p.header.version ≡ 1
    → encode p
      ≡ layout
          (type_code p.header.type)
          p.header.flags
          (length p.payload)
          p.header.checksum
          p.payload
unfolding encode
encode-layout p m v = rw (m, v)

type_code-lt : (t : PacketType) → type_code t < 2 ^ 16
type_code-lt _ = ground arith

-- The size field of the bytes of a packet.
pub read_u64-layout :
    (t f n : ℕ) (checksum payload : Bytes)
    → n < 2 ^ 64
    → read_u64 (layout t f n checksum payload) 12 ≡ n
read_u64-layout t f n checksum payload h =
    read_u64_bytes _ _ _ _ _ _ _ _ (layout t f n checksum payload) 12 refl refl refl refl refl refl
      refl refl (omega arith) (omega arith) (omega arith) (omega arith) (omega arith) (omega arith)
      (omega arith) (omega arith)
    ∙ be64-byte_at n h

pub layout-Accepted :
    (t : PacketType) (f : ℕ) (checksum payload : Bytes)
    → f < 2 ^ 32
    → length checksum ≡ 32
    → 52 + length payload < 2 ^ 64
    → Accepted (layout (type_code t) f (length payload) checksum payload) (record {
      header = record {
        magic = magic_bytes;
        version = 1;
        type = t;
        flags = f;
        length_field = length payload;
        checksum = checksum;
      };
      payload = payload;
    })
unfolding read_bytes
layout-Accepted t f checksum payload hf hc hp =
    let n = length payload in
    let bytes = layout (type_code t) f n checksum payload in
    let c = type_code t in
    let ht : c < 2 ^ 16 = type_code-lt t in
    let type_read =
      read_u16_bytes bytes 6 (byte_at c 8) (byte_at c 0) refl refl (omega arith) (omega arith)
      ∙ be16-byte_at c ht in
    let size : length bytes ≡ 52 + n = omega (arith, length-append checksum payload) in
    record {
      size_ok = omega arith;
      magic_is = refl;
      magic_ok = refl;
      version_is = sym (read_u16_bytes bytes 4 0 1 refl refl (omega arith) (omega arith));
      version_ok = refl;
      type_is = rw type_read (parse_type-type_code t);
      flags_is = sym (
          read_u32_bytes _ _ _ _ bytes 8 refl refl refl refl (omega arith) (omega arith)
            (omega arith) (omega arith)
          ∙ be32-byte_at f hf);
      length_is = sym (read_u64-layout c f n checksum payload (omega arith));
      checksum_is =
          sym (read_bytes-take 32 bytes 20 (omega arith) ∙ take-append 32 checksum payload hc);
      length_ok = omega arith;
      payload_is = sym (drop-append 32 checksum payload hc);
    }
