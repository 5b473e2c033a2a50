-- ===== src/Protocol/Codec.antt =====
-- src/protocol/Serializer.cpp and src/protocol/PacketParser.cpp
pub mod Fields
pub mod Layout
pub mod RoundTrip
mod Tests
use beam_drop.Prelude.{
  ℕ, zero, suc, ◌+◌, ◌*◌, ◌/◌, ◌%◌, ◌^◌, bit_or, not, [], ◌∷◌, ◌++◌, Bytes, length, get_or, drop,
  ltb, ◌==◌, if◌then◌else◌, same_bytes,
}
use beam_drop.Errors.{Result, ok, err, runtime, throw_if, ◌>>=◌, ◌>>◌}
use beam_drop.Protocol.{
  PacketType, hello, file_info, resume_req, resume_ack, data_chunk, file_end, finish, error,
  heartbeat, directory_info, type_code, magic_bytes, version_number, encoded_size, PacketHeader,
  Packet,
}

-- `static_cast<std::uint8_t>((value >> shift) & 0xFF)`
abbrev pub byte_at : ℕ → ℕ → ℕ
byte_at value shift = value / 2 ^ shift % 256

unfoldable pub append_u16 : Bytes → ℕ → Bytes
append_u16 out value = out ++ byte_at value 8 ∷ byte_at value 0 ∷ []

-- The shifts are 24, 16, 8, 0, and for 64 bits 56, 48, …, 0.
unfoldable pub append_u32 : Bytes → ℕ → Bytes
append_u32 out value =
    out ++ byte_at value 24 ∷ byte_at value 16 ∷ byte_at value 8 ∷ byte_at value 0 ∷ []

unfoldable pub append_u64 : Bytes → ℕ → Bytes
append_u64 out value =
    out
    ++ byte_at value 56
      ∷ byte_at value 48
      ∷ byte_at value 40
      ∷ byte_at value 32
      ∷ byte_at value 24
      ∷ byte_at value 16
      ∷ byte_at value 8
      ∷ byte_at value 0
      ∷ []

-- `Serializer::encode`
unfoldable pub encode : Packet → Bytes
unfolding append_u16 append_u32 append_u64
encode p =
    let h = record (p.header) { length_field = length p.payload } in
    let out = append_u16 h.magic h.version in
    let out2 = append_u16 out (type_code h.type) in
    let out3 = append_u64 (append_u32 out2 h.flags) h.length_field in
    (out3 ++ h.checksum) ++ p.payload

-- The reads are of a span that holds the header: `parse` tests the size first.
abbrev pub byte_of : Bytes → ℕ → ℕ
byte_of bytes i = get_or bytes i 0

unfoldable pub read_u16 : Bytes → ℕ → ℕ
read_u16 bytes offset =
    bit_or (byte_of bytes offset * 256 % 2 ^ 16) (byte_of bytes (offset + 1)) % 2 ^ 16

-- The loop of `read_u32` and `read_u64`: `value = (value << 8) | bytes[offset + i]` in `width` bits.
unfoldable pub read_be : ℕ → ℕ → ℕ → Bytes → ℕ → ℕ
read_be width zero value bytes offset = value
read_be width (suc n) value bytes offset =
    read_be width n (bit_or (value * 256 % 2 ^ width) (byte_of bytes offset)) bytes (offset + 1)

unfoldable pub read_u32 : Bytes → ℕ → ℕ
unfolding read_be
read_u32 = read_be 32 4 0

unfoldable pub read_u64 : Bytes → ℕ → ℕ
unfolding read_be
read_u64 = read_be 64 8 0

-- `for (i < n) field[i] = bytes[offset++];`
unfoldable pub read_bytes : ℕ → Bytes → ℕ → Bytes
read_bytes zero bytes offset = []
read_bytes (suc n) bytes offset = byte_of bytes offset ∷ read_bytes n bytes (offset + 1)

unfoldable pub parse_type : ℕ → Result PacketType
parse_type v =
    if v == 1
    then ok hello
    else if v == 2
    then ok file_info
    else if v == 3
    then ok resume_req
    else if v == 4
    then ok resume_ack
    else if v == 5
    then ok data_chunk
    else if v == 6
    then ok file_end
    else if v == 7
    then ok finish
    else if v == 8
    then ok error
    else if v == 9
    then ok heartbeat
    else if v == 10
    then ok directory_info
    else err runtime

-- `PacketParser::parse`; `kEncodedSize + header.length` is a 64-bit sum.
unfoldable pub parse : Bytes → Result Packet
parse bytes = do
  throw_if (ltb (length bytes) encoded_size) runtime
  let magic = read_bytes 4 bytes 0
  throw_if (not (same_bytes magic magic_bytes)) runtime
  let version = read_u16 bytes 4
  throw_if (not (version == version_number)) runtime
  type ← parse_type (read_u16 bytes 6)
  let flags = read_u32 bytes 8
  let length_field = read_u64 bytes 12
  let checksum = read_bytes 32 bytes 20
  throw_if (not (length bytes == (encoded_size + length_field) % 2 ^ 64)) runtime
  ok (record {
    header = record {
      magic = magic;
      version = version;
      type = type;
      flags = flags;
      length_field = length_field;
      checksum = checksum;
    };
    payload = drop encoded_size bytes;
  })
