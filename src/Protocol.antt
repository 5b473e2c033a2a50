-- ===== src/Protocol.antt =====
-- The packets of the wire protocol: include/beamdrop/protocol/PacketType.hpp, PacketHeader.hpp and
-- Packet.hpp. `Codec` below is Serializer.cpp and PacketParser.cpp.
pub mod Codec
pub mod PacketIo
use beam_drop.Prelude.{ℕ, ◌+◌, ◌<◌, ◌^◌, ◌≡◌, [], ◌∷◌, Bytes, length, replicate, All}

-- protocol::PacketType; `data_chunk` is `Data`.
pub data PacketType : Type 0 where
  hello file_info resume_req resume_ack data_chunk : PacketType
  file_end finish error heartbeat directory_info : PacketType

-- The 16-bit value of the enumerator.
abbrev pub type_code : PacketType → ℕ
type_code hello = 1
type_code file_info = 2
type_code resume_req = 3
type_code resume_ack = 4
type_code data_chunk = 5
type_code file_end = 6
type_code finish = 7
type_code error = 8
type_code heartbeat = 9
type_code directory_info = 10

-- `kMagic`, `kVersion` and `kEncodedSize`
abbrev pub magic_bytes : Bytes
magic_bytes = b'B' ∷ b'D' ∷ b'R' ∷ b'P' ∷ []

abbrev pub version_number : ℕ
version_number = 1

abbrev pub encoded_size : ℕ
encoded_size = 52

pub record PacketHeader : Type 0 where
  pub magic : Bytes
  pub version : ℕ
  pub type : PacketType
  pub flags : ℕ
  pub length_field : ℕ
  pub checksum : Bytes

pub record Packet : Type 0 where
  pub header : PacketHeader
  pub payload : Bytes

-- `Packet packet; packet.header.type = type; packet.payload = payload;`
abbrev pub make_packet : PacketType → Bytes → Packet
make_packet t bytes = record {
  header = record {
    magic = magic_bytes;
    version = version_number;
    type = t;
    flags = 0;
    length_field = 0;
    checksum = replicate 32 0;
  };
  payload = bytes;
}

abbrev pub IsByte : ℕ → Type 0
IsByte b = b < 256

-- A packet that fits its C++ types, with the magic and the version that the parser asks for.
pub record IsWellFormed (p : Packet) : Type 0 where
  pub magic_ok : p.header.magic ≡ magic_bytes
  pub version_ok : p.header.version ≡ version_number
  pub flags_lt : p.header.flags < 2 ^ 32
  pub checksum_size : length p.header.checksum ≡ 32
  pub checksum_bytes : All IsByte p.header.checksum
  pub payload_fits : 52 + length p.payload < 2 ^ 64
  pub payload_bytes : All IsByte p.payload
