-- ===== src/Protocol/Codec/Tests.antt =====
-- Packets through the codec at concrete inputs.
use beam_drop.Prelude.{◌≡◌, refl, arith, [], ◌∷◌, Bytes}
use beam_drop.Errors.{ok, err, runtime}
use beam_drop.Protocol.{Packet, make_packet, data_chunk, IsWellFormed}
use beam_drop.Protocol.Codec.{encode, parse, parse_type, read_u16, read_u32, read_u64, read_bytes}
use beam_drop.Prelude.{same_bytes}
use beam_drop.Protocol.Codec.RoundTrip.{parse-encode, encode-parse}

abbrev two_bytes : Packet
two_bytes = make_packet data_chunk (7 ∷ 255 ∷ [])

two_bytes-IsWellFormed : IsWellFormed two_bytes
two_bytes-IsWellFormed = record {
  magic_ok = refl;
  version_ok = refl;
  flags_lt = omega arith;
  checksum_size = refl;
  checksum_bytes = omega arith;
  payload_fits = omega arith;
  payload_bytes = omega arith;
}

abbrev received : Packet
received = record two_bytes { header = record (two_bytes.header) { length_field = 2 } }

parse-encode_example : parse (encode two_bytes) ≡ ok received
parse-encode_example = parse-encode two_bytes two_bytes-IsWellFormed

abbrev wire : Bytes
wire =
    66 ∷ 68 ∷ 82 ∷ 80 ∷ 0 ∷ 1 ∷ 0 ∷ 5 ∷ 0 ∷ 0 ∷ 0 ∷ 0 ∷ 0 ∷ 0 ∷ 0 ∷ 0 ∷ 0 ∷ 0 ∷ 0 ∷ 1 ∷ 0 ∷ 0 ∷ 0
    ∷ 0 ∷ 0 ∷ 0 ∷ 0 ∷ 0 ∷ 0 ∷ 0 ∷ 0 ∷ 0 ∷ 0 ∷ 0 ∷ 0 ∷ 0 ∷ 0 ∷ 0 ∷ 0 ∷ 0 ∷ 0 ∷ 0 ∷ 0 ∷ 0 ∷ 0 ∷ 0 ∷ 0
    ∷ 0 ∷ 0 ∷ 0 ∷ 0 ∷ 0 ∷ 9 ∷ []

abbrev one_byte : Packet
one_byte =
    let p = make_packet data_chunk (9 ∷ []) in
    record p { header = record (p.header) { length_field = 1 } }

parse-wire : parse wire ≡ ok one_byte
unfolding parse parse_type read_u16 read_u32 read_u64 read_bytes same_bytes
parse-wire = refl

too_short : parse (66 ∷ []) ≡ err runtime
unfolding parse
too_short = refl

encode-parse_example : encode one_byte ≡ wire
encode-parse_example = encode-parse wire one_byte (omega arith) parse-wire
