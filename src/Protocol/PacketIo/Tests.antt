-- ===== src/Protocol/PacketIo/Tests.antt =====
-- Packets on a connection at concrete inputs.
use beam_drop.Prelude.{◌≡◌, refl, arith, some, [], ◌∷◌, ◌++◌}
use beam_drop.Errors.{ok}
use beam_drop.Protocol.{Packet, IsWellFormed, make_packet, finish}
use beam_drop.Protocol.Codec.{encode, parse, parse_type, read_u16, read_u32, read_u64, read_bytes}
use beam_drop.Prelude.{same_bytes}
use beam_drop.Network.Pipe.{Pipe, pipe, low_bytes}
use beam_drop.Network.Stream.{call_size, read_loop, read_exact}
use beam_drop.Protocol.PacketIo.{read_payload, read_packet}
use beam_drop.Protocol.PacketIo.RoundTrip.{
  Receives, received, read_packet-encode, encode-read_packet,
}

abbrev last_packet : Packet
last_packet = make_packet finish []

last_packet-IsWellFormed : IsWellFormed last_packet
last_packet-IsWellFormed = record {
  magic_ok = refl;
  version_ok = refl;
  flags_lt = omega arith;
  checksum_size = refl;
  checksum_bytes = omega arith;
  payload_fits = omega arith;
  payload_bytes = omega arith;
}

abbrev full : Pipe
full = record { inbox = encode last_packet ++ 1 ∷ 2 ∷ []; outbox = [] }

abbrev left : Pipe
left = record { inbox = 1 ∷ 2 ∷ []; outbox = [] }

full_pending : low_bytes (encode last_packet ++ 1 ∷ 2 ∷ []) ≡ encode last_packet ++ 1 ∷ 2 ∷ []
unfolding encode
full_pending = refl

read_packet-encode_example :
    Receives pipe (received last_packet) (1 ∷ 2 ∷ []) (read_packet pipe (some 5) full)
read_packet-encode_example =
    read_packet-encode pipe 5 last_packet (1 ∷ 2 ∷ []) full last_packet-IsWellFormed full_pending

full_read : read_packet pipe (some 5) full ≡ ok (last_packet, left)
unfolding read_packet read_payload read_exact read_loop call_size encode parse parse_type read_u16
    read_u32 read_u64 read_bytes same_bytes
full_read = refl

encode-read_packet_example : low_bytes full.inbox ≡ encode last_packet ++ (1 ∷ 2 ∷ [])
encode-read_packet_example = encode-read_packet pipe 5 last_packet full left full_read
