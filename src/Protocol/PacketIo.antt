-- ===== src/Protocol/PacketIo.antt =====
-- src/protocol/PacketIO.cpp: packets on a connection.
pub mod RoundTrip
mod Tests
use beam_drop.Prelude.{ℕ, ◌+◌, Option, ◌++◌, Bytes, ltb, if◌then◌else◌}
use beam_drop.Errors.{Result, ok, ◌>>=◌}
use beam_drop.Network.{Os}
use beam_drop.Network.Stream.{read_exact, write_all}
use beam_drop.Protocol.{Packet, encoded_size}
use beam_drop.Protocol.Codec.{encode, parse, read_u64}

-- `4 + 2 + 2 + 4`
abbrev pub length_offset : ℕ
length_offset = 4 + 2 + 2 + 4

module _ (os : Os) where
  open os use {State}

  -- `if (payload_length > 0) { … }`: the header, with the payload behind it.
  unfoldable pub read_payload : Option ℕ → ℕ → Bytes → State → Result (Bytes × State)
  read_payload handle payload_length bytes s =
      if ltb 0 payload_length
      then (do (payload, t) ← read_exact os handle payload_length s; ok (bytes ++ payload, t))
      else ok (bytes, s)

  -- The loop over the eight bytes at `length_offset` is the one of `read_u64`.
  unfoldable pub read_packet : Option ℕ → State → Result (Packet × State)
  read_packet handle s = do
    (bytes, t) ← read_exact os handle encoded_size s
    let payload_length = read_u64 bytes length_offset
    (all, u) ← read_payload handle payload_length bytes t
    p ← parse all
    ok (p, u)

  unfoldable pub write_packet : Option ℕ → Packet → State → Result State
  write_packet handle p s = write_all os handle (encode p) s
