-- ===== src/Transfer/Wire.antt =====
-- What a file looks like on the wire: the packets that stand between FILE_INFO and FILE_END.
use beam_drop.Prelude.{
  ℕ, ◌+◌, ◌<◌, ◌^◌, refl, List, [], ◌∷◌, ◌++◌, arith, Bytes, length, All, All-append, All-mono,
}
use beam_drop.Text.{codes, decimal}
use beam_drop.Text.Number.{IsDigit, decimal-IsDigit}
use beam_drop.Json.{escape_json_string}
use beam_drop.Json.RoundTrip.{Escape, plain, escaped, Escape-escape_char}
use beam_drop.Protocol.{PacketType, make_packet, data_chunk, IsWellFormed, IsByte}
use beam_drop.Protocol.Codec
use beam_drop.Payload.FileInfo
use beam_drop.Payload.FileInfo.{FileInfo}

pub make_packet-IsWellFormed :
    (t : PacketType) (payload : Bytes)
    → 52 + length payload < 2 ^ 64
    → All IsByte payload
    → IsWellFormed (make_packet t payload)
make_packet-IsWellFormed t payload fits bytes = record {
  magic_ok = refl;
  version_ok = refl;
  flags_lt = omega arith;
  checksum_size = refl;
  checksum_bytes = omega arith;
  payload_fits = fits;
  payload_bytes = bytes;
}

Escape-IsByte : {c : ℕ} {w : Bytes} → Escape c w → IsByte c → All IsByte w
Escape-IsByte (plain q b) h = (h, tt)
Escape-IsByte (escaped e) h = ((ground arith), (h, tt))

escape-IsByte : (v : Bytes) → All IsByte v → All IsByte (escape_json_string v)
unfolding escape_json_string
escape-IsByte [] h = tt
escape-IsByte (c ∷ cs) h =
    All-append IsByte _ _ (Escape-IsByte (Escape-escape_char c) h.0) (escape-IsByte cs h.1)

pub decimal-IsByte : (n : ℕ) → All IsByte (decimal n)
decimal-IsByte n = All-mono IsDigit IsByte (λ c h. ground arith) _ (decimal-IsDigit n)

pub encode_info-IsByte :
    (info : FileInfo)
    → All IsByte info.relative_path
    → All IsByte info.sha256
    → All IsByte (FileInfo.encode info)
unfolding FileInfo.encode
encode_info-IsByte info p h =
    after (codes "{\n  \"relative_path\": \"") (escape_json_string info.relative_path) _
      (omega arith) (escape-IsByte info.relative_path p)
      (after (codes "\",\n  \"size\": ") (decimal info.size) _ (omega arith)
        (decimal-IsByte info.size)
        (after (codes ",\n  \"sha256\": \"") (escape_json_string info.sha256) (codes "\"\n}\n")
          (omega arith) (escape-IsByte info.sha256 h) (omega arith)))
  where
    after :
        (name value rest : Bytes)
        → All IsByte name
        → All IsByte value
        → All IsByte rest
        → All IsByte (name ++ (value ++ rest))
    after name value rest n v r = All-append IsByte name _ n (All-append IsByte value rest v r)

-- The DATA packets of a list of chunks.
unfoldable pub wire : List Bytes → Bytes
wire [] = []
wire (chunk ∷ chunks) = Codec.encode (make_packet data_chunk chunk) ++ wire chunks

unfoldable pub concat : List Bytes → Bytes
concat [] = []
concat (chunk ∷ chunks) = chunk ++ concat chunks
