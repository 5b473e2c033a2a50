-- ===== src/Payload/ResumeAck.antt =====
-- src/transfer/ResumeAckCodec.cpp
use beam_drop.Prelude.{
  ℕ, ◌<◌, ◌^◌, ◌≡◌, refl, not, Option, none, some, [], ◌∷◌, ◌++◌, Bytes, length, ==_refl, ◌==◌,
}
use beam_drop.Errors.{
  Result, ok, err, transfer, invalid_payload, invalid_resume_offset, throw_if, ◌>>◌,
}
use beam_drop.Text.{and_then, codes, decimal, span, is_digit, skip_spaces, strip, stoull}
use beam_drop.Text.Number.{decimal-cons, span-decimal, skip_spaces-decimal, stoull-decimal}
use beam_drop.Json.{field_key}

pub record ResumeAck : Type 0 where
  pub offset : ℕ

-- `ResumeAckCodec::encode`
unfoldable pub encode : ResumeAck → Bytes
encode ack = codes "{\"offset\":" ++ (decimal ack.offset ++ codes "}")

abbrev pub at_end : Bytes → Option (Unit {0})
at_end [] = some tt
at_end (c ∷ cs) = none

-- `\s*\}\s*$`: nothing else may follow.
unfoldable pub closes : Bytes → Option (Unit {0})
closes text = and_then (strip (b'}' ∷ []) (skip_spaces text)) (λ rest. at_end (skip_spaces rest))

-- `([0-9]+)\s*\}\s*$`, on a span of digits and what is behind it: the group.
unfoldable pub offset_group : Bytes → Bytes → Option Bytes
offset_group [] rest = none
offset_group (c ∷ cs) rest = and_then (closes rest) (λ _. some (c ∷ cs))

-- `^\s*\{\s*\"offset\"\s*:\s*([0-9]+)\s*\}\s*$`, on the whole text.
unfoldable pub matches : Bytes → Option Bytes
matches text = and_then (strip (b'{' ∷ []) (skip_spaces text)) λ rest.
    and_then (field_key (codes "offset") (skip_spaces rest))
      λ behind. offset_group (span is_digit behind).0 (span is_digit behind).1

-- The `try` block: any exception of it becomes `InvalidResumeOffset`.
unfoldable pub read_offset : Bytes → Result ResumeAck
read_offset group = elim (stoull group) [
  | err e ↦ err (transfer invalid_resume_offset)
  | ok (value, parsed_chars) ↦ do
    throw_if (not (parsed_chars == length group)) (transfer invalid_resume_offset)
    ok (record { offset = value })
]

-- `ResumeAckCodec::decode`
unfoldable pub decode : Bytes → Result ResumeAck
decode payload = elim (matches payload) [
  | none ↦ err (transfer invalid_payload)
  | some group ↦ read_offset group
]

read_offset-decimal : (n : ℕ) → n < 2 ^ 64 → read_offset (decimal n) ≡ ok (record { offset = n })
unfolding read_offset
read_offset-decimal n h = rw (stoull-decimal n h, read_offset) (rw (==_refl (length (decimal n))))

offset_group-decimal : (n : ℕ) → offset_group (decimal n) (codes "}") ≡ some (decimal n)
unfolding offset_group closes skip_spaces strip
offset_group-decimal n = let (c, cs, e) = decimal-cons n in rw e

matches-encode : (ack : ResumeAck) → matches (encode ack) ≡ some (decimal ack.offset)
unfolding matches encode strip skip_spaces field_key
matches-encode ack =
    rw (skip_spaces-decimal ack.offset (codes "}"), span-decimal ack.offset (codes "}") refl)
      (offset_group-decimal ack.offset)

-- Every 64-bit offset is read back.
pub decode-encode_ack : (ack : ResumeAck) → ack.offset < 2 ^ 64 → decode (encode ack) ≡ ok ack
unfolding decode
decode-encode_ack ack h = rw (matches-encode ack, decode) (read_offset-decimal ack.offset h)
