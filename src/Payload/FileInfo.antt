-- ===== src/Payload/FileInfo.antt =====
-- include/beamdrop/transfer/FileInfo.hpp and src/transfer/FileInfoCodec.cpp
pub mod RoundTrip
use beam_drop.Prelude.{
  ℕ, Bool, true, false, not, ◌||◌, Option, none, some, [], ◌∷◌, ◌++◌, Bytes, length, ◌==◌,
  if◌then◌else◌,
}
use beam_drop.Errors.{Result, ok, err, Exception, transfer, invalid_payload, throw_if, ◌>>=◌, ◌>>◌}
use beam_drop.Text.{codes, decimal, is_space, skip_spaces, search_first, stoull}
use beam_drop.Json.{escape_json_string, require_string_field, number_field}

pub record FileInfo : Type 0 where
  pub relative_path : Bytes
  pub size : ℕ
  pub sha256 : Bytes

abbrev pub invalid : Exception
invalid = transfer invalid_payload

-- `FileInfoCodec::encode`
unfoldable pub encode : FileInfo → Bytes
encode info =
    codes "{\n  \"relative_path\": \""
    ++ (escape_json_string info.relative_path
        ++ (codes "\",\n  \"size\": "
            ++ (decimal info.size
                ++ (codes ",\n  \"sha256\": \""
                    ++ (escape_json_string info.sha256 ++ codes "\"\n}\n")))))

-- `[^,}\s]`
abbrev pub in_number : ℕ → Bool
in_number c = not (c == b',' || c == b'}' || is_space c)

-- The `try` block of `require_u64_field`: any exception of it becomes `InvalidPayload`.
unfoldable pub read_u64_group : Option Bytes → Result ℕ
read_u64_group none = err invalid
read_u64_group (some group) = elim (stoull group) [
  | err e ↦ err invalid
  | ok (value, parsed_chars) ↦ do throw_if (not (parsed_chars == length group)) invalid; ok value
]

-- `require_u64_field`
unfoldable pub require_u64_field : Bytes → Bytes → Result ℕ
require_u64_field json name = read_u64_group (search_first (number_field in_number name) json)

-- `text.find_first_not_of(" \t\r\n")`: the first byte of these is wanted to be a brace.
abbrev pub is_blank : ℕ → Bool
is_blank c = c == b' ' || c == b'\t' || c == b'\r' || c == b'\n'

unfoldable pub opens : Bytes → Bool
opens [] = false
opens (c ∷ cs) = let rest = opens cs in if is_blank c then rest else c == b'{'

abbrev pub empty : Bytes → Bool
empty [] = true
empty (c ∷ cs) = false

-- `FileInfoCodec::decode`
unfoldable pub decode : Bytes → Result FileInfo
decode payload = do
  throw_if (not (opens payload)) invalid
  relative_path ← require_string_field invalid invalid payload (codes "relative_path")
  size ← require_u64_field payload (codes "size")
  sha256 ← require_string_field invalid invalid payload (codes "sha256")
  throw_if (empty relative_path || empty sha256) invalid
  ok (record { relative_path = relative_path; size = size; sha256 = sha256 })
