-- ===== src/Payload/Manifest.antt =====
-- include/beamdrop/transfer/TransferManifest.hpp and src/transfer/TransferManifest.cpp
pub mod RoundTrip
use beam_drop.Prelude.{
  ℕ, Bool, not, ◌||◌, ◌&&◌, Option, none, some, [], ◌∷◌, ◌++◌, Bytes, length, ◌==◌, same_bytes,
}
use beam_drop.Errors.{Result, ok, err, Exception, transfer, invalid_payload, throw_if, ◌>>=◌, ◌>>◌}
use beam_drop.Text.{codes, decimal, strip, stoull, getline}

pub record TransferManifest : Type 0 where
  pub file_count : ℕ
  pub total_bytes : ℕ
  pub directory_count : ℕ

abbrev pub invalid : Exception
invalid = transfer invalid_payload

-- The `try` block of `parse_u64_field`: any exception of it becomes `InvalidPayload`.
unfoldable pub parse_number : Bytes → Result ℕ
parse_number text = elim (stoull text) [
  | err e ↦ err invalid
  | ok (value, parsed_chars) ↦ do throw_if (not (parsed_chars == length text)) invalid; ok value
]

-- `parse_u64_field`
unfoldable pub parse_u64_field : Bytes → Result ℕ
parse_u64_field [] = err invalid
parse_u64_field (c ∷ cs) = parse_number (c ∷ cs)

abbrev pub version_text : Bytes
version_text = codes "beamdrop-manifest-v2"

abbrev pub file_count_prefix : Bytes
file_count_prefix = codes "file_count="

abbrev pub total_bytes_prefix : Bytes
total_bytes_prefix = codes "total_bytes="

abbrev pub directory_count_prefix : Bytes
directory_count_prefix = codes "directory_count="

-- `TransferManifestCodec::encode`
unfoldable pub encode : TransferManifest → Bytes
encode m =
    version_text
    ++ (b'\n'
        ∷ (file_count_prefix
            ++ (decimal m.file_count
                ++ (b'\n'
                    ∷ (total_bytes_prefix
                        ++ (decimal m.total_bytes
                            ++ (b'\n'
                                ∷ (directory_count_prefix
                                    ++ (decimal m.directory_count ++ b'\n' ∷ [])))))))))

-- What a line holds behind its prefix: `starts_with`, and then `substr`.
abbrev pub behind : Option Bytes → Result Bytes
behind none = err invalid
behind (some value) = ok value

-- `TransferManifestCodec::decode`
unfoldable pub decode : Bytes → Result TransferManifest
decode payload =
    let first = getline payload in
    let second = getline first.1 in
    let third = getline second.1 in
    let fourth = getline third.1 in
    do
      throw_if (not (same_bytes first.0 version_text)) invalid
      file_count_text ← behind (strip file_count_prefix second.0)
      total_bytes_text ← behind (strip total_bytes_prefix third.0)
      directory_count_text ← behind (strip directory_count_prefix fourth.0)
      file_count ← parse_u64_field file_count_text
      total_bytes ← parse_u64_field total_bytes_text
      directory_count ← parse_u64_field directory_count_text
      ok (record {
        file_count = file_count;
        total_bytes = total_bytes;
        directory_count = directory_count;
      })
