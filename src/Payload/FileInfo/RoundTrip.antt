-- ===== src/Payload/FileInfo/RoundTrip.antt =====
-- A FILE_INFO payload is read back, whatever bytes stand in the path.
use beam_drop.Prelude.{
  ℕ, ◌-◌, ◌%◌, ◌<◌, ◌^◌, ◌≡◌, ◌≢◌, refl, ◌∙◌, true, false, Option, none, some, [], ◌∷◌, ◌++◌, arith,
  Bytes, length, All-mono, ==_refl,
}
use beam_drop.Errors.{ok}
use beam_drop.Text.{codes, decimal, span, skip_spaces, strip, search_first}
use beam_drop.Text.Number.{
  IsDigit, decimal-cons, decimal-IsDigit, span-All, skip_spaces-decimal, stoull-decimal,
  stoull-negative,
}
use beam_drop.Text.Search.{search_hit}
use beam_drop.Json.{
  quote, some_bytes, non_empty, escape_json_string, field_key, string_field, number_field,
  require_string_field,
}
use beam_drop.Json.RoundTrip.{unescape-escape, quoted-escape}
use beam_drop.Json.RoundTrip.Skip.{search_value, search_no_quote}
use beam_drop.Payload.FileInfo.{
  FileInfo, encode, decode, invalid, in_number, read_u64_group, require_u64_field, opens, empty,
}

module _ (info : FileInfo) where
  -- The text from each comma on.
  abbrev at_sha256 : Bytes
  at_sha256 = codes ",\n  \"sha256\": \"" ++ (escape_json_string info.sha256 ++ codes "\"\n}\n")

  abbrev at_size : Bytes
  at_size = codes ",\n  \"size\": " ++ (decimal info.size ++ at_sha256)

  path_value : Bytes
  path_value = quote ∷ (escape_json_string info.relative_path ++ quote ∷ at_size)

  path_at : Bytes
  path_at = codes "\"relative_path\": " ++ path_value

  path_group :
      search_first (string_field (codes "relative_path")) (encode info)
      ≡ some (escape_json_string info.relative_path)
  unfolding path_at path_value
  path_group = skipped ∙ search_hit (string_field (codes "relative_path")) path_at found
    where
      skipped :
          search_first (string_field (codes "relative_path")) (encode info)
          ≡ search_first (string_field (codes "relative_path")) path_at
      skipped = unfold search_first string_field field_key encode strip skip_spaces in refl

      found :
          string_field (codes "relative_path") path_at
          ≡ some (escape_json_string info.relative_path)
      found =
          unfold string_field field_key strip skip_spaces in
          quoted-escape info.relative_path at_size

  size_at : Bytes
  size_at = codes "\"size\": " ++ (decimal info.size ++ at_sha256)

  sha256_at : Bytes
  sha256_at = codes "\"sha256\": " ++ (quote ∷ (escape_json_string info.sha256 ++ codes "\"\n}\n"))

  size_group :
      search_first (number_field in_number (codes "size")) (encode info) ≡ some (decimal info.size)
  unfolding path_value size_at
  size_group = to_path ∙ over_path ∙ to_size ∙ search_hit number size_at found
    where
      number : Bytes → Option Bytes
      number = number_field in_number (codes "size")

      to_path : search_first number (encode info) ≡ search_first number path_value
      to_path = unfold search_first number_field field_key encode strip skip_spaces in refl

      over_path : search_first number path_value ≡ search_first number at_size
      over_path =
          search_value b's' (codes "ize") (ground arith) (ground arith) number
            (λ text e. unfold number_field in rw e) info.relative_path _

      to_size : search_first number at_size ≡ search_first number size_at
      to_size = unfold search_first number_field field_key strip skip_spaces in refl

      spanned : span in_number (decimal info.size ++ at_sha256) ≡ (decimal info.size, at_sha256)
      spanned =
          span-All in_number (decimal info.size) at_sha256
            (All-mono IsDigit (λ c. in_number c ≡ true) (λ c h. ground arith) _
              (decimal-IsDigit info.size))
            refl

      some_digits : non_empty (decimal info.size) ≡ some (decimal info.size)
      some_digits = let (c, cs, e) = decimal-cons info.size in rw e

      found : number size_at ≡ some (decimal info.size)
      found =
          unfold number_field field_key strip some_bytes in
          rw (skip_spaces-decimal info.size at_sha256, spanned) some_digits

  sha256_group :
      search_first (string_field (codes "sha256")) (encode info)
      ≡ some (escape_json_string info.sha256)
  unfolding path_value sha256_at
  sha256_group =
      to_path ∙ over_path ∙ to_digits ∙ over_digits ∙ to_sha256 ∙ search_hit m sha256_at found
    where
      m : Bytes → Option Bytes
      m = string_field (codes "sha256")

      by_key : (text : Bytes) → field_key (codes "sha256") text ≡ none → m text ≡ none
      by_key text e = unfold string_field in rw e

      to_path : search_first m (encode info) ≡ search_first m path_value
      to_path = unfold search_first string_field field_key encode strip skip_spaces in refl

      over_path : search_first m path_value ≡ search_first m at_size
      over_path =
          search_value b's' (codes "ha256") (ground arith) (ground arith) m by_key
            info.relative_path _

      to_digits : search_first m at_size ≡ search_first m (decimal info.size ++ at_sha256)
      to_digits = unfold search_first string_field field_key strip skip_spaces in refl

      over_digits : search_first m (decimal info.size ++ at_sha256) ≡ search_first m at_sha256
      over_digits =
          search_no_quote b's' (codes "ha256") (ground arith) (ground arith) m by_key
            (decimal info.size) at_sha256
            (All-mono IsDigit (λ c. c ≢ quote) (λ c h. ground arith) _ (decimal-IsDigit info.size))

      to_sha256 : search_first m at_sha256 ≡ search_first m sha256_at
      to_sha256 = unfold search_first string_field field_key strip skip_spaces in refl

      found : m sha256_at ≡ some (escape_json_string info.sha256)
      found =
          unfold string_field field_key strip skip_spaces in
          quoted-escape info.sha256 (codes "\n}\n")

read_u64_group-decimal : (n : ℕ) → n < 2 ^ 64 → read_u64_group (some (decimal n)) ≡ ok n
unfolding read_u64_group
read_u64_group-decimal n h =
    rw (stoull-decimal n h, read_u64_group) (rw (==_refl (length (decimal n))))

-- A FILE_INFO payload is read back, with any bytes in the path and the hash, quotes, backslashes
-- and whole fields included, where both are not empty and the size has 64 bits.
pub decode-encode_info :
    (info : FileInfo)
    → info.relative_path ≢ []
    → info.sha256 ≢ []
    → info.size < 2 ^ 64
    → decode (encode info) ≡ ok info
unfolding decode require_string_field require_u64_field
decode-encode_info info path_ne sha_ne h =
    rw
      (
        opens_encode,
        path_group info,
        unescape-escape invalid invalid info.relative_path,
        size_group info,
        read_u64_group-decimal info.size h,
        sha256_group info,
        unescape-escape invalid invalid info.sha256,
      )
      (rw (nonempty info.relative_path path_ne, nonempty info.sha256 sha_ne))
  where
    opens_encode : opens (encode info) ≡ true
    opens_encode = unfold opens encode in refl

    nonempty : (b : Bytes) → b ≢ [] → empty b ≡ false
    nonempty [] ne = absurd (ne refl)
    nonempty (c ∷ cs) ne = refl

-- FILE_INFO takes a negative size: behind a minus, a number of up to 64 bits is read as its
-- negation modulo 2 ^ 64.
info_size_negative :
    (n : ℕ) → n < 2 ^ 64 → read_u64_group (some (b'-' ∷ decimal n)) ≡ ok ((2 ^ 64 - n) % 2 ^ 64)
unfolding read_u64_group
info_size_negative n h =
    rw (stoull-negative n h, read_u64_group) (rw (==_refl (length (b'-' ∷ decimal n))))
