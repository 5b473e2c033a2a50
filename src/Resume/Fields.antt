-- ===== src/Resume/Fields.antt =====
-- Each field of a written record is found in its text.
use beam_drop.Prelude.{
  ℕ, ◌<◌, ◌^◌, ◌≡◌, ◌≢◌, refl, ◌∙◌, true, Option, none, some, ◌∷◌, ◌++◌, arith, Bytes, length, All,
  All-mono, ==_refl,
}
use beam_drop.Errors.{ok}
use beam_drop.Text.{codes, decimal, is_digit, search_first, strip, skip_spaces}
use beam_drop.Text.Number.{
  IsDigit, Stops, decimal-cons, decimal-IsDigit, span-decimal, skip_spaces-decimal, stoull-decimal,
}
use beam_drop.Text.Search.{search_hit}
use beam_drop.Json.{quote, some_bytes, escape_json_string, field_key, string_field, number_field}
use beam_drop.Json.RoundTrip.{quoted-escape}
use beam_drop.Json.RoundTrip.Skip.{search_value, search_no_quote}
use beam_drop.Resume.{ResumeRecord, record_text, read_number, names_path}

no_quote : (n : ℕ) → All (λ c. c ≢ quote) (decimal n)
no_quote n = All-mono IsDigit (λ c. c ≢ quote) (λ c h. ground arith) _ (decimal-IsDigit n)

-- A number is the group of its pattern.
some_bytes-decimal :
    (n : ℕ) (rest : Bytes)
    → Stops is_digit rest
    → some_bytes is_digit (skip_spaces (decimal n ++ rest)) ≡ some (decimal n)
unfolding some_bytes
some_bytes-decimal n rest h =
    let (c, cs, e) = decimal-cons n in rw (skip_spaces-decimal n rest, span-decimal n rest h) (rw e)

pub read_number-decimal : (n : ℕ) → n < 2 ^ 64 → read_number (some (decimal n)) ≡ ok n
unfolding read_number
read_number-decimal n h = rw (stoull-decimal n h, read_number) (rw (==_refl (length (decimal n))))

string_by_key : (name text : Bytes) → field_key name text ≡ none → string_field name text ≡ none
unfolding string_field
string_by_key name text e = rw e

number_by_key :
    (name text : Bytes) → field_key name text ≡ none → number_field is_digit name text ≡ none
unfolding number_field
number_by_key name text e = rw e

module _ (r : ResumeRecord) where
  -- The text from each place on where a field or a value begins.
  at_offset_comma : Bytes
  at_offset_comma = codes ",\"offset\":" ++ (decimal r.offset ++ codes "}")

  sha256_value : Bytes
  sha256_value = quote ∷ (escape_json_string r.sha256 ++ quote ∷ at_offset_comma)

  at_sha256_comma : Bytes
  at_sha256_comma = codes ",\"sha256\":" ++ sha256_value

  at_size_comma : Bytes
  at_size_comma = codes ",\"size\":" ++ (decimal r.size ++ at_sha256_comma)

  path_value : Bytes
  path_value = quote ∷ (escape_json_string r.relative_path ++ quote ∷ at_size_comma)

  path_key : Bytes
  path_key = codes "\"relative_path\":" ++ path_value

  size_key : Bytes
  size_key = codes "\"size\":" ++ (decimal r.size ++ at_sha256_comma)

  sha256_key : Bytes
  sha256_key = codes "\"sha256\":" ++ sha256_value

  offset_key : Bytes
  offset_key = codes "\"offset\":" ++ (decimal r.offset ++ codes "}")

  pub names_path-record_text : names_path (record_text r) ≡ true
  unfolding names_path search_first strip record_text
  names_path-record_text = refl

  pub path_group :
      search_first (string_field (codes "relative_path")) (record_text r)
      ≡ some (escape_json_string r.relative_path)
  unfolding path_key path_value at_size_comma at_sha256_comma sha256_value at_offset_comma
  path_group = to_key ∙ search_hit (string_field (codes "relative_path")) path_key found
    where
      to_key :
          search_first (string_field (codes "relative_path")) (record_text r)
          ≡ search_first (string_field (codes "relative_path")) path_key
      to_key = unfold search_first string_field field_key record_text strip skip_spaces in refl

      found :
          string_field (codes "relative_path") path_key ≡ some (escape_json_string r.relative_path)
      found =
          unfold string_field field_key strip skip_spaces in
          quoted-escape r.relative_path at_size_comma

  pub size_group :
      search_first (number_field is_digit (codes "size")) (record_text r) ≡ some (decimal r.size)
  unfolding path_value at_size_comma size_key at_sha256_comma sha256_value at_offset_comma
  size_group = to_path ∙ over_path ∙ to_size ∙ search_hit m size_key found
    where
      m : Bytes → Option Bytes
      m = number_field is_digit (codes "size")

      to_path : search_first m (record_text r) ≡ search_first m path_value
      to_path = unfold search_first number_field field_key record_text strip skip_spaces in refl

      over_path : search_first m path_value ≡ search_first m at_size_comma
      over_path =
          search_value b's' (codes "ize") (ground arith) (ground arith) m
            (number_by_key (codes "size")) r.relative_path _

      to_size : search_first m at_size_comma ≡ search_first m size_key
      to_size = unfold search_first number_field field_key strip skip_spaces in refl

      found : m size_key ≡ some (decimal r.size)
      found = unfold number_field field_key strip in some_bytes-decimal r.size at_sha256_comma refl

  pub sha256_group :
      search_first (string_field (codes "sha256")) (record_text r)
      ≡ some (escape_json_string r.sha256)
  unfolding path_value at_size_comma at_sha256_comma sha256_key sha256_value at_offset_comma
  sha256_group =
      to_path ∙ over_path ∙ to_digits ∙ over_digits ∙ to_sha256 ∙ search_hit m sha256_key found
    where
      m : Bytes → Option Bytes
      m = string_field (codes "sha256")

      to_path : search_first m (record_text r) ≡ search_first m path_value
      to_path = unfold search_first string_field field_key record_text strip skip_spaces in refl

      over_path : search_first m path_value ≡ search_first m at_size_comma
      over_path =
          search_value b's' (codes "ha256") (ground arith) (ground arith) m
            (string_by_key (codes "sha256")) r.relative_path _

      to_digits : search_first m at_size_comma ≡ search_first m (decimal r.size ++ at_sha256_comma)
      to_digits = unfold search_first string_field field_key strip skip_spaces in refl

      over_digits :
          search_first m (decimal r.size ++ at_sha256_comma) ≡ search_first m at_sha256_comma
      over_digits =
          search_no_quote b's' (codes "ha256") (ground arith) (ground arith) m
            (string_by_key (codes "sha256")) (decimal r.size) at_sha256_comma (no_quote r.size)

      to_sha256 : search_first m at_sha256_comma ≡ search_first m sha256_key
      to_sha256 = unfold search_first string_field field_key strip skip_spaces in refl

      found : m sha256_key ≡ some (escape_json_string r.sha256)
      found =
          unfold string_field field_key strip skip_spaces in quoted-escape r.sha256 at_offset_comma

  pub offset_group :
      search_first (number_field is_digit (codes "offset")) (record_text r)
      ≡ some (decimal r.offset)
  unfolding path_value at_size_comma at_sha256_comma offset_key sha256_value at_offset_comma
  offset_group =
      to_path
      ∙ over_path
      ∙ to_digits
      ∙ over_digits
      ∙ to_sha256
      ∙ over_sha256
      ∙ to_offset
      ∙ search_hit m offset_key found
    where
      m : Bytes → Option Bytes
      m = number_field is_digit (codes "offset")

      to_path : search_first m (record_text r) ≡ search_first m path_value
      to_path = unfold search_first number_field field_key record_text strip skip_spaces in refl

      over_path : search_first m path_value ≡ search_first m at_size_comma
      over_path =
          search_value b'o' (codes "ffset") (ground arith) (ground arith) m
            (number_by_key (codes "offset")) r.relative_path _

      to_digits : search_first m at_size_comma ≡ search_first m (decimal r.size ++ at_sha256_comma)
      to_digits = unfold search_first number_field field_key strip skip_spaces in refl

      over_digits :
          search_first m (decimal r.size ++ at_sha256_comma) ≡ search_first m at_sha256_comma
      over_digits =
          search_no_quote b'o' (codes "ffset") (ground arith) (ground arith) m
            (number_by_key (codes "offset")) (decimal r.size) at_sha256_comma (no_quote r.size)

      to_sha256 : search_first m at_sha256_comma ≡ search_first m sha256_value
      to_sha256 = unfold search_first number_field field_key strip skip_spaces in refl

      over_sha256 : search_first m sha256_value ≡ search_first m at_offset_comma
      over_sha256 =
          search_value b'o' (codes "ffset") (ground arith) (ground arith) m
            (number_by_key (codes "offset")) r.sha256 _

      to_offset : search_first m at_offset_comma ≡ search_first m offset_key
      to_offset = unfold search_first number_field field_key strip skip_spaces in refl

      found : m offset_key ≡ some (decimal r.offset)
      found = unfold number_field field_key strip in some_bytes-decimal r.offset (codes "}") refl
