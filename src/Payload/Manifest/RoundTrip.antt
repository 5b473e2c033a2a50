-- ===== src/Payload/Manifest/RoundTrip.antt =====
-- A manifest is read back.
use beam_drop.Prelude.{
  ℕ, ◌<◌, ◌^◌, ◌≡◌, ◌≢◌, ap, sym, ◌∙◌, arith, [], ◌∷◌, ◌++◌, append_assoc, Bytes, length, All,
  All-append, All-mono, ==_refl, same_bytes_self,
}
use beam_drop.Errors.{ok}
use beam_drop.Text.{codes, decimal, getline}
use beam_drop.Text.Number.{IsDigit, decimal-cons, decimal-IsDigit, stoull-decimal}
use beam_drop.Text.Search.{strip-append}
use beam_drop.Payload.Manifest.{
  TransferManifest, parse_number, parse_u64_field, file_count_prefix, total_bytes_prefix,
  directory_count_prefix, encode, decode,
}

getline-line :
    (line rest : Bytes) → All (λ c. c ≢ b'\n') line → getline (line ++ b'\n' ∷ rest) ≡ (line, rest)
unfolding getline
getline-line [] rest h = ground arith
getline-line (c ∷ cs) rest h = rw (getline-line cs rest h.1) (ground arith)

no_newline : (n : ℕ) → All (λ c. c ≢ b'\n') (decimal n)
no_newline n = All-mono IsDigit (λ c. c ≢ b'\n') (λ c h. ground arith) _ (decimal-IsDigit n)

-- The lines of an encoded manifest.
field_line :
    (prefix rest : Bytes) (n : ℕ)
    → All (λ c. c ≢ b'\n') prefix
    → getline (prefix ++ (decimal n ++ b'\n' ∷ rest)) ≡ (prefix ++ decimal n, rest)
field_line prefix rest n h =
    ap getline (sym (append_assoc prefix (decimal n) (b'\n' ∷ rest)))
    ∙ getline-line (prefix ++ decimal n) rest
        (All-append (λ c. c ≢ b'\n') prefix (decimal n) h (no_newline n))

parse_number-decimal : (n : ℕ) → n < 2 ^ 64 → parse_number (decimal n) ≡ ok n
unfolding parse_number
parse_number-decimal n h = rw (stoull-decimal n h, parse_number) (rw (==_refl (length (decimal n))))

parse_u64_field-decimal : (n : ℕ) → n < 2 ^ 64 → parse_u64_field (decimal n) ≡ ok n
parse_u64_field-decimal n h =
    let (c, cs, e) = decimal-cons n in
    rw e (unfold parse_u64_field in rw e at (parse_number-decimal n h))

-- A manifest whose numbers have 64 bits is read back from its encoding.
pub decode-encode_manifest :
    (m : TransferManifest)
    → m.file_count < 2 ^ 64
    → m.total_bytes < 2 ^ 64
    → m.directory_count < 2 ^ 64
    → decode (encode m) ≡ ok m
unfolding decode encode
decode-encode_manifest m hf ht hd =
    let last = directory_count_prefix ++ (decimal m.directory_count ++ b'\n' ∷ []) in
    let middle = total_bytes_prefix ++ (decimal m.total_bytes ++ b'\n' ∷ last) in
    let first = file_count_prefix ++ (decimal m.file_count ++ b'\n' ∷ middle) in
    rw
      (
        getline-line (codes "beamdrop-manifest-v2") first (ground arith),
        field_line file_count_prefix middle m.file_count (ground arith),
        field_line total_bytes_prefix last m.total_bytes (ground arith),
        field_line directory_count_prefix [] m.directory_count (ground arith),
      )
      (rw (
        same_bytes_self (codes "beamdrop-manifest-v2"),
        strip-append file_count_prefix (decimal m.file_count),
        strip-append total_bytes_prefix (decimal m.total_bytes),
        strip-append directory_count_prefix (decimal m.directory_count),
        parse_u64_field-decimal m.file_count hf,
        parse_u64_field-decimal m.total_bytes ht,
        parse_u64_field-decimal m.directory_count hd,
      ))
