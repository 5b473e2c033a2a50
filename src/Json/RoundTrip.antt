-- ===== src/Json/RoundTrip.antt =====
-- Escaped text is read back, and no field name is found inside of it.
pub mod Skip
use beam_drop.Prelude.{
  ℕ, ◌≡◌, ◌≢◌, ◌⊎◌, inl, inr, refl, ap, arith, Bool, true, false, Bool-cases, Option, none, some,
  [], ◌∷◌, ◌++◌, append_assoc, Bytes, ◌==◌, All,
}
use beam_drop.Errors.{Exception, ok}
use beam_drop.Text.{strip, skip_spaces}
use beam_drop.Json.{
  quote, backslash, escape_char, escape_json_string, unescape_loop, unescape_json_string,
  string_body, quoted,
}

-- One character, escaped: itself, or a backslash and then itself.
pub data Escape (c : ℕ) : Bytes → Type 0 where
  plain : c ≢ quote → c ≢ backslash → Escape c (c ∷ [])
  escaped : (c ≡ quote) ⊎ (c ≡ backslash) → Escape c (backslash ∷ c ∷ [])

pub Escape-escape_char : (c : ℕ) → Escape c (escape_char c)
Escape-escape_char c = elim (Bool-cases (c == backslash)) [
  | inl b ↦
      let e : escape_char c ≡ backslash ∷ c ∷ [] = ground arith in
      rw e (escaped (inr (ground arith)))
  | inr b ↦ elim (Bool-cases (c == quote)) [
    | inl q ↦
        let e : escape_char c ≡ backslash ∷ c ∷ [] = ground arith in
        rw e (escaped (inl (ground arith)))
    | inr q ↦
        let e : escape_char c ≡ c ∷ [] = ground arith in rw e (plain (ground arith) (ground arith))
  ]
]

module _ (bad_escape bad_end : Exception) where
  unescape-Escape :
      {c : ℕ} {w : Bytes} (cs v : Bytes)
      → Escape c w
      → unescape_json_string bad_escape bad_end cs ≡ ok v
      → unescape_json_string bad_escape bad_end (w ++ cs) ≡ ok (c ∷ v)
  unfolding unescape_loop
  unescape-Escape cs v (plain q b) e = ground arith
  unescape-Escape cs v (escaped (inl h)) e = ground arith
  unescape-Escape cs v (escaped (inr h)) e = ground arith

  -- Unescaping takes back escaping, whatever the bytes.
  pub unescape-escape :
      (v : Bytes) → unescape_json_string bad_escape bad_end (escape_json_string v) ≡ ok v
  unfolding escape_json_string
  unescape-escape [] = unfold unescape_loop in refl
  unescape-escape (c ∷ cs) =
      unescape-Escape (escape_json_string cs) cs (Escape-escape_char c) (unescape-escape cs)

string_body-Escape :
    {c : ℕ} {w : Bytes} (cs v : Bytes)
    → Escape c w
    → string_body false cs ≡ some v
    → string_body false (w ++ cs) ≡ some (w ++ v)
unfolding string_body
string_body-Escape cs v (plain q b) e = ground arith
string_body-Escape cs v (escaped (inl h)) e = ground arith
string_body-Escape cs v (escaped (inr h)) e = ground arith

-- The group of the pattern is the escaped text, up to its closing quote.
string_body-escape :
    (v rest : Bytes)
    → string_body false (escape_json_string v ++ quote ∷ rest) ≡ some (escape_json_string v)
unfolding escape_json_string
string_body-escape [] rest = unfold string_body in refl
string_body-escape (c ∷ cs) rest =
    rw append_assoc (string_body-Escape _ _ (Escape-escape_char c) (string_body-escape cs rest))

pub quoted-escape :
    (v rest : Bytes)
    → quoted (quote ∷ (escape_json_string v ++ quote ∷ rest)) ≡ some (escape_json_string v)
unfolding quoted
quoted-escape v rest = string_body-escape v rest
