-- ===== src/Json/RoundTrip/Skip.antt =====
-- A search for a field passes over escaped text: a quote inside of it stands behind a backslash,
-- and the one that closes it is followed by a comma.
use beam_drop.Prelude.{
  ℕ, ◌≡◌, ◌≢◌, ◌⊎◌, inl, inr, refl, ap, ◌∙◌, arith, Bool-cases, Option, none, some, [], ◌∷◌, ◌++◌,
  append_assoc, Bytes, ◌==◌, All,
}
use beam_drop.Text.{strip, search_first}
use beam_drop.Json.{quote, backslash, escape_json_string, after_name, field_key}
use beam_drop.Json.RoundTrip.{Escape, plain, escaped, Escape-escape_char}

abbrev pub IsPlain : ℕ → Type 0
IsPlain c = (c ≢ quote) × (c ≢ backslash)

-- The rest of a pattern's literal, against escaped text with its closing quote.
abbrev Meets : Bytes → Bytes → Bytes → Type 0
Meets w text rest =
    (strip (w ++ quote ∷ []) text ≡ none) ⊎ (strip (w ++ quote ∷ []) text ≡ some rest)

strip_same : (c : ℕ) (cs ds : Bytes) → strip (c ∷ cs) (c ∷ ds) ≡ strip cs ds
unfolding strip
strip_same c cs ds = ground arith

Meets-nil : (w rest : Bytes) → All IsPlain w → Meets w (quote ∷ rest) rest
Meets-nil [] rest h = inr (unfold strip in refl)
Meets-nil (x ∷ xs) rest h = inl (unfold strip in ground arith)

Meets-Escape :
    {c : ℕ} {u : Bytes} (w text rest : Bytes)
    → All IsPlain w
    → Escape c u
    → ((ws : Bytes) → All IsPlain ws → Meets ws text rest)
    → Meets w (u ++ text) rest
unfolding strip
Meets-Escape [] text rest h (plain q b) ih = inl (ground arith)
Meets-Escape [] text rest h (escaped e) ih = inl refl
Meets-Escape (x ∷ ws) text rest h (escaped e) ih = inl (ground arith)
Meets-Escape {c} (x ∷ ws) text rest h (plain q b) ih = elim (Bool-cases (x == c)) [
  | inl same ↦ rw same (ih ws h.1)
  | inr differ ↦ inl (rw differ)
]

Meets-escape :
    (v w rest : Bytes) → All IsPlain w → Meets w (escape_json_string v ++ quote ∷ rest) rest
unfolding escape_json_string
Meets-escape [] w rest h = Meets-nil w rest h
Meets-escape (c ∷ cs) w rest h =
    rw append_assoc
      (Meets-Escape w _ rest h (Escape-escape_char c) (λ ws k. Meets-escape cs ws rest k))

module _ (n : ℕ) (ns : Bytes) (name_plain : All IsPlain (n ∷ ns)) (no_comma : n ≢ b',') where
  -- No field begins at a character that is no quote.
  field_key_ne_quote : (c : ℕ) (text : Bytes) → c ≢ quote → field_key (n ∷ ns) (c ∷ text) ≡ none
  unfolding field_key strip
  field_key_ne_quote c text h = ground arith

  field_key_comma : (text : Bytes) → field_key (n ∷ ns) (quote ∷ b',' ∷ text) ≡ none
  unfolding field_key strip
  field_key_comma text = ground arith

  -- A quote before escaped text does not begin the field.
  field_key_escape :
      (v text : Bytes)
      → field_key (n ∷ ns) (quote ∷ (escape_json_string v ++ quote ∷ b',' ∷ text)) ≡ none
  unfolding field_key
  field_key_escape v text =
      let opened =
        strip_same quote (n ∷ (ns ++ quote ∷ [])) (escape_json_string v ++ quote ∷ b',' ∷ text) in
      elim (Meets-escape v (n ∷ ns) (b',' ∷ text) name_plain) [
        | inl misses ↦ ap after_name (opened ∙ misses)
        | inr meets ↦ ap after_name (opened ∙ meets)
      ]

  module _ {ℓ} {A : Type ℓ} (m : Bytes → Option A)
      (by_key : (text : Bytes) → field_key (n ∷ ns) text ≡ none → m text ≡ none) where
    search_step :
        (c : ℕ) (text : Bytes)
        → field_key (n ∷ ns) (c ∷ text) ≡ none
        → search_first m (c ∷ text) ≡ search_first m text
    unfolding search_first
    search_step c text h = rw (by_key (c ∷ text) h, search_first)

    -- Text without a quote is passed over.
    pub search_no_quote :
        (xs text : Bytes)
        → All (λ c. c ≢ quote) xs
        → search_first m (xs ++ text) ≡ search_first m text
    search_no_quote [] text h = refl
    search_no_quote (x ∷ xs) text h =
        search_step x (xs ++ text) (field_key_ne_quote x (xs ++ text) h.0)
        ∙ search_no_quote xs text h.1

    search_Escape :
        {c : ℕ} {u : Bytes} (cs text : Bytes)
        → Escape c u
        → search_first m (u ++ (escape_json_string cs ++ quote ∷ b',' ∷ text))
          ≡ search_first m (escape_json_string cs ++ quote ∷ b',' ∷ text)
    search_Escape {c} cs text (plain q b) = search_step c _ (field_key_ne_quote c _ q)
    search_Escape cs text (escaped (inl q)) = rw q (
        search_step backslash _ (field_key_ne_quote backslash _ (ground arith))
        ∙ search_step quote _ (field_key_escape cs text))
    search_Escape cs text (escaped (inr b)) = rw b (
        search_step backslash _ (field_key_ne_quote backslash _ (ground arith))
        ∙ search_step backslash _ (field_key_ne_quote backslash _ (ground arith)))

    search_body :
        (v text : Bytes)
        → search_first m (escape_json_string v ++ quote ∷ b',' ∷ text)
          ≡ search_first m (b',' ∷ text)
    unfolding escape_json_string
    search_body [] text = search_step quote _ (field_key_comma text)
    search_body (c ∷ cs) text =
        rw append_assoc (search_Escape cs text (Escape-escape_char c) ∙ search_body cs text)

    -- A quoted value with a comma behind it is passed over.
    pub search_value :
        (v text : Bytes)
        → search_first m (quote ∷ (escape_json_string v ++ quote ∷ b',' ∷ text))
          ≡ search_first m (b',' ∷ text)
    search_value v text = search_step quote _ (field_key_escape v text) ∙ search_body v text
