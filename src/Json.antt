-- ===== src/Json.antt =====
-- The JSON helpers that src/transfer/FileInfoCodec.cpp and src/transfer/ResumeManager.cpp share:
-- `escape_json_string`, `unescape_json_string`, and the field patterns of their regular expressions.
pub mod RoundTrip
use beam_drop.Prelude.{
  ℕ, Bool, true, false, not, ◌&&◌, ◌||◌, Option, none, some, [], ◌∷◌, ◌++◌, Bytes, ◌==◌,
  if◌then◌else◌,
}
use beam_drop.Errors.{Exception, Result, ok, err, ◌>>=◌}
use beam_drop.Text.{span, is_space, skip_spaces, strip, search_first, and_then}

abbrev pub quote : ℕ
quote = b'"'

abbrev pub backslash : ℕ
backslash = b'\\'

abbrev pub escape_char : ℕ → Bytes
escape_char ch =
    if ch == backslash
    then backslash ∷ backslash ∷ []
    else if ch == quote
    then backslash ∷ quote ∷ []
    else ch ∷ []

-- `escape_json_string`
unfoldable pub escape_json_string : Bytes → Bytes
escape_json_string [] = []
escape_json_string (ch ∷ cs) = escape_char ch ++ escape_json_string cs

-- `unescape_json_string`; the two copies differ in what they throw, in the middle and at the end.
unfoldable pub unescape_loop : Exception → Exception → Bool → Bytes → Result Bytes
unescape_loop bad_escape bad_end true [] = err bad_end
unescape_loop bad_escape bad_end false [] = ok []
unescape_loop bad_escape bad_end true (ch ∷ cs) =
    if not (ch == backslash) && not (ch == quote)
    then err bad_escape
    else do rest ← unescape_loop bad_escape bad_end false cs; ok (ch ∷ rest)
unescape_loop bad_escape bad_end false (ch ∷ cs) =
    let rest = unescape_loop bad_escape bad_end (ch == backslash) cs in
    if ch == backslash then rest else do unescaped ← rest; ok (ch ∷ unescaped)

abbrev pub unescape_json_string : Exception → Exception → Bytes → Result Bytes
unescape_json_string bad_escape bad_end = unescape_loop bad_escape bad_end false

-- The rest of a field's pattern behind the name: `\s*:\s*`.
pub after_name : Option Bytes → Option Bytes
after_name none = none
after_name (some rest) = elim (strip (b':' ∷ []) (skip_spaces rest)) [
  | none ↦ none
  | some behind ↦ some (skip_spaces behind)
]

-- `\"name\"\s*:\s*`: what is behind it.
unfoldable pub field_key : Bytes → Bytes → Option Bytes
unfolding strip skip_spaces after_name
field_key name text = after_name (strip (quote ∷ (name ++ quote ∷ [])) text)

-- `((?:\\.|[^\"\\])*)\"`: the group, where the pattern matches. The flag says that a backslash stands
-- in front; the dot takes no line break.
unfoldable pub string_body : Bool → Bytes → Option Bytes
string_body escaping [] = none
string_body true (c ∷ cs) =
    if c == b'\n' || c == b'\r'
    then none
    else elim (string_body false cs) [ none ↦ none | some body ↦ some (c ∷ body) ]
string_body false (c ∷ cs) =
    let rest = string_body (c == backslash) cs in
    if c == quote then some [] else elim rest [ none ↦ none | some body ↦ some (c ∷ body) ]

-- `\"((?:\\.|[^\"\\])*)\"`
unfoldable pub quoted : Bytes → Option Bytes
unfolding string_body strip
quoted text = elim (strip (quote ∷ []) text) [ none ↦ none | some rest ↦ string_body false rest ]

-- The pattern of a string field, at one place of the text.
unfoldable pub string_field : Bytes → Bytes → Option Bytes
string_field name text = and_then (field_key name text) quoted

abbrev pub non_empty : Bytes → Option Bytes
non_empty [] = none
non_empty (c ∷ cs) = some (c ∷ cs)

-- A group of one or more bytes that pass the test.
unfoldable pub some_bytes : (ℕ → Bool) → Bytes → Option Bytes
some_bytes p text = non_empty (span p text).0

-- The pattern of a number field, at one place of the text; the test is the class of the group.
unfoldable pub number_field : (ℕ → Bool) → Bytes → Bytes → Option Bytes
number_field p name text = and_then (field_key name text) (some_bytes p)

abbrev pub unescape_group : Exception → Exception → Option Bytes → Result Bytes
unescape_group bad_escape missing none = err missing
unescape_group bad_escape missing (some group) = unescape_json_string bad_escape missing group

-- `require_string_field`
unfoldable pub require_string_field : Exception → Exception → Bytes → Bytes → Result Bytes
require_string_field missing bad_escape json name =
    unescape_group bad_escape missing (search_first (string_field name) json)
