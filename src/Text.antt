-- ===== src/Text.antt =====
-- What the code uses of the standard library to read and write text: decimal output of unsigned
-- numbers, `std::stoull`, `std::getline`, and the pieces of its regular expressions. Every
-- repetition in those stops at a character that it cannot take itself, so the first, greedy match
-- of each piece is the only one, and no piece needs to give characters back.
pub mod Number
pub mod Search
use Prim.Native.Char.{code}
use Prim.Native.String.{String}
use beam_drop.Prelude.{
  ℕ, zero, suc, ◌+◌, ◌-◌, ◌*◌, ◌/◌, ◌%◌, ◌^◌, Bool, true, false, not, ◌&&◌, ◌||◌, Option, none,
  some, [], ◌∷◌, ◌++◌, List, Bytes, length, ltb, leb, ◌==◌, if◌then◌else◌,
}
use beam_drop.Errors.{Result, ok, err, runtime, ◌>>=◌}

-- One piece of a pattern behind another.
abbrev pub and_then {ℓ κ} : {A : Type ℓ} {B : Type κ} → Option A → (A → Option B) → Option B
and_then none f = none
and_then (some a) f = f a

-- The bytes of an ASCII literal.
abbrev pub codes : String → Bytes
codes String.[] = []
codes (String.◌∷◌ c s) = code c ∷ codes s

abbrev pub is_digit : ℕ → Bool
is_digit c = leb b'0' c && leb c b'9'

-- `\s`, and `std::isspace`: a blank, or one of `\t \n \v \f \r`
abbrev pub is_space : ℕ → Bool
is_space c = c == b' ' || leb 9 c && leb c 13

-- `stream << n` for an unsigned `n` below 10 ^ 20, which has at most 20 digits.
abbrev pub digit : ℕ → ℕ
digit n = b'0' + n

pub digits_upto : ℕ → ℕ → Bytes
digits_upto zero n = []
digits_upto (suc fuel) n =
    let rest = digits_upto fuel (n / 10) in
    if ltb n 10 then digit n ∷ [] else rest ++ digit (n % 10) ∷ []

unfoldable pub decimal : ℕ → Bytes
unfolding digits_upto
decimal n = digits_upto 20 n

-- The longest prefix whose bytes pass the test, and what is behind it.
unfoldable pub span : (ℕ → Bool) → Bytes → Bytes × Bytes
span p [] = ([], [])
span p (c ∷ cs) = let (taken, rest) = span p cs in if p c then (c ∷ taken, rest) else ([], c ∷ cs)

unfoldable pub skip_spaces : Bytes → Bytes
skip_spaces [] = []
skip_spaces (c ∷ cs) = let rest = skip_spaces cs in if is_space c then rest else c ∷ cs

unfoldable pub number_of : ℕ → Bytes → ℕ
number_of value [] = value
number_of value (c ∷ cs) = number_of (value * 10 + (c - b'0')) cs

-- The sign that `strtoull` reads: whether it is a minus, and what is behind it.
unfoldable pub read_sign : Bytes → Bool × Bytes
read_sign [] = (false, [])
read_sign (c ∷ cs) =
    if c == b'-' then (true, cs) else if c == b'+' then (false, cs) else (false, c ∷ cs)

-- The value that `strtoull` makes of the digits: a minus negates it in 64 bits. `std::stoull`
-- throws where there is no digit and where the digits stand for 2 ^ 64 or more.
unfoldable pub stoull_value : Bool → Bytes → Result ℕ
unfolding number_of
stoull_value negative [] = err runtime
stoull_value negative (c ∷ cs) =
    let value = number_of 0 (c ∷ cs) in
    if ltb (2 ^ 64 - 1) value
    then err runtime
    else ok (if negative then (2 ^ 64 - value) % 2 ^ 64 else value)

-- `std::stoull(text, &parsed_chars)` in base 10: the value, and the number of characters read.
unfoldable pub stoull : Bytes → Result (ℕ × ℕ)
stoull text =
    let sign = read_sign (skip_spaces text) in
    let digits = span is_digit sign.1 in
    do value ← stoull_value sign.0 digits.0; ok (value, length text - length digits.1)

-- `std::getline`: the line, and what is behind its newline.
unfoldable pub getline : Bytes → Bytes × Bytes
getline [] = ([], [])
getline (c ∷ cs) =
    let (line, rest) = getline cs in if c == b'\n' then ([], cs) else (c ∷ line, rest)

-- What is behind a literal that the text begins with.
unfoldable pub strip : Bytes → Bytes → Option Bytes
strip [] text = some text
strip (c ∷ cs) [] = none
strip (c ∷ cs) (d ∷ ds) = let rest = strip cs ds in if c == d then rest else none

-- `std::regex_search`: the match at the first place that has one, the end of the text included.
unfoldable pub search_first {ℓ} : {A : Type ℓ} → (Bytes → Option A) → Bytes → Option A
search_first m [] = m []
search_first m (c ∷ cs) = elim (m (c ∷ cs)) [ some a ↦ some a | none ↦ search_first m cs ]
