-- ===== src/Resume.antt =====
-- include/beamdrop/transfer/ResumeManager.hpp and src/transfer/ResumeManager.cpp: the records of
-- half-received files, kept as text in a state file.
pub mod Fields
pub mod RoundTrip
pub mod Offsets
pub mod Lifecycle
pub mod Ready
mod Tests
use beam_drop.Prelude.{
  ℕ, Bool, true, false, not, ◌||◌, ◌&&◌, Option, none, some, List, [], ◌∷◌, ◌++◌, Bytes, length,
  ltb, ◌==◌, if◌then◌else◌, same_bytes,
}
use beam_drop.Errors.{
  Result, ok, err, Exception, transfer, runtime, invalid_resume_state, invalid_resume_offset,
  file_open_failed, file_write_failed, throw_if, ◌>>=◌, ◌>>◌,
}
use beam_drop.Text.{codes, decimal, is_digit, strip, search_first, stoull}
use beam_drop.Json.{escape_json_string, require_string_field, number_field}

pub record ResumeRecord : Type 0 where
  pub relative_path : Bytes
  pub size : ℕ
  pub sha256 : Bytes
  pub offset : ℕ

abbrev pub invalid : Exception
invalid = transfer invalid_resume_state

-- The `try` block of `require_u64_field`: any exception of it becomes `InvalidResumeState`.
unfoldable pub read_number : Option Bytes → Result ℕ
read_number none = err invalid
read_number (some group) = elim (stoull group) [
  | err e ↦ err invalid
  | ok (value, parsed_chars) ↦ do throw_if (not (parsed_chars == length group)) invalid; ok value
]

-- `require_u64_field`, with the pattern `\"name\"\s*:\s*([0-9]+)`
unfoldable pub require_number : Bytes → Bytes → Result ℕ
require_number json name = read_number (search_first (number_field is_digit name) json)

-- `require_string_field`: a bad escape throws `std::runtime_error`.
abbrev pub require_text : Bytes → Bytes → Result Bytes
require_text = require_string_field invalid runtime

-- The matches of `\{[^{}]*\}`, one after another: `some inside` is what stands behind the last
-- open brace, since a brace that another open brace follows begins no match.
unfoldable pub objects : Option Bytes → Bytes → List Bytes
objects inside [] = []
objects none (c ∷ cs) = objects (if c == b'{' then some [] else none) cs
objects (some inside) (c ∷ cs) =
    let found = b'{' ∷ (inside ++ b'}' ∷ []) in
    let after = objects none cs in
    let reading = objects (some (if c == b'{' then [] else inside ++ c ∷ [])) cs in
    if c == b'}' then found ∷ after else reading

-- `object.find("\"relative_path\"") != std::string::npos`
unfoldable pub names_path : Bytes → Bool
names_path object = elim (search_first (strip (codes "\"relative_path\"")) object) [
  | none ↦ false
  | some rest ↦ true
]

abbrev pub empty : Bytes → Bool
empty [] = true
empty (c ∷ cs) = false

unfoldable pub read_record : Bytes → Result ResumeRecord
read_record object = do
  relative_path ← require_text object (codes "relative_path")
  size ← require_number object (codes "size")
  sha256 ← require_text object (codes "sha256")
  offset ← require_number object (codes "offset")
  throw_if (empty relative_path || empty sha256) invalid
  ok (record { relative_path = relative_path; size = size; sha256 = sha256; offset = offset })

-- The loop of `load` over the matches.
unfoldable pub read_objects : List Bytes → Result (List ResumeRecord)
read_objects [] = ok []
read_objects (object ∷ rest) =
    let others = read_objects rest in
    if not (names_path object) then others else do r ← read_record object; rs ← others; ok (r ∷ rs)

-- The state file: its text, if it exists, whether the system lets it be opened for reading and
-- for writing, and whether it takes all that is written.
pub record StateFile : Type 0 where
  pub content : Option Bytes
  pub readable : Bool
  pub writable : Bool
  pub has_room : Bool

abbrev pub read_text : Bytes → Result (List ResumeRecord)
read_text text = read_objects (objects none text)

-- `ResumeManager::load`
unfoldable pub load : StateFile → Result (List ResumeRecord)
load f = elim f.content [
  | none ↦ ok []
  | some text ↦ do throw_if (not f.readable) (transfer file_open_failed); read_text text
]

-- One record, as `save` writes it.
unfoldable pub record_text : ResumeRecord → Bytes
record_text r =
    codes "{\"relative_path\":\""
    ++ (escape_json_string r.relative_path
        ++ (codes "\",\"size\":"
            ++ (decimal r.size
                ++ (codes ",\"sha256\":\""
                    ++ (escape_json_string r.sha256
                        ++ (codes "\",\"offset\":" ++ (decimal r.offset ++ codes "}")))))))

abbrev pub separator : List ResumeRecord → Bytes
separator [] = codes "\n"
separator (r ∷ rs) = codes ",\n"

unfoldable pub records_text : List ResumeRecord → Bytes
records_text [] = []
records_text (r ∷ rs) = codes "    " ++ (record_text r ++ (separator rs ++ records_text rs))

unfoldable pub state_text : List ResumeRecord → Bytes
state_text rs = codes "{\n  \"records\": [\n" ++ (records_text rs ++ codes "  ]\n}\n")

-- `ResumeManager::save`
unfoldable pub save : List ResumeRecord → StateFile → Result StateFile
save rs f = do
  throw_if (not f.writable) (transfer file_open_failed)
  throw_if (not f.has_room) (transfer file_write_failed)
  ok (record f { content = some (state_text rs) })

-- The identity of a file: its path, size and hash.
pub record Identity : Type 0 where
  pub path : Bytes
  pub size : ℕ
  pub sha256 : Bytes

unfoldable pub same_identity : ResumeRecord → Identity → Bool
same_identity r i =
    same_bytes r.relative_path i.path && r.size == i.size && same_bytes r.sha256 i.sha256

-- `ResumeManager::find_offset`, over the records that were loaded.
unfoldable pub find_record : List ResumeRecord → Identity → Option ℕ
find_record [] i = none
find_record (r ∷ rs) i =
    let rest = find_record rs i in
    if same_identity r i then some (if ltb i.size r.offset then 0 else r.offset) else rest

unfoldable pub find_offset : StateFile → Identity → Result (Option ℕ)
find_offset f i = do rs ← load f; ok (find_record rs i)

-- The loop of `update_offset`, and the `push_back` behind it.
unfoldable pub set_offset : List ResumeRecord → Identity → ℕ → List ResumeRecord
set_offset [] i offset =
    (record { relative_path = i.path; size = i.size; sha256 = i.sha256; offset = offset }) ∷ []
set_offset (r ∷ rs) i offset =
    let rest = set_offset rs i offset in
    if same_identity r i then (record r { offset = offset }) ∷ rs else r ∷ rest

unfoldable pub update_offset : StateFile → Identity → ℕ → Result StateFile
update_offset f i offset = do
  throw_if (empty i.path || empty i.sha256) invalid
  throw_if (ltb i.size offset) (transfer invalid_resume_offset)
  rs ← load f
  save (set_offset rs i offset) f

-- The loop of `clear`.
unfoldable pub without : List ResumeRecord → Identity → List ResumeRecord
without [] i = []
without (r ∷ rs) i = let rest = without rs i in if not (same_identity r i) then r ∷ rest else rest

unfoldable pub clear : StateFile → Identity → Result StateFile
clear f i = do rs ← load f; save (without rs i) f
