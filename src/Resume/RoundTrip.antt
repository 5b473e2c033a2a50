-- ===== src/Resume/RoundTrip.antt =====
-- `load` against `save`: the records are read back where no path holds a brace.
use mathlib.Core.List.{map}
use beam_drop.Prelude.{
  ℕ, ◌<◌, ◌^◌, ◌≡◌, ◌≢◌, refl, ap, sym, ◌∙◌, Bool, true, false, not, none, some, List, [], ◌∷◌,
  ◌++◌, append_assoc, arith, Bytes, All, All-mono, All-append, ==_false,
}
use beam_drop.Errors.{ok, runtime, transfer, file_open_failed, file_write_failed, throw_if, ◌>>◌}
use beam_drop.Text.{codes, decimal, search_first, strip}
use beam_drop.Text.Number.{IsDigit, decimal-IsDigit}
use beam_drop.Json.{escape_json_string, require_string_field}
use beam_drop.Json.RoundTrip.{unescape-escape, Escape, plain, escaped, Escape-escape_char}
use beam_drop.Resume.{
  ResumeRecord, invalid, empty, objects, names_path, read_record, require_number, read_objects,
  read_text, StateFile, load, record_text, separator, records_text, state_text, save,
}
use beam_drop.Resume.Fields.{
  read_number-decimal, names_path-record_text, path_group, size_group, sha256_group, offset_group,
}

abbrev pub IsNoBrace : ℕ → Type 0
IsNoBrace c = (c ≢ b'{') × (c ≢ b'}')

-- A record that the state file can hold.
pub record IsStored (r : ResumeRecord) : Type 0 where
  pub path_ne_nil : r.relative_path ≢ []
  pub sha256_ne_nil : r.sha256 ≢ []
  pub size_lt : r.size < 2 ^ 64
  pub offset_lt : r.offset < 2 ^ 64
  pub path_no_brace : All IsNoBrace r.relative_path
  pub sha256_no_brace : All IsNoBrace r.sha256

pub empty_of_ne : (b : Bytes) → b ≢ [] → empty b ≡ false
empty_of_ne [] ne = absurd (ne refl)
empty_of_ne (c ∷ cs) ne = refl

read_record-record_text : (r : ResumeRecord) → IsStored r → read_record (record_text r) ≡ ok r
unfolding read_record require_string_field require_number
read_record-record_text r s =
    rw
      (
        path_group r,
        unescape-escape runtime invalid r.relative_path,
        size_group r,
        read_number-decimal r.size s.size_lt,
        sha256_group r,
        unescape-escape runtime invalid r.sha256,
        offset_group r,
        read_number-decimal r.offset s.offset_lt,
      )
      (rw (empty_of_ne r.relative_path s.path_ne_nil, empty_of_ne r.sha256 s.sha256_ne_nil))

Escape-IsNoBrace : {c : ℕ} {w : Bytes} → Escape c w → IsNoBrace c → All IsNoBrace w
Escape-IsNoBrace (plain q b) h = (h, tt)
Escape-IsNoBrace (escaped e) h = ((ground arith), (h, tt))

escape-IsNoBrace : (v : Bytes) → All IsNoBrace v → All IsNoBrace (escape_json_string v)
unfolding escape_json_string
escape-IsNoBrace [] h = tt
escape-IsNoBrace (c ∷ cs) h =
    All-append IsNoBrace _ _ (Escape-IsNoBrace (Escape-escape_char c) h.0) (escape-IsNoBrace cs h.1)

decimal-IsNoBrace : (n : ℕ) → All IsNoBrace (decimal n)
decimal-IsNoBrace n = All-mono IsDigit IsNoBrace (λ c h. ground arith) _ (decimal-IsDigit n)

-- What a record's text holds between its braces.
inside_of : ResumeRecord → Bytes
inside_of r =
    codes "\"relative_path\":\""
    ++ (escape_json_string r.relative_path
        ++ (codes "\",\"size\":"
            ++ (decimal r.size
                ++ (codes ",\"sha256\":\""
                    ++ (escape_json_string r.sha256
                        ++ (codes "\",\"offset\":" ++ decimal r.offset))))))

record_text-inside_of : (r : ResumeRecord) → record_text r ≡ b'{' ∷ (inside_of r ++ b'}' ∷ [])
unfolding record_text inside_of
record_text-inside_of r = simp append_assoc

inside_of-IsNoBrace : (r : ResumeRecord) → IsStored r → All IsNoBrace (inside_of r)
unfolding inside_of
inside_of-IsNoBrace r s =
    after path_name (escape_json_string r.relative_path) _ (ground arith)
      (escape-IsNoBrace r.relative_path s.path_no_brace)
      (after size_name (decimal r.size) _ (ground arith) (decimal-IsNoBrace r.size) (
        after sha256_name (escape_json_string r.sha256) _ (ground arith)
          (escape-IsNoBrace r.sha256 s.sha256_no_brace)
          (All-append IsNoBrace offset_name _ (ground arith) (decimal-IsNoBrace r.offset))))
  where
    path_name : Bytes
    path_name = codes "\"relative_path\":\""

    size_name : Bytes
    size_name = codes "\",\"size\":"

    sha256_name : Bytes
    sha256_name = codes ",\"sha256\":\""

    offset_name : Bytes
    offset_name = codes "\",\"offset\":"

    after :
        (name value : Bytes) (rest : Bytes)
        → All IsNoBrace name
        → All IsNoBrace value
        → All IsNoBrace rest
        → All IsNoBrace (name ++ (value ++ rest))
    after name value rest n v r =
        All-append IsNoBrace name _ n (All-append IsNoBrace value rest v r)

-- Inside of an object, bytes that are no braces are taken up.
objects-inside :
    (xs inside rest : Bytes)
    → All IsNoBrace xs
    → objects (some inside) (xs ++ b'}' ∷ rest)
      ≡ (b'{' ∷ (inside ++ (xs ++ b'}' ∷ []))) ∷ objects none rest
unfolding objects
objects-inside [] inside rest h = refl
objects-inside (x ∷ xs) inside rest h =
    let not_open = ==_false h.0.0 in
    let not_close = ==_false h.0.1 in
    rw (not_close, not_open, objects-inside xs (inside ++ x ∷ []) rest h.1, append_assoc) refl

objects-record_text :
    (r : ResumeRecord) (rest : Bytes)
    → IsStored r
    → objects none (record_text r ++ rest) ≡ record_text r ∷ objects none rest
objects-record_text r rest s =
    rw (record_text-inside_of r, append_assoc)
      (unfold objects in objects-inside (inside_of r) [] rest (inside_of-IsNoBrace r s))

tail_text : Bytes
tail_text = codes "  ]\n}\n"

objects-separator :
    (rs : List ResumeRecord) (rest : Bytes)
    → objects none (separator rs ++ rest) ≡ objects none rest
unfolding objects
objects-separator [] rest = refl
objects-separator (r ∷ rs) rest = refl

objects_spaces : (rest : Bytes) → objects none (codes "    " ++ rest) ≡ objects none rest
unfolding objects
objects_spaces rest = refl

objects-records_text :
    (rs : List ResumeRecord)
    → All IsStored rs
    → objects none (records_text rs ++ tail_text) ≡ map record_text rs
unfolding records_text
objects-records_text [] s = unfold objects tail_text in refl
objects-records_text (r ∷ rs) s =
    let after = records_text rs ++ tail_text in
    rw
      (
        append_assoc (record_text r) (separator rs ++ records_text rs) tail_text,
        append_assoc (separator rs) (records_text rs) tail_text,
      )
      (objects_spaces (record_text r ++ (separator rs ++ after))
        ∙ objects-record_text r (separator rs ++ after) s.0
        ∙ ap (λ os. record_text r ∷ os) (objects-separator rs after ∙ objects-records_text rs s.1))

read_objects-map :
    (rs : List ResumeRecord) → All IsStored rs → read_objects (map record_text rs) ≡ ok rs
unfolding read_objects
read_objects-map [] s = refl
read_objects-map (r ∷ rs) s =
    rw (names_path-record_text r, read_record-record_text r s.0, read_objects-map rs s.1) refl

-- The brace of the outer object is given up where the first record's begins.
objects_restart :
    (r : ResumeRecord) (rs : List ResumeRecord) (inside : Bytes)
    → objects (some inside) (records_text (r ∷ rs) ++ tail_text)
      ≡ objects none (records_text (r ∷ rs) ++ tail_text)
unfolding objects records_text record_text
objects_restart r rs inside = refl

read_text-state_text :
    (rs : List ResumeRecord) → All IsStored rs → read_text (state_text rs) ≡ ok rs
unfolding state_text
read_text-state_text [] s =
    unfold objects records_text read_objects names_path search_first strip in refl
read_text-state_text (r ∷ rs) s =
    ap read_objects (to_records ∙ objects-records_text (r ∷ rs) s) ∙ read_objects-map (r ∷ rs) s
  where
    to_records :
        objects none (codes "{\n  \"records\": [\n" ++ (records_text (r ∷ rs) ++ codes "  ]\n}\n"))
        ≡ objects none (records_text (r ∷ rs) ++ tail_text)
    to_records = unfold objects tail_text in objects_restart r rs (codes "\n  \"records\": [\n")

load_content :
    (g : StateFile) (text : Bytes)
    → g.content ≡ some text
    → g.readable ≡ true
    → load g ≡ read_text text
unfolding load
load_content g text e readable = rw (e, readable) refl

saved_ok :
    {A : Type 0} (h g : A) (writable has_room : Bool)
    → throw_if (not writable) (transfer file_open_failed)
        >> (throw_if (not has_room) (transfer file_write_failed) >> ok h)
      ≡ ok g
    → h ≡ g
saved_ok h g true true e = cc
saved_ok h g true false e = cc
saved_ok h g false has_room e = cc

saved_content :
    (rs : List ResumeRecord) (f g : StateFile)
    → save rs f ≡ ok g
    → (g.content ≡ some (state_text rs)) × (g.readable ≡ f.readable)
unfolding save
saved_content rs f g saved =
    let same =
      saved_ok (record f { content = some (state_text rs) }) g f.writable f.has_room saved in
    (sym (ap (λ h. h.content) same), sym (ap (λ h. h.readable) same))

-- What `save` wrote, `load` reads back, where the file can be read, every record has a path and a
-- hash, no brace in them, and a size and an offset below 2 ^ 64.
pub load-save :
    (rs : List ResumeRecord) (f g : StateFile)
    → All IsStored rs
    → f.readable ≡ true
    → save rs f ≡ ok g
    → load g ≡ ok rs
load-save rs f g s readable saved =
    let (content, same) = saved_content rs f g saved in
    load_content g (state_text rs) content (same ∙ readable) ∙ read_text-state_text rs s
