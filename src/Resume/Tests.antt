-- ===== src/Resume/Tests.antt =====
-- Runs of the resume state at concrete records.
use beam_drop.Prelude.{◌≡◌, ◌≢◌, refl, true, none, some, List, [], ◌∷◌, arith, same_bytes}
use beam_drop.Errors.{ok, err, transfer, invalid_resume_state}
use beam_drop.Text.{codes, decimal, search_first, strip, skip_spaces}
use beam_drop.Json.{
  require_string_field, string_field, field_key, quoted, string_body, escape_json_string,
}
use beam_drop.Resume.{
  ResumeRecord, Identity, StateFile, load, save, state_text, records_text, record_text, objects,
  read_objects, names_path, read_record, update_offset, clear, set_offset, without, same_identity,
  find_offset,
}
use beam_drop.Resume.RoundTrip.{IsStored, load-save}
use beam_drop.Resume.Offsets.{record_at}
use beam_drop.Resume.Lifecycle.{find_offset-update_offset, find_offset-clear}

abbrev notes : Identity
notes = record { path = codes "a\"b.txt"; size = 9; sha256 = codes "0f" }

abbrev photo : Identity
photo = record { path = codes "p.png"; size = 3; sha256 = codes "aa" }

abbrev stored : List ResumeRecord
stored = record_at notes 4 ∷ []

abbrev file : List ResumeRecord → StateFile
file rs = record {
  content = some (state_text rs);
  readable = true;
  writable = true;
  has_room = true;
}

abbrev no_file : StateFile
no_file = record { content = none; readable = true; writable = true; has_room = true }

notes-IsStored : IsStored (record_at notes 4)
notes-IsStored = record {
  path_ne_nil = ground arith;
  sha256_ne_nil = ground arith;
  size_lt = omega arith;
  offset_lt = omega arith;
  path_no_brace = ground arith;
  sha256_no_brace = ground arith;
}

photo-IsStored : IsStored (record_at photo 1)
photo-IsStored = record {
  path_ne_nil = ground arith;
  sha256_ne_nil = ground arith;
  size_lt = omega arith;
  offset_lt = omega arith;
  path_no_brace = ground arith;
  sha256_no_brace = ground arith;
}

load-save_example : load (file stored) ≡ ok stored
load-save_example =
    load-save stored no_file (file stored) (notes-IsStored, tt) refl (unfold save in refl)

stored_loaded : load (file stored) ≡ ok stored
stored_loaded =
    load-save stored no_file (file stored) (notes-IsStored, tt) refl (unfold save in refl)

photo_updated :
    update_offset (file stored) photo 1 ≡ ok (file (record_at notes 4 ∷ record_at photo 1 ∷ []))
unfolding update_offset
photo_updated = rw stored_loaded (unfold set_offset save same_identity same_bytes in refl)

find_offset-update_offset_example :
    (find_offset (file (record_at notes 4 ∷ record_at photo 1 ∷ [])) photo ≡ ok (some 1))
    × ((j : Identity)
        → photo ≢ j
        → find_offset (file (record_at notes 4 ∷ record_at photo 1 ∷ [])) j
          ≡ find_offset (file stored) j)
find_offset-update_offset_example =
    find_offset-update_offset stored (file stored)
      (file (record_at notes 4 ∷ record_at photo 1 ∷ [])) photo 1 stored_loaded (notes-IsStored, tt)
      photo-IsStored refl photo_updated

notes_cleared : clear (file stored) notes ≡ ok (file [])
unfolding clear
notes_cleared = rw stored_loaded (unfold without save same_identity same_bytes in refl)

find_offset-clear_example :
    (find_offset (file []) notes ≡ ok none)
    × ((j : Identity) → notes ≢ j → find_offset (file []) j ≡ find_offset (file stored) j)
find_offset-clear_example =
    find_offset-clear stored (file stored) (file []) notes stored_loaded (notes-IsStored, tt) refl
      notes_cleared

-- A brace in a name: the record cannot be read again.
abbrev braced : Identity
braced = record { path = codes "a}.txt"; size = 9; sha256 = codes "0f" }

brace_lost : load (file (record_at braced 4 ∷ [])) ≡ err (transfer invalid_resume_state)
brace_lost =
    unfold load state_text records_text record_text objects read_objects names_path search_first
      strip read_record require_string_field string_field field_key quoted string_body skip_spaces
      escape_json_string decimal in
    refl
