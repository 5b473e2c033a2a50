-- ===== src/Resume/Ready.antt =====
-- A state file on which the calls of the resume manager succeed, and goes on to be one.
use beam_drop.Prelude.{ℕ, ◌≤◌, ◌≡◌, refl, true, some, List, All, ltb_of_le}
use beam_drop.Errors.{ok}
use beam_drop.Resume.{
  ResumeRecord, Identity, StateFile, set_offset, update_offset, without, clear, load, save,
  state_text,
}
use beam_drop.Resume.Offsets.{record_at}
use beam_drop.Resume.RoundTrip.{IsStored, load-save, empty_of_ne}
use beam_drop.Resume.Lifecycle.{set_offset-IsStored, without-IsStored}

pub record IsReady (f : StateFile) : Type 0 where
  pub records : List ResumeRecord
  pub loaded : load f ≡ ok records
  pub stored : All IsStored records
  pub is_readable : f.readable ≡ true
  pub is_writable : f.writable ≡ true
  pub is_roomy : f.has_room ≡ true

abbrev pub saved : StateFile → List ResumeRecord → StateFile
saved f rs = record f { content = some (state_text rs) }

save-saved :
    (rs : List ResumeRecord) (f : StateFile)
    → f.writable ≡ true
    → f.has_room ≡ true
    → save rs f ≡ ok (saved f rs)
unfolding save
save-saved rs f w r = rw (w, r) refl

saved-IsReady :
    (rs : List ResumeRecord) (f : StateFile) → IsReady f → All IsStored rs → IsReady (saved f rs)
saved-IsReady rs f h s = record {
  records = rs;
  loaded = load-save rs f (saved f rs) s h.is_readable (save-saved rs f h.is_writable h.is_roomy);
  stored = s;
  is_readable = h.is_readable;
  is_writable = h.is_writable;
  is_roomy = h.is_roomy;
}

-- Both calls succeed, where the record can be stored and its offset is at most its size.
pub update_offset-IsReady :
    (f : StateFile) (i : Identity) (offset : ℕ)
    → IsReady f
    → IsStored (record_at i offset)
    → offset ≤ i.size
    → (rs : List ResumeRecord) × (update_offset f i offset ≡ ok (saved f rs)) × IsReady (saved f rs)
unfolding update_offset
update_offset-IsReady f i offset h new le =
    let rs = set_offset h.records i offset in
    (
      rs,
      rw
          (
            empty_of_ne i.path new.path_ne_nil,
            empty_of_ne i.sha256 new.sha256_ne_nil,
            ltb_of_le i.size offset le,
            h.loaded,
          )
          (save-saved rs f h.is_writable h.is_roomy),
      saved-IsReady rs f h (set_offset-IsStored h.records i offset new h.stored),
    )

pub clear-IsReady :
    (f : StateFile) (i : Identity)
    → IsReady f
    → (rs : List ResumeRecord) × (clear f i ≡ ok (saved f rs)) × IsReady (saved f rs)
unfolding clear
clear-IsReady f i h =
    let rs = without h.records i in
    (
      rs,
      rw h.loaded (save-saved rs f h.is_writable h.is_roomy),
      saved-IsReady rs f h (without-IsStored h.records i h.stored),
    )
