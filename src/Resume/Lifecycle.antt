-- ===== src/Resume/Lifecycle.antt =====
-- What a process finds in the state file after `update_offset` or `clear` of another call.
use beam_drop.Prelude.{
  ℕ, ◌≤◌, ◌<◌, ◌^◌, ◌≡◌, ◌≢◌, refl, ap, sym, ◌∙◌, inl, inr, Bool, true, false, ◌||◌, none, some,
  List, [], ◌∷◌, All, ltb, le_of_ltb, Bool-cases,
}
use beam_drop.Errors.{Result, ok, Exception, transfer, invalid_resume_offset, throw_if, ◌>>=◌, ◌>>◌}
use beam_drop.Resume.{
  ResumeRecord, Identity, StateFile, invalid, empty, same_identity, find_record, find_offset,
  set_offset, update_offset, without, clear, load, save,
}
use beam_drop.Resume.Offsets.{
  record_at, find_record-set_offset, find_other-set_offset, find_record-without, find_other-without,
}
use beam_drop.Resume.RoundTrip.{IsStored, load-save}

pub without-IsStored :
    (rs : List ResumeRecord) (i : Identity) → All IsStored rs → All IsStored (without rs i)
unfolding without
without-IsStored [] i s = tt
without-IsStored (r ∷ rs) i s = elim (Bool-cases (same_identity r i)) [
  | inl hit ↦ rw hit (without-IsStored rs i s.1)
  | inr miss ↦ rw miss (s.0, without-IsStored rs i s.1)
]

pub offset-IsStored :
    (r : ResumeRecord) (offset : ℕ)
    → offset < 2 ^ 64
    → IsStored r
    → IsStored (record r { offset = offset })
offset-IsStored r offset h s = record {
  path_ne_nil = s.path_ne_nil;
  sha256_ne_nil = s.sha256_ne_nil;
  size_lt = s.size_lt;
  offset_lt = h;
  path_no_brace = s.path_no_brace;
  sha256_no_brace = s.sha256_no_brace;
}

pub set_offset-IsStored :
    (rs : List ResumeRecord) (i : Identity) (offset : ℕ)
    → IsStored (record_at i offset)
    → All IsStored rs
    → All IsStored (set_offset rs i offset)
unfolding set_offset
set_offset-IsStored [] i offset h s = (h, tt)
set_offset-IsStored (r ∷ rs) i offset h s = elim (Bool-cases (same_identity r i)) [
  | inl hit ↦ rw hit (offset-IsStored r offset h.offset_lt s.0, s.1)
  | inr miss ↦ rw miss (s.0, set_offset-IsStored rs i offset h s.1)
]

-- A guard that let the code go on.
passed :
    {A : Type 0} (b : Bool) (e : Exception) (rest : Result A) (a : A)
    → throw_if b e >> rest ≡ ok a
    → (b ≡ false) × (rest ≡ ok a)
passed true e rest a h = cc
passed false e rest a h = (refl, h)

updated :
    (rs : List ResumeRecord) (f g : StateFile) (i : Identity) (offset : ℕ)
    → load f ≡ ok rs
    → update_offset f i offset ≡ ok g
    → (offset ≤ i.size) × (save (set_offset rs i offset) f ≡ ok g)
unfolding update_offset
updated rs f g i offset l u =
    let (named, u1) =
      passed (empty i.path || empty i.sha256) invalid
        (do
          throw_if (ltb i.size offset) (transfer invalid_resume_offset)
          rs ← load f
          save (set_offset rs i offset) f)
        g u in
    let (fits, u2) =
      passed (ltb i.size offset) (transfer invalid_resume_offset)
        (do rs ← load f; save (set_offset rs i offset) f) g u1 in
    (le_of_ltb i.size offset fits, cc)

found :
    (f : StateFile) (rs : List ResumeRecord) (i : Identity)
    → load f ≡ ok rs
    → find_offset f i ≡ ok (find_record rs i)
unfolding find_offset
found f rs i l = rw l refl

cleared :
    (rs : List ResumeRecord) (f g : StateFile) (i : Identity)
    → load f ≡ ok rs
    → clear f i ≡ ok g
    → save (without rs i) f ≡ ok g
unfolding clear
cleared rs f g i l c = cc

-- Once `update_offset` of a file's identity succeeds on a readable state file whose records can
-- be stored, `find_offset` of that identity gives the new offset, and of any other one what it
-- gave before.
pub find_offset-update_offset :
    (rs : List ResumeRecord) (f g : StateFile) (i : Identity) (offset : ℕ)
    → load f ≡ ok rs
    → All IsStored rs
    → IsStored (record_at i offset)
    → f.readable ≡ true
    → update_offset f i offset ≡ ok g
    → (find_offset g i ≡ ok (some offset))
      × ((j : Identity) → i ≢ j → find_offset g j ≡ find_offset f j)
find_offset-update_offset rs f g i offset l s new readable u =
    let (le, saved) = updated rs f g i offset l u in
    let after =
      load-save (set_offset rs i offset) f g (set_offset-IsStored rs i offset new s) readable
        saved in
    (
      found g (set_offset rs i offset) i after
          ∙ ap (λ o. ok o) (find_record-set_offset rs i offset le),
      λ j ne.
          found g (set_offset rs i offset) j after
          ∙ ap (λ o. ok o) (find_other-set_offset rs i j offset ne)
          ∙ sym (found f rs j l),
    )

-- Once `clear` of a file's identity succeeds on a readable state file whose records can be stored,
-- `find_offset` of that identity finds nothing, and of any other one what it found before.
pub find_offset-clear :
    (rs : List ResumeRecord) (f g : StateFile) (i : Identity)
    → load f ≡ ok rs
    → All IsStored rs
    → f.readable ≡ true
    → clear f i ≡ ok g
    → (find_offset g i ≡ ok none) × ((j : Identity) → i ≢ j → find_offset g j ≡ find_offset f j)
find_offset-clear rs f g i l s readable c =
    let after =
      load-save (without rs i) f g (without-IsStored rs i s) readable (cleared rs f g i l c) in
    (
      found g (without rs i) i after ∙ ap (λ o. ok o) (find_record-without rs i),
      λ j ne.
          found g (without rs i) j after
          ∙ ap (λ o. ok o) (find_other-without rs i j ne)
          ∙ sym (found f rs j l),
    )
