-- ===== src/Resume/Offsets.antt =====
-- `update_offset`, `clear` and `find_offset` against each other, on the records and through the
-- state file.
use beam_drop.Prelude.{
  ℕ, ◌≤◌, ◌≡◌, ◌≢◌, refl, sym, ◌∙◌, inl, inr, Bool, true, false, ◌&&◌, none, some, List, [], ◌∷◌,
  ◌==◌, ltb_of_le, ==_refl, eq_of_==, same_bytes, same_bytes_iff, same_bytes_self, Bool-cases,
}
use beam_drop.Resume.{ResumeRecord, Identity, same_identity, find_record, set_offset, without}

and_true : (a b : Bool) → (a && b) ≡ true → (a ≡ true) × (b ≡ true)
and_true true true h = (refl, refl)
and_true true false h = cc
and_true false b h = cc

abbrev identity_of : ResumeRecord → Identity
identity_of r = record { path = r.relative_path; size = r.size; sha256 = r.sha256 }

same_identity-eq : (r : ResumeRecord) (i : Identity) → same_identity r i ≡ true → identity_of r ≡ i
unfolding same_identity
same_identity-eq r i h =
    let outer =
      and_true (same_bytes r.relative_path i.path && r.size == i.size)
        (same_bytes r.sha256 i.sha256) h in
    let inner = and_true (same_bytes r.relative_path i.path) (r.size == i.size) outer.0 in
    let p = (same_bytes_iff r.relative_path i.path).0 inner.0 in
    let s = eq_of_== r.size i.size inner.1 in
    let k = (same_bytes_iff r.sha256 i.sha256).0 outer.1 in cc

abbrev pub record_at : Identity → ℕ → ResumeRecord
record_at i offset = record {
  relative_path = i.path;
  size = i.size;
  sha256 = i.sha256;
  offset = offset;
}

same_identity_self : (i : Identity) (offset : ℕ) → same_identity (record_at i offset) i ≡ true
unfolding same_identity
same_identity_self i offset =
    rw (same_bytes_self i.path, ==_refl i.size, same_bytes_self i.sha256) refl

same_identity_offset :
    (r : ResumeRecord) (offset : ℕ) (i : Identity)
    → same_identity (record r { offset = offset }) i ≡ same_identity r i
unfolding same_identity
same_identity_offset r offset i = refl

-- Each loop at a record of the identity and at another one.
module _ (r : ResumeRecord) (rs : List ResumeRecord) (i : Identity) where
  find_hit : same_identity r i ≡ true → r.offset ≤ i.size → find_record (r ∷ rs) i ≡ some r.offset
  unfolding find_record
  find_hit h le = rw (h, ltb_of_le i.size r.offset le) refl

  find_miss : same_identity r i ≡ false → find_record (r ∷ rs) i ≡ find_record rs i
  unfolding find_record
  find_miss h = rw h refl

  set_hit :
      (offset : ℕ)
      → same_identity r i ≡ true
      → set_offset (r ∷ rs) i offset ≡ (record r { offset = offset }) ∷ rs
  unfolding set_offset
  set_hit offset h = rw h refl

  set_miss :
      (offset : ℕ)
      → same_identity r i ≡ false
      → set_offset (r ∷ rs) i offset ≡ r ∷ set_offset rs i offset
  unfolding set_offset
  set_miss offset h = rw h refl

  without_hit : same_identity r i ≡ true → without (r ∷ rs) i ≡ without rs i
  unfolding without
  without_hit h = rw h refl

  without_miss : same_identity r i ≡ false → without (r ∷ rs) i ≡ r ∷ without rs i
  unfolding without
  without_miss h = rw h refl

find_head :
    (r : ResumeRecord) (rs others : List ResumeRecord) (i : Identity)
    → same_identity r i ≡ true
    → find_record (r ∷ rs) i ≡ find_record (r ∷ others) i
unfolding find_record
find_head r rs others i h = rw h refl

find_tail :
    (r : ResumeRecord) (rs others : List ResumeRecord) (i : Identity)
    → find_record rs i ≡ find_record others i
    → find_record (r ∷ rs) i ≡ find_record (r ∷ others) i
find_tail r rs others i h = elim (Bool-cases (same_identity r i)) [
  | inl hit ↦ find_head r rs others i hit
  | inr miss ↦ find_miss r rs i miss ∙ h ∙ sym (find_miss r others i miss)
]

-- An offset that was set is the one found, where it is at most the size.
pub find_record-set_offset :
    (rs : List ResumeRecord) (i : Identity) (offset : ℕ)
    → offset ≤ i.size
    → find_record (set_offset rs i offset) i ≡ some offset
find_record-set_offset [] i offset h =
    unfold set_offset in find_hit (record_at i offset) [] i (same_identity_self i offset) h
find_record-set_offset (r ∷ rs) i offset h = elim (Bool-cases (same_identity r i)) [
  | inl hit ↦
      rw (set_hit r rs i offset hit) (find_hit _ rs i (same_identity_offset r offset i ∙ hit) h)
  | inr miss ↦
      rw (set_miss r rs i offset miss, find_miss r (set_offset rs i offset) i miss)
        (find_record-set_offset rs i offset h)
]

-- Two identities with one record are the same.
unique_identity :
    (r : ResumeRecord) (i j : Identity)
    → same_identity r i ≡ true
    → i ≢ j
    → same_identity r j ≡ false
unique_identity r i j h ne = elim (Bool-cases (same_identity r j)) [
  | inl hit ↦ absurd (ne (sym (same_identity-eq r i h) ∙ same_identity-eq r j hit))
  | inr miss ↦ miss
]

-- What another identity finds is as before.
pub find_other-set_offset :
    (rs : List ResumeRecord) (i j : Identity) (offset : ℕ)
    → i ≢ j
    → find_record (set_offset rs i offset) j ≡ find_record rs j
find_other-set_offset [] i j offset ne =
    unfold set_offset find_record in
    find_miss (record_at i offset) [] j
      (unique_identity (record_at i offset) i j (same_identity_self i offset) ne)
find_other-set_offset (r ∷ rs) i j offset ne = elim (Bool-cases (same_identity r i)) [
  | inl hit ↦
      let miss = unique_identity r i j hit ne in
      rw (set_hit r rs i offset hit, find_miss r rs j miss)
        (find_miss _ rs j (same_identity_offset r offset j ∙ miss))
  | inr miss ↦
      rw (set_miss r rs i offset miss)
        (find_tail r (set_offset rs i offset) rs j (find_other-set_offset rs i j offset ne))
]

pub find_record-without :
    (rs : List ResumeRecord) (i : Identity) → find_record (without rs i) i ≡ none
find_record-without [] i = unfold without find_record in refl
find_record-without (r ∷ rs) i = elim (Bool-cases (same_identity r i)) [
  | inl hit ↦ rw (without_hit r rs i hit) (find_record-without rs i)
  | inr miss ↦
      rw (without_miss r rs i miss, find_miss r (without rs i) i miss) (find_record-without rs i)
]

pub find_other-without :
    (rs : List ResumeRecord) (i j : Identity)
    → i ≢ j
    → find_record (without rs i) j ≡ find_record rs j
find_other-without [] i j ne = unfold without in refl
find_other-without (r ∷ rs) i j ne = elim (Bool-cases (same_identity r i)) [
  | inl hit ↦
      rw (without_hit r rs i hit, find_miss r rs j (unique_identity r i j hit ne))
        (find_other-without rs i j ne)
  | inr miss ↦
      rw (without_miss r rs i miss) (find_tail r (without rs i) rs j (find_other-without rs i j ne))
]
