-- ===== src/Transfer/Receiver/Safety.antt =====
-- A file that the receiver reports as complete is on the disk, with the size and the hash that the
-- sender announced.
use beam_drop.Transfer.Chain.{Ensures, chain_then, chain_ok, chain_err, chain_mono}
use beam_drop.Prelude.{
  ℕ, zero, suc, ◌%◌, ◌^◌, ◌≤◌, ◌≡◌, refl, ◌∙◌, Bool, true, false, Option, some, Bytes, length, take,
  if◌then◌else◌, same_bytes_iff, same_bytes, Bool-cases, inl, inr, List, none, ◌≢◌,
}
use beam_drop.Errors.{Result, ok, err}
use beam_drop.Network.{Os}
use beam_drop.Protocol.{Packet}
use beam_drop.Protocol.PacketIo.{read_packet, write_packet}
use beam_drop.Payload.FileInfo.{FileInfo}
use beam_drop.Resume.{StateFile}
use beam_drop.Sha256.{sha256_hex}
use beam_drop.Transfer.Path.{place, above, safe_join}
use beam_drop.Transfer.Disk.{
  Disk, Entry, Grows, Grows-kept, make_directories-Grows, file, put, content_of, existing_file_size,
}
use beam_drop.Transfer.Receiver.{
  Side, Receiver, made, stored, create_directories, took, gave, next_packet, send_packet,
  keep_resume, receive_info,
}

-- The file at `path` is there, with `n` bytes, counted in 64 bits.
pub record HasFile {S : Type 0} (path : Bytes) (n : ℕ) (s : Side S) : Type 0 where
  pub content : Bytes
  pub on_disk : s.disk path ≡ some (file content)
  pub size_is : length content % 2 ^ 64 ≡ n % 2 ^ 64

module _ (os : Os) (handle : Option ℕ) (receiver : Receiver) where
  open os use {State, pending}

  -- The disk is as before.
  abbrev pub Same : {A : Type 0} → Side State → A → Side State → Type 0
  Same s a t = t.disk ≡ s.disk

  took_disk :
      (r : Result (Packet × State)) (s : Side State)
      → Ensures (Same s) (took os handle receiver r s)
  unfolding Ensures
  took_disk (ok (q, net)) s = refl
  took_disk (err e) s = tt

  pub next_packet_disk : (s : Side State) → Ensures (Same s) (next_packet os handle receiver s)
  unfolding next_packet
  next_packet_disk s = took_disk (read_packet os handle s.net) s

  gave_disk : (r : Result State) (s : Side State) → Ensures (Same s) (gave os handle receiver r s)
  unfolding Ensures
  gave_disk (ok net) s = refl
  gave_disk (err e) s = tt

  pub send_packet_disk :
      (p : Packet) (s : Side State) → Ensures (Same s) (send_packet os handle receiver p s)
  unfolding send_packet
  send_packet_disk p s = gave_disk (write_packet os handle p s.net) s

  pub made_disk :
      (d : Result Disk) (s : Side State)
      → Ensures (λ u t. d ≡ ok t.disk) (made os handle receiver d s)
  unfolding Ensures
  made_disk (ok d) s = refl
  made_disk (err e) s = tt

  -- Directories are made: what is at a place stays there.
  abbrev pub Grown : {A : Type 0} → List Bytes → Side State → A → Side State → Type 0
  Grown ps s a t = (q : Bytes) → Grows ps s.disk t.disk q

  pub create_directories-Grown :
      (ps : List Bytes) (s : Side State)
      → Ensures (Grown ps s) (create_directories os handle receiver ps s)
  unfolding create_directories
  create_directories-Grown ps s =
      chain_mono _ (Grown ps s) _
        (λ u t is q. make_directories-Grows s.can_make s.disk t.disk ps q is) (made_disk _ s)

  -- The place is not that of the state file, where there is one.
  abbrev pub Spares : Bytes → Type 0
  Spares path = receiver.enable_resume ≡ true → path ≢ place receiver.state_file

  pub stored_elsewhere :
      (o : Option Bytes) (d : Disk) (path : Bytes)
      → path ≢ place receiver.state_file
      → stored os handle receiver o d path ≡ d path
  stored_elsewhere none d path ne = refl
  stored_elsewhere (some text) d path ne =
      elim (Bool-cases (same_bytes path (place receiver.state_file))) [
        | inl same ↦ absurd (ne ((same_bytes_iff path (place receiver.state_file)).0 same))
        | inr apart ↦ rw apart refl
      ]

  -- An entry that is there stays, but for the state file.
  abbrev pub Leaves : {A : Type 0} → Bytes → Side State → A → Side State → Type 0
  Leaves path s a t = (entry : Entry) → s.disk path ≡ some entry → t.disk path ≡ some entry

  pub keep_resume_disk :
      (b : Bool) (r : Result StateFile) (path : Bytes) (s : Side State)
      → (b ≡ true → path ≢ place receiver.state_file)
      → Ensures (Leaves path s) (if b then keep_resume os handle receiver r s else (ok tt, s))
  keep_resume_disk true (ok f) path s spares =
      chain_then (Grown (above receiver.state_file) s) (Leaves path s) _ _
        (create_directories-Grown (above receiver.state_file) s)
        λ u t grown. chain_ok (Leaves path s) tt _ λ entry is.
          stored_elsewhere f.content t.disk path (spares refl)
          ∙ Grows-kept (above receiver.state_file) s.disk t.disk path entry (grown path) is
  keep_resume_disk true (err e) path s spares = chain_err (Leaves path s) e s
  keep_resume_disk false r path s spares = chain_ok (Leaves path s) tt s λ entry is. is

  module _ (info : FileInfo) (path : Bytes) (file_index file_count : ℕ) where
    abbrev Has : ℕ → Side State → Type 0
    Has n s = HasFile path n s

    -- The disk behind the cut.
    abbrev pub cut_disk : ℕ → Disk → Disk
    cut_disk zero d = d
    cut_disk (suc n) d = put d path (file (take (suc n) (content_of (d path))))

    -- The disk is as before, and the offset within the file on it.
    abbrev Trusted : Side State → ℕ → Side State → Type 0
    Trusted s offset t = (t.disk ≡ s.disk) × (offset ≤ existing_file_size s.disk path)

    -- The file is complete: all of it is there, and its hash is the announced one.
    abbrev pub IsWhole : {A : Type 0} → A → Side State → Type 0
    IsWhole u t =
        (content : Bytes) × (t.disk path ≡ some (file content))
        × (length content % 2 ^ 64 ≡ info.size % 2 ^ 64)
        × (sha256_hex content ≡ ok info.sha256)

  -- What `receive_one_file` leaves, of the file that its first packet announced.
  abbrev pub Complete : Bytes → Side State → Unit {0} → Side State → Type 0
  Complete save_dir s u t =
      (info : FileInfo) × (path : Bytes) × (s1 : Side State) × (receive_info os handle receiver s
        ≡ (ok info, s1))
      × (safe_join save_dir info.relative_path ≡ ok path)
      × IsWhole info (place path) 0 0 u t

  -- What the first packet announces is not the state file.
  abbrev pub Apart : Bytes → Side State → Type 0
  Apart save_dir s =
      (info : FileInfo) (path : Bytes) (s1 : Side State)
      → receive_info os handle receiver s ≡ (ok info, s1)
      → safe_join save_dir info.relative_path ≡ ok path
      → Spares (place path)
