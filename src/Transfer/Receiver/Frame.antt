-- ===== src/Transfer/Receiver/Frame.antt =====
-- A file is received into its own place: what else is on the disk stays, and only directories come.
use mathlib.Core.Path.{subst}
use beam_drop.Prelude.{
  ℕ, zero, suc, ◌≡◌, ◌≢◌, refl, ap, ◌∙◌, inl, Bool, true, false, Option, List, [], ◌++◌, Bytes,
  if◌then◌else◌,
}
use beam_drop.Errors.{Result, ok, err}
use beam_drop.Network.{Os}
use beam_drop.Payload.FileInfo.{FileInfo}
use beam_drop.Resume.{StateFile}
use beam_drop.Transfer.Chain.{
  Ensures, chain_then, chain_guard, chain_ok, chain_err, chain_if, chain_result, chain_mono,
}
use beam_drop.Transfer.Disk.{
  Disk, Entry, file, put, content_of, Grows, Grows-trans, Grows-left, Grows-right, put_elsewhere,
}
use beam_drop.Transfer.Path.{place, above}
use beam_drop.Transfer.Receiver.{
  Side, Receiver, trusted_resume_offset, keep_resume, stored, cut_output, opened, report,
  open_output, take_data, receive_data, finish_file,
}
use beam_drop.Transfer.Receiver.Safety.{
  Same, next_packet_disk, send_packet_disk, Grown, create_directories-Grown, stored_elsewhere,
}

-- The directories above the state file, which `save` makes.
abbrev pub state_ways : Receiver → List Bytes
state_ways receiver = if receiver.enable_resume then above receiver.state_file else []

-- At every place but these two, the disks have the same, except that directories may have come where
-- nothing was, at the places on the way to the two: `path`, and the state file with resume on.
abbrev pub Elsewhere : Receiver → List Bytes → Bytes → Disk → Disk → Type 0
Elsewhere receiver ps path d e =
    (other : Bytes)
    → other ≢ path
    → (receiver.enable_resume ≡ true → other ≢ place receiver.state_file)
    → Grows (ps ++ state_ways receiver) d e other

module _ (os : Os) (handle : Option ℕ) (receiver : Receiver) (info : FileInfo) (ps : List Bytes)
    (path : Bytes) (file_index file_count : ℕ) where
  open os use {State}

  abbrev Apart : Disk → Disk → Type 0
  Apart d e = Elsewhere receiver ps path d e

  pub Elsewhere-trans : (d e f : Disk) → Apart d e → Apart e f → Apart d f
  Elsewhere-trans d e f p q other ne spares =
      Grows-trans (ps ++ state_ways receiver) d e f other (p other ne spares) (q other ne spares)

  pub Elsewhere-same : (d e : Disk) → e ≡ d → Apart d e
  Elsewhere-same d e same other ne spares = inl (ap (λ f. f other) same)

  put-Elsewhere : (d : Disk) (entry : Entry) → Apart d (put d path entry)
  put-Elsewhere d entry other ne spares = inl (put_elsewhere d path other entry ne)

  abbrev pub Keeps : {A : Type 0} → Side State → A → Side State → Type 0
  Keeps s a t = Apart s.disk t.disk

  keep_resume-Keeps :
      (b : Bool) (r : Result StateFile) (s : Side State)
      → receiver.enable_resume ≡ b
      → Ensures (Keeps s) (if b then keep_resume os handle receiver r s else (ok tt, s))
  keep_resume-Keeps true (ok f) s on =
      chain_then (Grown os handle receiver (above receiver.state_file) s) (Keeps s) _ _
        (create_directories-Grown os handle receiver (above receiver.state_file) s)
        λ u t grown. chain_ok (Keeps s) tt _ λ other ne spares.
          let after : Disk = stored os handle receiver f.content t.disk in
          let there = stored_elsewhere os handle receiver f.content t.disk other (spares on) in
          let ways : above receiver.state_file ≡ state_ways receiver = rw on refl in
          Grows-right ps (state_ways receiver) s.disk after other (
            subst (λ w. Grows w s.disk after other) ways
              (Grows-trans (above receiver.state_file) s.disk t.disk after other (grown other)
                (inl there)))
  keep_resume-Keeps true (err e) s on = chain_err (Keeps s) e s
  keep_resume-Keeps false r s on = chain_ok (Keeps s) tt s (Elsewhere-same s.disk s.disk refl)

  cut_output-Keeps :
      (offset : ℕ) (s : Side State)
      → Ensures (Keeps s) (cut_output os handle receiver info path file_index file_count offset s)
  unfolding cut_output
  cut_output-Keeps zero s = chain_ok (Keeps s) tt s (Elsewhere-same s.disk s.disk refl)
  cut_output-Keeps (suc n) s =
      chain_guard (Keeps s) _ _ s _ λ can. chain_ok (Keeps s) tt _ (put-Elsewhere s.disk _)

  opened-Keeps :
      (offset : ℕ) (s : Side State)
      → Apart s.disk (opened os handle receiver info path file_index file_count offset s).disk
  opened-Keeps zero s = put-Elsewhere s.disk _
  opened-Keeps (suc n) s = Elsewhere-same s.disk s.disk refl

  pub open_output-Keeps :
      (s : Side State)
      → Ensures (Keeps s) (open_output os handle receiver info path file_index file_count ps s)
  unfolding open_output trusted_resume_offset
  open_output-Keeps s = chain_guard (Keeps s) _ _ s _ λ free.
      chain_then (Grown os handle receiver ps s) (Keeps s) _ _
        (create_directories-Grown os handle receiver ps s)
        λ u r grown.
          chain_then (Same os handle receiver r) (Keeps s) _ _
            (chain_if (Same os handle receiver r) receiver.enable_resume _ _
              (chain_result (Same os handle receiver r) _ r _
                λ stored found. chain_ok (Same os handle receiver r) _ r refl)
              (chain_ok (Same os handle receiver r) 0 r refl))
            λ offset t same.
              chain_then (Same os handle receiver t) (Keeps s) _ _
                (send_packet_disk os handle receiver _ t)
                λ u v same'.
                  chain_then (Keeps v) (Keeps s) _ _ (cut_output-Keeps offset v) λ u w cut.
                    chain_guard (Keeps s) _ _ w _ λ can_open. chain_ok (Keeps s) offset _ (
                      Elsewhere-trans s.disk r.disk _
                        (λ other ne spares.
                          Grows-left ps (state_ways receiver) s.disk r.disk other (grown other))
                        (Elsewhere-trans r.disk v.disk _
                          (Elsewhere-same r.disk v.disk (same' ∙ same))
                          (Elsewhere-trans v.disk w.disk _ cut (opened-Keeps offset w))))

  take_data-Keeps :
      (payload : Bytes) (received : ℕ) (s : Side State)
      → Ensures
          (Keeps s)
          (take_data os handle receiver info path file_index file_count payload received s)
  unfolding take_data report
  take_data-Keeps payload received s =
      let entry = file (content_of (s.disk path) ++ payload) in
      let written : Side State = record s { disk = put s.disk path entry } in
      chain_guard (Keeps s) _ _ s _ λ fits. chain_guard (Keeps s) _ _ s _ λ can.
        chain_then (Keeps written) (Keeps s) _ _
          (keep_resume-Keeps receiver.enable_resume _ written refl)
          λ u t kept.
            chain_ok (Keeps s) _ _
              (Elsewhere-trans s.disk written.disk t.disk (put-Elsewhere s.disk entry) kept)

  pub receive_data-Keeps :
      (fuel received : ℕ) (s : Side State)
      → Ensures
          (Keeps s)
          (receive_data os handle receiver info path file_index file_count fuel received s)
  unfolding receive_data
  receive_data-Keeps zero received s = chain_err (Keeps s) _ s
  receive_data-Keeps (suc fuel) received s =
      chain_then (Same os handle receiver s) (Keeps s) _ _ (next_packet_disk os handle receiver s)
        λ p t same.
          let here = Elsewhere-same s.disk t.disk same in
          chain_if (Keeps s) _ _ _ (chain_ok (Keeps s) _ t here) (
            chain_if (Keeps s) _ _ _ (chain_err (Keeps s) _ t) (
              chain_then (Keeps t) (Keeps s) _ _ (take_data-Keeps p.payload received t) λ n u kept.
                chain_mono (Keeps u) (Keeps s) _
                  (λ m v kept'.
                    Elsewhere-trans s.disk t.disk v.disk here
                      (Elsewhere-trans t.disk u.disk v.disk kept kept'))
                  (receive_data-Keeps fuel n u)))

  pub finish_file-Keeps :
      (received : ℕ) (s : Side State)
      → Ensures
          (Keeps s)
          (finish_file os handle receiver info path file_index file_count received s)
  unfolding finish_file report
  finish_file-Keeps received s = chain_guard (Keeps s) _ _ s _ λ closed.
      chain_guard (Keeps s) _ _ s _ λ size. chain_result (Keeps s) _ s _ λ hash hashed.
        chain_guard (Keeps s) _ _ s _ λ right.
          chain_then (Keeps s) (Keeps s) _ _ (keep_resume-Keeps receiver.enable_resume _ s refl)
            λ u t kept. chain_ok (Keeps s) tt _ kept
