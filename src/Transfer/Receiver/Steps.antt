-- ===== src/Transfer/Receiver/Steps.antt =====
-- The steps of `Receiver::receive_one_file` on a file that arrives: its announcement, the open output
-- file, and the tests at the end.
use beam_drop.Prelude.{
  ℕ, zero, suc, ◌||◌, ◌+◌, ◌^◌, ◌<◌, ◌≤◌, ◌≡◌, ◌≢◌, inl, inr, Bool-cases, refl, ap, sym, ◌∙◌, Bool,
  true, false, not, min, ◌&&◌, Option, some, List, [], ◌++◌, arith, Bytes, length, take, All,
  All-mono, ==_refl, same_bytes_self, if◌then◌else◌,
}
use beam_drop.Errors.{ok, transfer, file_open_failed, throw_if}
use beam_drop.Transfer.Path.{place}
use beam_drop.Network.{Os}
use beam_drop.Protocol.{make_packet, file_info, file_end, IsByte}
use beam_drop.Protocol.Codec
use beam_drop.Payload.FileInfo
use beam_drop.Payload.FileInfo.{FileInfo}
use beam_drop.Payload.FileInfo.RoundTrip.{decode-encode_info}
use beam_drop.Resume.{find_offset}
use beam_drop.Resume.Ready.{clear-IsReady}
use beam_drop.Sha256.{sha256_file, sha256_hex}
use beam_drop.Sha256.Hex.{IsHex, sha256_hex-IsHex}
use beam_drop.Sha256.Streaming.{sha256_file-sha256_hex}
use beam_drop.Transfer.Chain.{
  and_then, Yields, total_ok, total_guard, total_result, total_then, total_both, total_mono,
}
use beam_drop.Transfer.Disk.{
  Disk, Grows, Grows-apart, is_file, is_directory, size_of, put, file, exists, existing_file_size,
  content_of, put_same,
}
use beam_drop.Transfer.Wire.{wire, make_packet-IsWellFormed, encode_info-IsByte}
use beam_drop.Transfer.Receiver.{
  Side, Receiver, resume, state_of, cut_output, opened, identity_of, value_or,
  trusted_resume_offset, open_output, finish_file, receive_data, receive_info, receive_one_file,
}
use beam_drop.Transfer.Receiver.Total.{
  IsBroken, Works, Works-net, Works-put, Works-events, Works-grown, Announces, create_step,
  next_packet_step, send_packet_step, keep_step,
}

module _ (os : Os) (h : ℕ) (receiver : Receiver) where
  open os use {State, pending}

  -- Where the receiver goes on: the target is free or may be resumed, `offset` is what the receiver
  -- trusts, and up to there the file on the disk has the content. Neither the target nor the state
  -- file is among the places above the target, no file is among these, the target is no directory,
  -- and with resume on it is not the state file.
  pub record Begins (info : FileInfo) (ps : List Bytes) (path content : Bytes) (offset : ℕ)
      (s : Side State) : Type 0 where
    pub open_ways : All (λ p. is_file (s.disk p) ≡ false) ps
    pub target_apart : All (λ p. p ≢ path) ps
    pub state_apart : receiver.enable_resume ≡ true → All (λ p. p ≢ place receiver.state_file) ps
    pub spares : receiver.enable_resume ≡ true → path ≢ place receiver.state_file
    pub no_directory : is_directory (s.disk path) ≡ false
    pub free : (exists s.disk path && not receiver.enable_resume) ≡ false
    pub trusted :
        receiver.enable_resume ≡ true
        → (stored : Option ℕ) × (find_offset (resume os (some h) receiver s) (identity_of info)
            ≡ ok stored)
          × (offset ≡ min (min (value_or stored) (existing_file_size s.disk path)) info.size)
    pub from_start : receiver.enable_resume ≡ false → offset ≡ 0
    pub same_start : take offset (content_of (s.disk path)) ≡ take offset content

  -- The offset is within the file.
  pub offset-le :
      (info : FileInfo) (ps : List Bytes) (path content : Bytes) (offset : ℕ) (s : Side State)
      → Begins info ps path content offset s
      → info.size ≡ length content
      → offset ≤ length content
  offset-le info ps path content offset s b size = elim (Bool-cases receiver.enable_resume) [
    | inl on ↦ let (stored, found, offset_is) = b.trusted on in ground arith
    | inr off ↦ let zero_is = b.from_start off in omega arith
  ]

  -- The whole file is on the disk, and the stream is read up to `behind`.
  abbrev pub IsWhole : Bytes → Bytes → Bytes → Side State → Type 0
  IsWhole path content behind t =
      (t.disk path ≡ some (file content)) × (pending t.net ≡ behind) × Works os h receiver t

  module _ (info : FileInfo) (path content : Bytes) (file_index file_count : ℕ) where
    -- The cut and the opening, of a file that begins like the content.
    cut_step :
        (offset : ℕ) (v : Side State)
        → (receiver.enable_resume ≡ true → path ≢ place receiver.state_file)
        → is_directory (v.disk path) ≡ false
        → take offset (content_of (v.disk path)) ≡ take offset content
        → Works os h receiver v
        → Yields IsBroken
            (λ n t.
              (n ≡ offset)
              × (t.disk path ≡ some (file (take offset content)))
              × Works os h receiver t
              × (pending t.net ≡ pending v.net))
            (and_then
              (cut_output os (some h) receiver info path file_index file_count offset v)
              λ u s.
                and_then
                  (
                    throw_if
                        (not s.can_open || is_directory (s.disk path))
                        (transfer file_open_failed),
                    s,
                  )
                  λ u s. (
                    ok offset,
                    opened os (some h) receiver info path file_index file_count offset s,
                  ))
    unfolding cut_output
    cut_step zero v spares free same w =
        total_then IsBroken _ (λ u t. t ≡ v) _ _ (total_ok IsBroken (λ u t. t ≡ v) tt v refl)
          λ u t t_is. rw t_is (
            total_guard IsBroken _ _ _ v _ (rw (w.can_open, free) refl) (
              total_ok IsBroken _ 0 _ (
                refl,
                put_same v.disk path (file []),
                Works-put os h receiver v path [] spares free w,
                refl,
              )))
    cut_step (suc n) v spares free same w =
        let part = take (suc n) (content_of (v.disk path)) in
        let cut : Side State = record v { disk = put v.disk path (file part) } in
        let is : cut.disk path ≡ some (file part) = put_same v.disk path (file part) in
        let still : is_directory (cut.disk path) ≡ false = ap is_directory is in
        total_then IsBroken _ (λ u t. t ≡ cut) _ _
          (total_guard IsBroken _ _ _ v _ (rw w.can_cut refl)
            (total_ok IsBroken (λ u t. t ≡ cut) tt cut refl))
          λ u t t_is. rw t_is (
            total_guard IsBroken _ _ _ cut _ (rw (w.can_open, still) refl) (
              total_ok IsBroken _ (suc n) cut (
                refl,
                is ∙ ap (λ b. some (file b)) same,
                Works-put os h receiver v path part spares free w,
                refl,
              )))

    begin :
        (offset : ℕ) (on : Bool)
        → receiver.enable_resume ≡ on
        → (s : Side State)
        → (receiver.enable_resume ≡ true
            → (stored : Option ℕ) × (find_offset (resume os (some h) receiver s) (identity_of info)
                ≡ ok stored)
              × (offset ≡ min (min (value_or stored) (existing_file_size s.disk path)) info.size))
        → (receiver.enable_resume ≡ false → offset ≡ 0)
        → Yields IsBroken
            (λ n t. (n ≡ offset) × (t ≡ s))
            (if on then trusted_resume_offset os (some h) receiver info path s else (ok 0, s))
    begin offset true e s trusted start =
        let (stored, found, offset_is) = trusted e in
        unfold trusted_resume_offset beam_drop.Transfer.Chain.and_then in
        rw found (total_ok IsBroken (λ n t. (n ≡ offset) × (t ≡ s)) _ s (sym offset_is, refl))
    begin offset false e s trusted start =
        total_ok IsBroken (λ n t. (n ≡ offset) × (t ≡ s)) 0 s (sym (start e), refl)

    Begins-grown :
        (offset : ℕ) (ps : List Bytes) (s : Side State) (e : Disk)
        → ((q : Bytes) → Grows ps s.disk e q)
        → Begins info ps path content offset s
        → (e path ≡ s.disk path)
          × (receiver.enable_resume ≡ true
              → (stored : Option ℕ) × (find_offset
                    (resume os (some h) receiver (record s { disk = e }))
                    (identity_of info)
                  ≡ ok stored)
                × (offset ≡ min (min (value_or stored) (existing_file_size e path)) info.size))
    unfolding existing_file_size
    Begins-grown offset ps s e grown b =
        let here = Grows-apart ps s.disk e path (grown path) b.target_apart in
        (
          here,
          λ on.
              let (stored, found, offset_is) = b.trusted on in
              let at =
                Grows-apart ps s.disk e (place receiver.state_file)
                  (grown (place receiver.state_file)) (b.state_apart on) in
              (
                stored,
                ap (λ o. find_offset (state_of o s.access) (identity_of info)) at ∙ found,
                offset_is ∙ ap (λ o. min (min (value_or stored) (size_of o)) info.size) (sym here),
              ),
        )

    pub open_output_step :
        (offset : ℕ) (ps : List Bytes) (s : Side State)
        → Begins info ps path content offset s
        → Works os h receiver s
        → Yields IsBroken
            (λ n t.
              (n ≡ offset)
              × (t.disk path ≡ some (file (take offset content)))
              × Works os h receiver t
              × (pending t.net ≡ pending s.net))
            (open_output os (some h) receiver info path file_index file_count ps s)
    unfolding open_output
    open_output_step offset ps s b w =
        let Q = λ (n : ℕ) (t : Side State).
          (n ≡ offset)
          × (t.disk path ≡ some (file (take offset content)))
          × Works os h receiver t
          × (pending t.net ≡ pending s.net) in
        total_guard IsBroken Q _ _ s _ b.free (
          create_step os h receiver Q ps s _ b.open_ways w.can_make λ e grown.
            let r : Side State = record s { disk = e } in
            let (here, trusted) = Begins-grown offset ps s e grown b in
            let works = Works-grown os h receiver s e ps grown b.state_apart w in
            total_then IsBroken Q (λ n t. (n ≡ offset) × (t ≡ r)) _ _
              (begin offset receiver.enable_resume refl r trusted b.from_start)
              λ n t (n_is, t_is).
                rw (n_is, t_is)
                  (send_packet_step os h receiver Q _ r _ λ x kept.
                    total_mono IsBroken _ Q _
                      (λ n t (n_is, at, works, left). (n_is, at, works, left ∙ kept))
                      (cut_step offset (record r { net = x }) b.spares
                        (ap is_directory here ∙ b.no_directory)
                        (ap (λ o. take offset (content_of o)) here ∙ b.same_start)
                        (Works-net os h receiver r x works))))

    pub finish_file_step :
        (behind : Bytes) (s : Side State)
        → (receiver.enable_resume ≡ true → path ≢ place receiver.state_file)
        → info.size ≡ length content
        → sha256_hex content ≡ ok info.sha256
        → s.disk path ≡ some (file content)
        → Works os h receiver s
        → pending s.net ≡ behind
        → Yields IsBroken
            (λ u t. IsWhole path content behind t)
            (finish_file os (some h) receiver info path file_index file_count (length content) s)
    unfolding finish_file beam_drop.Transfer.Receiver.report
    finish_file_step behind s spares size hash held w left =
        let Q = λ (u : Unit {0}) (t : Side State). IsWhole path content behind t in
        let right_hash =
          ap (λ o. sha256_file 1048576 (content_of o)) held
          ∙ sha256_file-sha256_hex 1048576 content (omega arith)
          ∙ hash in
        total_guard IsBroken Q _ _ s _ (rw w.can_close refl) (
          total_guard IsBroken Q _ _ s _ (rw (size, ==_refl (length content)) refl) (
            total_result IsBroken Q _ info.sha256 s _ right_hash (
              total_guard IsBroken Q _ _ s _ (rw (same_bytes_self info.sha256) refl) (
                keep_step os h receiver Q receiver.enable_resume _ s _ refl w
                  (λ e.
                    clear-IsReady (resume os (some h) receiver s) (identity_of info) (w.is_ready e))
                  λ d works kept. total_ok IsBroken Q tt _ (
                    kept path spares ∙ held,
                    left,
                    Works-events os h receiver (record s { disk = d }) _ works,
                  )))))

  -- What arrives for a file: FILE_INFO, the chunks, FILE_END, and then `behind`.
  abbrev pub arriving : FileInfo → List Bytes → Bytes → Bytes
  arriving info chunks behind =
      Codec.encode (make_packet file_info (FileInfo.encode info))
      ++ (wire chunks ++ (Codec.encode (make_packet file_end []) ++ behind))

  -- A sender's announcement that can be read back, with its hash.
  pub record Honest (info : FileInfo) (content : Bytes) : Type 0 where
    pub announces : Announces os h receiver info content
    pub hash_is : sha256_hex content ≡ ok info.sha256
    pub path_ne : info.relative_path ≢ []
    pub path_bytes : All IsByte info.relative_path
    pub info_fits : 52 + length (FileInfo.encode info) < 2 ^ 64

  pub receive_info_step :
      (info : FileInfo) (content : Bytes) (behind : Bytes) (s : Side State)
      → Honest info content
      → pending s.net ≡ Codec.encode (make_packet file_info (FileInfo.encode info)) ++ behind
      → Works os h receiver s
      → Yields IsBroken
          (λ i t.
            (i ≡ info)
            × (pending t.net ≡ behind)
            × Works os h receiver t
            × (x : State) × (t ≡ record s { net = x }))
          (receive_info os (some h) receiver s)
  unfolding receive_info beam_drop.Transfer.Chain.and_then
  receive_info_step info content behind s honest stream w =
      let Q = λ (i : FileInfo) (t : Side State).
        (i ≡ info)
        × (pending t.net ≡ behind)
        × Works os h receiver t
        × (x : State) × (t ≡ record s { net = x }) in
      let (hex, sha_ne) = sha256_hex-IsHex content info.sha256 honest.hash_is in
      let fits = honest.announces.size_fits in
      let size = honest.announces.size_is in
      next_packet_step os h receiver Q (make_packet file_info (FileInfo.encode info)) behind s _
        (make_packet-IsWellFormed file_info (FileInfo.encode info) honest.info_fits (
          encode_info-IsByte info honest.path_bytes
            (All-mono IsHex IsByte (λ c x. ground arith) info.sha256 hex)))
        stream
        λ x left. rw (decode-encode_info info honest.path_ne sha_ne (omega arith)) (
          total_ok IsBroken Q info (record s { net = x })
            (refl, left, Works-net os h receiver s x w, x, refl))
