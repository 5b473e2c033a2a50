-- ===== src/Transfer/Receiver/Total.antt =====
-- The receiver takes what a sender puts on the wire, and ends with the file, unless a call of the
-- system on the connection fails.
use mathlib.Core.Path.{subst}
use beam_drop.Prelude.{
  ℕ, zero, suc, ◌+◌, ◌%◌, ◌^◌, ◌≤◌, ◌<◌, ◌≡◌, ◌⊎◌, ◌≢◌, none, Option, inl, inr, refl, ap, sym, ◌∙◌,
  Bool, true, false, ◌&&◌, some, List, [], ◌∷◌, ◌++◌, append_assoc, append-nil, arith, Bytes,
  length, length-append, All, All-left, All-right, All-mono, ltb, if◌then◌else◌,
}
use beam_drop.Errors.{Result, ok, Exception, network, receive_failed, send_failed}
use beam_drop.Network.{Os}
use beam_drop.Network.Stream.Writing.{Writes, write_all_lem}
use beam_drop.Protocol.{Packet, make_packet, data_chunk, file_end, IsWellFormed, IsByte}
use beam_drop.Protocol.Codec
use beam_drop.Protocol.PacketIo.{read_packet, write_packet}
use beam_drop.Protocol.PacketIo.RoundTrip.{received, Receives, read_packet-encode}
use beam_drop.Payload.FileInfo.{FileInfo}
use beam_drop.Resume.{ResumeRecord, StateFile, state_text, update_offset}
use beam_drop.Resume.Ready.{IsReady, saved, update_offset-IsReady}
use beam_drop.Resume.RoundTrip.{IsStored}
use beam_drop.Resume.Lifecycle.{offset-IsStored}
use beam_drop.Resume.Offsets.{record_at}
use beam_drop.Transfer.Chain.{
  Outcome, and_then, Yields, total_ok, total_guard, total_fails, total_then,
}
use beam_drop.Transfer.Disk.{
  Disk, Entry, file, directory, put, is_directory, content_of, put_same, put_elsewhere,
  put-directories, make_directories_same, make_directories, make_directories_total,
  make_directories-Grows, Grows, Grows-apart, Grows-kept, is_file,
}
use beam_drop.Transfer.Progress.{ProgressEvent}
use beam_drop.Transfer.Path.{place, above}
use beam_drop.Transfer.Wire.{wire, concat, make_packet-IsWellFormed}
use beam_drop.Transfer.Receiver.Fuel.{encode_pos}
use beam_drop.Transfer.Receiver.{
  Side, Receiver, Access, state_of, resume, made, create_directories, identity_of, took, gave,
  next_packet, send_packet, keep_resume, report, take_data, receive_data,
}

abbrev pub IsBroken : Exception → Type 0
IsBroken e = (e ≡ network receive_failed) ⊎ (e ≡ network send_failed)

and_false : (b : Bool) → (b && false) ≡ false
and_false true = refl
and_false false = refl

module _ (os : Os) (h : ℕ) (receiver : Receiver) where
  open os use {State, pending}

  -- One step each, with what follows it.
  module _ {B : Type 0} (Q : B → Side State → Type 0) where
    took_step :
        (q : Packet) (behind : Bytes) (r : Result (Packet × State)) (s : Side State)
        (rest : Packet → Side State → Outcome (Side State) B)
        → Receives os q behind r
        → ((x : State) → pending x ≡ behind → Yields IsBroken Q (rest q (record s { net = x })))
        → Yields IsBroken Q (and_then (took os (some h) receiver r s) rest)
    took_step q behind r s rest (inl (x, is_ok, left)) k =
        subst (λ r. Yields IsBroken Q (and_then (took os (some h) receiver r s) rest)) (sym is_ok)
          (unfold and_then in k x left)
    took_step q behind r s rest (inr failed) k =
        subst (λ r. Yields IsBroken Q (and_then (took os (some h) receiver r s) rest)) (sym failed)
          (total_fails IsBroken Q _ s rest (inl refl))

    pub next_packet_step :
        (q : Packet) (behind : Bytes) (s : Side State)
        (rest : Packet → Side State → Outcome (Side State) B)
        → IsWellFormed q
        → pending s.net ≡ Codec.encode q ++ behind
        → ((x : State)
            → pending x ≡ behind
            → Yields IsBroken Q (rest (received q) (record s { net = x })))
        → Yields IsBroken Q (and_then (next_packet os (some h) receiver s) rest)
    unfolding next_packet
    next_packet_step q behind s rest w e k =
        took_step (received q) behind (read_packet os (some h) s.net) s rest
          (read_packet-encode os h q behind s.net w e) k

    gave_step :
        (bytes : Bytes) (r : Result State) (s : Side State)
        (rest : Unit {0} → Side State → Outcome (Side State) B)
        → Writes os bytes s.net r
        → ((x : State)
            → pending x ≡ pending s.net
            → Yields IsBroken Q (rest tt (record s { net = x })))
        → Yields IsBroken Q (and_then (gave os (some h) receiver r s) rest)
    gave_step bytes r s rest (inl (x, is_ok, w)) k =
        subst (λ r. Yields IsBroken Q (and_then (gave os (some h) receiver r s) rest)) (sym is_ok)
          (unfold and_then in k x w.pending_kept)
    gave_step bytes r s rest (inr failed) k =
        subst (λ r. Yields IsBroken Q (and_then (gave os (some h) receiver r s) rest)) (sym failed)
          (total_fails IsBroken Q _ s rest (inr refl))

    pub send_packet_step :
        (p : Packet) (s : Side State) (rest : Unit {0} → Side State → Outcome (Side State) B)
        → ((x : State)
            → pending x ≡ pending s.net
            → Yields IsBroken Q (rest tt (record s { net = x })))
        → Yields IsBroken Q (and_then (send_packet os (some h) receiver p s) rest)
    unfolding send_packet write_packet
    send_packet_step p s rest k =
        gave_step (Codec.encode p) _ s rest (write_all_lem os h (Codec.encode p) s.net) k

  -- A side on which nothing fails but the connection; with resume on, the directories above the state
  -- file are there.
  pub record Works (s : Side State) : Type 0 where
    pub can_make : s.can_make ≡ true
    pub can_cut : s.can_cut ≡ true
    pub can_open : s.can_open ≡ true
    pub can_write : (n : ℕ) → s.can_write n ≡ true
    pub can_close : s.can_close ≡ true
    pub is_ready : receiver.enable_resume ≡ true → IsReady (resume os (some h) receiver s)
    pub ways :
        receiver.enable_resume ≡ true
        → All (λ p. s.disk p ≡ some directory) (above receiver.state_file)

  pub Works-net : (s : Side State) (x : State) → Works s → Works (record s { net = x })
  Works-net s x w = record {
    can_make = w.can_make;
    can_cut = w.can_cut;
    can_open = w.can_open;
    can_write = w.can_write;
    can_close = w.can_close;
    is_ready = w.is_ready;
    ways = w.ways;
  }

  pub Works-events :
      (s : Side State) (es : List ProgressEvent) → Works s → Works (record s { events = es })
  Works-events s es w = record {
    can_make = w.can_make;
    can_cut = w.can_cut;
    can_open = w.can_open;
    can_write = w.can_write;
    can_close = w.can_close;
    is_ready = w.is_ready;
    ways = w.ways;
  }

  -- A new disk, with the state file as it was.
  pub Works-disk :
      (s : Side State) (d : Disk)
      → (receiver.enable_resume ≡ true
          → d (place receiver.state_file) ≡ s.disk (place receiver.state_file))
      → (receiver.enable_resume ≡ true
          → All (λ p. d p ≡ some directory) (above receiver.state_file))
      → Works s
      → Works (record s { disk = d })
  Works-disk s d same ways w = record {
    can_make = w.can_make;
    can_cut = w.can_cut;
    can_open = w.can_open;
    can_write = w.can_write;
    can_close = w.can_close;
    is_ready = λ on. subst (λ o. IsReady (state_of o s.access)) (sym (same on)) (w.is_ready on);
    ways = ways;
  }

  -- A file is put at a place that is not the state file's.
  pub Works-put :
      (s : Side State) (path content : Bytes)
      → (receiver.enable_resume ≡ true → path ≢ place receiver.state_file)
      → is_directory (s.disk path) ≡ false
      → Works s
      → Works (record s { disk = put s.disk path (file content) })
  Works-put s path content spares free w =
      Works-disk s (put s.disk path (file content))
        (λ on.
          put_elsewhere s.disk path (place receiver.state_file) (file content)
            (λ e. spares on (sym e)))
        (λ on. put-directories s.disk path content (above receiver.state_file) free (w.ways on)) w

  -- Directories come, and the state file is not at their places.
  pub Works-grown :
      (s : Side State) (e : Disk) (ps : List Bytes)
      → ((q : Bytes) → Grows ps s.disk e q)
      → (receiver.enable_resume ≡ true → All (λ p. p ≢ place receiver.state_file) ps)
      → Works s
      → Works (record s { disk = e })
  Works-grown s e ps grown apart w =
      Works-disk s e
        (λ on.
          Grows-apart ps s.disk e (place receiver.state_file) (grown (place receiver.state_file))
            (apart on))
        (λ on.
          All-mono (λ p. s.disk p ≡ some directory) (λ p. e p ≡ some directory)
            (λ p is. Grows-kept ps s.disk e p directory (grown p) is) (above receiver.state_file)
            (w.ways on))
        w

  saved_at :
      (o : Option Entry) (a : Access) (rs : List ResumeRecord)
      → IsReady (state_of o a)
      → (is_directory o ≡ false)
        × (saved (state_of o a) rs ≡ state_of (some (file (state_text rs))) a)
  saved_at none a rs ready = (refl, refl)
  saved_at (some (file text)) a rs ready = (refl, refl)
  saved_at (some directory) a rs ready = absurd (cc ready.is_readable)

  -- A call of the resume manager that succeeds, if there is one at all.
  module _ {B : Type 0} (Q : B → Side State → Type 0) where
    -- Directories are made, where no file is on the way.
    pub create_step :
        (ps : List Bytes) (s : Side State) (rest : Unit {0} → Side State → Outcome (Side State) B)
        → All (λ p. is_file (s.disk p) ≡ false) ps
        → s.can_make ≡ true
        → ((e : Disk)
            → ((q : Bytes) → Grows ps s.disk e q)
            → Yields IsBroken Q (rest tt (record s { disk = e })))
        → Yields IsBroken Q (and_then (create_directories os (some h) receiver ps s) rest)
    unfolding create_directories
    create_step ps s rest clear_ways can k =
        let (e, is_ok) = make_directories_total s.disk ps clear_ways in
        let made_is : make_directories s.can_make s.disk ps ≡ ok e =
          ap (λ b. make_directories b s.disk ps) can ∙ is_ok in
        subst (λ d. Yields IsBroken Q (and_then (made os (some h) receiver d s) rest)) (sym made_is)
          (unfold and_then in k e (λ q. make_directories-Grows s.can_make s.disk e ps q made_is))

    pub keep_step :
        (b : Bool) (r : Result StateFile) (s : Side State)
        (rest : Unit {0} → Side State → Outcome (Side State) B)
        → receiver.enable_resume ≡ b
        → Works s
        → (b ≡ true
            → (rs : List ResumeRecord) × (r ≡ ok (saved (resume os (some h) receiver s) rs))
              × IsReady (saved (resume os (some h) receiver s) rs))
        → ((d : Disk)
            → Works (record s { disk = d })
            → ((other : Bytes)
                → (receiver.enable_resume ≡ true → other ≢ place receiver.state_file)
                → d other ≡ s.disk other)
            → Yields IsBroken Q (rest tt (record s { disk = d })))
        → Yields IsBroken Q
            (and_then (if b then keep_resume os (some h) receiver r s else (ok tt, s)) rest)
    keep_step true r s rest on w g k =
        let (rs, is_ok, ready) = g refl in
        let at = place receiver.state_file in
        let after : Disk = put s.disk at (file (state_text rs)) in
        let (free, same) = saved_at (s.disk at) s.access rs (w.is_ready on) in
        let done : create_directories os (some h) receiver (above receiver.state_file) s
            ≡ (ok tt, s) =
          unfold create_directories in
          ap (λ d. made os (some h) receiver d s)
            (make_directories_same s.can_make s.disk (above receiver.state_file) (w.ways on)) in
        subst (λ r. Yields IsBroken Q (and_then (keep_resume os (some h) receiver r s) rest))
          (sym is_ok)
          (unfold and_then in
            rw done (
              k after
                (record {
                  can_make = w.can_make;
                  can_cut = w.can_cut;
                  can_open = w.can_open;
                  can_write = w.can_write;
                  can_close = w.can_close;
                  is_ready = λ e.
                      subst IsReady
                        (same
                          ∙ ap (λ o. state_of o s.access)
                              (sym (put_same s.disk at (file (state_text rs)))))
                        ready;
                  ways = λ e.
                      put-directories s.disk at (state_text rs) (above receiver.state_file) free
                        (w.ways on);
                })
                (λ other ne. put_elsewhere s.disk at other (file (state_text rs)) (ne on))))
    keep_step false r s rest on w g k =
        unfold and_then in k s.disk (Works-disk s s.disk (λ e. refl) w.ways w) (λ other ne. refl)

  -- What a sender of `content` announced.
  pub record Announces (info : FileInfo) (content : Bytes) : Type 0 where
    pub size_is : info.size ≡ length content
    pub size_fits : 52 + length content < 2 ^ 64
    pub bytes : All IsByte content
    pub storable : receiver.enable_resume ≡ true → IsStored (record_at (identity_of info) 0)

  module _ (info : FileInfo) (path content : Bytes) (file_index file_count : ℕ)
      (a : Announces info content)
      (spares : receiver.enable_resume ≡ true → path ≢ place receiver.state_file) where
    -- The part of the content that is on the disk.
    abbrev pub Holds : Bytes → Side State → Type 0
    Holds part s = s.disk path ≡ some (file part)

    can_note :
        (n : ℕ)
        → n ≤ length content
        → (s : Side State) → Works s
        → receiver.enable_resume ≡ true
        → (rs : List ResumeRecord) × (update_offset
              (resume os (some h) receiver s)
              (identity_of info)
              n
            ≡ ok (saved (resume os (some h) receiver s) rs))
          × IsReady (saved (resume os (some h) receiver s) rs)
    can_note n le s w e =
        let fits = a.size_fits in
        let size = a.size_is in
        update_offset-IsReady (resume os (some h) receiver s) (identity_of info) n (w.is_ready e)
          (offset-IsStored (record_at (identity_of info) 0) n (omega arith) (a.storable e))
          (omega arith)

    take_data_step :
        (chunk part later : Bytes) (s : Side State)
        → part ++ (chunk ++ later) ≡ content
        → Holds part s
        → Works s
        → Yields IsBroken
            (λ n t.
              (n ≡ length (part ++ chunk)) × Holds (part ++ chunk) t × Works t × (t.net ≡ s.net))
            (take_data os (some h) receiver info path file_index file_count chunk (length part) s)
    unfolding take_data report
    take_data_step chunk part later s whole held w =
        let all = ap (λ b. length b) whole in
        let outer = length-append part (chunk ++ later) in
        let inner = length-append chunk later in
        let joined = length-append part chunk in
        let fits = a.size_fits in
        let size = a.size_is in
        let n : (length part + length chunk) % 2 ^ 64 ≡ length (part ++ chunk) = omega arith in
        let small : ltb info.size (length (part ++ chunk)) ≡ false = ground arith in
        let Q = λ (n : ℕ) (t : Side State).
          (n ≡ length (part ++ chunk)) × Holds (part ++ chunk) t × Works t × (t.net ≡ s.net) in
        let on_disk =
          put_same s.disk path (file (content_of (s.disk path) ++ chunk))
          ∙ ap (λ o. some (file (content_of o ++ chunk))) held in
        let written : Side State = record s {
          disk = put s.disk path (file (content_of (s.disk path) ++ chunk));
        } in
        let works : Works written = Works-put s path _ spares (rw held refl) w in
        rw n (
          total_guard IsBroken Q _ _ s _ small (
            total_guard IsBroken Q _ _ s _ (rw (w.can_write (length (part ++ chunk))) (and_false _))
              (keep_step Q receiver.enable_resume _ written _ refl works
                (λ e. can_note (length (part ++ chunk)) (omega arith) written works e)
                (λ d works' kept. total_ok IsBroken Q (length (part ++ chunk)) _ (
                  refl,
                  kept path spares ∙ on_disk,
                  Works-events (record written { disk = d }) _ works',
                  refl,
                )))))

    -- The loop over what a sender sent in chunks.
    pub receive_data_step :
        (chunks : List Bytes) (part behind : Bytes) (fuel : ℕ) (s : Side State)
        → part ++ concat chunks ≡ content
        → Holds part s
        → Works s
        → pending s.net ≡ wire chunks ++ (Codec.encode (make_packet file_end []) ++ behind)
        → length (pending s.net) < fuel
        → Yields IsBroken
            (λ n t. (n ≡ length content) × Holds content t × Works t × (pending t.net ≡ behind))
            (receive_data os (some h) receiver info path file_index file_count fuel (length part) s)
    unfolding receive_data
    receive_data_step chunks part behind zero s whole held w stream enough = absurd (omega arith)
    receive_data_step [] part behind (suc fuel) s whole held w stream enough =
        let Q = λ (n : ℕ) (t : Side State).
          (n ≡ length content) × Holds content t × Works t × (pending t.net ≡ behind) in
        let same : part ≡ content = sym (append-nil part) ∙ unfold concat in whole in
        next_packet_step Q (make_packet file_end []) behind s _
          (make_packet-IsWellFormed file_end [] (omega arith) tt) (unfold wire in stream)
          λ x left.
            total_ok IsBroken Q (length part) (record s { net = x })
              (ap (λ b. length b) same, held ∙ ap (λ b. some (file b)) same, Works-net s x w, left)
    receive_data_step (chunk ∷ chunks) part behind (suc fuel) s whole held w stream enough =
        let Q = λ (n : ℕ) (t : Side State).
          (n ≡ length content) × Holds content t × Works t × (pending t.net ≡ behind) in
        let ends = Codec.encode (make_packet file_end []) ++ behind in
        let packet = Codec.encode (make_packet data_chunk chunk) in
        let here : part ++ (chunk ++ concat chunks) ≡ content = unfold concat in whole in
        let stream' : pending s.net ≡ packet ++ (wire chunks ++ ends) =
          unfold wire in stream ∙ append_assoc packet (wire chunks) ends in
        next_packet_step Q (make_packet data_chunk chunk) (wire chunks ++ ends) s _
          (chunk_wf chunk part (concat chunks) here) stream'
          λ x left.
            total_then IsBroken Q _ _ _
              (take_data_step chunk part (concat chunks) (record s { net = x }) here held
                (Works-net s x w))
              λ n t (n_is, held', works, net_is).
                let left' = ap (λ y. pending y) net_is ∙ left in
                let size0 = ap (λ b. length b) stream' in
                let sum = length-append packet (wire chunks ++ ends) in
                let size' = ap (λ b. length b) left' in
                let pos = encode_pos (make_packet data_chunk chunk) in
                rw n_is (
                  receive_data_step chunks (part ++ chunk) behind fuel t
                    (append_assoc part chunk (concat chunks) ∙ here) held' works left'
                    (omega arith))
      where
        chunk_wf :
            (chunk part later : Bytes)
            → part ++ (chunk ++ later) ≡ content
            → IsWellFormed (make_packet data_chunk chunk)
        chunk_wf chunk part later e =
            let fits = a.size_fits in
            let all = ap (λ b. length b) e in
            let outer = length-append part (chunk ++ later) in
            let inner = length-append chunk later in
            make_packet-IsWellFormed data_chunk chunk (omega arith) (
              All-left IsByte chunk later (
                All-right IsByte part (chunk ++ later) (subst (λ b. All IsByte b) (sym e) a.bytes)))
