-- ===== src/Transfer/Task/Directories.antt =====
-- The directories of a task.
use mathlib.Core.Path.{subst}
use beam_drop.Prelude.{
  ℕ, inl, ap, true, ◌≡◌, refl, sym, ◌∙◌, false, none, some, List, [], ◌∷◌, ◌++◌, append_assoc,
  Bytes, length, All,
}
use mathlib.Core.List.{Memᴰ}
use beam_drop.Errors.{ok, transfer, unexpected_packet, file_write_failed}
use beam_drop.Filesystem.{DirectoryEntry}
use beam_drop.Network.{Os}
use beam_drop.Protocol.{make_packet, directory_info}
use beam_drop.Protocol.Codec
use beam_drop.Payload.DirectoryInfo
use beam_drop.Transfer.Chain.{
  Ensures, chain_then, chain_ok, chain_mono, chain_result, Yields, total_ok, total_then, total_mono,
  total_result, total_guard,
}
use beam_drop.Transfer.Disk.{
  Disk, directory, is_file, Grows, make_directories, make_directories_total, make_directories-Grows,
  make_directories-at,
}
use beam_drop.Transfer.Path.{place, along, place_along}
use beam_drop.Transfer.Wire.{make_packet-IsWellFormed}
use beam_drop.Transfer.Sender.{Origin, send_one_directory, send_directories, send_packet}
use beam_drop.Transfer.Sender.Sent.{Sent, Sent-append, quiet, check_stop-Sent, send_packet-Sent}
use beam_drop.Transfer.Receiver.{
  Side, Receiver, plain_receiver, made, create_directories, receive_one_directory,
  receive_directories,
}
use beam_drop.Transfer.Receiver.Total.{IsBroken, Works, Works-net, Works-grown, next_packet_step}
use beam_drop.Transfer.Task.{
  Places, AllPlaces, directory_wire, Spot, folders, Ready, Orderly, Changed, is_free,
}
use beam_drop.Transfer.Task.Spots.{Changed-cons, Ready-after, Orderly-left}

module _ (os : Os) (h : ℕ) where
  -- What the loop over the directories sends, and nothing else.
  pub send_directories-Sent :
      (entries : List DirectoryEntry) (s : Origin os.State)
      → Ensures
          (λ u t. Sent os h (directory_wire entries) s t)
          (send_directories os (some h) entries s)
  unfolding send_directories send_one_directory
  send_directories-Sent [] s = chain_ok _ tt s (quiet os h refl refl)
  send_directories-Sent (entry ∷ entries) s =
      let Q =
        λ (u : Unit {0}) (t : Origin os.State). Sent os h (directory_wire (entry ∷ entries)) s t in
      let One = λ (s1 : Origin os.State) (u : Unit {0}) (t : Origin os.State).
        Sent os h (Codec.encode (make_packet directory_info entry.relative_path)) s1 t in
      chain_then _ Q _ _ (check_stop-Sent os h s) λ u s1 looked.
        chain_then (One s1) Q _ _
          (chain_result (One s1) _ s1 _ λ payload encoded.
            subst
              (λ b. Ensures (One s1) (send_packet os (some h) (make_packet directory_info b) s1))
              (sym (DirectoryInfo.encode-path entry.relative_path payload encoded))
              (send_packet-Sent os h (make_packet directory_info entry.relative_path) s1))
          λ u t one.
            chain_mono _ Q _
              (λ z v others. Sent-append os h [] _ looked (Sent-append os h _ _ one others))
              (send_directories-Sent entries t)

module _ (os : Os) (h : ℕ) (state_file save_dir : Bytes) where
  open os use {State, pending}

  abbrev receiver : Receiver
  receiver = plain_receiver state_file

  made_step :
      (ps : List Bytes) (q : Bytes) (s : Side State) (Q : Unit {0} → Side State → Type 0)
      → All (λ p. is_file (s.disk p) ≡ false) ps
      → s.can_make ≡ true
      → Memᴰ q ps
      → ((e : Disk)
          → ((other : Bytes) → Grows ps s.disk e other)
          → e q ≡ some directory
          → Q tt (record s { disk = e }))
      → Yields IsBroken Q (create_directories os (some h) receiver ps s)
  unfolding create_directories
  made_step ps q s Q clear_ways can at k =
      let (e, is_ok) = make_directories_total s.disk ps clear_ways in
      let made_is : make_directories s.can_make s.disk ps ≡ ok e =
        ap (λ b. make_directories b s.disk ps) can ∙ is_ok in
      subst (λ d. Yields IsBroken Q (made os (some h) receiver d s)) (sym made_is)
        (total_ok IsBroken Q tt (record s { disk = e })
          (k e (λ other. make_directories-Grows s.can_make s.disk e ps other made_is)
            (make_directories-at s.can_make s.disk e ps q made_is at)))

  -- One directory: it is made, and its packet is read.
  receive_one_directory_step :
      (entry : DirectoryEntry) (path behind : Bytes) (r : Side State)
      → Places save_dir entry path
      → r.disk (place path) ≡ none
      → All (λ p. is_file (r.disk p) ≡ false) (along path)
      → pending r.net ≡ Codec.encode (make_packet directory_info entry.relative_path) ++ behind
      → Works os h receiver r
      → Yields IsBroken
          (λ u q.
            (q.disk (place path) ≡ some directory)
            × ((other : Bytes) → Grows (along path) r.disk q.disk other)
            × (pending q.net ≡ behind)
            × Works os h receiver q)
          (receive_one_directory os (some h) receiver save_dir r)
  unfolding receive_one_directory
  receive_one_directory_step entry path behind r p free clear_ways stream w =
      let Q = λ (u : Unit {0}) (q : Side State).
        (q.disk (place path) ≡ some directory)
        × ((other : Bytes) → Grows (along path) r.disk q.disk other)
        × (pending q.net ≡ behind)
        × Works os h receiver q in
      next_packet_step os h receiver Q (make_packet directory_info entry.relative_path) behind r _
        (make_packet-IsWellFormed directory_info entry.relative_path p.path_fits p.path_bytes)
        stream
        λ x left.
          let t : Side State = record r { net = x } in
          total_guard IsBroken Q _ (transfer unexpected_packet) t _ refl (
            total_result IsBroken Q _ entry.relative_path t _
              (DirectoryInfo.decode-path entry.relative_path p.path_ne)
              (total_result IsBroken Q _ path t _ p.safe (
                total_guard IsBroken Q _ (transfer file_write_failed) t _
                  (is_free r.disk (place path) free)
                  (made_step (along path) (place path) t Q clear_ways w.can_make
                    (place_along path p.named)
                    λ e grown is. (
                      is,
                      grown,
                      left,
                      Works-grown os h receiver t e (along path) grown (λ on. absurd (cc on))
                          (Works-net os h receiver r x w),
                    )))))

  pub directories_arrive :
      (entries : List DirectoryEntry) (paths : List Bytes) (later : List Spot) (behind : Bytes)
      (r : Side State)
      → AllPlaces save_dir entries paths
      → Ready r.disk (folders paths ++ later)
      → Orderly (folders paths ++ later)
      → pending r.net ≡ directory_wire entries ++ behind
      → Works os h receiver r
      → Yields IsBroken
          (λ u q.
            Changed (folders paths) r.disk q.disk
            × Ready q.disk later
            × (pending q.net ≡ behind)
            × Works os h receiver q)
          (receive_directories os (some h) receiver save_dir (length entries) r)
  unfolding receive_directories
  directories_arrive [] [] later behind r all ready order stream w =
      total_ok IsBroken _ tt r ((tt, λ other all. inl refl), ready, stream, w)
  directories_arrive [] (path ∷ paths) later behind r all ready order stream w = absurd all
  directories_arrive (entry ∷ entries) [] later behind r all ready order stream w = absurd all
  directories_arrive (entry ∷ entries) (path ∷ paths) later behind r (p, all) (here, others)
        (clear, order) stream w =
      let x : Spot = record { at = place path; ways = along path; entry = directory } in
      total_then IsBroken _ _ _ _
        (receive_one_directory_step entry path (directory_wire entries ++ behind) r p here.0 here.1
          (stream ∙ append_assoc _ (directory_wire entries) behind) w)
        λ u q (is, grown, left, w').
          total_mono IsBroken _ _ _
            (λ u z (changed, ready', left'', works). (
              Changed-cons x (folders paths) r.disk q.disk z.disk
                  (Orderly-left (x ∷ folders paths) later (clear, order)) is
                  (λ other ne. grown other) changed,
              ready',
              left'',
              works,
            ))
            (directories_arrive entries paths later behind q all
              (Ready-after x (folders paths ++ later) r.disk q.disk is (λ other ne. grown other)
                clear others)
              order left w')
