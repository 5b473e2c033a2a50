-- ===== src/Transfer/Task/Files.antt =====
-- The files of a task.
use mathlib.Core.Path.{subst}
use beam_drop.Prelude.{
  ℕ, inl, ◌+◌, ◌≡◌, ◌≢◌, refl, ap, sym, ◌∙◌, false, none, some, List, [], ◌∷◌, ◌++◌, append_assoc,
  append-nil, append-injective, Bytes, length, All,
}
use beam_drop.Errors.{ok}
use beam_drop.Filesystem.{FileEntry}
use beam_drop.Network.{Os}
use beam_drop.Protocol.Codec
use beam_drop.Transfer.Chain.{
  Outcome, Yields, ensured, and_then-eq-ok, total_ok, total_then, total_mono,
}
use beam_drop.Transfer.Disk.{Disk, file, is_file, is_directory, Grows}
use beam_drop.Transfer.Path.{place, above}
use beam_drop.Transfer.Sender.{Origin, send_files}
use beam_drop.Transfer.Sender.Sent.{Sent, check_stop-Sent}
use beam_drop.Transfer.Sender.Delivered.{delivered}
use beam_drop.Transfer.Sender.Growth.{Grew, send_files-Grew}
use beam_drop.Transfer.Receiver.{Side, Receiver, plain_receiver, receive_files}
use beam_drop.Transfer.Receiver.Total.{IsBroken, Works}
use beam_drop.Transfer.Receiver.Whole.{Meets}
use beam_drop.Transfer.EndToEnd.{answer, announced, transferred, answered_pending}
use beam_drop.Transfer.Task.{
  Parcel, replies, Carries, AllCarry, Spot, files, Ready, Orderly, Changed, nothing_there,
}
use beam_drop.Transfer.Task.Spots.{Changed-cons, Ready-after}

module _ (os os' : Os) (h h' chunk_size : ℕ) (state_file save_dir : Bytes) where
  open os use {State, pending, sent}

  abbrev receiver : Receiver
  receiver = plain_receiver state_file

  -- The files have arrived, and but for the ways to them nothing else has changed.
  abbrev pub FilesArrived : List Parcel → Bytes → Side os'.State → Side os'.State → Type 0
  FilesArrived ps behind r q =
      Changed (files ps) r.disk q.disk × (os'.pending q.net ≡ behind) × Works os' h' receiver q

  -- A receiver without resume, in front of a file that has a free place.
  carry-Meets :
      (disk : Disk) (entry : FileEntry) (p : Parcel) (r : Side os'.State)
      → Carries os' h' state_file disk save_dir entry p
      → r.disk (place p.path) ≡ none
      → All (λ q. is_file (r.disk q) ≡ false) (above p.path)
      → Works os' h' receiver r
      → Meets os' h' receiver save_dir p.path
          (announced entry.relative_path p.content p.hash)
          p.content
          0
          r
  carry-Meets disk entry p r carry free ways works = record {
    honest = carry.honest;
    works = works;
    safe = carry.safe;
    begins = record {
      open_ways = ways;
      target_apart = carry.way_apart;
      state_apart = λ on. absurd (cc on);
      spares = λ on. absurd (cc on);
      no_directory = ap is_directory free;
      free = nothing_there r.disk (place p.path) free;
      trusted = λ on. absurd (cc on);
      from_start = λ off. refl;
      same_start = refl;
    };
  }

  -- The bytes of a file, and those of the rest.
  split_bytes :
      (before b1 b2 bytes s1 s2 t : Bytes)
      → t ≡ before ++ bytes
      → s1 ≡ before ++ []
      → s2 ≡ s1 ++ b1
      → t ≡ s2 ++ b2
      → bytes ≡ b1 ++ b2
  split_bytes before b1 b2 bytes s1 s2 t out none_sent one rest =
      (append-injective before bytes before (b1 ++ b2) refl (
        sym out
        ∙ rest
        ∙ ap (λ x. x ++ b2) (one ∙ ap (λ x. x ++ b1) (none_sent ∙ append-nil before))
        ∙ append_assoc before b1 b2)).1

  pub files_arrive :
      (entries : List FileEntry) (ps : List Parcel) (index count : ℕ) (bytes later behind : Bytes)
      (s t : Origin State) (r : Side os'.State)
      → AllCarry os' h' state_file s.disk save_dir entries ps
      → Ready r.disk (files ps)
      → Orderly (files ps)
      → send_files os (some h) chunk_size entries index count s ≡ (ok tt, t)
      → sent t.net ≡ sent s.net ++ bytes
      → os'.pending r.net ≡ bytes ++ behind
      → pending s.net ≡ replies (length entries) ++ later
      → Works os' h' receiver r
      → Yields IsBroken
          (λ u q. FilesArrived ps behind r q)
          (receive_files os' (some h') receiver save_dir (length entries) index count r)
  unfolding send_files receive_files
  files_arrive [] [] index count bytes later behind s t r carry ready order done out stream reply
        works =
      let same : sent t.net ≡ sent s.net ++ [] =
        sym (ap (λ (x : Outcome _ _). sent (x.1).net) done) ∙ sym (append-nil (sent s.net)) in
      let none_sent : bytes ≡ [] =
        (append-injective (sent s.net) bytes (sent s.net) [] refl (sym out ∙ same)).1 in
      total_ok IsBroken _ tt r
        ((tt, λ other all. inl refl), (stream ∙ ap (λ b. b ++ behind) none_sent), works)
  files_arrive [] (p ∷ ps) index count bytes later behind s t r carry ready order done out stream
        reply works =
      absurd carry
  files_arrive (entry ∷ entries) [] index count bytes later behind s t r carry ready order done out
        stream reply works =
      absurd carry
  files_arrive (entry ∷ entries) (p ∷ ps) index count bytes later behind s t r (carry, others)
        (here, others_ready) (clear, order) done out stream reply works =
      let (u, s1, looked, next) = and_then-eq-ok _ _ tt t done in
      let (v, s2, sent_one, rest) = and_then-eq-ok _ _ tt t next in
      let begin = ensured (λ u t. Sent os h [] s t) _ u s1 looked (check_stop-Sent os h s) in
      let d =
        delivered os h chunk_size entry.source_path entry.relative_path (index + 1) count s1 s2
          sent_one in
      let (b1, one) : Grew os h s1 tt s2 = (_, d.sent_is) in
      let (b2, grew) =
        ensured (Grew os h s2) _ tt t rest
          (send_files-Grew os h chunk_size entries (index + 1) count s2) in
      let split : bytes ≡ b1 ++ b2 =
        split_bytes (sent s.net) b1 b2 bytes (sent s1.net) (sent s2.net) (sent t.net) out
          begin.sent_is one grew in
      let answers = replies (length entries) ++ later in
      let reply1 : pending s1.net ≡ Codec.encode (answer 0) ++ answers =
        begin.pending_kept
        ∙ reply
        ∙ append_assoc (Codec.encode (answer 0)) (replies (length entries)) later in
      let reply2 : pending s2.net ≡ answers =
        d.pending_after
        ∙ answered_pending os h 0 answers d.reading d.after_ack d.ack (d.reading_is ∙ reply1)
            d.read_is in
      total_then IsBroken _ _ _ _
        (transferred os os' h h' chunk_size receiver entry.source_path entry.relative_path save_dir
          p.path p.content p.hash b1 answers (b2 ++ behind) 0 (index + 1) count s1 s2 r
          (ap (λ d. d entry.source_path) begin.disk_kept ∙ carry.there) carry.honest.hash_is
          sent_one one (stream ∙ ap (λ b. b ++ behind) split ∙ append_assoc b1 b2 behind)
          (carry-Meets s.disk entry p r carry here.0 here.1 works) reply1)
        λ u q (whole, kept).
          let x : Spot = record {
            at = place p.path;
            ways = above p.path;
            entry = file p.content;
          } in
          let grown = λ (other : Bytes) (ne : other ≢ place p.path).
            subst (λ w. Grows w r.disk q.disk other) (append-nil (above p.path))
              (kept other ne (λ on. absurd (cc on))) in
          total_mono IsBroken (λ u z. FilesArrived ps behind q z)
            (λ u z. FilesArrived (p ∷ ps) behind r z) _
            (λ u z (changed, left', works'). (
              Changed-cons x (files ps) r.disk q.disk z.disk (clear, order) whole.0 grown changed,
              left',
              works',
            ))
            (files_arrive entries ps (index + 1) count b2 later behind s2 t q
              (subst (λ disk. AllCarry os' h' state_file disk save_dir entries ps)
                (sym (d.disk_kept ∙ begin.disk_kept)) others)
              (Ready-after x (files ps) r.disk q.disk whole.0 grown clear others_ready) order rest
              grew whole.1 reply2 whole.2)
