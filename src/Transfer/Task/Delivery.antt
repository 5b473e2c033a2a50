-- ===== src/Transfer/Task/Delivery.antt =====
-- The whole task: the directories, and then the files.
use beam_drop.Prelude.{
  ℕ, ◌≡◌, refl, ap, sym, ◌∙◌, some, List, ◌++◌, append_assoc, append-injective, Bytes, length,
}
use mathlib.Core.Path.{subst}
use beam_drop.Errors.{ok}
use beam_drop.Filesystem.{FileEntry, DirectoryEntry}
use beam_drop.Network.{Os}
use beam_drop.Transfer.Chain.{Outcome, Yields, ensured, and_then-eq-ok, total_ok, total_then}
use beam_drop.Transfer.Sender.{Origin, send_task, report_task}
use beam_drop.Transfer.Sender.Sent.{Sent}
use beam_drop.Transfer.Sender.Growth.{Grew, send_files-Grew}
use beam_drop.Transfer.Receiver.{Side, plain_receiver, receive_task}
use beam_drop.Transfer.Receiver.Total.{IsBroken, Works-events}
use beam_drop.Transfer.Task.{
  Parcel, replies, directory_wire, AllCarry, Changed, Expects, folders, files,
}
use beam_drop.Transfer.Task.Files.{files_arrive}
use beam_drop.Transfer.Task.Directories.{send_directories-Sent, directories_arrive}
use beam_drop.Transfer.Task.Spots.{Changed-append, Orderly-right}

-- Everything is there, but for directories on the ways the rest of the disk is as it was, and the
-- stream is read up to `behind`.
abbrev pub Delivers :
    (os : Os) → List Parcel → List Bytes → Bytes → Side os.State → Side os.State → Type 0
Delivers os ps paths behind r q =
    Changed (folders paths ++ files ps) r.disk q.disk × (os.pending q.net ≡ behind)

module _ (os os' : Os) (h h' chunk_size : ℕ) (state_file save_dir : Bytes) where
  open os use {State, pending, sent}

  -- Where `send_task` sends files and directories without an exception, to a receiver without resume
  -- whose system calls work but for the connection, each entry has a path of bytes that is not empty
  -- and that the receiver's path tests accept, the sizes have 64 bits, and the answers that the sender
  -- reads are acknowledgements of the offset 0, `receive_task` takes the bytes that were sent and ends
  -- with every directory made, every file whole, and the stream read up to what follows; or it ends in
  -- the error of a failed send or recv. Every other place of the disk is as before, or is a directory
  -- on the way to an entry where nothing was. Before, nothing is at the places of the entries, which
  -- differ, and no file is on the ways to them; no entry is on the way to an earlier one, and no file
  -- on the way to itself or to a later one; the place of a directory is not the start of its path.
  pub task_transferred :
      (entries : List FileEntry) (directories : List DirectoryEntry) (ps : List Parcel)
      (paths : List Bytes) (bytes later behind : Bytes) (s t : Origin State) (r : Side os'.State)
      → Expects os' h' state_file save_dir s.disk entries directories ps paths r
      → send_task os (some h) chunk_size entries directories s ≡ (ok tt, t)
      → sent t.net ≡ sent s.net ++ bytes
      → os'.pending r.net ≡ bytes ++ behind
      → pending s.net ≡ replies (length entries) ++ later
      → Yields IsBroken
          (λ u q. Delivers os' ps paths behind r q)
          (receive_task os'
            (some h')
            (plain_receiver state_file)
            save_dir
            (length entries)
            (length directories)
            r)
  unfolding send_task receive_task report_task beam_drop.Transfer.Receiver.report_task
  task_transferred entries directories ps paths bytes later behind s t r m done out stream reply =
      let (u0, s0, started, next0) = and_then-eq-ok _ _ tt t done in
      let (u1, s1, sent_directories, next1) = and_then-eq-ok _ _ tt t next0 in
      let (u2, s2, sent_files, ended) = and_then-eq-ok _ _ tt t next1 in
      let net0 : s0.net ≡ s.net =
        sym (ap (λ (x : Outcome (Origin State) (Unit {0})). (x.1).net) started) in
      let disk0 : s0.disk ≡ s.disk =
        sym (ap (λ (x : Outcome (Origin State) (Unit {0})). (x.1).disk) started) in
      let net2 : t.net ≡ s2.net =
        sym (ap (λ (x : Outcome (Origin State) (Unit {0})). (x.1).net) ended) in
      let first =
        ensured (λ u t. Sent os h (directory_wire directories) s0 t) _ u1 s1 sent_directories
          (send_directories-Sent os h directories s0) in
      let (b, grew) =
        ensured (Grew os h s1) _ u2 s2 sent_files
          (send_files-Grew os h chunk_size entries 0 (length entries) s1) in
      let split : bytes ≡ directory_wire directories ++ b =
        (append-injective (sent s.net) bytes (sent s.net) (directory_wire directories ++ b) refl (
          sym out
          ∙ ap sent net2
          ∙ grew
          ∙ ap (λ x. x ++ b) (first.sent_is ∙ ap (λ n. sent n ++ directory_wire directories) net0)
          ∙ append_assoc (sent s.net) (directory_wire directories) b)).1 in
      total_then IsBroken _ _ _ _
        (directories_arrive os' h' state_file save_dir directories paths (files ps) (b ++ behind) _
          m.placed m.free m.apart
          (stream
            ∙ ap (λ x. x ++ behind) split
            ∙ append_assoc (directory_wire directories) b behind)
          (Works-events os' h' (plain_receiver state_file) r _ m.works))
        λ u q (changed, ready, left, works).
          total_then IsBroken _ _ _ _
            (files_arrive os os' h h' chunk_size state_file save_dir entries ps 0 (length entries) b
              later behind s1 s2 q
              (subst (λ disk. AllCarry os' h' state_file disk save_dir entries ps)
                (sym (first.disk_kept ∙ disk0)) m.carried)
              ready (Orderly-right (folders paths) (files ps) m.apart) sent_files grew left
              (first.pending_kept ∙ ap pending net0 ∙ reply) works)
            λ u z (changed', left', works'). total_ok IsBroken _ tt _ (
              Changed-append (folders paths) (files ps) r.disk q.disk z.disk m.apart changed
                  changed',
              left',
            )
