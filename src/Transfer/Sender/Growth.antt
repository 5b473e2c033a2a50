-- ===== src/Transfer/Sender/Growth.antt =====
-- What is sent is added to what was sent before, for a whole task.
use beam_drop.Prelude.{
  ℕ, ◌+◌, ◌≡◌, sym, ap, ◌∙◌, some, List, [], ◌∷◌, ◌++◌, append_assoc, append-nil, Bytes, length,
}
use beam_drop.Filesystem.{FileEntry, DirectoryEntry}
use beam_drop.Network.{Os}
use beam_drop.Transfer.Chain.{Ensures, chain_next, chain_then, chain_ok, chain_result, chain_mono}
use beam_drop.Transfer.Progress.{task_started, task_completed}
use beam_drop.Transfer.Sender.{
  Origin, send_one_file, send_one_directory, send_directories, send_files, report_task, send_task,
}
use beam_drop.Transfer.Sender.Sent.{Sent, check_stop-Sent, send_packet-Sent}
use beam_drop.Transfer.Sender.Delivered.{Delivered, deliver}

module _ (os : Os) (h : ℕ) where
  open os use {State, pending, sent}

  -- Some bytes were sent.
  abbrev pub Grew : {A : Type 0} → Origin State → A → Origin State → Type 0
  Grew s a t = (bytes : Bytes) × (sent t.net ≡ sent s.net ++ bytes)

  Grew-trans : (s t u : Origin State) → Grew s tt t → Grew t tt u → Grew s tt u
  Grew-trans s t u (a, p) (b, q) = (a ++ b, q ∙ ap (λ x. x ++ b) p ∙ append_assoc (sent s.net) a b)

  from_Sent : (bytes : Bytes) (s t : Origin State) → Sent os h bytes s t → Grew s tt t
  from_Sent bytes s t p = (bytes, p.sent_is)

  send_one_file-Grew :
      (chunk_size : ℕ) (source_path relative_path : Bytes) (index count : ℕ) (s : Origin State)
      → Ensures
          (Grew s)
          (send_one_file os (some h) chunk_size source_path relative_path index count s)
  send_one_file-Grew chunk_size source_path relative_path index count s =
      chain_mono (λ u t. Delivered os h source_path relative_path s t) (Grew s) _
        (λ u t d. (_, d.sent_is)) (deliver os h chunk_size source_path relative_path index count s)

  pub send_files-Grew :
      (chunk_size : ℕ) (entries : List FileEntry) (index count : ℕ) (s : Origin State)
      → Ensures (Grew s) (send_files os (some h) chunk_size entries index count s)
  unfolding send_files
  send_files-Grew chunk_size [] index count s =
      chain_ok (Grew s) tt s ([], sym (append-nil (sent s.net)))
  send_files-Grew chunk_size (entry ∷ entries) index count s =
      let Q = λ (u : Unit {0}) (t : Origin State). Grew s u t in
      chain_then _ Q _ _ (check_stop-Sent os h s) λ u s1 looked.
        chain_then (Grew s1) Q _ _
          (send_one_file-Grew chunk_size entry.source_path entry.relative_path (index + 1) count s1)
          λ u t grew.
            chain_mono (Grew t) Q _
              (λ z v grew'.
                Grew-trans s t v (Grew-trans s s1 t (from_Sent [] s s1 looked) grew) grew')
              (send_files-Grew chunk_size entries (index + 1) count t)

  send_directories-Grew :
      (entries : List DirectoryEntry) (s : Origin State)
      → Ensures (Grew s) (send_directories os (some h) entries s)
  unfolding send_directories send_one_directory
  send_directories-Grew [] s = chain_ok (Grew s) tt s ([], sym (append-nil (sent s.net)))
  send_directories-Grew (entry ∷ entries) s =
      let Q = λ (u : Unit {0}) (t : Origin State). Grew s u t in
      chain_then _ Q _ _ (check_stop-Sent os h s) λ u s1 looked.
        chain_then (Grew s1) Q _ _
          (chain_result (Grew s1) _ s1 _ λ payload encoded.
            chain_mono _ (Grew s1) _ (λ z v given. from_Sent _ s1 v given)
              (send_packet-Sent os h _ s1))
          λ u t grew.
            chain_mono (Grew t) Q _
              (λ z v grew'.
                Grew-trans s t v (Grew-trans s s1 t (from_Sent [] s s1 looked) grew) grew')
              (send_directories-Grew entries t)

  pub send_task-Grew :
      (chunk_size : ℕ) (entries : List FileEntry) (directories : List DirectoryEntry)
      (s : Origin State)
      → Ensures (Grew s) (send_task os (some h) chunk_size entries directories s)
  unfolding send_task report_task
  send_task-Grew chunk_size entries directories s =
      let Q = λ (u : Unit {0}) (t : Origin State). Grew s u t in
      let start = (report_task os (some h) task_started 0 (length entries) s).1 in
      chain_next Q tt start _ (
        chain_then _ Q _ _ (send_directories-Grew directories start) λ u t grew.
          chain_then _ Q _ _ (send_files-Grew chunk_size entries 0 (length entries) t) λ u v grew'.
            chain_ok Q tt
              (report_task os (some h) task_completed (length entries) (length entries) v).1
              (Grew-trans s t v grew grew'))
