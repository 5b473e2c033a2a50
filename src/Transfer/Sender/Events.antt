-- ===== src/Transfer/Sender/Events.antt =====
-- The events that `send_task` reports.
use beam_drop.Prelude.{
  ℕ, zero, suc, ◌+◌, ◌%◌, ◌^◌, ◌≡◌, refl, ◌∙◌, Option, List, [], ◌∷◌, ◌++◌, Bytes, length, take,
  drop, ltb, ◌==◌, Bool-cases, inl, inr,
}
use beam_drop.Errors.{Result, ok, err}
use beam_drop.Filesystem.{FileEntry, DirectoryEntry}
use beam_drop.Network.{Os}
use beam_drop.Protocol.{Packet, make_packet, data_chunk, file_end}
use beam_drop.Protocol.PacketIo.{read_packet, write_packet}
use beam_drop.Sha256.{Sha256, new}
use beam_drop.Transfer.Chain.{
  Ensures, chain_next, chain_then, chain_guard, chain_ok, chain_err, chain_branch, chain_result,
  chain_mono, ensured,
}
use beam_drop.Transfer.Progress.{
  ProgressEvent, send, Stage, task_started, transferring, file_completed, task_completed,
}
use beam_drop.Transfer.Progress.Order.{
  IsAt, OneFile, Files, no_file, next_file, IsTask, Moves, no_move, one_move, Moves-append,
  OneFile-append, no_report, Reports, Reports-append, report_after,
}
use beam_drop.Transfer.Sender.{
  Origin, check_stop, hash_turns, hash_source, took, gave, next_packet, send_packet, report, agree,
  send_chunks, send_one_file, send_one_directory, report_task, send_directories, send_files,
  send_task,
}

module _ (os : Os) (handle : Option ℕ) where
  open os use {State}

  abbrev Quiet : {A : Type 0} → Origin State → A → Origin State → Type 0
  Quiet s a t = t.events ≡ s.events

  abbrev events_of : Origin State → List ProgressEvent
  events_of s = s.events

  next_packet-Quiet : (s : Origin State) → Ensures (Quiet s) (next_packet os handle s)
  unfolding next_packet
  next_packet-Quiet s = of (read_packet os handle s.net)
    where
      of : (r : Result (Packet × State)) → Ensures (Quiet s) (took os handle r s)
      of (ok (q, net)) = chain_ok (Quiet s) q (record s { net = net }) refl
      of (err e) = chain_err (Quiet s) e s

  send_packet-Quiet :
      (p : Packet) (s : Origin State) → Ensures (Quiet s) (send_packet os handle p s)
  unfolding send_packet
  send_packet-Quiet p s = of (write_packet os handle p s.net)
    where
      of : (r : Result State) → Ensures (Quiet s) (gave os handle r s)
      of (ok net) = chain_ok (Quiet s) tt (record s { net = net }) refl
      of (err e) = chain_err (Quiet s) e s

  check_stop-Quiet : (s : Origin State) → Ensures (Quiet s) (check_stop os s)
  unfolding check_stop Ensures
  check_stop-Quiet s = elim (Bool-cases (s.stops s.looks)) [
    | inl asked ↦ rw asked tt
    | inr going ↦ rw going refl
  ]

  hash_turns-Quiet :
      (fuel chunk_size offset : ℕ) (content : Bytes) (x : Sha256) (s : Origin State)
      → Ensures (Quiet s) (hash_turns os fuel chunk_size offset content x s)
  unfolding hash_turns
  hash_turns-Quiet zero chunk_size offset content x s = chain_err (Quiet s) _ s
  hash_turns-Quiet (suc fuel) chunk_size offset content x s =
      let Q = λ (y : Sha256) (t : Origin State). Quiet s y t in
      chain_then (Quiet s) Q _ _ (check_stop-Quiet s) λ u t same. chain_next Q t t _ (
        chain_guard Q _ _ t _ λ readable. chain_result Q _ t _ λ y updated.
          chain_branch Q (ltb (length (take chunk_size (drop offset content))) chunk_size) _ _ t
            (λ short. chain_ok Q y t same)
            (λ full.
              chain_mono (Quiet t) Q _ (λ z v same'. same' ∙ same)
                (hash_turns-Quiet fuel chunk_size
                  (offset + length (take chunk_size (drop offset content))) content y t)))

  hash_source-Quiet :
      (chunk_size : ℕ) (content : Bytes) (s : Origin State)
      → Ensures (Quiet s) (hash_source os chunk_size content s)
  unfolding hash_source
  hash_source-Quiet chunk_size content s =
      let Q = λ (y : Bytes) (t : Origin State). Quiet s y t in
      chain_guard Q _ _ s _ λ some_size. chain_next Q s s _ (
        chain_guard Q _ _ s _ λ opened.
          chain_then (Quiet s) Q _ _ (hash_turns-Quiet _ chunk_size 0 content new s)
            λ y t same. chain_ok Q _ t same)

  -- Events of bytes of this file are reported.
  abbrev Moving : {A : Type 0} → ℕ → ℕ → Origin State → A → Origin State → Type 0
  Moving index count s a t =
      (es : List ProgressEvent) × Moves index count es × Reports events_of es s t

  -- The events of one file.
  abbrev SentFile : {A : Type 0} → ℕ → ℕ → Origin State → A → Origin State → Type 0
  SentFile index count s a t =
      (es : List ProgressEvent) × OneFile index count es × Reports events_of es s t

  module _ (relative_path content : Bytes) (file_index file_count : ℕ) where
    agree-Quiet :
        (hash : Bytes) (s : Origin State)
        → Ensures (Quiet s) (agree os handle relative_path content file_index file_count hash s)
    unfolding agree
    agree-Quiet hash s =
        let Q = λ (n : ℕ) (t : Origin State). Quiet s n t in
        chain_then (Quiet s) Q _ _ (send_packet-Quiet _ s) λ u t same.
          chain_then (Quiet t) Q _ _ (next_packet-Quiet t) λ p v same'.
            chain_guard Q _ _ v _ λ right_type.
              chain_result Q _ v _
                λ ack decoded. chain_guard Q _ _ v _ λ fits. chain_ok Q _ v (same' ∙ same)

    event : ℕ → Stage → ProgressEvent
    event bytes stage = record {
      direction = send;
      relative_path = relative_path;
      current_file_bytes = bytes;
      current_file_total_bytes = length content;
      file_index = file_index;
      file_count = file_count;
      stage = stage;
    }

    event-IsAt : (bytes : ℕ) (stage : Stage) → IsAt stage file_index file_count (event bytes stage)
    unfolding event
    event-IsAt bytes stage = record { stage_is = refl; index_is = refl; count_is = refl }

    report-Reports :
        (bytes : ℕ) (stage : Stage) (s : Origin State)
        → Reports events_of
            (event bytes stage ∷ [])
            s
            (report os handle relative_path content file_index file_count bytes stage s).1
    unfolding report event
    report-Reports bytes stage s = refl

    send_chunks-Moving :
        (fuel chunk_size offset sent_size : ℕ) (s : Origin State)
        → Ensures (Moving file_index file_count s) (
            send_chunks os handle relative_path content file_index file_count fuel chunk_size offset
              sent_size s)
    unfolding send_chunks report
    send_chunks-Moving zero chunk_size offset sent_size s =
        chain_err (Moving file_index file_count s) _ s
    send_chunks-Moving (suc fuel) chunk_size offset sent_size s =
        let Q = λ (u : Unit {0}) (t : Origin State). Moving file_index file_count s u t in
        let chunk = take chunk_size (drop offset content) in
        let now = (sent_size + length chunk) % 2 ^ 64 in
        chain_then (Quiet s) Q _ _ (check_stop-Quiet s) λ u t same. chain_next Q t t _ (
          chain_guard Q _ _ t _ λ readable.
            chain_branch Q (0 == length chunk) _ _ t
              (λ none_left. chain_ok Q tt t ([], no_move, no_report events_of s t same))
              (λ more.
                chain_then (Quiet t) Q _ _ (send_packet-Quiet (make_packet data_chunk chunk) t)
                  λ u v same'.
                    let next =
                      (report os handle relative_path content file_index file_count now transferring
                        v).1 in
                    let here = event now transferring ∷ [] in
                    let moves = one_move (event-IsAt now transferring) no_move in
                    let reports =
                      report_after events_of here s v next (same' ∙ same)
                        (report-Reports now transferring v) in
                    chain_next Q tt next _ (
                      chain_branch Q (ltb (length chunk) chunk_size) _ _ next
                        (λ short. chain_ok Q tt next (here, moves, reports))
                        (λ full.
                          chain_mono (Moving file_index file_count next) Q _
                            (λ z w (es, moves', reports'). (
                              here ++ es,
                              Moves-append moves moves',
                              Reports-append events_of here es s next w reports reports',
                            ))
                            (send_chunks-Moving fuel chunk_size (offset + length chunk) now
                              next)))))

  send_one_file-SentFile :
      (chunk_size : ℕ) (source_path relative_path : Bytes) (index count : ℕ) (s : Origin State)
      → Ensures
          (SentFile index count s)
          (send_one_file os handle chunk_size source_path relative_path index count s)
  unfolding send_one_file report
  send_one_file-SentFile chunk_size source_path relative_path index count s =
      let Q = λ (u : Unit {0}) (t : Origin State). SentFile index count s u t in
      chain_then (Quiet s) Q _ _ (check_stop-Quiet s) λ u s1 same1. chain_next Q s1 s1 _ (
        chain_result Q _ s1 _ λ content found.
          chain_then (Quiet s1) Q _ _ (hash_source-Quiet chunk_size content s1) λ hash s2 same2.
            chain_then (Quiet s2) Q _ _ (agree-Quiet relative_path content index count hash s2)
              λ offset s3 same3. chain_next Q s3 s3 _ (
                chain_guard Q _ _ s3 _ λ opened. chain_guard Q _ _ s3 _ λ placed.
                  chain_then (Moving index count s3) Q _ _
                    (send_chunks-Moving relative_path content index count (suc (length content))
                      chunk_size offset offset s3)
                    λ u s4 (es, moves, reports).
                      chain_then (Quiet s4) Q _ _ (send_packet-Quiet (make_packet file_end []) s4)
                        λ u s5 same5.
                          let end =
                            (report os handle relative_path content index count (length content)
                              file_completed s5).1 in
                          let last =
                            event relative_path content index count (length content)
                              file_completed in
                          chain_ok Q tt end (
                            es ++ last ∷ [],
                            OneFile-append moves (
                                event-IsAt relative_path content index count (length content)
                                  file_completed),
                            Reports-append events_of es (last ∷ []) s s4 end
                                (report_after events_of es s s3 s4 (same3 ∙ same2 ∙ same1) reports)
                                (report_after events_of (last ∷ []) s4 s5 end same5 (
                                  report-Reports relative_path content index count (length content)
                                    file_completed s5)),
                          )))

  send_files-Files :
      (chunk_size : ℕ) (entries : List FileEntry) (index count : ℕ) (s : Origin State)
      → Ensures
          (λ u t.
            (es : List ProgressEvent) × Files count (index + 1) (length entries) es
            × Reports events_of es s t)
          (send_files os handle chunk_size entries index count s)
  unfolding send_files
  send_files-Files chunk_size [] index count s =
      chain_ok _ tt s ([], no_file, no_report events_of s s refl)
  send_files-Files chunk_size (entry ∷ entries) index count s =
      let Q = λ (u : Unit {0}) (t : Origin State).
        (es : List ProgressEvent) × Files count (index + 1) (suc (length entries)) es
        × Reports events_of es s t in
      chain_then (Quiet s) Q _ _ (check_stop-Quiet s) λ u s1 same.
        chain_then (SentFile (index + 1) count s1) Q _ _
          (send_one_file-SentFile chunk_size entry.source_path entry.relative_path (index + 1) count
            s1)
          λ u t (es, one, reports).
            chain_mono _ Q _
              (λ z v (es', files, reports'). (
                es ++ es',
                next_file one files,
                Reports-append events_of es es' s t v
                    (report_after events_of es s s1 t same reports) reports',
              ))
              (send_files-Files chunk_size entries (index + 1) count t)

  send_directories-Quiet :
      (entries : List DirectoryEntry) (s : Origin State)
      → Ensures (Quiet s) (send_directories os handle entries s)
  unfolding send_directories send_one_directory
  send_directories-Quiet [] s = chain_ok (Quiet s) tt s refl
  send_directories-Quiet (entry ∷ entries) s =
      let Q = λ (u : Unit {0}) (t : Origin State). Quiet s u t in
      chain_then (Quiet s) Q _ _ (check_stop-Quiet s) λ u s1 same.
        chain_then (Quiet s1) Q _ _
          (chain_result (Quiet s1) _ s1 _ λ payload encoded. send_packet-Quiet _ s1)
          λ u t same'.
            chain_mono (Quiet t) Q _ (λ z v same''. same'' ∙ same' ∙ same)
              (send_directories-Quiet entries t)

  task_event : ℕ → Stage → ℕ → ProgressEvent
  task_event count stage index = record {
    direction = send;
    relative_path = [];
    current_file_bytes = 0;
    current_file_total_bytes = 0;
    file_index = index;
    file_count = count;
    stage = stage;
  }

  task_event-IsAt :
      (count : ℕ) (stage : Stage) (index : ℕ)
      → IsAt stage index count (task_event count stage index)
  unfolding task_event
  task_event-IsAt count stage index = record { stage_is = refl; index_is = refl; count_is = refl }

  report_task-Reports :
      (stage : Stage) (index count : ℕ) (s : Origin State)
      → Reports events_of
          (task_event count stage index ∷ [])
          s
          (report_task os handle stage index count s).1
  unfolding report_task task_event
  report_task-Reports stage index count s = refl

  -- Reports the events of a whole task.
  abbrev pub Reported : {A : Type 0} → ℕ → Origin State → A → Origin State → Type 0
  Reported count s a t = (es : List ProgressEvent) × IsTask count es × Reports events_of es s t

  task-Reported :
      (chunk_size : ℕ) (entries : List FileEntry) (directories : List DirectoryEntry)
      (s : Origin State)
      → Ensures (Reported (length entries) s) (send_task os handle chunk_size entries directories s)
  unfolding send_task report_task
  task-Reported chunk_size entries directories s =
      let count = length entries in
      let Q = λ (u : Unit {0}) (t : Origin State). Reported count s u t in
      let start = (report_task os handle task_started 0 count s).1 in
      let first = task_event count task_started 0 in
      let last = task_event count task_completed count in
      chain_next Q tt start _ (
        chain_then _ Q _ _ (send_directories-Quiet directories start) λ u t same.
          chain_then _ Q _ _ (send_files-Files chunk_size entries 0 count t)
            λ u v (es, files, reports).
              let end = (report_task os handle task_completed count count v).1 in
              let all =
                Reports-append events_of es (last ∷ []) start v end
                  (report_after events_of es start t v same reports)
                  (report_task-Reports task_completed count count v) in
              chain_ok Q tt end (
                first ∷ (es ++ last ∷ []),
                record {
                  first = first;
                  middle = es;
                  last = last;
                  events_are = refl;
                  first_at = task_event-IsAt count task_started 0;
                  files = files;
                  last_at = task_event-IsAt count task_completed count;
                },
                Reports-append events_of (first ∷ []) (es ++ last ∷ []) s start end
                    (report_task-Reports task_started 0 count s) all,
              ))

  -- A `send_task` that returns without an exception has reported the start of the task, then for
  -- each entry in turn events of its bytes and one of the file, and then the end of the task.
  pub send_task-Reported :
      (chunk_size : ℕ) (entries : List FileEntry) (directories : List DirectoryEntry)
      (s t : Origin State)
      → send_task os handle chunk_size entries directories s ≡ (ok tt, t)
      → Reported (length entries) s tt t
  send_task-Reported chunk_size entries directories s t e =
      ensured (Reported (length entries) s) _ tt t e
        (task-Reported chunk_size entries directories s)
