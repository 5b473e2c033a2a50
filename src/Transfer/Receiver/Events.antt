-- ===== src/Transfer/Receiver/Events.antt =====
-- The events that `receive_task` reports.
use beam_drop.Prelude.{
  ℕ, zero, suc, ◌+◌, ◌%◌, ◌^◌, ◌≡◌, refl, ap, ◌∙◌, Bool, true, false, Option, List, [], ◌∷◌, ◌++◌,
  Bytes, length, if◌then◌else◌,
}
use beam_drop.Errors.{Result, ok, err}
use beam_drop.Transfer.Disk.{Disk, make_directories}
use beam_drop.Transfer.Path.{place, above, along}
use beam_drop.Network.{Os}
use beam_drop.Protocol.{Packet}
use beam_drop.Protocol.PacketIo.{read_packet, write_packet}
use beam_drop.Payload.FileInfo
use beam_drop.Payload.FileInfo.{FileInfo}
use beam_drop.Resume.{StateFile}
use beam_drop.Transfer.Chain.{
  Ensures, chain_then, chain_guard, chain_ok, chain_err, chain_if, chain_result, chain_mono,
  ensured,
}
use beam_drop.Transfer.Progress.{
  ProgressEvent, receive, Stage, task_started, transferring, file_completed, task_completed,
}
use beam_drop.Transfer.Progress.Order.{
  IsAt, OneFile, Files, no_file, next_file, IsTask, Moves, no_move, one_move, Moves-append,
  OneFile-append, no_report, Reports, Reports-append, report_after,
}
use beam_drop.Transfer.Receiver.{
  Side, Receiver, made, create_directories, cut_output, opened, took, gave, next_packet,
  send_packet, trusted_resume_offset, keep_resume, report, open_output, take_data, receive_data,
  finish_file, receive_info, receive_one_file, receive_one_directory, report_task,
  receive_directories, receive_files, receive_task,
}

module _ (os : Os) (handle : Option ℕ) (receiver : Receiver) where
  open os use {State, pending}

  -- No event is reported.
  abbrev Quiet : {A : Type 0} → Side State → A → Side State → Type 0
  Quiet s a t = t.events ≡ s.events

  abbrev events_of : Side State → List ProgressEvent
  events_of s = s.events

  pub next_packet-Quiet : (s : Side State) → Ensures (Quiet s) (next_packet os handle receiver s)
  unfolding next_packet
  next_packet-Quiet s = of (read_packet os handle s.net)
    where
      of : (r : Result (Packet × State)) → Ensures (Quiet s) (took os handle receiver r s)
      of (ok (q, net)) = chain_ok (Quiet s) q (record s { net = net }) refl
      of (err e) = chain_err (Quiet s) e s

  send_packet-Quiet :
      (p : Packet) (s : Side State) → Ensures (Quiet s) (send_packet os handle receiver p s)
  unfolding send_packet
  send_packet-Quiet p s = of (write_packet os handle p s.net)
    where
      of : (r : Result State) → Ensures (Quiet s) (gave os handle receiver r s)
      of (ok net) = chain_ok (Quiet s) tt (record s { net = net }) refl
      of (err e) = chain_err (Quiet s) e s

  create_directories-Quiet :
      (ps : List Bytes) (s : Side State)
      → Ensures (Quiet s) (create_directories os handle receiver ps s)
  unfolding create_directories
  create_directories-Quiet ps s = of (make_directories s.can_make s.disk ps)
    where
      of : (d : Result Disk) → Ensures (Quiet s) (made os handle receiver d s)
      of (ok d) = chain_ok (Quiet s) tt _ refl
      of (err e) = chain_err (Quiet s) e s

  keep_resume-Quiet :
      (b : Bool) (r : Result StateFile) (s : Side State)
      → Ensures (Quiet s) (if b then keep_resume os handle receiver r s else (ok tt, s))
  keep_resume-Quiet true (ok f) s =
      chain_then (Quiet s) (Quiet s) _ _ (create_directories-Quiet (above receiver.state_file) s)
        λ u t same. chain_ok (Quiet s) tt _ same
  keep_resume-Quiet true (err e) s = chain_err (Quiet s) e s
  keep_resume-Quiet false r s = chain_ok (Quiet s) tt s refl

  module _ (info : FileInfo) (path : Bytes) (file_index file_count : ℕ) where
    cut_output-Quiet :
        (offset : ℕ) (s : Side State)
        → Ensures (Quiet s) (cut_output os handle receiver info path file_index file_count offset s)
    unfolding cut_output
    cut_output-Quiet zero s = chain_ok (Quiet s) tt s refl
    cut_output-Quiet (suc n) s = chain_guard (Quiet s) _ _ s _ λ can. chain_ok (Quiet s) tt _ refl

    opened-events :
        (offset : ℕ) (s : Side State)
        → (opened os handle receiver info path file_index file_count offset s).events ≡ s.events
    opened-events zero s = refl
    opened-events (suc n) s = refl

    open_output-Quiet :
        (ps : List Bytes) (s : Side State)
        → Ensures (Quiet s) (open_output os handle receiver info path file_index file_count ps s)
    unfolding open_output trusted_resume_offset
    open_output-Quiet ps s = chain_guard (Quiet s) _ _ s _ λ free.
        chain_then (Quiet s) (Quiet s) _ _ (create_directories-Quiet ps s) λ u r made.
          chain_then (Quiet r) (Quiet s) _ _
            (chain_if (Quiet r) receiver.enable_resume _ _
              (chain_result (Quiet r) _ r _ λ stored found. chain_ok (Quiet r) _ r refl)
              (chain_ok (Quiet r) 0 r refl))
            λ offset t same. chain_then (Quiet t) (Quiet s) _ _ (send_packet-Quiet _ t) λ u v same'.
              chain_then (Quiet v) (Quiet s) _ _ (cut_output-Quiet offset v) λ u w cut.
                chain_guard (Quiet s) _ _ w _ λ can_open.
                  chain_ok (Quiet s) offset _ (opened-events offset w ∙ cut ∙ same' ∙ same ∙ made)

    event : ℕ → Stage → ProgressEvent
    event bytes stage = record {
      direction = receive;
      relative_path = info.relative_path;
      current_file_bytes = bytes;
      current_file_total_bytes = info.size;
      file_index = file_index;
      file_count = file_count;
      stage = stage;
    }

    event-IsAt : (bytes : ℕ) (stage : Stage) → IsAt stage file_index file_count (event bytes stage)
    unfolding event
    event-IsAt bytes stage = record { stage_is = refl; index_is = refl; count_is = refl }

    -- Events of bytes of this file are reported.
    abbrev Moving : {A : Type 0} → Side State → A → Side State → Type 0
    Moving s a t =
        (es : List ProgressEvent) × Moves file_index file_count es × Reports events_of es s t

    take_data-Moving :
        (payload : Bytes) (received : ℕ) (s : Side State)
        → Ensures
            (Moving s)
            (take_data os handle receiver info path file_index file_count payload received s)
    unfolding take_data report event
    take_data-Moving payload received s = chain_guard (Moving s) _ _ s _ λ fits.
        chain_guard (Moving s) _ _ s _ λ written.
          chain_then (Quiet s) (Moving s) _ _ (keep_resume-Quiet receiver.enable_resume _ _)
            λ u t same. chain_ok (Moving s) _ _ (
              event ((received + length payload) % 2 ^ 64) transferring ∷ [],
              one_move (event-IsAt _ transferring) no_move,
              ap (λ x. x ++ event ((received + length payload) % 2 ^ 64) transferring ∷ []) same,
            )

    receive_data-Moving :
        (fuel received : ℕ) (s : Side State)
        → Ensures
            (Moving s)
            (receive_data os handle receiver info path file_index file_count fuel received s)
    unfolding receive_data
    receive_data-Moving zero received s = chain_err (Moving s) _ s
    receive_data-Moving (suc fuel) received s =
        chain_then (Quiet s) (Moving s) _ _ (next_packet-Quiet s) λ p t same.
          chain_if (Moving s) _ _ _
            (chain_ok (Moving s) _ t ([], no_move, no_report events_of s t same))
            (chain_if (Moving s) _ _ _ (chain_err (Moving s) _ t) (
              chain_then (Moving t) (Moving s) _ _ (take_data-Moving p.payload received t)
                λ n u (es, moves, reports).
                  chain_mono (Moving u) (Moving s) _
                    (λ m v (es', moves', reports'). (
                      es ++ es',
                      Moves-append moves moves',
                      Reports-append events_of es es' s u v
                          (report_after events_of es s t u same reports) reports',
                    ))
                    (receive_data-Moving fuel n u)))

    -- The event of the whole file is reported.
    Finished : {A : Type 0} → Side State → A → Side State → Type 0
    Finished s a t =
        (event : ProgressEvent) × IsAt file_completed file_index file_count event
        × Reports events_of (event ∷ []) s t

    finish_file-Finished :
        (received : ℕ) (s : Side State)
        → Ensures
            (Finished s)
            (finish_file os handle receiver info path file_index file_count received s)
    unfolding finish_file report Finished event
    finish_file-Finished received s =
        let Q = λ (u : Unit {0}) (t : Side State).
          (event : ProgressEvent) × IsAt file_completed file_index file_count event
          × Reports events_of (event ∷ []) s t in
        chain_guard Q _ _ s _ λ closed. chain_guard Q _ _ s _ λ size.
          chain_result Q _ s _ λ hash hashed. chain_guard Q _ _ s _ λ right.
            chain_then (Quiet s) Q _ _ (keep_resume-Quiet receiver.enable_resume _ s) λ u t same.
              chain_ok Q tt _ (
                event info.size file_completed,
                event-IsAt info.size file_completed,
                ap (λ x. x ++ event info.size file_completed ∷ []) same,
              )

  -- The events of one file.
  abbrev Received : {A : Type 0} → ℕ → ℕ → Side State → A → Side State → Type 0
  Received index count s a t =
      (es : List ProgressEvent) × OneFile index count es × Reports events_of es s t

  receive_info-Quiet : (s : Side State) → Ensures (Quiet s) (receive_info os handle receiver s)
  unfolding receive_info
  receive_info-Quiet s = chain_then (Quiet s) (Quiet s) _ _ (next_packet-Quiet s) λ p t same.
      chain_guard (Quiet s) _ _ t _ λ right_type. chain_self_of (FileInfo.decode p.payload) t same
    where
      chain_self_of :
          (r : Result FileInfo) (t : Side State) → t.events ≡ s.events → Ensures (Quiet s) (r, t)
      chain_self_of (ok info) t same = chain_ok (Quiet s) info t same
      chain_self_of (err e) t same = chain_err (Quiet s) e t

  receive_one_file-Received :
      (save_dir : Bytes) (index count : ℕ) (s : Side State)
      → Ensures
          (Received index count s)
          (receive_one_file os handle receiver save_dir index count s)
  unfolding receive_one_file Finished
  receive_one_file-Received save_dir index count s =
      let Q = λ (u : Unit {0}) (t : Side State). Received index count s u t in
      chain_then (Quiet s) Q _ _ (receive_info-Quiet s) λ info t same.
        chain_result Q _ t _ λ output_path safe.
          let path = place output_path in
          chain_then (Quiet t) Q _ _ (open_output-Quiet info path index count (above output_path) t)
            λ offset u same'.
              chain_then (Moving info path index count u) Q _ _
                (receive_data-Moving info path index count (suc (length (pending u.net))) offset u)
                λ received v (es, moves, reports).
                  chain_mono (Finished info path index count v) Q _
                    (λ z w (last, last_at, last_reports). (
                      es ++ last ∷ [],
                      OneFile-append moves last_at,
                      Reports-append events_of es (last ∷ []) s v w
                          (report_after events_of es s u v (same' ∙ same) reports) last_reports,
                    ))
                    (finish_file-Finished info path index count received v)

  receive_files-Files :
      (save_dir : Bytes) (n index count : ℕ) (s : Side State)
      → Ensures
          (λ u t.
            (es : List ProgressEvent) × Files count (index + 1) n es × Reports events_of es s t)
          (receive_files os handle receiver save_dir n index count s)
  unfolding receive_files
  receive_files-Files save_dir zero index count s =
      chain_ok _ tt s ([], no_file, no_report events_of s s refl)
  receive_files-Files save_dir (suc n) index count s =
      let Q = λ (u : Unit {0}) (t : Side State).
        (es : List ProgressEvent) × Files count (index + 1) (suc n) es × Reports events_of es s t in
      chain_then (Received (index + 1) count s) Q _ _
        (receive_one_file-Received save_dir (index + 1) count s)
        λ u t (es, one, reports).
          chain_mono _ Q _
            (λ z v (es', files, reports'). (
              es ++ es',
              next_file one files,
              Reports-append events_of es es' s t v reports reports',
            ))
            (receive_files-Files save_dir n (index + 1) count t)

  receive_directories-Quiet :
      (save_dir : Bytes) (n : ℕ) (s : Side State)
      → Ensures (Quiet s) (receive_directories os handle receiver save_dir n s)
  unfolding receive_directories receive_one_directory
  receive_directories-Quiet save_dir zero s = chain_ok (Quiet s) tt s refl
  receive_directories-Quiet save_dir (suc n) s =
      let Q = λ (u : Unit {0}) (t : Side State). Quiet s u t in
      chain_then (Quiet s) Q _ _
        (chain_then (Quiet s) Q _ _ (next_packet-Quiet s) λ p t same.
          chain_guard Q _ _ t _ λ right_type. chain_result Q _ t _ λ relative_path decoded.
            chain_result Q _ t _ λ path safe. chain_guard Q _ _ t _ λ free.
              chain_mono (Quiet t) Q _ (λ u v made. made ∙ same)
                (create_directories-Quiet (along path) t))
        λ u t same.
          chain_mono (Quiet t) Q _ (λ z v same'. same' ∙ same)
            (receive_directories-Quiet save_dir n t)

  task_event : ℕ → Stage → ℕ → ProgressEvent
  task_event count stage index = record {
    direction = receive;
    relative_path = [];
    current_file_bytes = 0;
    current_file_total_bytes = 0;
    file_index = index;
    file_count = count;
    stage = stage;
  }

  task_event-IsAt :
      (count : ℕ) (stage : Stage) (index : ℕ)
      → IsAt stage index count (task_event count stage index)
  unfolding task_event
  task_event-IsAt count stage index = record { stage_is = refl; index_is = refl; count_is = refl }

  report_task-Reports :
      (stage : Stage) (index count : ℕ) (s : Side State)
      → Reports events_of
          (task_event count stage index ∷ [])
          s
          (report_task os handle receiver stage index count s)
  unfolding report_task task_event
  report_task-Reports stage index count s = refl

  -- Reports the events of a whole task.
  abbrev pub Complete : {A : Type 0} → ℕ → Side State → A → Side State → Type 0
  Complete count s a t = (es : List ProgressEvent) × IsTask count es × Reports events_of es s t

  pub task-Complete :
      (save_dir : Bytes) (file_count directory_count : ℕ) (s : Side State)
      → Ensures
          (Complete file_count s)
          (receive_task os handle receiver save_dir file_count directory_count s)
  unfolding receive_task
  task-Complete save_dir file_count directory_count s =
      let Q = λ (u : Unit {0}) (t : Side State). Complete file_count s u t in
      let start = report_task os handle receiver task_started 0 file_count s in
      let first = task_event file_count task_started 0 in
      let last = task_event file_count task_completed file_count in
      chain_then _ Q _ _ (receive_directories-Quiet save_dir directory_count start) λ u t same.
        chain_then _ Q _ _ (receive_files-Files save_dir file_count 0 file_count t)
          λ u v (es, files, reports).
            let end = report_task os handle receiver task_completed file_count file_count v in
            let all =
              Reports-append events_of es (last ∷ []) start v end
                (report_after events_of es start t v same reports)
                (report_task-Reports task_completed file_count file_count v) in
            chain_ok Q tt end (
              first ∷ (es ++ last ∷ []),
              record {
                first = first;
                middle = es;
                last = last;
                events_are = refl;
                first_at = task_event-IsAt file_count task_started 0;
                files = files;
                last_at = task_event-IsAt file_count task_completed file_count;
              },
              Reports-append events_of (first ∷ []) (es ++ last ∷ []) s start end
                  (report_task-Reports task_started 0 file_count s) all,
            )

  -- A `receive_task` that returns without an exception has reported the start of the task, then for
  -- each file in turn events of its bytes and one of the file, and then the end of the task.
  pub receive_task-Complete :
      (save_dir : Bytes) (file_count directory_count : ℕ) (s t : Side State)
      → receive_task os handle receiver save_dir file_count directory_count s ≡ (ok tt, t)
      → Complete file_count s tt t
  receive_task-Complete save_dir file_count directory_count s t e =
      ensured (Complete file_count s) _ tt t e (task-Complete save_dir file_count directory_count s)
