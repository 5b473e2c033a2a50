-- ===== src/Transfer/Receiver.antt =====
-- src/transfer/Receiver.cpp: a file is received into a disk, over a connection, with the resume
-- state. A call gives its result and the side it leaves, in the case of an exception too.
pub mod Safety
pub mod Fuel
pub mod Total
pub mod Frame
pub mod Steps
pub mod Whole
pub mod Events
use beam_drop.Prelude.{
  ℕ, zero, suc, ◌+◌, ◌%◌, ◌^◌, min, Bool, true, false, not, ◌&&◌, ◌||◌, Option, none, some, List,
  [], ◌∷◌, ◌++◌, Bytes, length, take, ltb, ◌==◌, if◌then◌else◌, same_bytes,
}
use beam_drop.Errors.{
  Result, ok, err, Exception, transfer, runtime, unexpected_packet, file_open_failed,
  file_write_failed, file_close_failed, size_mismatch, checksum_mismatch, throw_if,
}
use beam_drop.Network.{Os}
use beam_drop.Protocol.{
  Packet, PacketType, type_code, file_info, file_end, data_chunk, resume_ack, directory_info,
  make_packet,
}
use beam_drop.Protocol.PacketIo.{read_packet, write_packet}
use beam_drop.Payload.FileInfo
use beam_drop.Payload.ResumeAck
use beam_drop.Payload.DirectoryInfo
use beam_drop.Payload.FileInfo.{FileInfo}
use beam_drop.Resume.{StateFile, Identity, find_offset, update_offset, clear}
use beam_drop.Sha256.{sha256_file}
use beam_drop.Transfer.Chain.{Outcome, and_then}
use beam_drop.Transfer.Disk.{
  Disk, Entry, file, directory, put, exists, is_directory, make_directories, existing_file_size,
  content_of,
}
use beam_drop.Transfer.Progress.{
  ProgressEvent, receive, Stage, task_started, transferring, file_completed, task_completed,
}
use beam_drop.Transfer.Path.{place, above, along, safe_join, safe_directory_path}

-- `enable_resume_` and `state_file_` of a `Receiver`
pub record Receiver : Type 0 where
  pub enable_resume : Bool
  pub state_file : Bytes

abbrev pub plain_receiver : Bytes → Receiver
plain_receiver state_file = record { enable_resume = false; state_file = state_file }

-- What the system lets the resume manager do with its state file.
pub record Access : Type 0 where
  pub readable : Bool
  pub writable : Bool
  pub has_room : Bool

-- The receiver's surroundings: the connection, the disk, on which the resume state file is, the
-- events that its callback got, and whether the system lets directories be made, and an output file
-- be cut, opened, written (at a size) and closed.
pub record Side (State : Type 0) : Type 0 where
  pub net : State
  pub disk : Disk
  pub access : Access
  pub events : List ProgressEvent
  pub can_make : Bool
  pub can_cut : Bool
  pub can_open : Bool
  pub can_write : ℕ → Bool
  pub can_close : Bool

abbrev pub is_type : Packet → PacketType → Bool
is_type p t = type_code p.header.type == type_code t

abbrev pub identity_of : FileInfo → Identity
identity_of info = record { path = info.relative_path; size = info.size; sha256 = info.sha256 }

abbrev pub value_or : Option ℕ → ℕ
value_or none = 0
value_or (some n) = n

-- The state file, as the resume manager finds it at its place: a directory there can be neither read
-- nor written.
abbrev pub state_of : Option Entry → Access → StateFile
state_of none a = record {
  content = none;
  readable = a.readable;
  writable = a.writable;
  has_room = a.has_room;
}
state_of (some (file text)) a = record {
  content = some text;
  readable = a.readable;
  writable = a.writable;
  has_room = a.has_room;
}
state_of (some directory) a = record {
  content = some [];
  readable = false;
  writable = false;
  has_room = a.has_room;
}

module _ (os : Os) where
  open os use {State, pending}

  module _ (handle : Option ℕ) (receiver : Receiver) where
    abbrev pub took : Result (Packet × State) → Side State → Outcome (Side State) Packet
    took (ok (p, t)) s = (ok p, record s { net = t })
    took (err e) s = (err e, s)

    unfoldable pub next_packet : Side State → Outcome (Side State) Packet
    next_packet s = took (read_packet os handle s.net) s

    abbrev pub gave : Result State → Side State → Outcome (Side State) (Unit {0})
    gave (ok t) s = (ok tt, record s { net = t })
    gave (err e) s = (err e, s)

    unfoldable pub send_packet : Packet → Side State → Outcome (Side State) (Unit {0})
    send_packet p s = gave (write_packet os handle p s.net) s

    -- The resume manager's view of the disk.
    abbrev pub resume : Side State → StateFile
    resume s = state_of (s.disk (place receiver.state_file)) s.access

    -- `std::filesystem::create_directories`, of the places on the way
    abbrev pub made : Result Disk → Side State → Outcome (Side State) (Unit {0})
    made (ok disk) s = (ok tt, record s { disk = disk })
    made (err e) s = (err e, s)

    unfoldable pub create_directories : List Bytes → Side State → Outcome (Side State) (Unit {0})
    create_directories places s = made (make_directories s.can_make s.disk places) s

    unfoldable pub trusted_resume_offset : FileInfo → Bytes → Side State → Outcome (Side State) ℕ
    trusted_resume_offset info path s =
        and_then (find_offset (resume s) (identity_of info), s)
          λ stored s.
            (ok (min (min (value_or stored) (existing_file_size s.disk path)) info.size), s)

    -- The text of the state file is written to its place.
    abbrev pub stored : Option Bytes → Disk → Disk
    stored none disk = disk
    stored (some text) disk = put disk (place receiver.state_file) (file text)

    -- A call of the resume manager that changes the state file: `save` makes the directories above it
    -- first. What a `save` that throws leaves of the file and of these directories is not modelled.
    abbrev pub keep_resume : Result StateFile → Side State → Outcome (Side State) (Unit {0})
    keep_resume (ok f) s =
        and_then (create_directories (above receiver.state_file) s)
          λ u s. (ok tt, record s { disk = stored f.content s.disk })
    keep_resume (err e) s = (err e, s)

    module _ (info : FileInfo) (path : Bytes) (file_index file_count : ℕ) where
      unfoldable pub report : ℕ → Stage → Side State → Side State
      report bytes stage s = record s {
        events =
            s.events
            ++ (record {
              direction = receive;
              relative_path = info.relative_path;
              current_file_bytes = bytes;
              current_file_total_bytes = info.size;
              file_index = file_index;
              file_count = file_count;
              stage = stage;
            })
              ∷ [];
      }

      -- `std::filesystem::resize_file`, where the offset is not 0
      unfoldable pub cut_output : ℕ → Side State → Outcome (Side State) (Unit {0})
      cut_output zero s = (ok tt, s)
      cut_output (suc n) s =
          and_then (throw_if (not s.can_cut) runtime, s)
            λ u s. (
              ok tt,
              record s { disk = put s.disk path (file (take (suc n) (content_of (s.disk path)))) },
            )

      -- The stream that is opened, `trunc` or `app`.
      abbrev pub opened : ℕ → Side State → Side State
      opened zero s = record s { disk = put s.disk path (file []) }
      opened (suc n) s = s

      -- From the test of the target to the open output file, with the offset it begins at. The
      -- directories are those above the target.
      unfoldable pub open_output : List Bytes → Side State → Outcome (Side State) ℕ
      open_output directories s =
          and_then
            (
              throw_if (exists s.disk path && not receiver.enable_resume)
                  (transfer file_write_failed),
              s,
            )
            λ u s. and_then (create_directories directories s) λ u s.
              and_then
                (if receiver.enable_resume then trusted_resume_offset info path s else (ok 0, s))
                λ offset s.
                  and_then
                    (send_packet
                      (make_packet resume_ack (ResumeAck.encode (record { offset = offset }))) s)
                    λ u s. and_then (cut_output offset s) λ u s.
                      and_then
                        (
                          throw_if (not s.can_open || is_directory (s.disk path))
                              (transfer file_open_failed),
                          s,
                        )
                        λ u s. (ok offset, opened offset s)

      -- A DATA packet, with what has been received before it.
      unfoldable pub take_data : Bytes → ℕ → Side State → Outcome (Side State) ℕ
      take_data payload received s =
          let received_size = (received + length payload) % 2 ^ 64 in
          and_then (throw_if (ltb info.size received_size) (transfer size_mismatch), s)
            λ u s.
              and_then
                (
                  throw_if (not (length payload == 0) && not (s.can_write received_size))
                      (transfer file_write_failed),
                  s,
                )
                λ u s.
                  let written = record s {
                    disk = put s.disk path (file (content_of (s.disk path) ++ payload));
                  } in
                  and_then
                    (if receiver.enable_resume
                      then keep_resume
                          (update_offset (resume written) (identity_of info) received_size) written
                      else (ok tt, written))
                    λ u s. (ok received_size, report received_size transferring s)

      -- The loop: it ends with FILE_END. Each packet takes bytes of the stream.
      unfoldable pub receive_data : ℕ → ℕ → Side State → Outcome (Side State) ℕ
      receive_data zero received s = (err runtime, s)
      receive_data (suc fuel) received s = and_then (next_packet s) λ p s.
          let more =
            and_then (take_data p.payload received s)
              λ received_size s. receive_data fuel received_size s in
          if is_type p file_end
          then (ok received, s)
          else if not (is_type p data_chunk)
          then (err (transfer unexpected_packet), s)
          else more

      -- Behind the loop: the file is closed, and its size and its hash are compared.
      unfoldable pub finish_file : ℕ → Side State → Outcome (Side State) (Unit {0})
      finish_file received s =
          and_then (throw_if (not s.can_close) (transfer file_close_failed), s)
            λ u s.
              and_then (throw_if (not (received == info.size)) (transfer size_mismatch), s)
                λ u s.
                  and_then (sha256_file 1048576 (content_of (s.disk path)), s)
                    λ hash s.
                      and_then
                        (
                          throw_if (not (same_bytes hash info.sha256)) (transfer checksum_mismatch),
                          s,
                        )
                        λ u s.
                          and_then
                            (if receiver.enable_resume
                              then keep_resume (clear (resume s) (identity_of info)) s
                              else (ok tt, s))
                            λ u s. (ok tt, report info.size file_completed s)

    unfoldable pub receive_info : Side State → Outcome (Side State) FileInfo
    receive_info s = and_then (next_packet s) λ p s.
        and_then (throw_if (not (is_type p file_info)) (transfer unexpected_packet), s)
          λ u s. (FileInfo.decode p.payload, s)

    -- `Receiver::receive_one_file`
    unfoldable pub receive_one_file : Bytes → ℕ → ℕ → Side State → Outcome (Side State) (Unit {0})
    receive_one_file save_dir file_index file_count s = and_then (receive_info s) λ info s.
        and_then (safe_join save_dir info.relative_path, s)
          λ output_path s.
            let path = place output_path in
            and_then (open_output info path file_index file_count (above output_path) s) λ offset s.
              and_then
                (receive_data info path file_index file_count (suc (length (pending s.net))) offset
                  s)
                λ received s. finish_file info path file_index file_count received s

    -- `Receiver::receive_one_directory`
    unfoldable pub receive_one_directory : Bytes → Side State → Outcome (Side State) (Unit {0})
    receive_one_directory save_dir s = and_then (next_packet s) λ p s.
        and_then (throw_if (not (is_type p directory_info)) (transfer unexpected_packet), s)
          λ u s.
            and_then (DirectoryInfo.decode p.payload, s)
              λ relative_path s.
                and_then (safe_directory_path save_dir relative_path, s)
                  λ path s.
                    and_then (throw_if (exists s.disk (place path)) (transfer file_write_failed), s)
                      λ u s. create_directories (along path) s

    -- The task's own events name no file.
    unfoldable pub report_task : Stage → ℕ → ℕ → Side State → Side State
    report_task stage file_index file_count s = record s {
      events =
          s.events
          ++ (record {
            direction = receive;
            relative_path = [];
            current_file_bytes = 0;
            current_file_total_bytes = 0;
            file_index = file_index;
            file_count = file_count;
            stage = stage;
          })
            ∷ [];
    }

    -- The loop over the directories, with how many are left.
    unfoldable pub receive_directories : Bytes → ℕ → Side State → Outcome (Side State) (Unit {0})
    receive_directories save_dir zero s = (ok tt, s)
    receive_directories save_dir (suc n) s =
        and_then (receive_one_directory save_dir s) λ u s. receive_directories save_dir n s

    -- The loop over the files, with how many are left and the next index.
    unfoldable pub receive_files : Bytes → ℕ → ℕ → ℕ → Side State → Outcome (Side State) (Unit {0})
    receive_files save_dir zero index file_count s = (ok tt, s)
    receive_files save_dir (suc n) index file_count s =
        and_then (receive_one_file save_dir (index + 1) file_count s)
          λ u s. receive_files save_dir n (index + 1) file_count s

    -- `Receiver::receive_task`
    unfoldable pub receive_task : Bytes → ℕ → ℕ → Side State → Outcome (Side State) (Unit {0})
    receive_task save_dir file_count directory_count s =
        and_then
          (receive_directories save_dir directory_count (report_task task_started 0 file_count s))
          λ u s.
            and_then (receive_files save_dir file_count 0 file_count s)
              λ u s. (ok tt, report_task task_completed file_count file_count s)

    -- `Receiver::receive_file`
    unfoldable pub receive_file : Bytes → Side State → Outcome (Side State) (Unit {0})
    receive_file save_dir s = receive_task save_dir 1 0 s
