-- ===== src/Transfer/Sender.antt =====
-- src/transfer/Sender.cpp: files are sent over a connection, from a disk. A call gives its result and
-- the side it leaves, in the case of an exception too.
pub mod Sent
pub mod Delivered
pub mod Growth
pub mod Events
use beam_drop.Prelude.{
  ℕ, zero, suc, ◌+◌, ◌%◌, ◌^◌, Bool, true, false, not, Option, none, some, List, [], ◌∷◌, ◌++◌,
  Bytes, length, take, drop, ltb, ◌==◌, if◌then◌else◌,
}
use beam_drop.Errors.{
  Result, ok, err, Exception, transfer, runtime, invalid_configuration, unexpected_packet,
  invalid_resume_offset, file_open_failed, file_read_failed, cancelled, throw_if,
}
use beam_drop.Filesystem.{Node, FileEntry, DirectoryEntry}
use beam_drop.Filesystem.Scanner.{scan_files, scan_directories}
use beam_drop.Network.{Os}
use beam_drop.Protocol.{
  Packet, PacketType, type_code, file_info, file_end, data_chunk, resume_ack, directory_info,
  make_packet,
}
use beam_drop.Protocol.PacketIo.{read_packet, write_packet}
use beam_drop.Payload.FileInfo
use beam_drop.Payload.ResumeAck
use beam_drop.Payload.ResumeAck.{ResumeAck}
use beam_drop.Payload.DirectoryInfo
use beam_drop.Payload.FileInfo.{FileInfo}
use beam_drop.Sha256.{Sha256, new, update, final_hex}
use beam_drop.Transfer.Chain.{Outcome, Act, ◌>>=◌, ◌>>◌, lift, get, modify}
use beam_drop.Transfer.Disk.{Disk, Entry, file, content_of}
use beam_drop.Transfer.Progress.{
  ProgressEvent, send, Stage, task_started, transferring, file_completed, task_completed,
}

-- The sender's surroundings: the connection, the disk, the events that its callback got, and whether
-- the system lets an input file be opened, placed at an offset and read at one. The k-th look at
-- the stop token sees `stops k`; `looks` counts them.
pub record Origin (State : Type 0) : Type 0 where
  pub net : State
  pub disk : Disk
  pub events : List ProgressEvent
  pub can_open : Bool
  pub can_seek : ℕ → Bool
  pub can_read : ℕ → Bool
  pub stops : ℕ → Bool
  pub looks : ℕ

abbrev pub is_type : Packet → PacketType → Bool
is_type p t = type_code p.header.type == type_code t

-- `std::filesystem::file_size`, which throws where there is no regular file
abbrev pub file_content : Option Entry → Result Bytes
file_content (some (file content)) = ok content
file_content _ = err runtime

module _ (os : Os) where
  open os use {State}

  abbrev Run : Type 0 → Type 0
  Run A = Act (Origin State) A

  -- `if (stop_token_.stop_requested()) throw …`
  unfoldable pub check_stop : Run (Unit {0})
  check_stop s = (throw_if (s.stops s.looks) (transfer cancelled), record s { looks = s.looks + 1 })

  -- `sha256_file` with a stop token: the loop looks at it before each read.
  unfoldable pub hash_turns : ℕ → ℕ → ℕ → Bytes → Sha256 → Run Sha256
  hash_turns zero chunk_size offset content x = lift (err runtime)
  hash_turns (suc fuel) chunk_size offset content x = do
    check_stop
    s ← get
    lift (throw_if (not (s.can_read offset)) runtime)
    let chunk = take chunk_size (drop offset content)
    y ← lift (if 0 == length chunk then ok x else update x chunk)
    let go_on = hash_turns fuel chunk_size (offset + length chunk) content y
    if ltb (length chunk) chunk_size then lift (ok y) else go_on

  unfoldable pub hash_source : ℕ → Bytes → Run Bytes
  hash_source chunk_size content = do
    lift (throw_if (0 == chunk_size) runtime)
    s ← get
    lift (throw_if (not s.can_open) runtime)
    x ← hash_turns (suc (length content)) chunk_size 0 content new
    lift (ok (final_hex x).0)

  module _ (handle : Option ℕ) where
    abbrev pub took : Result (Packet × State) → Run Packet
    took (ok (p, t)) s = (ok p, record s { net = t })
    took (err e) s = (err e, s)

    unfoldable pub next_packet : Run Packet
    next_packet s = took (read_packet os handle s.net) s

    abbrev pub gave : Result State → Run (Unit {0})
    gave (ok t) s = (ok tt, record s { net = t })
    gave (err e) s = (err e, s)

    unfoldable pub send_packet : Packet → Run (Unit {0})
    send_packet p s = gave (write_packet os handle p s.net) s

    abbrev pub note : ProgressEvent → Run (Unit {0})
    note event = modify λ s. record s { events = s.events ++ event ∷ [] }

    module _ (relative_path content : Bytes) (file_index file_count : ℕ) where
      unfoldable pub report : ℕ → Stage → Run (Unit {0})
      report bytes stage = note (record {
        direction = send;
        relative_path = relative_path;
        current_file_bytes = bytes;
        current_file_total_bytes = length content;
        file_index = file_index;
        file_count = file_count;
        stage = stage;
      })

      -- The FILE_INFO packet, and the offset that the receiver answers with.
      unfoldable pub agree : Bytes → Run ℕ
      agree file_hash = do
        send_packet (
            make_packet file_info (
              FileInfo.encode (record {
                relative_path = relative_path;
                size = length content;
                sha256 = file_hash;
              })))
        ack_packet ← next_packet
        lift (throw_if (not (is_type ack_packet resume_ack)) (transfer unexpected_packet))
        ack ← lift (ResumeAck.decode ack_packet.payload)
        lift (throw_if (ltb (length content) (ack.offset)) (transfer invalid_resume_offset))
        lift (ok ack.offset)

      -- The loop over the chunks, from `offset` on. A read that fails gives no bytes and does not
      -- reach the end of the file.
      unfoldable pub send_chunks : ℕ → ℕ → ℕ → ℕ → Run (Unit {0})
      send_chunks zero chunk_size offset sent_size = lift (err runtime)
      send_chunks (suc fuel) chunk_size offset sent_size = do
        check_stop
        s ← get
        lift (throw_if (not (s.can_read offset)) (transfer file_read_failed))
        let chunk = take chunk_size (drop offset content)
        let sent_now = (sent_size + length chunk) % 2 ^ 64
        let go_on = send_chunks fuel chunk_size (offset + length chunk) sent_now
        let after = if ltb (length chunk) chunk_size then lift (ok tt) else go_on
        let sending = do
          send_packet (make_packet data_chunk chunk)
          report sent_now transferring
          after
        if 0 == length chunk then lift (ok tt) else sending

    -- `Sender::send_one_file`, of a sender with a chunk size
    unfoldable pub send_one_file : ℕ → Bytes → Bytes → ℕ → ℕ → Run (Unit {0})
    send_one_file chunk_size source_path relative_path file_index file_count = do
      check_stop
      s ← get
      content ← lift (file_content (s.disk source_path))
      file_hash ← hash_source chunk_size content
      offset ← agree relative_path content file_index file_count file_hash
      s ← get
      lift (throw_if (not s.can_open) (transfer file_open_failed))
      lift (throw_if (not (s.can_seek offset)) (transfer file_read_failed))
      send_chunks relative_path content file_index file_count (suc (length content)) chunk_size
          offset offset
      send_packet (make_packet file_end [])
      report relative_path content file_index file_count (length content) file_completed

    -- `Sender::send_one_directory`
    unfoldable pub send_one_directory : Bytes → Run (Unit {0})
    send_one_directory relative_path = do
      payload ← lift (DirectoryInfo.encode relative_path)
      send_packet (make_packet directory_info payload)

    unfoldable pub send_directories : List DirectoryEntry → Run (Unit {0})
    send_directories [] = lift (ok tt)
    send_directories (entry ∷ rest) = do
      check_stop
      send_one_directory entry.relative_path
      send_directories rest

    -- The loop over the files, with the index of the next one.
    unfoldable pub send_files : ℕ → List FileEntry → ℕ → ℕ → Run (Unit {0})
    send_files chunk_size [] index file_count = lift (ok tt)
    send_files chunk_size (entry ∷ rest) index file_count = do
      check_stop
      send_one_file chunk_size entry.source_path entry.relative_path (index + 1) file_count
      send_files chunk_size rest (index + 1) file_count

    unfoldable pub report_task : Stage → ℕ → ℕ → Run (Unit {0})
    report_task stage file_index file_count = note (record {
      direction = send;
      relative_path = [];
      current_file_bytes = 0;
      current_file_total_bytes = 0;
      file_index = file_index;
      file_count = file_count;
      stage = stage;
    })

    -- `Sender::send_task`
    unfoldable pub send_task : ℕ → List FileEntry → List DirectoryEntry → Run (Unit {0})
    send_task chunk_size entries directories = do
      report_task task_started 0 (length entries)
      send_directories directories
      send_files chunk_size entries 0 (length entries)
      report_task task_completed (length entries) (length entries)

    -- `Sender::send_file`
    unfoldable pub send_file : ℕ → Bytes → Bytes → Run (Unit {0})
    send_file chunk_size source_path relative_path = do
      s ← get
      content ← lift (file_content (s.disk source_path))
      send_task chunk_size
          (record {
            source_path = source_path;
            relative_path = relative_path;
            size = length content;
          }
            ∷ [])
          []

    -- `Sender::send_path`, of a path and what it names
    unfoldable pub send_path : ℕ → Bytes → Option Node → Run (Unit {0})
    send_path chunk_size path node = do
      entries ← lift (scan_files path node)
      directories ← lift (scan_directories path node)
      send_task chunk_size entries directories

-- The constructor of `Sender`
unfoldable pub make_sender : ℕ → Result ℕ
make_sender chunk_size = elim (chunk_size == 0) [
  | true ↦ err (transfer invalid_configuration)
  | false ↦ ok chunk_size
]
