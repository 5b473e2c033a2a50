-- ===== src/App/Tests.antt =====
-- A file of three bytes is sent and received by the services.
use beam_drop.Prelude.{
  ℕ, zero, suc, ◌≡◌, ◌↔◌, ◌≤◌, refl, ap, Bool, false, true, Option, none, some, List, [], ◌∷◌, ◌++◌,
  Bytes, if◌then◌else◌, same_bytes,
}
use beam_drop.Errors.{Result, ok}
use beam_drop.Text.{codes}
use beam_drop.Network.Pipe.{Pipe, pipe}
use beam_drop.Protocol.{make_packet, hello, file_info, data_chunk, file_end, finish}
use beam_drop.Protocol.Codec
use beam_drop.Payload.Manifest
use beam_drop.Payload.FileInfo
use beam_drop.Filesystem.{Node, regular, FileEntry, DirectoryEntry}
use beam_drop.Transfer.Disk.{file}
use beam_drop.Transfer.EndToEnd.{answer, announced}
use beam_drop.Transfer.Receiver.{Side, Receiver, plain_receiver, receive_task}
use beam_drop.Transfer.Receiver.Events.{Complete, receive_task-Complete}
use beam_drop.Transfer.Sender.{Origin, send_task}
use beam_drop.Transfer.Sender.Events.{Reported, send_task-Reported}
use beam_drop.App.{ServiceResult, success, failure, cancelled}
use beam_drop.App.Request.{
  SendRequest, SendResult, validate_unique_targets, directory_paths, file_paths,
}
use beam_drop.App.Request.Targets.{Distinct, validate_unique_targets-Distinct}
use beam_drop.App.Send.{check_cancelled, send_entries, try_send, send}
use beam_drop.App.Send.Framed.{Framed, send-Framed}
use beam_drop.App.Receive.{
  ReceiveRequest, ReceiveResult, validate_receive_request, receive_entries, try_receive, receive,
}
use beam_drop.Transfer.Task.{replies}
use beam_drop.App.Receive.Replies.{receive-replies}
use beam_drop.App.Receive.Answer.{receive-cancelled, receive-Counted}

abbrev pub hash_text : Bytes
hash_text = codes "ba7816bf8f01cfea414140de5dae2223b00361a396177a9cb410ff61f20015ad"

abbrev file_bytes : Bytes
file_bytes =
    Codec.encode
      (make_packet file_info (FileInfo.encode (announced (codes "a") (codes "abc") hash_text)))
    ++ (Codec.encode (make_packet data_chunk (codes "abc"))
        ++ Codec.encode (make_packet file_end []))

abbrev pub side : Bytes → Side Pipe
side inbox = record {
  net = record { inbox = inbox; outbox = [] };
  disk = λ path. none;
  access = record { readable = true; writable = true; has_room = true };
  events = [];
  can_make = true;
  can_cut = true;
  can_open = true;
  can_write = λ size. true;
  can_close = true;
}

abbrev plain : Receiver
plain = plain_receiver (codes "s")

abbrev task_run : Result (Unit {0}) × Side Pipe
task_run = receive_task pipe (some 5) plain (codes "in") 1 0 (side file_bytes)

abbrev request : ReceiveRequest
request = record { enable_resume = false; state_file = codes "s"; save_dir = codes "in" }

abbrev pub whole_stream : Bytes
whole_stream =
    Codec.encode (
      make_packet hello
        (Manifest.encode (record { file_count = 1; total_bytes = 3; directory_count = 0 })))
    ++ (file_bytes ++ Codec.encode (make_packet finish []))

abbrev receive_run : ServiceResult ReceiveResult × Side Pipe
receive_run = receive pipe (some 5) request (λ k. false) (side whole_stream)

-- The stop token is set from the second look on.
abbrev late : ℕ → Bool
late zero = false
late (suc k) = true

abbrev stopped_run : ServiceResult ReceiveResult × Side Pipe
stopped_run = receive pipe (some 5) request late (side whole_stream)

abbrev pub origin : Origin Pipe
origin = record {
  net = record { inbox = Codec.encode (answer 0); outbox = [] };
  disk = λ path. some (file (codes "abc"));
  events = [];
  can_open = true;
  can_seek = λ offset. true;
  can_read = λ offset. true;
  stops = λ looks. false;
  looks = 0;
}

abbrev pub one_file : List FileEntry
one_file = record { source_path = codes "out/a"; relative_path = codes "a"; size = 3 } ∷ []

abbrev sent_run : Result (Unit {0}) × Origin Pipe
sent_run = send_task pipe (some 5) 4 one_file [] origin

abbrev pub send_request : SendRequest
send_request = record { paths = codes "out/a" ∷ []; host = codes "h"; port = 9090; chunk_size = 4 }

abbrev pub names : Bytes → Option Node
names path = some (regular (codes "abc"))

abbrev pub send_run : ServiceResult SendResult × Origin Pipe
send_run = send pipe (some 5) send_request names (ok origin.net) origin

-- A file and a directory with one name.
abbrev a_directory : List DirectoryEntry
a_directory = record { source_path = codes "x/a"; relative_path = codes "a" } ∷ []

-- What the runs end with.
pub runs :
    (task_run.0 ≡ ok tt)
    × ((receive_run.0 ≡ success (record { file_count = 1 }))
        × ((stopped_run.0 ≡ failure cancelled)
            × ((sent_run.0 ≡ ok tt)
                × (((send_run.0 ≡ success (record { file_count = 1; total_bytes = 3 }))
                    × (send_run.1.net.outbox ≡ whole_stream))))))
unfolding beam_drop.Transfer.Chain.and_then beam_drop.Transfer.Disk.existing_file_size
    beam_drop.Transfer.Receiver.finish_file beam_drop.Transfer.Receiver.next_packet
    beam_drop.Transfer.Path.place beam_drop.Transfer.Path.above beam_drop.Transfer.Path.along
    beam_drop.Transfer.Path.way_down beam_drop.Transfer.Path.end_of beam_drop.Transfer.Path.names_of
    beam_drop.Transfer.Disk.make_directories beam_drop.Transfer.Receiver.create_directories
    beam_drop.Transfer.Receiver.cut_output beam_drop.Transfer.Receiver.open_output
    beam_drop.Transfer.Receiver.receive_data beam_drop.Transfer.Receiver.receive_info
    beam_drop.Transfer.Receiver.receive_one_file beam_drop.Transfer.Receiver.report
    beam_drop.Transfer.Receiver.send_packet beam_drop.Transfer.Receiver.take_data
    beam_drop.Transfer.Receiver.trusted_resume_offset beam_drop.Transfer.Path.has_dot_dot
    beam_drop.Transfer.Path.is_absolute beam_drop.Transfer.Path.join
    beam_drop.Transfer.Path.parts_of beam_drop.Transfer.Path.safe_join
    beam_drop.Json.escape_json_string beam_drop.Json.field_key beam_drop.Json.number_field
    beam_drop.Json.quoted beam_drop.Json.require_string_field beam_drop.Json.some_bytes
    beam_drop.Json.string_body beam_drop.Json.string_field beam_drop.Json.unescape_loop
    beam_drop.Protocol.Codec.encode beam_drop.Protocol.Codec.parse
    beam_drop.Protocol.Codec.parse_type beam_drop.Protocol.Codec.read_u16
    beam_drop.Protocol.Codec.read_u32 beam_drop.Protocol.Codec.read_be
    beam_drop.Protocol.Codec.read_u64 beam_drop.Protocol.Codec.read_bytes
    beam_drop.Protocol.Codec.append_u16 beam_drop.Protocol.Codec.append_u32
    beam_drop.Protocol.Codec.append_u64 beam_drop.Protocol.PacketIo.read_packet
    beam_drop.Protocol.PacketIo.read_payload beam_drop.Protocol.PacketIo.write_packet
    beam_drop.Network.Stream.call_size beam_drop.Network.Stream.read_exact
    beam_drop.Network.Stream.read_loop beam_drop.Network.Stream.write_all
    beam_drop.Network.Stream.write_loop beam_drop.Sha256.absorb beam_drop.Sha256.absorb_rest
    beam_drop.Sha256.extended beam_drop.Sha256.fill beam_drop.Sha256.final_blocks
    beam_drop.Sha256.final_hex beam_drop.Sha256.final_size beam_drop.Sha256.hash_chunks
    beam_drop.Sha256.hex_word beam_drop.Sha256.last_words beam_drop.Sha256.length_bytes
    beam_drop.Sha256.load_be32 beam_drop.Sha256.loaded beam_drop.Sha256.next_word
    beam_drop.Sha256.process_block beam_drop.Sha256.rotr beam_drop.Sha256.round
    beam_drop.Sha256.rounds beam_drop.Sha256.sha256_file beam_drop.Sha256.to_hex
    beam_drop.Sha256.update beam_drop.Sha256.whole_blocks beam_drop.Payload.ResumeAck.encode
    beam_drop.Payload.FileInfo.decode beam_drop.Payload.FileInfo.encode
    beam_drop.Payload.FileInfo.opens beam_drop.Payload.FileInfo.read_u64_group
    beam_drop.Payload.FileInfo.require_u64_field beam_drop.Resume.clear beam_drop.Resume.find_offset
    beam_drop.Resume.find_record beam_drop.Resume.load beam_drop.Resume.names_path
    beam_drop.Resume.objects beam_drop.Resume.read_number beam_drop.Resume.read_objects
    beam_drop.Resume.read_record beam_drop.Resume.record_text beam_drop.Resume.records_text
    beam_drop.Resume.require_number beam_drop.Resume.same_identity beam_drop.Resume.save
    beam_drop.Resume.set_offset beam_drop.Resume.state_text beam_drop.Resume.update_offset
    beam_drop.Resume.without beam_drop.Prelude.same_bytes beam_drop.Text.decimal
    beam_drop.Text.number_of beam_drop.Text.read_sign beam_drop.Text.search_first
    beam_drop.Text.skip_spaces beam_drop.Text.span beam_drop.Text.stoull beam_drop.Text.stoull_value
    beam_drop.Text.strip beam_drop.Payload.Manifest.parse_number
    beam_drop.Payload.Manifest.parse_u64_field beam_drop.Payload.Manifest.encode
    beam_drop.Payload.Manifest.decode beam_drop.Transfer.Receiver.receive_task
    beam_drop.Transfer.Receiver.receive_files beam_drop.Transfer.Receiver.receive_directories
    beam_drop.Transfer.Receiver.receive_one_directory beam_drop.Transfer.Receiver.report_task
    beam_drop.App.code_of beam_drop.App.code_of_transfer beam_drop.App.caught beam_drop.Text.getline
    validate_receive_request receive_entries try_receive receive beam_drop.Transfer.Sender.agree
    beam_drop.Transfer.Sender.check_stop beam_drop.Transfer.Sender.hash_source
    beam_drop.Transfer.Sender.hash_turns beam_drop.Transfer.Sender.next_packet
    beam_drop.Transfer.Sender.report beam_drop.Transfer.Sender.send_chunks
    beam_drop.Transfer.Sender.send_one_file beam_drop.Transfer.Sender.send_packet
    beam_drop.Payload.ResumeAck.decode beam_drop.Payload.ResumeAck.matches
    beam_drop.Payload.ResumeAck.offset_group beam_drop.Payload.ResumeAck.closes
    beam_drop.Payload.ResumeAck.read_offset beam_drop.Sha256.sha256_hex
    beam_drop.Transfer.Sender.send_task beam_drop.Transfer.Sender.send_files
    beam_drop.Transfer.Sender.send_directories beam_drop.Transfer.Sender.send_one_directory
    beam_drop.Transfer.Sender.report_task beam_drop.Transfer.Sender.make_sender
    beam_drop.Filesystem.Scanner.scan_files beam_drop.Filesystem.Scanner.scan_directories
    beam_drop.Filesystem.Normal.filename beam_drop.App.Request.add_sizes
    beam_drop.App.Request.insert_all beam_drop.App.Request.validate_unique_targets
    beam_drop.App.Request.validate_send_request beam_drop.App.Request.scan_all check_cancelled
    send_entries try_send send
runs = (refl, (refl, (refl, (refl, (refl, refl)))))

receive_task-Complete_example : Complete pipe (some 5) plain 1 (side file_bytes) tt task_run.1
receive_task-Complete_example =
    receive_task-Complete pipe (some 5) plain (codes "in") 1 0 (side file_bytes) task_run.1
      (ap (λ r. (r, task_run.1)) runs.0)

receive-Counted_example : Complete pipe (some 5) plain 1 (side whole_stream) tt receive_run.1
receive-Counted_example =
    receive-Counted pipe (some 5) request (λ k. false) (record { file_count = 1 })
      (side whole_stream) receive_run.1 (ap (λ r. (r, receive_run.1)) runs.1.0)

receive-replies_example :
    pipe.sent receive_run.1.net ≡ pipe.sent (side whole_stream).net ++ replies 1
receive-replies_example =
    receive-replies pipe 5 (codes "s") (codes "in") (λ k. false) (record { file_count = 1 })
      (side whole_stream) receive_run.1 (ap (λ r. (r, receive_run.1)) runs.1.0)

receive-cancelled_example : (k : ℕ) × (k ≤ 2) × (late k ≡ true)
receive-cancelled_example =
    receive-cancelled pipe (some 5) request late (side whole_stream) stopped_run.1
      (ap (λ r. (r, stopped_run.1)) runs.1.1.0)

send_task-Reported_example : Reported pipe (some 5) 1 origin tt sent_run.1
send_task-Reported_example =
    send_task-Reported pipe (some 5) 4 one_file [] origin sent_run.1
      (ap (λ r. (r, sent_run.1)) runs.1.1.1.0)

send-Framed_example :
    Framed pipe 5 send_request names
      (ok origin.net)
      (record { file_count = 1; total_bytes = 3 })
      origin
      send_run.1
send-Framed_example =
    send-Framed pipe 5 send_request names (ok origin.net)
      (record { file_count = 1; total_bytes = 3 }) origin send_run.1
      (ap (λ r. (r, send_run.1)) runs.1.1.1.1.0)

validate_unique_targets-Distinct_example :
    (validate_unique_targets one_file a_directory ≡ none)
    ↔ Distinct (directory_paths a_directory ++ file_paths one_file)
validate_unique_targets-Distinct_example = validate_unique_targets-Distinct one_file a_directory
