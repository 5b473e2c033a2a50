-- ===== src/Transfer/Tests.antt =====
-- A file of three bytes is received.
use beam_drop.Prelude.{◌≡◌, arith, refl, false, none, some, [], ◌∷◌, ◌++◌, Bytes, true}
use beam_drop.Errors.{ok, err, transfer, file_write_failed}
use beam_drop.Text.{codes}
use beam_drop.Protocol.{make_packet, directory_info, file_info, data_chunk, file_end}
use beam_drop.Protocol.Codec
use beam_drop.Network.Pipe.{Pipe, pipe}
use beam_drop.Payload.FileInfo
use beam_drop.Payload.FileInfo.{FileInfo}
use beam_drop.Transfer.Path.{
  place, safe_join, safe_join_lem, join, is_absolute, parts_of, escapes, has_dot_dot,
}
use beam_drop.Transfer.Chain.{Outcome}
use beam_drop.Transfer.Disk.{file, directory}
use beam_drop.Resume.{state_text}
use beam_drop.Transfer.Receiver.{
  Side, Receiver, receive_data, receive_info, receive_directories, receive_one_file,
}
use beam_drop.Transfer.Receiver.Fuel.{receive_data_fuel}

safe_joined : safe_join (codes "in") (codes "a/b") ≡ ok (codes "in/a/b")
safe_joined =
    unfold beam_drop.Prelude.same_bytes safe_join is_absolute parts_of has_dot_dot join in refl

safe_join_lem_example :
    (codes "in/a/b" ≡ join (codes "in") (codes "a/b"))
    × ((is_absolute (codes "a/b") ≡ false) × (escapes 0 (parts_of (codes "a/b")) ≡ false))
safe_join_lem_example = safe_join_lem (codes "in") (codes "a/b") (codes "in/a/b") safe_joined

abbrev three_bytes : FileInfo
three_bytes = record {
  relative_path = codes "a";
  size = 3;
  sha256 = codes "ba7816bf8f01cfea414140de5dae2223b00361a396177a9cb410ff61f20015ad";
}

abbrev sent_bytes : Bytes
sent_bytes =
    Codec.encode (make_packet file_info (FileInfo.encode three_bytes))
    ++ (Codec.encode (make_packet data_chunk (codes "abc"))
        ++ Codec.encode (make_packet file_end []))

abbrev receiver : Receiver
receiver = record { enable_resume = true; state_file = codes "s.json" }

abbrev before : Side Pipe
before = record {
  net = record { inbox = sent_bytes; outbox = [] };
  disk = λ path. none;
  access = record { readable = true; writable = true; has_room = true };
  events = [];
  can_make = true;
  can_cut = true;
  can_open = true;
  can_write = λ size. true;
  can_close = true;
}

-- The peer names the state file: the file passes the tests, and is then written over.
abbrev its_name : FileInfo
its_name = record {
  relative_path = codes "s.json";
  size = 0;
  sha256 = codes "e3b0c44298fc1c149afbf4c8996fb92427ae41e4649b934ca495991b7852b855";
}

abbrev clash : Side Pipe
clash = record before {
  net = record {
    inbox =
        Codec.encode (make_packet file_info (FileInfo.encode its_name))
        ++ Codec.encode (make_packet file_end []);
    outbox = [];
  };
}

abbrev clashed : Outcome (Side Pipe) (Unit {0})
clashed = receive_one_file pipe (some 5) receiver (codes ".") 1 1 clash

overwritten : (clashed.0 ≡ ok tt) × (clashed.1.disk (codes "s.json") ≡ some (file (state_text [])))
unfolding beam_drop.Transfer.Chain.and_then beam_drop.Transfer.Disk.existing_file_size
    beam_drop.Transfer.Receiver.finish_file beam_drop.Transfer.Receiver.next_packet
    beam_drop.Transfer.Path.place beam_drop.Transfer.Path.above beam_drop.Transfer.Path.along
    beam_drop.Transfer.Path.way_down beam_drop.Transfer.Path.end_of beam_drop.Transfer.Path.names_of
    beam_drop.Transfer.Disk.make_directories beam_drop.Transfer.Receiver.create_directories
    beam_drop.Transfer.Receiver.cut_output beam_drop.Transfer.Receiver.open_output
    beam_drop.Transfer.Receiver.receive_data beam_drop.Transfer.Receiver.receive_info
    beam_drop.Transfer.Receiver.receive_one_file beam_drop.Transfer.Receiver.report
    beam_drop.Transfer.Receiver.send_packet beam_drop.Transfer.Receiver.take_data
    beam_drop.Transfer.Receiver.trusted_resume_offset beam_drop.Transfer.Path.has_dot_dot
    beam_drop.Transfer.Path.is_absolute beam_drop.Transfer.Path.join
    beam_drop.Transfer.Path.parts_of beam_drop.Transfer.Path.safe_join
    beam_drop.Json.escape_json_string beam_drop.Json.field_key beam_drop.Json.number_field
    beam_drop.Json.quoted beam_drop.Json.require_string_field beam_drop.Json.some_bytes
    beam_drop.Json.string_body beam_drop.Json.string_field beam_drop.Json.unescape_loop
    beam_drop.Protocol.Codec.encode beam_drop.Protocol.Codec.parse
    beam_drop.Protocol.Codec.parse_type beam_drop.Protocol.Codec.read_u16
    beam_drop.Protocol.Codec.read_u32 beam_drop.Protocol.Codec.read_be
    beam_drop.Protocol.Codec.read_u64 beam_drop.Protocol.Codec.read_bytes
    beam_drop.Protocol.Codec.append_u16 beam_drop.Protocol.Codec.append_u32
    beam_drop.Protocol.Codec.append_u64 beam_drop.Protocol.PacketIo.read_packet
    beam_drop.Protocol.PacketIo.read_payload beam_drop.Protocol.PacketIo.write_packet
    beam_drop.Network.Stream.call_size beam_drop.Network.Stream.read_exact
    beam_drop.Network.Stream.read_loop beam_drop.Network.Stream.write_all
    beam_drop.Network.Stream.write_loop beam_drop.Sha256.absorb beam_drop.Sha256.absorb_rest
    beam_drop.Sha256.extended beam_drop.Sha256.fill beam_drop.Sha256.final_blocks
    beam_drop.Sha256.final_hex beam_drop.Sha256.final_size beam_drop.Sha256.hash_chunks
    beam_drop.Sha256.hex_word beam_drop.Sha256.last_words beam_drop.Sha256.length_bytes
    beam_drop.Sha256.load_be32 beam_drop.Sha256.loaded beam_drop.Sha256.next_word
    beam_drop.Sha256.process_block beam_drop.Sha256.rotr beam_drop.Sha256.round
    beam_drop.Sha256.rounds beam_drop.Sha256.sha256_file beam_drop.Sha256.to_hex
    beam_drop.Sha256.update beam_drop.Sha256.whole_blocks beam_drop.Payload.ResumeAck.encode
    beam_drop.Payload.FileInfo.decode beam_drop.Payload.FileInfo.encode
    beam_drop.Payload.FileInfo.opens beam_drop.Payload.FileInfo.read_u64_group
    beam_drop.Payload.FileInfo.require_u64_field beam_drop.Resume.clear beam_drop.Resume.find_offset
    beam_drop.Resume.find_record beam_drop.Resume.load beam_drop.Resume.names_path
    beam_drop.Resume.objects beam_drop.Resume.read_number beam_drop.Resume.read_objects
    beam_drop.Resume.read_record beam_drop.Resume.record_text beam_drop.Resume.records_text
    beam_drop.Resume.require_number beam_drop.Resume.same_identity beam_drop.Resume.save
    beam_drop.Resume.set_offset beam_drop.Resume.state_text beam_drop.Resume.update_offset
    beam_drop.Resume.without beam_drop.Prelude.same_bytes beam_drop.Text.decimal
    beam_drop.Text.number_of beam_drop.Text.read_sign beam_drop.Text.search_first
    beam_drop.Text.skip_spaces beam_drop.Text.span beam_drop.Text.stoull beam_drop.Text.stoull_value
    beam_drop.Text.strip
overwritten = (refl, refl)

-- The end of a file, as the next packet.
abbrev at_end : Side Pipe
at_end = record before {
  net = record { inbox = Codec.encode (make_packet file_end []); outbox = [] };
}

receive_data_fuel_example :
    receive_data pipe (some 5) receiver three_bytes (codes "in/a") 1 1 53 3 at_end
    ≡ receive_data pipe (some 5) receiver three_bytes (codes "in/a") 1 1 60 3 at_end
receive_data_fuel_example =
    receive_data_fuel pipe 5 receiver three_bytes (codes "in/a") 1 1 53 60 3 at_end
      (unfold Codec.encode Codec.append_u16 Codec.append_u32 Codec.append_u64 in omega arith)
      (unfold Codec.encode Codec.append_u16 Codec.append_u32 Codec.append_u64 in omega arith)

-- A directory that was made on the way to another one is refused when it is announced itself.
abbrev nested : Side Pipe
nested = record before {
  net = record {
    inbox =
        Codec.encode (make_packet directory_info (codes "a/b"))
        ++ Codec.encode (make_packet directory_info (codes "a"));
    outbox = [];
  };
}

abbrev made_nested : Outcome (Side Pipe) (Unit {0})
made_nested = receive_directories pipe (some 5) receiver (codes "in") 2 nested

nested_runs :
    (made_nested.0 ≡ err (transfer file_write_failed))
    × (made_nested.1.disk (codes "in/a/b") ≡ some directory)
    × (made_nested.1.disk (codes "in/a") ≡ some directory)
unfolding beam_drop.Transfer.Chain.and_then beam_drop.Transfer.Disk.existing_file_size
    beam_drop.Transfer.Receiver.finish_file beam_drop.Transfer.Receiver.next_packet
    beam_drop.Transfer.Path.place beam_drop.Transfer.Path.above beam_drop.Transfer.Path.along
    beam_drop.Transfer.Path.way_down beam_drop.Transfer.Path.end_of beam_drop.Transfer.Path.names_of
    beam_drop.Transfer.Disk.make_directories beam_drop.Transfer.Receiver.create_directories
    beam_drop.Transfer.Receiver.cut_output beam_drop.Transfer.Receiver.open_output
    beam_drop.Transfer.Receiver.receive_data beam_drop.Transfer.Receiver.receive_info
    beam_drop.Transfer.Receiver.receive_one_file beam_drop.Transfer.Receiver.report
    beam_drop.Transfer.Receiver.send_packet beam_drop.Transfer.Receiver.take_data
    beam_drop.Transfer.Receiver.trusted_resume_offset beam_drop.Transfer.Path.has_dot_dot
    beam_drop.Transfer.Path.is_absolute beam_drop.Transfer.Path.join
    beam_drop.Transfer.Path.parts_of beam_drop.Transfer.Path.safe_join
    beam_drop.Json.escape_json_string beam_drop.Json.field_key beam_drop.Json.number_field
    beam_drop.Json.quoted beam_drop.Json.require_string_field beam_drop.Json.some_bytes
    beam_drop.Json.string_body beam_drop.Json.string_field beam_drop.Json.unescape_loop
    beam_drop.Protocol.Codec.encode beam_drop.Protocol.Codec.parse
    beam_drop.Protocol.Codec.parse_type beam_drop.Protocol.Codec.read_u16
    beam_drop.Protocol.Codec.read_u32 beam_drop.Protocol.Codec.read_be
    beam_drop.Protocol.Codec.read_u64 beam_drop.Protocol.Codec.read_bytes
    beam_drop.Protocol.Codec.append_u16 beam_drop.Protocol.Codec.append_u32
    beam_drop.Protocol.Codec.append_u64 beam_drop.Protocol.PacketIo.read_packet
    beam_drop.Protocol.PacketIo.read_payload beam_drop.Protocol.PacketIo.write_packet
    beam_drop.Network.Stream.call_size beam_drop.Network.Stream.read_exact
    beam_drop.Network.Stream.read_loop beam_drop.Network.Stream.write_all
    beam_drop.Network.Stream.write_loop beam_drop.Sha256.absorb beam_drop.Sha256.absorb_rest
    beam_drop.Sha256.extended beam_drop.Sha256.fill beam_drop.Sha256.final_blocks
    beam_drop.Sha256.final_hex beam_drop.Sha256.final_size beam_drop.Sha256.hash_chunks
    beam_drop.Sha256.hex_word beam_drop.Sha256.last_words beam_drop.Sha256.length_bytes
    beam_drop.Sha256.load_be32 beam_drop.Sha256.loaded beam_drop.Sha256.next_word
    beam_drop.Sha256.process_block beam_drop.Sha256.rotr beam_drop.Sha256.round
    beam_drop.Sha256.rounds beam_drop.Sha256.sha256_file beam_drop.Sha256.to_hex
    beam_drop.Sha256.update beam_drop.Sha256.whole_blocks beam_drop.Payload.ResumeAck.encode
    beam_drop.Payload.FileInfo.decode beam_drop.Payload.FileInfo.encode
    beam_drop.Payload.FileInfo.opens beam_drop.Payload.FileInfo.read_u64_group
    beam_drop.Payload.FileInfo.require_u64_field beam_drop.Resume.clear beam_drop.Resume.find_offset
    beam_drop.Resume.find_record beam_drop.Resume.load beam_drop.Resume.names_path
    beam_drop.Resume.objects beam_drop.Resume.read_number beam_drop.Resume.read_objects
    beam_drop.Resume.read_record beam_drop.Resume.record_text beam_drop.Resume.records_text
    beam_drop.Resume.require_number beam_drop.Resume.same_identity beam_drop.Resume.save
    beam_drop.Resume.set_offset beam_drop.Resume.state_text beam_drop.Resume.update_offset
    beam_drop.Resume.without beam_drop.Prelude.same_bytes beam_drop.Text.decimal
    beam_drop.Text.number_of beam_drop.Text.read_sign beam_drop.Text.search_first
    beam_drop.Text.skip_spaces beam_drop.Text.span beam_drop.Text.stoull beam_drop.Text.stoull_value
    beam_drop.Text.strip beam_drop.Transfer.Receiver.receive_directories
    beam_drop.Transfer.Receiver.receive_one_directory beam_drop.Transfer.Path.safe_directory_path
    beam_drop.Payload.DirectoryInfo.decode
nested_runs = (refl, refl, refl)
