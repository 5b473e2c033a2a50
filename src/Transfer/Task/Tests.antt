-- ===== src/Transfer/Task/Tests.antt =====
-- A task of one directory and one file of three bytes.
use beam_drop.Prelude.{
  All, ◌≢◌, ◌≡◌, ◌≢◌, refl, ap, arith, false, true, none, some, List, [], ◌∷◌, ◌++◌, Bytes, length,
  ◌+◌, ◌<◌, ◌^◌,
}
use beam_drop.Errors.{Result, ok}
use beam_drop.Text.{codes}
use beam_drop.Filesystem.{FileEntry, DirectoryEntry}
use beam_drop.Network.Pipe.{Pipe, pipe}
use beam_drop.Protocol.{make_packet, directory_info, file_info, data_chunk, file_end}
use beam_drop.Protocol.Codec
use beam_drop.Payload.FileInfo
use beam_drop.Transfer.Chain.{Yields}
use beam_drop.Transfer.Disk.{file}
use beam_drop.Transfer.Path.{
  names_of, place, above, along, way_down, end_of, safe_join, safe_directory_path, join,
  is_absolute, parts_of, has_dot_dot,
}
use beam_drop.Transfer.Sender.{Origin, send_task}
use beam_drop.Transfer.Receiver.{plain_receiver, Side, receive_task}
use beam_drop.Transfer.Receiver.Total.{IsBroken}
use beam_drop.Transfer.EndToEnd.{answer, announced}
use beam_drop.Transfer.EndToEnd.Tests.{hash_text, hashed}
use beam_drop.Transfer.Task.{Ready, Orderly, folders, files, Parcel, replies, Expects}
use beam_drop.Transfer.Task.Delivery.{Delivers, task_transferred}

abbrev entries : List FileEntry
entries = record { source_path = codes "out/a"; relative_path = codes "a"; size = 3 } ∷ []

abbrev directories : List DirectoryEntry
directories = record { source_path = codes "out/d"; relative_path = codes "d" } ∷ []

abbrev parcels : List Parcel
parcels = record { path = codes "in/a"; content = codes "abc"; hash = hash_text } ∷ []

-- The other end answers that it has nothing.
abbrev source : Origin Pipe
source = record {
  net = record { inbox = Codec.encode (answer 0); outbox = [] };
  disk = λ path. some (file (codes "abc"));
  events = [];
  can_open = true;
  can_seek = λ offset. true;
  can_read = λ offset. true;
  stops = λ looks. false;
  looks = 0;
}

abbrev sent_bytes : Bytes
sent_bytes =
    Codec.encode (make_packet directory_info (codes "d"))
    ++ (Codec.encode
          (make_packet file_info (FileInfo.encode (announced (codes "a") (codes "abc") hash_text)))
        ++ (Codec.encode (make_packet data_chunk (codes "abc"))
            ++ Codec.encode (make_packet file_end [])))

abbrev run : Result (Unit {0}) × Origin Pipe
run = send_task pipe (some 5) 4 entries directories source

run_sends : (run.0 ≡ ok tt) × (run.1.net.outbox ≡ sent_bytes)
unfolding beam_drop.Transfer.Sender.agree beam_drop.Transfer.Sender.check_stop
    beam_drop.Transfer.Sender.hash_source beam_drop.Transfer.Sender.hash_turns
    beam_drop.Transfer.Sender.next_packet beam_drop.Transfer.Sender.report
    beam_drop.Transfer.Sender.send_chunks beam_drop.Transfer.Sender.send_one_file
    beam_drop.Transfer.Sender.send_packet beam_drop.Transfer.Chain.and_then
    beam_drop.Transfer.Disk.existing_file_size beam_drop.Json.escape_json_string
    beam_drop.Json.field_key beam_drop.Json.number_field beam_drop.Json.quoted
    beam_drop.Json.require_string_field beam_drop.Json.some_bytes beam_drop.Json.string_body
    beam_drop.Json.string_field beam_drop.Json.unescape_loop beam_drop.Protocol.Codec.encode
    beam_drop.Protocol.Codec.parse beam_drop.Protocol.Codec.parse_type
    beam_drop.Protocol.Codec.read_u16 beam_drop.Protocol.Codec.read_u32
    beam_drop.Protocol.Codec.read_be beam_drop.Protocol.Codec.read_u64
    beam_drop.Protocol.Codec.read_bytes beam_drop.Protocol.Codec.append_u16
    beam_drop.Protocol.Codec.append_u32 beam_drop.Protocol.Codec.append_u64
    beam_drop.Protocol.PacketIo.read_packet beam_drop.Protocol.PacketIo.read_payload
    beam_drop.Protocol.PacketIo.write_packet beam_drop.Network.Stream.call_size
    beam_drop.Network.Stream.read_exact beam_drop.Network.Stream.read_loop
    beam_drop.Network.Stream.write_all beam_drop.Network.Stream.write_loop beam_drop.Sha256.absorb
    beam_drop.Sha256.absorb_rest beam_drop.Sha256.extended beam_drop.Sha256.fill
    beam_drop.Sha256.final_blocks beam_drop.Sha256.final_hex beam_drop.Sha256.final_size
    beam_drop.Sha256.hash_chunks beam_drop.Sha256.hex_word beam_drop.Sha256.last_words
    beam_drop.Sha256.length_bytes beam_drop.Sha256.load_be32 beam_drop.Sha256.loaded
    beam_drop.Sha256.next_word beam_drop.Sha256.process_block beam_drop.Sha256.rotr
    beam_drop.Sha256.round beam_drop.Sha256.rounds beam_drop.Sha256.sha256_file
    beam_drop.Sha256.to_hex beam_drop.Sha256.update beam_drop.Sha256.whole_blocks
    beam_drop.Payload.ResumeAck.encode beam_drop.Payload.FileInfo.decode
    beam_drop.Payload.FileInfo.encode beam_drop.Payload.FileInfo.opens
    beam_drop.Payload.FileInfo.read_u64_group beam_drop.Payload.FileInfo.require_u64_field
    beam_drop.Prelude.same_bytes beam_drop.Text.decimal beam_drop.Text.number_of
    beam_drop.Text.read_sign beam_drop.Text.search_first beam_drop.Text.skip_spaces
    beam_drop.Text.span beam_drop.Text.stoull beam_drop.Text.stoull_value beam_drop.Text.strip
    beam_drop.Payload.ResumeAck.decode beam_drop.Payload.ResumeAck.matches
    beam_drop.Payload.ResumeAck.offset_group beam_drop.Payload.ResumeAck.closes
    beam_drop.Payload.ResumeAck.read_offset beam_drop.Sha256.sha256_hex
    beam_drop.Transfer.Sender.send_task beam_drop.Transfer.Sender.send_directories
    beam_drop.Transfer.Sender.send_one_directory beam_drop.Transfer.Sender.send_files
    beam_drop.Transfer.Sender.report_task beam_drop.Payload.DirectoryInfo.encode
run_sends = (refl, refl)

abbrev target : Side Pipe
target = record {
  net = record { inbox = sent_bytes; outbox = [] };
  disk = λ path. none;
  access = record { readable = true; writable = true; has_room = true };
  events = [];
  can_make = true;
  can_cut = true;
  can_open = true;
  can_write = λ size. true;
  can_close = true;
}

streams : (pipe.pending target.net ≡ sent_bytes ++ []) × (pipe.pending source.net ≡ replies 1 ++ [])
unfolding beam_drop.Protocol.Codec.encode beam_drop.Protocol.Codec.append_u16
    beam_drop.Protocol.Codec.append_u32 beam_drop.Protocol.Codec.append_u64
    beam_drop.Payload.FileInfo.encode beam_drop.Payload.ResumeAck.encode
    beam_drop.Json.escape_json_string beam_drop.Text.decimal
streams = (refl, refl)

info_fits : 52 + length (FileInfo.encode (announced (codes "a") (codes "abc") hash_text)) < 2 ^ 64
unfolding beam_drop.Payload.FileInfo.encode beam_drop.Json.escape_json_string beam_drop.Text.decimal
info_fits = omega arith

safe :
    (safe_join (codes "in") (codes "a") ≡ ok (codes "in/a"))
    × (safe_directory_path (codes "in") (codes "d") ≡ ok (codes "in/d"))
unfolding beam_drop.Prelude.same_bytes safe_join safe_directory_path is_absolute parts_of
    has_dot_dot join
safe = (refl, refl)

ways :
    (names_of (parts_of (codes "in/d")) ≢ [])
    × (All (λ q. q ≢ place (codes "in/a")) (above (codes "in/a")))
unfolding beam_drop.Prelude.same_bytes beam_drop.Transfer.Path.parts_of
    beam_drop.Transfer.Path.place beam_drop.Transfer.Path.above beam_drop.Transfer.Path.along
    beam_drop.Transfer.Path.way_down beam_drop.Transfer.Path.end_of beam_drop.Transfer.Path.names_of
    beam_drop.Transfer.Path.join beam_drop.Transfer.Path.is_absolute
ways = (ground arith, (ground arith, tt))

ready :
    Ready target.disk (folders (codes "in/d" ∷ []) ++ files parcels)
    × Orderly (folders (codes "in/d" ∷ []) ++ files parcels)
unfolding beam_drop.Prelude.same_bytes beam_drop.Transfer.Path.parts_of
    beam_drop.Transfer.Path.place beam_drop.Transfer.Path.above beam_drop.Transfer.Path.along
    beam_drop.Transfer.Path.way_down beam_drop.Transfer.Path.end_of beam_drop.Transfer.Path.names_of
    beam_drop.Transfer.Path.join beam_drop.Transfer.Path.is_absolute
ready = (
  ((refl, (refl, (refl, tt))), ((refl, (refl, tt)), tt)),
  (((ground arith, (ground arith, (ground arith, tt)), λ e. absurd (cc e)), tt), (tt, tt)),
)

expects :
    Expects pipe 5
      (codes "s.json")
      (codes "in")
      source.disk
      entries
      directories
      parcels
      (codes "in/d" ∷ [])
      target
expects = record {
  carried = (
    record {
      there = refl;
      safe = safe.0;
      honest = record {
        announces = record {
          size_is = refl;
          size_fits = omega arith;
          bytes = omega arith;
          storable = λ on. absurd (cc on);
        };
        hash_is = hashed;
        path_ne = ground arith;
        path_bytes = omega arith;
        info_fits = info_fits;
      };
      way_apart = ways.1;
    },
    tt,
  );
  placed = (
    record {
      path_ne = ground arith;
      path_bytes = omega arith;
      path_fits = omega arith;
      safe = safe.1;
      named = ways.0;
    },
    tt,
  );
  free = ready.0;
  apart = ready.1;
  works = record {
    can_open = refl;
    can_write = λ size. refl;
    can_close = refl;
    is_ready = λ on. absurd (cc on);
    ways = λ on. absurd (cc on);
    can_make = refl;
    can_cut = refl;
  };
}

task_transferred_example :
    Yields IsBroken
      (λ u q. Delivers pipe parcels (codes "in/d" ∷ []) [] target q)
      (receive_task pipe (some 5) (plain_receiver (codes "s.json")) (codes "in") 1 1 target)
task_transferred_example =
    task_transferred pipe pipe 5 5 4 (codes "s.json") (codes "in") entries directories parcels
      (codes "in/d" ∷ []) sent_bytes [] [] source run.1 target expects
      (ap (λ r. (r, run.1)) run_sends.0) run_sends.1 streams.0 streams.1
