-- ===== src/Transfer/EndToEnd/Tests.antt =====
-- A file of three bytes goes from one end to the other.
use beam_drop.Prelude.{
  ◌≡◌, refl, ap, arith, false, true, none, some, [], ◌∷◌, ◌++◌, Bytes, List, same_bytes,
  if◌then◌else◌,
}
use beam_drop.Errors.{Result, ok}
use beam_drop.Text.{codes}
use beam_drop.Network.Pipe.{Pipe, pipe}
use beam_drop.Protocol.{make_packet, file_info, data_chunk, file_end}
use beam_drop.Protocol.Codec
use beam_drop.Payload.FileInfo
use beam_drop.Payload.FileInfo.{FileInfo}
use beam_drop.Resume.{StateFile, ResumeRecord, state_text, load, save}
use beam_drop.Resume.Offsets.{record_at}
use beam_drop.Resume.RoundTrip.{IsStored, load-save}
use beam_drop.Sha256.{sha256_hex}
use beam_drop.Transfer.Disk.{file, existing_file_size}
use beam_drop.Transfer.Sender.{Origin, send_one_file}
use beam_drop.Transfer.Sender.Delivered.{Delivered, delivered}
use beam_drop.Transfer.Receiver.{Receiver, Side, identity_of}
use beam_drop.Transfer.EndToEnd.{answer, announced}

abbrev pub hash_text : Bytes
hash_text = codes "ba7816bf8f01cfea414140de5dae2223b00361a396177a9cb410ff61f20015ad"

-- The other end answers that it has one byte.
abbrev source : Origin Pipe
source = record {
  net = record { inbox = Codec.encode (answer 1); outbox = [] };
  disk = λ path. some (file (codes "abc"));
  events = [];
  can_open = true;
  can_seek = λ offset. true;
  can_read = λ offset. true;
  stops = λ looks. false;
  looks = 0;
}

abbrev sent_bytes : Bytes
sent_bytes =
    Codec.encode
      (make_packet file_info (FileInfo.encode (announced (codes "a") (codes "abc") hash_text)))
    ++ (Codec.encode (make_packet data_chunk (codes "bc"))
        ++ Codec.encode (make_packet file_end []))

abbrev run : Result (Unit {0}) × Origin Pipe
run = send_one_file pipe (some 5) 4 (codes "out/a") (codes "a") 1 1 source

-- The sender's run, and the hash of the file.
runs :
    (run.0 ≡ ok tt) × ((run.1.net.outbox ≡ sent_bytes) × (sha256_hex (codes "abc") ≡ ok hash_text))
unfolding beam_drop.Transfer.Sender.agree beam_drop.Transfer.Sender.check_stop
    beam_drop.Transfer.Sender.hash_source beam_drop.Transfer.Sender.hash_turns
    beam_drop.Transfer.Sender.next_packet beam_drop.Transfer.Sender.report
    beam_drop.Transfer.Sender.send_chunks beam_drop.Transfer.Sender.send_one_file
    beam_drop.Transfer.Sender.send_packet beam_drop.Transfer.Chain.and_then
    beam_drop.Transfer.Disk.existing_file_size beam_drop.Json.escape_json_string
    beam_drop.Json.field_key beam_drop.Json.number_field beam_drop.Json.quoted
    beam_drop.Json.require_string_field beam_drop.Json.some_bytes beam_drop.Json.string_body
    beam_drop.Json.string_field beam_drop.Json.unescape_loop beam_drop.Protocol.Codec.encode
    beam_drop.Protocol.Codec.parse beam_drop.Protocol.Codec.parse_type
    beam_drop.Protocol.Codec.read_u16 beam_drop.Protocol.Codec.read_u32
    beam_drop.Protocol.Codec.read_be beam_drop.Protocol.Codec.read_u64
    beam_drop.Protocol.Codec.read_bytes beam_drop.Protocol.Codec.append_u16
    beam_drop.Protocol.Codec.append_u32 beam_drop.Protocol.Codec.append_u64
    beam_drop.Protocol.PacketIo.read_packet beam_drop.Protocol.PacketIo.read_payload
    beam_drop.Protocol.PacketIo.write_packet beam_drop.Network.Stream.call_size
    beam_drop.Network.Stream.read_exact beam_drop.Network.Stream.read_loop
    beam_drop.Network.Stream.write_all beam_drop.Network.Stream.write_loop beam_drop.Sha256.absorb
    beam_drop.Sha256.absorb_rest beam_drop.Sha256.extended beam_drop.Sha256.fill
    beam_drop.Sha256.final_blocks beam_drop.Sha256.final_hex beam_drop.Sha256.final_size
    beam_drop.Sha256.hash_chunks beam_drop.Sha256.hex_word beam_drop.Sha256.last_words
    beam_drop.Sha256.length_bytes beam_drop.Sha256.load_be32 beam_drop.Sha256.loaded
    beam_drop.Sha256.next_word beam_drop.Sha256.process_block beam_drop.Sha256.rotr
    beam_drop.Sha256.round beam_drop.Sha256.rounds beam_drop.Sha256.sha256_file
    beam_drop.Sha256.to_hex beam_drop.Sha256.update beam_drop.Sha256.whole_blocks
    beam_drop.Payload.ResumeAck.encode beam_drop.Payload.FileInfo.decode
    beam_drop.Payload.FileInfo.encode beam_drop.Payload.FileInfo.opens
    beam_drop.Payload.FileInfo.read_u64_group beam_drop.Payload.FileInfo.require_u64_field
    beam_drop.Prelude.same_bytes beam_drop.Text.decimal beam_drop.Text.number_of
    beam_drop.Text.read_sign beam_drop.Text.search_first beam_drop.Text.skip_spaces
    beam_drop.Text.span beam_drop.Text.stoull beam_drop.Text.stoull_value beam_drop.Text.strip
    beam_drop.Payload.ResumeAck.decode beam_drop.Payload.ResumeAck.matches
    beam_drop.Payload.ResumeAck.offset_group beam_drop.Payload.ResumeAck.closes
    beam_drop.Payload.ResumeAck.read_offset beam_drop.Sha256.sha256_hex
runs = (refl, (refl, refl))

abbrev info : FileInfo
info = announced (codes "a") (codes "abc") hash_text

abbrev in_a : Bytes
in_a = codes "in/a"

-- One byte of the file was kept, and the next one on the disk is another.
abbrev records : List ResumeRecord
records = record_at (identity_of info) 1 ∷ []

abbrev receiver : Receiver
receiver = record { enable_resume = true; state_file = codes "s.json" }

abbrev target : Side Pipe
target = record {
  net = record { inbox = sent_bytes; outbox = [] };
  disk = λ path.
      if same_bytes path in_a
      then some (file (codes "ax"))
      else if same_bytes path (codes "s.json")
      then some (file (state_text records))
      else none;
  access = record { readable = true; writable = true; has_room = true };
  events = [];
  can_make = true;
  can_cut = true;
  can_open = true;
  can_write = λ size. true;
  can_close = true;
}

info-IsStored : IsStored (record_at (identity_of info) 1)
info-IsStored = record {
  path_ne_nil = ground arith;
  sha256_ne_nil = ground arith;
  size_lt = omega arith;
  offset_lt = omega arith;
  path_no_brace = ground arith;
  sha256_no_brace = ground arith;
}

abbrev found : StateFile
found = record {
  content = some (state_text records);
  readable = true;
  writable = true;
  has_room = true;
}

loaded : load found ≡ ok records
loaded =
    load-save records (record found { content = none }) found (info-IsStored, tt) refl
      (unfold save in refl)

pub hashed : sha256_hex (codes "abc") ≡ ok hash_text
hashed = runs.1.1

delivered_example : Delivered pipe 5 (codes "out/a") (codes "a") source run.1
delivered_example =
    delivered pipe 5 4 (codes "out/a") (codes "a") 1 1 source run.1 (ap (λ r. (r, run.1)) runs.0)
