-- ===== src/App/Delivery/Tests.antt =====
-- A file of three bytes, from one service to the other.
use beam_drop.Prelude.{
  All, ◌≢◌, ◌≡◌, refl, ap, arith, false, true, none, some, List, [], ◌∷◌, ◌++◌, Bytes, length, ◌+◌,
  ◌<◌, ◌^◌,
}
use beam_drop.Errors.{ok}
use beam_drop.Text.{codes}
use beam_drop.Network.Pipe.{Pipe, pipe}
use beam_drop.Payload.FileInfo
use beam_drop.Transfer.EndToEnd.{announced}
use beam_drop.Transfer.EndToEnd.Tests.{hashed}
use beam_drop.Transfer.Path.{place, above, safe_join, join, is_absolute, parts_of, has_dot_dot}
use beam_drop.Transfer.Task.{Ready, files, Parcel, Expects, replies}
use beam_drop.Transfer.Receiver.{Side}
use beam_drop.App.{ServiceResult}
use beam_drop.App.Request.{scan_all}
use beam_drop.App.Receive.{ReceiveResult, without_resume, receive, validate_receive_request}
use beam_drop.App.Delivery.{Reports, sent-Reports}
use beam_drop.App.Tests.{
  hash_text, side, whole_stream, origin, one_file, send_request, names, send_run, runs,
}

abbrev parcels : List Parcel
parcels = record { path = codes "in/a"; content = codes "abc"; hash = hash_text } ∷ []

info_fits : 52 + length (FileInfo.encode (announced (codes "a") (codes "abc") hash_text)) < 2 ^ 64
unfolding beam_drop.Payload.FileInfo.encode beam_drop.Json.escape_json_string beam_drop.Text.decimal
info_fits = omega arith

safe : safe_join (codes "in") (codes "a") ≡ ok (codes "in/a")
unfolding beam_drop.Prelude.same_bytes safe_join is_absolute parts_of has_dot_dot join
safe = refl

way_apart : All (λ q. q ≢ place (codes "in/a")) (above (codes "in/a"))
unfolding beam_drop.Prelude.same_bytes beam_drop.Transfer.Path.parts_of
    beam_drop.Transfer.Path.place beam_drop.Transfer.Path.above beam_drop.Transfer.Path.along
    beam_drop.Transfer.Path.way_down beam_drop.Transfer.Path.end_of beam_drop.Transfer.Path.names_of
    beam_drop.Transfer.Path.join beam_drop.Transfer.Path.is_absolute
way_apart = (ground arith, tt)

ready : Ready (side whole_stream).disk (files parcels)
unfolding beam_drop.Prelude.same_bytes beam_drop.Transfer.Path.parts_of
    beam_drop.Transfer.Path.place beam_drop.Transfer.Path.above beam_drop.Transfer.Path.along
    beam_drop.Transfer.Path.way_down beam_drop.Transfer.Path.end_of beam_drop.Transfer.Path.names_of
    beam_drop.Transfer.Path.join beam_drop.Transfer.Path.is_absolute
ready = ((refl, (refl, tt)), tt)

expects :
    Expects pipe 5 (codes "s") (codes "in") origin.disk one_file [] parcels [] (side whole_stream)
expects = record {
  carried = (
    record {
      there = refl;
      safe = safe;
      honest = record {
        announces = record {
          size_is = refl;
          size_fits = omega arith;
          bytes = omega arith;
          storable = λ on. absurd (cc on);
        };
        hash_is = hashed;
        path_ne = ground arith;
        path_bytes = omega arith;
        info_fits = info_fits;
      };
      way_apart = way_apart;
    },
    tt,
  );
  placed = tt;
  free = ready;
  apart = (tt, tt);
  works = record {
    can_open = refl;
    can_write = λ size. refl;
    can_close = refl;
    is_ready = λ on. absurd (cc on);
    ways = λ on. absurd (cc on);
    can_make = refl;
    can_cut = refl;
  };
}

streams :
    (pipe.pending (side whole_stream).net ≡ whole_stream ++ [])
    × (pipe.pending origin.net ≡ replies 1 ++ [])
unfolding beam_drop.Protocol.Codec.encode beam_drop.Protocol.Codec.append_u16
    beam_drop.Protocol.Codec.append_u32 beam_drop.Protocol.Codec.append_u64
    beam_drop.Payload.FileInfo.encode beam_drop.Payload.ResumeAck.encode
    beam_drop.Payload.Manifest.encode beam_drop.Json.escape_json_string beam_drop.Text.decimal
streams = (refl, refl)

found : scan_all names send_request.paths ≡ ok (one_file, [])
unfolding beam_drop.Filesystem.Scanner.scan_files beam_drop.Filesystem.Scanner.scan_directories
    beam_drop.Filesystem.Normal.filename parts_of beam_drop.Prelude.same_bytes scan_all
found = refl

valid : validate_receive_request (without_resume (codes "s") (codes "in")) ≡ none
unfolding validate_receive_request
valid = refl

abbrev received : ServiceResult ReceiveResult × Side Pipe
received =
    receive pipe (some 5) (without_resume (codes "s") (codes "in")) (λ k. false) (side whole_stream)

sent-Reports_example : Reports pipe 1 parcels [] [] (side whole_stream) received.0 received.1
sent-Reports_example =
    sent-Reports pipe pipe 5 5 (codes "s") (codes "in") (λ k. false) send_request names
      (record { file_count = 1; total_bytes = 3 }) origin.net one_file [] parcels [] whole_stream []
      [] origin send_run.1 (side whole_stream) valid (λ k. refl)
      (ap (λ r. (r, send_run.1)) runs.1.1.1.1.0) found (omega arith) (omega arith) expects
      runs.1.1.1.1.1 streams.0 streams.1
