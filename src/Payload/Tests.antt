-- ===== src/Payload/Tests.antt =====
-- The payload codecs at concrete inputs.
use beam_drop.Prelude.{◌≡◌, refl, arith}
use beam_drop.Errors.{ok}
use beam_drop.Text.{codes, decimal}
use beam_drop.Payload.Manifest
use beam_drop.Payload.Manifest.{TransferManifest}
use beam_drop.Payload.FileInfo
use beam_drop.Payload.FileInfo.{FileInfo}
use beam_drop.Payload.FileInfo.RoundTrip.{decode-encode_info}
use beam_drop.Payload.ResumeAck
use beam_drop.Payload.ResumeAck.{ResumeAck}

abbrev three_files : TransferManifest
three_files = record { file_count = 3; total_bytes = 42; directory_count = 4 }

encode-three_files :
    Manifest.encode three_files
    ≡ codes "beamdrop-manifest-v2\nfile_count=3\ntotal_bytes=42\ndirectory_count=4\n"
unfolding Manifest.encode decimal
encode-three_files = refl

-- A path with a quote, a backslash and the text of a field.
abbrev hard_path : FileInfo
hard_path = record {
  relative_path = codes "a\"size\": 9,\\\"";
  size = 12345;
  sha256 = codes "abc123";
}

decode-encode_info_example : FileInfo.decode (FileInfo.encode hard_path) ≡ ok hard_path
decode-encode_info_example = decode-encode_info hard_path (λ e. cc e) (λ e. cc e) (omega arith)

abbrev last_offset : ResumeAck
last_offset = record { offset = 18446744073709551615 }

encode-last_offset : ResumeAck.encode last_offset ≡ codes "{\"offset\":18446744073709551615}"
unfolding ResumeAck.encode decimal
encode-last_offset = refl
