-- ===== src/Transfer/EndToEnd.antt =====
-- Sender.cpp and Receiver.cpp together: what `send_one_file` put on the wire, taken from there by
-- `receive_one_file`.
pub mod Tests
use beam_drop.Prelude.{
  ℕ, zero, suc, ◌+◌, ◌^◌, ◌≤◌, ◌<◌, ◌≡◌, inl, inr, refl, ap, sym, ◌∙◌, Bool, Option, some, List, [],
  ◌∷◌, ◌++◌, append_assoc, append-injective, arith, Bytes, length, length-append, drop, All,
  All-append, All-mono,
}
use beam_drop.Errors.{ok}
use beam_drop.Text.{codes, decimal}
use beam_drop.Text.Number.{IsDigit, decimal-IsDigit, length-decimal}
use beam_drop.Network.{Os}
use beam_drop.Protocol.{Packet, make_packet, resume_ack, file_info, file_end, IsWellFormed, IsByte}
use beam_drop.Protocol.Codec
use beam_drop.Protocol.PacketIo.{read_packet}
use beam_drop.Protocol.PacketIo.RoundTrip.{received, read_packet-encode}
use beam_drop.Payload.FileInfo
use beam_drop.Payload.FileInfo.{FileInfo}
use beam_drop.Payload.ResumeAck
use beam_drop.Payload.ResumeAck.{ResumeAck, decode-encode_ack}
use beam_drop.Sha256.{sha256_hex}
use beam_drop.Transfer.Chain.{Yields}
use beam_drop.Transfer.Disk.{file}
use beam_drop.Transfer.Path.{place, above}
use beam_drop.Transfer.Wire.{wire, concat, make_packet-IsWellFormed}
use beam_drop.Transfer.Sender.{Origin, file_content, send_one_file}
use beam_drop.Transfer.Sender.Delivered.{Delivered, delivered}
use beam_drop.Transfer.Receiver.{Side, Receiver, receive_one_file}
use beam_drop.Transfer.Receiver.Frame.{Elsewhere}
use beam_drop.Transfer.Receiver.Total.{IsBroken}
use beam_drop.Transfer.Receiver.Whole.{Meets, receive_one_file-IsWhole}
use beam_drop.Transfer.Receiver.Steps.{IsWhole, arriving, offset-le}

-- The packet that the receiver answers FILE_INFO with.
abbrev pub answer : ℕ → Packet
answer offset = make_packet resume_ack (ResumeAck.encode (record { offset = offset }))

abbrev pub announced : Bytes → Bytes → Bytes → FileInfo
announced relative_path content hash = record {
  relative_path = relative_path;
  size = length content;
  sha256 = hash;
}

answer-IsWellFormed : (offset : ℕ) → IsWellFormed (answer offset)
unfolding ResumeAck.encode
answer-IsWellFormed offset =
    let digits = length-decimal offset in
    let inner = length-append (decimal offset) (codes "}") in
    let outer = length-append (codes "{\"offset\":") (decimal offset ++ codes "}") in
    make_packet-IsWellFormed resume_ack _ (omega arith) (
      All-append IsByte (codes "{\"offset\":") _ (omega arith) (
        All-append IsByte (decimal offset) (codes "}")
          (All-mono IsDigit IsByte (λ c d. ground arith) _ (decimal-IsDigit offset)) (omega arith)))

module _ (os : Os) (h : ℕ) where
  open os use {State, pending}

  -- The sender reads the offset that the receiver wrote.
  answered :
      (offset : ℕ) (later : Bytes) (s t : State) (ack : Packet) (o : ℕ)
      → offset < 2 ^ 64
      → pending s ≡ Codec.encode (answer offset) ++ later
      → read_packet os (some h) s ≡ ok (ack, t)
      → ResumeAck.decode ack.payload ≡ ok (record { offset = o })
      → o ≡ offset
  answered offset later s t ack o fits stream read decoded =
      elim (read_packet-encode os h (answer offset) later s (answer-IsWellFormed offset) stream) [
        | inl (x, is_ok, left) ↦
            let same : ack.payload ≡ ResumeAck.encode (record { offset = offset }) = cc in
            let back : ResumeAck.decode ack.payload ≡ ok (record { offset = offset }) =
              ap ResumeAck.decode same ∙ decode-encode_ack (record { offset = offset }) fits in
            cc
        | inr failed ↦ absurd (cc failed)
      ]

  -- And its stream goes on behind that.
  pub answered_pending :
      (offset : ℕ) (later : Bytes) (s t : State) (ack : Packet)
      → pending s ≡ Codec.encode (answer offset) ++ later
      → read_packet os (some h) s ≡ ok (ack, t)
      → pending t ≡ later
  answered_pending offset later s t ack stream read =
      elim (read_packet-encode os h (answer offset) later s (answer-IsWellFormed offset) stream) [
        | inl (x, is_ok, left) ↦ let same : x ≡ t = cc in ap pending (sym same) ∙ left
        | inr failed ↦ absurd (cc failed)
      ]

-- The two ends of a connection, each with its own system.
module _ (os os' : Os) (h h' chunk_size : ℕ) (receiver : Receiver) where
  open os use {State, pending, sent}

  pub transferred :
      (source_path relative_path save_dir path content hash bytes later behind : Bytes)
      (offset file_index file_count : ℕ) (s t : Origin State) (r : Side os'.State)
      → s.disk source_path ≡ some (file content)
      → sha256_hex content ≡ ok hash
      → send_one_file os (some h) chunk_size source_path relative_path file_index file_count s
        ≡ (ok tt, t)
      → sent t.net ≡ sent s.net ++ bytes
      → os'.pending r.net ≡ bytes ++ behind
      → Meets os' h' receiver save_dir path (announced relative_path content hash) content offset r
      → pending s.net ≡ Codec.encode (answer offset) ++ later
      → Yields IsBroken
          (λ u q.
            IsWhole os' h' receiver (place path) content behind q
            × Elsewhere receiver (above path) (place path) r.disk q.disk)
          (receive_one_file os' (some h') receiver save_dir file_index file_count r)
  transferred source_path relative_path save_dir path content hash bytes later behind offset
        file_index file_count s t r there hashed done out stream m reply =
      let d = delivered os h chunk_size source_path relative_path file_index file_count s t done in
      let found : ok d.content ≡ ok content = sym d.on_disk ∙ ap file_content there in
      let same : d.content ≡ content = cc in
      let named : ok d.hash ≡ ok hash = sym d.hash_is ∙ ap sha256_hex same ∙ hashed in
      let same_hash : d.hash ≡ hash = cc in
      let fits = m.honest.announces.size_fits in
      let le =
        offset-le os' h' receiver (announced relative_path content hash) (above path) (place path)
          content offset r m.begins refl in
      let agreed : d.offset ≡ offset =
        answered os h offset later d.reading d.after_ack d.ack d.offset (omega arith)
          (d.reading_is ∙ reply) d.read_is d.ack_offset in
      let info : announced relative_path d.content d.hash ≡ announced relative_path content hash =
        ap (announced relative_path d.content) same_hash
        ∙ ap (λ c. announced relative_path c hash) same in
      let sent_bytes =
        (append-injective (sent s.net) bytes (sent s.net) _ refl (sym out ∙ d.sent_is)).1 in
      let split = wire_of (announced relative_path d.content d.hash) d.chunks behind in
      receive_one_file-IsWhole os' h' receiver save_dir path (announced relative_path content hash)
        content offset d.chunks behind file_index file_count r m
        (d.chunks_are ∙ ap (drop d.offset) same ∙ ap (λ o. drop o content) agreed)
        (stream
          ∙ ap (λ b. b ++ behind) sent_bytes
          ∙ split
          ∙ ap (λ i. arriving os' h' receiver i d.chunks behind) info)
    where
      wire_of :
          (info : FileInfo) (chunks : List Bytes) (behind : Bytes)
          → (Codec.encode (make_packet file_info (FileInfo.encode info))
                ++ (wire chunks ++ Codec.encode (make_packet file_end [])))
              ++ behind
            ≡ arriving os' h' receiver info chunks behind
      wire_of info chunks behind =
          append_assoc _ _ behind
          ∙ ap (λ r. Codec.encode (make_packet file_info (FileInfo.encode info)) ++ r)
              (append_assoc (wire chunks) _ behind)
