-- ===== src/Transfer/Sender/Delivered.antt =====
-- What a successful `send_one_file` has put on the wire, and what it has read.
use beam_drop.Prelude.{
  ℕ, suc, ◌≤◌, ◌≡◌, ap, sym, ◌∙◌, true, some, List, [], ◌++◌, append_assoc, append-nil, Bytes,
  length, drop,
}
use beam_drop.Errors.{ok}
use beam_drop.Network.{Os}
use beam_drop.Protocol.{Packet, make_packet, file_info, file_end, resume_ack}
use beam_drop.Protocol.Codec
use beam_drop.Protocol.PacketIo.{read_packet}
use beam_drop.Payload.FileInfo
use beam_drop.Payload.FileInfo.{FileInfo}
use beam_drop.Payload.ResumeAck
use beam_drop.Sha256.{sha256_hex}
use beam_drop.Transfer.Chain.{
  chain_next, chain_then, chain_guard, chain_ok, chain_result, Ensures, ensured,
}
use beam_drop.Transfer.Wire.{wire, concat}
use beam_drop.Transfer.Progress.{file_completed}
use beam_drop.Transfer.Sender.{Origin, is_type, file_content, report, send_one_file}
use beam_drop.Transfer.Sender.Sent.{
  Sent, Sent-append, send_packet-Sent, check_stop-Sent, hash_source-hash, agree-Agreed,
  send_chunks-wire,
}

module _ (os : Os) where
  open os use {State, pending, sent}

  -- A file on the wire: FILE_INFO, the chunks from the agreed offset on, and FILE_END; and before the
  -- chunks, the acknowledgement that was read.
  pub record Delivered (h : ℕ) (source_path relative_path : Bytes) (s t : Origin State)
      : Type 0 where
    pub content : Bytes
    pub on_disk : file_content (s.disk source_path) ≡ ok content
    pub hash : Bytes
    pub hash_is : sha256_hex content ≡ ok hash
    pub offset : ℕ
    pub offset-le : offset ≤ length content
    pub ack : Packet
    pub ack_type : is_type ack resume_ack ≡ true
    pub ack_offset : ResumeAck.decode ack.payload ≡ ok (record { offset = offset })
    pub reading : State
    pub reading_is : pending reading ≡ pending s.net
    pub after_ack : State
    pub read_is : read_packet os (some h) reading ≡ ok (ack, after_ack)
    pub pending_after : pending t.net ≡ pending after_ack
    pub disk_kept : t.disk ≡ s.disk
    pub pending_is : pending s.net ≡ Codec.encode ack ++ pending t.net
    pub chunks : List Bytes
    pub chunks_are : concat chunks ≡ drop offset content
    pub sent_is :
        sent t.net
        ≡ sent s.net
          ++ (Codec.encode (
                make_packet file_info (
                  FileInfo.encode (record {
                    relative_path = relative_path;
                    size = length content;
                    sha256 = hash;
                  })))
              ++ (wire chunks ++ Codec.encode (make_packet file_end [])))

  module _ (h chunk_size : ℕ) (source_path relative_path : Bytes) (file_index file_count : ℕ) where
    pub deliver :
        (s : Origin State)
        → Ensures
            (λ u t. Delivered h source_path relative_path s t)
            (send_one_file os (some h) chunk_size source_path relative_path file_index file_count s)
    unfolding send_one_file report
    deliver s =
        let Q = λ (u : Unit {0}) (t : Origin State). Delivered h source_path relative_path s t in
        chain_then (λ u t. Sent os h [] s t) Q _ _ (check_stop-Sent os h s)
          λ u s1 looked. chain_next Q s1 s1 _ (
            chain_result Q _ s1 _ λ content found.
              chain_then _ Q _ _ (hash_source-hash os h chunk_size content s1) λ hash s2 hashed.
                chain_then _ Q _ _
                  (agree-Agreed os h relative_path content file_index file_count hash s2)
                  λ offset s3 agreed. chain_next Q s3 s3 _ (
                    chain_guard Q _ _ s3 _ λ opened. chain_guard Q _ _ s3 _ λ placed.
                      chain_then _ Q _ _
                        (send_chunks-wire os h relative_path content file_index file_count
                          (suc (length content)) chunk_size offset offset s3 hashed.0)
                        λ u s4 streamed.
                          chain_then _ Q _ _ (send_packet-Sent os h (make_packet file_end []) s4)
                            λ u s5 ended.
                              let begin = Sent-append os h [] [] looked hashed.2 in
                              let packets =
                                wire streamed.0 ++ Codec.encode (make_packet file_end []) in
                              let rest =
                                Sent-append os h (wire streamed.0)
                                  (Codec.encode (make_packet file_end [])) streamed.2 ended in
                              let info = Codec.encode (
                                make_packet file_info (
                                  FileInfo.encode (record {
                                    relative_path = relative_path;
                                    size = length content;
                                    sha256 = hash;
                                  }))) in
                              let start : sent s2.net ≡ sent s.net =
                                begin.sent_is ∙ append-nil (sent s.net) in
                              chain_ok Q tt
                                (report os (some h) relative_path content file_index file_count
                                  (length content) file_completed s5).1
                                (record {
                                  content = content;
                                  on_disk =
                                      ap file_content
                                        (ap (λ d. d source_path) (sym looked.disk_kept))
                                      ∙ found;
                                  hash = hash;
                                  hash_is = hashed.1;
                                  offset = offset;
                                  offset-le = agreed.0;
                                  ack = agreed.1.ack;
                                  ack_type = agreed.1.ack_type;
                                  ack_offset = agreed.1.ack_offset;
                                  pending_is =
                                      sym begin.pending_kept
                                      ∙ agreed.1.pending_is
                                      ∙ ap (λ r. Codec.encode agreed.1.ack ++ r)
                                          (sym rest.pending_kept);
                                  reading = agreed.1.reading;
                                  reading_is = agreed.1.reading_is ∙ begin.pending_kept;
                                  after_ack = s3.net;
                                  read_is = agreed.1.read_is;
                                  pending_after = rest.pending_kept;
                                  disk_kept = rest.disk_kept ∙ agreed.1.disk_kept ∙ begin.disk_kept;
                                  chunks = streamed.0;
                                  chunks_are = streamed.1;
                                  sent_is =
                                      rest.sent_is
                                      ∙ ap (λ r. r ++ packets)
                                          (agreed.1.sent_is ∙ ap (λ r. r ++ info) start)
                                      ∙ append_assoc (sent s.net) info packets;
                                })))

    -- A `send_one_file` that returns without an exception has sent FILE_INFO with the size and the hash
    -- of the content, then chunks that together are the content from an offset within it on, then
    -- FILE_END, and nothing else; and it has read one packet, the acknowledgement of that offset.
    pub delivered :
        (s t : Origin State)
        → send_one_file os (some h) chunk_size source_path relative_path file_index file_count s
          ≡ (ok tt, t)
        → Delivered h source_path relative_path s t
    delivered s t e = ensured _ _ tt t e (deliver s)
