-- ===== src/Transfer/Sender/Sent.antt =====
-- What a sender has sent for a file, when it reports no error.
use mathlib.Core.Path.{subst}
use beam_drop.Prelude.{
  ℕ, zero, suc, ◌+◌, ◌%◌, ◌^◌, ◌≤◌, ◌≡◌, ◌≢◌, inl, inr, refl, ap, sym, ◌∙◌, Bool, true, false, not,
  some, List, [], ◌∷◌, ◌++◌, append_assoc, append-nil, arith, Bytes, length, take, drop, drop-drop,
  length-take, ltb, le_of_ltb, ◌==◌, Bool-cases,
}
use beam_drop.Errors.{Result, ok, err}
use beam_drop.Network.{Os}
use beam_drop.Network.Stream.Writing.{Writes, write_all_lem}
use beam_drop.Protocol.{Packet, make_packet, data_chunk, file_info, resume_ack}
use beam_drop.Protocol.Codec
use beam_drop.Protocol.PacketIo.{read_packet, write_packet}
use beam_drop.Protocol.PacketIo.RoundTrip.{encode-read_packet, sent-read_packet}
use beam_drop.Payload.FileInfo
use beam_drop.Payload.FileInfo.{FileInfo}
use beam_drop.Payload.ResumeAck
use beam_drop.Sha256.{Sha256, new, final_hex, sha256_hex}
use beam_drop.Sha256.Streaming.{
  Holds, chunk-Holds, new-Holds, Holds-unique, after_update, update-after, new_after-Holds,
}
use beam_drop.Sha256.Blocks.{take_short}
use beam_drop.Transfer.Chain.{
  chain_next, Ensures, chain_then, chain_guard, chain_ok, chain_branch, chain_err, chain_result,
  chain_mono,
}
use beam_drop.Transfer.Wire.{wire, concat}
use beam_drop.Transfer.Progress.{transferring}
use beam_drop.Transfer.Sender.{
  Origin, check_stop, hash_turns, hash_source, took, gave, is_type, next_packet, send_packet,
  report, agree, send_chunks,
}

true_of_not : (b : Bool) → not b ≡ false → b ≡ true
true_of_not true h = refl
true_of_not false h = absurd (cc h)

-- A chunk, and what is left behind it.
chunk-append : (n : ℕ) (xs : Bytes) → take n xs ++ drop (length (take n xs)) xs ≡ xs
chunk-append zero xs = refl
chunk-append (suc n) [] = refl
chunk-append (suc n) (x ∷ xs) = ap (λ r. x ∷ r) (chunk-append n xs)

chunk_at :
    (n offset : ℕ) (content : Bytes)
    → take n (drop offset content) ++ drop (offset + length (take n (drop offset content))) content
      ≡ drop offset content
chunk_at n offset content =
    rw (← drop-drop (length (take n (drop offset content))) offset content)
      (chunk-append n (drop offset content))

short_chunk : (n : ℕ) (xs : Bytes) → ltb (length (take n xs)) n ≡ true → take n xs ≡ xs
short_chunk n xs h = take_short n xs (ground (arith, length-take n xs))

no_chunk : (n : ℕ) (xs : Bytes) → n ≢ 0 → (0 == length (take n xs)) ≡ true → xs ≡ []
no_chunk zero xs ne h = absurd (ne refl)
no_chunk (suc n) [] ne h = refl
no_chunk (suc n) (x ∷ xs) ne h = absurd (ground arith)

module _ (os : Os) (h : ℕ) where
  open os use {State, pending, sent}

  -- From `s` to `t`, these bytes were sent, none was read, and the disk is as it was.
  pub record Sent (bytes : Bytes) (s t : Origin State) : Type 0 where
    pub sent_is : sent t.net ≡ sent s.net ++ bytes
    pub pending_kept : pending t.net ≡ pending s.net
    pub disk_kept : t.disk ≡ s.disk

  -- Nothing was sent or read.
  pub quiet : {s t : Origin State} → t.net ≡ s.net → t.disk ≡ s.disk → Sent [] s t
  quiet {s} e d = record {
    sent_is = ap sent e ∙ sym (append-nil (sent s.net));
    pending_kept = ap pending e;
    disk_kept = d;
  }

  pub Sent-append :
      (a b : Bytes) {s t u : Origin State} → Sent a s t → Sent b t u → Sent (a ++ b) s u
  Sent-append a b {s} p q = record {
    sent_is = q.sent_is ∙ ap (λ x. x ++ b) p.sent_is ∙ append_assoc (sent s.net) a b;
    pending_kept = q.pending_kept ∙ p.pending_kept;
    disk_kept = q.disk_kept ∙ p.disk_kept;
  }

  gave-Sent :
      (bytes : Bytes) (r : Result State) (s : Origin State)
      → Writes os bytes s.net r
      → Ensures (λ u t. Sent bytes s t) (gave os (some h) r s)
  gave-Sent bytes r s (inl (t, is_ok, w)) =
      subst (λ x. Ensures (λ u t. Sent bytes s t) (gave os (some h) x s)) (sym is_ok)
        (chain_ok _ tt (record s { net = t })
          (record { sent_is = w.sent_is; pending_kept = w.pending_kept; disk_kept = refl }))
  gave-Sent bytes r s (inr failed) =
      subst (λ x. Ensures (λ u t. Sent bytes s t) (gave os (some h) x s)) (sym failed)
        (chain_err _ _ s)

  pub send_packet-Sent :
      (p : Packet) (s : Origin State)
      → Ensures (λ u t. Sent (Codec.encode p) s t) (send_packet os (some h) p s)
  unfolding send_packet write_packet
  send_packet-Sent p s = gave-Sent (Codec.encode p) _ s (write_all_lem os h (Codec.encode p) s.net)

  -- What `next_packet` read.
  pub record Took (p : Packet) (s t : Origin State) : Type 0 where
    pub pending_is : pending s.net ≡ Codec.encode p ++ pending t.net
    pub read_is : read_packet os (some h) s.net ≡ ok (p, t.net)
    pub sent_kept : sent t.net ≡ sent s.net
    pub disk_kept : t.disk ≡ s.disk

  took-Took :
      (r : Result (Packet × State)) (s : Origin State)
      → read_packet os (some h) s.net ≡ r
      → Ensures (λ p t. Took p s t) (took os (some h) r s)
  unfolding Ensures
  took-Took (ok (p, net)) s e = record {
    pending_is = encode-read_packet os h p s.net net e;
    read_is = e;
    sent_kept = sent-read_packet os h p s.net net e;
    disk_kept = refl;
  }
  took-Took (err x) s e = tt

  next_packet-Took : (s : Origin State) → Ensures (λ p t. Took p s t) (next_packet os (some h) s)
  unfolding next_packet
  next_packet-Took s = took-Took (read_packet os (some h) s.net) s refl

  pub check_stop-Sent : (s : Origin State) → Ensures (λ u t. Sent [] s t) (check_stop os s)
  unfolding check_stop Ensures
  check_stop-Sent s = elim (Bool-cases (s.stops s.looks)) [
    | inl asked ↦ rw asked tt
    | inr going ↦ rw going (quiet refl refl)
  ]

  -- The hash is that of the content, and nothing was sent.
  hash_turns-Holds :
      (fuel chunk_size offset : ℕ) (content message : Bytes) (x : Sha256) (s : Origin State)
      → Holds x message
      → Ensures
          (λ y t. Holds y (message ++ drop offset content) × Sent [] s t)
          (hash_turns os fuel chunk_size offset content x s)
  unfolding hash_turns
  hash_turns-Holds zero chunk_size offset content message x s hx = chain_err _ _ s
  hash_turns-Holds (suc fuel) chunk_size offset content message x s hx =
      let Q =
        λ (y : Sha256) (t : Origin State). Holds y (message ++ drop offset content) × Sent [] s t in
      let chunk = take chunk_size (drop offset content) in
      chain_then (λ u t. Sent [] s t) Q _ _ (check_stop-Sent s)
        λ u t looked. chain_next Q t t _ (
          chain_guard Q _ _ t _ λ readable. chain_result Q _ t _ λ y updated.
            let (z, z_ok, hz) = chunk-Holds x message chunk hx in
            let same : z ≡ y = cc in
            let hy : Holds y (message ++ chunk) = subst (λ r. Holds r (message ++ chunk)) same hz in
            chain_branch Q (ltb (length chunk) chunk_size) _ _ t
              (λ short.
                let all : chunk ≡ drop offset content =
                  short_chunk chunk_size (drop offset content) short in
                chain_ok Q y t (subst (λ r. Holds y (message ++ r)) all hy, looked))
              (λ full.
                let join =
                  append_assoc message chunk (drop (offset + length chunk) content)
                  ∙ ap (λ r. message ++ r) (chunk_at chunk_size offset content) in
                chain_mono _ Q _
                  (λ z v done.
                    (subst (λ r. Holds z r) join done.0, Sent-append [] [] looked done.1))
                  (hash_turns-Holds fuel chunk_size (offset + length chunk) content
                    (message ++ chunk) y t hy)))

  pub hash_source-hash :
      (chunk_size : ℕ) (content : Bytes) (s : Origin State)
      → Ensures
          (λ hash t. (chunk_size ≢ 0) × (sha256_hex content ≡ ok hash) × Sent [] s t)
          (hash_source os chunk_size content s)
  unfolding hash_source sha256_hex
  hash_source-hash chunk_size content s =
      let Q = λ (hash : Bytes) (t : Origin State).
        (chunk_size ≢ 0) × (sha256_hex content ≡ ok hash) × Sent [] s t in
      chain_guard Q _ _ s _ λ some_size. chain_next Q s s _ (
        chain_guard Q _ _ s _ λ opened.
          chain_then (λ y t. Holds y ([] ++ drop 0 content) × Sent [] s t) Q _ _
            (hash_turns-Holds (suc (length content)) chunk_size 0 content [] new s new-Holds)
            λ y t done.
              let same =
                Holds-unique (after_update new content) y content (new_after-Holds content)
                  done.0 in
              chain_ok Q _ t (
                ground arith,
                rw (update-after new content refl) (ap (λ z. ok (final_hex z).0) same),
                done.1,
              ))

  module _ (relative_path content : Bytes) (file_index file_count : ℕ) where
    -- The chunks that were sent are the content from the offset on.
    pub send_chunks-wire :
        (fuel chunk_size offset sent_size : ℕ) (s : Origin State)
        → chunk_size ≢ 0
        → Ensures
            (λ u t.
              (chunks : List Bytes) × (concat chunks ≡ drop offset content)
              × Sent (wire chunks) s t)
            (send_chunks os
              (some h)
              relative_path
              content
              file_index
              file_count
              fuel
              chunk_size
              offset
              sent_size
              s)
    unfolding send_chunks concat wire report
    send_chunks-wire zero chunk_size offset sent_size s ne = chain_err _ _ s
    send_chunks-wire (suc fuel) chunk_size offset sent_size s ne =
        let Q = λ (u : Unit {0}) (t : Origin State).
          (chunks : List Bytes) × (concat chunks ≡ drop offset content) × Sent (wire chunks) s t in
        let chunk = take chunk_size (drop offset content) in
        chain_then (λ u t. Sent [] s t) Q _ _ (check_stop-Sent s)
          λ u t looked. chain_next Q t t _ (
            chain_guard Q _ _ t _ λ readable.
              chain_branch Q (0 == length chunk) _ _ t
                (λ none_left.
                  chain_ok Q tt t
                    ([], sym (no_chunk chunk_size (drop offset content) ne none_left), looked))
                (λ more.
                  chain_then (λ u v. Sent (Codec.encode (make_packet data_chunk chunk)) t v) Q _ _
                    (send_packet-Sent (make_packet data_chunk chunk) t)
                    λ u v given.
                      let now = (sent_size + length chunk) % 2 ^ 64 in
                      let next =
                        (report os (some h) relative_path content file_index file_count now
                          transferring v).1 in
                      let packet = Codec.encode (make_packet data_chunk chunk) in
                      let sent_on : Sent packet s v = Sent-append [] packet looked given in
                      chain_next Q tt next _ (
                        chain_branch Q (ltb (length chunk) chunk_size) _ _ next
                          (λ short.
                            let all : chunk ≡ drop offset content =
                              short_chunk chunk_size (drop offset content) short in
                            chain_ok Q tt next (
                              chunk ∷ [],
                              append-nil chunk ∙ all,
                              Sent-append packet [] sent_on (quiet refl refl),
                            ))
                          (λ full.
                            chain_mono _ Q _
                              (λ z w done. (
                                chunk ∷ done.0,
                                ap (λ r. chunk ++ r) done.1 ∙ chunk_at chunk_size offset content,
                                Sent-append packet (wire done.0) sent_on
                                    (Sent-append [] (wire done.0) (quiet refl refl) done.2),
                              ))
                              (send_chunks-wire fuel chunk_size (offset + length chunk) now next
                                ne)))))

  -- The answer of the receiver, and FILE_INFO before it.
  pub record Agreed (info : FileInfo) (offset : ℕ) (s t : Origin State) : Type 0 where
    pub ack : Packet
    pub ack_type : is_type ack resume_ack ≡ true
    pub ack_offset : ResumeAck.decode ack.payload ≡ ok (record { offset = offset })
    pub pending_is : pending s.net ≡ Codec.encode ack ++ pending t.net
    pub reading : State
    pub reading_is : pending reading ≡ pending s.net
    pub read_is : read_packet os (some h) reading ≡ ok (ack, t.net)
    pub sent_is :
        sent t.net ≡ sent s.net ++ Codec.encode (make_packet file_info (FileInfo.encode info))
    pub disk_kept : t.disk ≡ s.disk

  module _ (relative_path content : Bytes) (file_index file_count : ℕ) where
    pub agree-Agreed :
        (hash : Bytes) (s : Origin State)
        → Ensures
            (λ offset t.
              (offset ≤ length content)
              × Agreed
                  (record { relative_path = relative_path; size = length content; sha256 = hash })
                  offset
                  s
                  t)
            (agree os (some h) relative_path content file_index file_count hash s)
    unfolding agree
    agree-Agreed hash s =
        let info : FileInfo = record {
          relative_path = relative_path;
          size = length content;
          sha256 = hash;
        } in
        let Q =
          λ (offset : ℕ) (t : Origin State). (offset ≤ length content) × Agreed info offset s t in
        let packet = make_packet file_info (FileInfo.encode info) in
        chain_then (λ u t. Sent (Codec.encode packet) s t) Q _ _ (send_packet-Sent packet s)
          λ u t given.
            chain_then (λ p v. Took p t v) Q _ _ (next_packet-Took t)
              λ p v took. chain_guard Q _ _ v _ λ right_type. chain_result Q _ v _ λ ack decoded.
                chain_guard Q _ _ v _ λ fits. chain_ok Q ack.offset v (
                  le_of_ltb (length content) ack.offset fits,
                  record {
                    ack = p;
                    ack_type = true_of_not _ right_type;
                    ack_offset = decoded;
                    pending_is = sym given.pending_kept ∙ took.pending_is;
                    reading = t.net;
                    reading_is = given.pending_kept;
                    read_is = took.read_is;
                    sent_is = took.sent_kept ∙ given.sent_is;
                    disk_kept = took.disk_kept ∙ given.disk_kept;
                  },
                )
