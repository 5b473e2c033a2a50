-- ===== src/Protocol/PacketIo/RoundTrip.antt =====
-- A packet that one side writes is the packet that the other side reads.
use beam_drop.Prelude.{
  ℕ, suc, ◌≡◌, ◌⊎◌, inl, inr, refl, sym, ap, ◌∙◌, Bool-cases, some, [], ◌∷◌, ◌++◌, append-nil,
  append_assoc, append-injective, arith, Bytes, length, ltb, ltb_of_lt, All-left,
}
use beam_drop.Errors.{Result, ok, err, network, receive_failed, Result-cases}
use beam_drop.Network.{Os}
use beam_drop.Network.Stream.Reading.{read_exact_lem}
use beam_drop.Protocol.{Packet, IsWellFormed, IsByte, type_code, encoded_size}
use beam_drop.Protocol.Codec.{encode, parse, read_u64}
use beam_drop.Protocol.Codec.RoundTrip.{parse-encode, encode-parse}
use beam_drop.Protocol.Codec.Layout.{layout, encode-layout, read_u64-layout}
use beam_drop.Protocol.PacketIo.{read_payload, read_packet, length_offset}

-- The 52 bytes before the payload.
abbrev header_of : Packet → Bytes
header_of p =
    layout (type_code p.header.type) p.header.flags (length p.payload) p.header.checksum []

encode-split : (p : Packet) → IsWellFormed p → encode p ≡ header_of p ++ p.payload
encode-split p w = rw (encode-layout p w.magic_ok w.version_ok, append-nil)

length-header_of : (p : Packet) → IsWellFormed p → length (header_of p) ≡ 52
length-header_of p w = rw append-nil (omega (arith, w.checksum_size))

-- `read_packet` returned the packet, or a `recv` failed.
abbrev pub Receives : (os : Os) → Packet → Bytes → Result (Packet × os.State) → Type 0
Receives os p rest r =
    ((t : os.State) × (r ≡ ok (p, t)) × (os.pending t ≡ rest)) ⊎ (r ≡ err (network receive_failed))

-- `p` as it comes out at the other end.
abbrev pub received : Packet → Packet
received p = record p { header = record (p.header) { length_field = length p.payload } }

module _ (os : Os) (handle : ℕ) where
  open os use {State, pending, sent, pending_bytes}

  read_payload_lem :
      (payload header rest : Bytes) (s : State)
      → pending s ≡ payload ++ rest
      → ((t : State) × (read_payload os (some handle) (length payload) header s
            ≡ ok (header ++ payload, t))
          × (pending t ≡ rest))
        ⊎ (read_payload os (some handle) (length payload) header s ≡ err (network receive_failed))
  unfolding read_payload
  read_payload_lem [] header rest s e = inl (s, rw append-nil, e)
  read_payload_lem (x ∷ xs) header rest s e =
      let some_bytes = ltb_of_lt 0 (suc (length xs)) (omega arith) in
      elim (read_exact_lem os handle (length (x ∷ xs)) s) [
        | inl (bytes, t, is_ok, r) ↦
            let same =
              append-injective bytes (pending t) (x ∷ xs) rest r.size_is (sym r.taken ∙ e) in
            inl (t, rw (some_bytes, is_ok, same.0), same.1)
        | inr failed ↦ inr (rw (some_bytes, failed))
      ]

  -- Reading from a stream that begins with what `write_packet` sends for a well-formed packet gives
  -- that packet and leaves the stream behind it, or fails because a `recv` fails.
  pub read_packet-encode :
      (p : Packet) (rest : Bytes) (s : State)
      → IsWellFormed p
      → pending s ≡ encode p ++ rest
      → Receives os (received p) rest (read_packet os (some handle) s)
  unfolding read_packet
  read_packet-encode p rest s w e =
      let behind : pending s ≡ header_of p ++ (p.payload ++ rest) =
        e ∙ rw (encode-split p w) (append_assoc (header_of p) p.payload rest) in
      let size =
        read_u64-layout (type_code p.header.type) p.header.flags (length p.payload)
          p.header.checksum [] (omega (arith, w.payload_fits)) in
      elim (read_exact_lem os handle encoded_size s) [
        | inr failed ↦ inr (rw failed)
        | inl (bytes, t, is_ok, r) ↦
            let same =
              append-injective bytes (pending t) (header_of p) (p.payload ++ rest)
                (r.size_is ∙ sym (length-header_of p w)) (sym r.taken ∙ behind) in
            elim (read_payload_lem p.payload (header_of p) rest t same.1) [
              | inl (u, payload_ok, left) ↦ inl (
                u,
                rw (is_ok, same.0, size, payload_ok, ← encode-split p w, parse-encode p w),
                left,
              )
              | inr failed ↦ inr (rw (is_ok, same.0, size, failed))
            ]
      ]

  read_payload_part :
      (n : ℕ) (header : Bytes) (s : State)
      → ((payload : Bytes) × (t : State) × (read_payload os (some handle) n header s
            ≡ ok (header ++ payload, t))
          × (pending s ≡ payload ++ pending t)
          × (sent t ≡ sent s))
        ⊎ (read_payload os (some handle) n header s ≡ err (network receive_failed))
  unfolding read_payload
  read_payload_part n header s = elim (Bool-cases (ltb 0 n)) [
    | inr empty ↦ inl ([], s, rw (empty, append-nil), refl, refl)
    | inl more ↦ elim (read_exact_lem os handle n s) [
      | inl (bytes, t, is_ok, r) ↦ inl (bytes, t, rw (more, is_ok), r.taken, r.sent_kept)
      | inr failed ↦ inr (rw (more, failed))
    ]
  ]

  -- A packet that was read is the next of the stream: what `read_packet` took is its encoding.
  pub encode-read_packet :
      (p : Packet) (s t : State)
      → read_packet os (some handle) s ≡ ok (p, t)
      → pending s ≡ encode p ++ pending t
  unfolding read_packet
  encode-read_packet p s t e = elim (read_exact_lem os handle encoded_size s) [
    | inr failed ↦ absurd (cc (failed, e))
    | inl (bytes, t1, is_ok, r) ↦ elim (read_payload_part (read_u64 bytes length_offset) bytes t1) [
      | inr failed ↦ absurd (cc (rw (is_ok, failed) at e))
      | inl (payload, u, payload_ok, left, _) ↦ elim (Result-cases (parse (bytes ++ payload))) [
        | inr (x, failed) ↦ absurd (cc (rw (is_ok, payload_ok, failed) at e))
        | inl (q, parsed) ↦
            let same : ok (q, u) ≡ ok (p, t) = rw (is_ok, payload_ok, parsed) at e in
            let whole : pending s ≡ (bytes ++ payload) ++ pending u =
              rw (r.taken, left) (sym (append_assoc bytes payload (pending u))) in
            let all_bytes =
              All-left IsByte (bytes ++ payload) (pending u) (rw whole at (pending_bytes s)) in
            cc (same, whole, encode-parse (bytes ++ payload) q all_bytes parsed)
      ]
    ]
  ]

  -- Reading a packet sends nothing.
  pub sent-read_packet :
      (p : Packet) (s t : State) → read_packet os (some handle) s ≡ ok (p, t) → sent t ≡ sent s
  unfolding read_packet
  sent-read_packet p s t e = elim (read_exact_lem os handle encoded_size s) [
    | inr failed ↦ absurd (cc (failed, e))
    | inl (bytes, t1, is_ok, r) ↦ elim (read_payload_part (read_u64 bytes length_offset) bytes t1) [
      | inr failed ↦ absurd (cc (rw (is_ok, failed) at e))
      | inl (payload, u, payload_ok, _, kept) ↦ elim (Result-cases (parse (bytes ++ payload))) [
        | inr (x, failed) ↦ absurd (cc (rw (is_ok, payload_ok, failed) at e))
        | inl (q, parsed) ↦
            let same : ◌≡◌ {A = Result (Packet × State)} (ok (q, u)) (ok (p, t)) =
              rw (is_ok, payload_ok, parsed) at e in
            let first : sent t1 ≡ sent s = r.sent_kept in
            let last : u ≡ t = cc in ap sent (sym last) ∙ kept ∙ first
      ]
    ]
  ]
