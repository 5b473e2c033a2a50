-- ===== src/Transfer/Receiver/Fuel.antt =====
-- The fuel of the receiver's data loop never runs out: each packet takes a byte of the stream.
use beam_drop.Prelude.{
  ℕ, zero, suc, ◌<◌, ◌≡◌, refl, ap, Bool, true, false, not, some, arith, Bytes, length,
  length-append, if◌then◌else◌,
}
use beam_drop.Errors.{Result, ok, err}
use beam_drop.Transfer.Disk.{Disk, make_directories}
use beam_drop.Transfer.Path.{above}
use beam_drop.Network.{Os}
use beam_drop.Protocol.{Packet, file_end, data_chunk}
use beam_drop.Protocol.Codec
use beam_drop.Protocol.PacketIo.{read_packet}
use beam_drop.Protocol.PacketIo.RoundTrip.{encode-read_packet}
use beam_drop.Payload.FileInfo.{FileInfo}
use beam_drop.Resume.{StateFile}
use beam_drop.Transfer.Chain.{
  Outcome, and_then, Ensures, ensured, chain_guard, chain_then, chain_ok, chain_err,
}
use beam_drop.Transfer.Receiver.{
  Side, Receiver, made, create_directories, is_type, took, next_packet, keep_resume, report,
  take_data, receive_data,
}

-- Two continuations that agree on the results of a call.
and_then_same :
    {S A B : Type 0} (m : Outcome S A) (f g : A → S → Outcome S B)
    → ((a : A) (t : S) → m ≡ (ok a, t) → f a t ≡ g a t)
    → and_then m f ≡ and_then m g
unfolding and_then
and_then_same (ok a, s) f g h = h a s refl
and_then_same (err e, s) f g h = refl

if_same : {A : Type 0} (b : Bool) (x y z : A) → y ≡ z → (if b then x else y) ≡ (if b then x else z)
if_same true x y z h = refl
if_same false x y z h = h

pub encode_pos : (p : Packet) → 0 < length (Codec.encode p)
unfolding Codec.encode Codec.append_u16
encode_pos p = grind (arith, length-append)

module _ (os : Os) (h : ℕ) (receiver : Receiver) where
  open os use {State, pending}

  took_less :
      (r : Result (Packet × State)) (s : Side State) (p : Packet) (t : Side State)
      → took os (some h) receiver r s ≡ (ok p, t)
      → r ≡ ok (p, t.net)
  took_less (ok (q, net)) s p t e = let a = ap (λ r. r.0) e in let b = ap (λ r. r.1.net) e in cc
  took_less (err x) s p t e = absurd (cc (ap (λ r. r.0) e))

  next_packet_less :
      (s : Side State) (p : Packet) (t : Side State)
      → next_packet os (some h) receiver s ≡ (ok p, t)
      → length (pending t.net) < length (pending s.net)
  unfolding next_packet
  next_packet_less s p t e =
      let taken =
        encode-read_packet os h p s.net t.net (took_less (read_packet os (some h) s.net) s p t e) in
      let some_bytes = encode_pos p in
      let size = length-append (Codec.encode p) (pending t.net) in
      let all = ap (λ b. length b) taken in omega arith

  made_net :
      (d : Result Disk) (s : Side State)
      → Ensures (λ u t. t.net ≡ s.net) (made os (some h) receiver d s)
  made_net (ok d) s = chain_ok _ tt _ refl
  made_net (err x) s = chain_err _ x s

  keep_resume_net :
      (b : Bool) (r : Result StateFile) (s : Side State)
      → Ensures
          (λ u t. t.net ≡ s.net)
          (if b then keep_resume os (some h) receiver r s else (ok tt, s))
  unfolding create_directories
  keep_resume_net true (ok f) s =
      chain_then (λ u t. t.net ≡ s.net) (λ u t. t.net ≡ s.net) _ _
        (made_net (make_directories s.can_make s.disk (above receiver.state_file)) s)
        λ u t same. chain_ok (λ u t. t.net ≡ s.net) tt _ same
  keep_resume_net true (err x) s = chain_err (λ u t. t.net ≡ s.net) x s
  keep_resume_net false r s = chain_ok (λ u t. t.net ≡ s.net) tt s refl

  module _ (info : FileInfo) (path : Bytes) (file_index file_count : ℕ) where
    take_data_net :
        (payload : Bytes) (received n : ℕ) (s t : Side State)
        → take_data os (some h) receiver info path file_index file_count payload received s
          ≡ (ok n, t)
        → t.net ≡ s.net
    unfolding take_data report
    take_data_net payload received n s t e =
        ensured (λ k v. v.net ≡ s.net) _ n t e
          (chain_guard (λ k v. v.net ≡ s.net) _ _ s _
            λ fits.
              chain_guard (λ k v. v.net ≡ s.net) _ _ s _
                λ written.
                  chain_then (λ u v. v.net ≡ s.net) (λ k v. v.net ≡ s.net) _ _
                    (keep_resume_net receiver.enable_resume _ _)
                    λ u v same. chain_ok (λ k v. v.net ≡ s.net) _ _ same)

    -- On a valid connection, the loop gives the same result and side with any two amounts of fuel
    -- above the number of bytes that the stream still holds: the fuel that `receive_one_file` gives
    -- it is enough, and the loop ends.
    pub receive_data_fuel :
        (n m received : ℕ) (s : Side State)
        → length (pending s.net) < n
        → length (pending s.net) < m
        → receive_data os (some h) receiver info path file_index file_count n received s
          ≡ receive_data os (some h) receiver info path file_index file_count m received s
    unfolding receive_data
    receive_data_fuel zero m received s hn hm = absurd (omega arith)
    receive_data_fuel n zero received s hn hm = absurd (omega arith)
    receive_data_fuel (suc n) (suc m) received s hn hm =
        and_then_same (next_packet os (some h) receiver s) _ _ λ p t e.
          let less = next_packet_less s p t e in
          if_same (is_type p file_end) _ _ _ (
            if_same (not (is_type p data_chunk)) _ _ _ (
              and_then_same
                (take_data os (some h) receiver info path file_index file_count p.payload received
                  t)
                _ _
                λ k u taken.
                  let same : length (pending u.net) ≡ length (pending t.net) =
                    ap (λ x. length (pending x)) (take_data_net p.payload received k t u taken) in
                  receive_data_fuel n m k u (omega arith) (omega arith)))
