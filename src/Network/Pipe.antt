-- ===== src/Network/Pipe.antt =====
-- A system that meets the laws of `Os`: each call moves one byte. It serves the tests.
use beam_drop.Prelude.{
  ℕ, zero, suc, ◌%◌, ◌≤◌, ◌<◌, ◌≡◌, arith, Option, none, some, [], ◌∷◌, ◌++◌, Bytes, length, take,
  All,
}
use beam_drop.Protocol.{IsByte}
use beam_drop.Network.{Os}

pub record Pipe : Type 0 where
  pub inbox : Bytes
  pub outbox : Bytes

abbrev pub low_bytes : Bytes → Bytes
low_bytes [] = []
low_bytes (c ∷ cs) = c % 256 ∷ low_bytes cs

abbrev pub pipe_recv : Bytes → Bytes → ℕ → Option (Bytes × Pipe)
pipe_recv [] out n = none
pipe_recv (c ∷ cs) out zero = none
pipe_recv (c ∷ cs) out (suc n) = some (c % 256 ∷ [], record { inbox = cs; outbox = out })

abbrev pub pipe_send : Pipe → Bytes → Option (ℕ × Pipe)
pipe_send p [] = none
pipe_send p (c ∷ cs) = some (1, record p { outbox = p.outbox ++ c ∷ [] })

pub pipe_recv_lem :
    (inbox out : Bytes) (n : ℕ) (bytes : Bytes) (t : Pipe)
    → pipe_recv inbox out n ≡ some (bytes, t)
    → (0 < length bytes)
      × (length bytes ≤ n)
      × (low_bytes inbox ≡ bytes ++ low_bytes t.inbox)
      × (t.outbox ≡ out)
pipe_recv_lem [] out n bytes t e = absurd (cc e)
pipe_recv_lem (c ∷ cs) out zero bytes t e = absurd (cc e)
pipe_recv_lem (c ∷ cs) out (suc n) bytes t e = ground arith

pub pipe_send_lem :
    (p : Pipe) (bytes : Bytes) (n : ℕ) (t : Pipe)
    → pipe_send p bytes ≡ some (n, t)
    → (0 < n)
      × (n ≤ length bytes)
      × (t.outbox ≡ p.outbox ++ take n bytes)
      × (low_bytes t.inbox ≡ low_bytes p.inbox)
pipe_send_lem p [] n t e = absurd (cc e)
pipe_send_lem p (c ∷ cs) n t e = ground arith

pub low_bytes-All : (bytes : Bytes) → All IsByte (low_bytes bytes)
low_bytes-All [] = tt
low_bytes-All (c ∷ cs) = (omega arith, low_bytes-All cs)

abbrev pub pipe : Os
pipe = record {
  State = Pipe;
  recv = λ s n. pipe_recv s.inbox s.outbox n;
  send = pipe_send;
  pending = λ s. low_bytes s.inbox;
  sent = λ s. s.outbox;
  recv_some = λ s n bytes t e. pipe_recv_lem s.inbox s.outbox n bytes t e;
  send_some = pipe_send_lem;
  pending_bytes = λ s. low_bytes-All s.inbox;
}
