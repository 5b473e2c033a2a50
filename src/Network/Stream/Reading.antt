-- ===== src/Network/Stream/Reading.antt =====
-- `read_exact` reads exactly the next bytes of the stream, however the system splits them.
use beam_drop.Prelude.{
  ℕ, zero, suc, ◌-◌, ◌≤◌, ◌≡◌, ◌⊎◌, inl, inr, refl, sym, ◌∙◌, true, Bool-cases, Option-cases, none,
  some, [], ◌++◌, append_assoc, arith, Bytes, length, length-append, ltb, lt_of_ltb, le_of_ltb,
}
use beam_drop.Errors.{Result, ok, err, network, receive_failed}
use beam_drop.Network.{Os}
use beam_drop.Network.Stream.{call_size, call_size-le, read_loop, read_exact}

module _ (os : Os) where
  open os use {State, recv, pending, sent, recv_some}

  -- What a read of `size` bytes from `s` on has done: it stopped at `t`.
  pub record Read (size : ℕ) (s : State) (bytes : Bytes) (t : State) : Type 0 where
    pub size_is : length bytes ≡ size
    pub taken : pending s ≡ bytes ++ pending t
    pub sent_kept : sent t ≡ sent s

  -- The result of a read that may fail: the bytes wanted, or the error of a failed `recv`.
  abbrev pub Reads : ℕ → State → Result (Bytes × State) → Type 0
  Reads size s r =
      ((bytes : Bytes) × (t : State) × (r ≡ ok (bytes, t)) × Read size s bytes t)
      ⊎ (r ≡ err (network receive_failed))

  -- The loop, with `bytes` read before it.
  record Progress (size : ℕ) (bytes : Bytes) (s : State) (all : Bytes) (t : State) : Type 0 where
    size_is : length all ≡ size
    taken : bytes ++ pending s ≡ all ++ pending t
    sent_kept : sent t ≡ sent s

  abbrev Progresses : ℕ → Bytes → State → Result (Bytes × State) → Type 0
  Progresses size bytes s r =
      ((all : Bytes) × (t : State) × (r ≡ ok (all, t)) × Progress size bytes s all t)
      ⊎ (r ≡ err (network receive_failed))

  read_loop_done :
      (fuel size : ℕ) (bytes : Bytes) (s : State)
      → length bytes ≡ size
      → read_loop os fuel size bytes s ≡ ok (bytes, s)
  unfolding read_loop
  read_loop_done zero size bytes s e = ground arith
  read_loop_done (suc fuel) size bytes s e = ground arith

  read_loop_failed :
      (fuel size : ℕ) (bytes : Bytes) (s : State)
      → ltb (length bytes) size ≡ true
      → recv s (call_size (size - length bytes)) ≡ none
      → read_loop os (suc fuel) size bytes s ≡ err (network receive_failed)
  unfolding read_loop
  read_loop_failed fuel size bytes s more e = ground arith

  read_loop_next :
      (fuel size : ℕ) (bytes : Bytes) (s : State) (got : Bytes) (t : State)
      → ltb (length bytes) size ≡ true
      → recv s (call_size (size - length bytes)) ≡ some (got, t)
      → read_loop os (suc fuel) size bytes s ≡ read_loop os fuel size (bytes ++ got) t
  unfolding read_loop
  read_loop_next fuel size bytes s got t more e = ground arith

  module _ {size : ℕ} {bytes : Bytes} (got : Bytes) {s t : State} where
    Progresses-cons :
        {r : Result (Bytes × State)}
        → pending s ≡ got ++ pending t
        → sent t ≡ sent s
        → Progresses size (bytes ++ got) t r
        → Progresses size bytes s r
    Progresses-cons e k (inl (all, u, is_ok, p)) = inl (
      all,
      u,
      is_ok,
      record {
        size_is = p.size_is;
        taken = rw e (sym (append_assoc bytes got (pending t)) ∙ p.taken);
        sent_kept = p.sent_kept ∙ k;
      },
    )
    Progresses-cons e k (inr failed) = inr failed

  read_loop_lem :
      (fuel size : ℕ) (bytes : Bytes) (s : State)
      → length bytes ≤ size
      → size - length bytes ≤ fuel
      → Progresses size bytes s (read_loop os fuel size bytes s)
  read_loop_lem zero size bytes s le enough = inl (
    bytes,
    s,
    read_loop_done zero size bytes s (omega arith),
    record { size_is = omega arith; taken = refl; sent_kept = refl },
  )
  read_loop_lem (suc fuel) size bytes s le enough = elim (Bool-cases (ltb (length bytes) size)) [
    | inr full ↦
        let e : length bytes ≡ size = omega (arith, le_of_ltb (length bytes) size full) in
        inl (
          bytes,
          s,
          read_loop_done (suc fuel) size bytes s e,
          record { size_is = e; taken = refl; sent_kept = refl },
        )
    | inl more ↦ elim (Option-cases (recv s (call_size (size - length bytes)))) [
      | inl failed ↦ inr (read_loop_failed fuel size bytes s more failed)
      | inr ((got, t), e) ↦
          let (some_read, fits, taken, kept) = recv_some s _ got t e in
          let room = call_size-le (size - length bytes) in
          let below = lt_of_ltb (length bytes) size more in
          rw (read_loop_next fuel size bytes s got t more e) (
            Progresses-cons got taken kept (
              read_loop_lem fuel size (bytes ++ got) t (omega (arith, length-append bytes got))
                (omega (arith, length-append bytes got))))
    ]
  ]

  -- `read_exact` of a valid connection gives exactly `size` bytes, the next ones of the stream,
  -- however the system splits them, or the error of a failed `recv`; the fuel never runs out.
  pub read_exact_lem :
      (handle size : ℕ) (s : State) → Reads size s (read_exact os (some handle) size s)
  unfolding read_exact
  read_exact_lem handle size s = elim (read_loop_lem size size [] s (omega arith) (omega arith)) [
    | inl (bytes, t, is_ok, p) ↦
        inl (
          bytes,
          t,
          is_ok,
          record { size_is = p.size_is; taken = p.taken; sent_kept = p.sent_kept },
        )
    | inr failed ↦ inr failed
  ]
