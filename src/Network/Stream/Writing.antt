-- ===== src/Network/Stream/Writing.antt =====
-- `write_all` hands the system all of the bytes, once and in order.
use beam_drop.Prelude.{
  ℕ, zero, suc, ◌+◌, ◌-◌, ◌≤◌, ◌≡◌, ◌⊎◌, inl, inr, refl, sym, ap, ◌∙◌, true, Bool-cases,
  Option-cases, none, some, ◌++◌, append-nil, append_assoc, arith, Bytes, length, take, drop,
  length-take, take-append-drop, drop-drop, take-take, drop_all, ltb, le_of_ltb,
}
use beam_drop.Errors.{Result, ok, err, network, send_failed}
use beam_drop.Network.{Os}
use beam_drop.Network.Stream.{call_size, write_loop, write_all}

-- A part that is cut short twice, and what comes after it.
take-take-drop :
    (n m k : ℕ) (xs : Bytes) → n ≤ m → take n (take m (drop k xs)) ++ drop (k + n) xs ≡ drop k xs
take-take-drop n m k xs h =
    rw (take-take n m (drop k xs) h, ← drop-drop n k xs) (take-append-drop n (drop k xs))

module _ (os : Os) where
  open os use {State, send, pending, sent, send_some}

  -- What a write of `bytes` from `s` on has done when it stops at `t`.
  pub record Wrote (bytes : Bytes) (s t : State) : Type 0 where
    pub sent_is : sent t ≡ sent s ++ bytes
    pub pending_kept : pending t ≡ pending s

  -- The result of a write that may fail: all bytes sent, or the error of a failed `send`.
  abbrev pub Writes : Bytes → State → Result State → Type 0
  Writes bytes s r = ((t : State) × (r ≡ ok t) × Wrote bytes s t) ⊎ (r ≡ err (network send_failed))

  write_loop_done :
      (fuel : ℕ) (bytes : Bytes) (k : ℕ) (s : State)
      → length bytes ≤ k
      → write_loop os fuel bytes k s ≡ ok s
  unfolding write_loop
  write_loop_done zero bytes k s e = ground arith
  write_loop_done (suc fuel) bytes k s e = ground arith

  write_loop_failed :
      (fuel : ℕ) (bytes : Bytes) (k : ℕ) (s : State)
      → ltb k (length bytes) ≡ true
      → send s (take (call_size (length bytes - k)) (drop k bytes)) ≡ none
      → write_loop os (suc fuel) bytes k s ≡ err (network send_failed)
  unfolding write_loop
  write_loop_failed fuel bytes k s more e = ground arith

  write_loop_next :
      (fuel : ℕ) (bytes : Bytes) (k : ℕ) (s : State) (n : ℕ) (t : State)
      → ltb k (length bytes) ≡ true
      → send s (take (call_size (length bytes - k)) (drop k bytes)) ≡ some (n, t)
      → write_loop os (suc fuel) bytes k s ≡ write_loop os fuel bytes (k + n) t
  unfolding write_loop
  write_loop_next fuel bytes k s n t more e = ground arith

  module _ (part rest : Bytes) {bytes : Bytes} {s t : State} where
    Writes-cons :
        {r : Result State}
        → sent t ≡ sent s ++ part
        → pending t ≡ pending s
        → part ++ rest ≡ bytes
        → Writes rest t r
        → Writes bytes s r
    Writes-cons e k cut (inl (u, is_ok, w)) = inl (
      u,
      is_ok,
      record {
        sent_is = w.sent_is ∙ rw e (append_assoc (sent s) part rest ∙ ap (λ x. sent s ++ x) cut);
        pending_kept = w.pending_kept ∙ k;
      },
    )
    Writes-cons e k cut (inr failed) = inr failed

  write_loop_lem :
      (fuel : ℕ) (bytes : Bytes) (k : ℕ) (s : State)
      → length bytes ≤ k + fuel
      → Writes (drop k bytes) s (write_loop os fuel bytes k s)
  write_loop_lem zero bytes k s enough = inl (
    s,
    write_loop_done zero bytes k s (omega arith),
    record {
      sent_is = rw (drop_all k bytes (omega arith)) (sym (append-nil (sent s)));
      pending_kept = refl;
    },
  )
  write_loop_lem (suc fuel) bytes k s enough = elim (Bool-cases (ltb k (length bytes))) [
    | inr full ↦
        let e = le_of_ltb k (length bytes) full in
        inl (
          s,
          write_loop_done (suc fuel) bytes k s e,
          record {
            sent_is = rw (drop_all k bytes e) (sym (append-nil (sent s)));
            pending_kept = refl;
          },
        )
    | inl more ↦ elim (Option-cases (send s (take (call_size (length bytes - k)) (drop k bytes)))) [
      | inl failed ↦ inr (write_loop_failed fuel bytes k s more failed)
      | inr ((n, t), e) ↦
          let (some_sent, fits, taken, kept) = send_some s _ n t e in
          let size = call_size (length bytes - k) in
          rw (write_loop_next fuel bytes k s n t more e) (
            Writes-cons _ _ taken kept
              (take-take-drop n size k bytes (omega (arith, length-take size (drop k bytes))))
              (write_loop_lem fuel bytes (k + n) t (omega arith)))
    ]
  ]

  -- `write_all` on a valid connection sends all of the bytes, in order and once, however many the
  -- system takes at a time, or ends in the error of a failed `send`; the fuel never runs out.
  pub write_all_lem :
      (handle : ℕ) (bytes : Bytes) (s : State) → Writes bytes s (write_all os (some handle) bytes s)
  unfolding write_all
  write_all_lem handle bytes s = write_loop_lem (length bytes) bytes 0 s (omega arith)
