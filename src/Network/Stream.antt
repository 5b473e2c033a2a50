-- ===== src/Network/Stream.antt =====
-- The loops of `TcpConnection::read_exact` and `write_all`.
pub mod Reading
pub mod Writing
use mathlib.Core.Bool.{true, false}
use beam_drop.Prelude.{
  ℕ, zero, suc, ◌+◌, ◌-◌, ◌^◌, ◌≤◌, ◌<◌, Option, none, some, ◌++◌, [], arith, Bytes, length, take,
  drop, ltb, if◌then◌else◌,
}
use beam_drop.Errors.{
  Result, ok, err, network, connect_failed, send_failed, receive_failed, runtime,
}
use beam_drop.Network.{Os}

abbrev pub int_max : ℕ
int_max = 2 ^ 31 - 1

-- `remaining > INT_MAX ? INT_MAX : remaining`
unfoldable pub call_size : ℕ → ℕ
call_size remaining = if ltb int_max remaining then int_max else remaining

pub call_size-le : (n : ℕ) → call_size n ≤ n
unfolding call_size
call_size-le n = ground arith

module _ (os : Os) where
  open os use {State, recv, send}

  -- The loop of `read_exact`, on fuel: each round that goes on has read a byte, so that as many
  -- rounds as bytes are wanted are enough. `bytes` is the vector's part that is filled.
  unfoldable pub read_loop : ℕ → ℕ → Bytes → State → Result (Bytes × State)
  read_loop zero size bytes s = if ltb (length bytes) size then err runtime else ok (bytes, s)
  read_loop (suc fuel) size bytes s = elim (ltb (length bytes) size) [
    | false ↦ ok (bytes, s)
    | true ↦ elim (recv s (call_size (size - length bytes))) [
      | none ↦ err (network receive_failed)
      | some (got, t) ↦ read_loop fuel size (bytes ++ got) t
    ]
  ]

  -- `read_exact`; the handle is `none` where the code has -1.
  unfoldable pub read_exact : Option ℕ → ℕ → State → Result (Bytes × State)
  read_exact none size s = err (network connect_failed)
  read_exact (some handle) size s = read_loop size size [] s

  unfoldable pub write_loop : ℕ → Bytes → ℕ → State → Result State
  write_loop zero bytes sent_total s = if ltb sent_total (length bytes) then err runtime else ok s
  write_loop (suc fuel) bytes sent_total s = elim (ltb sent_total (length bytes)) [
    | false ↦ ok s
    | true ↦ elim (send s (take (call_size (length bytes - sent_total)) (drop sent_total bytes))) [
      | none ↦ err (network send_failed)
      | some (n, t) ↦ write_loop fuel bytes (sent_total + n) t
    ]
  ]

  unfoldable pub write_all : Option ℕ → Bytes → State → Result State
  write_all none bytes s = err (network connect_failed)
  write_all (some handle) bytes s = write_loop (length bytes) bytes 0 s
