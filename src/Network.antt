-- ===== src/Network.antt =====
-- TCP connections: include/beamdrop/network/TcpConnection.hpp and src/network/TcpConnection.cpp.
-- The operating system's `send` and `recv` are the fields of `Os`; `Stream` holds the reading and
-- writing loops, `Handles` the ownership of the socket handle.
pub mod Stream
pub mod Handles
pub mod Pipe
pub mod Sockets
mod Tests
use beam_drop.Prelude.{ℕ, ◌+◌, ◌≤◌, ◌<◌, ◌≡◌, Option, none, some, ◌++◌, Bytes, length, take, All}
use beam_drop.Protocol.{IsByte}

-- A connected socket of the operating system. `recv s n` and `send s bytes` return `none` where the
-- call returns 0 or less. `pending` is what the peer has sent and this side has not read, and
-- `sent` is what this side has sent. The laws are POSIX's: a successful call moves at least one
-- byte, at most as many as it was given room for, in order.
pub record Os : Type 1 where
  pub State : Type 0
  pub recv : State → ℕ → Option (Bytes × State)
  pub send : State → Bytes → Option (ℕ × State)
  pub pending : State → Bytes
  pub sent : State → Bytes
  pub recv_some :
      (s : State) (n : ℕ) (bytes : Bytes) (t : State)
      → recv s n ≡ some (bytes, t)
      → (0 < length bytes)
        × (length bytes ≤ n)
        × (pending s ≡ bytes ++ pending t)
        × (sent t ≡ sent s)
  pub send_some :
      (s : State) (bytes : Bytes) (n : ℕ) (t : State)
      → send s bytes ≡ some (n, t)
      → (0 < n) × (n ≤ length bytes) × (sent t ≡ sent s ++ take n bytes) × (pending t ≡ pending s)
  pub pending_bytes : (s : State) → All IsByte (pending s)
