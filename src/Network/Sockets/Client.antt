-- ===== src/Network/Sockets/Client.antt =====
-- src/network/TcpClient.cpp
pub mod Ownership
pub mod Choice
use beam_drop.Prelude.{ℕ, Option, none, some, List, [], ◌∷◌, Bytes}
use beam_drop.Errors.{address_resolution_failed, connect_failed}
use beam_drop.Text.{codes, decimal}
use beam_drop.Network.Sockets.{
  NetworkError, Attempt, returned, threw, Sockets, c_str, socket_error, on_handle, on_success,
}

module _ (os : Sockets) where
  open os use {State, Address}

  -- One turn of the loop over the addresses.
  unfoldable pub try_address : Address → State → Option ℕ × State
  try_address item s =
      on_handle os (os.socket (os.kind_of item) s) (λ t. (none, t))
        λ h t. on_success os (os.connect h item t) (λ t. (none, os.close h t)) λ t. (some h, t)

  abbrev pub or_else : Option ℕ × State → (State → Option ℕ × State) → Option ℕ × State
  or_else (none, s) rest = rest s
  or_else (some h, s) rest = (some h, s)

  unfoldable pub first_connected : List Address → State → Option ℕ × State
  first_connected [] s = (none, s)
  first_connected (item ∷ items) s = or_else (try_address item s) (λ t. first_connected items t)

  -- Behind the loop.
  abbrev pub finished : Bytes → ℕ → Option ℕ × State → Attempt ℕ × State
  finished host port (none, s) =
      let t = os.freeaddrinfo s in
      (threw (socket_error os connect_failed (codes "connect failed") host port t), t)
  finished host port (some h, s) = (returned h, os.freeaddrinfo s)

  -- The error of a failed `getaddrinfo`: the arguments stand in the order in which the code has them.
  unfoldable pub resolution_error : Bytes → ℕ → NetworkError
  resolution_error host port = record {
    code = address_resolution_failed;
    message = host;
    native_error = port;
    host = codes "getaddrinfo failed for host ";
    port = 0;
  }

  abbrev pub resolved : Bytes → ℕ → Option (List Address) × State → Attempt ℕ × State
  resolved host port (none, s) = (threw (resolution_error host port), s)
  resolved host port (some items, s) = finished host port (first_connected items s)

  -- `TcpClient::connect`
  unfoldable pub connect : Bytes → ℕ → State → Attempt ℕ × State
  connect host port s = resolved host port (os.getaddrinfo (c_str host) (decimal port) os.tcp_v4 s)
