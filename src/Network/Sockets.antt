-- ===== src/Network/Sockets.antt =====
-- The sockets of src/network/TcpServer.cpp and src/network/TcpClient.cpp, on POSIX: the calls of the
-- system are the fields of `Sockets`, and src/network/SocketPlatform.hpp wraps them.
pub mod Server
pub mod Client
pub mod Opened
mod Tests
use beam_drop.Prelude.{
  ℕ, suc, ◌≡◌, Bool, true, false, not, ◌&&◌, ◌||◌, Option, none, some, List, [], ◌∷◌, ◌++◌, Bytes,
  ◌==◌, if◌then◌else◌,
}
use beam_drop.Errors.{NetworkCode}
use beam_drop.Text.{codes, decimal}

-- network::NetworkError
pub record NetworkError : Type 0 where
  pub code : NetworkCode
  pub message : Bytes
  pub native_error : ℕ
  pub host : Bytes
  pub port : ℕ

-- What a call returns or throws.
pub data Attempt (A : Type 0) : Type 0 where
  returned : A → Attempt A
  threw : NetworkError → Attempt A

-- `std::chrono::milliseconds` has a sign.
pub data ℤ : Type 0 where
  pos negsuc : ℕ → ℤ

-- The outcome of `select`
pub data Ready : Type 0 where
  timed_out arrived select_failed : Ready

-- What a process holds of the system: its open handles, and the number of address lists that it has
-- not given back.
module _ {State : Type 0} (is_open : State → ℕ → Bool) (unfreed : State → ℕ) where
  pub record Same (s t : State) : Type 0 where
    pub open_same : (k : ℕ) → is_open t k ≡ is_open s k
    pub unfreed_same : unfreed t ≡ unfreed s

  -- One handle more, which was not open before.
  pub record Plus (h : ℕ) (s t : State) : Type 0 where
    pub fresh : is_open s h ≡ false
    pub open_plus : (k : ℕ) → is_open t k ≡ (k == h || is_open s k)
    pub unfreed_plus : unfreed t ≡ unfreed s

  abbrev pub Gains : State → Option ℕ × State → Type 0
  Gains s (none, t) = Same s t
  Gains s (some h, t) = Plus h s t

-- The calls of the system, and what its manual says of the handles: `socket` and `accept` give a
-- handle that is not open, `close` gives it back, and no other call opens or closes one.
-- `getaddrinfo` gives a list that `freeaddrinfo` takes back.
pub record Sockets : Type 1 where
  pub State : Type 0
  pub Kind : Type 0
  pub Address : Type 0
  pub Ip : Type 0
  pub is_open : State → ℕ → Bool
  pub unfreed : State → ℕ
  pub tcp_v4 : Kind
  pub kind_of : Address → Kind
  pub inet_pton : Bytes → Option Ip
  pub errno : State → ℕ
  pub socket : Kind → State → Option ℕ × State
  pub reuse_address : ℕ → State → Bool × State
  pub bind : ℕ → Ip → ℕ → State → Bool × State
  pub listen : ℕ → ℕ → State → Bool × State
  pub select : ℕ → ℕ → ℕ → State → Ready × State
  pub accept : ℕ → State → Option ℕ × State
  pub connect : ℕ → Address → State → Bool × State
  pub close : ℕ → State → State
  pub getaddrinfo : Bytes → Bytes → Kind → State → Option (List Address) × State
  pub freeaddrinfo : State → State
  pub socket_gains : (kind : Kind) (s : State) → Gains is_open unfreed s (socket kind s)
  pub accept_gains : (h : ℕ) (s : State) → Gains is_open unfreed s (accept h s)
  pub reuse_same : (h : ℕ) (s : State) → Same is_open unfreed s (reuse_address h s).1
  pub bind_same :
      (h : ℕ) (ip : Ip) (port : ℕ) (s : State) → Same is_open unfreed s (bind h ip port s).1
  pub listen_same : (h n : ℕ) (s : State) → Same is_open unfreed s (listen h n s).1
  pub select_same : (h sec usec : ℕ) (s : State) → Same is_open unfreed s (select h sec usec s).1
  pub connect_same : (h : ℕ) (a : Address) (s : State) → Same is_open unfreed s (connect h a s).1
  pub close_open :
      (h : ℕ) (s : State) (k : ℕ) → is_open (close h s) k ≡ (not (k == h) && is_open s k)
  pub close_unfreed : (h : ℕ) (s : State) → unfreed (close h s) ≡ unfreed s
  pub resolve_open :
      (host port : Bytes) (kind : Kind) (s : State) (k : ℕ)
      → is_open (getaddrinfo host port kind s).1 k ≡ is_open s k
  pub resolve_some :
      (host port : Bytes) (kind : Kind) (s : State) (list : List Address) (t : State)
      → getaddrinfo host port kind s ≡ (some list, t)
      → unfreed t ≡ suc (unfreed s)
  pub resolve_none :
      (host port : Bytes) (kind : Kind) (s t : State)
      → getaddrinfo host port kind s ≡ (none, t)
      → unfreed t ≡ unfreed s
  pub free_open : (s : State) (k : ℕ) → is_open (freeaddrinfo s) k ≡ is_open s k
  pub free_unfreed : (s : State) (n : ℕ) → unfreed s ≡ suc n → unfreed (freeaddrinfo s) ≡ n

-- `c_str`, to the first NUL
unfoldable pub c_str : Bytes → Bytes
c_str [] = []
c_str (c ∷ cs) = let rest = c_str cs in if c == 0 then [] else c ∷ rest

module _ (os : Sockets) where
  open os use {State}

  -- `detail::socket_error`
  abbrev pub socket_error : NetworkCode → Bytes → Bytes → ℕ → State → NetworkError
  socket_error code operation host port s = record {
    code = code;
    message = operation ++ (codes ": socket error " ++ decimal (os.errno s));
    native_error = os.errno s;
    host = host;
    port = port;
  }

  -- What follows a call that gives a handle or -1, and one that succeeds or fails.
  abbrev pub on_handle : {A : Type 0} → Option ℕ × State → (State → A) → (ℕ → State → A) → A
  on_handle (none, s) failed rest = failed s
  on_handle (some h, s) failed rest = rest h s

  abbrev pub on_success : {A : Type 0} → Bool × State → (State → A) → (State → A) → A
  on_success (false, s) failed rest = failed s
  on_success (true, s) failed rest = rest s
