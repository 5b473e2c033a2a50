-- ===== src/Network/Sockets/Server.antt =====
-- src/network/TcpServer.cpp
pub mod Lifetime
use beam_drop.Prelude.{ℕ, ◌*◌, ◌/◌, ◌%◌, Option, none, some, List, [], ◌∷◌, ◌++◌, Bytes}
use beam_drop.Errors.{
  NetworkCode, socket_creation_failed, set_socket_option_failed, invalid_address, bind_failed,
  listen_failed, accept_failed,
}
use beam_drop.Text.{codes}
use beam_drop.Network.Sockets.{
  NetworkError, Attempt, returned, threw, ℤ, pos, negsuc, Ready, timed_out, arrived, select_failed,
  Sockets, c_str, socket_error, on_handle, on_success,
}

module _ (os : Sockets) where
  open os use {State}

  -- `close_socket(handle); throw socket_error(…)`
  unfoldable pub give_up : ℕ → NetworkCode → Bytes → State → Attempt ℕ × State
  give_up h code operation s =
      let t = os.close h s in (threw (socket_error os code operation [] 0 t), t)

  -- The constructor from `inet_pton` on
  unfoldable pub bind_and_listen : Bytes → ℕ → ℕ → Option os.Ip → State → Attempt ℕ × State
  bind_and_listen host port h none s = (
    threw (record {
      code = invalid_address;
      message = codes "invalid bind host" ++ host;
      native_error = 0;
      host = [];
      port = 0;
    }),
    os.close h s,
  )
  bind_and_listen host port h (some ip) s =
      on_success os (os.bind h ip port s) (give_up h bind_failed (codes "bind failed")) λ t.
        on_success os (os.listen h 8 t) (give_up h listen_failed (codes "listen failed"))
          λ t. (returned h, t)

  -- The constructor: the handle that `listen_handle_` gets.
  unfoldable pub open_server : Bytes → ℕ → State → Attempt ℕ × State
  open_server host port s =
      on_handle os (os.socket os.tcp_v4 s)
        (λ t. (
          threw (socket_error os socket_creation_failed (codes "socket creation failed") [] 0 t),
          t,
        ))
        λ h t.
          on_success os (os.reuse_address h t)
            (give_up h set_socket_option_failed (codes "set socket REUSEADDR failed"))
            λ t. bind_and_listen host port h (os.inet_pton (c_str host)) t

  abbrev refused : Bytes → NetworkError
  refused message = record {
    code = accept_failed;
    message = message;
    native_error = 0;
    host = [];
    port = 0;
  }

  -- `accept_one`, of a server whose `listen_handle_` is -1 or a handle
  unfoldable pub accept_one : Option ℕ → State → Attempt ℕ × State
  accept_one none s = (threw (refused (codes "cannot accept on closed TCP server")), s)
  accept_one (some listener) s =
      on_handle os (os.accept listener s)
        (λ t. (threw (socket_error os accept_failed (codes "accept failed") [] 0 t), t))
        λ h t. (returned h, t)

  abbrev pub maybe : Attempt ℕ × State → Attempt (Option ℕ) × State
  maybe (returned h, s) = (returned (some h), s)
  maybe (threw e, s) = (threw e, s)

  abbrev pub after_select : ℕ → Ready × State → Attempt (Option ℕ) × State
  after_select listener (timed_out, s) = (returned none, s)
  after_select listener (select_failed, s) = (
    threw (socket_error os accept_failed (codes "wait for incoming connection failed") [] 0 s),
    s,
  )
  after_select listener (arrived, s) = maybe (accept_one (some listener) s)

  -- `accept_one_for`
  unfoldable pub accept_one_for : Option ℕ → ℤ → State → Attempt (Option ℕ) × State
  accept_one_for none timeout s = (threw (refused (codes "cannot accept on closed TCP server")), s)
  accept_one_for (some listener) (negsuc n) s =
      (threw (refused (codes "accept timeout must not be negative")), s)
  accept_one_for (some listener) (pos milliseconds) s =
      after_select listener
        (os.select listener (milliseconds / 1000) ((milliseconds % 1000) * 1000) s)

  -- `close`: the handle that is left, and the state.
  unfoldable pub close : Option ℕ → State → Option ℕ × State
  close none s = (none, s)
  close (some listener) s = (none, os.close listener s)

  -- The calls of a server object, whose connections their owners keep.
  pub data ServerCall : Type 0 where
    accept_for : ℤ → ServerCall
    close_server : ServerCall

  pub record Life : Type 0 where
    pub listener : Option ℕ
    pub accepted : List ℕ
    pub state : State

  abbrev pub accepting : Life → Attempt (Option ℕ) × State → Life
  accepting w (returned (some h), t) = record w { accepted = h ∷ w.accepted; state = t }
  accepting w (returned none, t) = record w { state = t }
  accepting w (threw e, t) = record w { state = t }

  abbrev pub closing : Life → Option ℕ × State → Life
  closing w (h, t) = record w { listener = h; state = t }

  unfoldable pub step : Life → ServerCall → Life
  step w (accept_for timeout) = accepting w (accept_one_for w.listener timeout w.state)
  step w close_server = closing w (close w.listener w.state)

  unfoldable pub run : Life → List ServerCall → Life
  run w [] = w
  run w (c ∷ cs) = run (step w c) cs
