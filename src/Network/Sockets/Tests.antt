-- ===== src/Network/Sockets/Tests.antt =====
-- A server and a client on a small system.
use beam_drop.Prelude.{
  ℕ, suc, ◌≡◌, refl, sym, ap, Bool, true, false, not, ◌&&◌, ◌||◌, Option, none, some, List, [], ◌∷◌,
  Bytes, ◌==◌, ◌+◌, ◌-◌, arith,
}
use beam_drop.Text.{codes}
use beam_drop.Network.Sockets.{
  Attempt, returned, threw, ℤ, pos, negsuc, Ready, arrived, Sockets, Same, Plus, Gains, c_str,
}
use beam_drop.Network.Sockets.Opened.{Owns}
use beam_drop.Network.Sockets.Server.{open_server, ServerCall, accept_for, close_server, Life, run}
use beam_drop.Network.Sockets.Server.Lifetime.{Held, run-Held, open_server-Owns}
use beam_drop.Network.Sockets.Client.{connect}
use beam_drop.Network.Sockets.Client.Choice.{Connects, connect_lem}

-- The open handles, the handle that is tried next, and the lists given out. An address is a number,
-- and only 0 takes connections.
record Table : Type 0 where
  open_now : ℕ → Bool
  next : ℕ
  lists : ℕ

abbrev take_next : Bool → Table → Option ℕ × Table
take_next true s = (none, s)
take_next false s =
    (some s.next, record s { open_now = λ k. k == s.next || s.open_now k; next = s.next + 1 })

abbrev is_open : Table → ℕ → Bool
is_open s k = s.open_now k

abbrev unfreed : Table → ℕ
unfreed s = s.lists

take_next-Gains :
    (b : Bool) (s : Table) → s.open_now s.next ≡ b → Gains is_open unfreed s (take_next b s)
take_next-Gains true s e = record { open_same = λ k. refl; unfreed_same = refl }
take_next-Gains false s e = record { fresh = e; open_plus = λ k. refl; unfreed_plus = refl }

abbrev same : (s : Table) → Same is_open unfreed s s
same s = record { open_same = λ k. refl; unfreed_same = refl }

abbrev resolve : Table → Option (List ℕ) × Table
resolve s = (some (1 ∷ 0 ∷ 0 ∷ []), record s { lists = suc s.lists })

resolve-none : (s t : Table) → resolve s ≡ (none, t) → t.lists ≡ s.lists
resolve-none s t e = absurd (cc (ap (λ (r : Option (List ℕ) × Table). r.0) e))

abbrev table : Sockets
table = record {
  State = Table;
  Kind = Unit {0};
  Address = ℕ;
  Ip = Bytes;
  is_open = is_open;
  unfreed = unfreed;
  tcp_v4 = tt;
  kind_of = λ a. tt;
  inet_pton = λ host. some host;
  errno = λ s. 111;
  socket = λ kind s. take_next (s.open_now s.next) s;
  reuse_address = λ h s. (true, s);
  bind = λ h ip port s. (port == 80, s);
  listen = λ h n s. (true, s);
  select = λ h sec usec s. (arrived, s);
  accept = λ h s. take_next (s.open_now s.next) s;
  connect = λ h a s. (a == 0, s);
  close = λ h s. record s { open_now = λ k. not (k == h) && s.open_now k };
  getaddrinfo = λ host port kind s. resolve s;
  freeaddrinfo = λ s. record s { lists = s.lists - 1 };
  socket_gains = λ kind s. take_next-Gains (s.open_now s.next) s refl;
  accept_gains = λ h s. take_next-Gains (s.open_now s.next) s refl;
  reuse_same = λ h s. same s;
  bind_same = λ h ip port s. same s;
  listen_same = λ h n s. same s;
  select_same = λ h sec usec s. same s;
  connect_same = λ h a s. same s;
  close_open = λ h s k. refl;
  close_unfreed = λ h s. refl;
  resolve_open = λ host port kind s k. refl;
  resolve_some =
      λ host port kind s list t e. ap (λ (r : Option (List ℕ) × Table). r.1.lists) (sym e);
  resolve_none = λ host port kind s t e. resolve-none s t e;
  free_open = λ s k. refl;
  free_unfreed = λ s n e. omega arith;
}

-- The handles 0 to 2 are open.
abbrev start : Table
start = record { open_now = λ k. k == 0 || (k == 1 || k == 2); next = 3; lists = 0 }

abbrev localhost : Bytes
localhost = codes "localhost"

abbrev listening : Attempt ℕ × Table
listening = open_server table localhost 80 start

listening_ok : listening.0 ≡ returned 3
unfolding open_server beam_drop.Network.Sockets.Server.bind_and_listen c_str
listening_ok = refl

abbrev calls : List (ServerCall table)
calls = accept_for (pos 1500) ∷ accept_for (negsuc 0) ∷ close_server ∷ accept_for (pos 0) ∷ []

-- The third call closes the server; the connection 4 stays open.
open_after :
    is_open
      (run table (record { listener = some 3; accepted = []; state = listening.1 }) calls).state
      3
    ≡ false
unfolding open_server beam_drop.Network.Sockets.Server.bind_and_listen
    beam_drop.Network.Sockets.Server.accept_one_for beam_drop.Network.Sockets.Server.accept_one
    beam_drop.Network.Sockets.Server.close beam_drop.Network.Sockets.Server.step run c_str
open_after = refl

run-Held_example :
    Held table start
      (run table (record { listener = some 3; accepted = []; state = listening.1 }) calls)
run-Held_example =
    run-Held table localhost 80 3 start listening.1 calls (ap (λ r. (r, listening.1)) listening_ok)

-- The port is one that `bind` refuses.
open_server-Owns_example : Owns table start (open_server table localhost 22 start)
open_server-Owns_example = open_server-Owns table localhost 22 start

connect_lem_example :
    Owns table start (connect table localhost 80 start)
    × Connects table localhost 80 start (connect table localhost 80 start)
connect_lem_example = connect_lem table localhost 80 start

-- The first address refuses, and its handle 3 is closed; the second one takes the connection.
connect_second : (connect table localhost 80 start).0 ≡ returned 4
unfolding connect beam_drop.Network.Sockets.Client.first_connected
    beam_drop.Network.Sockets.Client.try_address
connect_second = refl
