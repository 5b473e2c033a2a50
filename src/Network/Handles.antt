-- ===== src/Network/Handles.antt =====
-- Who owns the socket handle, and who closes it: the constructor, move, `shutdown`, `close` and the
-- destructor of `TcpConnection`. Each of these exchanges the handle for -1 atomically, so that any run
-- of several threads is a sequence of these steps; a move into an object that has a handle exchanges
-- twice, and no other thread uses the two objects meanwhile.
pub mod Ownership
use beam_drop.Prelude.{ℕ, ◌+◌, Option, none, some, List, [], ◌∷◌, ◌==◌, if◌then◌else◌}

-- The handles of the connections that a program holds, and the handles closed so far; a slot is
-- `none` where `handle_` is -1. `fresh` is the next handle that the system gives out.
pub record World : Type 0 where
  pub slot : ℕ → Option ℕ
  pub closed : List ℕ
  pub fresh : ℕ

-- The calls, on the connection objects by number.
pub data Call : Type 0 where
  open_socket shutdown close destroy : ℕ → Call
  move : ℕ → ℕ → Call

abbrev pub put : (ℕ → Option ℕ) → ℕ → Option ℕ → ℕ → Option ℕ
put slots i h j = if j == i then h else slots j

-- `const auto handle = handle_.exchange(-1); if (handle == -1) return; close_socket(handle);`
unfoldable pub release : ℕ → World → World
release i w = elim (w.slot i) [
  | none ↦ w
  | some h ↦ record w { slot = put w.slot i none; closed = h ∷ w.closed }
]

-- `TcpConnection{handle}` stores the handle that `socket` or `accept` gave.
unfoldable pub step : World → Call → World
unfolding release
step w (open_socket i) =
    let w' = release i w in record w' { slot = put w'.slot i (some w'.fresh); fresh = w'.fresh + 1 }
step w (shutdown i) = release i w
step w (close i) = release i w
step w (destroy i) = release i w
-- `operator=(TcpConnection&&)`: `close()`, then `other.handle_.exchange(-1)`.
step w (move i j) =
    if i == j
    then w
    else let w' = release i w in record w' { slot = put (put w'.slot j none) i (w'.slot j) }

unfoldable pub run : World → List Call → World
unfolding step
run w [] = w
run w (c ∷ cs) = run (step w c) cs

-- How often a handle has been closed.
abbrev pub closed_times : ℕ → List ℕ → ℕ
closed_times h [] = 0
closed_times h (x ∷ xs) = (if h == x then 1 else 0) + closed_times h xs
