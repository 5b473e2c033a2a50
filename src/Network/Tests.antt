-- ===== src/Network/Tests.antt =====
-- Reading and writing through a system that moves one byte for each call.
use beam_drop.Prelude.{ℕ, ◌≤◌, ◌≡◌, refl, List, [], ◌∷◌}
use beam_drop.Network.Handles.{
  Call, open_socket, shutdown, close, destroy, move, step, run, release, closed_times,
}
use beam_drop.Network.Handles.Ownership.{no_handles, run-closed_times}
use beam_drop.Network.Pipe.{Pipe, pipe}
use beam_drop.Network.Stream.{read_exact, write_all}
use beam_drop.Network.Stream.Reading.{Reads, read_exact_lem}
use beam_drop.Network.Stream.Writing.{Writes, write_all_lem}
use beam_drop.Prelude.{some}

abbrev three_in : Pipe
three_in = record { inbox = 7 ∷ 8 ∷ 9 ∷ []; outbox = [] }

read_exact_lem_example : Reads pipe 2 three_in (read_exact pipe (some 5) 2 three_in)
read_exact_lem_example = read_exact_lem pipe 5 2 three_in

write_all_lem_example :
    Writes pipe (1 ∷ 2 ∷ 3 ∷ []) three_in (write_all pipe (some 5) (1 ∷ 2 ∷ 3 ∷ []) three_in)
write_all_lem_example = write_all_lem pipe 5 (1 ∷ 2 ∷ 3 ∷ []) three_in

-- A connection is made, moved, shut down, closed, and both objects are destroyed.
abbrev calls : List Call
calls = open_socket 0 ∷ move 1 0 ∷ shutdown 1 ∷ close 1 ∷ open_socket 0 ∷ destroy 0 ∷ destroy 1 ∷ []

run-closed_times_example :
    (closed_times 0 (run no_handles calls).closed ≤ 1)
    × ((i : ℕ)
        → (run no_handles calls).slot i ≡ some 0
        → closed_times 0 (run no_handles calls).closed ≡ 0)
run-closed_times_example = run-closed_times calls 0

both_closed : (run no_handles calls).closed ≡ 1 ∷ 0 ∷ []
unfolding run step release
both_closed = refl
