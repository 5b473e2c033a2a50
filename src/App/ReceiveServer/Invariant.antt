-- ===== src/App/ReceiveServer/Invariant.antt =====
-- In every reachable state of the server, the status, the socket and the worker fit together.
use beam_drop.Prelude.{◌≡◌, refl, Bool, true, false, not, ◌&&◌, Option, List, [], ◌∷◌, arith}
use beam_drop.App.{ErrorCode}
use beam_drop.App.ReceiveServer.{
  ReceiveServerState, stopped, starting, running, stopping, failed, Worker, idle, leaving,
  ending_network, Server, initial, Request, Opened, listening, refused, broken, open_server, start,
  stop, Event, receive_loop, Step, call_start, call_stop, work, step, run,
}

abbrev is_idle : Worker → Bool
is_idle idle = true
is_idle _ = false

abbrev is_leaving : Worker → Bool
is_leaving leaving = true
is_leaving ending_network = true
is_leaving _ = false

-- The state fits the socket, the worker and the stop token: a stopped or failed server has no
-- socket and no worker, a running or stopping one has both, a stop is requested in `Stopping`
-- only, and nobody sees `Starting`.
abbrev pub fits : ReceiveServerState → Bool → Worker → Bool → Bool
fits stopped server w stop = not server && is_idle w
fits failed server w stop = not server && is_idle w
fits running server w stop = server && not (is_idle w) && not stop && not (is_leaving w)
fits stopping server w stop = server && not (is_idle w) && stop
fits starting server w stop = false

unfoldable pub IsValid : Server → Type 0
IsValid s = fits s.status.state s.server s.worker s.stop_requested ≡ true

module _ (error : Option ErrorCode) where
  abbrev pub made : ReceiveServerState → Bool → Worker → Bool → Server
  made state server w stop = record {
    status = record { state = state; last_error = error };
    server = server;
    worker = w;
    stop_requested = stop;
  }

  start-made :
      (state : ReceiveServerState) (server : Bool) (w : Worker) (wants_stop : Bool) (r : Request)
      (o : Opened)
      → fits state server w wants_stop ≡ true
      → IsValid (start (made state server w wants_stop) r o).1
  unfolding start IsValid open_server
  start-made stopped server w wants_stop r listening h = ground arith
  start-made stopped server w wants_stop r refused h = ground arith
  start-made stopped server w wants_stop r broken h = ground arith
  start-made starting server w wants_stop r o h = ground arith
  start-made running server w wants_stop r o h = ground arith
  start-made stopping server w wants_stop r o h = ground arith
  start-made failed server w wants_stop r o h = ground arith

  stop-made :
      (state : ReceiveServerState) (server : Bool) (w : Worker) (wants_stop : Bool)
      → fits state server w wants_stop ≡ true
      → IsValid (stop (made state server w wants_stop)).1
  unfolding stop IsValid
  stop-made stopped server w wants_stop h = ground arith
  stop-made starting server w wants_stop h = ground arith
  stop-made running server w wants_stop h = ground arith
  stop-made stopping server w wants_stop h = ground arith
  stop-made failed server w wants_stop h = ground arith

  loop_made :
      (state : ReceiveServerState) (server : Bool) (w : Worker) (wants_stop : Bool) (e : Event)
      → fits state server w wants_stop ≡ true
      → IsValid (receive_loop (made state server w wants_stop) e)
  unfolding receive_loop IsValid
  loop_made stopped server w wants_stop e h = ground arith
  loop_made starting server w wants_stop e h = ground arith
  loop_made running server w wants_stop e h = ground arith
  loop_made stopping server w wants_stop e h = ground arith
  loop_made failed server w wants_stop e h = ground arith

-- Every step of a caller or of the worker keeps the invariant.
step-IsValid : (s : Server) (x : Step) → IsValid s → IsValid (step s x)
unfolding step IsValid
step-IsValid s (call_start r o) h =
    start-made s.status.last_error s.status.state s.server s.worker s.stop_requested r o h
step-IsValid s call_stop h =
    stop-made s.status.last_error s.status.state s.server s.worker s.stop_requested h
step-IsValid s (work e) h =
    loop_made s.status.last_error s.status.state s.server s.worker s.stop_requested e h

run_from : (s : Server) (xs : List Step) → IsValid s → IsValid (run s xs)
unfolding run
run_from s [] h = h
run_from s (x ∷ xs) h = run_from (step s x) xs (step-IsValid s x h)

-- After any sequence of calls of `start` and `stop` and of steps of the worker, in any order, the
-- state fits the socket, the worker and the stop token.
pub run-IsValid : (xs : List Step) → IsValid (run initial xs)
run-IsValid xs = run_from initial xs (unfold IsValid in refl)
