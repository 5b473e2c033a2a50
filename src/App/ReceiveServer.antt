-- ===== src/App/ReceiveServer.antt =====
-- src/app/ReceiveServerService.cpp: the server that runs `ReceiveService` on a worker thread.
-- Each call, each look at the stop token, each call that waits and each change of the status, which
-- is made under the mutex, is a step; any interleaving of the threads is a list of steps.
pub mod Invariant
pub mod Stopping
mod Tests
use beam_drop.Prelude.{
  is_nil, ℕ, Bool, true, false, not, ◌||◌, Option, none, some, List, [], ◌∷◌, ◌==◌, if◌then◌else◌,
  Bytes,
}
use beam_drop.App.{
  ErrorCode, invalid_request, already_running, not_running, bind_failed, network_failure,
  internal_error,
}

pub data ReceiveServerState : Type 0 where
  stopped starting running stopping failed : ReceiveServerState

pub record Status : Type 0 where
  pub state : ReceiveServerState
  pub last_error : Option ErrorCode

-- Where the worker thread stands: not running; about to test the stop token; in
-- `accept_one_for`; in `ReceiveService::receive`; behind the loop; in the handler of a network error,
-- and there behind a stop token that was set, or was not; in the handler of other exceptions.
pub data Worker : Type 0 where
  idle testing accepting receiving leaving caught_network ending_network failing caught_other :
      Worker

-- `ReceiveServerService::State`, with `server` as whether the pointer is set, and the stop token.
pub record Server : Type 0 where
  pub status : Status
  pub server : Bool
  pub worker : Worker
  pub stop_requested : Bool

abbrev pub initial : Server
initial = record {
  status = record { state = stopped; last_error = none };
  server = false;
  worker = idle;
  stop_requested = false;
}

pub record Request : Type 0 where
  pub port : ℕ
  pub save_dir : Bytes
  pub state_file : Bytes

-- What the constructor of `TcpServer` does.
pub data Opened : Type 0 where
  listening refused broken : Opened

pub data Reply : Type 0 where
  success : Status → Reply
  failure : ErrorCode → Reply

-- `validate_request`
unfoldable pub is_invalid : Request → Bool
is_invalid r = r.port == 0 || is_nil r.save_dir || is_nil r.state_file

-- The status that `start` and the worker leave behind an error.
abbrev pub failed_with : ErrorCode → Status
failed_with code = record { state = failed; last_error = some code }

-- `start` behind its tests: `Starting` is left again before the mutex is.
unfoldable pub open_server : Server → Opened → Reply × Server
open_server s listening =
    let status : Status = record { state = running; last_error = none } in
    (
      success status,
      record { status = status; server = true; worker = testing; stop_requested = false },
    )
open_server s refused = (failure bind_failed, record s { status = failed_with bind_failed })
open_server s broken = (failure internal_error, record s { status = failed_with internal_error })

abbrev start_from : ReceiveServerState → Server → Opened → Reply × Server
start_from stopped s o = open_server s o
start_from _ s o = (failure already_running, s)

-- `ReceiveServerService::start`
unfoldable pub start : Server → Request → Opened → Reply × Server
start s r o = if is_invalid r then (failure invalid_request, s) else start_from (s.status.state) s o

abbrev pub with_state : Server → ReceiveServerState → Status
with_state s state = record { state = state; last_error = s.status.last_error }

abbrev stop_from : ReceiveServerState → Server → Reply × Server
stop_from stopped s = (failure not_running, s)
stop_from stopping s = (success s.status, s)
stop_from failed s =
    (success (with_state s stopped), record s { server = false; status = with_state s stopped })
stop_from _ s = (
  success (with_state s stopping),
  record s { status = with_state s stopping; stop_requested = true },
)

-- `ReceiveServerService::stop`
unfoldable pub stop : Server → Reply × Server
stop s = stop_from (s.status.state) s

-- What `accept_one_for` brings: nothing in its 100 ms, a connection, a `NetworkError` or another
-- exception.
pub data Accepted : Type 0 where
  timed_out connected accept_failed accept_broke : Accepted

-- What `ReceiveService::receive` brings: a result, or an exception.
pub data Received : Type 0 where
  received receive_broke : Received
  receive_failed : ErrorCode → Received

-- What the two calls of the worker's loop bring where it makes them.
pub record Event : Type 0 where
  pub accept : Accepted
  pub receive : Received

-- The worker has taken the server down and ends.
abbrev pub ended : Server → Status → Server
ended s status = record s { server = false; status = status; worker = idle }

abbrev pub quiet : Status
quiet = record { state = stopped; last_error = none }

abbrev at_accept : Accepted → Server → Server
at_accept timed_out s = record s { worker = testing }
at_accept connected s = record s { worker = receiving }
at_accept accept_failed s = record s { worker = caught_network }
at_accept accept_broke s = record s { worker = caught_other }

abbrev at_receive : Received → Server → Server
at_receive received s = record s { worker = testing }
at_receive (receive_failed code) s = record s {
  worker = testing;
  status = record (s.status) { last_error = some code };
}
at_receive receive_broke s = record s { worker = caught_other }

abbrev loop_from : Worker → Server → Event → Server
loop_from idle s e = s
loop_from testing s e = record s { worker = if s.stop_requested then leaving else accepting }
loop_from accepting s e = at_accept e.accept s
loop_from receiving s e = at_receive e.receive s
loop_from leaving s e = ended s quiet
loop_from caught_network s e = record s {
  worker = if s.stop_requested then ending_network else failing;
}
loop_from ending_network s e = ended s quiet
loop_from failing s e = ended s (failed_with network_failure)
loop_from caught_other s e = ended s (failed_with internal_error)

-- One stretch of `receive_loop`.
unfoldable pub receive_loop : Server → Event → Server
receive_loop s e = loop_from s.worker s e

-- A step of a caller or of the worker.
pub data Step : Type 0 where
  call_start : Request → Opened → Step
  call_stop : Step
  work : Event → Step

unfoldable pub step : Server → Step → Server
step s (call_start r o) = (start s r o).1
step s call_stop = (stop s).1
step s (work e) = receive_loop s e

unfoldable pub run : Server → List Step → Server
run s [] = s
run s (x ∷ xs) = run (step s x) xs
