-- ===== src/App/ReceiveServer/Tests.antt =====
-- A server that is started, serves one connection and is stopped.
use beam_drop.Prelude.{◌≡◌, refl, List, [], ◌∷◌, arith}
use beam_drop.Text.{codes}
use beam_drop.App.{network_failure}
use beam_drop.App.ReceiveServer.{
  Request, Event, Step, call_start, call_stop, work, listening, timed_out, connected, accept_failed,
  received, failed_with, quiet, initial, run, step, start, stop, open_server, is_invalid,
  receive_loop,
}
use beam_drop.App.ReceiveServer.Invariant.{IsValid, run-IsValid}
use beam_drop.App.ReceiveServer.Stopping.{stops}

abbrev request : Request
request = record { port = 9000; save_dir = codes "in"; state_file = codes "s.json" }

abbrev connects : Event
connects = record { accept = connected; receive = received }

abbrev waits : Event
waits = record { accept = timed_out; receive = received }

abbrev one_connection : List Step
one_connection = call_start request listening ∷ work connects ∷ work connects ∷ call_stop ∷ []

run-IsValid_example : IsValid (run initial one_connection)
run-IsValid_example = run-IsValid one_connection

stops_example :
    (run
      (run initial one_connection)
      (work waits ∷ work waits ∷ work waits ∷ work waits ∷ [])).status
    ≡ quiet
stops_example =
    stops one_connection waits waits waits waits
      (unfold run step start stop open_server is_invalid receive_loop in refl)
      (unfold run step start stop open_server is_invalid receive_loop in ground arith)
      (unfold run step start stop open_server is_invalid receive_loop in ground arith)
      (ground arith, ground arith) (ground arith, ground arith) (ground arith, ground arith)

abbrev loses_network : Event
loses_network = record { accept = accept_failed; receive = received }

-- A stop that is asked for behind the look at the stop token in the handler of a network error is
-- missed: the server ends as failed.
abbrev missed_stop : List Step
missed_stop =
    call_start request listening
    ∷ work loses_network
    ∷ work loses_network
    ∷ work loses_network
    ∷ call_stop
    ∷ work loses_network
    ∷ []

missed : (run initial missed_stop).status ≡ failed_with network_failure
missed = unfold run step start stop open_server is_invalid receive_loop in refl
