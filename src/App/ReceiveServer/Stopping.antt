-- ===== src/App/ReceiveServer/Stopping.antt =====
-- A stop that was asked for is carried out, and the server can then be started again.
use beam_drop.Prelude.{◌≡◌, ◌≢◌, Bool, true, false, Option, List, [], ◌∷◌, arith}
use beam_drop.App.{ErrorCode}
use beam_drop.App.ReceiveServer.{
  ReceiveServerState, stopped, stopping, running, starting, failed, Worker, idle, accepting,
  testing, receiving, leaving, caught_network, ending_network, failing, caught_other, Server,
  initial, Event, accept_broke, receive_broke, receive_loop, work, step, Step, run, quiet,
}
use beam_drop.App.ReceiveServer.Invariant.{IsValid, made, fits, run-IsValid}

-- An event that is no exception other than a network error.
abbrev pub IsCalm : Event → Type 0
IsCalm e = (e.accept ≢ accept_broke) × (e.receive ≢ receive_broke)

module _ (error : Option ErrorCode) where
  abbrev asked : Worker → Server
  asked w = record {
    status = record { state = stopping; last_error = error };
    server = true;
    worker = w;
    stop_requested = true;
  }

  stops_from :
      (w : Worker) (a b c d : Event)
      → w ≢ idle
      → w ≢ failing
      → w ≢ caught_other
      → IsCalm a
      → IsCalm b
      → IsCalm c
      → (run (asked w) (work a ∷ work b ∷ work c ∷ work d ∷ [])).status ≡ quiet
  unfolding run step receive_loop
  stops_from idle a b c d not_idle not_failing not_broken ha hb hc = ground arith
  stops_from testing a b c d not_idle not_failing not_broken ha hb hc = ground arith
  stops_from accepting a b c d not_idle not_failing not_broken ha hb hc = ground arith
  stops_from receiving a b c d not_idle not_failing not_broken ha hb hc = ground arith
  stops_from leaving a b c d not_idle not_failing not_broken ha hb hc = ground arith
  stops_from caught_network a b c d not_idle not_failing not_broken ha hb hc = ground arith
  stops_from ending_network a b c d not_idle not_failing not_broken ha hb hc = ground arith
  stops_from failing a b c d not_idle not_failing not_broken ha hb hc = ground arith
  stops_from caught_other a b c d not_idle not_failing not_broken ha hb hc = ground arith

  stops_fitting :
      (state : ReceiveServerState) (server : Bool) (w : Worker) (wants_stop : Bool)
      (a b c d : Event)
      → fits state server w wants_stop ≡ true
      → state ≡ stopping
      → w ≢ failing
      → w ≢ caught_other
      → IsCalm a
      → IsCalm b
      → IsCalm c
      → (run (made error state server w wants_stop) (work a ∷ work b ∷ work c ∷ work d ∷ [])).status
        ≡ quiet
  stops_fitting stopping true w true a b c d h e not_failing not_broken ha hb hc =
      stops_from w a b c d (λ i. ground arith) not_failing not_broken ha hb hc
  stops_fitting stopping true w false a b c d h e not_failing not_broken ha hb hc =
      absurd (ground arith)
  stops_fitting stopping false w wants_stop a b c d h e not_failing not_broken ha hb hc =
      absurd (cc h)
  stops_fitting stopped server w wants_stop a b c d h e not_failing not_broken ha hb hc =
      absurd (cc e)
  stops_fitting starting server w wants_stop a b c d h e not_failing not_broken ha hb hc =
      absurd (cc e)
  stops_fitting running server w wants_stop a b c d h e not_failing not_broken ha hb hc =
      absurd (cc e)
  stops_fitting failed server w wants_stop a b c d h e not_failing not_broken ha hb hc =
      absurd (cc e)

-- Where a stop was asked for, four steps of the worker end it, unless it is in the handler of a
-- network error and has seen there that no stop was asked for, or is in, or comes to, the handler of
-- an exception that is no network error: the server is `Stopped`, without an error.
pub stops :
    (xs : List Step) (a b c d : Event)
    → (run initial xs).status.state ≡ stopping
    → (run initial xs).worker ≢ failing
    → (run initial xs).worker ≢ caught_other
    → IsCalm a
    → IsCalm b
    → IsCalm c
    → (run (run initial xs) (work a ∷ work b ∷ work c ∷ work d ∷ [])).status ≡ quiet
unfolding IsValid
stops xs a b c d is_stopping not_failing not_broken ha hb hc =
    let s = run initial xs in
    stops_fitting s.status.last_error s.status.state s.server s.worker s.stop_requested a b c d
      (run-IsValid xs) is_stopping not_failing not_broken ha hb hc
