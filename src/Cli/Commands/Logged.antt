-- ===== src/Cli/Commands/Logged.antt =====
-- What a send command leaves in the log and on the output.
use beam_drop.Prelude.{ℕ, ◌+◌, ◌≡◌, refl, true, none, List, ◌++◌, append_assoc, Bytes}
use beam_drop.Errors.{ok}
use beam_drop.Text.{codes, decimal}
use beam_drop.Logger
use beam_drop.Logger.{LogFile, line}
use beam_drop.App.Request.{SendRequest}
use beam_drop.Cli.{send_request}
use beam_drop.Cli.Commands.{
  Files, Ended, returned, thrown, Console, rethrow, Services, try_send, send_starting, run_send,
}

-- A log file that can always be opened takes the line.
write-opens :
    (level message : Bytes) (f : LogFile)
    → f.can_open f.calls ≡ true
    → Logger.write level message f ≡ (
      none,
      record f { content = f.content ++ line (f.stamp f.calls) level message; calls = f.calls + 1 },
    )
unfolding Logger.write
write-opens level message f opens = rw (opens, Logger.write) refl

module _ (services : Services) (files : Files) where
  -- The lines of a send: its start, and the number of files or the error.
  abbrev start_line : SendRequest → Console → Bytes
  start_line request s =
      line (s.log.stamp s.log.calls) (codes "INFO") (send_starting services files request)

  abbrev pub SendEnds : SendRequest → Console → Ended ℕ → Ended ℕ × Console → Type 0
  SendEnds request s (returned count) (r, t) =
      (r ≡ returned 0)
      × (t.log.content
          ≡ s.log.content
            ++ (start_line request s
                ++ line (s.log.stamp (s.log.calls + 1)) (codes "INFO")
                    (codes "send completed file_count=" ++ decimal count)))
  SendEnds request s (thrown message) (r, t) =
      (r ≡ thrown message)
      × (t.log.content
          ≡ s.log.content
            ++ (start_line request s
                ++ line (s.log.stamp (s.log.calls + 1)) (codes "ERROR")
                    (codes "send failed: " ++ message)))

  -- The log behind the first line.
  abbrev begun : SendRequest → Console → LogFile
  begun request s = record s.log {
    content = s.log.content ++ start_line request s;
    calls = s.log.calls + 1;
  }

  try_send-SendEnds :
      (request : SendRequest) (r : Ended ℕ) (s : Console)
      → (services.sending request).1 ≡ r
      → s.log.can_open (s.log.calls + 1) ≡ true
      → SendEnds request s r (
          rethrow
            (codes "send failed: ")
            (try_send services files request (record s { log = begun request s })))
  unfolding try_send
  try_send-SendEnds request (returned count) s e opens =
      rw
        (
          e,
          write-opens (codes "INFO") (codes "send completed file_count=" ++ decimal count)
              (begun request s) opens,
        )
        (refl, append_assoc s.log.content _ _)
  try_send-SendEnds request (thrown message) s e opens =
      rw (e, write-opens (codes "ERROR") (codes "send failed: " ++ message) (begun request s) opens)
        (refl, append_assoc s.log.content _ _)

  -- Where the log can be opened, a send command whose options make a request logs two lines, whatever
  -- the service does: its start, and then the number of files, and it gives 0, or the message of the
  -- service's error, which it throws.
  pub run_send-SendEnds :
      (args : List Bytes) (request : SendRequest) (s : Console)
      → send_request files args ≡ ok request
      → ((k : ℕ) → s.log.can_open k ≡ true)
      → SendEnds request s (services.sending request).1 (run_send services files args s)
  unfolding run_send
  run_send-SendEnds args request s options opens =
      rw
        (
          options,
          write-opens (codes "INFO") (send_starting services files request) s.log
              (opens s.log.calls),
        )
        (try_send-SendEnds request (services.sending request).1 s refl (opens (s.log.calls + 1)))
