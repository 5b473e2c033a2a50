-- ===== src/Cli/Commands.antt =====
-- src/main.cpp: what the commands log, print and end with.
pub mod Exits
pub mod Logged
mod Tests
use beam_drop.Prelude.{
  ℕ, zero, suc, ◌+◌, Option, none, some, List, [], ◌∷◌, ◌++◌, Bytes, if◌then◌else◌, same_bytes,
}
use beam_drop.Errors.{Result, ok, err}
use beam_drop.Text.{codes, decimal}
use beam_drop.Logger
use beam_drop.Logger.{LogFile}
use beam_drop.Transfer.Progress.{
  ProgressDirection, send, receive, ProgressEvent, Stage, task_started, transferring,
  file_completed, task_completed,
}
use beam_drop.App.Request.{SendRequest}
use beam_drop.App.ReceiveServer.{ReceiveServerState, stopped, starting, running, stopping, failed}
use beam_drop.Cli.{
  ServeOptions, serve_defaults, parse_serve_options, send_request, ConfigRun, written, shown,
  run_config,
}

abbrev Files : Type 0
Files = Bytes → Option Bytes

-- The result of a call, or the text of its exception.
pub data Ended (A : Type 0) : Type 0 where
  returned : A → Ended A
  thrown : Bytes → Ended A

-- The two output streams, the log file of the command, and the file that a configuration was written
-- to, with its text.
pub record Console : Type 0 where
  pub output : Bytes
  pub errors : Bytes
  pub log : LogFile
  pub saved : Option (Bytes × Bytes)

abbrev pub Run : Type 0 → Type 0
Run A = Console → Ended A × Console

abbrev pub follow : {A B : Type 0} → Ended A × Console → (A → Run B) → Ended B × Console
follow (returned a, s) rest = rest a s
follow (thrown message, s) rest = (thrown message, s)

infixl 5 ◌>>=◌ ◌>>◌
abbrev ◌>>=◌ : {A B : Type 0} → Run A → (A → Run B) → Run B
◌>>=◌ m rest s = follow (m s) rest

abbrev ◌>>◌ : {B : Type 0} → Run (Unit {0}) → Run B → Run B
m >> rest = m >>= λ _. rest

abbrev pub give : {A : Type 0} → Ended A → Run A
give e s = (e, s)

abbrev pub print : Bytes → Run (Unit {0})
print text s = (returned tt, record s { output = s.output ++ text })

abbrev pub logged : Option Bytes × LogFile → Run (Unit {0})
logged (none, f) s = (returned tt, record s { log = f })
logged (some fault, f) s = (thrown fault, record s { log = f })

abbrev pub log_info : Bytes → Run (Unit {0})
log_info message s = logged (Logger.info message s.log) s

abbrev pub log_error : Bytes → Run (Unit {0})
log_error message s = logged (Logger.error message s.log) s

-- `catch (const std::exception &error) { logger.error(…); throw; }`
abbrev pub rethrow : {A : Type 0} → Bytes → Ended A × Console → Ended A × Console
rethrow prefix (returned a, s) = (returned a, s)
rethrow prefix (thrown message, s) =
    follow (log_error (prefix ++ message) s) λ u s. (thrown message, s)

abbrev pub verb : ProgressDirection → Bytes
verb send = codes "send"
verb receive = codes "receive"

abbrev pub done_text : Stage → Bytes
done_text task_completed = codes " done"
done_text _ = []

-- `print_app_progress`, of what `to_app_progress` makes of an event
unfoldable pub progress_text : ProgressEvent → Bytes
progress_text e =
    codes "beamdrop "
    ++ (verb e.direction
        ++ (codes " ["
            ++ (decimal e.file_index
                ++ (b'/'
                    ∷ (decimal e.file_count
                        ++ (codes "] "
                            ++ (e.relative_path
                                ++ (b' '
                                    ∷ (decimal e.current_file_bytes
                                        ++ (b'/'
                                            ∷ (decimal e.current_file_total_bytes
                                                ++ (codes " bytes"
                                                    ++ (done_text e.stage ++ b'\n' ∷ [])))))))))))))

abbrev pub progress_texts : List ProgressEvent → Bytes
progress_texts [] = []
progress_texts (e ∷ events) = progress_text e ++ progress_texts events

abbrev pub more_paths : List Bytes → Bytes
more_paths [] = []
more_paths (path ∷ paths) = codes ", " ++ (path ++ more_paths paths)

-- `paths_text`
unfoldable pub paths_text : List Bytes → Bytes
paths_text [] = []
paths_text (path ∷ paths) = path ++ more_paths paths

-- `print_usage`; the name in Chinese is in UTF-8.
abbrev pub usage_text : Bytes
usage_text =
    codes "BeamDrop / "
    ++ (233 ∷ 130 ∷ 187 ∷ 229 ∷ 133 ∷ 137 ∷ codes "\n\nUsage:\n"
        ++ (codes
              "  beamdrop serve [--config config/beamdrop.example.json] [--host 0.0.0.0] [--port 9090] [--save-dir ./received] [--log-file ./logs/beamdrop.log]\n"
            ++ (codes
                  "  beamdrop send <path...> --to <host:port> [--config config/beamdrop.example.json] [--chunk-size 1048576] [--log-file ./logs/beamdrop.log]\n"
                ++ codes "  beamdrop config init|show\n\n")))

-- The services that the commands call: what `SendService::send` reports on the way, and the number of
-- files or the message of its error; what `start` answers; and the status at each look at it. `what`
-- is the text of the exception that the options of these arguments throw.
pub record Services : Type 0 where
  pub sending : SendRequest → List ProgressEvent × Ended ℕ
  pub starting_up : ServeOptions → Ended (Unit {0})
  pub status : ℕ → ReceiveServerState × Option Bytes
  pub what : List Bytes → Bytes

module _ (services : Services) (files : Files) where
  abbrev pub parsed : {A : Type 0} → List Bytes → Result A → Run A
  parsed args (ok a) s = (returned a, s)
  parsed args (err e) s = (thrown (services.what args), s)

  -- The `try` block of `run_send`
  unfoldable pub try_send : SendRequest → Run ℕ
  try_send request = do
    print (progress_texts (services.sending request).0)
    file_count ← give (services.sending request).1
    print (
        codes "beamdrop send sent "
        ++ (decimal file_count
            ++ (codes " file(s) to "
                ++ (request.host ++ (b':' ∷ (decimal request.port ++ b'\n' ∷ []))))))
    log_info (codes "send completed file_count=" ++ decimal file_count)
    give (returned 0)

  abbrev pub send_starting : SendRequest → Bytes
  send_starting request =
      codes "send starting endpoint="
      ++ (request.host
          ++ (b':' ∷ (decimal request.port ++ (codes " paths=" ++ paths_text request.paths))))

  -- `run_send`, of the arguments behind the command
  unfoldable pub run_send : List Bytes → Run ℕ
  run_send args = do
    request ← parsed args (send_request files args)
    log_info (send_starting request)
    λ s. rethrow (codes "send failed: ") (try_send request s)

  abbrev pub message_or : Bytes → Option Bytes → Bytes
  message_or other none = other
  message_or other (some message) = message

  -- The loop of `run_serve`, from the k-th look at the status on; it goes on while the server runs.
  abbrev pub at_status : ReceiveServerState × Option Bytes → Option (Ended ℕ) → Option (Ended ℕ)
  at_status (failed, last_error) later =
      some (thrown (message_or (codes "receive server failed") last_error))
  at_status (stopped, last_error) later =
      some (thrown (codes "receive server stopped unexpectedly"))
  at_status _ later = later

  unfoldable pub watch : ℕ → ℕ → Option (Ended ℕ)
  watch zero k = none
  watch (suc turns) k = let later = watch turns (suc k) in at_status (services.status k) later

  abbrev pub serve_listening : ServeOptions → Bytes
  serve_listening o =
      codes "beamdrop serve listening on "
      ++ (o.host
          ++ (b':'
              ∷ (decimal o.port
                  ++ (codes ", save-dir=" ++ (o.save_dir ++ codes " (press Ctrl+C to stop)\n")))))

  abbrev pub serve_starting : ServeOptions → Bytes
  serve_starting o =
      codes "serve starting host="
      ++ (o.host ++ (codes " port=" ++ (decimal o.port ++ (codes " save_dir=" ++ o.save_dir))))

  -- Behind the loop, and the whole `try` block with its `catch` clause; `none` is a server that still
  -- runs after these turns.
  abbrev pub watched : Option (Ended ℕ) → Console → Option (Ended ℕ × Console)
  watched none s = none
  watched (some ended) s = some (rethrow (codes "serve failed: ") (ended, s))

  abbrev pub serving : ℕ → ServeOptions → Ended (Unit {0}) × Console → Option (Ended ℕ × Console)
  serving turns o (returned u, s) =
      watched (watch turns 0) (record s { output = s.output ++ serve_listening o })
  serving turns o (thrown message, s) = some (rethrow (codes "serve failed: ") (thrown message, s))

  abbrev pub serve_logged : ℕ → Ended ServeOptions × Console → Option (Ended ℕ × Console)
  serve_logged turns (thrown message, s) = some (thrown message, s)
  serve_logged turns (returned o, s) = serving turns o (services.starting_up o, s)

  -- `run_serve`
  unfoldable pub run_serve : ℕ → List Bytes → Console → Option (Ended ℕ × Console)
  run_serve turns args s = serve_logged turns (
      follow (parsed args (parse_serve_options files args serve_defaults) s)
        λ o s. follow (log_info (serve_starting o) s) λ u s. (returned o, s))

  -- `run_config`, on the console
  abbrev pub config_done : ConfigRun → Run ℕ
  config_done (written path text) s = (
    returned 0,
    record s {
      saved = some (path, text);
      output = s.output ++ (codes "beamdrop config initialized " ++ (path ++ b'\n' ∷ []));
    },
  )
  config_done (shown text) s = (returned 0, record s { output = s.output ++ text })

  unfoldable pub config_command : List Bytes → Run ℕ
  config_command args = do run ← parsed args (run_config files args); config_done run

  -- The `catch` clause of `main`
  abbrev pub exit_code : Ended ℕ × Console → ℕ × Console
  exit_code (returned code, s) = (code, s)
  exit_code (thrown message, s) =
      (1, record s { errors = s.errors ++ (codes "beamdrop error: " ++ (message ++ b'\n' ∷ [])) })

  abbrev pub exit_serve : Option (Ended ℕ × Console) → Option (ℕ × Console)
  exit_serve none = none
  exit_serve (some ended) = some (exit_code ended)

  -- `main`, of the arguments behind the program's name: the exit code, or none where the server still
  -- runs after these turns of its loop.
  unfoldable pub main : ℕ → List Bytes → Console → Option (ℕ × Console)
  main turns [] s = some (0, record s { output = s.output ++ usage_text })
  main turns (command ∷ args) s =
      if same_bytes command (codes "serve")
      then exit_serve (run_serve turns args s)
      else if same_bytes command (codes "send")
      then some (exit_code (run_send args s))
      else if same_bytes command (codes "config")
      then some (exit_code (config_command args s))
      else some (1, record s { output = s.output ++ usage_text })
