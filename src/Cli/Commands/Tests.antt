-- ===== src/Cli/Commands/Tests.antt =====
-- The program on small command lines.
use beam_drop.Prelude.{
  ℕ, if◌then◌else◌, ◌==◌, ◌≡◌, refl, Bool, true, false, Option, none, some, List, [], ◌∷◌, ◌++◌,
  Bytes,
}
use beam_drop.Errors.{ok}
use beam_drop.Text.{codes}
use beam_drop.Transfer.Progress.{send, task_completed}
use beam_drop.App.Request.{SendRequest}
use beam_drop.App.ReceiveServer.{running, failed}
use beam_drop.Cli.{send_request}
use beam_drop.Cli.Commands.{
  Files, returned, thrown, Console, Services, progress_text, run_send, main,
}
use beam_drop.Cli.Commands.Exits.{Exits, main-Exits}
use beam_drop.Cli.Commands.Logged.{SendEnds, run_send-SendEnds}

abbrev no_files : Files
no_files path = none

-- The service fails to connect; the server fails at the third look.
abbrev services : Services
services = record {
  sending = λ request. ([], thrown (codes "connect failed"));
  starting_up = λ o. returned tt;
  status = λ k. if k == 2 then (failed, some (codes "accept failed")) else (running, none);
  what = λ args. codes "unknown argument";
}

abbrev console : Console
console = record {
  output = [];
  errors = [];
  log = record {
    content = [];
    can_open = λ k. true;
    stamp = λ k. codes "now";
    fault = codes "no log";
    calls = 0;
  };
  saved = none;
}

abbrev arguments : List Bytes
arguments = codes "a.txt" ∷ codes "--to" ∷ codes "h:80" ∷ []

abbrev request : SendRequest
request = record { paths = codes "a.txt" ∷ []; host = codes "h"; port = 80; chunk_size = 1048576 }

parsed : send_request no_files arguments ≡ ok request
unfolding beam_drop.Cli.send_request beam_drop.Cli.send_arguments beam_drop.Cli.send_flag
    beam_drop.Cli.send_option beam_drop.Cli.lone_argument beam_drop.Cli.parse_endpoint
    beam_drop.Cli.split_last beam_drop.Cli.parse_port beam_drop.Prelude.same_bytes
    beam_drop.Text.number_of beam_drop.Text.read_sign beam_drop.Text.skip_spaces beam_drop.Text.span
    beam_drop.Text.stoull beam_drop.Text.stoull_value
parsed = refl

run_send-SendEnds_example :
    SendEnds services no_files request console
      (thrown (codes "connect failed"))
      (run_send services no_files arguments console)
run_send-SendEnds_example =
    run_send-SendEnds services no_files arguments request console parsed (λ k. refl)

main-Exits_example :
    Exits services no_files
      (codes "serve" ∷ [])
      console
      (main services no_files 5 (codes "serve" ∷ []) console)
main-Exits_example = main-Exits services no_files 5 (codes "serve" ∷ []) console

-- The last event of a task
done_line :
    progress_text (record {
      direction = send;
      relative_path = [];
      current_file_bytes = 0;
      current_file_total_bytes = 0;
      file_index = 2;
      file_count = 2;
      stage = task_completed;
    })
    ≡ codes "beamdrop send [2/2]  0/0 bytes done\n"
unfolding progress_text beam_drop.Text.decimal
done_line = refl
