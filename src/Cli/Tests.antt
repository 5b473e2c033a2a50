-- ===== src/Cli/Tests.antt =====
-- Command lines.
use beam_drop.Prelude.{
  ℕ, ◌<◌, ◌^◌, ◌≡◌, ◌≢◌, ◌↔◌, refl, arith, false, Option, none, List, [], ◌∷◌, ◌++◌, Bytes,
}
use beam_drop.Errors.{ok, err, runtime}
use beam_drop.Text.{codes, decimal}
use beam_drop.App.Request.{SendRequest, validate_send_request, some_empty}
use beam_drop.Config.{default_config, format_config}
use beam_drop.Cli.{
  Endpoint, parse_port, parse_endpoint, send_request, serve_request, run_config, written,
}
use beam_drop.Cli.Options.{parse_endpoint-decimal, send_request-validate_send_request}

-- A host with colons.
parse_endpoint-decimal_example :
    parse_endpoint (codes "::1" ++ b':' ∷ decimal 9090)
    ≡ ok (record { host = codes "::1"; port = 9090 })
parse_endpoint-decimal_example =
    parse_endpoint-decimal (codes "::1") 9090 (ground arith) (omega arith)

abbrev no_files : Bytes → Option Bytes
no_files path = none

abbrev arguments : List Bytes
arguments =
    codes "a.txt" ∷ codes "--chunk-size" ∷ codes "4" ∷ codes "b" ∷ codes "--to" ∷ codes "h:80" ∷ []

abbrev request : SendRequest
request = record {
  paths = codes "a.txt" ∷ codes "b" ∷ [];
  host = codes "h";
  port = 80;
  chunk_size = 4;
}

parsed : send_request no_files arguments ≡ ok request
unfolding beam_drop.Cli.send_request beam_drop.Cli.send_arguments beam_drop.Cli.send_flag
    beam_drop.Cli.send_option beam_drop.Cli.lone_argument beam_drop.Cli.parse_endpoint
    beam_drop.Cli.split_last beam_drop.Cli.parse_port beam_drop.Cli.serve_request
    beam_drop.Cli.parse_serve_options beam_drop.Cli.serve_option beam_drop.Cli.serve_flag
    beam_drop.Cli.run_config beam_drop.Cli.parse_config_options beam_drop.Cli.config_path
    beam_drop.Prelude.same_bytes beam_drop.Text.decimal beam_drop.Text.number_of
    beam_drop.Text.read_sign beam_drop.Text.skip_spaces beam_drop.Text.span beam_drop.Text.stoull
    beam_drop.Text.stoull_value
parsed = refl

send_request-validate_send_request_example :
    (request.port < 2 ^ 16)
    × ((validate_send_request request ≡ none)
        ↔ ((some_empty request.paths ≡ false) × (request.port ≢ 0)))
send_request-validate_send_request_example =
    send_request-validate_send_request no_files arguments request parsed

-- An option without its value, a path that is missing, and one that is no option.
refused : send_request no_files (codes "a" ∷ codes "--to" ∷ []) ≡ err runtime
unfolding beam_drop.Cli.send_request beam_drop.Cli.send_arguments beam_drop.Cli.send_flag
    beam_drop.Cli.send_option beam_drop.Cli.lone_argument beam_drop.Cli.parse_endpoint
    beam_drop.Cli.split_last beam_drop.Cli.parse_port beam_drop.Cli.serve_request
    beam_drop.Cli.parse_serve_options beam_drop.Cli.serve_option beam_drop.Cli.serve_flag
    beam_drop.Cli.run_config beam_drop.Cli.parse_config_options beam_drop.Cli.config_path
    beam_drop.Prelude.same_bytes beam_drop.Text.decimal beam_drop.Text.number_of
    beam_drop.Text.read_sign beam_drop.Text.skip_spaces beam_drop.Text.span beam_drop.Text.stoull
    beam_drop.Text.stoull_value
refused = refl

served :
    serve_request no_files (codes "--port" ∷ codes "81" ∷ codes "--save-dir" ∷ codes "d" ∷ [])
    ≡ ok (record { port = 81; save_dir = codes "d"; state_file = codes "transfer_state.json" })
unfolding beam_drop.Cli.send_request beam_drop.Cli.send_arguments beam_drop.Cli.send_flag
    beam_drop.Cli.send_option beam_drop.Cli.lone_argument beam_drop.Cli.parse_endpoint
    beam_drop.Cli.split_last beam_drop.Cli.parse_port beam_drop.Cli.serve_request
    beam_drop.Cli.parse_serve_options beam_drop.Cli.serve_option beam_drop.Cli.serve_flag
    beam_drop.Cli.run_config beam_drop.Cli.parse_config_options beam_drop.Cli.config_path
    beam_drop.Prelude.same_bytes beam_drop.Text.decimal beam_drop.Text.number_of
    beam_drop.Text.read_sign beam_drop.Text.skip_spaces beam_drop.Text.span beam_drop.Text.stoull
    beam_drop.Text.stoull_value
served = refl

-- What is behind the digits of a port is not looked at.
port_and_text : parse_port (codes "80abc") ≡ ok 80
unfolding beam_drop.Cli.send_request beam_drop.Cli.send_arguments beam_drop.Cli.send_flag
    beam_drop.Cli.send_option beam_drop.Cli.lone_argument beam_drop.Cli.parse_endpoint
    beam_drop.Cli.split_last beam_drop.Cli.parse_port beam_drop.Cli.serve_request
    beam_drop.Cli.parse_serve_options beam_drop.Cli.serve_option beam_drop.Cli.serve_flag
    beam_drop.Cli.run_config beam_drop.Cli.parse_config_options beam_drop.Cli.config_path
    beam_drop.Prelude.same_bytes beam_drop.Text.decimal beam_drop.Text.number_of
    beam_drop.Text.read_sign beam_drop.Text.skip_spaces beam_drop.Text.span beam_drop.Text.stoull
    beam_drop.Text.stoull_value
port_and_text = refl

initialised :
    run_config no_files (codes "init" ∷ codes "--path" ∷ codes "c" ∷ [])
    ≡ ok (written (codes "c") (format_config default_config))
unfolding beam_drop.Cli.send_request beam_drop.Cli.send_arguments beam_drop.Cli.send_flag
    beam_drop.Cli.send_option beam_drop.Cli.lone_argument beam_drop.Cli.parse_endpoint
    beam_drop.Cli.split_last beam_drop.Cli.parse_port beam_drop.Cli.serve_request
    beam_drop.Cli.parse_serve_options beam_drop.Cli.serve_option beam_drop.Cli.serve_flag
    beam_drop.Cli.run_config beam_drop.Cli.parse_config_options beam_drop.Cli.config_path
    beam_drop.Prelude.same_bytes beam_drop.Text.decimal beam_drop.Text.number_of
    beam_drop.Text.read_sign beam_drop.Text.skip_spaces beam_drop.Text.span beam_drop.Text.stoull
    beam_drop.Text.stoull_value
initialised = refl
