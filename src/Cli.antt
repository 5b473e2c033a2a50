-- ===== src/Cli.antt =====
-- src/main.cpp: the options of the commands, and what the commands make of them. The arguments are
-- those behind the command's name; `files` is what the file at a path holds, if it can be opened.
pub mod Options
pub mod Commands
mod Tests
use beam_drop.Prelude.{
  is_nil, ℕ, Bool, true, false, not, ◌||◌, Option, none, some, List, [], ◌∷◌, ◌++◌, Bytes, ltb,
  ◌==◌, if◌then◌else◌, same_bytes, ◌&&◌,
}
use beam_drop.Errors.{Result, ok, err, runtime, throw_if, ◌>>=◌, ◌>>◌}
use beam_drop.Text.{codes, stoull}
use beam_drop.Config.{AppConfig, default_config, load_config, format_config}
use beam_drop.App.Request.{SendRequest, no_path}
use beam_drop.App.ReceiveServer.{Request}

abbrev Files : Type 0
Files = Bytes → Option Bytes

-- `parse_port`: `std::stoul` takes what it can read and does not look at the rest.
unfoldable pub parse_port : Bytes → Result ℕ
parse_port text = do value ← stoull text; throw_if (ltb 65535 (value.0)) runtime; ok value.0

pub record Endpoint : Type 0 where
  pub host : Bytes
  pub port : ℕ

-- `text.rfind(':')`: what stands in front of the last colon, and behind it.
unfoldable pub split_last : ℕ → Bytes → Option (Bytes × Bytes)
split_last separator [] = none
split_last separator (c ∷ cs) = elim (split_last separator cs) [
  | some parts ↦ some (c ∷ parts.0, parts.1)
  | none ↦ if c == separator then some ([], cs) else none
]

-- `parse_endpoint`
abbrev pub endpoint_of : Option (Bytes × Bytes) → Result Endpoint
endpoint_of none = err runtime
endpoint_of (some parts) = do
  throw_if (is_nil parts.0 || is_nil parts.1) runtime
  port ← parse_port parts.1
  ok (record { host = parts.0; port = port })

unfoldable pub parse_endpoint : Bytes → Result Endpoint
parse_endpoint text = endpoint_of (split_last b':' text)

pub record ServeOptions : Type 0 where
  pub host : Bytes
  pub port : ℕ
  pub save_dir : Bytes
  pub enable_resume : Bool
  pub state_file : Bytes
  pub log_file : Bytes

abbrev pub serve_defaults : ServeOptions
serve_defaults = record {
  host = codes "0.0.0.0";
  port = 9090;
  save_dir = codes "received";
  enable_resume = false;
  state_file = codes "transfer_state.json";
  log_file = codes "logs/beamdrop.log";
}

-- The options that take a value.
pub data Flag : Type 0 where
  config_flag host_flag port_flag save_dir_flag log_file_flag to_flag chunk_size_flag : Flag

unfoldable pub serve_flag : Bytes → Option Flag
serve_flag arg =
    if same_bytes arg (codes "--config")
    then some config_flag
    else if same_bytes arg (codes "--host")
    then some host_flag
    else if same_bytes arg (codes "--port")
    then some port_flag
    else if same_bytes arg (codes "--save-dir")
    then some save_dir_flag
    else if same_bytes arg (codes "--log-file")
    then some log_file_flag
    else none

-- One option with its value.
unfoldable pub serve_option : Files → Option Flag → Bytes → ServeOptions → Result ServeOptions
serve_option files (some config_flag) value o = do
  config ← load_config (files value)
  ok (record {
    host = config.server.host;
    port = config.server.port;
    save_dir = config.server.save_dir;
    enable_resume = config.transfer.enable_resume;
    state_file = config.transfer.state_file;
    log_file = config.log.log_file;
  })
serve_option files (some host_flag) value o = ok (record o { host = value })
serve_option files (some port_flag) value o = do
  port ← parse_port value
  ok (record o { port = port })
serve_option files (some save_dir_flag) value o = ok (record o { save_dir = value })
serve_option files (some log_file_flag) value o = ok (record o { log_file = value })
serve_option files _ value o = err runtime

-- `parse_serve_options`
unfoldable pub parse_serve_options : Files → List Bytes → ServeOptions → Result ServeOptions
parse_serve_options files [] o = ok o
parse_serve_options files (arg ∷ []) o = err runtime
parse_serve_options files (arg ∷ value ∷ args) o = do
  next ← serve_option files (serve_flag arg) value o
  parse_serve_options files args next

pub record SendOptions : Type 0 where
  pub paths : List Bytes
  pub endpoint : Option Endpoint
  pub log_file : Bytes
  pub chunk_size : ℕ

abbrev pub send_defaults : SendOptions
send_defaults = record {
  paths = [];
  endpoint = none;
  log_file = codes "logs/beamdrop.log";
  chunk_size = 1048576;
}

unfoldable pub send_flag : Bytes → Option Flag
send_flag arg =
    if same_bytes arg (codes "--config")
    then some config_flag
    else if same_bytes arg (codes "--to")
    then some to_flag
    else if same_bytes arg (codes "--log-file")
    then some log_file_flag
    else if same_bytes arg (codes "--chunk-size")
    then some chunk_size_flag
    else none

unfoldable pub send_option : Files → Flag → Bytes → SendOptions → Result SendOptions
send_option files config_flag value o = do
  config ← load_config (files value)
  ok (record o { log_file = config.log.log_file; chunk_size = config.transfer.chunk_size })
send_option files to_flag value o = do
  endpoint ← parse_endpoint value
  ok (record o { endpoint = some endpoint })
send_option files log_file_flag value o = ok (record o { log_file = value })
send_option files chunk_size_flag value o = do
  chunk_size ← stoull value
  throw_if (chunk_size.0 == 0) runtime
  ok (record o { chunk_size = chunk_size.0 })
send_option files _ value o = err runtime

-- An argument that is no option with a value.
abbrev pub starts_with_dash : Bytes → Bool
starts_with_dash [] = false
starts_with_dash (c ∷ cs) = c == b'-'

unfoldable pub lone_argument : Bytes → SendOptions → Result SendOptions
lone_argument arg o = do
  throw_if (starts_with_dash arg) runtime
  ok (record o { paths = o.paths ++ arg ∷ [] })

unfoldable pub send_arguments : Files → List Bytes → SendOptions → Result SendOptions
send_arguments files [] o = ok o
send_arguments files (arg ∷ []) o = lone_argument arg o
send_arguments files (arg ∷ value ∷ args) o = elim (send_flag arg) [
  | none ↦ do next ← lone_argument arg o; send_arguments files (value ∷ args) next
  | some flag ↦ do next ← send_option files flag value o; send_arguments files args next
]

-- `parse_send_options`, and the request that `run_send` makes of its options
abbrev pub request_of : SendOptions → Option Endpoint → Result SendRequest
request_of o none = err runtime
request_of o (some endpoint) = ok (record {
  paths = o.paths;
  host = endpoint.host;
  port = endpoint.port;
  chunk_size = o.chunk_size;
})

unfoldable pub send_request : Files → List Bytes → Result SendRequest
send_request files args = do
  o ← send_arguments files args send_defaults
  throw_if (no_path o.paths) runtime
  request_of o o.endpoint

-- The request that `run_serve` makes of its options
unfoldable pub serve_request : Files → List Bytes → Result Request
serve_request files args = do
  o ← parse_serve_options files args serve_defaults
  ok (record { port = o.port; save_dir = o.save_dir; state_file = o.state_file })

pub record ConfigOptions : Type 0 where
  pub action : Bytes
  pub path : Bytes

abbrev pub config_flag_of : Bytes → Bool
config_flag_of arg = same_bytes arg (codes "--path") || same_bytes arg (codes "--config")

unfoldable pub config_path : List Bytes → Bytes → Result Bytes
config_path [] path = ok path
config_path (arg ∷ []) path = err runtime
config_path (arg ∷ value ∷ args) path = do
  throw_if (not (config_flag_of arg)) runtime
  config_path args value

-- `parse_config_options`
unfoldable pub parse_config_options : List Bytes → Result ConfigOptions
parse_config_options [] = err runtime
parse_config_options (action ∷ args) = do
  path ← config_path args (codes "config/beamdrop.json")
  throw_if (not (same_bytes action (codes "init")) && not (same_bytes action (codes "show")))
      runtime
  ok (record { action = action; path = path })

-- `run_config`: what is written to the file at a path, or shown.
pub data ConfigRun : Type 0 where
  written : Bytes → Bytes → ConfigRun
  shown : Bytes → ConfigRun

unfoldable pub run_config : Files → List Bytes → Result ConfigRun
run_config files args = do
  o ← parse_config_options args
  if same_bytes o.action (codes "init")
      then ok (written o.path (format_config default_config))
      else do config ← load_config (files o.path); ok (shown (format_config config))
