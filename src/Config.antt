-- ===== src/Config.antt =====
-- src/config/AppConfig.cpp, on the text of the configuration file.
pub mod Bounds
mod Tests
use beam_drop.Prelude.{
  ℕ, Bool, true, false, not, Option, none, some, [], ◌∷◌, ◌++◌, Bytes, ltb, ◌==◌, if◌then◌else◌,
}
use beam_drop.Errors.{Result, ok, err, runtime, throw_if, ◌>>=◌, ◌>>◌}
use beam_drop.Text.{codes, decimal, span, is_digit, strip, search_first, and_then, stoull}
use beam_drop.Json.{field_key, number_field}

pub record ServerConfig : Type 0 where
  pub host : Bytes
  pub port : ℕ
  pub save_dir : Bytes

pub record TransferConfig : Type 0 where
  pub chunk_size : ℕ
  pub enable_resume : Bool
  pub verify_sha256 : Bool
  pub state_file : Bytes

pub record LogConfig : Type 0 where
  pub level : Bytes
  pub log_file : Bytes

pub record AppConfig : Type 0 where
  pub server : ServerConfig
  pub transfer : TransferConfig
  pub log : LogConfig

abbrev pub default_config : AppConfig
default_config = record {
  server = record { host = codes "0.0.0.0"; port = 9090; save_dir = codes "received" };
  transfer = record {
    chunk_size = 1048576;
    enable_resume = false;
    verify_sha256 = true;
    state_file = codes "transfer_state.json";
  };
  log = record { level = codes "info"; log_file = codes "logs/beamdrop.log" };
}

-- What stands in front of a byte, if it is there: `([^c]*)c`.
unfoldable pub up_to : ℕ → Bytes → Option Bytes
up_to c [] = none
up_to c (d ∷ ds) =
    let rest = up_to c ds in
    if d == c then some [] else elim rest [ none ↦ none | some taken ↦ some (d ∷ taken) ]

-- `"name"\s*:\s*\{([^}]*)\}`
unfoldable pub object_at : Bytes → Bytes → Option Bytes
object_at name text =
    and_then (field_key name text) (λ rest. and_then (strip (b'{' ∷ []) rest) (up_to b'}'))

abbrev pub text_of : Option Bytes → Bytes
text_of none = []
text_of (some text) = text

unfoldable pub object_text : Bytes → Bytes → Bytes
object_text json name = text_of (search_first (object_at name) json)

-- `"name"\s*:\s*"([^"]*)"`
unfoldable pub string_at : Bytes → Bytes → Option Bytes
string_at name text =
    and_then (field_key name text) (λ rest. and_then (strip (b'"' ∷ []) rest) (up_to b'"'))

abbrev pub or_else : {A : Type 0} → Option A → A → A
or_else none output = output
or_else (some value) output = value

-- `load_string_field`, and `load_path_field`: the new value of the output
unfoldable pub load_string_field : Bytes → Bytes → Bytes → Bytes
load_string_field object name output = or_else (search_first (string_at name) object) output

-- `"name"\s*:\s*(true|false)`
abbrev pub first_of : Option Bytes → Option Bytes → Option Bool
first_of (some rest) other = some true
first_of none (some rest) = some false
first_of none none = none

unfoldable pub bool_at : Bytes → Bytes → Option Bool
bool_at name text =
    and_then (field_key name text)
      (λ rest. first_of (strip (codes "true") rest) (strip (codes "false") rest))

unfoldable pub load_bool_field : Bytes → Bytes → Bool → Bool
load_bool_field object name output = or_else (search_first (bool_at name) object) output

-- `"name"\s*:\s*([0-9]+)`
unfoldable pub number_at : Bytes → Bytes → Option Bytes
number_at name text = number_field is_digit name text

-- `load_uint16_field` and `load_size_field`, on the group of the match
unfoldable pub load_uint16 : ℕ → Option Bytes → Result ℕ
load_uint16 output none = ok output
load_uint16 output (some group) = do
  value ← stoull group
  throw_if (ltb 65535 (value.0)) runtime
  ok value.0

unfoldable pub load_size : ℕ → Option Bytes → Result ℕ
load_size output none = ok output
load_size output (some group) = do value ← stoull group; throw_if (value.0 == 0) runtime; ok value.0

abbrev pub load_uint16_field : Bytes → Bytes → ℕ → Result ℕ
load_uint16_field object name output = load_uint16 output (search_first (number_at name) object)

abbrev pub load_size_field : Bytes → Bytes → ℕ → Result ℕ
load_size_field object name output = load_size output (search_first (number_at name) object)

-- The fields that no exception can stop, with the two numbers.
abbrev pub loaded : Bytes → ℕ → ℕ → AppConfig
loaded json port chunk_size =
    let server = object_text json (codes "server") in
    let transfer = object_text json (codes "transfer") in
    let log = object_text json (codes "log") in
    record {
      server = record {
        host = load_string_field server (codes "host") default_config.server.host;
        port = port;
        save_dir = load_string_field server (codes "save_dir") default_config.server.save_dir;
      };
      transfer = record {
        chunk_size = chunk_size;
        enable_resume =
            load_bool_field transfer (codes "enable_resume") default_config.transfer.enable_resume;
        verify_sha256 =
            load_bool_field transfer (codes "verify_sha256") default_config.transfer.verify_sha256;
        state_file =
            load_string_field transfer (codes "state_file") default_config.transfer.state_file;
      };
      log = record {
        level = load_string_field log (codes "level") default_config.log.level;
        log_file = load_string_field log (codes "file") default_config.log.log_file;
      };
    }

-- `load_config`, on the text that was read
unfoldable pub load_text : Bytes → Result AppConfig
load_text json = do
  port ←
      load_uint16_field (object_text json (codes "server")) (codes "port")
        default_config.server.port
  chunk_size ←
      load_size_field (object_text json (codes "transfer")) (codes "chunk_size")
        default_config.transfer.chunk_size
  ok (loaded json port chunk_size)

-- `load_config`, of a path and what the file holds, if it can be opened
unfoldable pub load_config : Option Bytes → Result AppConfig
load_config none = err runtime
load_config (some json) = load_text json

abbrev pub bool_text : Bool → Bytes
bool_text true = codes "true"
bool_text false = codes "false"

-- `format_config`
unfoldable pub format_config : AppConfig → Bytes
format_config config =
    codes "{\n  \"server\": {\n    \"host\": \""
    ++ (config.server.host
        ++ (codes "\",\n    \"port\": "
            ++ (decimal config.server.port
                ++ (codes ",\n    \"save_dir\": \""
                    ++ (config.server.save_dir
                        ++ (codes "\"\n  },\n  \"transfer\": {\n    \"chunk_size\": "
                            ++ (decimal config.transfer.chunk_size
                                ++ (codes ",\n    \"enable_resume\": "
                                    ++ (bool_text config.transfer.enable_resume
                                        ++ (codes ",\n    \"verify_sha256\": "
                                            ++ (bool_text config.transfer.verify_sha256
                                                ++ (codes ",\n    \"state_file\": \""
                                                    ++ (config.transfer.state_file
                                                        ++ (codes
                                                            "\"\n  },\n  \"log\": {\n    \"level\": \""
                                                            ++ (config.log.level
                                                            ++ (codes "\",\n    \"file\": \""
                                                            ++ (config.log.log_file
                                                            ++ codes "\"\n  }\n}\n")))))))))))))))))
