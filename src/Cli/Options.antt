-- ===== src/Cli/Options.antt =====
-- What the options of a send command guarantee.
use mathlib.Core.Path.{subst}
use beam_drop.Prelude.{
  is_nil, ℕ, ◌<◌, ◌^◌, ◌≡◌, ◌≢◌, ◌↔◌, refl, Bool, true, false, ◌||◌, Option, none, some, List, [],
  ◌∷◌, ◌++◌, arith, Bytes, All, All-mono, ltb, ◌==◌,
}
use beam_drop.Errors.{Result, ok, err, runtime, throw_if, ◌>>=◌, ◌>>◌}
use beam_drop.Text.{decimal, stoull}
use beam_drop.Text.Number.{IsDigit, decimal-IsDigit, decimal-cons, stoull-decimal}
use beam_drop.Config.{AppConfig, load_config, load_text}
use beam_drop.Config.Bounds.{IsValid, load_text-IsValid}
use beam_drop.App.Request.{SendRequest, validate_send_request, no_path, some_empty}
use beam_drop.Cli.{
  Files, Endpoint, Flag, config_flag, to_flag, log_file_flag, chunk_size_flag, host_flag, port_flag,
  save_dir_flag, parse_port, split_last, endpoint_of, parse_endpoint, SendOptions, send_defaults,
  send_flag, send_option, starts_with_dash, lone_argument, send_arguments, request_of, send_request,
}

-- The last colon is the one in front of the port.
split_last-none :
    (separator : ℕ) (text : Bytes)
    → All (λ c. (c == separator) ≡ false) text
    → split_last separator text ≡ none
unfolding split_last
split_last-none separator [] h = refl
split_last-none separator (c ∷ cs) h = rw (split_last-none separator cs h.1, h.0) refl

split_last-append :
    (separator : ℕ) (front behind : Bytes)
    → All (λ c. (c == separator) ≡ false) behind
    → split_last separator (front ++ separator ∷ behind) ≡ some (front, behind)
unfolding split_last
split_last-append separator [] behind h = rw (split_last-none separator behind h) (ground arith)
split_last-append separator (c ∷ front) behind h =
    rw (split_last-append separator front behind h) refl

parse_port-decimal : (port : ℕ) → port < 2 ^ 16 → parse_port (decimal port) ≡ ok port
unfolding parse_port
parse_port-decimal port h =
    let small : ltb 65535 port ≡ false = ground arith in
    rw (stoull-decimal port (omega arith)) (rw small refl)

is_nil_of_ne : (b : Bytes) → b ≢ [] → is_nil b ≡ false
is_nil_of_ne [] ne = absurd (ne refl)
is_nil_of_ne (c ∷ cs) ne = refl

-- A host that is not empty, with any colons in it, a colon, and a port below 2^16 are read back.
pub parse_endpoint-decimal :
    (host : Bytes) (port : ℕ)
    → host ≢ []
    → port < 2 ^ 16
    → parse_endpoint (host ++ b':' ∷ decimal port) ≡ ok (record { host = host; port = port })
unfolding parse_endpoint
parse_endpoint-decimal host port ne h =
    let no_colon =
      All-mono IsDigit (λ c. (c == b':') ≡ false) (λ c d. ground arith) (decimal port)
        (decimal-IsDigit port) in
    let (c, cs, digits) = decimal-cons port in
    let some_digit : is_nil (decimal port) ≡ false = rw digits refl in
    rw
      (
        split_last-append b':' host (decimal port) no_colon,
        is_nil_of_ne host ne,
        some_digit,
        parse_port-decimal port h,
      )
      refl

-- What holds of a result, unless it is an exception.
OnOk : {A : Type 0} → (A → Type 0) → Result A → Type 0
OnOk P (ok a) = P a
OnOk P (err e) = Unit {0}

module _ {A B : Type 0} (P : A → Type 0) (Q : B → Type 0) where
  chain_ok_then :
      (r : Result A) (rest : A → Result B)
      → OnOk P r
      → ((a : A) → P a → OnOk Q (rest a))
      → OnOk Q (r >>= rest)
  unfolding OnOk
  chain_ok_then (ok a) rest p q = q a p
  chain_ok_then (err e) rest p q = tt

chain_ok_guard :
    {B : Type 0} (Q : B → Type 0) (bad : Bool) (rest : Result B)
    → (bad ≡ false → OnOk Q rest)
    → OnOk Q (throw_if bad runtime >> rest)
unfolding OnOk
chain_ok_guard Q true rest q = tt
chain_ok_guard Q false rest q = q refl

self : {A : Type 0} (r : Result A) → OnOk (λ a. r ≡ ok a) r
unfolding OnOk
self (ok a) = refl
self (err e) = tt

from_OnOk : {A : Type 0} (P : A → Type 0) (r : Result A) (a : A) → OnOk P r → r ≡ ok a → P a
unfolding OnOk
from_OnOk P r a p e = subst (λ r. OnOk P r) e p

-- An endpoint with a host, and a port of 16 bits.
record IsEndpoint (endpoint : Endpoint) : Type 0 where
  some_host : is_nil endpoint.host ≡ false
  port_lt : endpoint.port < 2 ^ 16

abbrev GoodEndpoint : Option Endpoint → Type 0
GoodEndpoint none = Unit {0}
GoodEndpoint (some endpoint) = IsEndpoint endpoint

abbrev GoodOptions : SendOptions → Type 0
GoodOptions o = (o.chunk_size ≢ 0) × GoodEndpoint o.endpoint

any : {A : Type 0} (r : Result A) → OnOk (λ a. Unit {0}) r
unfolding OnOk
any (ok a) = tt
any (err e) = tt

parse_port-lt : (text : Bytes) → OnOk (λ port. port < 2 ^ 16) (parse_port text)
unfolding parse_port OnOk
parse_port-lt text =
    chain_ok_then (λ v. Unit {0}) (λ port. port < 2 ^ 16) (stoull text) _ (any (stoull text))
      λ v u. chain_ok_guard (λ port. port < 2 ^ 16) (ltb 65535 v.0) (ok v.0) λ small. ground arith

endpoint_of-IsEndpoint : (parts : Option (Bytes × Bytes)) → OnOk IsEndpoint (endpoint_of parts)
unfolding OnOk
endpoint_of-IsEndpoint none = tt
endpoint_of-IsEndpoint (some parts) =
    chain_ok_guard IsEndpoint (is_nil parts.0 || is_nil parts.1) _ λ both.
      chain_ok_then (λ port. port < 2 ^ 16) IsEndpoint (parse_port parts.1) _
        (parse_port-lt parts.1) λ port small. record { some_host = ground arith; port_lt = small }

-- Each argument keeps the options good.
send_option-GoodOptions :
    (files : Files) (flag : Flag) (value : Bytes) (o : SendOptions)
    → GoodOptions o
    → OnOk GoodOptions (send_option files flag value o)
unfolding send_option OnOk parse_endpoint
send_option-GoodOptions files config_flag value o good =
    chain_ok_then IsValid GoodOptions (load_config (files value)) _ (of (files value))
      λ config valid. (valid.chunk_size_ne_zero, good.1)
  where
    of : (text : Option Bytes) → OnOk IsValid (load_config text)
    of none = unfold load_config OnOk in tt
    of (some json) = unfold load_config in of_text (load_text json) (load_text-IsValid json)
      where
        of_text : (r : Result AppConfig) → ((c : AppConfig) → r ≡ ok c → IsValid c) → OnOk IsValid r
        of_text (ok c) valid = unfold OnOk in valid c refl
        of_text (err e) valid = unfold OnOk in tt
send_option-GoodOptions files to_flag value o good =
    chain_ok_then IsEndpoint GoodOptions (endpoint_of (split_last b':' value)) _
      (endpoint_of-IsEndpoint (split_last b':' value)) λ endpoint is. (good.0, is)
send_option-GoodOptions files log_file_flag value o good = good
send_option-GoodOptions files chunk_size_flag value o good =
    chain_ok_then (λ v. Unit {0}) GoodOptions (stoull value) _ (any (stoull value))
      λ v u. chain_ok_guard GoodOptions (v.0 == 0) _ λ ne. (ground arith, good.1)
send_option-GoodOptions files host_flag value o good = tt
send_option-GoodOptions files port_flag value o good = tt
send_option-GoodOptions files save_dir_flag value o good = tt

lone_argument-GoodOptions :
    (arg : Bytes) (o : SendOptions) → GoodOptions o → OnOk GoodOptions (lone_argument arg o)
unfolding lone_argument OnOk
lone_argument-GoodOptions arg o good =
    chain_ok_guard GoodOptions (starts_with_dash arg) _ λ plain. good

send_arguments-GoodOptions :
    (files : Files) (args : List Bytes) (o : SendOptions)
    → GoodOptions o
    → OnOk GoodOptions (send_arguments files args o)
unfolding send_arguments
send_arguments-GoodOptions files [] o good = unfold OnOk in good
send_arguments-GoodOptions files (arg ∷ []) o good = lone_argument-GoodOptions arg o good
send_arguments-GoodOptions files (arg ∷ value ∷ args) o good =
    step (send_flag arg)
      (λ next ok_next. send_arguments-GoodOptions files (value ∷ args) next ok_next)
      (λ next ok_next. send_arguments-GoodOptions files args next ok_next)
  where
    step :
        (flag : Option Flag)
        → ((next : SendOptions)
            → GoodOptions next
            → OnOk GoodOptions (send_arguments files (value ∷ args) next))
        → ((next : SendOptions)
            → GoodOptions next
            → OnOk GoodOptions (send_arguments files args next))
        → OnOk GoodOptions (elim flag [
          | none ↦ do next ← lone_argument arg o; send_arguments files (value ∷ args) next
          | some f ↦ do next ← send_option files f value o; send_arguments files args next
        ])
    step none one two =
        chain_ok_then GoodOptions GoodOptions (lone_argument arg o) _
          (lone_argument-GoodOptions arg o good) one
    step (some f) one two =
        chain_ok_then GoodOptions GoodOptions (send_option files f value o) _
          (send_option-GoodOptions files f value o good) two

-- The request of a send command.
record IsParsed (r : SendRequest) : Type 0 where
  some_path : no_path r.paths ≡ false
  some_host : is_nil r.host ≡ false
  chunk_size_ne_zero : r.chunk_size ≢ 0
  port_lt : r.port < 2 ^ 16

send_request-IsParsed :
    (files : Files) (args : List Bytes) → OnOk IsParsed (send_request files args)
unfolding send_request
send_request-IsParsed files args =
    chain_ok_then GoodOptions IsParsed (send_arguments files args send_defaults) _
      (send_arguments-GoodOptions files args send_defaults (omega arith, tt))
      λ o good.
        chain_ok_guard IsParsed (no_path o.paths) _ λ paths. of o o.endpoint paths good.0 good.1
  where
    of :
        (o : SendOptions) (e : Option Endpoint)
        → no_path o.paths ≡ false
        → o.chunk_size ≢ 0
        → GoodEndpoint e
        → OnOk IsParsed (request_of o e)
    of o none paths size good = unfold OnOk in tt
    of o (some endpoint) paths size good =
        unfold OnOk in
        record {
          some_path = paths;
          some_host = good.some_host;
          chunk_size_ne_zero = size;
          port_lt = good.port_lt;
        }

-- Of a request that a command line gives, the service refuses just an empty path and the port 0; and
-- its port has 16 bits.
pub send_request-validate_send_request :
    (files : Files) (args : List Bytes) (r : SendRequest)
    → send_request files args ≡ ok r
    → (r.port < 2 ^ 16)
      × ((validate_send_request r ≡ none) ↔ ((some_empty r.paths ≡ false) × (r.port ≢ 0)))
unfolding validate_send_request
send_request-validate_send_request files args r e =
    let p = from_OnOk IsParsed (send_request files args) r (send_request-IsParsed files args) e in
    let a = p.some_path in
    let b = p.some_host in let c = p.chunk_size_ne_zero in (p.port_lt, (ground arith))
