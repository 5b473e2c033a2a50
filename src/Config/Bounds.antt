-- ===== src/Config/Bounds.antt =====
-- What a configuration that was loaded satisfies.
use mathlib.Core.Path.{subst}
use beam_drop.Prelude.{
  ℕ, ◌<◌, ◌^◌, ◌≡◌, ◌≢◌, refl, Option, none, some, arith, Bytes, ltb, ◌==◌, Bool-cases, inl, inr,
}
use beam_drop.Errors.{Result, ok, err, runtime, throw_if, ◌>>=◌, ◌>>◌}
use beam_drop.Text.{codes, stoull, search_first}
use beam_drop.Config.{
  AppConfig, default_config, number_at, object_text, loaded, load_uint16, load_size, load_text,
}

-- The bounds of the two numbers.
pub record IsValid (config : AppConfig) : Type 0 where
  pub port_lt : config.server.port < 2 ^ 16
  pub chunk_size_ne_zero : config.transfer.chunk_size ≢ 0

load_uint16-lt :
    (output value : ℕ) (group : Option Bytes)
    → output < 2 ^ 16
    → load_uint16 output group ≡ ok value
    → value < 2 ^ 16
unfolding load_uint16
load_uint16-lt output value none small e = omega (arith, the_same output value e)
  where
    the_same : (a b : ℕ) → ok a ≡ ok b → a ≡ b
    the_same a b e = cc
load_uint16-lt output value (some group) small e = of (stoull group) e
  where
    tested : (n : ℕ) → (do throw_if (ltb 65535 n) runtime; ok n) ≡ ok value → value < 2 ^ 16
    tested n e = elim (Bool-cases (ltb 65535 n)) [
      | inl big ↦ absurd (ground arith)
      | inr fits ↦ ground arith
    ]

    of :
        (r : Result (ℕ × ℕ))
        → (do n ← r; throw_if (ltb 65535 (n.0)) runtime; ok n.0) ≡ ok value
        → value < 2 ^ 16
    of (ok n) e = tested n.0 e
    of (err x) e = absurd (cc e)

load_size-ne :
    (output value : ℕ) (group : Option Bytes)
    → output ≢ 0
    → load_size output group ≡ ok value
    → value ≢ 0
unfolding load_size
load_size-ne output value none ne e = λ z. ne (cc (e, z))
load_size-ne output value (some group) ne e = of (stoull group) e
  where
    tested : (n : ℕ) → (do throw_if (n == 0) runtime; ok n) ≡ ok value → value ≢ 0
    tested n e z = elim (Bool-cases (n == 0)) [
      | inl none_left ↦ absurd (ground arith)
      | inr some_left ↦ absurd (ground arith)
    ]

    of :
        (r : Result (ℕ × ℕ))
        → (do n ← r; throw_if (n.0 == 0) runtime; ok n.0) ≡ ok value
        → value ≢ 0
    of (ok n) e = tested n.0 e
    of (err x) e = absurd (cc e)

-- A configuration that is loaded, from any text, has a port below 2^16 and a chunk size other than 0.
pub load_text-IsValid :
    (json : Bytes) (config : AppConfig) → load_text json ≡ ok config → IsValid config
unfolding load_text
load_text-IsValid json config e =
    valid
      (load_uint16 default_config.server.port
        (search_first (number_at (codes "port")) (object_text json (codes "server"))))
      (load_size default_config.transfer.chunk_size
        (search_first (number_at (codes "chunk_size")) (object_text json (codes "transfer"))))
      (λ n is. load_uint16-lt _ n _ (omega arith) is) (λ n is. load_size-ne _ n _ (omega arith) is)
      e
  where
    valid :
        (p c : Result ℕ)
        → ((n : ℕ) → p ≡ ok n → n < 2 ^ 16)
        → ((n : ℕ) → c ≡ ok n → n ≢ 0)
        → (do port ← p; chunk_size ← c; ok (loaded json port chunk_size)) ≡ ok config
        → IsValid config
    valid (ok port) (ok chunk_size) small some_size e =
        let same : loaded json port chunk_size ≡ config = cc in
        subst (λ c. IsValid c) same
          (record { port_lt = small port refl; chunk_size_ne_zero = some_size chunk_size refl })
    valid (ok port) (err x) small some_size e = absurd (cc e)
    valid (err x) c small some_size e = absurd (cc e)
