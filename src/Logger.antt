-- ===== src/Logger.antt =====
-- src/logger/Logger.cpp: lines that are appended to a file.
use beam_drop.Prelude.{ℕ, ◌+◌, Bool, true, false, Option, none, some, [], ◌∷◌, ◌++◌, Bytes}
use beam_drop.Text.{codes}

-- The log file. The k-th call can open it, its directory made before, if `can_open k`, and throws
-- with the text `fault` if not; `stamp k` is what `current_timestamp` gives it.
pub record LogFile : Type 0 where
  pub content : Bytes
  pub can_open : ℕ → Bool
  pub stamp : ℕ → Bytes
  pub fault : Bytes
  pub calls : ℕ

abbrev pub line : Bytes → Bytes → Bytes → Bytes
line stamp level message =
    stamp ++ (codes " [" ++ (level ++ (codes "] " ++ (message ++ b'\n' ∷ []))))

-- `Logger::write`: the text of the exception, and the file.
unfoldable pub write : Bytes → Bytes → LogFile → Option Bytes × LogFile
write level message f = elim (f.can_open f.calls) [
  | true ↦ (
    none,
    record f { content = f.content ++ line (f.stamp f.calls) level message; calls = f.calls + 1 },
  )
  | false ↦ (some f.fault, record f { calls = f.calls + 1 })
]

-- `Logger::info` and `Logger::error`
abbrev pub info : Bytes → LogFile → Option Bytes × LogFile
info message f = write (codes "INFO") message f

abbrev pub error : Bytes → LogFile → Option Bytes × LogFile
error message f = write (codes "ERROR") message f
