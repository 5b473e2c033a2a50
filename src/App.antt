-- ===== src/App.antt =====
-- The services of include/beamdrop/app and src/app, which a user interface calls, and what they have
-- in common.
pub mod ReceiveServer
pub mod Request
pub mod Send
pub mod Receive
pub mod Service
pub mod Delivery
mod Tests
use beam_drop.Prelude.{ℕ, Bool, true, false, Option, none, some, [], ◌∷◌, Bytes}
use beam_drop.Errors.{Exception, transfer, network, file_system, runtime, TransferCode, ok, err}
use beam_drop.Errors
use beam_drop.Transfer.Chain.{Outcome, Act, lift}

-- `beamdrop::app::ErrorCode`, of include/beamdrop/app/TransferTask.hpp.
pub data ErrorCode : Type 0 where
  invalid_request network_failure protocol_error file_system_error cancelled : ErrorCode
  already_running not_running bind_failed internal_error : ErrorCode

-- `ServiceResult`; an error's message is left out.
pub data ServiceResult (A : Type 0) : Type 0 where
  success : A → ServiceResult A
  failure : ErrorCode → ServiceResult A

-- `if (auto error = …) return failure(…)`
abbrev pub unless :
    {S A : Type 0} → Option ErrorCode → Act S (ServiceResult A) → Act S (ServiceResult A)
unless (some code) rest = lift (ok (failure code))
unless none rest = rest

-- The `catch` clauses of the two services; `cancelled_code` is what they make of a cancelled transfer.
unfoldable pub code_of_transfer : ErrorCode → TransferCode → ErrorCode
code_of_transfer cancelled_code Errors.file_open_failed = file_system_error
code_of_transfer cancelled_code Errors.file_close_failed = file_system_error
code_of_transfer cancelled_code Errors.file_read_failed = file_system_error
code_of_transfer cancelled_code Errors.file_write_failed = file_system_error
code_of_transfer cancelled_code Errors.invalid_configuration = invalid_request
code_of_transfer cancelled_code Errors.cancelled = cancelled_code
code_of_transfer cancelled_code _ = protocol_error

unfoldable pub code_of : ErrorCode → Exception → ErrorCode
code_of cancelled_code (file_system code) = file_system_error
code_of cancelled_code (network code) = network_failure
code_of cancelled_code (transfer code) = code_of_transfer cancelled_code code
code_of cancelled_code runtime = internal_error

-- The result of a `try` block, or that of the `catch` clause.
unfoldable pub caught :
    {S A : Type 0} → ErrorCode → Outcome S (ServiceResult A) → ServiceResult A × S
caught cancelled_code (ok result, t) = (result, t)
caught cancelled_code (err e, t) = (failure (code_of cancelled_code e), t)
