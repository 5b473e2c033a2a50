-- ===== src/App/Receive.antt =====
-- src/app/ReceiveService.cpp. A call gives its result and the receiver's surroundings that it leaves.
pub mod Answer
pub mod Replies
use beam_drop.Prelude.{
  is_nil, ℕ, ◌+◌, Bool, true, false, not, ◌||◌, Option, none, some, Bytes, if◌then◌else◌,
}
use beam_drop.Errors.{Result, ok, err, Exception}
use beam_drop.Network.{Os}
use beam_drop.Protocol.{hello, finish}
use beam_drop.Payload.Manifest
use beam_drop.Payload.Manifest.{TransferManifest}
use beam_drop.Transfer.Chain.{Outcome, Act, ◌>>=◌, ◌>>◌, lift}
use beam_drop.Transfer.Receiver.{Receiver, Side, is_type, next_packet, receive_task}
use beam_drop.App.{
  ErrorCode, invalid_request, protocol_error, cancelled, ServiceResult, success, unless, caught,
}

pub record ReceiveRequest : Type 0 where
  pub enable_resume : Bool
  pub state_file : Bytes
  pub save_dir : Bytes

-- A request without resume.
abbrev pub without_resume : Bytes → Bytes → ReceiveRequest
without_resume state_file save_dir = record {
  enable_resume = false;
  state_file = state_file;
  save_dir = save_dir;
}

pub record ReceiveResult : Type 0 where
  pub file_count : ℕ

-- The `Receiver` that the service makes.
abbrev pub receiver_of : ReceiveRequest → Receiver
receiver_of r = record { enable_resume = r.enable_resume; state_file = r.state_file }

-- `validate_receive_request`
unfoldable pub validate_receive_request : ReceiveRequest → Option ErrorCode
validate_receive_request r =
    if is_nil r.state_file || is_nil r.save_dir then some invalid_request else none

-- `check_cancelled`, where the stop token answers this
abbrev pub check_cancelled : Bool → Option ErrorCode
check_cancelled stop_requested = if stop_requested then some cancelled else none

abbrev pub refuse_if : Bool → Option ErrorCode
refuse_if unexpected = if unexpected then some protocol_error else none

module _ (os : Os) where
  open os use {State}

  -- The three looks at the stop token see `stops 0`, `stops 1` and `stops 2`.
  module _ (handle : Option ℕ) (r : ReceiveRequest) (stops : ℕ → Bool) where
    -- Behind the HELLO packet.
    unfoldable pub receive_entries :
        TransferManifest → Act (Side State) (ServiceResult ReceiveResult)
    receive_entries manifest = do
      receive_task os handle (receiver_of r) r.save_dir manifest.file_count manifest.directory_count
      unless (check_cancelled (stops 2)) (do
        last_packet ← next_packet os handle (receiver_of r)
        unless (refuse_if (not (is_type last_packet finish)))
            (lift (ok (success (record { file_count = manifest.file_count })))))

    -- The `try` block.
    unfoldable pub try_receive : Act (Side State) (ServiceResult ReceiveResult)
    try_receive = unless (validate_receive_request r) (
        unless (check_cancelled (stops 0)) (do
          first_packet ← next_packet os handle (receiver_of r)
          unless (refuse_if (not (is_type first_packet hello))) (
              unless (check_cancelled (stops 1)) (do
                manifest ← lift (Manifest.decode first_packet.payload)
                receive_entries manifest))))

    -- `ReceiveService::receive`. Its `catch` clauses know no cancelled transfer.
    unfoldable pub receive : Side State → ServiceResult ReceiveResult × Side State
    receive s = caught protocol_error (try_receive s)
