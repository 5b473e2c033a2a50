-- ===== src/App/Send.antt =====
-- src/app/SendService.cpp. A call gives its result and the sender's surroundings that it leaves; an
-- exception of the body becomes an error code.
pub mod Framed
use beam_drop.Prelude.{
  ℕ, ◌+◌, ◌%◌, ◌^◌, Bool, true, false, ◌||◌, Option, none, some, List, [], ◌∷◌, ◌++◌, Bytes, length,
  ◌==◌, if◌then◌else◌, same_bytes,
}
use beam_drop.Errors.{Result, ok, err, Exception}
use beam_drop.Network.{Os}
use beam_drop.Protocol.{make_packet, hello, finish}
use beam_drop.Payload.Manifest
use beam_drop.Filesystem.{Node, FileEntry, DirectoryEntry}
use beam_drop.Transfer.Chain.{Outcome, Act, ◌>>=◌, ◌>>◌, lift, get, modify}
use beam_drop.Transfer.Sender.{Origin, make_sender, send_packet, send_task}
use beam_drop.App.Request.{
  SendRequest, SendResult, total_entry_bytes, validate_unique_targets, validate_send_request,
  scan_all,
}
use beam_drop.App.{ErrorCode, cancelled, ServiceResult, success, unless, caught}

module _ (os : Os) where
  open os use {State}

  abbrev Run : Type 0 → Type 0
  Run A = Act (Origin State) A

  -- `check_cancelled`
  unfoldable pub check_cancelled : Run (Option ErrorCode)
  check_cancelled s =
      (ok (if s.stops s.looks then some cancelled else none), record s { looks = s.looks + 1 })

  -- The connection that `client.connect` gives.
  abbrev pub connect : Result State → Run (Unit {0})
  connect (ok net) s = (ok tt, record s { net = net })
  connect (err e) s = (err e, s)

  module _ (handle : Option ℕ) (r : SendRequest) (names : Bytes → Option Node)
      (connected : Result State) where
    -- From the connection on.
    unfoldable pub send_entries :
        List FileEntry → List DirectoryEntry → Run (ServiceResult SendResult)
    send_entries entries directories = do
      connect connected
      stop ← check_cancelled
      unless stop (do
        send_packet os handle (
            make_packet hello (
              Manifest.encode (record {
                file_count = length entries;
                total_bytes = total_entry_bytes entries;
                directory_count = length directories;
              })))
        chunk_size ← lift (make_sender r.chunk_size)
        send_task os handle chunk_size entries directories
        stop ← check_cancelled
        unless stop (do
          send_packet os handle (make_packet finish [])
          lift (
              ok (
                success (record {
                  file_count = length entries;
                  total_bytes = total_entry_bytes entries;
                })))))

    -- The `try` block.
    unfoldable pub try_send : Run (ServiceResult SendResult)
    try_send = unless (validate_send_request r) (do
      stop ← check_cancelled
      unless stop (do
        scanned ← lift (scan_all names r.paths)
        unless (validate_unique_targets scanned.0 scanned.1)
            (do stop ← check_cancelled; unless stop (send_entries scanned.0 scanned.1))))

    -- `SendService::send`
    unfoldable pub send : Origin State → ServiceResult SendResult × Origin State
    send s = caught cancelled (try_send s)
