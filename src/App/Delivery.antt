-- ===== src/App/Delivery.antt =====
-- The two services together: what `SendService::send` reports as sent, `ReceiveService::receive` takes
-- and reports as received.
mod Greeting
mod Tests
use mathlib.Core.Path.{subst}
use beam_drop.Prelude.{
  ℕ, ◌+◌, ◌<◌, ◌^◌, ◌%◌, ◌≡◌, inl, inr, refl, ap, sym, ◌∙◌, Bool, true, false, not, Option, none,
  some, List, [], ◌∷◌, ◌++◌, append_assoc, append-injective, arith, Bytes, length, length-append,
  All, All-append, All-mono,
}
use beam_drop.Errors.{Result, ok, err, Exception}
use beam_drop.Text.{codes, decimal}
use beam_drop.Text.Number.{IsDigit, decimal-IsDigit, length-decimal}
use beam_drop.Filesystem.{Node, FileEntry, DirectoryEntry}
use beam_drop.Network.{Os}
use beam_drop.Protocol.{Packet, PacketType, make_packet, hello, finish, IsWellFormed, IsByte}
use beam_drop.Protocol.Codec
use beam_drop.Payload.Manifest
use beam_drop.Payload.Manifest.{TransferManifest}
use beam_drop.Payload.Manifest.RoundTrip.{decode-encode_manifest}
use beam_drop.Transfer.Chain.{Outcome, Act, ◌>>=◌, lift, Yields, total_ok, total_then, total_result}
use beam_drop.Transfer.Wire.{make_packet-IsWellFormed, decimal-IsByte}
use beam_drop.Transfer.Sender.{Origin, send_task}
use beam_drop.Transfer.Receiver.{Side, plain_receiver, is_type, next_packet}
use beam_drop.Transfer.Receiver.Total.{IsBroken, Works-net, next_packet_step}
use beam_drop.Transfer.Task.{Parcel, replies, Expects}
use beam_drop.Transfer.Task.Delivery.{Delivers, task_transferred}
use beam_drop.App.{
  ErrorCode, network_failure, protocol_error, ServiceResult, success, failure, unless, caught,
  code_of,
}
use beam_drop.App.Request.{SendRequest, SendResult, total_entry_bytes, scan_all, add_sizes}
use beam_drop.App.Delivery.Greeting.{manifest_of, manifest_fits, manifest-IsByte, add_sizes-lt}
use beam_drop.App.Send.{send}
use beam_drop.App.Service.{going_on}
use beam_drop.App.Send.Framed.{Framed, send-Framed}
use beam_drop.App.Receive.{
  ReceiveRequest, ReceiveResult, receiver_of, without_resume, validate_receive_request,
  check_cancelled, receive_entries, refuse_if, try_receive, receive,
}

abbrev value_of : {A : Type 0} → A → Result A → A
value_of other (ok a) = a
value_of other (err e) = other

-- What the receiver reports: all files, and then they are there; or a failure of the network.
abbrev pub Reports :
    (os : Os)
    → ℕ
    → List Parcel
    → List Bytes
    → Bytes
    → Side os.State
    → ServiceResult ReceiveResult
    → Side os.State
    → Type 0
Reports os count ps folders behind q (success result) z =
    (result.file_count ≡ count) × Delivers os ps folders behind q z
Reports os count ps folders behind q (failure c) z = c ≡ network_failure

module _ (os os' : Os) (h h' : ℕ) where
  open os use {State, pending, sent}

  broken_code : (e : Exception) → IsBroken e → code_of protocol_error e ≡ network_failure
  unfolding code_of
  broken_code e (inl received) = ap (code_of protocol_error) received
  broken_code e (inr given) = ap (code_of protocol_error) given

  caught-Reports :
      (count : ℕ) (ps : List Parcel) (folders : List Bytes) (behind : Bytes) (q : Side os'.State)
      (m : Outcome (Side os'.State) (ServiceResult ReceiveResult))
      → Yields IsBroken (Reports os' count ps folders behind q) m
      → Reports os' count ps folders behind q
          (caught protocol_error m).0
          (caught protocol_error m).1
  unfolding Yields caught
  caught-Reports count ps folders behind q (ok r, z) y = y
  caught-Reports count ps folders behind q (err e, z) y = broken_code e y

  -- A packet without a payload
  bare-IsWellFormed : (t : PacketType) → IsWellFormed (make_packet t [])
  bare-IsWellFormed t = make_packet-IsWellFormed t [] (omega arith) tt

  module _ (state_file save_dir : Bytes) (stops : ℕ → Bool) where
    abbrev request : ReceiveRequest
    request = without_resume state_file save_dir

    receive_all :
        (chunk_size : ℕ) (entries : List FileEntry) (directories : List DirectoryEntry)
        (ps : List Parcel) (folders : List Bytes) (bytes later behind : Bytes) (s t : Origin State)
        (q : Side os'.State)
        → validate_receive_request request ≡ none
        → ((k : ℕ) → stops k ≡ false)
        → length entries < 2 ^ 64
        → length directories < 2 ^ 64
        → Expects os' h' state_file save_dir s.disk entries directories ps folders q
        → send_task os (some h) chunk_size entries directories s ≡ (ok tt, t)
        → sent t.net ≡ sent s.net ++ bytes
        → os'.pending q.net
          ≡ Codec.encode (make_packet hello (Manifest.encode (manifest_of entries directories)))
            ++ (bytes ++ (Codec.encode (make_packet finish []) ++ behind))
        → pending s.net ≡ replies (length entries) ++ later
        → Yields IsBroken
            (Reports os' (length entries) ps folders behind q)
            (try_receive os' (some h') request stops q)
    unfolding try_receive receive_entries
    receive_all chunk_size entries directories ps folders bytes later behind s t q valid going files
          short m done out stream reply =
        let Q = Reports os' (length entries) ps folders behind q in
        let manifest = manifest_of entries directories in
        let counted : Act (Side os'.State) (ServiceResult ReceiveResult) =
          lift (ok (success (record { file_count = length entries }))) in
        let finished : Packet → Act (Side os'.State) (ServiceResult ReceiveResult) =
          λ p. unless (refuse_if (not (is_type p finish))) counted in
        let ending : Act (Side os'.State) (ServiceResult ReceiveResult) =
          next_packet os' (some h') (receiver_of request) >>= finished in
        let received_all : TransferManifest → Act (Side os'.State) (ServiceResult ReceiveResult) =
          receive_entries os' (some h') request stops in
        let announced : Act (Side os'.State) (ServiceResult ReceiveResult) =
          lift (Manifest.decode (Manifest.encode manifest)) >>= received_all in
        let looked : Act (Side os'.State) (ServiceResult ReceiveResult) =
          unless (check_cancelled (stops 1)) announced in
        going_on IsBroken Q _ _ q valid (
          going_on IsBroken Q _ _ q (looks 0) (
            next_packet_step os' h' (receiver_of request) Q
              (make_packet hello (Manifest.encode manifest)) _ q _
              (make_packet-IsWellFormed hello _ (manifest_fits manifest) (manifest-IsByte manifest))
              stream
              λ x left.
                going_on IsBroken Q none looked (record q { net = x }) refl
                  (going_on IsBroken Q _ announced (record q { net = x }) (looks 1)
                    (total_result IsBroken Q _ manifest (record q { net = x }) received_all
                      (decode-encode_manifest manifest files (add_sizes-lt entries 0 (omega arith))
                        short)
                      (total_then IsBroken Q _ _
                        (λ u z. unless (check_cancelled (stops 2)) ending z)
                        (task_transferred os os' h h' chunk_size state_file save_dir entries
                          directories ps folders bytes later
                          (Codec.encode (make_packet finish []) ++ behind) s t
                          (record q { net = x }) (at_net x m) done out left reply)
                        λ u z (changed, left'). going_on IsBroken Q _ ending z (looks 2) (
                          next_packet_step os' h' (receiver_of request) Q (make_packet finish [])
                            behind z (λ p v. finished p v) (bare-IsWellFormed finish) left'
                            λ y left''.
                              going_on IsBroken Q none counted (record z { net = y }) refl
                                (total_ok IsBroken Q
                                  (success (record { file_count = length entries }))
                                  (record z { net = y }) (refl, (changed, left'')))))))))
      where
        looks : (k : ℕ) → check_cancelled (stops k) ≡ none
        looks k = ap check_cancelled (going k)

        at_net :
            (x : os'.State)
            → Expects os' h' state_file save_dir s.disk entries directories ps folders q
            → Expects os' h' state_file save_dir s.disk entries directories ps folders
                (record q { net = x })
        at_net x m = record {
          carried = m.carried;
          placed = m.placed;
          free = m.free;
          apart = m.apart;
          works = Works-net os' h' (plain_receiver state_file) q x m.works;
        }

    -- Where `SendService::send` succeeds, with the entries that its paths were scanned to, over a
    -- connection that begins with the answers of a receiver that has nothing, then
    -- `ReceiveService::receive` of a valid request without resume, that nobody stops, on the bytes that
    -- were sent reports all files, with every directory made, every file whole, and the stream read
    -- up to what follows; or it reports a failure of the network. Every other place of the disk is as
    -- before, or is a directory on the way to an entry where nothing was. The receiver's system calls
    -- work but for the connection; there are fewer than 2 ^ 64 files and directories; each has a path
    -- of bytes that is not empty and that the receiver's path tests accept; the sizes have 64 bits;
    -- nothing is at the places of the entries, which differ, and no file is on the ways to them; no
    -- entry is on the way to an earlier one, and no file on the way to itself or to a later one; the
    -- place of a directory is not the start of its path.
    pub sent-Reports :
        (r : SendRequest) (names : Bytes → Option Node) (result : SendResult) (connection : State)
        (entries : List FileEntry) (directories : List DirectoryEntry) (ps : List Parcel)
        (folders : List Bytes) (bytes later behind : Bytes) (s t : Origin State)
        (q : Side os'.State)
        → validate_receive_request request ≡ none
        → ((k : ℕ) → stops k ≡ false)
        → send os (some h) r names (ok connection) s ≡ (success result, t)
        → scan_all names r.paths ≡ ok (entries, directories)
        → length entries < 2 ^ 64
        → length directories < 2 ^ 64
        → Expects os' h' state_file save_dir s.disk entries directories ps folders q
        → sent t.net ≡ sent connection ++ bytes
        → os'.pending q.net ≡ bytes ++ behind
        → pending connection ≡ replies (length entries) ++ later
        → Reports os'
            (length entries)
            ps
            folders
            behind
            q
            (receive os' (some h') request stops q).0
            (receive os' (some h') request stops q).1
    unfolding receive
    sent-Reports r names result connection entries directories ps folders bytes later behind s t q
          valid going done scanned files short m out stream reply =
        let f = send-Framed os h r names (ok connection) result s t done in
        let same : ok (f.entries, f.directories) ≡ ok (entries, directories) =
          sym f.scanned ∙ scanned in
        let found = λ (r : Result (List FileEntry × List DirectoryEntry)).
          value_of (entries, directories) r in
        let same_entries : f.entries ≡ entries = ap (λ r. (found r).0) same in
        let same_directories : f.directories ≡ directories = ap (λ r. (found r).1) same in
        let same_connection : connection ≡ f.connection = ap (value_of connection) f.connected_is in
        let greeting =
          Codec.encode
            (make_packet hello (Manifest.encode (manifest_of f.entries f.directories))) in
        let ending = Codec.encode (make_packet finish []) in
        let split : bytes ≡ greeting ++ (f.middle ++ ending) =
          (append-injective (sent connection) bytes (sent connection)
            (greeting ++ (f.middle ++ ending)) refl
            (sym out
              ∙ f.sent_is
              ∙ ap (λ c. sent c ++ (greeting ++ (f.middle ++ ending))) (sym same_connection))).1 in
        let arriving : os'.pending q.net ≡ greeting ++ (f.middle ++ (ending ++ behind)) =
          stream
          ∙ ap (λ b. b ++ behind) split
          ∙ append_assoc greeting (f.middle ++ ending) behind
          ∙ ap (λ b. greeting ++ b) (append_assoc f.middle ending behind) in
        subst
          (λ e.
            Reports os' (length e) ps folders behind q (receive os' (some h') request stops q).0
              (receive os' (some h') request stops q).1)
          same_entries
          (caught-Reports (length f.entries) ps folders behind q
            (try_receive os' (some h') request stops q)
            (receive_all f.chunk_size f.entries f.directories ps folders f.middle later behind
              f.task_start f.task_end q valid going
              (subst (λ e. length e < 2 ^ 64) (sym same_entries) files)
              (subst (λ e. length e < 2 ^ 64) (sym same_directories) short)
              (subst
                (λ e.
                  Expects os' h' state_file save_dir f.task_start.disk e f.directories ps folders q)
                (sym same_entries)
                (subst
                  (λ d. Expects os' h' state_file save_dir f.task_start.disk entries d ps folders q)
                  (sym same_directories)
                  (subst
                    (λ d. Expects os' h' state_file save_dir d entries directories ps folders q)
                    (sym f.start_disk) m)))
              f.task_is f.task_sent arriving
              (f.start_pending
                ∙ ap pending (sym same_connection)
                ∙ reply
                ∙ ap (λ e. replies (length e) ++ later) (sym same_entries))))
