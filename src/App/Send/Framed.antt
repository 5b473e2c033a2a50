-- ===== src/App/Send/Framed.antt =====
-- What the result of `SendService::send` says.
use beam_drop.Prelude.{
  ℕ, ◌≡◌, refl, ap, ◌∙◌, Option, none, some, List, [], ◌++◌, append_assoc, Bytes, length,
}
use beam_drop.Errors.{Result, ok, err}
use beam_drop.Filesystem.{Node, FileEntry, DirectoryEntry}
use beam_drop.Network.{Os}
use beam_drop.Protocol.{make_packet, hello, finish}
use beam_drop.Protocol.Codec
use beam_drop.Payload.Manifest
use beam_drop.Transfer.Chain.{
  chain_both, chain_self, Ensures, chain_then, chain_ok, chain_err, chain_result,
}
use beam_drop.Transfer.Sender.{Origin, send_task}
use beam_drop.Transfer.Sender.Sent.{send_packet-Sent}
use beam_drop.Transfer.Sender.Growth.{Grew, send_task-Grew}
use beam_drop.App.{cancelled, ServiceResult, success, failure}
use beam_drop.App.Request.{
  SendRequest, SendResult, total_entry_bytes, validate_unique_targets, validate_send_request,
  scan_all, directory_paths, file_paths,
}
use beam_drop.App.Request.Targets.{Distinct, validate_unique_targets-Distinct}
use beam_drop.App.Send.{check_cancelled, connect, send_entries, try_send, send}
use beam_drop.App.Service.{unless_step, caught_step}

module _ (os : Os) (h : ℕ) (r : SendRequest) (names : Bytes → Option Node)
    (connected : Result os.State) where
  open os use {State, pending, sent}

  -- The bytes between HELLO, with the manifest of what was scanned, and FINISH, which `send_task` sent.
  pub record Framed (result : SendResult) (s t : Origin State) : Type 0 where
    pub entries : List FileEntry
    pub directories : List DirectoryEntry
    pub scanned : scan_all names r.paths ≡ ok (entries, directories)
    pub distinct : Distinct (directory_paths directories ++ file_paths entries)
    pub result_is :
        result ≡ record { file_count = length entries; total_bytes = total_entry_bytes entries }
    pub connection : State
    pub connected_is : connected ≡ ok connection
    pub middle : Bytes
    pub sent_is :
        sent t.net
        ≡ sent connection
          ++ (Codec.encode (
                make_packet hello (
                  Manifest.encode (record {
                    file_count = length entries;
                    total_bytes = total_entry_bytes entries;
                    directory_count = length directories;
                  })))
              ++ (middle ++ Codec.encode (make_packet finish [])))
    pub chunk_size : ℕ
    pub task_start : Origin State
    pub task_end : Origin State
    pub task_is :
        send_task os (some h) chunk_size entries directories task_start ≡ (ok tt, task_end)
    pub task_sent : sent task_end.net ≡ sent task_start.net ++ middle
    pub start_pending : pending task_start.net ≡ pending connection
    pub start_disk : task_start.disk ≡ s.disk

  abbrev Good : Origin State → ServiceResult SendResult → Origin State → Type 0
  Good s (success result) t = Framed result s t
  Good s (failure c) t = Unit {0}

  look-same :
      (s : Origin State)
      → Ensures (λ o t. (t.net ≡ s.net) × (t.disk ≡ s.disk)) (check_cancelled os s)
  unfolding check_cancelled
  look-same s =
      chain_ok (λ o (t : Origin State). (t.net ≡ s.net) × (t.disk ≡ s.disk)) _
        (record s { looks = _ }) (refl, refl)

  connect-made :
      (c : Result State) (s : Origin State)
      → Ensures (λ u t. (c ≡ ok t.net) × (t.disk ≡ s.disk)) (connect os c s)
  connect-made (ok net) s =
      chain_ok (λ u (t : Origin State). (ok net ≡ ok t.net) × (t.disk ≡ s.disk)) tt
        (record s { net = net }) (refl, refl)
  connect-made (err e) s =
      chain_err (λ u (t : Origin State). (err e ≡ ok t.net) × (t.disk ≡ s.disk)) e s

  send_entries-Good :
      (entries : List FileEntry) (directories : List DirectoryEntry) (s0 s : Origin State)
      → s.disk ≡ s0.disk
      → scan_all names r.paths ≡ ok (entries, directories)
      → validate_unique_targets entries directories ≡ none
      → Ensures (Good s0) (send_entries os (some h) r names connected entries directories s)
  unfolding send_entries
  send_entries-Good entries directories s0 s same_disk scanned unique =
      let greeting = Codec.encode (
        make_packet hello (
          Manifest.encode (record {
            file_count = length entries;
            total_bytes = total_entry_bytes entries;
            directory_count = length directories;
          }))) in
      let ending = Codec.encode (make_packet finish []) in
      let Ran = λ (k : ℕ) (a : Origin State) (u : Unit {0}) (b : Origin State).
        (send_task os (some h) k entries directories a ≡ (ok tt, b)) × Grew os h a u b in
      chain_then _ (Good s0) _ _ (connect-made connected s) λ u s1 made.
        chain_then _ (Good s0) _ _ (look-same s1) λ stop s2 same2.
          unless_step (Good s0) stop _ s2 (λ c e. tt)
            λ going. chain_then _ (Good s0) _ _ (send_packet-Sent os h _ s2) λ u s3 greeted.
              chain_result (Good s0) _ s3 _ λ chunk_size sized.
                chain_then (Ran chunk_size s3) (Good s0) _ _
                  (chain_both
                    (λ u b. send_task os (some h) chunk_size entries directories s3 ≡ (ok tt, b))
                    (Grew os h s3) _ (chain_self _)
                    (send_task-Grew os h chunk_size entries directories s3))
                  λ u s4 (ran, (middle, grew)).
                    chain_then _ (Good s0) _ _ (look-same s4) λ stop s5 same5.
                      unless_step (Good s0) stop _ s5 (λ c e. tt)
                        λ going'.
                          chain_then _ (Good s0) _ _
                            (send_packet-Sent os h (make_packet finish []) s5)
                            λ u s6 finished. chain_ok (Good s0) (success _) s6 (record {
                              entries = entries;
                              directories = directories;
                              scanned = scanned;
                              distinct =
                                  (validate_unique_targets-Distinct entries directories).0 unique;
                              result_is = refl;
                              connection = s1.net;
                              connected_is = made.0;
                              middle = middle;
                              sent_is =
                                  wire (sent s1.net) greeting middle ending (ap sent same2.0)
                                    greeted.sent_is grew (ap sent same5.0) finished.sent_is;
                              chunk_size = chunk_size;
                              task_start = s3;
                              task_end = s4;
                              task_is = ran;
                              task_sent = grew;
                              start_pending = greeted.pending_kept ∙ ap pending same2.0;
                              start_disk = greeted.disk_kept ∙ same2.1 ∙ made.1 ∙ same_disk;
                            })
    where
      wire :
          (start greeting middle ending : Bytes) {a b c d e : Bytes}
          → a ≡ start
          → b ≡ a ++ greeting
          → c ≡ b ++ middle
          → d ≡ c
          → e ≡ d ++ ending
          → e ≡ start ++ (greeting ++ (middle ++ ending))
      wire start greeting middle ending p q r s t =
          t
          ∙ ap (λ x. x ++ ending) (s ∙ r ∙ ap (λ x. x ++ middle) (q ∙ ap (λ x. x ++ greeting) p))
          ∙ append_assoc (start ++ greeting) middle ending
          ∙ append_assoc start greeting (middle ++ ending)

  try_send-Good : (s : Origin State) → Ensures (Good s) (try_send os (some h) r names connected s)
  unfolding try_send
  try_send-Good s =
      unless_step (Good s) (validate_send_request r) _ s (λ c e. tt)
        λ valid. chain_then _ (Good s) _ _ (look-same s) λ stop s1 same1.
          unless_step (Good s) stop _ s1 (λ c e. tt)
            λ going. chain_result (Good s) _ s1 _ λ scanned found.
              unless_step (Good s) (validate_unique_targets scanned.0 scanned.1) _ s1 (λ c e. tt)
                λ unique. chain_then _ (Good s) _ _ (look-same s1) λ stop' s2 same2.
                  unless_step (Good s) stop' _ s2 (λ c e. tt)
                    λ going'.
                      send_entries-Good scanned.0 scanned.1 s s2 (same2.1 ∙ same1.1) found unique

  -- A send that succeeds has scanned the paths to entries with distinct targets, whose number and
  -- total size it gives, and has sent over the connection HELLO with the manifest of these
  -- entries, then the bytes that `send_task` sent for them without an exception, then FINISH, and
  -- nothing else.
  pub send-Framed :
      (result : SendResult) (s t : Origin State)
      → send os (some h) r names connected s ≡ (success result, t)
      → Framed result s t
  unfolding send
  send-Framed result s t e =
      caught_step (Good s) cancelled (try_send os (some h) r names connected s) (success result) t
        (try_send-Good s) (λ x u. tt) e
