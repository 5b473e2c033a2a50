-- ===== src/Transfer/Task/Answers.antt =====
-- What a receiver without resume sends: an acknowledgement of the offset 0 for each file.
use beam_drop.Prelude.{
  ℕ, zero, suc, ◌+◌, ◌≡◌, refl, ap, sym, ◌∙◌, inl, inr, List, some, ◌++◌, append_assoc, append-nil,
  Bytes,
}
use mathlib.Core.Path.{subst}
use beam_drop.Errors.{Result, ok, err}
use beam_drop.Transfer.Disk.{Disk, make_directories}
use beam_drop.Transfer.Path.{place, above, along}
use beam_drop.Network.{Os}
use beam_drop.Network.Stream.Writing.{Writes, write_all_lem}
use beam_drop.Protocol.{Packet}
use beam_drop.Protocol.Codec
use beam_drop.Protocol.PacketIo.{read_packet, write_packet}
use beam_drop.Protocol.PacketIo.RoundTrip.{sent-read_packet}
use beam_drop.Payload.FileInfo
use beam_drop.Payload.FileInfo.{FileInfo}
use beam_drop.Transfer.Chain.{
  Ensures, chain_then, chain_guard, chain_ok, chain_err, chain_if, chain_result, chain_mono,
}
use beam_drop.Transfer.Receiver.{
  Side, plain_receiver, made, create_directories, cut_output, took, gave, next_packet, send_packet,
  report, open_output, take_data, receive_data, finish_file, receive_info, receive_one_file,
  receive_one_directory, receive_directories, receive_files, report_task, receive_task,
}
use beam_drop.Transfer.EndToEnd.{answer}
use beam_drop.Transfer.Task.{replies}

module _ (os : Os) (h : ℕ) (state_file : Bytes) where
  open os use {State, sent}

  -- These bytes were sent; and none.
  abbrev pub Says : {A : Type 0} → Bytes → Side State → A → Side State → Type 0
  Says bytes s a t = sent t.net ≡ sent s.net ++ bytes

  abbrev pub Silent : {A : Type 0} → Side State → A → Side State → Type 0
  Silent s a t = sent t.net ≡ sent s.net

  Says-trans :
      (a b : Bytes) (s t u : Side State) → Says a s tt t → Says b t tt u → Says (a ++ b) s tt u
  Says-trans a b s t u p q = q ∙ ap (λ x. x ++ b) p ∙ append_assoc (sent s.net) a b

  took-Silent :
      (r : Result (Packet × State)) (s : Side State)
      → read_packet os (some h) s.net ≡ r
      → Ensures (Silent s) (took os (some h) (plain_receiver state_file) r s)
  unfolding Ensures
  took-Silent (ok (p, net)) s e = sent-read_packet os h p s.net net e
  took-Silent (err x) s e = tt

  pub next_packet-Silent :
      (s : Side State) → Ensures (Silent s) (next_packet os (some h) (plain_receiver state_file) s)
  unfolding next_packet
  next_packet-Silent s = took-Silent (read_packet os (some h) s.net) s refl

  gave-Says :
      (bytes : Bytes) (r : Result State) (s : Side State)
      → Writes os bytes s.net r
      → Ensures (Says bytes s) (gave os (some h) (plain_receiver state_file) r s)
  gave-Says bytes r s (inl (t, is_ok, w)) =
      subst (λ x. Ensures (Says bytes s) (gave os (some h) (plain_receiver state_file) x s))
        (sym is_ok) (chain_ok (Says bytes s) tt (record s { net = t }) w.sent_is)
  gave-Says bytes r s (inr failed) =
      subst (λ x. Ensures (Says bytes s) (gave os (some h) (plain_receiver state_file) x s))
        (sym failed) (chain_err (Says bytes s) _ s)

  send_packet-Says :
      (p : Packet) (s : Side State)
      → Ensures (Says (Codec.encode p) s) (send_packet os (some h) (plain_receiver state_file) p s)
  unfolding send_packet write_packet
  send_packet-Says p s = gave-Says (Codec.encode p) _ s (write_all_lem os h (Codec.encode p) s.net)

  create_directories-Silent :
      (ps : List Bytes) (s : Side State)
      → Ensures (Silent s) (create_directories os (some h) (plain_receiver state_file) ps s)
  unfolding create_directories
  create_directories-Silent ps s = of (make_directories s.can_make s.disk ps)
    where
      of : (d : Result Disk) → Ensures (Silent s) (made os (some h) (plain_receiver state_file) d s)
      of (ok d) = chain_ok (Silent s) tt _ refl
      of (err e) = chain_err (Silent s) e s

  module _ (info : FileInfo) (path : Bytes) (file_index file_count : ℕ) where
    uncut :
        (s : Side State)
        → Ensures
            (λ u t. t ≡ s)
            (cut_output os (some h) (plain_receiver state_file) info path file_index file_count 0 s)
    unfolding cut_output
    uncut s = chain_ok (λ u t. t ≡ s) tt s refl

    open_output-Says :
        (ps : List Bytes) (s : Side State)
        → Ensures (Says (Codec.encode (answer 0)) s) (
            open_output os
              (some h)
              (plain_receiver state_file)
              info
              path
              file_index
              file_count
              ps
              s)
    unfolding open_output
    open_output-Says ps s =
        let Q = Says {A = ℕ} (Codec.encode (answer 0)) s in
        chain_guard Q _ _ s _ λ free.
          chain_then (Silent s) Q _ _ (create_directories-Silent ps s) λ u r made.
            chain_then (λ n t. (n ≡ 0) × (t ≡ r)) Q (ok 0, r) _
              (chain_ok (λ n t. (n ≡ 0) × (t ≡ r)) 0 r (refl, refl))
              λ n t (n_is, t_is).
                rw (n_is, t_is)
                  (chain_then (Says (Codec.encode (answer 0)) r) Q _ _
                    (send_packet-Says (answer 0) r)
                    λ u v said.
                      chain_then (λ u w. w ≡ v) Q _ _ (uncut v)
                        λ u w w_is. chain_guard Q _ _ w _ λ opened. chain_ok Q 0 _ (
                          ap (λ (x : Side State). sent x.net) w_is
                          ∙ said
                          ∙ ap (λ b. b ++ Codec.encode (answer 0)) made))

    take_data-Silent :
        (payload : Bytes) (received : ℕ) (s : Side State)
        → Ensures (Silent s) (
            take_data os
              (some h)
              (plain_receiver state_file)
              info
              path
              file_index
              file_count
              payload
              received
              s)
    unfolding take_data report
    take_data-Silent payload received s = chain_guard (Silent s) _ _ s _ λ fits.
        chain_guard (Silent s) _ _ s _ λ written.
          chain_then (Silent s) (Silent s) _ _ (chain_ok (Silent s) tt _ refl)
            λ u t same. chain_ok (Silent s) _ _ same

    receive_data-Silent :
        (fuel received : ℕ) (s : Side State)
        → Ensures (Silent s) (
            receive_data os
              (some h)
              (plain_receiver state_file)
              info
              path
              file_index
              file_count
              fuel
              received
              s)
    unfolding receive_data
    receive_data-Silent zero received s = chain_err (Silent s) _ s
    receive_data-Silent (suc fuel) received s =
        chain_then (Silent s) (Silent s) _ _ (next_packet-Silent s) λ p t same.
          chain_if (Silent s) _ _ _ (chain_ok (Silent s) _ t same) (
            chain_if (Silent s) _ _ _ (chain_err (Silent s) _ t) (
              chain_then (Silent t) (Silent s) _ _ (take_data-Silent p.payload received t)
                λ n u same'.
                  chain_mono (Silent u) (Silent s) _ (λ m v same''. same'' ∙ same' ∙ same)
                    (receive_data-Silent fuel n u)))

    finish_file-Silent :
        (received : ℕ) (s : Side State)
        → Ensures (Silent s) (
            finish_file os
              (some h)
              (plain_receiver state_file)
              info
              path
              file_index
              file_count
              received
              s)
    unfolding finish_file report
    finish_file-Silent received s = chain_guard (Silent s) _ _ s _ λ closed.
        chain_guard (Silent s) _ _ s _ λ size. chain_result (Silent s) _ s _ λ hash hashed.
          chain_guard (Silent s) _ _ s _ λ right.
            chain_then (Silent s) (Silent s) _ _ (chain_ok (Silent s) tt s refl)
              λ u t same. chain_ok (Silent s) tt _ same

  receive_info-Silent :
      (s : Side State) → Ensures (Silent s) (receive_info os (some h) (plain_receiver state_file) s)
  unfolding receive_info
  receive_info-Silent s =
      chain_then (Silent s) (Silent s) _ _ (next_packet-Silent s) λ p t same.
        chain_guard (Silent s) _ _ t _ λ right. decoded (FileInfo.decode p.payload) t same
    where
      decoded :
          (r : Result FileInfo) (t : Side State)
          → sent t.net ≡ sent s.net
          → Ensures (Silent s) (r, t)
      decoded (ok info) t same = chain_ok (Silent s) info t same
      decoded (err e) t same = chain_err (Silent s) e t

  receive_one_file-Says :
      (save_dir : Bytes) (index count : ℕ) (s : Side State)
      → Ensures
          (Says (Codec.encode (answer 0)) s)
          (receive_one_file os (some h) (plain_receiver state_file) save_dir index count s)
  unfolding receive_one_file
  receive_one_file-Says save_dir index count s =
      let Q = Says {A = Unit {0}} (Codec.encode (answer 0)) s in
      chain_then (Silent s) Q _ _ (receive_info-Silent s) λ info t same.
        chain_result Q _ t _ λ output_path joined.
          let path = place output_path in
          chain_then (Says (Codec.encode (answer 0)) t) Q _ _
            (open_output-Says info path index count (above output_path) t)
            λ offset u said.
              chain_then (Silent u) Q _ _ (receive_data-Silent info path index count _ offset u)
                λ received v same'.
                  chain_mono (Silent v) Q _
                    (λ x w same''.
                      same'' ∙ same' ∙ said ∙ ap (λ x. x ++ Codec.encode (answer 0)) same)
                    (finish_file-Silent info path index count received v)

  receive_files-Says :
      (save_dir : Bytes) (n index count : ℕ) (s : Side State)
      → Ensures
          (Says (replies n) s)
          (receive_files os (some h) (plain_receiver state_file) save_dir n index count s)
  unfolding receive_files
  receive_files-Says save_dir zero index count s =
      chain_ok (Says (replies zero) s) tt s (sym (append-nil (sent s.net)))
  receive_files-Says save_dir (suc n) index count s =
      chain_then (Says (Codec.encode (answer 0)) s) (Says (replies (suc n)) s) _ _
        (receive_one_file-Says save_dir (index + 1) count s)
        λ u t said.
          chain_mono (Says (replies n) t) (Says (replies (suc n)) s) _
            (λ x v said'. Says-trans (Codec.encode (answer 0)) (replies n) s t v said said')
            (receive_files-Says save_dir n (index + 1) count t)

  receive_one_directory-Silent :
      (save_dir : Bytes) (s : Side State)
      → Ensures
          (Silent s)
          (receive_one_directory os (some h) (plain_receiver state_file) save_dir s)
  unfolding receive_one_directory
  receive_one_directory-Silent save_dir s =
      chain_then (Silent s) (Silent s) _ _ (next_packet-Silent s) λ p t same.
        chain_guard (Silent s) _ _ t _ λ right.
          chain_result (Silent s) _ t _ λ relative_path decoded.
            chain_result (Silent s) _ t _ λ path joined. chain_guard (Silent s) _ _ t _ λ free.
              chain_mono (Silent t) (Silent s) _ (λ u v made. made ∙ same)
                (create_directories-Silent (along path) t)

  receive_directories-Silent :
      (save_dir : Bytes) (n : ℕ) (s : Side State)
      → Ensures
          (Silent s)
          (receive_directories os (some h) (plain_receiver state_file) save_dir n s)
  unfolding receive_directories
  receive_directories-Silent save_dir zero s = chain_ok (Silent s) tt s refl
  receive_directories-Silent save_dir (suc n) s =
      chain_then (Silent s) (Silent s) _ _ (receive_one_directory-Silent save_dir s) λ u t same.
        chain_mono (Silent t) (Silent s) _ (λ x v same'. same' ∙ same)
          (receive_directories-Silent save_dir n t)

  pub receive_task-Says :
      (save_dir : Bytes) (file_count directory_count : ℕ) (s : Side State)
      → Ensures (Says (replies file_count) s) (
          receive_task os
            (some h)
            (plain_receiver state_file)
            save_dir
            file_count
            directory_count
            s)
  unfolding receive_task report_task
  receive_task-Says save_dir file_count directory_count s =
      let Q = Says {A = Unit {0}} (replies file_count) s in
      chain_then (Silent s) Q _ _ (receive_directories-Silent save_dir directory_count _)
        λ u t same.
          chain_then (Says (replies file_count) t) Q _ _
            (receive_files-Says save_dir file_count 0 file_count t)
            λ u v said. chain_ok Q tt _ (said ∙ ap (λ x. x ++ replies file_count) same)
