-- ===== src/Transfer/Receiver/Whole.antt =====
-- `Receiver::receive_one_file` on what a sender puts on the wire for a file: the file is whole at the
-- end, unless a call of the system on the connection fails.
use mathlib.Core.Path.{subst}
use beam_drop.Prelude.{
  ℕ, suc, ◌≤◌, ◌≡◌, ap, sym, ◌∙◌, some, List, [], ◌++◌, arith, Bytes, length, take, drop,
  length-take, take-append-drop,
}
use beam_drop.Errors.{ok}
use beam_drop.Network.{Os}
use beam_drop.Protocol.{make_packet, file_end}
use beam_drop.Protocol.Codec
use beam_drop.Payload.FileInfo.{FileInfo}
use beam_drop.Transfer.Chain.{Yields, total_result, total_then, total_both, total_mono}
use beam_drop.Transfer.Disk.{file}
use beam_drop.Transfer.Path.{place, above, safe_join}
use beam_drop.Transfer.Wire.{wire, concat}
use beam_drop.Transfer.Receiver.{Side, Receiver, receive_data, receive_one_file}
use beam_drop.Transfer.Receiver.Frame.{
  Elsewhere, Elsewhere-trans, Elsewhere-same, open_output-Keeps, receive_data-Keeps,
  finish_file-Keeps,
}
use beam_drop.Transfer.Receiver.Total.{IsBroken, Works, receive_data_step}
use beam_drop.Transfer.Receiver.Steps.{
  Begins, offset-le, IsWhole, open_output_step, finish_file_step, arriving, Honest,
  receive_info_step,
}

module _ (os : Os) (h : ℕ) (receiver : Receiver) where
  open os use {State, pending}

  -- The receiver in front of such a file: nothing fails but the connection, and the place that the
  -- path stands for is where it begins.
  pub record Meets (save_dir path : Bytes) (info : FileInfo) (content : Bytes) (offset : ℕ)
      (s : Side State) : Type 0 where
    pub honest : Honest os h receiver info content
    pub works : Works os h receiver s
    pub safe : safe_join save_dir info.relative_path ≡ ok path
    pub begins : Begins os h receiver info (above path) (place path) content offset s

  pub receive_one_file-IsWhole :
      (save_dir path : Bytes) (info : FileInfo) (content : Bytes) (offset : ℕ) (chunks : List Bytes)
      (behind : Bytes) (file_index file_count : ℕ) (s : Side State)
      → Meets save_dir path info content offset s
      → concat chunks ≡ drop offset content
      → pending s.net ≡ arriving os h receiver info chunks behind
      → Yields IsBroken
          (λ u t.
            IsWhole os h receiver (place path) content behind t
            × Elsewhere receiver (above path) (place path) s.disk t.disk)
          (receive_one_file os (some h) receiver save_dir file_index file_count s)
  unfolding receive_one_file
  receive_one_file-IsWhole save_dir path info content offset chunks behind file_index file_count s m
        rest stream =
      let Q = λ (u : Unit {0}) (t : Side State).
        IsWhole os h receiver (place path) content behind t
        × Elsewhere receiver (above path) (place path) s.disk t.disk in
      let at = place path in
      let trans = Elsewhere-trans os (some h) receiver info (above path) at file_index file_count in
      let same = Elsewhere-same os (some h) receiver info (above path) at file_index file_count in
      let fits =
        offset-le os h receiver info (above path) (place path) content offset s m.begins
          m.honest.announces.size_is in
      let parts = wire chunks ++ (Codec.encode (make_packet file_end []) ++ behind) in
      total_then IsBroken Q _ _ _
        (receive_info_step os h receiver info content parts s m.honest stream m.works)
        λ i t (i_is, left, works, x, t_is). rw i_is (
          total_result IsBroken Q _ path t _ m.safe (
            total_then IsBroken Q _ _ _
              (total_both IsBroken _ _ _
                (open_output_step os h receiver info at content file_index file_count offset
                  (above path) t
                  (subst (λ t. Begins os h receiver info (above path) at content offset t)
                    (sym t_is) (begins_at x))
                  works)
                (open_output-Keeps os (some h) receiver info (above path) at file_index file_count
                  t))
              λ n v ((n_is, held, works', kept), apart). rw n_is (
                total_then IsBroken Q _ _ _
                  (total_both IsBroken _ _ _
                    (receive_data_at offset v fits rest works' held (kept ∙ left))
                    (receive_data-Keeps os (some h) receiver info (above path) at file_index
                      file_count _ offset v))
                  λ n w ((n_is, held, works, left), apart'). rw n_is (
                    total_mono IsBroken _ Q _
                      (λ u z (whole, apart''). (
                        whole,
                        trans s.disk t.disk z.disk
                            (same s.disk t.disk (ap (λ (t : Side State). t.disk) t_is))
                            (trans t.disk v.disk z.disk apart
                              (trans v.disk w.disk z.disk apart' apart'')),
                      ))
                      (total_both IsBroken _ _ _
                        (finish_file_step os h receiver info at content file_index file_count behind
                          w m.begins.spares m.honest.announces.size_is m.honest.hash_is held works
                          left)
                        (finish_file-Keeps os (some h) receiver info (above path) at file_index
                          file_count (length content) w))))))
    where
      begins_at :
          (x : State)
          → Begins os h receiver info
              (above path)
              (place path)
              content
              offset
              (record s { net = x })
      begins_at x = record {
        open_ways = m.begins.open_ways;
        target_apart = m.begins.target_apart;
        state_apart = m.begins.state_apart;
        spares = m.begins.spares;
        no_directory = m.begins.no_directory;
        free = m.begins.free;
        trusted = m.begins.trusted;
        from_start = m.begins.from_start;
        same_start = m.begins.same_start;
      }

      receive_data_at :
          (offset : ℕ) (v : Side State)
          → offset ≤ length content
          → concat chunks ≡ drop offset content
          → Works os h receiver v
          → v.disk (place path) ≡ some (file (take offset content))
          → pending v.net ≡ wire chunks ++ (Codec.encode (make_packet file_end []) ++ behind)
          → Yields IsBroken
              (λ n t.
                (n ≡ length content)
                × (t.disk (place path) ≡ some (file content))
                × Works os h receiver t
                × (pending t.net ≡ behind))
              (receive_data os
                (some h)
                receiver
                info
                (place path)
                file_index
                file_count
                (suc (length (pending v.net)))
                offset
                v)
      receive_data_at offset v le rest w held stream =
          let start : length (take offset content) ≡ offset =
            omega (arith, length-take offset content) in
          subst
            (λ o.
              Yields IsBroken
                (λ n t.
                  (n ≡ length content)
                  × (t.disk (place path) ≡ some (file content))
                  × Works os h receiver t
                  × (pending t.net ≡ behind))
                (receive_data os (some h) receiver info (place path) file_index file_count
                  (suc (length (pending v.net))) o v))
            start
            (receive_data_step os h receiver info (place path) content file_index file_count
              m.honest.announces m.begins.spares chunks (take offset content) behind
              (suc (length (pending v.net))) v
              (ap (λ r. take offset content ++ r) rest ∙ take-append-drop offset content) held w
              stream (omega arith))
