-- ===== src/App/Receive/Replies.antt =====
-- What `ReceiveService::receive` sends, without resume.
use beam_drop.Prelude.{ℕ, ◌≡◌, ap, ◌∙◌, Bool, not, some, ◌++◌, Bytes}
use beam_drop.Network.{Os}
use beam_drop.Protocol.{hello, finish}
use beam_drop.Transfer.Chain.{Ensures, chain_then, chain_ok, chain_result}
use beam_drop.Transfer.Receiver.{Side, is_type}
use beam_drop.Transfer.Task.{replies}
use beam_drop.Transfer.Task.Answers.{next_packet-Silent, receive_task-Says}
use beam_drop.App.{protocol_error, ServiceResult, success, failure}
use beam_drop.App.Receive.{
  ReceiveRequest, ReceiveResult, without_resume, validate_receive_request, check_cancelled,
  refuse_if, receive_entries, try_receive, receive,
}
use beam_drop.App.Service.{unless_step, caught_step}

module _ (os : Os) (h : ℕ) (state_file save_dir : Bytes) (stops : ℕ → Bool) where
  open os use {State, sent}

  abbrev request : ReceiveRequest
  request = without_resume state_file save_dir

  abbrev Replied : Side State → ServiceResult ReceiveResult → Side State → Type 0
  Replied s (success result) t = sent t.net ≡ sent s.net ++ replies result.file_count
  Replied s (failure c) t = Unit {0}

  try_receive-Replied :
      (s : Side State) → Ensures (Replied s) (try_receive os (some h) request stops s)
  unfolding try_receive receive_entries
  try_receive-Replied s =
      unless_step (Replied s) (validate_receive_request request) _ s (λ c e. tt)
        λ valid.
          unless_step (Replied s) (check_cancelled (stops 0)) _ s (λ c e. tt)
            λ going.
              chain_then _ (Replied s) _ _ (next_packet-Silent os h state_file s)
                λ first_packet t same.
                  unless_step (Replied s) (refuse_if (not (is_type first_packet hello))) _ t
                    (λ c e. tt)
                    λ greeted.
                      unless_step (Replied s) (check_cancelled (stops 1)) _ t (λ c e. tt)
                        λ going'. chain_result (Replied s) _ t _ λ manifest decoded.
                          chain_then _ (Replied s) _ _
                            (receive_task-Says os h state_file save_dir manifest.file_count
                              manifest.directory_count t)
                            λ u v said.
                              unless_step (Replied s) (check_cancelled (stops 2)) _ v (λ c e. tt)
                                λ going''.
                                  chain_then _ (Replied s) _ _
                                    (next_packet-Silent os h state_file v)
                                    λ last_packet x same'.
                                      unless_step (Replied s)
                                        (refuse_if (not (is_type last_packet finish))) _ x
                                        (λ c e. tt)
                                        λ finished.
                                          chain_ok (Replied s)
                                            (success (record { file_count = manifest.file_count }))
                                            x
                                            (same'
                                              ∙ said
                                              ∙ ap (λ b. b ++ replies manifest.file_count) same)

  -- A receive without resume that succeeds with a number of files has sent that many acknowledgements
  -- of the offset 0, one after another, and nothing else.
  pub receive-replies :
      (result : ReceiveResult) (s t : Side State)
      → receive os (some h) (without_resume state_file save_dir) stops s ≡ (success result, t)
      → sent t.net ≡ sent s.net ++ replies result.file_count
  unfolding receive
  receive-replies result s t e =
      caught_step (Replied s) protocol_error (try_receive os (some h) request stops s)
        (success result) t (try_receive-Replied s) (λ x u. tt) e
