-- ===== src/App/Receive/Answer.antt =====
-- What the result of `ReceiveService::receive` says.
use beam_drop.Prelude.{
  is_nil, ℕ, ◌≤◌, ◌≡◌, ◌≢◌, refl, ap, ◌∙◌, ◌++◌, Bool, true, false, not, ◌||◌, Option, some, arith,
  Bool-cases, inl, inr,
}
use beam_drop.Errors.{Exception, transfer, network, file_system, runtime, TransferCode}
use beam_drop.Network.{Os}
use beam_drop.Protocol.{hello, finish}
use beam_drop.Transfer.Chain.{Ensures, chain_then, chain_ok, chain_result, chain_any}
use beam_drop.Transfer.Receiver.{Side, is_type, next_packet, receive_task}
use beam_drop.Transfer.Receiver.Events.{next_packet-Quiet, task-Complete, Complete}
use beam_drop.App.{
  ErrorCode, protocol_error, cancelled, ServiceResult, success, failure, code_of, code_of_transfer,
}
use beam_drop.App.Receive.{
  ReceiveRequest, ReceiveResult, receiver_of, validate_receive_request, check_cancelled, refuse_if,
  receive_entries, try_receive, receive,
}
use beam_drop.App.Service.{unless_step, caught_step}

-- No exception becomes `Cancelled` here.
code_of_transfer-protocol : (c : TransferCode) → code_of_transfer protocol_error c ≢ cancelled
unfolding code_of_transfer
code_of_transfer-protocol c = ground arith

code_of-protocol : (e : Exception) → code_of protocol_error e ≢ cancelled
unfolding code_of
code_of-protocol (file_system c) h = cc h
code_of-protocol (network c) h = cc h
code_of-protocol (transfer c) h = code_of_transfer-protocol c h
code_of-protocol runtime h = cc h

module _ (os : Os) (handle : Option ℕ) (r : ReceiveRequest) (stops : ℕ → Bool) where
  open os use {State}

  -- A result that says `Cancelled` comes from a look at the stop token.
  abbrev Honest : {A : Type 0} → ServiceResult A → Side State → Type 0
  Honest (success a) t = Unit {0}
  Honest (failure c) t = c ≡ cancelled → (k : ℕ) × (k ≤ 2) × (stops k ≡ true)

  -- One look at the token.
  looked :
      (k : ℕ)
      → k ≤ 2
      → (c : ErrorCode) → check_cancelled (stops k) ≡ some c
      → (j : ℕ) × (j ≤ 2) × (stops j ≡ true)
  looked k le c e = elim (Bool-cases (stops k)) [
    | inl asked ↦ (k, le, asked)
    | inr going ↦ absurd (ground arith)
  ]

  not_refused :
      (b : Bool) (c : ErrorCode)
      → refuse_if b ≡ some c
      → c ≡ cancelled
      → (k : ℕ) × (k ≤ 2) × (stops k ≡ true)
  not_refused true c e is = absurd (cc (e, is))
  not_refused false c e is = absurd (cc e)

  not_invalid :
      (c : ErrorCode)
      → validate_receive_request r ≡ some c
      → c ≡ cancelled
      → (k : ℕ) × (k ≤ 2) × (stops k ≡ true)
  unfolding validate_receive_request
  not_invalid c e is = elim (Bool-cases (is_nil r.state_file || is_nil r.save_dir)) [
    | inl bad ↦ absurd (ground arith)
    | inr good ↦ absurd (ground arith)
  ]

  try_receive-Honest : (s : Side State) → Ensures Honest (try_receive os handle r stops s)
  unfolding try_receive receive_entries
  try_receive-Honest s =
      unless_step Honest (validate_receive_request r) _ s (λ c e. not_invalid c e)
        λ valid.
          unless_step Honest (check_cancelled (stops 0)) _ s (λ c e is. looked 0 (omega arith) c e)
            λ going.
              chain_then _ Honest _ _ (chain_any (next_packet os handle (receiver_of r) s))
                λ first_packet t u.
                  unless_step Honest (refuse_if (not (is_type first_packet hello))) _ t
                    (λ c e. not_refused _ c e)
                    λ greeted.
                      unless_step Honest (check_cancelled (stops 1)) _ t
                        (λ c e is. looked 1 (omega arith) c e)
                        λ going'. chain_result Honest _ t _ λ manifest decoded.
                          chain_then _ Honest _ _
                            (chain_any (
                              receive_task os handle (receiver_of r) r.save_dir manifest.file_count
                                manifest.directory_count t))
                            λ u v w.
                              unless_step Honest (check_cancelled (stops 2)) _ v
                                (λ c e is. looked 2 (omega arith) c e)
                                λ going''.
                                  chain_then _ Honest _ _
                                    (chain_any (next_packet os handle (receiver_of r) v))
                                    λ last_packet x y.
                                      unless_step Honest
                                        (refuse_if (not (is_type last_packet finish))) _ x
                                        (λ c e. not_refused _ c e)
                                        λ finished. chain_ok Honest _ x tt

  -- A receive that fails with `Cancelled` has seen the stop token set at one of its three looks.
  pub receive-cancelled :
      (s t : Side State)
      → receive os handle r stops s ≡ (failure cancelled, t)
      → (k : ℕ) × (k ≤ 2) × (stops k ≡ true)
  unfolding receive
  receive-cancelled s t e =
      caught_step Honest protocol_error (try_receive os handle r stops s) (failure cancelled) t
        (try_receive-Honest s) (λ x u is. absurd (code_of-protocol x is)) e refl

  -- A result that says how many files were received.
  abbrev pub Counted : Side State → ServiceResult ReceiveResult → Side State → Type 0
  Counted s (success result) t = Complete os handle (receiver_of r) result.file_count s tt t
  Counted s (failure c) t = Unit {0}

  next_packet_events :
      (s : Side State)
      → Ensures (λ p t. t.events ≡ s.events) (next_packet os handle (receiver_of r) s)
  next_packet_events s = next_packet-Quiet os handle (receiver_of r) s

  try_receive-Counted : (s : Side State) → Ensures (Counted s) (try_receive os handle r stops s)
  unfolding try_receive receive_entries
  try_receive-Counted s =
      unless_step (Counted s) (validate_receive_request r) _ s (λ c e. tt)
        λ valid.
          unless_step (Counted s) (check_cancelled (stops 0)) _ s (λ c e. tt)
            λ going. chain_then _ (Counted s) _ _ (next_packet_events s) λ first_packet t same.
              unless_step (Counted s) (refuse_if (not (is_type first_packet hello))) _ t (λ c e. tt)
                λ greeted.
                  unless_step (Counted s) (check_cancelled (stops 1)) _ t (λ c e. tt)
                    λ going'. chain_result (Counted s) _ t _ λ manifest decoded.
                      chain_then _ (Counted s) _ _
                        (task-Complete os handle (receiver_of r) r.save_dir manifest.file_count
                          manifest.directory_count t)
                        λ u v (es, task, reports).
                          unless_step (Counted s) (check_cancelled (stops 2)) _ v (λ c e. tt)
                            λ going''.
                              chain_then _ (Counted s) _ _ (next_packet_events v)
                                λ last_packet x same'.
                                  unless_step (Counted s)
                                    (refuse_if (not (is_type last_packet finish))) _ x (λ c e. tt)
                                    λ finished.
                                      chain_ok (Counted s) _ x
                                        (es, task, same' ∙ reports ∙ ap (λ l. l ++ es) same)

  -- A receive that succeeds with so many files has reported a task of that many files, from its start
  -- to its end.
  pub receive-Counted :
      (result : ReceiveResult) (s t : Side State)
      → receive os handle r stops s ≡ (success result, t)
      → Complete os handle (receiver_of r) result.file_count s tt t
  unfolding receive
  receive-Counted result s t e =
      caught_step (Counted s) protocol_error (try_receive os handle r stops s) (success result) t
        (try_receive-Counted s) (λ x u. tt) e
