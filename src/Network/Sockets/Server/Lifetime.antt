-- ===== src/Network/Sockets/Server/Lifetime.antt =====
-- Which handles a server has open, from its constructor on.
use mathlib.Core.Path.{subst}
use beam_drop.Prelude.{
  ℕ, ◌*◌, ◌/◌, ◌%◌, ◌≡◌, refl, sym, ap, ◌∙◌, Bool, true, false, not, ◌&&◌, ◌||◌, inl, inr,
  Bool-cases, eq_of_==, ◌⊎◌, Option, none, some, List, [], ◌∷◌, Bytes, ◌==◌,
}
use beam_drop.Errors.{NetworkCode}
use beam_drop.Network.Sockets.{
  Attempt, returned, threw, ℤ, pos, negsuc, Ready, timed_out, arrived, select_failed, Sockets,
  c_str,
}
use beam_drop.Network.Sockets.Opened.{
  Keeps, Adds, Owns, Keeps-refl, Keeps-trans, Adds-Keeps, Keeps-Adds, close-Keeps, taken_away,
  on_handle-cases, on_success-cases,
}
use beam_drop.Network.Sockets.Server.{
  give_up, bind_and_listen, open_server, accept_one, maybe, after_select, accept_one_for, close,
  ServerCall, accept_for, close_server, Life, accepting, closing, step, run,
}

module _ (os : Sockets) where
  open os use {State, is_open}

  give_up-Owns :
      (s : State) (h : ℕ) (code : NetworkCode) (operation : Bytes) (t : State)
      → Adds os h s t
      → Owns os s (give_up os h code operation t)
  unfolding give_up
  give_up-Owns s h code operation t a = close-Keeps os h s t a

  bind_and_listen-Owns :
      (host : Bytes) (port h : ℕ) (ip : Option os.Ip) (s t : State)
      → Adds os h s t
      → Owns os s (bind_and_listen os host port h ip t)
  unfolding bind_and_listen
  bind_and_listen-Owns host port h none s t a = close-Keeps os h s t a
  bind_and_listen-Owns host port h (some ip) s t a =
      let P = λ (o : Attempt ℕ × State). Owns os s o in
      on_success-cases os P t (os.bind h ip port t) _ _ (os.bind_same h ip port t)
        (λ u kept. give_up-Owns s h _ _ u (Adds-Keeps os h s t u a kept))
        λ u kept.
          on_success-cases os P u (os.listen h 8 u) _ _ (os.listen_same h 8 u)
            (λ v kept'.
              give_up-Owns s h _ _ v (Adds-Keeps os h s u v (Adds-Keeps os h s t u a kept) kept'))
            λ v kept'. Adds-Keeps os h s u v (Adds-Keeps os h s t u a kept) kept'

  -- A constructor that returns has opened one handle, the server's, which was not open before; and one
  -- that throws, at whichever call of the system, leaves no handle open behind it.
  pub open_server-Owns :
      (host : Bytes) (port : ℕ) (s : State) → Owns os s (open_server os host port s)
  unfolding open_server
  open_server-Owns host port s =
      let P = λ (o : Attempt ℕ × State). Owns os s o in
      on_handle-cases os P s (os.socket os.tcp_v4 s) _ _ (os.socket_gains os.tcp_v4 s)
        (λ t kept. kept)
        λ h t opened.
          on_success-cases os P t (os.reuse_address h t) _ _ (os.reuse_same h t)
            (λ u kept. give_up-Owns s h _ _ u (Adds-Keeps os h s t u opened kept))
            λ u kept.
              bind_and_listen-Owns host port h (os.inet_pton (c_str host)) s u
                (Adds-Keeps os h s t u opened kept)

  -- What `accept_one_for` has opened: the connection, if it gives one.
  abbrev OwnsMaybe : State → Attempt (Option ℕ) × State → Type 0
  OwnsMaybe s (returned (some h), t) = Adds os h s t
  OwnsMaybe s (returned none, t) = Keeps os s t
  OwnsMaybe s (threw e, t) = Keeps os s t

  accept_one-Owns : (listener : Option ℕ) (s : State) → Owns os s (accept_one os listener s)
  unfolding accept_one
  accept_one-Owns none s = Keeps-refl os s
  accept_one-Owns (some listener) s =
      on_handle-cases os (λ o. Owns os s o) s (os.accept listener s) _ _
        (os.accept_gains listener s) (λ t kept. kept) λ h t opened. opened

  maybe-Owns :
      (s t : State) (r : Attempt ℕ × State) → Keeps os s t → Owns os t r → OwnsMaybe s (maybe os r)
  maybe-Owns s t (returned h, u) kept a = Keeps-Adds os h s t u kept a
  maybe-Owns s t (threw e, u) kept a = Keeps-trans os s t u kept a

  after_select-Owns :
      (listener : ℕ) (s : State) (r : Ready × State)
      → Keeps os s r.1
      → OwnsMaybe s (after_select os listener r)
  after_select-Owns listener s (timed_out, t) kept = kept
  after_select-Owns listener s (select_failed, t) kept = kept
  after_select-Owns listener s (arrived, t) kept =
      maybe-Owns s t _ kept (accept_one-Owns (some listener) t)

  accept_one_for-Owns :
      (listener : Option ℕ) (timeout : ℤ) (s : State)
      → OwnsMaybe s (accept_one_for os listener timeout s)
  unfolding accept_one_for
  accept_one_for-Owns none timeout s = Keeps-refl os s
  accept_one_for-Owns (some listener) (negsuc n) s = Keeps-refl os s
  accept_one_for-Owns (some listener) (pos milliseconds) s =
      after_select-Owns listener s _
        (os.select_same listener (milliseconds / 1000) ((milliseconds % 1000) * 1000) s)

  abbrev pub holds : Option ℕ → ℕ → Bool
  holds none k = false
  holds (some h) k = k == h

  abbrev pub member : ℕ → List ℕ → Bool
  member k [] = false
  member k (h ∷ hs) = k == h || member k hs

  -- The open handles are the server's own, until it is closed, those of the connections that it gave,
  -- and those from before; and its own is none of the others.
  pub record Held (before : State) (w : Life os) : Type 0 where
    pub open_is :
        (k : ℕ)
        → is_open w.state k ≡ (holds w.listener k || (member k w.accepted || is_open before k))
    pub own :
        (k : ℕ) → holds w.listener k ≡ true → (member k w.accepted || is_open before k) ≡ false

  swap : (a l b c : Bool) → (a || (l || (b || c))) ≡ (l || ((a || b) || c))
  swap true true b c = refl
  swap true false b c = refl
  swap false l b c = refl

  -- A handle that was not open is not the server's.
  new_own :
      (before : State) (w : Life os) (h : ℕ)
      → Held before w
      → (holds w.listener h || (member h w.accepted || is_open before h)) ≡ false
      → (k : ℕ) → holds w.listener k ≡ true
      → ((k == h) ≡ true) ⊎ ((k == h) ≡ false)
      → ((k == h || member k w.accepted) || is_open before k) ≡ false
  new_own before w h i was k held (inl e) =
      let mine : holds w.listener h ≡ true = ap (holds w.listener) (sym (eq_of_== k h e)) ∙ held in
      absurd (cc (sym was ∙ ap (λ o. o || (member h w.accepted || is_open before h)) mine))
  new_own before w h i was k held (inr e) = rw e (i.own k held)

  accepting-Held :
      (before : State) (w : Life os) (r : Attempt (Option ℕ) × State)
      → Held before w
      → OwnsMaybe w.state r
      → Held before (accepting os w r)
  accepting-Held before w (returned (some h), t) i a = record {
    open_is = λ k.
        a.open_plus k
        ∙ ap (λ o. k == h || o) (i.open_is k)
        ∙ swap (k == h) (holds w.listener k) (member k w.accepted) (is_open before k);
    own = λ k held. new_own before w h i (sym (i.open_is h) ∙ a.fresh) k held (Bool-cases (k == h));
  }
  accepting-Held before w (returned none, t) i a = record {
    open_is = λ k. a.open_same k ∙ i.open_is k;
    own = i.own;
  }
  accepting-Held before w (threw e, t) i a = record {
    open_is = λ k. a.open_same k ∙ i.open_is k;
    own = i.own;
  }

  closing-Held :
      (before : State) (listener : Option ℕ) (accepted : List ℕ) (s : State)
      → Held before (record { listener = listener; accepted = accepted; state = s })
      → Held before (
          closing os
            (record { listener = listener; accepted = accepted; state = s })
            (close os listener s))
  unfolding close
  closing-Held before none accepted s i = i
  closing-Held before (some h) accepted s i = record {
    open_is = λ k.
        os.close_open h s k
        ∙ ap (λ o. not (k == h) && o) (i.open_is k)
        ∙ taken_away (k == h) (member k accepted || is_open before k) (i.own k);
    own = λ k held. absurd (cc held);
  }

  step-Held :
      (before : State) (w : Life os) (c : ServerCall os) → Held before w → Held before (step os w c)
  unfolding step
  step-Held before w (accept_for timeout) i =
      accepting-Held before w _ i (accept_one_for-Owns w.listener timeout w.state)
  step-Held before w close_server i = closing-Held before w.listener w.accepted w.state i

  run-keeps :
      (before : State) (w : Life os) (calls : List (ServerCall os))
      → Held before w
      → Held before (run os w calls)
  unfolding run
  run-keeps before w [] i = i
  run-keeps before w (c ∷ cs) i = run-keeps before (step os w c) cs (step-Held before w c i)

  -- After a constructor that returned, and any sequence of calls of `accept_one_for` and `close`, the
  -- open handles are the server's own, until it is closed, those of the connections that it gave, and
  -- those that were open before the constructor; and its own handle is none of the others.
  pub run-Held :
      (host : Bytes) (port h : ℕ) (s t : State) (calls : List (ServerCall os))
      → open_server os host port s ≡ (returned h, t)
      → Held s (run os (record { listener = some h; accepted = []; state = t }) calls)
  run-Held host port h s t calls e =
      let a : Adds os h s t = subst (λ r. Owns os s r) e (open_server-Owns host port s) in
      run-keeps s _ calls (record {
        open_is = a.open_plus;
        own = λ k held. ap (is_open s) (eq_of_== k h held) ∙ a.fresh;
      })
