-- ===== src/Network/Sockets/Opened.antt =====
-- How the calls of the system change what the process holds.
use beam_drop.Prelude.{
  ℕ, ◌≡◌, refl, sym, ap, ◌∙◌, Bool, true, false, not, ◌&&◌, ◌||◌, eq_of_==, Option, none, some,
  ◌==◌,
}
use beam_drop.Network.Sockets.{
  Attempt, returned, threw, Sockets, Same, Plus, Gains, on_handle, on_success,
}

pub taken_away : (b o : Bool) → (b ≡ true → o ≡ false) → (not b && (b || o)) ≡ o
taken_away true o h = sym (h refl)
taken_away false o h = refl

module _ (os : Sockets) where
  open os use {State, is_open, unfreed}

  abbrev pub Keeps : State → State → Type 0
  Keeps s t = Same is_open unfreed s t

  abbrev pub Adds : ℕ → State → State → Type 0
  Adds h s t = Plus is_open unfreed h s t

  -- What a call that gives a handle or throws has opened.
  abbrev pub Owns : State → Attempt ℕ × State → Type 0
  Owns s (returned h, t) = Adds h s t
  Owns s (threw e, t) = Keeps s t

  pub Keeps-refl : (s : State) → Keeps s s
  Keeps-refl s = record { open_same = λ k. refl; unfreed_same = refl }

  pub Keeps-trans : (s t u : State) → Keeps s t → Keeps t u → Keeps s u
  Keeps-trans s t u a b = record {
    open_same = λ k. b.open_same k ∙ a.open_same k;
    unfreed_same = b.unfreed_same ∙ a.unfreed_same;
  }

  pub Adds-Keeps : (h : ℕ) (s t u : State) → Adds h s t → Keeps t u → Adds h s u
  Adds-Keeps h s t u a b = record {
    fresh = a.fresh;
    open_plus = λ k. b.open_same k ∙ a.open_plus k;
    unfreed_plus = b.unfreed_same ∙ a.unfreed_plus;
  }

  pub Keeps-Adds : (h : ℕ) (s t u : State) → Keeps s t → Adds h t u → Adds h s u
  Keeps-Adds h s t u a b = record {
    fresh = sym (a.open_same h) ∙ b.fresh;
    open_plus = λ k. b.open_plus k ∙ ap (λ o. k == h || o) (a.open_same k);
    unfreed_plus = b.unfreed_plus ∙ a.unfreed_same;
  }

  -- A handle that was opened and closed again has left nothing.
  pub close-Keeps : (h : ℕ) (s t : State) → Adds h s t → Keeps s (os.close h t)
  close-Keeps h s t a = record {
    open_same = λ k.
        os.close_open h t k
        ∙ ap (λ o. not (k == h) && o) (a.open_plus k)
        ∙ taken_away (k == h) (is_open s k) (λ e. ap (is_open s) (eq_of_== k h e) ∙ a.fresh);
    unfreed_same = os.close_unfreed h t ∙ a.unfreed_plus;
  }

  pub on_handle-cases :
      {A : Type 0} (P : A → Type 0) (s : State) (r : Option ℕ × State) (failed : State → A)
      (rest : ℕ → State → A)
      → Gains is_open unfreed s r
      → ((t : State) → Keeps s t → P (failed t))
      → ((h : ℕ) (t : State) → Adds h s t → P (rest h t))
      → P (on_handle os r failed rest)
  on_handle-cases P s (none, t) failed rest g lost won = lost t g
  on_handle-cases P s (some h, t) failed rest g lost won = won h t g

  pub on_success-cases :
      {A : Type 0} (P : A → Type 0) (s : State) (r : Bool × State) (failed rest : State → A)
      → Keeps s r.1
      → ((t : State) → Keeps s t → P (failed t))
      → ((t : State) → Keeps s t → P (rest t))
      → P (on_success os r failed rest)
  on_success-cases P s (false, t) failed rest kept lost won = lost t kept
  on_success-cases P s (true, t) failed rest kept lost won = won t kept
