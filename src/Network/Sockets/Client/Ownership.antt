-- ===== src/Network/Sockets/Client/Ownership.antt =====
-- What a connect leaves open.
use beam_drop.Prelude.{
  ℕ, suc, ◌≡◌, refl, sym, ap, ◌∙◌, ◌||◌, Option, none, some, List, [], ◌∷◌, Bytes, ◌==◌,
}
use beam_drop.Text.{decimal}
use beam_drop.Network.Sockets.{Sockets, Gains, c_str}
use beam_drop.Network.Sockets.Opened.{
  Keeps, Owns, Keeps-refl, Keeps-trans, Adds-Keeps, Keeps-Adds, close-Keeps, on_handle-cases,
  on_success-cases,
}
use beam_drop.Network.Sockets.Client.{
  try_address, or_else, first_connected, finished, resolved, connect,
}

module _ (os : Sockets) where
  open os use {State, Address, is_open, unfreed}

  abbrev Won : State → Option ℕ × State → Type 0
  Won s r = Gains is_open unfreed s r

  try_address-Won : (item : Address) (s : State) → Won s (try_address os item s)
  unfolding try_address
  try_address-Won item s =
      on_handle-cases os (λ r. Won s r) s (os.socket (os.kind_of item) s) _ _
        (os.socket_gains (os.kind_of item) s) (λ t kept. kept)
        λ h t opened.
          on_success-cases os (λ r. Won s r) t (os.connect h item t) _ _ (os.connect_same h item t)
            (λ u kept. close-Keeps os h s u (Adds-Keeps os h s t u opened kept))
            λ u kept. Adds-Keeps os h s t u opened kept

  Won-trans : (s t : State) (r : Option ℕ × State) → Keeps os s t → Won t r → Won s r
  Won-trans s t (none, u) a b = Keeps-trans os s t u a b
  Won-trans s t (some h, u) a b = Keeps-Adds os h s t u a b

  or_else-Won :
      (s : State) (r : Option ℕ × State) (rest : State → Option ℕ × State)
      → Won s r
      → ((t : State) → Won t (rest t))
      → Won s (or_else os r rest)
  or_else-Won s (none, t) rest a b = Won-trans s t (rest t) a (b t)
  or_else-Won s (some h, t) rest a b = a

  first_connected-Won : (items : List Address) (s : State) → Won s (first_connected os items s)
  unfolding first_connected
  first_connected-Won [] s = Keeps-refl os s
  first_connected-Won (item ∷ items) s =
      or_else-Won s _ _ (try_address-Won item s) λ t. first_connected-Won items t

  -- The list that `getaddrinfo` gave is given back.
  finished-Owns :
      (host : Bytes) (port : ℕ) (s t : State) (r : Option ℕ × State)
      → ((k : ℕ) → is_open t k ≡ is_open s k)
      → unfreed t ≡ suc (unfreed s)
      → Won t r
      → Owns os s (finished os host port r)
  finished-Owns host port s t (none, u) open_same one_more a = record {
    open_same = λ k. os.free_open u k ∙ a.open_same k ∙ open_same k;
    unfreed_same = os.free_unfreed u (unfreed s) (a.unfreed_same ∙ one_more);
  }
  finished-Owns host port s t (some h, u) open_same one_more a = record {
    fresh = sym (open_same h) ∙ a.fresh;
    open_plus = λ k. os.free_open u k ∙ a.open_plus k ∙ ap (λ o. k == h || o) (open_same k);
    unfreed_plus = os.free_unfreed u (unfreed s) (a.unfreed_plus ∙ one_more);
  }

  pub connect-Owns : (host : Bytes) (port : ℕ) (s : State) → Owns os s (connect os host port s)
  unfolding connect
  connect-Owns host port s =
      go (os.getaddrinfo (c_str host) (decimal port) os.tcp_v4 s)
        (os.resolve_open (c_str host) (decimal port) os.tcp_v4 s)
        (os.resolve_some (c_str host) (decimal port) os.tcp_v4 s)
        (os.resolve_none (c_str host) (decimal port) os.tcp_v4 s)
    where
      go :
          (r : Option (List Address) × State)
          → ((k : ℕ) → is_open r.1 k ≡ is_open s k)
          → ((list : List Address) (t : State) → r ≡ (some list, t) → unfreed t ≡ suc (unfreed s))
          → ((t : State) → r ≡ (none, t) → unfreed t ≡ unfreed s)
          → Owns os s (resolved os host port r)
      go (none, t) open_same more less = record {
        open_same = open_same;
        unfreed_same = less t refl;
      }
      go (some items, t) open_same more less =
          finished-Owns host port s t (first_connected os items t) open_same (more items t refl)
            (first_connected-Won items t)
