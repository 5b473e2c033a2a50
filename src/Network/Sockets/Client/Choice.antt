-- ===== src/Network/Sockets/Client/Choice.antt =====
-- Which address a connect takes, and when it fails.
use beam_drop.Prelude.{
  ℕ, ◌≡◌, ◌⊎◌, inl, inr, refl, ap, Bool, true, false, Option, none, some, List, [], ◌∷◌, ◌++◌,
  Bytes,
}
use beam_drop.Errors.{address_resolution_failed, connect_failed}
use beam_drop.Text.{decimal}
use beam_drop.Network.Sockets.{Attempt, returned, threw, Sockets, c_str, on_handle, on_success}
use beam_drop.Network.Sockets.Opened.{Owns}
use beam_drop.Network.Sockets.Client.Ownership.{connect-Owns}
use beam_drop.Network.Sockets.Client.{
  try_address, or_else, first_connected, finished, resolution_error, resolved, connect,
}

module _ (os : Sockets) where
  open os use {State, Address}

  -- None of these addresses takes a connection, one after another.
  pub data Refused : List Address → State → State → Type 0 where
    no_more : {s : State} → Refused [] s s
    refused :
        {item : Address} {items : List Address} {s t u : State}
        → try_address os item s ≡ (none, t)
        → Refused items t u
        → Refused (item ∷ items) s u

  -- The first address that takes one.
  pub record Chosen (items : List Address) (s : State) (h : ℕ) (t : State) : Type 0 where
    pub front : List Address
    pub item : Address
    pub back : List Address
    pub items_are : items ≡ front ++ item ∷ back
    pub reached : State
    pub refusals : Refused front s reached
    pub opened : State
    pub socket_is : os.socket (os.kind_of item) reached ≡ (some h, opened)
    pub connect_is : os.connect h item opened ≡ (true, t)

  -- What the loop over the addresses ends with.
  abbrev Loops : List Address → State → Option ℕ × State → Type 0
  Loops items s (none, t) = Refused items s t
  Loops items s (some h, t) = Chosen items s h t

  abbrev Tries : Address → State → Option ℕ × State → Type 0
  Tries item s (none, t) = Unit {0}
  Tries item s (some h, t) =
      (u : State) × ((os.socket (os.kind_of item) s ≡ (some h, u))
        × (os.connect h item u ≡ (true, t)))

  try_connect :
      (item : Address) (s : State) (h : ℕ) (u : State) (r : Bool × State)
      → os.socket (os.kind_of item) s ≡ (some h, u)
      → os.connect h item u ≡ r
      → Tries item s (on_success os r (λ t. (none, os.close h t)) λ t. (some h, t))
  try_connect item s h u (false, t) e f = tt
  try_connect item s h u (true, t) e f = (u, (e, f))

  try_socket :
      (item : Address) (s : State) (r : Option ℕ × State)
      → os.socket (os.kind_of item) s ≡ r
      → Tries item s (
          on_handle os r
            (λ t. (none, t))
            λ h t. on_success os (os.connect h item t) (λ t. (none, os.close h t)) λ t. (some h, t))
  try_socket item s (none, t) e = tt
  try_socket item s (some h, u) e = try_connect item s h u _ e refl

  try_address-Tries : (item : Address) (s : State) → Tries item s (try_address os item s)
  unfolding try_address
  try_address-Tries item s = try_socket item s _ refl

  later :
      (item : Address) (items : List Address) (s t : State) (r : Option ℕ × State)
      → try_address os item s ≡ (none, t)
      → Loops items t r
      → Loops (item ∷ items) s r
  later item items s t (none, u) e l = refused e l
  later item items s t (some h, u) e l = record {
    front = item ∷ l.front;
    item = l.item;
    back = l.back;
    items_are = ap (λ r. item ∷ r) l.items_are;
    reached = l.reached;
    refusals = refused e l.refusals;
    opened = l.opened;
    socket_is = l.socket_is;
    connect_is = l.connect_is;
  }

  or_else-Loops :
      (item : Address) (items : List Address) (s : State) (r : Option ℕ × State)
      (rest : State → Option ℕ × State)
      → try_address os item s ≡ r
      → Tries item s r
      → ((t : State) → Loops items t (rest t))
      → Loops (item ∷ items) s (or_else os r rest)
  or_else-Loops item items s (none, t) rest e tries loops =
      later item items s t (rest t) e (loops t)
  or_else-Loops item items s (some h, t) rest e (u, (socket_is, connect_is)) loops = record {
    front = [];
    item = item;
    back = items;
    items_are = refl;
    reached = s;
    refusals = no_more;
    opened = u;
    socket_is = socket_is;
    connect_is = connect_is;
  }

  first_connected-Loops :
      (items : List Address) (s : State) → Loops items s (first_connected os items s)
  unfolding first_connected
  first_connected-Loops [] s = no_more
  first_connected-Loops (item ∷ items) s =
      or_else-Loops item items s _ _ refl (try_address-Tries item s)
        λ t. first_connected-Loops items t

  -- What `connect` promises: the handle of the first address that takes a connection, or the error of
  -- a name without addresses, or that of addresses that all refuse.
  abbrev pub Connects : Bytes → ℕ → State → Attempt ℕ × State → Type 0
  Connects host port s (returned h, t) =
      (items : List Address) × (s1 : State) × (u : State) × (os.getaddrinfo (c_str host)
          (decimal port) os.tcp_v4 s
        ≡ (some items, s1))
      × Chosen items s1 h u
      × (t ≡ os.freeaddrinfo u)
  Connects host port s (threw e, t) =
      ((os.getaddrinfo (c_str host) (decimal port) os.tcp_v4 s ≡ (none, t))
        × (e.code ≡ address_resolution_failed))
      ⊎ ((items : List Address) × (s1 : State) × (u : State) × (os.getaddrinfo (c_str host)
              (decimal port) os.tcp_v4 s
            ≡ (some items, s1))
          × Refused items s1 u
          × (t ≡ os.freeaddrinfo u)
          × (e.code ≡ connect_failed))

  finished-Connects :
      (host : Bytes) (port : ℕ) (items : List Address) (s s1 : State) (r : Option ℕ × State)
      → os.getaddrinfo (c_str host) (decimal port) os.tcp_v4 s ≡ (some items, s1)
      → Loops items s1 r
      → Connects host port s (finished os host port r)
  finished-Connects host port items s s1 (none, u) e l = inr (items, s1, u, e, l, refl, refl)
  finished-Connects host port items s s1 (some h, u) e l = (items, s1, u, e, l, refl)

  resolved-Connects :
      (host : Bytes) (port : ℕ) (s : State) (r : Option (List Address) × State)
      → os.getaddrinfo (c_str host) (decimal port) os.tcp_v4 s ≡ r
      → Connects host port s (resolved os host port r)
  unfolding resolution_error
  resolved-Connects host port s (none, t) e = inl (e, refl)
  resolved-Connects host port s (some items, t) e =
      finished-Connects host port items s t _ e (first_connected-Loops items t)

  connect-Connects :
      (host : Bytes) (port : ℕ) (s : State) → Connects host port s (connect os host port s)
  unfolding connect
  connect-Connects host port s = resolved-Connects host port s _ refl

  -- Where `connect` returns a handle, it is a new one, the only one that it has opened and not closed,
  -- and that of the first address of the list that takes a connection, the ones before it having
  -- refused one after another. Where it throws, it leaves no handle open behind it, and either the name
  -- has no addresses and the code is AddressResolutionFailed, or every address has refused and the code
  -- is ConnectFailed. Either way, the list of addresses is given back.
  pub connect_lem :
      (host : Bytes) (port : ℕ) (s : State)
      → Owns os s (connect os host port s) × Connects host port s (connect os host port s)
  connect_lem host port s = (connect-Owns os host port s, connect-Connects host port s)
