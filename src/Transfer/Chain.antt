-- ===== src/Transfer/Chain.antt =====
-- Calls that give a result and the state that they leave, in the case of an exception too: how they
-- are composed, and what holds behind them.
use mathlib.Core.Path.{subst}
use beam_drop.Prelude.{◌≡◌, refl, sym, ap, Bool, true, false, if◌then◌else◌}
use beam_drop.Errors.{Result, ok, err, Exception, throw_if}

abbrev pub Outcome : Type 0 → Type 0 → Type 0
Outcome S A = Result A × S

unfoldable pub and_then : {S A B : Type 0} → Outcome S A → (A → S → Outcome S B) → Outcome S B
and_then (ok a, s) rest = rest a s
and_then (err e, s) rest = (err e, s)

-- The same as an action on a state, for `do` blocks.
abbrev pub Act : Type 0 → Type 0 → Type 0
Act S A = S → Outcome S A

infixl 5 ◌>>=◌ ◌>>◌
abbrev pub ◌>>=◌ : {S A B : Type 0} → Act S A → (A → Act S B) → Act S B
◌>>=◌ m rest s = and_then (m s) rest

abbrev pub ◌>>◌ : {S B : Type 0} → Act S (Unit {0}) → Act S B → Act S B
m >> rest = m >>= λ _. rest

-- A computation that leaves the state alone.
abbrev pub lift : {S A : Type 0} → Result A → Act S A
lift r s = (r, s)

abbrev pub get : {S : Type 0} → Act S S
get s = (ok s, s)

abbrev pub modify : {S : Type 0} → (S → S) → Act S (Unit {0})
modify f s = (ok tt, f s)

-- What holds of the result and the side of a call that ended well.
unfoldable pub Ensures : {S A : Type 0} → (A → S → Type 0) → Outcome S A → Type 0
Ensures Q (ok a, s) = Q a s
Ensures Q (err e, s) = Unit {0}

module _ {S A B : Type 0} (P : A → S → Type 0) (Q : B → S → Type 0) where
  pub chain_then :
      (m : Outcome S A) (rest : A → S → Outcome S B)
      → Ensures P m
      → ((a : A) (s : S) → P a s → Ensures Q (rest a s))
      → Ensures Q (and_then m rest)
  unfolding and_then Ensures
  chain_then (ok a, s) rest p q = q a s p
  chain_then (err e, s) rest p q = tt

module _ {S B : Type 0} (Q : B → S → Type 0) where
  pub chain_guard :
      (bad : Bool) (e : Exception) (s : S) (rest : Unit {0} → S → Outcome S B)
      → (bad ≡ false → Ensures Q (rest tt s))
      → Ensures Q (and_then (throw_if bad e, s) rest)
  unfolding and_then Ensures
  chain_guard true e s rest q = tt
  chain_guard false e s rest q = q refl

  pub chain_ok : (b : B) (s : S) → Q b s → Ensures Q (ok b, s)
  unfolding Ensures
  chain_ok b s q = q

  pub chain_err : (e : Exception) (s : S) → Ensures Q (err e, s)
  unfolding Ensures
  chain_err e s = tt

  pub chain_if :
      (b : Bool) (x y : Outcome S B) → Ensures Q x → Ensures Q y → Ensures Q (if b then x else y)
  chain_if true x y p q = p
  chain_if false x y p q = q

  pub chain_branch :
      (b : Bool) (f g : Act S B) (s : S)
      → (b ≡ true → Ensures Q (f s))
      → (b ≡ false → Ensures Q (g s))
      → Ensures Q ((if b then f else g) s)
  chain_branch true f g s p q = p refl
  chain_branch false f g s p q = q refl

  pub ensured : (m : Outcome S B) (b : B) (t : S) → m ≡ (ok b, t) → Ensures Q m → Q b t
  unfolding Ensures
  ensured m b t e q = subst (λ r. Ensures Q r) e q

module _ {S A B : Type 0} (Q : B → S → Type 0) where
  -- A step that leaves the state alone and cannot fail, such as `get` and `modify`.
  pub chain_next :
      (a : A) (s : S) (rest : A → S → Outcome S B)
      → Ensures Q (rest a s)
      → Ensures Q (and_then (ok a, s) rest)
  unfolding and_then
  chain_next a s rest q = q

  pub chain_result :
      (r : Result A) (s : S) (rest : A → S → Outcome S B)
      → ((a : A) → r ≡ ok a → Ensures Q (rest a s))
      → Ensures Q (and_then (r, s) rest)
  unfolding and_then Ensures
  chain_result (ok a) s rest q = q a refl
  chain_result (err e) s rest q = tt

pub chain_mono :
    {S A : Type 0} (P Q : A → S → Type 0) (m : Outcome S A)
    → ((a : A) (t : S) → P a t → Q a t)
    → Ensures P m
    → Ensures Q m
unfolding Ensures
chain_mono P Q (ok a, s) f p = f a s p
chain_mono P Q (err e, s) f p = tt

-- Whatever a call does.
pub chain_any : {S A : Type 0} (m : Outcome S A) → Ensures (λ a t. Unit {0}) m
unfolding Ensures
chain_any (ok a, s) = tt
chain_any (err e, s) = tt

pub chain_self : {S A : Type 0} (m : Outcome S A) → Ensures (λ a t. m ≡ (ok a, t)) m
unfolding Ensures
chain_self (ok a, s) = refl
chain_self (err e, s) = tt

-- The same with what holds of the exception: total correctness of a call whose errors are known.
unfoldable pub Yields :
    {S A : Type 0} → (Exception → Type 0) → (A → S → Type 0) → Outcome S A → Type 0
Yields E Q (ok a, s) = Q a s
Yields E Q (err e, s) = E e

module _ {S B : Type 0} (E : Exception → Type 0) (Q : B → S → Type 0) where
  pub total_ok : (b : B) (s : S) → Q b s → Yields E Q (ok b, s)
  unfolding Yields
  total_ok b s q = q

  pub total_guard :
      (bad : Bool) (e : Exception) (s : S) (rest : Unit {0} → S → Outcome S B)
      → bad ≡ false
      → Yields E Q (rest tt s)
      → Yields E Q (and_then (throw_if bad e, s) rest)
  unfolding and_then
  total_guard true e s rest h q = cc
  total_guard false e s rest h q = q

module _ {S A B : Type 0} (E : Exception → Type 0) (Q : B → S → Type 0) where
  pub total_result :
      (r : Result A) (a : A) (s : S) (rest : A → S → Outcome S B)
      → r ≡ ok a
      → Yields E Q (rest a s)
      → Yields E Q (and_then (r, s) rest)
  total_result r a s rest e q =
      subst (λ x. Yields E Q (and_then (x, s) rest)) (sym e) (unfold and_then in q)

  pub total_fails :
      (e : Exception) (s : S) (rest : A → S → Outcome S B)
      → E e
      → Yields E Q (and_then (err e, s) rest)
  unfolding and_then Yields
  total_fails e s rest h = h

  pub total_then :
      (P : A → S → Type 0) (m : Outcome S A) (rest : A → S → Outcome S B)
      → Yields E P m
      → ((a : A) (t : S) → P a t → Yields E Q (rest a t))
      → Yields E Q (and_then m rest)
  unfolding and_then Yields
  total_then P (ok a, s) rest p q = q a s p
  total_then P (err e, s) rest p q = p

-- What holds in two ways.
pub chain_both :
    {S A : Type 0} (P Q : A → S → Type 0) (m : Outcome S A)
    → Ensures P m
    → Ensures Q m
    → Ensures (λ a t. P a t × Q a t) m
unfolding Ensures
chain_both P Q (ok a, s) p q = (p, q)
chain_both P Q (err e, s) p q = tt

pub total_both :
    {S A : Type 0} (E : Exception → Type 0) (P Q : A → S → Type 0) (m : Outcome S A)
    → Yields E P m
    → Ensures Q m
    → Yields E (λ a t. P a t × Q a t) m
unfolding Yields Ensures
total_both E P Q (ok a, s) p q = (p, q)
total_both E P Q (err e, s) p q = p

pub total_mono :
    {S A : Type 0} (E : Exception → Type 0) (P Q : A → S → Type 0) (m : Outcome S A)
    → ((a : A) (t : S) → P a t → Q a t)
    → Yields E P m
    → Yields E Q m
unfolding Yields
total_mono E P Q (ok a, s) f p = f a s p
total_mono E P Q (err e, s) f p = p

-- A call that ended well, step by step.
pub and_then-eq-ok :
    {S A B : Type 0} (m : Outcome S A) (rest : A → S → Outcome S B) (b : B) (t : S)
    → and_then m rest ≡ (ok b, t)
    → (a : A) × (s : S) × (m ≡ (ok a, s)) × (rest a s ≡ (ok b, t))
unfolding and_then
and_then-eq-ok (ok a, s) rest b t e = (a, s, refl, e)
and_then-eq-ok (err x, s) rest b t e = absurd (cc (ap (λ (r : Outcome _ _). r.0) e))
