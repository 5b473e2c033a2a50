-- ===== src/App/Service.antt =====
-- What holds of the result of a service, step by step.
use mathlib.Core.Path.{subst}
use beam_drop.Prelude.{◌≡◌, refl, Option, none, some}
use beam_drop.Errors.{ok, err, Exception}
use beam_drop.Transfer.Chain.{Outcome, Act, Ensures, Yields, chain_ok}
use beam_drop.App.{ErrorCode, ServiceResult, failure, unless, caught, code_of}

module _ {S A : Type 0} (Q : ServiceResult A → S → Type 0) where
  -- A test that returns early, and what follows it.
  pub unless_step :
      (o : Option ErrorCode) (rest : Act S (ServiceResult A)) (s : S)
      → ((c : ErrorCode) → o ≡ some c → Q (failure c) s)
      → (o ≡ none → Ensures Q (rest s))
      → Ensures Q (unless o rest s)
  unless_step (some c) rest s early go_on = chain_ok Q (failure c) s (early c refl)
  unless_step none rest s early go_on = go_on refl

  -- The whole call, with what its exceptions become.
  pub caught_step :
      (cancelled_code : ErrorCode) (m : Outcome S (ServiceResult A)) (r : ServiceResult A) (t : S)
      → Ensures Q m
      → ((e : Exception) (t : S) → Q (failure (code_of cancelled_code e)) t)
      → caught cancelled_code m ≡ (r, t)
      → Q r t
  unfolding Ensures caught
  caught_step cancelled_code (ok a, u) r t q other e =
      subst (λ (p : ServiceResult A × S). Q p.0 p.1) e q
  caught_step cancelled_code (err x, u) r t q other e =
      subst (λ (p : ServiceResult A × S). Q p.0 p.1) e (other x u)

-- The same for what an exception may be.
pub going_on :
    {S A : Type 0} (E : Exception → Type 0) (Q : ServiceResult A → S → Type 0)
    (o : Option ErrorCode) (rest : Act S (ServiceResult A)) (s : S)
    → o ≡ none
    → Yields E Q (rest s)
    → Yields E Q (unless o rest s)
going_on E Q (some c) rest s e q = absurd (cc e)
going_on E Q none rest s e q = q
