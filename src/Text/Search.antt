-- ===== src/Text/Search.antt =====
-- `search_first`: a match at the first place is the result. `strip`: a literal is taken off.
use beam_drop.Prelude.{◌≡◌, refl, Option, some, [], ◌∷◌, ◌++◌, Bytes, ==_refl}
use beam_drop.Text.{search_first, strip}

pub search_hit {ℓ} :
    {A : Type ℓ} (m : Bytes → Option A) (text : Bytes) {a : A}
    → m text ≡ some a
    → search_first m text ≡ some a
unfolding search_first
search_hit m [] h = h
search_hit m (c ∷ cs) h = rw (h, search_first)

pub strip-append : (xs ys : Bytes) → strip xs (xs ++ ys) ≡ some ys
unfolding strip
strip-append [] ys = refl
strip-append (x ∷ xs) ys = rw (==_refl x) (strip-append xs ys)
