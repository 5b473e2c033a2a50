-- ===== src/Network/Handles/Ownership.antt =====
-- No handle is closed twice.
use mathlib.Core.Path.{subst}
use beam_drop.Prelude.{
  ℕ, ◌+◌, ◌≤◌, ◌<◌, ◌≡◌, ◌≢◌, ◌⊎◌, inl, inr, refl, ap, sym, ◌∙◌, true, false, Option, none, some,
  List, [], ◌∷◌, arith, ◌==◌, if◌then◌else◌, Bool-cases,
}
use beam_drop.Network.Handles.{
  World, Call, open_socket, shutdown, close, destroy, move, put, release, step, run, closed_times,
}

-- A handle in a slot was given out, is in no other slot, and was not closed; none was closed twice.
pub record IsOwned (w : World) : Type 0 where
  pub given : (i h : ℕ) → w.slot i ≡ some h → h < w.fresh
  pub is_open : (i h : ℕ) → w.slot i ≡ some h → closed_times h w.closed ≡ 0
  pub alone : (i j h : ℕ) → w.slot i ≡ some h → w.slot j ≡ some h → i ≡ j
  pub once : (h : ℕ) → closed_times h w.closed ≤ 1
  pub unused : (h : ℕ) → w.fresh ≤ h → closed_times h w.closed ≡ 0

put-some :
    (slots : ℕ → Option ℕ) (i : ℕ) (o : Option ℕ) (j k : ℕ)
    → put slots i o j ≡ some k
    → ((j ≡ i) × (o ≡ some k)) ⊎ ((j ≢ i) × (slots j ≡ some k))
put-some slots i o j k e = elim (Bool-cases (j == i)) [
  | inl same ↦ inl ((ground arith), subst (λ b. (if b then o else slots j) ≡ some k) same e)
  | inr other ↦ inr ((ground arith), subst (λ b. (if b then o else slots j) ≡ some k) other e)
]

-- A world whose slots hold handles of `w`, none that was just closed.
closing :
    (w : World) (i h : ℕ)
    → IsOwned w
    → w.slot i ≡ some h
    → IsOwned (record w { slot = put w.slot i none; closed = h ∷ w.closed })
closing w i h p e = record {
  given = λ j k f. elim (put-some w.slot i none j k f) [
    | inl (is, o) ↦ absurd (cc o)
    | inr (ne, f') ↦ p.given j k f'
  ];
  is_open = λ j k f. elim (put-some w.slot i none j k f) [
    | inl (is, o) ↦ absurd (cc o)
    | inr (ne, f') ↦ still_open j k ne f'
  ];
  alone = λ j l k f g. elim (put-some w.slot i none j k f) [
    | inl (is, o) ↦ absurd (cc o)
    | inr (ne, f') ↦ elim (put-some w.slot i none l k g) [
      | inl (is, o) ↦ absurd (cc o)
      | inr (ne', g') ↦ p.alone j l k f' g'
    ]
  ];
  once = λ k. at_most k (Bool-cases (k == h));
  unused = λ k old. never k old (Bool-cases (k == h));
}
  where
    still_open : (j k : ℕ) → j ≢ i → w.slot j ≡ some k → closed_times k (h ∷ w.closed) ≡ 0
    still_open j k ne f = elim (Bool-cases (k == h)) [
      | inl same ↦ absurd (ne (p.alone j i k f (e ∙ ap some (handle k same))))
      | inr differs ↦ let before = p.is_open j k f in rw differs (omega arith)
    ]
      where
        handle : (k : ℕ) → (k == h) ≡ true → h ≡ k
        handle k same = ground arith

    at_most : (k : ℕ) → ((k == h) ≡ true) ⊎ ((k == h) ≡ false) → closed_times k (h ∷ w.closed) ≤ 1
    at_most k (inl same) =
        let is : h ≡ k = ground arith in
        let zero_times = p.is_open i h e in
        let moved = ap (λ x. closed_times x w.closed) is in rw same (omega arith)
    at_most k (inr differs) = let before = p.once k in rw differs (omega arith)

    never :
        (k : ℕ)
        → w.fresh ≤ k
        → ((k == h) ≡ true) ⊎ ((k == h) ≡ false)
        → closed_times k (h ∷ w.closed) ≡ 0
    never k old (inl same) =
        let is : h ≡ k = ground arith in let small = p.given i h e in absurd (omega arith)
    never k old (inr differs) = let before = p.unused k old in rw differs (omega arith)

release-IsOwned : (i : ℕ) (w : World) → IsOwned w → IsOwned (release i w)
unfolding release
release-IsOwned i w p = of (w.slot i) refl
  where
    of :
        (o : Option ℕ)
        → w.slot i ≡ o
        → IsOwned (elim o [
          | none ↦ w
          | some h ↦ record w { slot = put w.slot i none; closed = h ∷ w.closed }
        ])
    of none e = p
    of (some h) e = closing w i h p e

-- A new handle, into a slot.
opening :
    (w : World) (i : ℕ)
    → IsOwned w
    → IsOwned (record w { slot = put w.slot i (some w.fresh); fresh = w.fresh + 1 })
opening w i p = record {
  given = λ j k e. elim (put-some w.slot i (some w.fresh) j k e) [
    | inl (is, o) ↦ let same = fresh_is k o in omega arith
    | inr (ne, f) ↦ let small = p.given j k f in omega arith
  ];
  is_open = λ j k e. elim (put-some w.slot i (some w.fresh) j k e) [
    | inl (is, o) ↦ p.unused k (let same = fresh_is k o in omega arith)
    | inr (ne, f) ↦ p.is_open j k f
  ];
  alone = λ j l k e f. elim (put-some w.slot i (some w.fresh) j k e) [
    | inl (is, o) ↦ elim (put-some w.slot i (some w.fresh) l k f) [
      | inl (is', o') ↦ is ∙ sym is'
      | inr (ne, g) ↦ absurd (not_fresh l k g o)
    ]
    | inr (ne, g) ↦ elim (put-some w.slot i (some w.fresh) l k f) [
      | inl (is, o) ↦ absurd (not_fresh j k g o)
      | inr (ne', g') ↦ p.alone j l k g g'
    ]
  ];
  once = p.once;
  unused = λ k old. p.unused k (omega arith);
}
  where
    fresh_is : (k : ℕ) → some w.fresh ≡ some k → w.fresh ≡ k
    fresh_is k o = cc

    not_fresh : (l k : ℕ) → w.slot l ≡ some k → some w.fresh ≡ some k → ⊥
    not_fresh l k g o = let small = p.given l k g in let same : w.fresh ≡ k = cc in omega arith

-- Where a handle in a slot was before the move.
Before : World → ℕ → ℕ → ℕ → ℕ → Type 0
Before w i j l k = ((l ≡ i) × (w.slot j ≡ some k)) ⊎ ((l ≢ j) × (w.slot l ≡ some k))

-- A handle goes from one slot to another.
moving :
    (w : World) (i j : ℕ)
    → IsOwned w
    → IsOwned (record w { slot = put (put w.slot j none) i (w.slot j) })
unfolding Before
moving w i j p = record {
  given =
      λ l k e. elim (before l k e) [ inl (is, f) ↦ p.given j k f | inr (ne, f) ↦ p.given l k f ];
  is_open = λ l k e. elim (before l k e) [
    | inl (is, f) ↦ p.is_open j k f
    | inr (ne, f) ↦ p.is_open l k f
  ];
  alone = λ l m k e f. elim (before l k e) [
    | inl (is, g) ↦ elim (before m k f) [
      | inl (is', g') ↦ is ∙ sym is'
      | inr (ne, g') ↦ absurd (ne (p.alone m j k g' g))
    ]
    | inr (ne, g) ↦ elim (before m k f) [
      | inl (is', g') ↦ absurd (ne (p.alone l j k g g'))
      | inr (ne', g') ↦ p.alone l m k g g'
    ]
  ];
  once = p.once;
  unused = p.unused;
}
  where
    before : (l k : ℕ) → put (put w.slot j none) i (w.slot j) l ≡ some k → Before w i j l k
    before l k e = elim (put-some (put w.slot j none) i (w.slot j) l k e) [
      | inl (is, f) ↦ inl (is, f)
      | inr (ne, f) ↦ elim (put-some w.slot j none l k f) [
        | inl (is, o) ↦ absurd (cc o)
        | inr (ne', g) ↦ inr (ne', g)
      ]
    ]

step-IsOwned : (w : World) (c : Call) → IsOwned w → IsOwned (step w c)
unfolding step
step-IsOwned w (open_socket i) p = opening (release i w) i (release-IsOwned i w p)
step-IsOwned w (shutdown i) p = release-IsOwned i w p
step-IsOwned w (close i) p = release-IsOwned i w p
step-IsOwned w (destroy i) p = release-IsOwned i w p
step-IsOwned w (move i j) p = elim (Bool-cases (i == j)) [
  | inl same ↦ rw same p
  | inr differs ↦ rw differs (moving (release i w) i j (release-IsOwned i w p))
]

abbrev pub no_handles : World
no_handles = record { slot = λ i. none; closed = []; fresh = 0 }

run-IsOwned : (w : World) (calls : List Call) → IsOwned w → IsOwned (run w calls)
unfolding run
run-IsOwned w [] p = p
run-IsOwned w (c ∷ calls) p = run-IsOwned (step w c) calls (step-IsOwned w c p)

-- However connections are made, moved, shut down, closed and destroyed, from a program without any
-- on, no handle is closed more than once, and none that a connection still holds is closed.
pub run-closed_times :
    (calls : List Call) (h : ℕ)
    → (closed_times h (run no_handles calls).closed ≤ 1)
      × ((i : ℕ)
          → (run no_handles calls).slot i ≡ some h
          → closed_times h (run no_handles calls).closed ≡ 0)
run-closed_times calls h =
    let p = run-IsOwned no_handles calls (record {
      given = λ i h e. absurd (cc e);
      is_open = λ i h e. absurd (cc e);
      alone = λ i j h e f. absurd (cc e);
      once = λ h. omega arith;
      unused = λ h le. refl;
    }) in
    (p.once h, λ i e. p.is_open i h e)
