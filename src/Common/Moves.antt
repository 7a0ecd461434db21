-- ===== src/Common/Moves.antt =====
-- Reasoning on actions: how they move the state, and what a successful one went through.
use mathlib.Core.Path.{◌≡◌, refl, sym, ap, ◌∙◌}
use kurbu5_pkinit.Common.Outcome.{Result, ok, err}
use kurbu5_pkinit.Common.Action.{Action, lift, pure, gets, modify, continue, ◌>>=◌}

-- `m` moves the state within `R`, whether it returns a value or an error.
pub record Moves {E S A : Type 0} (R : S → S → Type 0) (m : Action E S A) : Type 0 where
  pub at : (s : S) → R s (m s).1

module _ {E S : Type 0} {R : S → S → Type 0} (R-refl : (s : S) → R s s)
    (R-trans : (s t u : S) → R s t → R t u → R s u) where
  pub Moves-lift : {A : Type 0} (r : Result E A) → Moves R (lift r)
  unfolding lift
  Moves-lift r = record { at = R-refl }

  pub Moves-pure : {A : Type 0} (a : A) → Moves {E = E} R (pure a)
  unfolding pure
  Moves-pure a = record { at = R-refl }

  pub Moves-gets : {A : Type 0} (f : S → A) → Moves {E = E} R (gets f)
  unfolding gets
  Moves-gets f = record { at = R-refl }

  pub Moves-modify : (f : S → S) → ((s : S) → R s (f s)) → Moves {E = E} R (modify f)
  unfolding modify
  Moves-modify f h = record { at = h }

  Moves-continue :
      {A B : Type 0} (r : Result E A) (f : A → Action E S B) (s t : S)
      → R s t
      → ((a : A) → Moves R (f a))
      → R s (continue r f t).1
  Moves-continue (ok a) f s t p q = R-trans s t _ p ((q a).at t)
  Moves-continue (err e) f s t p q = p

  pub Moves->>= :
      {A B : Type 0} (m : Action E S A) (f : A → Action E S B)
      → Moves R m
      → ((a : A) → Moves R (f a))
      → Moves R (m >>= f)
  unfolding ◌>>=◌
  Moves->>= m f p q = record { at = λ s. Moves-continue (m s).0 f s (m s).1 (p.at s) q }

module _ {E S A B : Type 0} where
  continue-ok :
      (r : Result E A) (f : A → Action E S B) (t : S) {b : B}
      → (continue r f t).0 ≡ ok b
      → (a : A) × (r ≡ ok a) × (continue r f t ≡ f a t)
  continue-ok (ok a) f t h = (a, refl, refl)
  continue-ok (err e) f t h = cc

  -- A sequence that succeeds went through its first part.
  pub Action->>=-ok :
      (m : Action E S A) (f : A → Action E S B) (s : S) {b : B}
      → ((m >>= f) s).0 ≡ ok b
      → (a : A) × ((m s).0 ≡ ok a) × ((m >>= f) s ≡ f a (m s).1)
  unfolding ◌>>=◌
  Action->>=-ok m f s h = continue-ok (m s).0 f (m s).1 h

  -- The same, with what is left to run; and for a part that leaves the state alone.
  pub run-ok :
      (m : Action E S A) (f : A → Action E S B) (s : S) {b : B}
      → ((m >>= f) s).0 ≡ ok b
      → (a : A) × ((m s).0 ≡ ok a) × ((f a (m s).1).0 ≡ ok b)
  run-ok m f s h = let (a, p, q) = Action->>=-ok m f s h in (a, p, ap (λ r. r.0) (sym q) ∙ h)

  pub lifted-ok :
      (r : Result E A) (f : A → Action E S B) (s : S) {b : B}
      → ((lift r >>= f) s).0 ≡ ok b
      → (a : A) × (r ≡ ok a) × ((f a s).0 ≡ ok b)
  unfolding ◌>>=◌
  lifted-ok (ok a) f s h = (a, refl, h)
  lifted-ok (err e) f s h = cc
