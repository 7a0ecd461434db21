-- ===== src/Common/Action.antt =====
-- Methods on `&mut self` that return a `Result`: what was written before an error stays written, so
-- the state comes back beside the error too.
use kurbu5_pkinit.Common.Outcome.{Result, ok, err}

abbrev pub Action {ℓ} : Type ℓ → Type ℓ → Type ℓ → Type ℓ
Action E S A = S → Result E A × S

module _ {ℓ} {E S A : Type ℓ} where
  unfoldable pub lift : Result E A → Action E S A
  lift r s = (r, s)

  unfoldable pub pure : A → Action E S A
  pure a s = (ok a, s)

  unfoldable pub gets : (S → A) → Action E S A
  gets f s = (ok (f s), s)

module _ {ℓ} {E S : Type ℓ} where
  unfoldable pub modify : (S → S) → Action E S (Unit {ℓ})
  modify f s = (ok tt, f s)

module _ {ℓ} {E S A B : Type ℓ} where
  abbrev pub continue : Result E A → (A → Action E S B) → S → Result E B × S
  continue (ok a) f s = f a s
  continue (err e) f s = (err e, s)

  infixl 10 ◌>>=◌ ◌>>◌
  -- Opening this opens the four actions above too.
  unfoldable pub ◌>>=◌ : Action E S A → (A → Action E S B) → Action E S B
  unfolding lift pure gets modify
  ◌>>=◌ m f s = continue (m s).0 f (m s).1

  abbrev pub ◌>>◌ : Action E S A → Action E S B → Action E S B
  m >> n = m >>= λ _. n
