-- ===== src/Common/Lists.antt =====
-- Lists over the native numbers: the iterator methods the code uses, and their laws.
use Prim.Native.Nat.{ℕ, zero, suc, ◌+◌, ◌-◌}
use mathlib.Core.Path.{◌≡◌, refl, ap, sym, ◌∙◌, subst}
use mathlib.Core.Logic.{◌⊎◌, inl, inr}
use mathlib.Core.Bool.{Bool, true, false, ◌||◌}
use mathlib.Core.Option.{Option, none, some}
use mathlib.Core.List.{List, [], ◌∷◌, ◌++◌}
use native.Mathlib.Omega.{arith}
use kurbu5_pkinit.Common.Tests.{if◌then◌else◌, Option-cases, Bool-cases}
use kurbu5_pkinit.Common.Equality.{PartialEq, ◌==◌}

-- DER and other octet strings, UTF-8 text, and object identifiers as lists of arcs.
abbrev pub Bytes : Type 0
Bytes = List ℕ

abbrev pub Text : Type 0
Text = List ℕ

abbrev pub Oid : Type 0
Oid = List ℕ

module _ {ℓ} {A : Type ℓ} where
  abbrev pub length : List A → ℕ
  length [] = 0
  length (x ∷ xs) = suc (length xs)

  abbrev pub take : ℕ → List A → List A
  take zero xs = []
  take (suc n) [] = []
  take (suc n) (x ∷ xs) = x ∷ take n xs

  abbrev pub drop : ℕ → List A → List A
  drop zero xs = xs
  drop (suc n) [] = []
  drop (suc n) (x ∷ xs) = drop n xs

  pub length-append : (xs ys : List A) → length (xs ++ ys) ≡ length xs + length ys
  length-append [] ys = omega arith
  length-append (x ∷ xs) ys = omega (arith, length-append xs ys)

  pub take-length-append : (xs ys : List A) → take (length xs) (xs ++ ys) ≡ xs
  take-length-append [] ys = refl
  take-length-append (x ∷ xs) ys = ap (◌∷◌ x) (take-length-append xs ys)

  pub drop-length-append : (xs ys : List A) → drop (length xs) (xs ++ ys) ≡ ys
  drop-length-append [] ys = refl
  drop-length-append (x ∷ xs) ys = drop-length-append xs ys

  pub take_all : (xs : List A) → take (length xs) xs ≡ xs
  take_all [] = refl
  take_all (x ∷ xs) = ap (◌∷◌ x) (take_all xs)

  pub drop-add : (m n : ℕ) (xs : List A) → drop (m + n) xs ≡ drop n (drop m xs)
  drop-add zero n xs = let e : 0 + n ≡ n = omega arith in rw e refl
  drop-add (suc m) zero [] = let e : suc m + 0 ≡ suc m = omega arith in rw e refl
  drop-add (suc m) (suc n) [] = let e : suc m + suc n ≡ suc (m + suc n) = omega arith in rw e refl
  drop-add (suc m) n (x ∷ xs) =
      let e : suc m + n ≡ suc (m + n) = omega arith in rw e (drop-add m n xs)

  pub length-empty : (xs : List A) → length xs ≡ 0 → xs ≡ []
  length-empty [] h = refl
  length-empty (x ∷ xs) h = absurd (omega arith)

  pub length-drop : (n : ℕ) (xs : List A) → length (drop n xs) ≡ length xs - n
  length-drop zero xs = omega arith
  length-drop (suc n) [] = omega arith
  length-drop (suc n) (x ∷ xs) = omega (arith, length-drop n xs)

  pub drop-suc : (n k : ℕ) (x : A) (xs : List A) → k ≡ suc n → drop k (x ∷ xs) ≡ drop n xs
  drop-suc n k x xs e = rw e

  abbrev pub is_empty : List A → Bool
  is_empty [] = true
  is_empty (x ∷ xs) = false

  pub List-cases : (xs : List A) → (xs ≡ []) ⊎ ((x : A) × (rest : List A) × (xs ≡ x ∷ rest))
  List-cases [] = inl refl
  List-cases (x ∷ xs) = inr (x, xs, refl)

  -- `iter().any(p)`
  unfoldable pub any : (A → Bool) → List A → Bool
  any p [] = false
  any p (x ∷ xs) = p x || any p xs

  -- `iter().find(p)`
  unfoldable pub find : (A → Bool) → List A → Option A
  find p [] = none
  find p (x ∷ xs) = if p x then some x else find p xs

  -- `iter().filter(p)`
  unfoldable pub filter : (A → Bool) → List A → List A
  filter p [] = []
  filter p (x ∷ xs) = let rest = filter p xs in if p x then x ∷ rest else rest

module _ {A : Type 0} where
  -- Membership by recursion, which the tactics read.
  abbrev pub Has : A → List A → Type 0
  Has a [] = ⊥
  Has a (x ∷ xs) = (a ≡ x) ⊎ Has a xs

  pub find-Has : (p : A → Bool) (xs : List A) (a : A) → find p xs ≡ some a → Has a xs × (p a ≡ true)
  unfolding find
  find-Has p [] a h = cc
  find-Has p (x ∷ xs) a h = ground (arith, find-Has p xs a)

  pub any-Has : (p : A → Bool) (xs : List A) → any p xs ≡ true → (a : A) × Has a xs × (p a ≡ true)
  unfolding any
  any-Has p [] h = cc
  any-Has p (x ∷ xs) h = elim (Bool-cases (p x)) [
    | inl t ↦ (x, inl refl, t)
    | inr t ↦ let (a, m, q) = any-Has p xs (ground arith) in (a, inr m, q)
  ]

  pub find-none : (p : A → Bool) (xs : List A) (a : A) → find p xs ≡ none → Has a xs → p a ≡ false
  unfolding find
  find-none p [] a h m = absurd m
  find-none p (x ∷ xs) a h m = ground (arith, find-none p xs a)

  pub filter-Has :
      (p : A → Bool) (xs : List A) (a : A) → Has a (filter p xs) → Has a xs × (p a ≡ true)
  unfolding filter
  filter-Has p [] a h = absurd h
  filter-Has p (x ∷ xs) a h = ground (arith, filter-Has p xs a)

module _ {ℓ κ} {A : Type ℓ} {B : Type κ} where
  -- `iter().filter_map(f)`
  unfoldable pub filter_map : (A → Option B) → List A → List B
  filter_map f [] = []
  filter_map f (x ∷ xs) =
      let rest = filter_map f xs in elim (f x) [ none ↦ rest | some y ↦ y ∷ rest ]

module _ {A B : Type 0} (f : A → Option B) where
  filter_map-skip : (x : A) (xs : List A) → f x ≡ none → filter_map f (x ∷ xs) ≡ filter_map f xs
  unfolding filter_map
  filter_map-skip x xs e = rw (e, filter_map) refl

  filter_map-keep :
      (x : A) (xs : List A) (y : B) → f x ≡ some y → filter_map f (x ∷ xs) ≡ y ∷ filter_map f xs
  unfolding filter_map
  filter_map-keep x xs y e = rw (e, filter_map) refl

  pub filter_map-Has :
      (xs : List A) (b : B) → Has b (filter_map f xs) → (a : A) × Has a xs × (f a ≡ some b)
  unfolding filter_map
  filter_map-Has [] b h = absurd h
  filter_map-Has (x ∷ xs) b h = elim (Option-cases (f x)) [
    | inl e ↦
        let (a, m, p) = filter_map-Has xs b (subst (Has b) (filter_map-skip x xs e) h) in
        (a, inr m, p)
    | inr (y, e) ↦ elim (subst (Has b) (filter_map-keep x xs y e) h) [
      | inl q ↦ (x, inl refl, e ∙ ap some (sym q))
      | inr m ↦ let (a, n, p) = filter_map-Has xs b m in (a, inr n, p)
    ]
  ]

  pub Has-filter_map :
      (xs : List A) (a : A) (b : B) → Has a xs → f a ≡ some b → Has b (filter_map f xs)
  Has-filter_map [] a b h e = absurd h
  Has-filter_map (x ∷ xs) a b (inl q) e =
      subst (Has b) (sym (filter_map-keep x xs b (ap f (sym q) ∙ e))) (inl refl)
  Has-filter_map (x ∷ xs) a b (inr m) e =
      let ih = Has-filter_map xs a b m e in
      elim (Option-cases (f x)) [
        | inl k ↦ subst (Has b) (sym (filter_map-skip x xs k)) ih
        | inr (y, k) ↦ subst (Has b) (sym (filter_map-keep x xs y k)) (inr ih)
      ]

module _ {ℓ} {A : Type ℓ} ⦃e : PartialEq A⦄ where
  -- `contains`
  unfoldable pub contains : List A → A → Bool
  contains [] a = false
  contains (x ∷ xs) a = x == a || contains xs a

module _ {A : Type 0} ⦃e : PartialEq A⦄ where
  pub contains-Has : (xs : List A) (a : A) → contains xs a ≡ true → Has a xs
  unfolding contains
  contains-Has [] a h = cc
  contains-Has (x ∷ xs) a h = ground (arith, e.decides x a, contains-Has xs a)
