-- ===== src/Matching/Split.antt =====
-- pkinit-core/src/identity/matching.rs: splitting a rule at `&&` and `||` loses nothing and ends.
use mathlib.Core.Path.{subst}
use mathlib.Core.List.{append_assoc, append-nil}
use kurbu5_pkinit.Common.{
  Bool-cases, List, Option-cases, Text, [], ap, arith, inl, inr, length, length-append, list_eq,
  nat_eq, option_eq, refl, some, suc, sym, zero, ℕ, ◌++◌, ◌==◌, ◌∙◌, ◌∷◌, ◌≡◌, ◌≤◌,
}
use kurbu5_pkinit.Common.Strings.{join, strip_prefix-some}
use kurbu5_pkinit.Matching.{depth_after, separator_here, split_loop, split_top_level}

split_loop-nonempty :
    (fuel : ℕ) (sep : Text) (depth : ℕ) (current rest : Text)
    → (part : Text) × (more : List Text) × (split_loop fuel sep depth current rest ≡ part ∷ more)
unfolding split_loop
split_loop-nonempty fuel sep depth current [] = (current, [], refl)
split_loop-nonempty zero sep depth current (c ∷ rest) = (current ++ c ∷ rest, [], refl)
split_loop-nonempty (suc fuel) sep depth current (c ∷ rest) =
    elim (Option-cases (separator_here sep (depth_after depth c) (c ∷ rest))) [
      | inl e ↦
          let (part, more, q) =
            split_loop-nonempty fuel sep (depth_after depth c) (current ++ c ∷ []) rest in
          (part, more, rw (split_loop, e) q)
      | inr (after, e) ↦
          (current, split_loop fuel sep (depth_after depth c) [] after, rw (split_loop, e) refl)
    ]

separator_here-some :
    (sep : Text) (depth : ℕ) (rest after : Text)
    → separator_here sep depth rest ≡ some after
    → rest ≡ sep ++ after
unfolding separator_here
separator_here-some sep depth rest after h = elim (Bool-cases (depth == 0)) [
  | inl t ↦ strip_prefix-some sep rest after (ground arith)
  | inr t ↦ absurd (ground arith)
]

join-split_loop :
    (fuel : ℕ) (sep : Text) (depth : ℕ) (current rest : Text)
    → join sep (split_loop fuel sep depth current rest) ≡ current ++ rest
unfolding split_loop join
join-split_loop fuel sep depth current [] = sym (append-nil current)
join-split_loop zero sep depth current (c ∷ rest) = refl
join-split_loop (suc fuel) sep depth current (c ∷ rest) =
    let inside = depth_after depth c in
    elim (Option-cases (separator_here sep inside (c ∷ rest))) [
      | inl e ↦
          rw (split_loop, e)
            (join-split_loop fuel sep inside (current ++ c ∷ []) rest
              ∙ append_assoc current (c ∷ []) rest)
      | inr (after, e) ↦
          let (part, more, q) = split_loop-nonempty fuel sep inside [] after in
          let ih : join sep (part ∷ more) ≡ after =
            subst (λ x. join sep x ≡ after) q (join-split_loop fuel sep inside [] after) in
          rw (split_loop, e, q)
            (ap (λ x. current ++ (sep ++ x)) ih
              ∙ ap (λ x. current ++ x) (sym (separator_here-some sep inside (c ∷ rest) after e)))
    ]

-- The parts, joined with the separator again, are the input: nothing is lost, added or reordered.
join-split_top_level : (sep input : Text) → join sep (split_top_level input sep) ≡ input
unfolding split_top_level
join-split_top_level sep input = join-split_loop (length input) sep 0 [] input

-- Any two amounts of fuel that cover the rest of the input give the same parts, when the separator is
-- not empty: the loop ends by itself, and the fuel given is enough.
pub split_loop_enough :
    (f g : ℕ) (s : ℕ) (sep : Text) (depth : ℕ) (current rest : Text)
    → length rest ≤ f
    → length rest ≤ g
    → split_loop f (s ∷ sep) depth current rest ≡ split_loop g (s ∷ sep) depth current rest
unfolding split_loop
split_loop_enough f g s sep depth current [] p q = refl
split_loop_enough zero g s sep depth current (c ∷ rest) p q = absurd (omega arith)
split_loop_enough (suc f) zero s sep depth current (c ∷ rest) p q = absurd (omega arith)
split_loop_enough (suc f) (suc g) s sep depth current (c ∷ rest) p q =
    let inside = depth_after depth c in
    elim (Option-cases (separator_here (s ∷ sep) inside (c ∷ rest))) [
      | inl e ↦
          rw (split_loop, e)
            (split_loop_enough f g s sep inside (current ++ c ∷ []) rest (omega arith)
              (omega arith))
      | inr (after, e) ↦
          let l =
            ap length (separator_here-some (s ∷ sep) inside (c ∷ rest) after e)
            ∙ length-append (s ∷ sep) after in
          rw (split_loop, e)
            (ap (◌∷◌ current)
              (split_loop_enough f g s sep inside [] after (omega (arith, l)) (omega (arith, l))))
    ]
