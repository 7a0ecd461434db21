-- ===== src/Common/Strings.antt =====
-- The methods of `str` that the code uses, on the bytes of a text.
use kurbu5_pkinit.Common.Tests.{if◌then◌else◌, ltb, leb, Bool-cases, Option-cases}
use mathlib.Core.Logic.{inl, inr}
use kurbu5_pkinit.Common.Equality.{◌==◌, nat_eq, ==_iff}
use kurbu5_pkinit.Common.Lists.{Text, is_empty}
use kurbu5_pkinit.Common.Outcome.{Result, ok, err}
use Prim.Native.Nat.{ℕ, suc, ◌+◌, ◌-◌, ◌*◌, ◌<◌}
use Prim.Native.Char.{code}
use Prim.Native.String.{String}
use mathlib.Core.Path.{◌≡◌, refl, ap, ◌∙◌, subst}
use mathlib.Core.Bool.{Bool, true, false, ◌&&◌, ◌||◌}
use mathlib.Core.Option.{Option, none, some}
use mathlib.Core.List.{List, [], ◌∷◌, ◌++◌}
use native.Mathlib.Omega.{arith}

-- The bytes of an ASCII literal.
abbrev pub codes : String → Text
codes String.[] = []
codes (String.◌∷◌ c s) = code c ∷ codes s

-- `strip_prefix`
unfoldable pub strip_prefix : Text → Text → Option Text
strip_prefix [] s = some s
strip_prefix (p ∷ ps) [] = none
strip_prefix (p ∷ ps) (c ∷ s) = let rest = strip_prefix ps s in if p == c then rest else none

pub strip_prefix-some : (p s rest : Text) → strip_prefix p s ≡ some rest → s ≡ p ++ rest
unfolding strip_prefix
strip_prefix-some [] s rest h = cc
strip_prefix-some (p ∷ ps) [] rest h = cc
strip_prefix-some (p ∷ ps) (c ∷ s) rest h = ground (arith, ==_iff p c, strip_prefix-some ps s rest)

pub strip_prefix-append : (p rest : Text) → strip_prefix p (p ++ rest) ≡ some rest
unfolding strip_prefix
strip_prefix-append [] rest = refl
strip_prefix-append (p ∷ ps) rest = ground (arith, ==_iff p p, strip_prefix-append ps rest)

-- `starts_with`
unfoldable pub starts_with : Text → Text → Bool
starts_with s p = elim (strip_prefix p s) [ none ↦ false | some _ ↦ true ]

-- `find`: the offset of the leftmost occurrence.
unfoldable pub find_text : Text → Text → Option ℕ
unfolding starts_with
find_text needle [] = if is_empty needle then some 0 else none
find_text needle (c ∷ s) =
    let later = find_text needle s in
    if starts_with (c ∷ s) needle
    then some 0
    else elim later [ none ↦ none | some n ↦ some (suc n) ]

-- `split(sep)` on one character.
unfoldable pub split_on : ℕ → Text → List Text
split_on sep [] = [] ∷ []
split_on sep (c ∷ s) =
    let parts = split_on sep s in
    if c == sep
    then [] ∷ parts
    else elim parts [ [] ↦ (c ∷ []) ∷ [] | part ∷ more ↦ (c ∷ part) ∷ more ]

-- `join(sep)`
unfoldable pub join : Text → List Text → Text
join sep [] = []
join sep (part ∷ []) = part
join sep (part ∷ next ∷ more) = part ++ (sep ++ join sep (next ∷ more))

-- `split_once(sep)` on one character.
unfoldable pub split_once : ℕ → Text → Option (Text × Text)
split_once sep [] = none
split_once sep (c ∷ s) =
    let later = split_once sep s in
    if c == sep
    then some ([], s)
    else elim later [ none ↦ none | some (before, after) ↦ some (c ∷ before, after) ]

-- `trim`, of the ASCII white space.
unfoldable pub is_whitespace : ℕ → Bool
is_whitespace c = c == 32 || leb 9 c && leb c 13

unfoldable pub trim_start : Text → Text
unfolding is_whitespace
trim_start [] = []
trim_start (c ∷ s) = let rest = trim_start s in if is_whitespace c then rest else c ∷ s

unfoldable pub trim_end : Text → Text
unfolding is_whitespace
trim_end [] = []
trim_end (c ∷ s) =
    let rest = trim_end s in if is_whitespace c && is_empty rest then [] else c ∷ rest

unfoldable pub trim : Text → Text
unfolding trim_start trim_end
trim s = trim_end (trim_start s)

-- `to_digit(radix)`
unfoldable pub to_digit : ℕ → ℕ → Option ℕ
to_digit radix c =
    if leb b'0' c && leb c b'9'
    then (if ltb (c - b'0') radix then some (c - b'0') else none)
    else if leb b'a' c && ltb c (b'a' + radix - 10)
    then some (c - b'a' + 10)
    else if leb b'A' c && ltb c (b'A' + radix - 10)
    then some (c - b'A' + 10)
    else none

unfoldable pub parse_digits : ℕ → ℕ → ℕ → Text → Result Text ℕ
unfolding to_digit
parse_digits radix bound n [] = ok n
parse_digits radix bound n (c ∷ s) = elim (to_digit radix c) [
  | none ↦ err (codes "invalid digit found in string")
  | some d ↦
      let m = n * radix + d in
      let rest = parse_digits radix bound m s in
      if ltb m bound then rest else err (codes "number too large to fit in target type")
]

-- `from_str_radix` of an unsigned type whose values lie below `bound`; a leading `+` is allowed.
unfoldable pub from_str_radix : ℕ → ℕ → Text → Result Text ℕ
unfolding parse_digits
from_str_radix radix bound [] = err (codes "cannot parse integer from empty string")
from_str_radix radix bound (c ∷ s) =
    if c == b'+'
    then (if is_empty s
        then err (codes "invalid digit found in string")
        else parse_digits radix bound 0 s)
    else parse_digits radix bound 0 (c ∷ s)

parse_digits-lt :
    (radix bound n : ℕ) (s : Text) (m : ℕ)
    → n < bound
    → parse_digits radix bound n s ≡ ok m
    → m < bound
unfolding parse_digits
parse_digits-lt radix bound n [] m l h = ground arith
parse_digits-lt radix bound n (c ∷ s) m l h = elim (Option-cases (to_digit radix c)) [
  | inl e ↦ ground arith
  | inr (d, e) ↦ ground (arith, parse_digits-lt radix bound (n * radix + d) s m)
]

-- A number that was parsed fits its type.
pub from_str_radix-lt :
    (radix bound : ℕ) (s : Text) (m : ℕ)
    → 0 < bound
    → from_str_radix radix bound s ≡ ok m
    → m < bound
unfolding from_str_radix
from_str_radix-lt radix bound [] m l h = cc
from_str_radix-lt radix bound (c ∷ s) m l h =
    ground (arith, parse_digits-lt radix bound 0 s m, parse_digits-lt radix bound 0 (c ∷ s) m)

join_suffix :
    (sep part : Text) (c : ℕ) (more : List Text)
    → join sep ((c ∷ part) ∷ more) ≡ c ∷ join sep (part ∷ more)
unfolding join
join_suffix sep part c [] = refl
join_suffix sep part c (next ∷ more) = refl

pub split_on-nonempty :
    (sep : ℕ) (s : Text) → (part : Text) × (more : List Text) × (split_on sep s ≡ part ∷ more)
unfolding split_on
split_on-nonempty sep [] = ([], [], refl)
split_on-nonempty sep (c ∷ s) =
    let (part, more, e) = split_on-nonempty sep s in
    elim (Bool-cases (c == sep)) [
      | inl t ↦ ([], part ∷ more, rw (t, e) refl)
      | inr t ↦ (c ∷ part, more, rw (t, e) refl)
    ]

-- Joining the parts with the separator gives the text back.
pub join-split_on : (sep : ℕ) (s : Text) → join (sep ∷ []) (split_on sep s) ≡ s
unfolding split_on join
join-split_on sep [] = refl
join-split_on sep (c ∷ s) =
    let (part, more, e) = split_on-nonempty sep s in
    let ih : join (sep ∷ []) (part ∷ more) ≡ s =
      subst (λ x. join (sep ∷ []) x ≡ s) e (join-split_on sep s) in
    elim (Bool-cases (c == sep)) [
      | inl t ↦ rw (t, e) (ground (arith, ==_iff c sep, ih))
      | inr t ↦ rw (t, e) (join_suffix (sep ∷ []) part c more ∙ ap (◌∷◌ c) ih)
    ]
