-- ===== src/Matching/Glob.antt =====
-- pkinit-core/src/identity/matching.rs: `simple_match` against patterns with `*` and without it.
use mathlib.Core.Path.{subst}
use mathlib.Core.List.{append_assoc, append-nil}
use kurbu5_pkinit.Common.{
  ==_iff, Bool-cases, List, List-cases, Option-cases, Text, [], ap, arith, contains, drop, drop-add,
  drop-length-append, false, inl, inr, length, length-append, length-drop, length-empty, list_eq,
  nat_eq, option_eq, refl, some, suc, sym, true, ℕ, ◌++◌, ◌+◌, ◌<◌, ◌==◌, ◌↔◌, ◌∙◌, ◌∷◌, ◌≡◌, ◌⊎◌,
}
use kurbu5_pkinit.Common.Strings.{
  codes, find_text, join, join-split_on, split_on, split_on-nonempty, starts_with, strip_prefix,
  strip_prefix-append, strip_prefix-some,
}
use kurbu5_pkinit.Matching.{contains_text, ends_open, glob_loop, match_parts, simple_match}

-- A text matches a pattern in which `*` stands for any sequence of bytes.
pub data Glob : Text → Text → Type 0 where
  done : Glob [] []
  same : (c : ℕ) (p t : Text) → Glob p t → Glob (c ∷ p) (c ∷ t)
  star_ends : (p t : Text) → Glob p t → Glob (b'*' ∷ p) t
  star_takes : (c : ℕ) (p t : Text) → Glob (b'*' ∷ p) t → Glob (b'*' ∷ p) (c ∷ t)

Glob-literal : (l p t : Text) → Glob p t → Glob (l ++ p) (l ++ t)
Glob-literal [] p t g = g
Glob-literal (c ∷ l) p t g = same c (l ++ p) (l ++ t) (Glob-literal l p t g)

Glob-gap : (gap p t : Text) → Glob p t → Glob (b'*' ∷ p) (gap ++ t)
Glob-gap [] p t g = star_ends p t g
Glob-gap (c ∷ gap) p t g = star_takes c p (gap ++ t) (Glob-gap gap p t g)

-- The text `s` is `gap`, the needle and `rest`.
pub record FoundAt (needle s : Text) (n : ℕ) : Type 0 where
  pub gap : Text
  pub rest : Text
  pub splits : s ≡ gap ++ (needle ++ rest)
  pub offset : length gap ≡ n

starts_with-FoundAt : (needle s : Text) → starts_with s needle ≡ true → FoundAt needle s 0
unfolding starts_with
starts_with-FoundAt needle s h = elim (Option-cases (strip_prefix needle s)) [
  | inl e ↦ absurd (ground arith)
  | inr (rest, e) ↦ record {
    gap = [];
    rest = rest;
    splits = strip_prefix-some needle s rest e;
    offset = refl;
  }
]

pub find_text-FoundAt : (needle s : Text) (n : ℕ) → find_text needle s ≡ some n → FoundAt needle s n
unfolding find_text
find_text-FoundAt [] [] n h = record { gap = []; rest = []; splits = refl; offset = ground arith }
find_text-FoundAt (x ∷ xs) [] n h = cc
find_text-FoundAt needle (c ∷ s) n h = elim (Bool-cases (starts_with (c ∷ s) needle)) [
  | inl t ↦
      let zero_offset : 0 ≡ n = ground arith in
      subst (FoundAt needle (c ∷ s)) zero_offset (starts_with-FoundAt needle (c ∷ s) t)
  | inr t ↦ elim (Option-cases (find_text needle s)) [
    | inl e ↦ absurd (ground arith)
    | inr (m, e) ↦
        let f = find_text-FoundAt needle s m e in
        let next : suc m ≡ n = ground arith in
        record {
          gap = c ∷ f.gap;
          rest = f.rest;
          splits = ap (◌∷◌ c) f.splits;
          offset = omega (arith, f.offset);
        }
  ]
]

-- What follows the needle is what is left after its end.
drop-FoundAt :
    (needle h s : Text) (pos n : ℕ)
    → drop pos h ≡ s
    → (f : FoundAt needle s n) → drop (pos + (n + length needle)) h ≡ f.rest
drop-FoundAt needle h s pos n e f =
    let l : n + length needle ≡ length (f.gap ++ needle) =
      omega (arith, f.offset, length-append f.gap needle) in
    let q : s ≡ (f.gap ++ needle) ++ f.rest = f.splits ∙ sym (append_assoc f.gap needle f.rest) in
    drop-add pos (n + length needle) h
    ∙ rw (e, l)
        (ap (drop (length (f.gap ++ needle))) q ∙ drop-length-append (f.gap ++ needle) f.rest)

-- Where the last part ends the text, nothing is left.
rest-empty :
    (needle h s : Text) (pos n : ℕ)
    → drop pos h ≡ s
    → 0 < length needle
    → (f : FoundAt needle s n) → pos + (n + length needle) ≡ length h
    → f.rest ≡ []
rest-empty needle h s pos n e p f q = elim (List-cases f.rest) [
  | inl r ↦ r
  | inr (x, xs, r) ↦
      let l = sym (length-drop pos h) ∙ ap length (e ∙ f.splits) in
      let m = length-append f.gap (needle ++ f.rest) in
      let k = length-append needle f.rest in
      absurd (omega (arith, l, m, k, q, f.offset, p, ap length r))
]

abbrev EndsRight : Text → List Text → ℕ → Type 0
EndsRight h parts end = (ends_open parts ≡ true) ⊎ (end ≡ length h)

glob_loop-Glob :
    (h : Text) (parts : List Text) (part : Text) (pos end : ℕ) (s : Text)
    → drop pos h ≡ s
    → glob_loop h false pos (part ∷ parts) ≡ some end
    → EndsRight h (part ∷ parts) end
    → Glob (b'*' ∷ join (codes "*") (part ∷ parts)) s
unfolding glob_loop ends_open join
glob_loop-Glob h [] [] pos end s e g r =
    subst (Glob (codes "*")) (append-nil s) (Glob-gap s [] [] done)
glob_loop-Glob h (next ∷ more) [] pos end s e g r =
    star_ends _ s (glob_loop-Glob h more next pos end s e g r)
glob_loop-Glob h [] (c ∷ cs) pos end s e g r =
    elim (Option-cases (find_text (c ∷ cs) (drop pos h))) [
      | inl q ↦ absurd (ground arith)
      | inr (n, q) ↦
          let f = find_text-FoundAt (c ∷ cs) s n (subst (λ x. find_text (c ∷ cs) x ≡ some n) e q) in
          let ending : pos + (n + length (c ∷ cs)) ≡ end = ground arith in
          let last : end ≡ length h = elim r [ inl t ↦ absurd (ground arith) | inr t ↦ t ] in
          let nothing = rest-empty (c ∷ cs) h s pos n e (omega arith) f (ending ∙ last) in
          subst (Glob (b'*' ∷ c ∷ cs))
            (ap (λ x. f.gap ++ ((c ∷ cs) ++ x)) (sym nothing) ∙ sym f.splits)
            (Glob-gap f.gap (c ∷ cs) (c ∷ (cs ++ [])) (
              subst (λ x. Glob x (c ∷ (cs ++ []))) (append-nil (c ∷ cs))
                (Glob-literal (c ∷ cs) [] [] done)))
    ]
glob_loop-Glob h (next ∷ more) (c ∷ cs) pos end s e g r =
    elim (Option-cases (find_text (c ∷ cs) (drop pos h))) [
      | inl q ↦ absurd (ground arith)
      | inr (n, q) ↦
          let f = find_text-FoundAt (c ∷ cs) s n (subst (λ x. find_text (c ∷ cs) x ≡ some n) e q) in
          let later = drop-FoundAt (c ∷ cs) h s pos n e f in
          let g' : glob_loop h false (pos + (n + length (c ∷ cs))) (next ∷ more) ≡ some end =
            ground arith in
          let ih = glob_loop-Glob h more next _ end f.rest later g' r in
          subst (Glob _) (sym f.splits)
            (Glob-gap f.gap _ ((c ∷ cs) ++ f.rest) (Glob-literal (c ∷ cs) _ f.rest ih))
    ]

split_on-star :
    (s : Text)
    → contains s b'*' ≡ true
    → (part : Text) × (next : Text) × (more : List Text) × (split_on b'*' s ≡ part ∷ next ∷ more)
unfolding contains split_on
split_on-star [] h = cc
split_on-star (c ∷ s) h = elim (Bool-cases (c == b'*')) [
  | inl t ↦ let (part, more, e) = split_on-nonempty b'*' s in ([], part, more, rw (t, e) refl)
  | inr t ↦
      let (part, next, more, e) = split_on-star s (ground arith) in
      (c ∷ part, next, more, rw (t, e) refl)
]

simple_match-parts :
    (h : Text) (part next : Text) (more : List Text) (end : ℕ)
    → glob_loop h true 0 (part ∷ next ∷ more) ≡ some end
    → EndsRight h (next ∷ more) end
    → Glob (join (codes "*") (part ∷ next ∷ more)) h
unfolding glob_loop join
simple_match-parts h [] next more end g r = glob_loop-Glob h more next 0 end h refl g r
simple_match-parts h (c ∷ cs) next more end g r = elim (Option-cases (find_text (c ∷ cs) h)) [
  | inl q ↦ absurd (ground arith)
  | inr (n, q) ↦
      let f = find_text-FoundAt (c ∷ cs) h n q in
      let start : n ≡ 0 = ground arith in
      let later = drop-FoundAt (c ∷ cs) h h 0 n refl f in
      let g' : glob_loop h false (0 + (n + length (c ∷ cs))) (next ∷ more) ≡ some end =
        ground arith in
      let ih = glob_loop-Glob h more next _ end f.rest later g' r in
      let no_gap : f.gap ≡ [] = length-empty f.gap (omega (arith, f.offset, start)) in
      subst (Glob _) (sym (f.splits ∙ ap (λ x. x ++ ((c ∷ cs) ++ f.rest)) no_gap))
        (Glob-literal (c ∷ cs) _ f.rest ih)
]

match_parts-Glob :
    (h : Text) (part next : Text) (more : List Text)
    → match_parts h (part ∷ next ∷ more) ≡ true
    → Glob (join (codes "*") (part ∷ next ∷ more)) h
unfolding match_parts ends_open
match_parts-Glob h part next more m =
    elim (Option-cases (glob_loop h true 0 (part ∷ next ∷ more))) [
      | inl q ↦ absurd (ground arith)
      | inr (end, q) ↦
          simple_match-parts h part next more end q (elim (Bool-cases (ends_open (next ∷ more))) [
            | inl t ↦ inl t
            | inr t ↦ inr (ground (arith, ==_iff end (length h)))
          ])
    ]

-- A pattern with `*` that `simple_match` accepts matches the text, with `*` for any sequence of
-- bytes.
pub simple_match-Glob :
    (haystack pattern : Text)
    → contains pattern b'*' ≡ true
    → simple_match haystack pattern ≡ true
    → Glob pattern haystack
unfolding simple_match
simple_match-Glob haystack pattern star h =
    let (part, next, more, e) = split_on-star pattern star in
    let m : match_parts haystack (split_on b'*' pattern) ≡ true = ground arith in
    subst (λ x. Glob x haystack) (ap (join (codes "*")) (sym e) ∙ join-split_on b'*' pattern)
      (match_parts-Glob haystack part next more (subst (λ x. match_parts haystack x ≡ true) e m))

find_text-append :
    (before needle after : Text) → contains_text (before ++ (needle ++ after)) needle ≡ true
unfolding contains_text find_text starts_with strip_prefix
find_text-append [] [] [] = refl
find_text-append [] [] (c ∷ after) = refl
find_text-append [] (x ∷ needle) after =
    let e = strip_prefix-append (x ∷ needle) after in ground (arith, e)
find_text-append (c ∷ before) needle after = ground (arith, find_text-append before needle after)

-- A pattern without `*` matches exactly the texts that it is a part of.
pub simple_match-substring :
    (haystack pattern : Text)
    → contains pattern b'*' ≡ false
    → (simple_match haystack pattern ≡ true)
      ↔ ((before : Text) × (after : Text) × (haystack ≡ before ++ (pattern ++ after)))
unfolding simple_match contains_text
simple_match-substring haystack pattern plain = (
  λ h. elim (Option-cases (find_text pattern haystack)) [
    | inl q ↦ absurd (ground arith)
    | inr (n, q) ↦ let f = find_text-FoundAt pattern haystack n q in (f.gap, f.rest, f.splits)
  ],
  λ (before, after, e).
      let c : contains_text haystack pattern ≡ true =
        subst (λ x. contains_text x pattern ≡ true) (sym e)
          (find_text-append before pattern after) in
      ground arith,
)
