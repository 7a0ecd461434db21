-- ===== src/Matching/Bounds.antt =====
-- pkinit-core/src/identity/matching.rs: the numbers of a parsed rule fit their machine types.
use mathlib.Core.Path.{subst}
use kurbu5_pkinit.Common.{
  >>=-eq-ok, AllOf, Bool-cases, List, Option-cases, Text, [], arith, collect, collect-AllOf, inl,
  inr, list_eq, map_err, map_err-eq-ok, nat_eq, ok, ok-injective, option_eq, ◌<◌, ◌==◌, ◌>>=◌, ◌^◌,
  ◌∷◌, ◌≡◌,
}
use kurbu5_pkinit.Common.Strings.{
  codes, from_str_radix, from_str_radix-lt, split_on, split_once, strip_prefix, trim,
}
use kurbu5_pkinit.Error.{Pkinit, PkinitError, config, str, text}
use kurbu5_pkinit.Matching.{
  MatchRule, MatchRules, all_of, and_then, any_of, eku, issuer, ku, no_rules, parse_and, parse_leaf,
  parse_or, parse_rule, parse_tagged, rules_of, san, split_top_level, subject,
}

unfoldable mutual
  -- Arcs of an EKU fit 32 bits and key usage bits fit 16.
  pub InRange : MatchRule → Type 0
  InRange (eku oid) = AllOf (λ arc. arc < 2 ^ 32) oid
  InRange (ku bits) = bits < 2 ^ 16
  InRange (all_of rules) = AllInRange rules
  InRange (any_of rules) = AllInRange rules
  InRange _ = Unit

  pub AllInRange : MatchRules → Type 0
  AllInRange no_rules = Unit
  AllInRange (and_then r rules) = InRange r × AllInRange rules

rules_of-AllInRange : (rs : List MatchRule) → AllOf InRange rs → AllInRange (rules_of rs)
unfolding InRange rules_of
rules_of-AllInRange [] h = tt
rules_of-AllInRange (r ∷ rs) (h, k) = (h, rules_of-AllInRange rs k)

parse_tagged-InRange :
    (tag value : Text) (r : MatchRule) → parse_tagged tag value ≡ ok r → InRange r
unfolding parse_tagged InRange
parse_tagged-InRange tag value r h = elim (Bool-cases (tag == codes "SUBJECT")) [
  | inl a ↦ let e : subject value ≡ r = ground arith in subst InRange e tt
  | inr a ↦ elim (Bool-cases (tag == codes "ISSUER")) [
    | inl b ↦ let e : issuer value ≡ r = ground arith in subst InRange e tt
    | inr b ↦ elim (Bool-cases (tag == codes "SAN")) [
      | inl c ↦ let e : san value ≡ r = ground arith in subst InRange e tt
      | inr c ↦ elim (Bool-cases (tag == codes "EKU")) [
        | inl d ↦ arcs (ground arith)
        | inr d ↦ elim (Bool-cases (tag == codes "KU")) [
          | inl f ↦ bits (ground arith)
          | inr f ↦ absurd (ground arith)
        ]
      ]
    ]
  ]
]
  where
    arcs :
        map_err
            (collect (from_str_radix 10 (2 ^ 32)) (split_on b'.' value) >>= λ oid. ok (eku oid))
            (λ e. config (str "invalid EKU OID " ∷ text value ∷ str ": " ∷ text e ∷ []))
          ≡ ok r
        → InRange r
    arcs k =
        let (oid, e, q) =
          >>=-eq-ok (collect (from_str_radix 10 (2 ^ 32)) (split_on b'.' value)) _
            (map_err-eq-ok _ _ k) in
        subst InRange (ok-injective {E = Text} q) (
          collect-AllOf (from_str_radix 10 (2 ^ 32)) (λ arc. arc < 2 ^ 32)
            (λ x y. from_str_radix-lt 10 (2 ^ 32) x y (omega arith)) (split_on b'.' value) oid e)

    bits :
        map_err
            (from_str_radix 16 (2 ^ 16) value >>= λ n. ok (ku n))
            (λ e. config (str "invalid KU hex " ∷ text value ∷ str ": " ∷ text e ∷ []))
          ≡ ok r
        → InRange r
    bits k =
        let (n, e, q) = >>=-eq-ok (from_str_radix 16 (2 ^ 16) value) _ (map_err-eq-ok _ _ k) in
        subst InRange (ok-injective {E = Text} q)
          (from_str_radix-lt 16 (2 ^ 16) value n (omega arith) e)

parse_leaf-InRange : (raw : Text) (r : MatchRule) → parse_leaf raw ≡ ok r → InRange r
unfolding parse_leaf
parse_leaf-InRange raw r h = elim (Option-cases (strip_prefix (codes "<") (trim raw))) [
  | inl e ↦ absurd (ground arith)
  | inr (inner, e) ↦ elim (Option-cases (split_once b'>' inner)) [
    | inl q ↦ absurd (ground arith)
    | inr ((tag, value), q) ↦ parse_tagged-InRange tag value r (ground arith)
  ]
]

-- One step of both levels: the only part alone, or all parts under a connective.
parts-InRange :
    (parse : Text → Pkinit MatchRule) (connect : MatchRules → MatchRule) (parts : List Text)
    (r : MatchRule)
    → ((s : Text) (x : MatchRule) → parse s ≡ ok x → InRange x)
    → ((rules : MatchRules) → AllInRange rules → InRange (connect rules))
    → (elim parts [
      | part ∷ [] ↦ parse part
      | several ↦ do rules ← collect parse several; ok (connect (rules_of rules))
    ])
      ≡ ok r
    → InRange r
unfolding rules_of collect AllInRange
parts-InRange parse connect [] r each keeps h =
    subst InRange (ok-injective {E = PkinitError} h) (keeps no_rules tt)
parts-InRange parse connect (part ∷ []) r each keeps h = each part r h
parts-InRange parse connect (part ∷ next ∷ more) r each keeps h =
    let (rules, e, q) = >>=-eq-ok (collect parse (part ∷ next ∷ more)) _ h in
    subst InRange (ok-injective {E = PkinitError} q) (
      keeps (rules_of rules)
        (rules_of-AllInRange rules (collect-AllOf parse InRange each (part ∷ next ∷ more) rules e)))

parse_and-InRange : (s : Text) (r : MatchRule) → parse_and s ≡ ok r → InRange r
unfolding parse_and InRange
parse_and-InRange s r h =
    parts-InRange parse_leaf all_of (split_top_level s (codes "&&")) r parse_leaf-InRange
      (λ rules k. k) h

-- In a rule that was parsed every arc of an extended key usage is below 2^32 and all key usage bits
-- are below 2^16, at any depth.
pub parse_rule-InRange : (rule_str : Text) (r : MatchRule) → parse_rule rule_str ≡ ok r → InRange r
unfolding parse_rule parse_or InRange
parse_rule-InRange rule_str r h =
    parts-InRange parse_and any_of (split_top_level (trim rule_str) (codes "||")) r
      parse_and-InRange (λ rules k. k) h
