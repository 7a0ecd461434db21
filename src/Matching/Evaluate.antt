-- ===== src/Matching/Evaluate.antt =====
-- pkinit-core/src/identity/matching.rs: what the evaluation of a rule decides.
use Prim.Native.Nat.{bit_and}
use mathlib.Core.Path.{subst}
use kurbu5_pkinit.Common.{
  ==_iff, ==_refl, >>=-eq-ok, Bool, Bool-cases, Bytes, Has, List, Oid, Text, [], any, any-Has, ap,
  arith, false, inl, inr, list_eq, nat_eq, ok, ok-injective, option_eq, refl, true, ℕ, ◌==◌, ◌∙◌,
  ◌∷◌, ◌≡◌, ◌⊎◌,
}
use kurbu5_pkinit.Error.{PkinitError}
use kurbu5_pkinit.Synta.{Synta}
use kurbu5_pkinit.San.{extract_eku_oids, extract_key_usage}
use kurbu5_pkinit.Matching.{
  MatchRule, MatchRules, all_of, all_sans, and_then, any_of, eku, evaluate, evaluate_all,
  evaluate_any, extract_issuer_dn, extract_subject_dn, issuer, ku, no_rules, san, simple_match,
  subject,
}
use kurbu5_pkinit.Matching.Usage.{Covers, bit_and-mask}

unfoldable mutual
  -- A certificate satisfies a rule: all rules of a conjunction hold, and some rule of a disjunction
  -- holds after ones that are false. A rule on a name asks that the pattern match it, one on the
  -- alternative names that it match one of them; an EKU is among those of the certificate, and every
  -- bit of a key usage mask is set in the certificate's key usage.
  pub Satisfies : Synta → Bytes → MatchRule → Type 0
  Satisfies synta cert (all_of rules) = SatisfiesAll synta cert rules
  Satisfies synta cert (any_of rules) = SatisfiesAny synta cert rules
  Satisfies synta cert (subject p) =
      (dn : Text) × (extract_subject_dn synta cert ≡ ok dn) × (simple_match dn p ≡ true)
  Satisfies synta cert (issuer p) =
      (dn : Text) × (extract_issuer_dn synta cert ≡ ok dn) × (simple_match dn p ≡ true)
  Satisfies synta cert (san p) =
      (names : List Text) × (all_sans synta cert ≡ ok names)
      × ((name : Text) × Has name names × (simple_match name p ≡ true))
  Satisfies synta cert (eku oid) =
      (ekus : List Oid) × (extract_eku_oids synta cert ≡ ok ekus) × Has oid ekus
  Satisfies synta cert (ku bits) =
      (usage : ℕ) × (extract_key_usage synta cert ≡ ok usage) × Covers usage bits

  pub SatisfiesAll : Synta → Bytes → MatchRules → Type 0
  SatisfiesAll synta cert no_rules = Unit
  SatisfiesAll synta cert (and_then r rules) =
      Satisfies synta cert r × SatisfiesAll synta cert rules

  pub SatisfiesAny : Synta → Bytes → MatchRules → Type 0
  SatisfiesAny synta cert no_rules = ⊥
  SatisfiesAny synta cert (and_then r rules) =
      Satisfies synta cert r ⊎ ((evaluate synta cert r ≡ ok false) × SatisfiesAny synta cert rules)

subject-Satisfied :
    (synta : Synta) (cert : Bytes) (p : Text)
    → evaluate synta cert (subject p) ≡ ok true
    → Satisfies synta cert (subject p)
unfolding Satisfies evaluate
subject-Satisfied synta cert p h =
    let (dn, e, k) = >>=-eq-ok (extract_subject_dn synta cert) _ h in
    (dn, e, ok-injective {E = PkinitError} k)

subject-evaluated :
    (synta : Synta) (cert : Bytes) (p : Text)
    → Satisfies synta cert (subject p)
    → evaluate synta cert (subject p) ≡ ok true
unfolding Satisfies evaluate
subject-evaluated synta cert p (dn, e, k) = rw (evaluate, e) (rw k refl)

issuer-Satisfied :
    (synta : Synta) (cert : Bytes) (p : Text)
    → evaluate synta cert (issuer p) ≡ ok true
    → Satisfies synta cert (issuer p)
unfolding Satisfies evaluate
issuer-Satisfied synta cert p h =
    let (dn, e, k) = >>=-eq-ok (extract_issuer_dn synta cert) _ h in
    (dn, e, ok-injective {E = PkinitError} k)

issuer-evaluated :
    (synta : Synta) (cert : Bytes) (p : Text)
    → Satisfies synta cert (issuer p)
    → evaluate synta cert (issuer p) ≡ ok true
unfolding Satisfies evaluate
issuer-evaluated synta cert p (dn, e, k) = rw (evaluate, e) (rw k refl)

any-found :
    {A : Type 0} (p : A → Bool) (xs : List A) (x : A) → Has x xs → p x ≡ true → any p xs ≡ true
unfolding any
any-found p [] x m h = absurd m
any-found p (y ∷ xs) x (inl e) h = let k : p y ≡ true = subst (λ z. p z ≡ true) e h in rw k refl
any-found p (y ∷ xs) x (inr m) h = let k = any-found p xs x m h in ground (arith, k)

san-Satisfied :
    (synta : Synta) (cert : Bytes) (p : Text)
    → evaluate synta cert (san p) ≡ ok true
    → Satisfies synta cert (san p)
unfolding Satisfies evaluate
san-Satisfied synta cert p h =
    let (names, e, k) = >>=-eq-ok (all_sans synta cert) _ h in
    let found = ok-injective {E = PkinitError} k in
    (names, e, any-Has (λ s. simple_match s p) names found)

san-evaluated :
    (synta : Synta) (cert : Bytes) (p : Text)
    → Satisfies synta cert (san p)
    → evaluate synta cert (san p) ≡ ok true
unfolding Satisfies evaluate
san-evaluated synta cert p (names, e, (name, m, k)) =
    let found = any-found (λ s. simple_match s p) names name m k in rw (evaluate, e) (rw found refl)

eku-Satisfied :
    (synta : Synta) (cert : Bytes) (oid : Oid)
    → evaluate synta cert (eku oid) ≡ ok true
    → Satisfies synta cert (eku oid)
unfolding Satisfies evaluate
eku-Satisfied synta cert oid h =
    let (ekus, e, k) = >>=-eq-ok (extract_eku_oids synta cert) _ h in
    let (one, m, same) = any-Has (λ x. x == oid) ekus (ok-injective {E = PkinitError} k) in
    (ekus, e, subst (λ x. Has x ekus) ((==_iff one oid).0 same) m)

eku-evaluated :
    (synta : Synta) (cert : Bytes) (oid : Oid)
    → Satisfies synta cert (eku oid)
    → evaluate synta cert (eku oid) ≡ ok true
unfolding Satisfies evaluate
eku-evaluated synta cert oid (ekus, e, m) =
    let found = any-found (λ x. x == oid) ekus oid m (==_refl oid) in
    rw (evaluate, e) (rw found refl)

ku-Satisfied :
    (synta : Synta) (cert : Bytes) (bits : ℕ)
    → evaluate synta cert (ku bits) ≡ ok true
    → Satisfies synta cert (ku bits)
unfolding Satisfies evaluate
ku-Satisfied synta cert bits h =
    let (usage, e, k) = >>=-eq-ok (extract_key_usage synta cert) _ h in
    let same = (==_iff (bit_and usage bits) bits).0 (ok-injective {E = PkinitError} k) in
    (usage, e, (bit_and-mask usage bits).0 same)

ku-evaluated :
    (synta : Synta) (cert : Bytes) (bits : ℕ)
    → Satisfies synta cert (ku bits)
    → evaluate synta cert (ku bits) ≡ ok true
unfolding Satisfies evaluate
ku-evaluated synta cert bits (usage, e, covers) =
    let same = (==_iff (bit_and usage bits) bits).1 ((bit_and-mask usage bits).1 covers) in
    rw (evaluate, e) (rw same refl)

mutual
  unfolding Satisfies evaluate

  evaluate-true :
      (synta : Synta) (cert : Bytes) (r : MatchRule)
      → evaluate synta cert r ≡ ok true
      → Satisfies synta cert r
  evaluate-true synta cert (subject p) h = subject-Satisfied synta cert p h
  evaluate-true synta cert (issuer p) h = issuer-Satisfied synta cert p h
  evaluate-true synta cert (san p) h = san-Satisfied synta cert p h
  evaluate-true synta cert (eku oid) h = eku-Satisfied synta cert oid h
  evaluate-true synta cert (ku bits) h = ku-Satisfied synta cert bits h
  evaluate-true synta cert (all_of rules) h = evaluate_all-true synta cert rules h
  evaluate-true synta cert (any_of rules) h = evaluate_any-true synta cert rules h

  evaluate_all-true :
      (synta : Synta) (cert : Bytes) (rules : MatchRules)
      → evaluate_all synta cert rules ≡ ok true
      → SatisfiesAll synta cert rules
  evaluate_all-true synta cert no_rules h = tt
  evaluate_all-true synta cert (and_then r rules) h =
      let (holds, e, k) = >>=-eq-ok (evaluate synta cert r) _ h in
      elim (Bool-cases holds) [
        | inl t ↦ (
          evaluate-true synta cert r (e ∙ ap ok t),
          evaluate_all-true synta cert rules (ground arith),
        )
        | inr t ↦ absurd (ground arith)
      ]

  evaluate_any-true :
      (synta : Synta) (cert : Bytes) (rules : MatchRules)
      → evaluate_any synta cert rules ≡ ok true
      → SatisfiesAny synta cert rules
  evaluate_any-true synta cert no_rules h = absurd (ground arith)
  evaluate_any-true synta cert (and_then r rules) h =
      let (holds, e, k) = >>=-eq-ok (evaluate synta cert r) _ h in
      elim (Bool-cases holds) [
        | inl t ↦ inl (evaluate-true synta cert r (e ∙ ap ok t))
        | inr t ↦ inr (e ∙ ap ok t, evaluate_any-true synta cert rules (ground arith))
      ]

mutual
  unfolding Satisfies evaluate

  true-evaluate :
      (synta : Synta) (cert : Bytes) (r : MatchRule)
      → Satisfies synta cert r
      → evaluate synta cert r ≡ ok true
  true-evaluate synta cert (subject p) h = subject-evaluated synta cert p h
  true-evaluate synta cert (issuer p) h = issuer-evaluated synta cert p h
  true-evaluate synta cert (san p) h = san-evaluated synta cert p h
  true-evaluate synta cert (eku oid) h = eku-evaluated synta cert oid h
  true-evaluate synta cert (ku bits) h = ku-evaluated synta cert bits h
  true-evaluate synta cert (all_of rules) h = true-evaluate_all synta cert rules h
  true-evaluate synta cert (any_of rules) h = true-evaluate_any synta cert rules h

  true-evaluate_all :
      (synta : Synta) (cert : Bytes) (rules : MatchRules)
      → SatisfiesAll synta cert rules
      → evaluate_all synta cert rules ≡ ok true
  true-evaluate_all synta cert no_rules h = refl
  true-evaluate_all synta cert (and_then r rules) (h, k) =
      rw (evaluate_all, true-evaluate synta cert r h) (true-evaluate_all synta cert rules k)

  true-evaluate_any :
      (synta : Synta) (cert : Bytes) (rules : MatchRules)
      → SatisfiesAny synta cert rules
      → evaluate_any synta cert rules ≡ ok true
  true-evaluate_any synta cert no_rules h = absurd h
  true-evaluate_any synta cert (and_then r rules) (inl h) =
      rw (evaluate_any, true-evaluate synta cert r h) refl
  true-evaluate_any synta cert (and_then r rules) (inr (e, k)) =
      rw (evaluate_any, e) (true-evaluate_any synta cert rules k)
