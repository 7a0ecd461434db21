-- ===== src/Kdf/Choice.antt =====
-- pkinit-core/src/crypto/kdf.rs: the KDF that a KDC picks.
use kurbu5_pkinit.Common.{
  ==_iff, Bool, Bool-cases, Has, List, Oid, [], any, ap, arith, find, find-Has, find-none, inl, inr,
  list_eq, nat_eq, none, option_eq, some, sym, true, ◌==◌, ◌∷◌, ◌≡◌, ◌≢◌, ◌⊎◌,
}
use kurbu5_pkinit.Constants.{Oids, group_eq, kem_eq}
use kurbu5_pkinit.Kdf.{kdf_preference_order, pick_kdf_alg}

any_same-Has : (p : Oid) (ks : List Oid) → any (λ k. k == p) ks ≡ true → Has p ks
unfolding any
any_same-Has p [] h = cc
any_same-Has p (k ∷ ks) h = ground (arith, ==_iff k p, any_same-Has p ks)

Has-any : (p : Oid) (ks : List Oid) → Has p ks → any (λ k. k == p) ks ≡ true
unfolding any
Has-any p [] h = absurd h
Has-any p (k ∷ ks) h = ground (arith, ==_iff k p, Has-any p ks)

-- Whichever of two KDFs comes first in a list of preferences.
abbrev pub Before : Oid → List Oid → Oid → Type 0
Before k [] q = ⊥
Before k (p ∷ ps) q = (p ≡ k) ⊎ ((p ≢ q) × Before k ps q)

find-best :
    (ks ps : List Oid) (k : Oid)
    → find (λ p. any (λ x. x == p) ks) ps ≡ some k
    → (q : Oid) → Has q ps
    → Has q ks
    → Before k ps q
unfolding find
find-best ks [] k h q m n = absurd m
find-best ks (p ∷ ps) k h q m n = elim (Bool-cases (any (λ x. x == p) ks)) [
  | inl e ↦ inl (ground arith)
  | inr e ↦
      let d : p ≢ q = λ r. ground (arith, Has-any q ks n, ap (λ x. any (λ y. y == x) ks) r) in
      inr (
        d,
        find-best ks ps k (ground arith) q (elim m [ inl r ↦ absurd (d (sym r)) | inr l ↦ l ]) n,
      )
]

-- The KDC picks a KDF exactly when the client offered one that the KDC knows; it is then the first in
-- the KDC's own order of preference among those offered, whatever the client's order is.
pub pick_kdf_alg-best :
    (oids : Oids) (ks : List Oid)
    → ((k : Oid)
        → pick_kdf_alg oids ks ≡ some k
        → Has k ks
          × Has k (kdf_preference_order oids)
          × ((q : Oid)
              → Has q (kdf_preference_order oids)
              → Has q ks
              → Before k (kdf_preference_order oids) q))
      × (pick_kdf_alg oids ks ≡ none → (q : Oid) → Has q (kdf_preference_order oids) → ¬ Has q ks)
unfolding pick_kdf_alg
pick_kdf_alg-best oids ks =
    let offered : Oid → Bool = λ p. any (λ x. x == p) ks in
    let order = kdf_preference_order oids in
    (
      λ k h.
          let (m, a) = find-Has offered order k h in
          (any_same-Has k ks a, m, find-best ks order k h),
      λ h q m n. absurd (ground (arith, find-none offered order q h m, Has-any q ks n)),
    )
