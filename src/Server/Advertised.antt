-- ===== src/Server/Advertised.antt =====
-- pkinit-core/src/server.rs: the KEMs that a KDC advertises, and those that it accepts.
use mathlib.Core.Path.{subst}
use kurbu5_pkinit.Common.{
  Bool-cases, Has, List, [], arith, contains, contains-Has, false, inl, inr, leb, list_eq, nat_eq,
  option_eq, true, ◌++◌, ◌↔◌, ◌∷◌, ◌≡◌, ◌⊎◌,
}
use kurbu5_pkinit.Constants.{
  KemAlgorithm, group_eq, is_composite, kem_beq_iff, kem_eq, strength_order,
}
use kurbu5_pkinit.Config.{PkinitKdcConfig}
use kurbu5_pkinit.Server.State.{accepts_kem, advertised_kems, insert_by_strength, sort_by_strength}

-- The two lists of the configuration hold the two families.
pub record IsSplit (config : PkinitKdcConfig) : Type 0 where
  pub pure_only :
      (a : KemAlgorithm) → Has a config.supported_kem_algorithms → is_composite a ≡ false
  pub composite_only :
      (a : KemAlgorithm) → Has a config.supported_composite_kem_algorithms → is_composite a ≡ true

Has-insert :
    (a b : KemAlgorithm) (bs : List KemAlgorithm)
    → Has a (insert_by_strength b bs) ↔ ((a ≡ b) ⊎ Has a bs)
unfolding insert_by_strength
Has-insert a b [] = (λ h. h, λ h. h)
Has-insert a b (c ∷ cs) =
    let (f, g) = Has-insert a b cs in
    elim (Bool-cases (leb (strength_order c) (strength_order b))) [
      | inl e ↦ rw (e, insert_by_strength) (λ h. h, λ h. h)
      | inr e ↦
          rw (e, insert_by_strength)
            (
              λ h. elim h [
                | inl p ↦ inr (inl p)
                | inr m ↦ elim (f m) [ inl p ↦ inl p | inr n ↦ inr (inr n) ]
              ],
              λ h. elim h [
                | inl p ↦ inr (g (inl p))
                | inr (inl p) ↦ inl p
                | inr (inr n) ↦ inr (g (inr n))
              ],
            )
    ]

Has-sort : (a : KemAlgorithm) (bs : List KemAlgorithm) → Has a (sort_by_strength bs) ↔ Has a bs
unfolding sort_by_strength
Has-sort a [] = (λ h. h, λ h. h)
Has-sort a (b ∷ bs) =
    let (f, g) = Has-sort a bs in
    let (p, q) = Has-insert a b (sort_by_strength bs) in
    (
      λ h. elim (p h) [ inl e ↦ inl e | inr m ↦ inr (f m) ],
      λ h. q (elim h [ inl e ↦ inl e | inr m ↦ inr (g m) ]),
    )

Has-++ : (a : KemAlgorithm) (bs cs : List KemAlgorithm) → Has a (bs ++ cs) ↔ (Has a bs ⊎ Has a cs)
Has-++ a [] cs = (inr, λ h. elim h [ inl m ↦ absurd m | inr m ↦ m ])
Has-++ a (b ∷ bs) cs =
    let (f, g) = Has-++ a bs cs in
    (
      λ h. elim h [
        | inl e ↦ inl (inl e)
        | inr m ↦ elim (f m) [ inl n ↦ inl (inr n) | inr n ↦ inr n ]
      ],
      λ h. elim h [ inl (inl e) ↦ inl e | inl (inr n) ↦ inr (g (inl n)) | inr n ↦ inr (g (inr n)) ],
    )

Has-contains : (bs : List KemAlgorithm) (a : KemAlgorithm) → Has a bs → contains bs a ≡ true
unfolding contains
Has-contains [] a h = absurd h
Has-contains (b ∷ bs) a h = ground (arith, kem_beq_iff b a, Has-contains bs a)

module _ (config : PkinitKdcConfig) (split : IsSplit config) where
  accepts_kem-advertised :
      (a : KemAlgorithm) → Has a (advertised_kems config) → accepts_kem config a ≡ true
  unfolding advertised_kems accepts_kem
  accepts_kem-advertised a h =
      elim ((Has-++ a (sort_by_strength config.supported_kem_algorithms)
          config.supported_composite_kem_algorithms).0
        h) [
          | inl m ↦
              let n = (Has-sort a config.supported_kem_algorithms).0 m in
              let p = split.pure_only a n in
              let q = Has-contains config.supported_kem_algorithms a n in ground (arith, p, q)
          | inr m ↦
              let p = split.composite_only a m in
              let q = Has-contains config.supported_composite_kem_algorithms a m in
              ground (arith, p, q)
        ]

  advertised-accepts_kem :
      (a : KemAlgorithm)
      → accepts_kem config a ≡ true
      → Has a (advertised_kems config)
        ⊎ ((is_composite a ≡ false) × (config.supported_kem_algorithms ≡ []))
  unfolding advertised_kems accepts_kem
  advertised-accepts_kem a h = elim (Bool-cases (is_composite a)) [
    | inl e ↦
        let m = contains-Has config.supported_composite_kem_algorithms a (ground arith) in
        inl (
          (Has-++ a (sort_by_strength config.supported_kem_algorithms)
              config.supported_composite_kem_algorithms).1
            (inr m))
    | inr e ↦ elim (Bool-cases (contains config.supported_kem_algorithms a)) [
      | inr c ↦ inr (e, ground arith)
      | inl c ↦
          let m = contains-Has config.supported_kem_algorithms a c in
          let n = (Has-sort a config.supported_kem_algorithms).1 m in
          inl (
            (Has-++ a (sort_by_strength config.supported_kem_algorithms)
                config.supported_composite_kem_algorithms).1
              (inl n))
    ]
  ]

  not_advertised :
      (a : KemAlgorithm)
      → is_composite a ≡ false
      → config.supported_kem_algorithms ≡ []
      → ¬ Has a (advertised_kems config)
  unfolding advertised_kems
  not_advertised a p e h =
      elim ((Has-++ a (sort_by_strength config.supported_kem_algorithms)
          config.supported_composite_kem_algorithms).0
        h) [
          | inl m ↦
              let n = (Has-sort a config.supported_kem_algorithms).0 m in subst (λ ks. Has a ks) e n
          | inr m ↦ let q = split.composite_only a m in ground (arith, p, q)
        ]

  -- With each list of the configuration holding its own family, every KEM that the KDC advertises is
  -- one that it accepts; and a KEM that it accepts is advertised, or it is a pure ML-KEM and the list
  -- of pure KEMs is empty: such a KDC accepts them all and advertises none.
  pub accepts_kem-advertised_kems :
      (a : KemAlgorithm)
      → (Has a (advertised_kems config) → accepts_kem config a ≡ true)
        × (accepts_kem config a ≡ true
            → Has a (advertised_kems config)
              ⊎ ((is_composite a ≡ false) × (config.supported_kem_algorithms ≡ [])))
        × ((is_composite a ≡ false)
            → config.supported_kem_algorithms ≡ []
            → (accepts_kem config a ≡ true) × (¬ Has a (advertised_kems config)))
  unfolding accepts_kem
  accepts_kem-advertised_kems a = (
    accepts_kem-advertised a,
    advertised-accepts_kem a,
    λ p e. (ground (arith, p, e), not_advertised a p e),
  )
