-- ===== src/Profile/Kems.antt =====
-- kurbu5-pkinit/src/profile.rs: the KEM lists, groups and timeouts that are read.
use mathlib.Core.Path.{subst}
use kurbu5_pkinit.Common.{
  >>=-eq-ok, AllOf, Bool-cases, Has, List, Option, Option-cases, Result-cases, Text, [], ap, arith,
  collect, collect-AllOf, false, inl, inr, ok, ok-injective, some, sym, true, ℕ, ◌<◌, ◌>>=◌, ◌^◌,
  ◌∷◌, ◌≡◌, ◌≤◌,
}
use kurbu5_pkinit.Common.Int.{negsuc, pos, ℤ}
use kurbu5_pkinit.Common.Strings.{codes}
use kurbu5_pkinit.Constants.{
  KemAlgorithm, algorithms_at_or_above, from_name, is_composite, min_bits,
}
use kurbu5_pkinit.Constants.Roundtrip.{algorithms_at_or_above_iff}
use kurbu5_pkinit.Config.{PkinitClientConfig, PkinitKdcConfig}
use kurbu5_pkinit.Profile.{
  ConfigError, Lookup, Profile, clamp_seconds, dh_group_from_min_bits, parse_composite_kem,
  parse_composite_kem_algorithms, parse_kem_algorithm, read_after_kem, read_before_kem,
  read_client_config, read_kdc_config, string, supported_composites, supported_kems, values,
}
use kurbu5_pkinit.Server.Advertised.{IsSplit}

parse_composite_kem-composite :
    (key v : Text) (a : KemAlgorithm) → parse_composite_kem key v ≡ ok a → is_composite a ≡ true
unfolding parse_composite_kem
parse_composite_kem-composite key v a h = elim (Option-cases (from_name v)) [
  | inl e ↦ absurd (ground arith)
  | inr (b, e) ↦ elim (Bool-cases (is_composite b)) [
    | inl t ↦ let same : b ≡ a = ground arith in subst (λ x. is_composite x ≡ true) same t
    | inr t ↦ absurd (ground arith)
  ]
]

AllOf-Has :
    (P : KemAlgorithm → Type 0) (xs : List KemAlgorithm) (a : KemAlgorithm)
    → AllOf P xs
    → Has a xs
    → P a
AllOf-Has P [] a h m = absurd m
AllOf-Has P (x ∷ xs) a (p, h) (inl e) = subst P (sym e) p
AllOf-Has P (x ∷ xs) a (p, h) (inr m) = AllOf-Has P xs a h m

supported_kems-pure :
    (l : Lookup) (kems : List KemAlgorithm) (a : KemAlgorithm)
    → supported_kems l [] ≡ ok kems
    → Has a kems
    → is_composite a ≡ false
unfolding supported_kems
supported_kems-pure l kems a h m =
    elim (Option-cases (string l (codes "pkinit_pqc_min_algorithm"))) [
      | inl e ↦ let same : [] ≡ kems = ground arith in absurd (subst (Has a) (sym same) m)
      | inr (v, e) ↦
          let q : (parse_kem_algorithm (codes "pkinit_pqc_min_algorithm") v >>= λ floor.
          ok (algorithms_at_or_above floor))
              ≡ ok kems =
            ground arith in
          let (floor, p, r) =
            >>=-eq-ok (parse_kem_algorithm (codes "pkinit_pqc_min_algorithm") v) _ q in
          let same = ok-injective {E = ConfigError} r in
          ((algorithms_at_or_above_iff floor a).0 (subst (Has a) (sym same) m)).0
    ]

supported_composites-composite :
    (l : Lookup) (kems : List KemAlgorithm) (a : KemAlgorithm)
    → supported_composites l [] ≡ ok kems
    → Has a kems
    → is_composite a ≡ true
unfolding supported_composites parse_composite_kem_algorithms
supported_composites-composite l kems a h m =
    elim (Option-cases (values l (codes "pkinit_pqc_composite_algorithms"))) [
      | inl e ↦ let same : [] ≡ kems = ground arith in absurd (subst (Has a) (sym same) m)
      | inr (names, e) ↦
          let key = codes "pkinit_pqc_composite_algorithms" in
          let q : collect (parse_composite_kem key) names ≡ ok kems = ground arith in
          AllOf-Has (λ x. is_composite x ≡ true) kems a
            (collect-AllOf (parse_composite_kem key) (λ x. is_composite x ≡ true)
              (parse_composite_kem-composite key) names kems q)
            m
    ]

-- Whatever a profile says, the KDC's configuration that is read keeps the two families of KEMs apart:
-- pure ones in one list and composite ones in the other, as the advertising of the KDC requires.
pub read_kdc_config-IsSplit :
    (profile : Profile) (realm : Text) (settings : PkinitKdcConfig)
    → read_kdc_config profile realm ≡ ok settings
    → IsSplit settings
unfolding read_kdc_config
read_kdc_config-IsSplit profile realm settings h =
    let l : Lookup = record {
      profile = profile;
      defaults = codes "kdcdefaults";
      realm = some realm;
    } in
    let (kems, p, h1) = >>=-eq-ok (supported_kems l []) _ h in
    let (composites, q, h2) = >>=-eq-ok (supported_composites l []) _ h1 in
    subst IsSplit (ok-injective {E = ConfigError} h2) (record {
      pure_only = λ a m. supported_kems-pure l kems a p m;
      composite_only = λ a m. supported_composites-composite l composites a q m;
    })

clamp_seconds-lt : (n : ℤ) → clamp_seconds n < 2 ^ 31
unfolding clamp_seconds
clamp_seconds-lt (pos n) = ground arith
clamp_seconds-lt (negsuc n) = omega arith

dh_group_from_min_bits-enough : (n : ℕ) → n ≤ 4096 → n ≤ min_bits (dh_group_from_min_bits n)
unfolding dh_group_from_min_bits min_bits
dh_group_from_min_bits-enough n h = ground arith

read_after_kem-bounds :
    (l : Lookup) (c after : PkinitClientConfig)
    → after.dh_min_bits ≤ 4096
    → read_after_kem l c ≡ after
    → (after.kdc_trust_timeout < 2 ^ 31) × (after.dh_min_bits ≤ min_bits after.dh_group)
unfolding read_after_kem
read_after_kem-bounds l c after small e =
    let same : c.dh_min_bits ≡ after.dh_min_bits =
      ap (λ (x : PkinitClientConfig). x.dh_min_bits) e in
    subst
      (λ (x : PkinitClientConfig).
        (x.kdc_trust_timeout < 2 ^ 31) × (x.dh_min_bits ≤ min_bits x.dh_group))
      e
      (clamp_seconds-lt _, dh_group_from_min_bits-enough c.dh_min_bits (omega (arith, same, small)))

-- After a configuration was read without an error, the timeout is below 2^31 seconds, and the group
-- has at least the minimal size, for a minimal size of at most 4096 bits.
pub read_client_config-bounds :
    (profile : Profile) (realm : Option Text) (settings after : PkinitClientConfig)
    → read_client_config profile realm settings ≡ (after, ok tt)
    → after.dh_min_bits ≤ 4096
    → (after.kdc_trust_timeout < 2 ^ 31) × (after.dh_min_bits ≤ min_bits after.dh_group)
unfolding read_client_config
read_client_config-bounds profile realm settings after h small =
    let l : Lookup = record { profile = profile; defaults = codes "libdefaults"; realm = realm } in
    let before = read_before_kem l settings in
    elim (Option-cases (string l (codes "pkinit_pqc_min_algorithm"))) [
      | inl e ↦ read_after_kem-bounds l before after small (ground arith)
      | inr (v, e) ↦
          elim (Result-cases (parse_kem_algorithm (codes "pkinit_pqc_min_algorithm") v)) [
            | inl (a, q) ↦
                read_after_kem-bounds l (record before { kem_algorithm = some a }) after small
                  (ground arith)
            | inr (f, q) ↦ absurd (ground arith)
          ]
    ]
