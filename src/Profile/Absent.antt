-- ===== src/Profile/Absent.antt =====
-- kurbu5-pkinit/src/profile.rs: relations that are absent leave the configuration as it is.
use kurbu5_pkinit.Common.{
  Bool, List, Option, Option-cases, Text, [], arith, false, if◌then◌else◌, inl, inr, is_empty, none,
  ok, refl, some, true, ℕ, ◌<◌, ◌^◌, ◌∷◌, ◌≡◌,
}
use kurbu5_pkinit.Common.Int.{ℤ}
use kurbu5_pkinit.Common.Strings.{codes}
use kurbu5_pkinit.KemTypes.{as_i32}
use kurbu5_pkinit.Config.{PkinitClientConfig}
use kurbu5_pkinit.Profile.{
  Lookup, Profile, as_u32, boolean, clamp_seconds, dh_group_from_min_bits, eku_checking,
  found_string, found_values, integer, or_else, read_after_kem, read_before_kem, read_client_config,
  string, unwrap_or, values,
}

-- A profile without the relations: no value, and the default where a default is given.
pub record IsSilent (profile : Profile) : Type 0 where
  pub no_string :
      (section name : Text) (sub : Option Text)
      → found_string (profile.get_string_opt section name sub) ≡ none
  pub no_values : (names : List Text) → found_values (profile.get_values names) ≡ none
  pub default_boolean :
      (section name : Text) (sub : Option Text) (v : Bool)
      → unwrap_or (profile.get_boolean section name sub v) v ≡ v
  pub default_integer :
      (section name : Text) (sub : Option Text) (v : ℤ)
      → unwrap_or (profile.get_integer section name sub v) v ≡ v

module _ (profile : Profile) (silent : IsSilent profile) (section : Text)
    (realm : Option Text) where
  abbrev lookup : Lookup
  lookup = record { profile = profile; defaults = section; realm = realm }

  string-none : (key : Text) → string lookup key ≡ none
  unfolding string
  string-none key = elim (Option-cases realm) [
    | inl e ↦ rw (e, silent.no_string section key none) refl
    | inr (r, e) ↦
        rw (e, silent.no_string (codes "realms") r (some key), silent.no_string section key none)
          refl
  ]

  values-none : (key : Text) → values lookup key ≡ none
  unfolding values
  values-none key = elim (Option-cases realm) [
    | inl e ↦ rw (e, silent.no_values (section ∷ key ∷ [])) refl
    | inr (r, e) ↦
        rw
          (
            e,
            silent.no_values (codes "realms" ∷ r ∷ key ∷ []),
            silent.no_values (section ∷ key ∷ []),
          )
          refl
  ]

  boolean-current : (key : Text) (v : Bool) → boolean lookup key v ≡ v
  unfolding boolean
  boolean-current key v = elim (Option-cases realm) [
    | inl e ↦ rw (e, silent.default_boolean section key none v) refl
    | inr (r, e) ↦
        rw
          (
            e,
            silent.default_boolean section key none v,
            silent.default_boolean (codes "realms") r (some key) v,
          )
          refl
  ]

  integer-current : (key : Text) (v : ℤ) → integer lookup key v ≡ v
  unfolding integer
  integer-current key v = elim (Option-cases realm) [
    | inl e ↦ rw (e, silent.default_integer section key none v) refl
    | inr (r, e) ↦
        rw
          (
            e,
            silent.default_integer section key none v,
            silent.default_integer (codes "realms") r (some key) v,
          )
          refl
  ]

as_u32-as_i32 : (n : ℕ) → n < 2 ^ 32 → as_u32 (as_i32 n) ≡ n
unfolding as_u32 as_i32
as_u32-as_i32 n h = ground arith

clamp_seconds-as_i32 : (n : ℕ) → n < 2 ^ 31 → clamp_seconds (as_i32 n) ≡ n
unfolding clamp_seconds as_i32
clamp_seconds-as_i32 n h = ground arith

or_else-none : {A : Type 0} (o : Option A) → or_else o none ≡ o
or_else-none none = refl
or_else-none (some a) = refl

same_if : {A : Type 0} (b : Bool) (x : A) → (if b then x else x) ≡ x
same_if true x = refl
same_if false x = refl

module _ (profile : Profile) (silent : IsSilent profile) (section : Text) (realm : Option Text)
    (settings : PkinitClientConfig) where
  abbrev absent : Lookup
  absent = record { profile = profile; defaults = section; realm = realm }

  eku_checking-current : (current : Bool × Bool) → eku_checking absent current ≡ current
  unfolding eku_checking
  eku_checking-current current =
      rw (eku_checking, string-none profile silent section realm (codes "pkinit_eku_checking")) refl

  read_before_kem-absent :
      settings.dh_min_bits < 2 ^ 32 → read_before_kem absent settings ≡ settings
  unfolding read_before_kem
  read_before_kem-absent fits =
      let s = string-none profile silent section realm in
      let v = values-none profile silent section realm in
      let b = boolean-current profile silent section realm in
      let i = integer-current profile silent section realm in
      rw
        (
          s (codes "pkinit_identities"),
          v (codes "pkinit_anchors"),
          v (codes "pkinit_pool"),
          v (codes "pkinit_revoke"),
          b (codes "pkinit_require_crl_checking") settings.require_crl_checking,
          i (codes "pkinit_dh_min_bits") (as_i32 settings.dh_min_bits),
          as_u32-as_i32 settings.dh_min_bits fits,
          eku_checking-current (settings.require_eku, settings.accept_secondary_eku),
          b (codes "pkinit_require_freshness_token") settings.require_freshness,
          or_else-none settings.identity,
          same_if (is_empty settings.anchors) settings.anchors,
        )
        refl

  read_after_kem-absent :
      settings.kdc_trust_timeout < 2 ^ 31
      → read_after_kem absent settings
        ≡ record settings { dh_group = dh_group_from_min_bits settings.dh_min_bits }
  unfolding read_after_kem
  read_after_kem-absent short =
      let b = boolean-current profile silent section realm in
      rw
        (
          b (codes "pkinit_require_kem") settings.require_kem,
          b (codes "pkinit_kdc_trust_tofu") settings.kdc_trust_tofu,
          string-none profile silent section realm (codes "pkinit_kdc_trust_broker"),
          integer-current profile silent section realm (codes "pkinit_kdc_trust_timeout")
              (as_i32 settings.kdc_trust_timeout),
          clamp_seconds-as_i32 settings.kdc_trust_timeout short,
        )
        refl

-- Where the profile has none of the relations, reading the client's configuration succeeds and
-- changes nothing but the group, which follows from the minimal size: for a size that fits 32 bits
-- and a timeout below 2^31 seconds.
pub read_client_config-absent :
    (profile : Profile) (realm : Option Text) (settings : PkinitClientConfig)
    → IsSilent profile
    → settings.dh_min_bits < 2 ^ 32
    → settings.kdc_trust_timeout < 2 ^ 31
    → read_client_config profile realm settings
      ≡ (record settings { dh_group = dh_group_from_min_bits settings.dh_min_bits }, ok tt)
unfolding read_client_config
read_client_config-absent profile realm settings silent fits short =
    let section = codes "libdefaults" in
    rw
      (
        read_client_config,
        string-none profile silent section realm (codes "pkinit_pqc_min_algorithm"),
        read_before_kem-absent profile silent section realm settings fits,
        read_after_kem-absent profile silent section realm settings short,
      )
      refl
