-- ===== src/Profile.antt =====
-- kurbu5-pkinit/src/profile.rs: reading krb5.conf and kdc.conf relations into the configurations.
-- libkrb5's profile library is a record of its getters: an option value, the values of a relation,
-- and a Boolean or an `i32` with a default for a relation that is absent.
use kurbu5_pkinit.Common.{
  Bool, List, Option, Result, Text, [], collect, err, false, if◌then◌else◌, is_empty, leb, list_eq,
  ltb, nat_eq, none, ok, ok_or, option_eq, some, true, ℕ, ◌-◌, ◌==◌, ◌>>=◌, ◌>>◌, ◌^◌, ◌∷◌,
}
use kurbu5_pkinit.Common.Int.{negsuc, pos, ℤ, ℤ_eq}
use kurbu5_pkinit.Common.Strings.{codes}
use kurbu5_pkinit.Error.{Fault, Message, str, text}
use kurbu5_pkinit.Constants.{
  DhGroup, KemAlgorithm, algorithms_at_or_above, ec_p256, from_name, group_eq, is_composite, kem_eq,
  oakley2048, oakley4096,
}
use kurbu5_pkinit.KemTypes.{as_i32}
use kurbu5_pkinit.Config.{PkinitClientConfig, PkinitKdcConfig, default_kdc_config}
pub mod Absent
pub mod Kems

pub record Profile : Type 0 where
  pub get_string_opt : Text → Text → Option Text → Result Fault (Option Text)
  pub get_values : List Text → Result Fault (List Text)
  pub get_boolean : Text → Text → Option Text → Bool → Result Fault Bool
  pub get_integer : Text → Text → Option Text → ℤ → Result Fault ℤ

abbrev pub ConfigError : Type 0
ConfigError = Message

unfoldable pub parse_kem_algorithm : Text → Text → Result ConfigError KemAlgorithm
parse_kem_algorithm key value = ok_or (from_name value) (
    text key
    ∷ str ": unknown KEM algorithm "
    ∷ text value
    ∷ str
        " (expected one of ML-KEM-512, ML-KEM-768, ML-KEM-1024, ML-KEM-768-X25519, ML-KEM-768-ECDH-P256, ML-KEM-1024-ECDH-P384)"
    ∷ [])

unfoldable pub parse_composite_kem : Text → Text → Result ConfigError KemAlgorithm
parse_composite_kem key v =
    let refused =
      text key
      ∷ str ": "
      ∷ text v
      ∷ str
          " is not a composite KEM algorithm (expected one of ML-KEM-768-X25519, ML-KEM-768-ECDH-P256, ML-KEM-1024-ECDH-P384)"
      ∷ [] in
    elim (from_name v) [
      | some alg ↦ if is_composite alg then ok alg else err refused
      | none ↦ err refused
    ]

unfoldable pub parse_composite_kem_algorithms :
    Text → List Text → Result ConfigError (List KemAlgorithm)
unfolding parse_composite_kem
parse_composite_kem_algorithms key values = collect (parse_composite_kem key) values

pub record Lookup : Type 0 where
  pub profile : Profile
  pub defaults : Text
  pub realm : Option Text

-- `.ok().flatten()`
unfoldable pub found_string : Result Fault (Option Text) → Option Text
found_string (ok v) = v
found_string (err e) = none

-- `.ok().filter(|v| !v.is_empty())`
unfoldable pub found_values : Result Fault (List Text) → Option (List Text)
found_values (ok []) = none
found_values (ok (v ∷ vs)) = some (v ∷ vs)
found_values (err e) = none

-- `unwrap_or`
abbrev pub unwrap_or : {A : Type 0} → Result Fault A → A → A
unwrap_or (ok a) current = a
unwrap_or (err e) current = current

unfoldable pub string : Lookup → Text → Option Text
unfolding found_string
string l key =
    let default_value = found_string (l.profile.get_string_opt l.defaults key none) in
    elim l.realm [
      | none ↦ default_value
      | some realm ↦
          elim (found_string (l.profile.get_string_opt (codes "realms") realm (some key))) [
            | some v ↦ some v
            | none ↦ default_value
          ]
    ]

unfoldable pub values : Lookup → Text → Option (List Text)
unfolding found_values
values l key =
    let default_values = found_values (l.profile.get_values (l.defaults ∷ key ∷ [])) in
    elim l.realm [
      | none ↦ default_values
      | some realm ↦
          elim (found_values (l.profile.get_values (codes "realms" ∷ realm ∷ key ∷ []))) [
            | some v ↦ some v
            | none ↦ default_values
          ]
    ]

unfoldable pub boolean : Lookup → Text → Bool → Bool
boolean l key current =
    let v = unwrap_or (l.profile.get_boolean l.defaults key none current) current in
    elim l.realm [
      | some realm ↦ unwrap_or (l.profile.get_boolean (codes "realms") realm (some key) v) v
      | none ↦ v
    ]

unfoldable pub integer : Lookup → Text → ℤ → ℤ
integer l key current =
    let v = unwrap_or (l.profile.get_integer l.defaults key none current) current in
    elim l.realm [
      | some realm ↦ unwrap_or (l.profile.get_integer (codes "realms") realm (some key) v) v
      | none ↦ v
    ]

-- The cast of an `i32` to `u32`.
unfoldable pub as_u32 : ℤ → ℕ
as_u32 (pos n) = n
as_u32 (negsuc n) = 2 ^ 32 - 1 - n

-- `.clamp(0, i32::MAX) as u32`
unfoldable pub clamp_seconds : ℤ → ℕ
clamp_seconds (pos n) = if ltb (2 ^ 31 - 1) n then 2 ^ 31 - 1 else n
clamp_seconds (negsuc n) = 0

-- `require_eku` and `accept_secondary`, as they are set.
unfoldable pub apply_eku_checking : Text → Bool × Bool → Bool × Bool
apply_eku_checking value current =
    if value == codes "kpClientAuth"
    then (true, false)
    else if value == codes "scLogin"
    then (true, true)
    else if value == codes "none"
    then (false, false)
    else current

unfoldable pub eku_checking : Lookup → Bool × Bool → Bool × Bool
eku_checking l current = elim (string l (codes "pkinit_eku_checking")) [
  | none ↦ current
  | some v ↦ apply_eku_checking v current
]

unfoldable pub dh_group_from_min_bits : ℕ → DhGroup
dh_group_from_min_bits bits =
    if leb bits 256 then ec_p256 else if leb bits 2048 then oakley2048 else oakley4096

-- `if let Some(v) = found { current = v }`
abbrev pub or_current : {A : Type 0} → Option A → A → A
or_current none current = current
or_current (some v) current = v

-- The first value, if there is one: `if x.is_none() { x = y }`, and the reverse for an override.
abbrev pub or_else : {A : Type 0} → Option A → Option A → Option A
or_else none b = b
or_else (some a) b = some a

-- `read_client_config` up to the KEM, and after it.
unfoldable pub read_before_kem : Lookup → PkinitClientConfig → PkinitClientConfig
read_before_kem l config =
    let checks = eku_checking l (config.require_eku, config.accept_secondary_eku) in
    record config {
      identity = or_else config.identity (string l (codes "pkinit_identities"));
      anchors =
          if is_empty config.anchors
          then or_current (values l (codes "pkinit_anchors")) config.anchors
          else config.anchors;
      intermediates = or_current (values l (codes "pkinit_pool")) config.intermediates;
      crls = or_current (values l (codes "pkinit_revoke")) config.crls;
      require_crl_checking =
          boolean l (codes "pkinit_require_crl_checking") config.require_crl_checking;
      dh_min_bits = as_u32 (integer l (codes "pkinit_dh_min_bits") (as_i32 config.dh_min_bits));
      require_eku = checks.0;
      accept_secondary_eku = checks.1;
      require_freshness =
          boolean l (codes "pkinit_require_freshness_token") config.require_freshness;
    }

unfoldable pub read_after_kem : Lookup → PkinitClientConfig → PkinitClientConfig
read_after_kem l config = record config {
  require_kem = boolean l (codes "pkinit_require_kem") config.require_kem;
  kdc_trust_tofu = boolean l (codes "pkinit_kdc_trust_tofu") config.kdc_trust_tofu;
  kdc_trust_broker = or_else (string l (codes "pkinit_kdc_trust_broker")) config.kdc_trust_broker;
  kdc_trust_timeout =
      clamp_seconds
        (integer l (codes "pkinit_kdc_trust_timeout") (as_i32 config.kdc_trust_timeout));
  dh_group = dh_group_from_min_bits config.dh_min_bits;
}

-- The configuration as it is left, also when the KEM's name is refused, and the result.
unfoldable pub read_client_config :
    Profile → Option Text → PkinitClientConfig → PkinitClientConfig × Result ConfigError (Unit {0})
read_client_config profile realm config =
    let l : Lookup = record { profile = profile; defaults = codes "libdefaults"; realm = realm } in
    let before = read_before_kem l config in
    elim (string l (codes "pkinit_pqc_min_algorithm")) [
      | none ↦ (read_after_kem l before, ok tt)
      | some v ↦ elim (parse_kem_algorithm (codes "pkinit_pqc_min_algorithm") v) [
        | ok a ↦ (read_after_kem l (record before { kem_algorithm = some a }), ok tt)
        | err e ↦ (before, err e)
      ]
    ]

-- The KEMs of the KDC: every pure one at or above the floor that is named.
unfoldable pub supported_kems : Lookup → List KemAlgorithm → Result ConfigError (List KemAlgorithm)
supported_kems l current = elim (string l (codes "pkinit_pqc_min_algorithm")) [
  | none ↦ ok current
  | some v ↦ do
    floor ← parse_kem_algorithm (codes "pkinit_pqc_min_algorithm") v
    ok (algorithms_at_or_above floor)
]

unfoldable pub supported_composites :
    Lookup → List KemAlgorithm → Result ConfigError (List KemAlgorithm)
supported_composites l current = elim (values l (codes "pkinit_pqc_composite_algorithms")) [
  | none ↦ ok current
  | some names ↦ parse_composite_kem_algorithms (codes "pkinit_pqc_composite_algorithms") names
]

unfoldable pub read_kdc_config : Profile → Text → Result ConfigError PkinitKdcConfig
read_kdc_config profile realm = do
  let l : Lookup = record { profile = profile; defaults = codes "kdcdefaults"; realm = some realm }
  let config = default_kdc_config
  let checks = eku_checking l (config.require_eku, config.accept_secondary_eku)
  kems ← supported_kems l config.supported_kem_algorithms
  composites ← supported_composites l config.supported_composite_kem_algorithms
  ok (record config {
    identity = string l (codes "pkinit_identity");
    anchors = or_current (values l (codes "pkinit_anchors")) config.anchors;
    intermediates = or_current (values l (codes "pkinit_pool")) config.intermediates;
    crls = or_current (values l (codes "pkinit_revoke")) config.crls;
    require_crl_checking =
        boolean l (codes "pkinit_require_crl_checking") config.require_crl_checking;
    dh_min_bits = as_u32 (integer l (codes "pkinit_dh_min_bits") (as_i32 config.dh_min_bits));
    allow_upn = boolean l (codes "pkinit_allow_upn") config.allow_upn;
    require_eku = checks.0;
    accept_secondary_eku = checks.1;
    require_freshness = boolean l (codes "pkinit_require_freshness_token") config.require_freshness;
    auth_indicators = or_current (values l (codes "pkinit_indicator")) config.auth_indicators;
    supported_kem_algorithms = kems;
    supported_composite_kem_algorithms = composites;
    require_kem = boolean l (codes "pkinit_require_kem") config.require_kem;
  })
