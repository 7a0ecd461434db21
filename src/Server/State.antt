-- ===== src/Server/State.antt =====
-- pkinit-core/src/server.rs: the KDC's state, what it advertises and what it accepts.
use kurbu5_pkinit.Common.{
  Bool, Bytes, List, Option, [], collect, contains, filter, if◌then◌else◌, is_empty, leb, list_eq,
  map_err, nat_eq, none, not, ok, option_eq, some, ◌&&◌, ◌++◌, ◌>>=◌, ◌||◌, ◌∷◌,
}
use kurbu5_pkinit.Error.{Pkinit, asn1_err}
use kurbu5_pkinit.Constants.{
  DhGroup, KemAlgorithm, algorithms_at_or_above, ec_p256, ec_p384, ec_p521, group_eq, is_composite,
  kem_eq, kem_oid, min_bits, ml_kem512, oakley2048, oakley4096, strength_order,
}
use kurbu5_pkinit.Synta.{AlgorithmIdentifier, Synta}
use kurbu5_pkinit.KemTypes.{encode_pkinit_hint_alg_ids}
use kurbu5_pkinit.Config.{PkinitKdcConfig}
use kurbu5_pkinit.Dh.{group_algorithm_oid_and_params}
use kurbu5_pkinit.Identity.{PkinitIdentity}
use kurbu5_pkinit.Identity.Store.{TrustStore}

pub record PkinitKdcState (H : Type 0) : Type 0 where
  pub identity : PkinitIdentity H
  pub trust_store : TrustStore
  pub config : PkinitKdcConfig
  pub supported_algorithms_hint : Option Bytes
  pub td_ephemeral_key_params : Bytes

-- `sort_by_key(|alg| Reverse(alg.strength_order()))`, which is stable: stronger algorithms first.
unfoldable pub insert_by_strength : KemAlgorithm → List KemAlgorithm → List KemAlgorithm
insert_by_strength a [] = a ∷ []
insert_by_strength a (b ∷ bs) =
    let rest = insert_by_strength a bs in
    if leb (strength_order b) (strength_order a) then a ∷ b ∷ bs else b ∷ rest

unfoldable pub sort_by_strength : List KemAlgorithm → List KemAlgorithm
unfolding insert_by_strength
sort_by_strength [] = []
sort_by_strength (a ∷ bs) = insert_by_strength a (sort_by_strength bs)

unfoldable pub kem_identifier : Synta → KemAlgorithm → Pkinit AlgorithmIdentifier
kem_identifier synta alg = do
  o ← map_err (synta.object_identifier (kem_oid synta.oids alg)) (asn1_err "KEM OID")
  ok (record { algorithm = o; parameters = none })

unfoldable pub group_algorithm_identifier : Synta → DhGroup → Pkinit AlgorithmIdentifier
group_algorithm_identifier synta group = do
  (algorithm, parameters) ← group_algorithm_oid_and_params synta group
  o ← map_err (synta.object_identifier algorithm) (asn1_err "algorithm OID")
  ok (record { algorithm = o; parameters = parameters })

-- The KEMs and then the groups, in the order of preference.
unfoldable pub advertised_kems : PkinitKdcConfig → List KemAlgorithm
unfolding sort_by_strength
advertised_kems config =
    sort_by_strength config.supported_kem_algorithms ++ config.supported_composite_kem_algorithms

unfoldable pub advertised_groups : PkinitKdcConfig → List DhGroup
advertised_groups config =
    filter (λ group. not config.require_kem && leb config.dh_min_bits (min_bits group))
      (ec_p521 ∷ ec_p384 ∷ ec_p256 ∷ oakley4096 ∷ oakley2048 ∷ [])

unfoldable pub acceptable_key_establishment_alg_ids :
    Synta → PkinitKdcConfig → Pkinit (List AlgorithmIdentifier)
acceptable_key_establishment_alg_ids synta config = do
  kem_ids ← collect (kem_identifier synta) (advertised_kems config)
  group_ids ← collect (group_algorithm_identifier synta) (advertised_groups config)
  ok (kem_ids ++ group_ids)

unfoldable pub build_supported_algorithms_hint : Synta → PkinitKdcConfig → Pkinit (Option Bytes)
build_supported_algorithms_hint synta config = do
  alg_ids ← acceptable_key_establishment_alg_ids synta config
  if is_empty alg_ids
      then ok none
      else do der ← encode_pkinit_hint_alg_ids synta alg_ids; ok (some der)

unfoldable pub build_td_ephemeral_key_params : Synta → PkinitKdcConfig → Pkinit Bytes
build_td_ephemeral_key_params synta config = do
  alg_ids ← acceptable_key_establishment_alg_ids synta config
  map_err (synta.alg_ids_to_der alg_ids) (asn1_err "encode TD params")

-- `require_kem` without a KEM means every pure ML-KEM.
unfoldable pub with_default_kems : PkinitKdcConfig → PkinitKdcConfig
with_default_kems config =
    if config.require_kem
      && is_empty config.supported_kem_algorithms
      && is_empty config.supported_composite_kem_algorithms
    then record config { supported_kem_algorithms = algorithms_at_or_above ml_kem512 }
    else config

module _ {H : Type 0} where
  -- `PkinitKdcState::new`
  unfoldable pub new_kdc :
      Synta → PkinitIdentity H → TrustStore → PkinitKdcConfig → Pkinit (PkinitKdcState H)
  unfolding with_default_kems
  new_kdc synta identity trust_store config = do
    hint ← build_supported_algorithms_hint synta (with_default_kems config)
    td ← build_td_ephemeral_key_params synta (with_default_kems config)
    ok (record {
      identity = identity;
      trust_store = trust_store;
      config = with_default_kems config;
      supported_algorithms_hint = hint;
      td_ephemeral_key_params = td;
    })

unfoldable pub accepts_kem : PkinitKdcConfig → KemAlgorithm → Bool
accepts_kem config alg =
    if is_composite alg
    then contains config.supported_composite_kem_algorithms alg
    else is_empty config.supported_kem_algorithms || contains config.supported_kem_algorithms alg
