-- ===== src/Client/State.antt =====
-- pkinit-core/src/client.rs and trust_broker.rs: the client's state, its constructor and setters.
use kurbu5_pkinit.Common.{
  Bool, Bytes, List, Oid, Option, Text, err, false, if◌then◌else◌, is_empty, list_eq, nat_eq, none,
  not, ok, option_eq, some, ◌&&◌, ◌==◌, ◌||◌,
}
use kurbu5_pkinit.Error.{Message, Pkinit}
use kurbu5_pkinit.Constants.{DhGroup, KemAlgorithm, KeyExchangeType, group_eq, kem_eq, ml_kem768}
use kurbu5_pkinit.Synta.{Synta}
use kurbu5_pkinit.Config.{PkinitClientConfig}
use kurbu5_pkinit.Identity.{PkinitIdentity}
use kurbu5_pkinit.Identity.Store.{TrustStore}
use kurbu5_pkinit.Dh.{DhKeyPair}
use kurbu5_pkinit.Kem.{KemKeyPair}

-- trust_broker.rs
pub record KdcTrustRequest : Type 0 where
  pub realm : Text
  pub kdc_principal : Text
  pub signer_cert_der : Bytes
  pub presented_certs_der : List Bytes
  pub interactive : Bool

pub data KdcTrustDecision : Type 0 where
  trusted : List Bytes → KdcTrustDecision
  denied : Message → KdcTrustDecision
  unknown : KdcTrustDecision

pub record KdcCaTrustBroker : Type 0 where
  pub request_trust : KdcTrustRequest → Pkinit KdcTrustDecision

pub data RetryAction : Type 0 where
  retry_with_dh_params : DhGroup → RetryAction
  retry_with_kem_algorithm : KemAlgorithm → RetryAction
  retry_with_certs no_retry : RetryAction

pub record PkinitClientState (H : Type 0) : Type 0 where
  pub identity : PkinitIdentity H
  pub trust_store : TrustStore
  pub config : PkinitClientConfig
  pub dh_key : Option (DhKeyPair H)
  pub kem_key : Option (KemKeyPair H)
  pub freshness_token : Option Bytes
  pub dh_nonce : Option Bytes
  pub kdc_principal : Option Text
  pub kdc_hostname : Option Text
  pub key_exchange : Option KeyExchangeType
  pub broker : Option KdcCaTrustBroker
  pub is_anonymous : Bool
  pub kem_floor : Option KemAlgorithm

-- `require_kem` without a configured KEM means ML-KEM-768.
unfoldable pub with_default_kem : PkinitClientConfig → PkinitClientConfig
with_default_kem config = elim config.kem_algorithm [
  | none ↦ if config.require_kem then record config { kem_algorithm = some ml_kem768 } else config
  | some _ ↦ config
]

module _ {H : Type 0} where
  -- `PkinitClientState::new`
  unfoldable pub new_client :
      PkinitIdentity H → TrustStore → PkinitClientConfig → PkinitClientState H
  unfolding with_default_kem
  new_client identity trust_store config = record {
    identity = identity;
    trust_store = trust_store;
    config = with_default_kem config;
    dh_key = none;
    kem_key = none;
    freshness_token = none;
    dh_nonce = none;
    kdc_principal = none;
    kdc_hostname = none;
    key_exchange = none;
    broker = none;
    is_anonymous = false;
    kem_floor = (with_default_kem config).kem_algorithm;
  }

  unfoldable pub set_freshness_token : PkinitClientState H → Bytes → PkinitClientState H
  set_freshness_token c token = record c { freshness_token = some token }

  unfoldable pub set_kdc_identity : PkinitClientState H → Text → Option Text → PkinitClientState H
  set_kdc_identity c principal hostname = record c {
    kdc_principal = some principal;
    kdc_hostname = hostname;
  }

  unfoldable pub set_trust_broker : PkinitClientState H → KdcCaTrustBroker → PkinitClientState H
  set_trust_broker c b = record c { broker = some b }

  unfoldable pub set_is_anonymous : PkinitClientState H → Bool → PkinitClientState H
  set_is_anonymous c anonymous = record c { is_anonymous = anonymous }

  unfoldable pub set_dh_group : PkinitClientState H → DhGroup → PkinitClientState H
  set_dh_group c group = record c {
    config = record c.config { dh_group = group; kem_algorithm = none };
    dh_key = none;
    kem_key = none;
    key_exchange = none;
  }

  unfoldable pub set_kem_algorithm : PkinitClientState H → KemAlgorithm → PkinitClientState H
  set_kem_algorithm c alg = record c {
    config = record c.config { kem_algorithm = some alg };
    kem_key = none;
    key_exchange = none;
  }

module _ (synta : Synta) where
  -- ML-DSA and composite ML-DSA.
  unfoldable pub is_pq_signature_algorithm : Oid → Bool
  is_pq_signature_algorithm o =
      o == synta.oids.id_ml_dsa_44
      || o == synta.oids.id_ml_dsa_65
      || o == synta.oids.id_ml_dsa_87
      || synta.is_composite_mldsa o

  unfoldable pub is_pq_signing_certificate : Bytes → Bool
  unfolding is_pq_signature_algorithm
  is_pq_signing_certificate cert_der = elim (synta.certificate_from_der cert_der) [
    | ok cert ↦ is_pq_signature_algorithm cert.subject_public_key_info.algorithm.algorithm
    | err _ ↦ false
  ]

  unfoldable pub has_pq_certificate : {H : Type 0} → PkinitClientState H → Bool
  has_pq_certificate c =
      not (is_empty c.identity.cert_der) && is_pq_signing_certificate c.identity.cert_der
