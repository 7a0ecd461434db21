-- ===== src/Config.antt =====
-- pkinit-core/src/config.rs: the client's and the KDC's configuration, with their defaults.
use kurbu5_pkinit.Common.{Bool, List, Option, Text, [], false, none, true, ℕ}
use kurbu5_pkinit.Constants.{DhGroup, KemAlgorithm, oakley2048}

pub record PkinitClientConfig : Type 0 where
  pub require_eku : Bool
  pub accept_secondary_eku : Bool
  pub allow_upn : Bool
  pub require_crl_checking : Bool
  pub require_freshness : Bool
  pub disable_freshness : Bool
  pub dh_min_bits : ℕ
  pub dh_group : DhGroup
  pub kem_algorithm : Option KemAlgorithm
  pub require_kem : Bool
  pub identity : Option Text
  pub anchors : List Text
  pub intermediates : List Text
  pub crls : List Text
  pub kdc_trust_tofu : Bool
  pub kdc_trust_broker : Option Text
  pub kdc_trust_timeout : ℕ

abbrev pub default_client_config : PkinitClientConfig
default_client_config = record {
  require_eku = true;
  accept_secondary_eku = false;
  allow_upn = false;
  require_crl_checking = false;
  require_freshness = false;
  disable_freshness = false;
  dh_min_bits = 2048;
  dh_group = oakley2048;
  kem_algorithm = none;
  require_kem = false;
  identity = none;
  anchors = [];
  intermediates = [];
  crls = [];
  kdc_trust_tofu = false;
  kdc_trust_broker = none;
  kdc_trust_timeout = 30;
}

pub record PkinitKdcConfig : Type 0 where
  pub require_eku : Bool
  pub accept_secondary_eku : Bool
  pub allow_upn : Bool
  pub require_crl_checking : Bool
  pub require_freshness : Bool
  pub dh_min_bits : ℕ
  pub identity : Option Text
  pub anchors : List Text
  pub intermediates : List Text
  pub crls : List Text
  pub auth_indicators : List Text
  pub supported_kem_algorithms : List KemAlgorithm
  pub supported_composite_kem_algorithms : List KemAlgorithm
  pub require_kem : Bool

abbrev pub default_kdc_config : PkinitKdcConfig
default_kdc_config = record {
  require_eku = true;
  accept_secondary_eku = false;
  allow_upn = false;
  require_crl_checking = false;
  require_freshness = false;
  dh_min_bits = 2048;
  identity = none;
  anchors = [];
  intermediates = [];
  crls = [];
  auth_indicators = [];
  supported_kem_algorithms = [];
  supported_composite_kem_algorithms = [];
  require_kem = false;
}
