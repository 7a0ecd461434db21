-- ===== src/Crypto.antt =====
-- OpenSSL (native-ossl) and the crypto and path validation of synta-certificate and
-- synta-x509-verification, which the code only calls. `H` stands for their objects: keys,
-- parameters, contexts. A call that draws random numbers takes the draw as an argument.
use kurbu5_pkinit.Common.{Bool, Bytes, List, Option, Result, Text, ℕ}
use kurbu5_pkinit.Error.{Fault}

-- The extension policy for CA certificates: WebPKI's, or none.
pub data CaPolicy : Type 0 where
  webpki_ca permit_all : CaPolicy

-- What varies among the validation policies that the code sets up; all follow RFC 5280, with the
-- algorithms of WebPKI and post-quantum ones, and no constraint on the leaf.
pub record Policy : Type 0 where
  pub now : ℕ
  pub ca_extension_policy : CaPolicy
  pub crls : Option (List Bytes)

pub record Crypto (H : Type 0) : Type 0 where
  pub hash_data : Text → Bytes → Result Fault Bytes
  pub ct_eq : Bytes → Bytes → Bool
  pub rand_bytes : ℕ → ℕ → Result Fault Bytes
  -- native_ossl::pkey
  pub dhx_params_from_der : Bytes → Result Fault H
  pub pkey_from_der : Bytes → Result Fault H
  pub export : H → Result Fault H
  pub bits : H → ℕ
  pub get_group_name : H → Option Text
  pub get_p : H → Option Bytes
  pub param_builder : Result Fault H
  pub set_group : H → Text → Result Fault H
  pub build_params : H → Result Fault H
  pub keygen_ctx : Text → Result Fault H
  pub set_params : H → H → Result Fault H
  pub keygen : ℕ → H → Result Fault H
  pub public_key_to_der : H → Result Fault Bytes
  pub derive_ctx : H → Result Fault H
  pub set_peer : H → H → Result Fault H
  pub derive_len : H → Result Fault ℕ
  pub derive : H → ℕ → Result Fault Bytes
  -- native_ossl::kdf
  pub kdf_fetch : Text → Result Fault H
  pub kdf_ctx : H → Result Fault H
  pub push_digest : H → Text → Result Fault H
  pub push_key : H → Bytes → Result Fault H
  pub push_info : H → Bytes → Result Fault H
  pub kdf_derive : H → H → ℕ → Result Fault Bytes
  -- synta_certificate
  pub hkdf_extract : Text → Bytes → Result Fault Bytes
  pub hkdf_expand : Text → Bytes → Bytes → ℕ → Result Fault Bytes
  pub generate_composite_kem : ℕ → ℕ → Result Fault H
  pub generate_ml_kem : ℕ → Text → Result Fault H
  pub public_key_spki_der : H → Result Fault Bytes
  pub public_key_from_spki : Bytes → H
  pub composite_kem_decapsulate : H → Bytes → Result Fault Bytes
  pub ml_kem_decapsulate : H → Bytes → Result Fault Bytes
  pub composite_kem_encapsulate : ℕ → H → Result Fault (Bytes × Bytes)
  pub ml_kem_encapsulate : ℕ → H → Result Fault (Bytes × Bytes)
  -- synta_x509_verification
  pub trust_store : List Bytes → Result Fault H
  pub store_of_anchors : List Bytes → H
  pub verify_chain : H → Bytes → List Bytes → Policy → Result Fault (Unit {0})
