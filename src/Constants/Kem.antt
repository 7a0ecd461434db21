-- ===== src/Constants/Kem.antt =====
-- pkinit-core/src/constants.rs: the enums and their tables. The OIDs that the code re-exports from
-- the synta crates are a record of parameters.
use kurbu5_pkinit.Common.{
  Bool, List, Oid, Option, PartialEq, [], arith, false, filter, if◌then◌else◌, leb, list_eq,
  nat_beq, nat_eq, none, option_eq, some, true, ℕ, ◌+◌, ◌==◌, ◌↔◌, ◌∷◌, ◌≡◌,
}

-- `synta_certificate::oids` and the OIDs of `synta_krb5`, as far as the code names them.
pub record Oids : Type 0 where
  pub id_ml_kem_512 : Oid
  pub id_ml_kem_768 : Oid
  pub id_ml_kem_1024 : Oid
  pub id_mlkem768_x25519_sha3_256 : Oid
  pub id_mlkem768_ecdh_p256_sha3_256 : Oid
  pub id_mlkem1024_ecdh_p384_sha3_256 : Oid
  pub id_pkinit_auth_data : Oid
  pub id_pkinit_dhkey_data : Oid
  pub id_pkinit_kdf_ah_sha1 : Oid
  pub id_pkinit_kdf_ah_sha256 : Oid
  pub id_pkinit_kdf_ah_sha512 : Oid
  pub id_alg_hkdf_with_sha512 : Oid
  pub id_pkinit_kpclient_auth : Oid
  pub id_pkinit_kpkdc : Oid
  pub id_ms_kp_smartcard_logon : Oid
  pub id_kp_server_auth : Oid
  pub id_ms_san_upn : Oid
  pub id_sha256 : Oid
  pub id_ml_dsa_44 : Oid
  pub id_ml_dsa_65 : Oid
  pub id_ml_dsa_87 : Oid
  pub id_ec_public_key : Oid
  pub dhpublicnumber : Oid
  pub secp256r1 : Oid
  pub secp384r1 : Oid
  pub secp521r1 : Oid
  pub id_signed_data : Oid
  pub pkcs9_content_type : Oid
  pub pkcs9_message_digest : Oid

-- The content type of a KDCKEMInfo.
abbrev pub id_pkinit_kem_key_data : Oid
id_pkinit_kem_key_data = 1 ∷ 3 ∷ 6 ∷ 1 ∷ 5 ∷ 2 ∷ 3 ∷ 7 ∷ []

pub data DhGroup : Type 0 where
  oakley2048 oakley4096 ec_p256 ec_p384 ec_p521 : DhGroup

pub data KemAlgorithm : Type 0 where
  ml_kem512 ml_kem768 ml_kem1024 : KemAlgorithm
  ml_kem768_x25519 ml_kem768_ecdh_p256 ml_kem1024_ecdh_p384 : KemAlgorithm

pub data KeyExchangeType : Type 0 where
  dh : DhGroup → KeyExchangeType
  kem : KemAlgorithm → KeyExchangeType

-- `derive(PartialEq)`, by the position in the declaration.
abbrev kem_index : KemAlgorithm → ℕ
kem_index ml_kem512 = 0
kem_index ml_kem768 = 1
kem_index ml_kem1024 = 2
kem_index ml_kem768_x25519 = 3
kem_index ml_kem768_ecdh_p256 = 4
kem_index ml_kem1024_ecdh_p384 = 5

unfoldable pub kem_beq : KemAlgorithm → KemAlgorithm → Bool
kem_beq a b = nat_beq (kem_index a) (kem_index b)

kem_beq→eq : (a b : KemAlgorithm) → kem_beq a b ≡ true → a ≡ b
unfolding kem_beq
kem_beq→eq a b h = ground arith

kem_beq_refl : (a b : KemAlgorithm) → a ≡ b → kem_beq a b ≡ true
unfolding kem_beq
kem_beq_refl a b h = ground arith

pub kem_beq_iff : (a b : KemAlgorithm) → (kem_beq a b ≡ true) ↔ (a ≡ b)
kem_beq_iff a b = (kem_beq→eq a b, kem_beq_refl a b)

instance abbrev pub kem_eq : PartialEq KemAlgorithm
kem_eq = record { test = kem_beq; decides = kem_beq_iff }

abbrev group_index : DhGroup → ℕ
group_index oakley2048 = 0
group_index oakley4096 = 1
group_index ec_p256 = 2
group_index ec_p384 = 3
group_index ec_p521 = 4

unfoldable pub group_beq : DhGroup → DhGroup → Bool
group_beq a b = nat_beq (group_index a) (group_index b)

group_beq→eq : (a b : DhGroup) → group_beq a b ≡ true → a ≡ b
unfolding group_beq
group_beq→eq a b h = ground arith

group_beq_refl : (a b : DhGroup) → a ≡ b → group_beq a b ≡ true
unfolding group_beq
group_beq_refl a b h = ground arith

pub group_beq_iff : (a b : DhGroup) → (group_beq a b ≡ true) ↔ (a ≡ b)
group_beq_iff a b = (group_beq→eq a b, group_beq_refl a b)

instance abbrev pub group_eq : PartialEq DhGroup
group_eq = record { test = group_beq; decides = group_beq_iff }

-- DhGroup::min_bits
unfoldable pub min_bits : DhGroup → ℕ
min_bits oakley2048 = 2048
min_bits oakley4096 = 4096
min_bits ec_p256 = 256
min_bits ec_p384 = 384
min_bits ec_p521 = 521

unfoldable pub is_ec : DhGroup → Bool
is_ec ec_p256 = true
is_ec ec_p384 = true
is_ec ec_p521 = true
is_ec _ = false

unfoldable pub is_composite : KemAlgorithm → Bool
is_composite ml_kem768_x25519 = true
is_composite ml_kem768_ecdh_p256 = true
is_composite ml_kem1024_ecdh_p384 = true
is_composite _ = false

unfoldable pub composite_sub_arc : KemAlgorithm → Option ℕ
composite_sub_arc ml_kem768_x25519 = some 58
composite_sub_arc ml_kem768_ecdh_p256 = some 59
composite_sub_arc ml_kem1024_ecdh_p384 = some 63
composite_sub_arc _ = none

unfoldable pub ciphertext_len : KemAlgorithm → ℕ
ciphertext_len ml_kem512 = 768
ciphertext_len ml_kem768 = 1088
ciphertext_len ml_kem1024 = 1568
ciphertext_len ml_kem768_x25519 = 1088 + 32
ciphertext_len ml_kem768_ecdh_p256 = 1088 + 65
ciphertext_len ml_kem1024_ecdh_p384 = 1568 + 97

unfoldable pub encapsulation_key_len : KemAlgorithm → ℕ
encapsulation_key_len ml_kem512 = 800
encapsulation_key_len ml_kem768 = 1184
encapsulation_key_len ml_kem1024 = 1568
encapsulation_key_len ml_kem768_x25519 = 1184 + 32
encapsulation_key_len ml_kem768_ecdh_p256 = 1184 + 65
encapsulation_key_len ml_kem1024_ecdh_p384 = 1568 + 97

unfoldable pub strength_order : KemAlgorithm → ℕ
strength_order ml_kem512 = 1
strength_order ml_kem768 = 3
strength_order ml_kem1024 = 5
strength_order ml_kem768_x25519 = 3
strength_order ml_kem768_ecdh_p256 = 3
strength_order ml_kem1024_ecdh_p384 = 5

unfoldable pub algorithms_at_or_above : KemAlgorithm → List KemAlgorithm
algorithms_at_or_above a =
    filter (λ b. leb (strength_order a) (strength_order b))
      (ml_kem512 ∷ ml_kem768 ∷ ml_kem1024 ∷ [])

-- KemAlgorithm::oid
unfoldable pub kem_oid : Oids → KemAlgorithm → Oid
kem_oid o ml_kem512 = o.id_ml_kem_512
kem_oid o ml_kem768 = o.id_ml_kem_768
kem_oid o ml_kem1024 = o.id_ml_kem_1024
kem_oid o ml_kem768_x25519 = o.id_mlkem768_x25519_sha3_256
kem_oid o ml_kem768_ecdh_p256 = o.id_mlkem768_ecdh_p256_sha3_256
kem_oid o ml_kem1024_ecdh_p384 = o.id_mlkem1024_ecdh_p384_sha3_256

unfoldable pub from_oid : Oids → Oid → Option KemAlgorithm
from_oid o oid =
    if oid == o.id_ml_kem_512
    then some ml_kem512
    else if oid == o.id_ml_kem_768
    then some ml_kem768
    else if oid == o.id_ml_kem_1024
    then some ml_kem1024
    else if oid == o.id_mlkem768_x25519_sha3_256
    then some ml_kem768_x25519
    else if oid == o.id_mlkem768_ecdh_p256_sha3_256
    then some ml_kem768_ecdh_p256
    else if oid == o.id_mlkem1024_ecdh_p384_sha3_256
    then some ml_kem1024_ecdh_p384
    else none
