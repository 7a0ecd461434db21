-- ===== src/Synta.antt =====
-- The synta crates (ASN.1 DER, certificates, Kerberos names), which the code only calls: their data
-- as records, and their functions as the fields of one record, a parameter of the modules that call
-- them. A DER element that is passed on unread is its bytes. The codecs that `synta::Asn1Sequence`
-- derives for the structures of pkinit-core/src/kem_types.rs are generated, and stand here too.
use kurbu5_pkinit.Common.{Bool, Bytes, List, Oid, Option, Result, Text, ℕ}
use kurbu5_pkinit.Common.Int.{ℤ}
use kurbu5_pkinit.Error.{Fault}
use kurbu5_pkinit.Constants.{Oids}

pub record AlgorithmIdentifier : Type 0 where
  pub algorithm : Oid
  pub parameters : Option Bytes

pub record SubjectPublicKeyInfo : Type 0 where
  pub algorithm : AlgorithmIdentifier
  pub subject_public_key : Bytes

pub record PaChecksum2 : Type 0 where
  pub checksum : Bytes
  pub algorithm_identifier : AlgorithmIdentifier

-- `ctime` is the Unix time of the GeneralizedTime.
pub record PkAuthenticator : Type 0 where
  pub cusec : ℤ
  pub ctime : ℤ
  pub nonce : ℤ
  pub pa_checksum : Option Bytes
  pub freshness_token : Option Bytes
  pub pa_checksum2 : Option PaChecksum2

pub record AuthPack : Type 0 where
  pub pk_authenticator : PkAuthenticator
  pub client_public_value : Option Bytes
  pub supported_cmstypes : Option Bytes
  pub client_dhnonce : Option Bytes
  pub supported_kdfs : Option (List Oid)

pub record PaPkAsReq : Type 0 where
  pub signed_auth_pack : Bytes
  pub trusted_certifiers : Option Bytes
  pub kdc_pk_id : Option Bytes

pub record KdcDhKeyInfo : Type 0 where
  pub subject_public_key : Bytes
  pub nonce : ℤ
  pub dh_key_expiration : Option Bytes

pub record DhRepInfo : Type 0 where
  pub dh_signed_data : Bytes
  pub server_dhnonce : Option Bytes
  pub kdf : Option Oid

pub data PaPkAsRep : Type 0 where
  dh_info : DhRepInfo → PaPkAsRep
  enc_key_pack : Bytes → PaPkAsRep

-- kem_types.rs: KemRepInfo, KdcKemInfo and PkinitKemSuppPubInfo.
pub record KemRepInfo : Type 0 where
  pub kem_signed_data : Bytes

pub record KdcKemInfo : Type 0 where
  pub kem_algorithm : AlgorithmIdentifier
  pub kemct : Bytes
  pub kdf_algorithm : AlgorithmIdentifier
  pub nonce : Option ℤ
  pub server_nonce : Option Bytes

pub record PkinitKemSuppPubInfo : Type 0 where
  pub enctype : ℤ
  pub as_req : Bytes
  pub kem_signed_data : Bytes

-- kdf.rs: the inputs of RFC 8636's OtherInfo.
pub record PkinitSuppPubInfo : Type 0 where
  pub enctype : ℤ
  pub as_req : Bytes
  pub pk_as_rep : Bytes

pub record OtherInfo : Type 0 where
  pub algorithm_id : AlgorithmIdentifier
  pub party_uinfo : Bytes
  pub party_vinfo : Bytes
  pub supp_pub_info : Option Bytes
  pub supp_priv_info : Option Bytes

-- A parsed principal: name-type, components, realm.
pub record Principal : Type 0 where
  pub name_type : ℤ
  pub name_string : List Text
  pub realm : Option Text

-- `utf8` is the value of an OtherName that holds a UTF8String.
pub record OtherName : Type 0 where
  pub type_id : Oid
  pub utf8 : Option Text
  pub value : Bytes

pub data GeneralName : Type 0 where
  other_name : OtherName → GeneralName
  dns_name : Text → GeneralName
  any_other : GeneralName

-- What the code reads of a certificate. `extensions` is the raw extension block.
pub record Certificate : Type 0 where
  pub extensions : Option Bytes
  pub subject : Bytes
  pub issuer : Bytes
  pub serial_number : ℤ
  pub subject_public_key_info : SubjectPublicKeyInfo

pub record Synta : Type 0 where
  pub oids : Oids
  pub object_identifier : Oid → Result Fault Oid
  pub as_i64 : ℤ → Result Fault ℤ
  pub from_unix : ℤ → Option ℤ
  pub oid_to_der : Oid → Result Fault Bytes
  pub oid_from_der : Bytes → Result Fault Oid
  pub element_to_der : Bytes → Result Fault Bytes
  pub element_from_der : Bytes → Result Fault Bytes
  pub alg_id_from_der : Bytes → Result Fault AlgorithmIdentifier
  pub alg_ids_to_der : List AlgorithmIdentifier → Result Fault Bytes
  pub alg_ids_from_der : Bytes → Result Fault (List AlgorithmIdentifier)
  pub td_dh_parameters_from_der : Bytes → Result Fault (List Bytes)
  pub padata_from_der : Bytes → Result Fault (List (ℤ × Bytes))
  pub spki_to_der : SubjectPublicKeyInfo → Result Fault Bytes
  pub spki_from_der : Bytes → Result Fault SubjectPublicKeyInfo
  pub auth_pack_to_der : AuthPack → Result Fault Bytes
  pub auth_pack_from_der : Bytes → Result Fault AuthPack
  pub pa_pk_as_req_to_der : PaPkAsReq → Result Fault Bytes
  pub pa_pk_as_req_from_der : Bytes → Result Fault PaPkAsReq
  pub pa_pk_as_rep_to_der : PaPkAsRep → Result Fault Bytes
  pub pa_pk_as_rep_from_der : Bytes → Result Fault PaPkAsRep
  pub kdc_dh_key_info_to_der : KdcDhKeyInfo → Result Fault Bytes
  pub kdc_dh_key_info_from_der : Bytes → Result Fault KdcDhKeyInfo
  pub kem_rep_info_to_der : KemRepInfo → Result Fault Bytes
  pub kem_rep_info_from_der : Bytes → Result Fault KemRepInfo
  pub kdc_kem_info_to_der : KdcKemInfo → Result Fault Bytes
  pub kdc_kem_info_from_der : Bytes → Result Fault KdcKemInfo
  pub kem_supp_pub_info_to_der : PkinitKemSuppPubInfo → Result Fault Bytes
  pub supp_pub_info_to_der : PkinitSuppPubInfo → Result Fault Bytes
  pub other_info_to_der : OtherInfo → Result Fault Bytes
  pub parse_principal : Text → Option Principal
  pub encode_principal_name_from_parts : ℤ → List Text → Text → Result Fault Bytes
  pub nt_wellknown : ℤ
  pub td_dh_parameters : ℤ
  pub td_trusted_certifiers : ℤ
  pub td_pkinit_cms_certificates : ℤ
  pub certificate_from_der : Bytes → Result Fault Certificate
  pub find_subject_alt_name : Bytes → Option Bytes
  pub find_extended_key_usage : Bytes → Option Bytes
  pub find_key_usage : Bytes → Option Bytes
  pub general_names_from_der : Bytes → Result Fault (List GeneralName)
  pub extended_key_usage_from_der : Bytes → Result Fault (List Oid)
  pub key_usage_from_der : Bytes → Result Fault Bytes
  pub key_usage_bit : Bytes → ℕ → Bool
  pub key_usage_digital_signature : ℕ
  pub other_name_to_der : OtherName → Result Fault Bytes
  pub decode_krb5_san : Bytes → Option Text
  pub format_dn : Bytes → Text
  pub digest_oid_to_name : Oid → Option Text
  pub is_composite_mldsa : Oid → Bool
