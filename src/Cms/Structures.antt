-- ===== src/Cms/Structures.antt =====
-- pkinit-core/src/crypto/cms.rs: the structures of RFC 5652 that it reads and writes, and the
-- library functions that encode, decode, sign and verify, as the fields of one record. A parsed
-- distinguished name stands as a list of numbers. A decoder is the octets that remain: the functions
-- that read one element give it with the octets after it.
use kurbu5_pkinit.Common.{Bytes, List, Oid, Option, Result, Text}
use kurbu5_pkinit.Common.Int.{ℤ}
use kurbu5_pkinit.Error.{Fault}
use kurbu5_pkinit.Synta.{AlgorithmIdentifier}

pub record Attribute : Type 0 where
  pub attr_type : Oid
  pub attr_values : Bytes

pub record IssuerAndSerialNumber : Type 0 where
  pub issuer : Bytes
  pub serial_number : ℤ

pub record SignerInfo : Type 0 where
  pub version : ℤ
  pub sid : Bytes
  pub digest_algorithm : AlgorithmIdentifier
  pub signed_attrs : Option Bytes
  pub signature_algorithm : AlgorithmIdentifier
  pub signature : Bytes
  pub unsigned_attrs : Option Bytes

pub record EncapsulatedContentInfo : Type 0 where
  pub e_content_type : Oid
  pub e_content : Option Bytes

pub record SignedData : Type 0 where
  pub version : ℤ
  pub digest_algorithms : List AlgorithmIdentifier
  pub encap_content_info : EncapsulatedContentInfo
  pub certificates : Option Bytes
  pub crls : Option Bytes
  pub signer_infos : List SignerInfo

pub record ContentInfo : Type 0 where
  pub content_type : Oid
  pub content : Bytes

pub record CmsLibrary (H : Type 0) : Type 0 where
  pub content_info_to_der : ContentInfo → Result Fault Bytes
  pub content_info_from_der : Bytes → Result Fault ContentInfo
  pub signed_data_to_der : SignedData → Result Fault Bytes
  pub signed_data_from_der : Bytes → Result Fault SignedData
  pub attribute_to_der : Attribute → Result Fault Bytes
  pub decode_attribute : Bytes → Result Fault (Attribute × Bytes)
  pub decode_raw : Bytes → Result Fault (Bytes × Bytes)
  pub decode_octet_string : Bytes → Result Fault Bytes
  pub decode_oid : Bytes → Result Fault Oid
  -- `[0]` EXPLICIT, and the content of the constructed tags `[0]` and SET
  pub explicit_0_to_der : Bytes → Result Fault Bytes
  pub enter_explicit_0 : Bytes → Result Fault Bytes
  pub enter_set : Bytes → Result Fault Bytes
  -- SetOf::to_der, which sorts the elements
  pub set_of_oids_to_der : List Oid → Result Fault Bytes
  pub set_of_octet_strings_to_der : List Bytes → Result Fault Bytes
  pub set_of_raw_to_der : List Bytes → Result Fault Bytes
  pub name_from_der : Bytes → Result Fault Bytes
  pub name_to_der : Bytes → Result Fault Bytes
  pub issuer_and_serial_to_der : IssuerAndSerialNumber → Result Fault Bytes
  pub issuer_and_serial_from_der : Bytes → Result Fault IssuerAndSerialNumber
  pub alg_id_to_der : AlgorithmIdentifier → Result Fault Bytes
  pub digest_alg_id : Text → Option AlgorithmIdentifier
  pub as_signer : H → Text → H
  pub signature_algorithm_der : H → Result Fault Bytes
  pub sign_tbs : H → Bytes → Result Fault Bytes
  pub backend_public_key : Bytes → Result Fault H
  pub verify_signature : H → Bytes → Bytes → Bytes → Result Fault (Unit {0})
