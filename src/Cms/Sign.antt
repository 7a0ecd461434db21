-- ===== src/Cms/Sign.antt =====
-- pkinit-core/src/crypto/cms.rs: creating a SignedData, with a signer and without one.
use kurbu5_pkinit.Common.{
  Bytes, List, Oid, Result, String, Text, [], if◌then◌else◌, is_empty, map_err, none, ok, ok_or,
  some, ◌++◌, ◌>>=◌, ◌∷◌,
}
use kurbu5_pkinit.Common.Int.{pos}
use kurbu5_pkinit.Error.{Fault, Message, Pkinit, PkinitError, because, cms_sign_failed, str, text}
use kurbu5_pkinit.Synta.{AlgorithmIdentifier, Synta}
use kurbu5_pkinit.Crypto.{Crypto}
use kurbu5_pkinit.Cms.Structures.{CmsLibrary, SignedData, SignerInfo}

-- `.map_err(|e| PkinitError::CmsSignFailed(format!("{context}: {e}")))`
abbrev pub sign_err : String → Fault → PkinitError
sign_err context e = cms_sign_failed (because context e)

-- `certs.concat()`
unfoldable pub concat_bytes : List Bytes → Bytes
concat_bytes [] = []
concat_bytes (b ∷ bs) = b ++ concat_bytes bs

abbrev pub created_signer_info :
    Bytes → AlgorithmIdentifier → Bytes → AlgorithmIdentifier → Bytes → SignerInfo
created_signer_info ias_der digest_alg signed_attrs_content sig_alg signature = record {
  version = pos 1;
  sid = ias_der;
  digest_algorithm = digest_alg;
  signed_attrs = some signed_attrs_content;
  signature_algorithm = sig_alg;
  signature = signature;
  unsigned_attrs = none;
}

abbrev pub created_signed_data : AlgorithmIdentifier → Oid → Bytes → Bytes → SignerInfo → SignedData
created_signed_data digest_alg e_content_type content certs_content signer_info = record {
  version = pos 3;
  digest_algorithms = digest_alg ∷ [];
  encap_content_info = record { e_content_type = e_content_type; e_content = some content };
  certificates = if is_empty certs_content then none else some certs_content;
  crls = none;
  signer_infos = signer_info ∷ [];
}

module _ {H : Type 0} (synta : Synta) (crypto : Crypto H) (library : CmsLibrary H) where
  unfoldable pub issuer_and_serial_der : Bytes → Result Message Bytes
  issuer_and_serial_der cert_der = do
    cert ← map_err (synta.certificate_from_der cert_der) (because "parse certificate")
    issuer_name ← map_err (library.name_from_der cert.issuer) (because "parse issuer Name")
    map_err
        (library.issuer_and_serial_to_der
          (record { issuer = issuer_name; serial_number = cert.serial_number }))
        (because "encode IssuerAndSerialNumber")

  -- The SET to sign, and its content for the `[0]` IMPLICIT field.
  unfoldable pub build_signed_attrs : Oid → Bytes → Result Message (Bytes × Bytes)
  build_signed_attrs content_oid digest = do
    id_ct ←
        map_err (synta.object_identifier synta.oids.pkcs9_content_type)
          (λ _. str "invalid id-contentType OID" ∷ [])
    id_md ←
        map_err (synta.object_identifier synta.oids.pkcs9_message_digest)
          (λ _. str "invalid id-messageDigest OID" ∷ [])
    ct_vals ←
        map_err (library.set_of_oids_to_der (content_oid ∷ []))
          (because "encode contentType attrValues")
    ct_attr_der ←
        map_err (library.attribute_to_der (record { attr_type = id_ct; attr_values = ct_vals }))
          (because "encode contentType Attribute")
    md_vals ←
        map_err (library.set_of_octet_strings_to_der (digest ∷ []))
          (because "encode messageDigest attrValues")
    md_attr_der ←
        map_err (library.attribute_to_der (record { attr_type = id_md; attr_values = md_vals }))
          (because "encode messageDigest Attribute")
    to_sign ←
        map_err (library.set_of_raw_to_der (ct_attr_der ∷ md_attr_der ∷ []))
          (because "encode signedAttrs SET")
    inner ← map_err (library.enter_set to_sign) (because "strip SET outer tag")
    ok (to_sign, inner)

  -- The end of both functions: the SignedData in a ContentInfo, under a `[0]` EXPLICIT tag.
  unfoldable pub wrap_signed_data : SignedData → Pkinit Bytes
  wrap_signed_data signed_data = do
    sd_der ← map_err (library.signed_data_to_der signed_data) (sign_err "encode SignedData")
    explicit_0 ← map_err (library.explicit_0_to_der sd_der) (sign_err "encode [0] EXPLICIT")
    id_signed_data ←
        map_err (synta.object_identifier synta.oids.id_signed_data)
          (λ _. cms_sign_failed (str "invalid id-signedData OID" ∷ []))
    map_err
        (library.content_info_to_der
          (record { content_type = id_signed_data; content = explicit_0 }))
        (sign_err "encode ContentInfo")

  unfoldable pub create_unsigned_data : Bytes → Oid → Pkinit Bytes
  create_unsigned_data content content_oid = do
    e_content_type ← map_err (synta.object_identifier content_oid) (sign_err "eContentType OID")
    wrap_signed_data (record {
      version = pos 3;
      digest_algorithms = [];
      encap_content_info = record { e_content_type = e_content_type; e_content = some content };
      certificates = none;
      crls = none;
      signer_infos = [];
    })

  unfoldable pub create_signed_data : Bytes → Oid → H → Bytes → List Bytes → Text → Pkinit Bytes
  create_signed_data content content_oid signer_key signer_cert_der extra_certs hash_algorithm = do
    e_content_type ← map_err (synta.object_identifier content_oid) (sign_err "eContentType OID")
    digest_alg ←
        ok_or (library.digest_alg_id hash_algorithm)
          (cms_sign_failed (str "unsupported hash: " ∷ text hash_algorithm ∷ []))
    digest_bytes ← map_err (crypto.hash_data hash_algorithm content) (sign_err "hash")
    (to_sign, signed_attrs_content) ←
        map_err (build_signed_attrs e_content_type digest_bytes)
          (λ m. cms_sign_failed (str "signed attrs: " ∷ m))
    let signer = library.as_signer signer_key hash_algorithm
    sig_alg_bytes ← map_err (library.signature_algorithm_der signer) (sign_err "sig alg")
    signature ← map_err (library.sign_tbs signer to_sign) (sign_err "sign")
    ias_der ←
        map_err (issuer_and_serial_der signer_cert_der)
          (λ m. cms_sign_failed (str "signer cert: " ∷ m))
    sig_alg ← map_err (synta.alg_id_from_der sig_alg_bytes) (sign_err "decode sig alg")
    let signer_info = created_signer_info ias_der digest_alg signed_attrs_content sig_alg signature
    wrap_signed_data (
        created_signed_data digest_alg e_content_type content
          (concat_bytes (signer_cert_der ∷ extra_certs)) signer_info)
