-- ===== src/Cms/Verify.antt =====
-- pkinit-core/src/crypto/cms.rs: verifying a SignedData, and reading content that has no signer.
use kurbu5_pkinit.Common.{
  Bytes, List, Oid, Option, String, Text, [], err, if◌then◌else◌, is_empty, length, list_eq,
  map_err, nat_eq, none, not, ok, ok_or, option_eq, reject_if, some, suc, zero, ℕ, ◌&&◌, ◌++◌, ◌==◌,
  ◌>>=◌, ◌>>◌, ◌∷◌,
}
use kurbu5_pkinit.Common.Int.{ℤ, ℤ_eq}
use kurbu5_pkinit.Error.{
  Fault, Pkinit, PkinitError, arcs, because, cms_content_type_mismatch, cms_verify_failed, str,
}
use kurbu5_pkinit.Constants.{group_eq, kem_eq}
use kurbu5_pkinit.Synta.{AlgorithmIdentifier, Synta}
use kurbu5_pkinit.Crypto.{Crypto}
use kurbu5_pkinit.KemTypes.{der_encode_length}
use kurbu5_pkinit.Cms.{VerifiedSignedData}
use kurbu5_pkinit.Cms.Structures.{
  Attribute, CmsLibrary, IssuerAndSerialNumber, SignedData, SignerInfo,
}

-- `.map_err(|e| PkinitError::CmsVerifyFailed(format!("{context}: {e}")))`
abbrev pub verify_err : String → Fault → PkinitError
verify_err context e = cms_verify_failed (because context e)

abbrev pub rejected_cms : String → PkinitError
rejected_cms reason = cms_verify_failed (str reason ∷ [])

unfoldable pub retag_as_set : Bytes → Bytes
retag_as_set content = 0x31 ∷ der_encode_length (length content) ++ content

module _ {H : Type 0} (synta : Synta) (crypto : Crypto H) (library : CmsLibrary H) where
  -- `while !dec.is_empty()`, with fuel.
  unfoldable pub certificates_loop : ℕ → Bytes → Pkinit (List Bytes)
  certificates_loop fuel [] = ok []
  certificates_loop zero (b ∷ bs) = err (rejected_cms "out of fuel")
  certificates_loop (suc fuel) (b ∷ bs) = do
    (cert, rest) ← map_err (library.decode_raw (b ∷ bs)) (verify_err "parse cert in SET")
    certs ← certificates_loop fuel rest
    ok (cert ∷ certs)

  unfoldable pub extract_certificates : Bytes → Pkinit (List Bytes)
  unfolding certificates_loop
  extract_certificates certs_raw = certificates_loop (length certs_raw) certs_raw

  -- The loop of both checks of the signed attributes: the first attribute of a type, if any.
  unfoldable pub first_attribute : ℕ → Oid → Bytes → Pkinit (Option Attribute)
  first_attribute fuel id [] = ok none
  first_attribute zero id (b ∷ bs) = err (rejected_cms "out of fuel")
  first_attribute (suc fuel) id (b ∷ bs) = do
    (attr, rest) ← map_err (library.decode_attribute (b ∷ bs)) (verify_err "parse attribute")
    let later = first_attribute fuel id rest
    if attr.attr_type == id then ok (some attr) else later

  unfoldable pub verify_message_digest : Bytes → Bytes → Pkinit (Unit {0})
  unfolding first_attribute
  verify_message_digest signed_attrs_content expected_digest = do
    id_md ←
        map_err (synta.object_identifier synta.oids.pkcs9_message_digest)
          (λ _. rejected_cms "invalid id-messageDigest OID")
    found ← first_attribute (length signed_attrs_content) id_md signed_attrs_content
    attr ← ok_or found (rejected_cms "messageDigest attribute not found in signedAttrs")
    inner ← map_err (library.enter_set attr.attr_values) (verify_err "enter attrValues SET")
    digest ← map_err (library.decode_octet_string inner) (verify_err "parse digest value")
    if crypto.ct_eq digest expected_digest
        then ok tt
        else err (rejected_cms "messageDigest does not match content")

  unfoldable pub verify_content_type : Bytes → Oid → Pkinit (Unit {0})
  unfolding first_attribute
  verify_content_type signed_attrs_content expected_content_type = do
    id_ct ←
        map_err (synta.object_identifier synta.oids.pkcs9_content_type)
          (λ _. rejected_cms "invalid id-contentType OID")
    found ← first_attribute (length signed_attrs_content) id_ct signed_attrs_content
    attr ← ok_or found (rejected_cms "contentType attribute not found in signedAttrs")
    inner ←
        map_err (library.enter_set attr.attr_values) (verify_err "enter contentType attrValues SET")
    oid ← map_err (library.decode_oid inner) (verify_err "parse contentType OID")
    if oid == expected_content_type
        then ok tt
        else err (
            cms_verify_failed (
              str "contentType attribute "
              ∷ arcs oid
              ∷ str " does not match eContentType "
              ∷ arcs expected_content_type
              ∷ []))

  unfoldable pub search_signer : Bytes → ℤ → List Bytes → Pkinit Bytes
  search_signer issuer_der serial [] =
      err (rejected_cms "signer certificate not found in SignedData")
  search_signer issuer_der serial (cert_der ∷ certs) = do
    cert ← map_err (synta.certificate_from_der cert_der) (verify_err "parse cert")
    let later = search_signer issuer_der serial certs
    if cert.serial_number == serial && cert.issuer == issuer_der then ok cert_der else later

  unfoldable pub find_signer_cert : List Bytes → IssuerAndSerialNumber → Pkinit Bytes
  unfolding search_signer
  find_signer_cert certs ias = do
    ias_issuer_der ← map_err (library.name_to_der ias.issuer) (verify_err "encode IAS issuer")
    search_signer ias_issuer_der ias.serial_number certs

  unfoldable pub digest_alg_to_name : AlgorithmIdentifier → Pkinit Text
  digest_alg_to_name alg =
      ok_or (synta.digest_oid_to_name alg.algorithm)
        (cms_verify_failed (str "unsupported digest algorithm: " ∷ arcs alg.algorithm ∷ []))

  -- The common beginning of the readers of a SignedData.
  unfoldable pub open_signed_data : Bytes → Pkinit SignedData
  open_signed_data content_info_der = do
    ci ← map_err (library.content_info_from_der content_info_der) (verify_err "parse ContentInfo")
    expected_oid ←
        map_err (synta.object_identifier synta.oids.id_signed_data)
          (λ _. rejected_cms "invalid id-signedData OID")
    reject_if (not (ci.content_type == expected_oid))
        (cms_content_type_mismatch "id-signedData" ci.content_type)
    sd_bytes ← map_err (library.enter_explicit_0 ci.content) (verify_err "unwrap [0] EXPLICIT")
    map_err (library.signed_data_from_der sd_bytes) (verify_err "parse SignedData")

  unfoldable pub certificates_of : SignedData → Pkinit (List Bytes)
  unfolding extract_certificates
  certificates_of signed_data = elim signed_data.certificates [
    | some certs_raw ↦ extract_certificates certs_raw
    | none ↦ ok []
  ]

  unfoldable pub signer_public_key : Bytes → Pkinit H
  signer_public_key signer_cert_der = do
    signer_cert ←
        map_err (synta.certificate_from_der signer_cert_der) (verify_err "parse signer cert")
    spki_der ←
        map_err (synta.spki_to_der signer_cert.subject_public_key_info) (verify_err "encode SPKI")
    map_err (library.backend_public_key spki_der) (verify_err "parse public key")

  -- What `verify_signed_data` checks with the signer's key: digest, content type, signature.
  unfoldable pub verify_signer : H → SignerInfo → Bytes → Oid → Pkinit (Unit {0})
  unfolding verify_message_digest verify_content_type digest_alg_to_name retag_as_set
  verify_signer pub_key signer_info content content_type = do
    signed_attrs ← ok_or signer_info.signed_attrs (rejected_cms "no signedAttrs")
    hash_name ← digest_alg_to_name signer_info.digest_algorithm
    computed_digest ← map_err (crypto.hash_data hash_name content) (verify_err "hash content")
    verify_message_digest signed_attrs computed_digest
    verify_content_type signed_attrs content_type
    sig_alg_der ←
        map_err (library.alg_id_to_der signer_info.signature_algorithm)
          (verify_err "encode sig alg")
    map_err
        (library.verify_signature pub_key (retag_as_set signed_attrs) sig_alg_der
          signer_info.signature)
        (verify_err "signature invalid")

  unfoldable pub first_signer : SignedData → Option SignerInfo
  first_signer signed_data = elim signed_data.signer_infos [ [] ↦ none | s ∷ _ ↦ some s ]

  unfoldable pub verify_signed_data : Bytes → Pkinit VerifiedSignedData
  unfolding open_signed_data certificates_of find_signer_cert signer_public_key verify_signer
      first_signer
  verify_signed_data content_info_der = do
    signed_data ← open_signed_data content_info_der
    signer_info ← ok_or (first_signer signed_data) (rejected_cms "no SignerInfo present")
    all_certs_der ← certificates_of signed_data
    signer_ias ←
        map_err (library.issuer_and_serial_from_der signer_info.sid)
          (verify_err "parse SignerIdentifier")
    signer_cert_der ← find_signer_cert all_certs_der signer_ias
    pub_key ← signer_public_key signer_cert_der
    content ←
        ok_or signed_data.encap_content_info.e_content (rejected_cms "no eContent in SignedData")
    let content_type = signed_data.encap_content_info.e_content_type
    verify_signer pub_key signer_info content content_type
    ok (record {
      content = content;
      content_type = content_type;
      signer_cert_der = signer_cert_der;
      all_certs_der = all_certs_der;
      signer_algorithm_oid = signer_info.signature_algorithm.algorithm;
    })

  unfoldable pub extract_unsigned_content : Bytes → Pkinit (Bytes × Oid)
  unfolding open_signed_data
  extract_unsigned_content content_info_der = do
    signed_data ← open_signed_data content_info_der
    reject_if (not (is_empty signed_data.signer_infos))
        (rejected_cms "SignedData has signers; expected unsigned anonymous content")
    content ←
        ok_or signed_data.encap_content_info.e_content (rejected_cms "no eContent in SignedData")
    ok (content, signed_data.encap_content_info.e_content_type)

  unfoldable pub extract_bare_content : Bytes → Pkinit (Bytes × Oid)
  extract_bare_content content_info_der = do
    ci ← map_err (library.content_info_from_der content_info_der) (verify_err "parse ContentInfo")
    content_bytes ← map_err (library.enter_explicit_0 ci.content) (verify_err "unwrap [0] EXPLICIT")
    content ←
        map_err (library.decode_octet_string content_bytes) (verify_err "extract OCTET STRING")
    ok (content, ci.content_type)
