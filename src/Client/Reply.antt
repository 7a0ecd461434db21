-- ===== src/Client/Reply.antt =====
-- pkinit-core/src/client.rs: `process_as_rep` and the two kinds of reply.
use kurbu5_pkinit.Common.{
  Bytes, Option, Text, [], err, if◌then◌else◌, length, list_eq, map_err, nat_eq, none, not, ok,
  ok_or, option_eq, reject_if, some, ℕ, ◌&&◌, ◌++◌, ◌==◌, ◌>>=◌, ◌>>◌, ◌||◌, ◌∷◌,
}
use kurbu5_pkinit.Common.Int.{ℤ, ℤ_eq}
use kurbu5_pkinit.Error.{
  Pkinit, arcs, asn1, asn1_err, cms_content_type_mismatch, dh_agreement_failed, downgrade_rejected,
  kdf_not_offered, kem_algorithm_mismatch, kem_ciphertext_length_invalid, kem_decap_failed,
  nonce_mismatch, str, unsupported,
}
use kurbu5_pkinit.Constants.{
  DhGroup, KemAlgorithm, ciphertext_len, group_eq, id_pkinit_kem_key_data, kem_eq, kem_oid,
}
use kurbu5_pkinit.Synta.{DhRepInfo, KdcKemInfo, Synta, dh_info, enc_key_pack}
use kurbu5_pkinit.Crypto.{Crypto}
use kurbu5_pkinit.KemTypes.{decode_kem_rep_content, decode_nonce, is_kem_rep}
use kurbu5_pkinit.Dh.{derive_shared_secret, group_algorithm_oid_and_params}
use kurbu5_pkinit.Kem.{KemKeyPair, decapsulate}
use kurbu5_pkinit.Kdf.{
  DerivedKey, OctetString2Key, encode_principal_for_kdf, octetstring2key, pkinit_kdf,
  pkinit_kem_kdf,
}
use kurbu5_pkinit.Cms.{Cms}
use kurbu5_pkinit.Client.State.{PkinitClientState, has_pq_certificate, is_pq_signature_algorithm}
use kurbu5_pkinit.Client.Negotiate.{is_some, offered_eq}
use kurbu5_pkinit.Client.Trust.{validate_kdc_chain}

pub record AsRepParams : Type 0 where
  pub nonce : ℤ
  pub enctype : ℤ
  pub as_req_der : Bytes
  pub pa_rep_raw : Bytes
  pub client_name : Text
  pub server_name : Text

-- `unwrap_or_default`
abbrev pub bytes_or_empty : Option Bytes → Bytes
bytes_or_empty (some b) = b
bytes_or_empty none = []

module _ (synta : Synta) where
  unfoldable pub rebuild_spki : DhGroup → Bytes → Pkinit Bytes
  rebuild_spki group pub_key_bits = do
    (algorithm, parameters) ← group_algorithm_oid_and_params synta group
    o ← map_err (synta.object_identifier algorithm) (asn1_err "algorithm OID")
    map_err
        (synta.spki_to_der (record {
          algorithm = record { algorithm = o; parameters = parameters };
          subject_public_key = pub_key_bits;
        }))
        (asn1_err "encode SPKI")

  -- The nonce of a reply must be the request's.
  unfoldable pub check_nonce : ℤ → ℤ → Pkinit (Unit {0})
  check_nonce expected encoded = do
    n ← decode_nonce synta encoded
    reject_if (not (n == expected)) (nonce_mismatch expected n)

  -- `process_kem_rep` between the decoding of KDCKEMInfo and the decapsulation.
  unfoldable pub check_kem_info : KemAlgorithm → ℤ → KdcKemInfo → Pkinit (Unit {0})
  check_kem_info kem_alg nonce info = do
    reject_if (is_some info.server_nonce)
        (kem_decap_failed (str "serverNonce must be absent for pure ML-KEM" ∷ []))
    reply_nonce ← ok_or info.nonce (asn1 (str "KDC omitted required nonce in KDCKEMInfo" ∷ []))
    check_nonce nonce reply_nonce
    reject_if (not (info.kem_algorithm.algorithm == kem_oid synta.oids kem_alg))
        (kem_algorithm_mismatch (kem_oid synta.oids kem_alg) info.kem_algorithm.algorithm)
    reject_if (is_some info.kem_algorithm.parameters)
        (asn1 (str "KDCKEMInfo.kemAlgorithm parameters must be absent" ∷ []))
    reject_if
        (not (info.kdf_algorithm.algorithm == synta.oids.id_alg_hkdf_with_sha512)
          || is_some info.kdf_algorithm.parameters)
        (kdf_not_offered (
          arcs info.kdf_algorithm.algorithm
          ∷ str " (parameters "
          ∷ (if is_some info.kdf_algorithm.parameters then str "present" else str "absent")
          ∷ str ")"
          ∷ []))
    reject_if (not (length info.kemct == ciphertext_len kem_alg))
        (kem_ciphertext_length_invalid (ciphertext_len kem_alg) (length info.kemct))

module _ {H : Type 0} (synta : Synta) (crypto : Crypto H) (cms : Cms H) (o2k : OctetString2Key)
    (now : ℕ) where
  -- The checks on the signed data of a KEM reply; the result is its content.
  unfoldable pub verify_kem_signed_data : PkinitClientState H → Bytes → Pkinit Bytes
  verify_kem_signed_data c kem_signed_data = do
    verified ← cms.verify_signed_data kem_signed_data
    reject_if (not (verified.content_type == id_pkinit_kem_key_data))
        (cms_content_type_mismatch "id-pkinit-KEMKeyData" verified.content_type)
    reject_if
        (has_pq_certificate synta c
          && not (is_pq_signature_algorithm synta verified.signer_algorithm_oid))
        (downgrade_rejected (str "KDC must use quantum-resistant signature with PQ client" ∷ []))
    validate_kdc_chain synta crypto now c verified.signer_cert_der verified.all_certs_der
    ok verified.content

  -- `process_kem_rep` after the KEM key has left the state.
  unfoldable pub answer_kem_rep :
      PkinitClientState H → Bytes → AsRepParams → KemKeyPair H → Pkinit DerivedKey
  answer_kem_rep c pa_rep params kem_key = do
    kem_rep_content ← decode_kem_rep_content pa_rep
    kem_rep_info ←
        map_err (synta.kem_rep_info_from_der kem_rep_content) (asn1_err "decode KEMRepInfo")
    content ← verify_kem_signed_data c kem_rep_info.kem_signed_data
    info ← map_err (synta.kdc_kem_info_from_der content) (asn1_err "decode KDCKEMInfo")
    check_kem_info synta kem_key.algorithm params.nonce info
    shared_secret ← decapsulate crypto kem_key info.kemct
    pkinit_kem_kdf synta crypto o2k (record {
      shared_secret = shared_secret;
      enctype = params.enctype;
      as_req_der = params.as_req_der;
      kem_signed_data = kem_rep_info.kem_signed_data;
    })

  -- `self.kem_key.take()`: the key leaves the state before anything else.
  unfoldable pub process_kem_rep :
      PkinitClientState H → Bytes → AsRepParams → Pkinit DerivedKey × PkinitClientState H
  process_kem_rep c pa_rep params = (
    elim c.kem_key [
      | none ↦ err (kem_decap_failed (str "no KEM key generated for this exchange" ∷ []))
      | some key ↦ answer_kem_rep (record c { kem_key = none }) pa_rep params key
    ],
    record c { kem_key = none },
  )

  -- The end of `process_dh_rep`: with a KDF, or without.
  unfoldable pub dh_reply_key :
      PkinitClientState H → DhRepInfo → AsRepParams → Bytes → Pkinit DerivedKey
  dh_reply_key c info params shared_secret = elim info.kdf [
    | some kdf_oid ↦ do
      party_u ← encode_principal_for_kdf synta params.client_name
      party_v ← encode_principal_for_kdf synta params.server_name
      pkinit_kdf synta crypto o2k (record {
        shared_secret = shared_secret;
        kdf_oid = kdf_oid;
        enctype = params.enctype;
        party_u_info = party_u;
        party_v_info = party_v;
        as_req_der = params.as_req_der;
        pa_pk_as_rep_der = params.pa_rep_raw;
      })
    | none ↦
        octetstring2key o2k
          (shared_secret ++ bytes_or_empty c.dh_nonce ++ bytes_or_empty info.server_dhnonce)
          params.enctype
  ]

  unfoldable pub process_dh_rep : PkinitClientState H → DhRepInfo → AsRepParams → Pkinit DerivedKey
  unfolding dh_reply_key
  process_dh_rep c info params = do
    verified ← cms.verify_signed_data info.dh_signed_data
    reject_if (not (verified.content_type == synta.oids.id_pkinit_dhkey_data))
        (cms_content_type_mismatch "id-pkinit-DHKeyData" verified.content_type)
    validate_kdc_chain synta crypto now c verified.signer_cert_der verified.all_certs_der
    key_info ←
        map_err (synta.kdc_dh_key_info_from_der verified.content) (asn1_err "decode KDCDHKeyInfo")
    check_nonce synta params.nonce key_info.nonce
    dh_key ← ok_or c.dh_key (dh_agreement_failed (str "no DH key generated" ∷ []))
    kdc_spki ← rebuild_spki synta dh_key.group key_info.subject_public_key
    shared_secret ← derive_shared_secret crypto dh_key kdc_spki
    dh_reply_key c info params shared_secret

  unfoldable pub process_as_rep :
      PkinitClientState H → Bytes → AsRepParams → Pkinit DerivedKey × PkinitClientState H
  process_as_rep c pa_rep params =
      if is_kem_rep pa_rep
      then process_kem_rep c pa_rep params
      else elim (synta.pa_pk_as_rep_from_der pa_rep) [
        | err e ↦ (err (asn1_err "decode PA-PK-AS-REP" e), c)
        | ok (dh_info info) ↦ (process_dh_rep c info params, c)
        | ok (enc_key_pack _) ↦
            (err (unsupported (str "RSA key transport mode not supported" ∷ [])), c)
      ]
