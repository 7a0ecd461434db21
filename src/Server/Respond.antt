-- ===== src/Server/Respond.antt =====
-- pkinit-core/src/server.rs: `build_as_rep` and the two kinds of reply. Random draws are arguments.
use kurbu5_pkinit.Common.{
  Bytes, List, Oid, Option, Text, [], any, is_empty, list_eq, map_err, nat_eq, none, not, ok, ok_or,
  option_eq, reject_if, some, ℕ, ◌&&◌, ◌++◌, ◌==◌, ◌>>=◌, ◌>>◌, ◌∷◌,
}
use kurbu5_pkinit.Common.Int.{ℤ, ℤ_eq}
use kurbu5_pkinit.Error.{Pkinit, PkinitError, asn1_err, because, identity_load_failed, ossl, str}
use kurbu5_pkinit.Constants.{
  DhGroup, KemAlgorithm, dh, group_eq, id_pkinit_kem_key_data, kem, kem_eq, kem_oid,
}
use kurbu5_pkinit.Synta.{KdcKemInfo, Synta, dh_info}
use kurbu5_pkinit.Crypto.{Crypto}
use kurbu5_pkinit.KemTypes.{encode_kem_rep_wrapper, encode_nonce}
use kurbu5_pkinit.Dh.{derive_shared_secret, dh_spki_der, generate}
use kurbu5_pkinit.Kem.{encapsulate_for_client}
use kurbu5_pkinit.Kdf.{
  DerivedKey, OctetString2Key, encode_principal_for_kdf, octetstring2key, pick_kdf_alg, pkinit_kdf,
  pkinit_kem_kdf,
}
use kurbu5_pkinit.Cms.{Cms, digest_for_signer}
use kurbu5_pkinit.Server.State.{PkinitKdcState}
use kurbu5_pkinit.Server.Verify.{VerifiedRequest}
use kurbu5_pkinit.Client.Reply.{bytes_or_empty}

pub record BuildAsRepParams : Type 0 where
  pub nonce : ℤ
  pub enctype : ℤ
  pub as_req_der : Bytes
  pub client_name : Text
  pub server_name : Text

module _ (synta : Synta) where
  unfoldable pub extract_pub_key_bits : Bytes → Pkinit Bytes
  extract_pub_key_bits spki_der = do
    spki ← map_err (synta.spki_from_der spki_der) (asn1_err "decode SPKI")
    ok spki.subject_public_key

  -- An absent list of KDFs stands for HKDF-SHA-512.
  unfoldable pub check_kem_kdfs : List Oid → Pkinit (Unit {0})
  check_kem_kdfs kdfs =
      reject_if
        (not (is_empty kdfs) && not (any (λ k. k == synta.oids.id_alg_hkdf_with_sha512) kdfs))
        PkinitError.no_acceptable_kdf

  -- The KDCKEMInfo of a reply.
  unfoldable pub kdc_kem_info : KemAlgorithm → Bytes → ℤ → Pkinit KdcKemInfo
  kdc_kem_info kem_alg kemct nonce = do
    o ← map_err (synta.object_identifier (kem_oid synta.oids kem_alg)) (asn1_err "KEM OID")
    k ← map_err (synta.object_identifier synta.oids.id_alg_hkdf_with_sha512) (asn1_err "KDF OID")
    ok (record {
      kem_algorithm = record { algorithm = o; parameters = none };
      kemct = kemct;
      kdf_algorithm = record { algorithm = k; parameters = none };
      nonce = some (encode_nonce nonce);
      server_nonce = none;
    })

module _ {H : Type 0} (synta : Synta) (crypto : Crypto H) (cms : Cms H)
    (o2k : OctetString2Key) where
  -- The KDC signs with its own key.
  unfoldable pub sign_reply : PkinitKdcState H → Bytes → Oid → Pkinit Bytes
  sign_reply kdc content content_type = do
    key ←
        ok_or kdc.identity.signing_key
          (identity_load_failed (str "KDC identity has no signing key" ∷ []))
    cms.create_signed_data content content_type key kdc.identity.cert_der kdc.identity.chain
        (digest_for_signer synta kdc.identity.cert_der)

  unfoldable pub build_kem_rep :
      ℕ
      → PkinitKdcState H
      → VerifiedRequest
      → BuildAsRepParams
      → KemAlgorithm
      → Pkinit (Bytes × DerivedKey)
  build_kem_rep draw kdc verified params kem_alg = do
    check_kem_kdfs synta verified.supported_kdfs
    (kemct, shared_secret) ← encapsulate_for_client crypto draw verified.client_dh_public kem_alg
    info ← kdc_kem_info synta kem_alg kemct params.nonce
    info_der ← map_err (synta.kdc_kem_info_to_der info) (asn1_err "encode KDCKEMInfo")
    signed ← sign_reply kdc info_der id_pkinit_kem_key_data
    pa_rep ← encode_kem_rep_wrapper synta (record { kem_signed_data = signed })
    derived ← pkinit_kem_kdf synta crypto o2k (record {
      shared_secret = shared_secret;
      enctype = params.enctype;
      as_req_der = params.as_req_der;
      kem_signed_data = signed;
    })
    ok (pa_rep, derived)

  -- The end of `build_dh_rep`: with a KDF, or without.
  unfoldable pub dh_server_key :
      Option Oid → VerifiedRequest → BuildAsRepParams → Bytes → Bytes → Bytes → Pkinit DerivedKey
  dh_server_key (some kdf_oid) verified params shared_secret server_dh_nonce pa_rep = do
    party_u ← encode_principal_for_kdf synta params.client_name
    party_v ← encode_principal_for_kdf synta params.server_name
    pkinit_kdf synta crypto o2k (record {
      shared_secret = shared_secret;
      kdf_oid = kdf_oid;
      enctype = params.enctype;
      party_u_info = party_u;
      party_v_info = party_v;
      as_req_der = params.as_req_der;
      pa_pk_as_rep_der = pa_rep;
    })
  dh_server_key none verified params shared_secret server_dh_nonce pa_rep =
      octetstring2key o2k
        (shared_secret ++ bytes_or_empty verified.client_dh_nonce ++ server_dh_nonce) params.enctype

  unfoldable pub build_dh_rep :
      ℕ
      → ℕ
      → PkinitKdcState H
      → VerifiedRequest
      → BuildAsRepParams
      → DhGroup
      → Pkinit (Bytes × DerivedKey)
  unfolding dh_server_key
  build_dh_rep key_draw nonce_draw kdc verified params dh_group = do
    kdc_dh_key ← generate crypto key_draw dh_group
    kdc_spki ← dh_spki_der crypto kdc_dh_key
    shared_secret ← derive_shared_secret crypto kdc_dh_key verified.client_dh_public
    kdc_pub_bits ← extract_pub_key_bits synta kdc_spki
    info_der ←
        map_err
          (synta.kdc_dh_key_info_to_der (record {
            subject_public_key = kdc_pub_bits;
            nonce = encode_nonce params.nonce;
            dh_key_expiration = none;
          }))
          (asn1_err "encode KDCDHKeyInfo")
    signed ← sign_reply kdc info_der synta.oids.id_pkinit_dhkey_data
    server_dh_nonce ←
        map_err (crypto.rand_bytes nonce_draw 32) (λ e. ossl (because "random bytes" e))
    let selected_kdf = pick_kdf_alg synta.oids verified.supported_kdfs
    pa_rep ←
        map_err
          (synta.pa_pk_as_rep_to_der (
            dh_info (record {
              dh_signed_data = signed;
              server_dhnonce = some server_dh_nonce;
              kdf = selected_kdf;
            })))
          (asn1_err "encode PA-PK-AS-REP")
    derived ← dh_server_key selected_kdf verified params shared_secret server_dh_nonce pa_rep
    ok (pa_rep, derived)

  unfoldable pub build_as_rep :
      ℕ → ℕ → PkinitKdcState H → VerifiedRequest → BuildAsRepParams → Pkinit (Bytes × DerivedKey)
  build_as_rep key_draw nonce_draw kdc verified params = elim verified.key_exchange [
    | dh dh_group ↦ build_dh_rep key_draw nonce_draw kdc verified params dh_group
    | kem kem_alg ↦ build_kem_rep key_draw kdc verified params kem_alg
  ]
