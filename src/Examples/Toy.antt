-- ===== src/Examples/Toy.antt =====
-- Stand-ins for the libraries that the code calls: just enough for an exchange to run through.
use kurbu5_pkinit.Common.{
  Bytes, Oid, Result, [], err, false, if◌then◌else◌, length, list_eq, ltb, nat_eq, none, not, ok,
  option_eq, reject_if, some, true, ℕ, ◌==◌, ◌>>◌, ◌^◌, ◌∷◌,
}
use kurbu5_pkinit.Common.Int.{pos, ℤ_eq}
use kurbu5_pkinit.Error.{Fault, Pkinit, cms_verify_failed}
use kurbu5_pkinit.Constants.{Oids, codes, group_eq, id_pkinit_kem_key_data, kem_eq}
use kurbu5_pkinit.Synta.{AuthPack, KdcKemInfo, Synta}
use kurbu5_pkinit.Crypto.{Crypto}
use kurbu5_pkinit.Config.{PkinitClientConfig, default_client_config}
use kurbu5_pkinit.Identity.{PkinitIdentity}
use kurbu5_pkinit.Identity.Store.{new_store}
use kurbu5_pkinit.Kdf.{OctetString2Key, zeros}
use kurbu5_pkinit.Cms.{Cms, VerifiedSignedData}
use kurbu5_pkinit.Client.State.{PkinitClientState, new_client}

abbrev pub oid : ℕ → Oid
oid n = n ∷ []

abbrev pub toy_oids : Oids
toy_oids = record {
  id_ml_kem_512 = oid 1;
  id_ml_kem_768 = oid 2;
  id_ml_kem_1024 = oid 3;
  id_mlkem768_x25519_sha3_256 = oid 4;
  id_mlkem768_ecdh_p256_sha3_256 = oid 5;
  id_mlkem1024_ecdh_p384_sha3_256 = oid 6;
  id_pkinit_auth_data = oid 7;
  id_pkinit_dhkey_data = oid 8;
  id_pkinit_kdf_ah_sha1 = oid 9;
  id_pkinit_kdf_ah_sha256 = oid 10;
  id_pkinit_kdf_ah_sha512 = oid 11;
  id_alg_hkdf_with_sha512 = oid 12;
  id_pkinit_kpclient_auth = oid 13;
  id_pkinit_kpkdc = oid 14;
  id_ms_kp_smartcard_logon = oid 15;
  id_kp_server_auth = oid 16;
  id_ms_san_upn = oid 17;
  id_sha256 = oid 18;
  id_ml_dsa_44 = oid 19;
  id_ml_dsa_65 = oid 20;
  id_ml_dsa_87 = oid 21;
  id_ec_public_key = oid 22;
  dhpublicnumber = oid 23;
  secp256r1 = oid 24;
  secp384r1 = oid 25;
  secp521r1 = oid 26;
  id_signed_data = oid 27;
  pkcs9_content_type = oid 28;
  pkcs9_message_digest = oid 29;
}

abbrev pub failure : Fault
failure = []

-- The one KDCKEMInfo shape that the toy codec writes: ML-KEM-768 with a nonce.
unfoldable pub toy_info_to_der : KdcKemInfo → Result Fault Bytes
toy_info_to_der i = elim i.nonce [
  | some (pos n) ↦ do
    reject_if (not (i.kem_algorithm.algorithm == oid 2)) failure
    reject_if (not (i.kem_algorithm.parameters == none)) failure
    reject_if (not (i.kdf_algorithm.algorithm == oid 12)) failure
    reject_if (not (i.kdf_algorithm.parameters == none)) failure
    reject_if (not (i.server_nonce == none)) failure
    ok (n ∷ i.kemct)
  | _ ↦ err failure
]

unfoldable pub toy_info_from_der : Bytes → Result Fault KdcKemInfo
toy_info_from_der [] = err failure
toy_info_from_der (n ∷ ct) = ok (record {
  kem_algorithm = record { algorithm = oid 2; parameters = none };
  kemct = ct;
  kdf_algorithm = record { algorithm = oid 12; parameters = none };
  nonce = some (pos n);
  server_nonce = none;
})

abbrev pub toy_auth_pack : AuthPack
toy_auth_pack = record {
  pk_authenticator = record {
    cusec = pos 0;
    ctime = pos 1000;
    nonce = pos 7;
    pa_checksum = none;
    freshness_token = none;
    pa_checksum2 = none;
  };
  client_public_value = some (oid 2);
  supported_cmstypes = none;
  client_dhnonce = none;
  supported_kdfs = none;
}

abbrev pub toy_synta : Synta
toy_synta = record {
  oids = toy_oids;
  object_identifier = λ o. ok o;
  as_i64 = λ n. ok n;
  from_unix = λ t. some t;
  oid_to_der = λ o. ok o;
  oid_from_der = λ b. ok b;
  element_to_der = λ b. ok b;
  element_from_der = λ b. ok b;
  alg_id_from_der = λ b. ok (record { algorithm = b; parameters = none });
  alg_ids_to_der = λ ids. ok (oid 2);
  alg_ids_from_der = λ b. ok (record { algorithm = oid 2; parameters = none } ∷ []);
  td_dh_parameters_from_der = λ b. ok (b ∷ []);
  padata_from_der = λ b. err failure;
  spki_to_der = λ s. ok s.subject_public_key;
  spki_from_der = λ b.
      ok (record {
        algorithm = record { algorithm = b; parameters = none };
        subject_public_key = b;
      });
  auth_pack_to_der = λ p. ok (oid 50);
  auth_pack_from_der = λ b. ok toy_auth_pack;
  pa_pk_as_req_to_der = λ r. ok r.signed_auth_pack;
  pa_pk_as_req_from_der =
      λ b. ok (record { signed_auth_pack = b; trusted_certifiers = none; kdc_pk_id = none });
  pa_pk_as_rep_to_der = λ r. err failure;
  pa_pk_as_rep_from_der = λ b. err failure;
  kdc_dh_key_info_to_der = λ i. err failure;
  kdc_dh_key_info_from_der = λ b. err failure;
  kem_rep_info_to_der =
      λ i. if ltb (length i.kem_signed_data) (2 ^ 32) then ok i.kem_signed_data else err failure;
  kem_rep_info_from_der = λ b. ok (record { kem_signed_data = b });
  kdc_kem_info_to_der = toy_info_to_der;
  kdc_kem_info_from_der = toy_info_from_der;
  kem_supp_pub_info_to_der = λ i. ok i.as_req;
  supp_pub_info_to_der = λ i. ok i.as_req;
  other_info_to_der = λ i. ok i.party_uinfo;
  parse_principal = λ t. none;
  encode_principal_name_from_parts = λ t ns r. err failure;
  nt_wellknown = pos 11;
  td_dh_parameters = pos 109;
  td_trusted_certifiers = pos 104;
  td_pkinit_cms_certificates = pos 111;
  certificate_from_der = λ b. ok (record {
    extensions = some [];
    subject = [];
    issuer = [];
    serial_number = pos 1;
    subject_public_key_info = record {
      algorithm = record { algorithm = oid 22; parameters = none };
      subject_public_key = [];
    };
  });
  find_subject_alt_name = λ b. none;
  find_extended_key_usage = λ b. some b;
  find_key_usage = λ b. none;
  general_names_from_der = λ b. ok [];
  extended_key_usage_from_der = λ b. ok (oid 13 ∷ oid 14 ∷ []);
  key_usage_from_der = λ b. err failure;
  key_usage_bit = λ b n. false;
  key_usage_digital_signature = 0;
  other_name_to_der = λ n. err failure;
  decode_krb5_san = λ b. none;
  format_dn = λ b. codes "CN=CA";
  digest_oid_to_name = λ o. if o == oid 18 then some (codes "sha256") else none;
  is_composite_mldsa = λ o. false;
}

abbrev pub toy_crypto : Crypto Bytes
toy_crypto = record {
  hash_data = λ name b.
      if name == codes "sha1"
      then ok (0 ∷ 0 ∷ 0 ∷ 0 ∷ 0 ∷ 0 ∷ 0 ∷ 0 ∷ 0 ∷ 0 ∷ 0 ∷ 0 ∷ 0 ∷ 0 ∷ 0 ∷ 0 ∷ 0 ∷ 0 ∷ 0 ∷ 0 ∷ [])
      else ok b;
  ct_eq = λ a b. a == b;
  rand_bytes = λ d n. ok (oid d);
  dhx_params_from_der = λ b. ok b;
  pkey_from_der = λ b. ok b;
  export = λ h. ok h;
  bits = λ h. 2048;
  get_group_name = λ h. some (codes "P-256");
  get_p = λ h. none;
  param_builder = ok [];
  set_group = λ h t. ok h;
  build_params = λ h. ok h;
  keygen_ctx = λ t. ok [];
  set_params = λ h p. ok h;
  keygen = λ d h. ok (oid d);
  public_key_to_der = λ h. ok h;
  derive_ctx = λ h. ok h;
  set_peer = λ h p. ok h;
  derive_len = λ h. ok 1;
  derive = λ h n. ok (oid 42);
  kdf_fetch = λ t. ok [];
  kdf_ctx = λ h. ok h;
  push_digest = λ h t. ok h;
  push_key = λ h b. ok h;
  push_info = λ h b. ok h;
  kdf_derive = λ h p n. ok (oid 43);
  hkdf_extract = λ t b. ok b;
  hkdf_expand = λ t b i n. ok b;
  generate_composite_kem = λ d n. ok (oid d);
  generate_ml_kem = λ d t. ok (oid d);
  public_key_spki_der = λ h. ok (oid 2);
  public_key_from_spki = λ b. b;
  composite_kem_decapsulate = λ h ct. ok (oid 42);
  ml_kem_decapsulate = λ h ct. ok (oid 42);
  composite_kem_encapsulate = λ d h. err failure;
  ml_kem_encapsulate = λ d h. ok (zeros 1088, oid 42);
  trust_store = λ bs. ok [];
  store_of_anchors = λ bs. [];
  verify_chain = λ h c cs p. ok tt;
}

-- A signature is a first octet that tells the content type.
unfoldable pub toy_verify : Bytes → Pkinit VerifiedSignedData
toy_verify [] = err (cms_verify_failed [])
toy_verify (t ∷ content) = ok (record {
  content = content;
  content_type = if t == 1 then id_pkinit_kem_key_data else oid 7;
  signer_cert_der = oid 90;
  all_certs_der = oid 90 ∷ [];
  signer_algorithm_oid = oid 22;
})

abbrev pub toy_cms : Cms Bytes
toy_cms = record {
  create_signed_data = λ content t key cert chain digest.
      ok ((if t == id_pkinit_kem_key_data then 1 else 2) ∷ content);
  create_unsigned_data = λ content t. ok (3 ∷ content);
  verify_signed_data = toy_verify;
  extract_unsigned_content = λ b. err (cms_verify_failed []);
  extract_bare_content = λ b. err (cms_verify_failed []);
}

abbrev pub toy_o2k : OctetString2Key
toy_o2k = record {
  random_to_key = λ e b. ok b;
  random_length = λ e. ok 32;
  key_length = λ e. ok 32;
}

abbrev pub toy_identity : PkinitIdentity Bytes
toy_identity = record { cert_der = oid 91; signing_key = some (oid 92); chain = [] }

-- A client that requires a KEM and names none.
abbrev pub strict_config : PkinitClientConfig
strict_config = record default_client_config { require_kem = true }

abbrev pub strict_client : PkinitClientState Bytes
strict_client = new_client toy_identity new_store strict_config
