-- ===== src/Server/Verify.antt =====
-- pkinit-core/src/server.rs: `verify_as_req`.
use kurbu5_pkinit.Common.{
  Bool, Bytes, List, Oid, Option, [], err, false, if◌then◌else◌, list_eq, map_err, nat_eq, none,
  not, ok, ok_or, option_eq, reject_if, some, to_option, true, ℕ, ◌&&◌, ◌==◌, ◌>>=◌, ◌>>◌, ◌∷◌,
}
use kurbu5_pkinit.Common.Int.{abs_diff, ltb_ℤ, pos, ℤ, ℤ_eq}
use kurbu5_pkinit.Error.{
  Pkinit, PkinitError, asn1_err, clock_skew, cms_content_type_mismatch, dh_params_rejected,
  eku_mismatch, kem_algorithm_not_supported, kem_nonce_not_allowed, str, text,
}
use kurbu5_pkinit.Constants.{
  KemAlgorithm, KeyExchangeType, dh, from_oid, group_eq, kem, kem_eq, parameter_set_name,
}
use kurbu5_pkinit.Synta.{PkAuthenticator, Synta}
use kurbu5_pkinit.Crypto.{Crypto}
use kurbu5_pkinit.KemTypes.{decode_nonce}
use kurbu5_pkinit.Config.{PkinitKdcConfig}
use kurbu5_pkinit.Dh.{validate_dh_params}
use kurbu5_pkinit.Checksum.{verify_checksum2, verify_checksums}
use kurbu5_pkinit.Certauth.{CertauthResult, authorized, rejected, verify_client_eku}
use kurbu5_pkinit.Identity.Store.{validate_chain}
use kurbu5_pkinit.Cms.{Cms}
use kurbu5_pkinit.Client.Negotiate.{is_some, offered_eq}
use kurbu5_pkinit.Server.State.{PkinitKdcState, accepts_kem}

pub record VerifiedRequest : Type 0 where
  pub client_cert_der : Bytes
  pub client_dh_public : Bytes
  pub nonce : ℤ
  pub supported_kdfs : List Oid
  pub client_dh_nonce : Option Bytes
  pub is_anonymous : Bool
  pub key_exchange : KeyExchangeType

-- The AuthPack's DER, the client's certificate, and whether the request is anonymous.
abbrev pub Opened : Type 0
Opened = Bytes × Bytes × Bool

abbrev pub is_rejected : CertauthResult → Bool
is_rejected authorized = false
is_rejected (rejected _) = true

module _ (synta : Synta) where
  unfoldable pub detect_spki_algorithm : Bytes → Pkinit (Option KemAlgorithm)
  detect_spki_algorithm spki_der = do
    spki ← map_err (synta.spki_from_der spki_der) (asn1_err "decode SPKI")
    elim (from_oid synta.oids spki.algorithm.algorithm) [
      | none ↦ ok none
      | some kem_alg ↦
          if is_some spki.algorithm.parameters
          then err (
              kem_algorithm_not_supported (
                text (parameter_set_name kem_alg)
                ∷ str " key with algorithm parameters (they must be absent)"
                ∷ []))
          else ok (some kem_alg)
    ]

  unfoldable pub check_auth_data : Oid → Pkinit (Unit {0})
  check_auth_data content_type =
      reject_if (not (content_type == synta.oids.id_pkinit_auth_data))
        (cms_content_type_mismatch "id-pkinit-authData" content_type)

  -- `require_eku`
  unfoldable pub check_client_eku : PkinitKdcConfig → Bytes → Pkinit (Unit {0})
  check_client_eku config cert =
      if config.require_eku
      then (do
        eku ← verify_client_eku synta cert config.accept_secondary_eku
        reject_if (is_rejected eku) (eku_mismatch (str "client EKU check failed" ∷ [])))
      else ok tt

  -- The clock, in Unix seconds, and the freshness token.
  unfoldable pub check_times : PkinitKdcConfig → PkAuthenticator → ℤ → ℤ → Pkinit (Unit {0})
  check_times config pk_auth max_skew current_time = do
    reject_if (ltb_ℤ max_skew (pos (abs_diff pk_auth.ctime current_time)))
        (clock_skew pk_auth.ctime max_skew)
    reject_if (config.require_freshness && not (is_some pk_auth.freshness_token))
        (PkinitError.config (str "freshness token required but not provided by client" ∷ []))

  -- `supported_kdfs`, empty when absent.
  abbrev pub kdfs_or_none : Option (List Oid) → List Oid
  kdfs_or_none (some kdfs) = kdfs
  kdfs_or_none none = []

-- `pa_checksum2_info`
abbrev pub checksum2_of : PkAuthenticator → Option (Bytes × Oid)
checksum2_of pk_auth = elim pk_auth.pa_checksum2 [
  | none ↦ none
  | some c ↦ some (c.checksum, c.algorithm_identifier.algorithm)
]

module _ {H : Type 0} (synta : Synta) (crypto : Crypto H) where
  unfoldable pub check_body : PkAuthenticator → Option Bytes → Pkinit (Unit {0})
  check_body pk_auth none = ok tt
  check_body pk_auth (some body) = elim pk_auth.pa_checksum [
    | some pa_checksum ↦ verify_checksums synta crypto body pa_checksum (checksum2_of pk_auth)
    | none ↦ elim (checksum2_of pk_auth) [
      | some (bytes, o) ↦ verify_checksum2 synta crypto body bytes o
      | none ↦ ok tt
    ]
  ]

  -- The two cases of the match on `detect_spki_algorithm`.
  unfoldable pub exchange_for :
      PkinitKdcConfig → Bytes → Option Bytes → Option KemAlgorithm → Pkinit KeyExchangeType
  exchange_for config client_dh_public client_dhnonce (some kem_alg) = do
    reject_if (not (accepts_kem config kem_alg))
        (kem_algorithm_not_supported (text (parameter_set_name kem_alg) ∷ []))
    reject_if (is_some client_dhnonce) kem_nonce_not_allowed
    ok (kem kem_alg)
  exchange_for config client_dh_public client_dhnonce none = do
    reject_if config.require_kem (
        dh_params_rejected
          (str "classic DH/ECDH key exchange refused: pkinit_require_kem is set" ∷ []))
    group ← validate_dh_params crypto client_dh_public config.dh_min_bits
    ok (dh group)

  unfoldable pub choose_exchange : PkinitKdcConfig → Bytes → Option Bytes → Pkinit KeyExchangeType
  unfolding exchange_for
  choose_exchange config client_dh_public client_dhnonce = do
    detected ← detect_spki_algorithm synta client_dh_public
    exchange_for config client_dh_public client_dhnonce detected

module _ {H : Type 0} (synta : Synta) (crypto : Crypto H) (cms : Cms H) (now : ℕ) where
  -- `extract_unsigned_content(..).or_else(..extract_bare_content..).ok()`
  unfoldable pub unsigned_content : Bytes → Option (Bytes × Oid)
  unsigned_content signed = elim (cms.extract_unsigned_content signed) [
    | ok c ↦ some c
    | err _ ↦ to_option (cms.extract_bare_content signed)
  ]

  unfoldable pub open_signed : PkinitKdcState H → Bytes → Pkinit Opened
  open_signed kdc signed = do
    v ← cms.verify_signed_data signed
    check_auth_data synta v.content_type
    validate_chain synta crypto now kdc.trust_store v.signer_cert_der v.all_certs_der
        kdc.config.require_crl_checking
    check_client_eku synta kdc.config v.signer_cert_der
    ok (v.content, v.signer_cert_der, false)

  unfoldable pub open_auth_pack : PkinitKdcState H → Bytes → Pkinit Opened
  open_auth_pack kdc signed = elim (unsigned_content signed) [
    | some (content, content_type) ↦ do check_auth_data synta content_type; ok (content, [], true)
    | none ↦ open_signed kdc signed
  ]

  unfoldable pub verify_auth_pack :
      PkinitKdcState H → Opened → Option Bytes → ℤ → ℤ → Pkinit VerifiedRequest
  verify_auth_pack kdc (auth_pack_der, client_cert_der, is_anonymous) req_body max_skew
        current_time =
      do
        auth_pack ← map_err (synta.auth_pack_from_der auth_pack_der) (asn1_err "decode AuthPack")
        let pk_auth = auth_pack.pk_authenticator
        check_times synta kdc.config pk_auth max_skew current_time
        check_body synta crypto pk_auth req_body
        public_value ←
            ok_or auth_pack.client_public_value
              (dh_params_rejected (str "missing client DH public value" ∷ []))
        client_dh_public ←
            map_err (synta.element_to_der public_value) (asn1_err "encode client SPKI")
        key_exchange ←
            choose_exchange synta crypto kdc.config client_dh_public auth_pack.client_dhnonce
        nonce ← decode_nonce synta pk_auth.nonce
        ok (record {
          client_cert_der = client_cert_der;
          client_dh_public = client_dh_public;
          nonce = nonce;
          supported_kdfs = kdfs_or_none synta auth_pack.supported_kdfs;
          client_dh_nonce = auth_pack.client_dhnonce;
          is_anonymous = is_anonymous;
          key_exchange = key_exchange;
        })

  unfoldable pub verify_as_req :
      PkinitKdcState H → Bytes → Option Bytes → ℤ → ℤ → Pkinit VerifiedRequest
  verify_as_req kdc pa_req req_body max_skew current_time = do
    req ← map_err (synta.pa_pk_as_req_from_der pa_req) (asn1_err "decode PA-PK-AS-REQ")
    opened ← open_auth_pack kdc req.signed_auth_pack
    verify_auth_pack kdc opened req_body max_skew current_time
