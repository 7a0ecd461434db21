-- ===== src/Plugin/Kdc.antt =====
-- kurbu5-pkinit/src/kdc_plugin.rs: the KDC's preauthentication module and its certauth module.
-- Tracing is left out.
use kurbu5_pkinit.Common.{
  Bool, Bytes, List, Option, Result, Text, [], err, false, if◌then◌else◌, is_empty, map_err, none,
  not, ok, ok_or, some, ℕ, ◌>>=◌, ◌∷◌,
}
use kurbu5_pkinit.Common.Int.{negsuc, ℤ}
use kurbu5_pkinit.Error.{
  KemErrorClass, PkinitError, ephemeral_key_params_not_accepted, invalid_signature, kem_error_class,
  other,
}
use kurbu5_pkinit.Synta.{Synta}
use kurbu5_pkinit.Crypto.{Crypto}
use kurbu5_pkinit.Config.{PkinitKdcConfig}
use kurbu5_pkinit.Certauth.{authorized, rejected, verify_client_san}
use kurbu5_pkinit.Kdf.{DerivedKey, OctetString2Key}
use kurbu5_pkinit.Cms.{Cms}
use kurbu5_pkinit.Server.State.{PkinitKdcState}
use kurbu5_pkinit.Server.Verify.{VerifiedRequest, verify_as_req}
use kurbu5_pkinit.Server.Respond.{build_as_rep}
use kurbu5_pkinit.Profile.{Profile, read_kdc_config}
use kurbu5_pkinit.Plugin.{
  Krb5, Krb5Error, PaData, PrincipalRef, custom, enctype_aes256_cts_hmac_sha1_96, is_anonymous,
  pa_pk_as_rep, pa_pk_as_req,
}

-- KRB5KDC_ERR_EPHEMERAL_KEY_PARAMS_NOT_ACCEPTED: -1765328319
abbrev pub krb5kdc_err_ephemeral_key_params_not_accepted : ℤ
krb5kdc_err_ephemeral_key_params_not_accepted = negsuc 1765328318

pub record PkinitKdc (H : Type 0) : Type 0 where
  pub state : PkinitKdcState H
  pub config : PkinitKdcConfig

-- What the KDC tells the module of a request.
pub record KdcpreauthCallbacks : Type 0 where
  pub max_time_skew : ℤ
  pub client_name_principal : Option PrincipalRef
  pub client_name_string : Option Text
  pub fast_armor : Option ℤ

pub data VerifyResponse : Type 0 where
  ok_with_modreq : VerifiedRequest → VerifyResponse
  refused : ℤ → VerifyResponse
  err_with_edata : ℤ → List PaData → VerifyResponse

-- `get_edata`: it sends the freshness token, and returns the hint as padata.
unfoldable pub get_edata : {H : Type 0} → PkinitKdc H → Option PaData
get_edata plugin = elim plugin.state.supported_algorithms_hint [
  | none ↦ none
  | some hint_der ↦ some (record { pa_type = pa_pk_as_req; contents = hint_der })
]

-- The answer to each class of errors.
unfoldable pub class_response :
    {H : Type 0} → Krb5 → Synta → PkinitKdc H → KemErrorClass → VerifyResponse
class_response krb5 synta plugin ephemeral_key_params_not_accepted =
    err_with_edata krb5kdc_err_ephemeral_key_params_not_accepted (
      record { pa_type = synta.td_dh_parameters; contents = plugin.state.td_ephemeral_key_params }
      ∷ [])
class_response krb5 synta plugin KemErrorClass.no_acceptable_kdf = refused krb5.no_acceptable_kdf
class_response krb5 synta plugin KemErrorClass.preauth_failed = refused krb5.preauth_failed
class_response krb5 synta plugin invalid_signature = refused krb5.invalid_sig
class_response krb5 synta plugin KemErrorClass.client_not_trusted = refused krb5.client_not_trusted
class_response krb5 synta plugin KemErrorClass.inconsistent_key_purpose =
    refused krb5.inconsistent_key_purpose
class_response krb5 synta plugin other = refused krb5.einval

unfoldable pub error_response :
    {H : Type 0} → Krb5 → Synta → PkinitKdc H → PkinitError → VerifyResponse
error_response krb5 synta plugin e = class_response krb5 synta plugin (kem_error_class e)

module _ {H : Type 0} (krb5 : Krb5) (synta : Synta) (crypto : Crypto H) (cms : Cms H)
    (now : ℕ) where
  -- The error is the code that the KDC answers with.
  unfoldable pub authorize_signed :
      PkinitKdc H → VerifiedRequest → PrincipalRef → Result ℤ (Unit {0})
  authorize_signed plugin verified client = do
    client_name ← map_err (krb5.unparse_principal client) (λ _. krb5.preauth_failed)
    elim (verify_client_san synta verified.client_cert_der client_name plugin.config.allow_upn) [
      | ok authorized ↦ ok tt
      | ok (rejected reason) ↦ err krb5.client_name_mismatch
      | err e ↦ err krb5.client_name_mismatch
    ]

  unfoldable pub authorize_client :
      PkinitKdc H → VerifiedRequest → KdcpreauthCallbacks → Result ℤ (Unit {0})
  authorize_client plugin verified callbacks = elim callbacks.client_name_principal [
    | none ↦ err krb5.preauth_failed
    | some client ↦
        if verified.is_anonymous
        then (if is_anonymous client then ok tt else err krb5.preauth_failed)
        else authorize_signed plugin verified client
  ]

  -- The response, and the authentication indicators that were added to the ticket.
  unfoldable pub verify : PkinitKdc H → Bytes → KdcpreauthCallbacks → ℤ → VerifyResponse × List Text
  verify plugin pa_contents callbacks current_time =
      if is_empty pa_contents
      then (refused krb5.einval, [])
      else elim (verify_as_req synta crypto cms now plugin.state pa_contents none
          callbacks.max_time_skew current_time) [
            | err e ↦ (error_response krb5 synta plugin e, [])
            | ok verified ↦ elim (authorize_client plugin verified callbacks) [
              | err code ↦ (refused code, [])
              | ok _ ↦ (
                ok_with_modreq verified,
                if not verified.is_anonymous then plugin.config.auth_indicators else [],
              )
            ]
          ]

  -- `return_pkinit_dh`: the padata, and the key that replaces the reply's.
  unfoldable pub return_pkinit_dh :
      OctetString2Key
      → ℕ
      → ℕ
      → PkinitKdc H
      → Option VerifiedRequest
      → KdcpreauthCallbacks
      → Option PrincipalRef
      → Bytes
      → Result Krb5Error (PaData × DerivedKey)
  return_pkinit_dh o2k key_draw nonce_draw plugin modreq callbacks server request_packet = do
    verified ← ok_or modreq (custom krb5.einval)
    let enctype : ℤ = elim callbacks.fast_armor [
      | none ↦ enctype_aes256_cts_hmac_sha1_96
      | some e ↦ e
    ]
    client_name ← ok_or callbacks.client_name_string (custom krb5.einval)
    server_princ ← ok_or server (custom krb5.einval)
    server_name ← krb5.unparse_principal server_princ
    (pa_rep_der, derived) ←
        map_err
          (build_as_rep synta crypto cms o2k key_draw nonce_draw plugin.state verified (record {
            nonce = verified.nonce;
            enctype = enctype;
            as_req_der = request_packet;
            client_name = client_name;
            server_name = server_name;
          }))
          (λ _. custom krb5.einval)
    ok (record { pa_type = pa_pk_as_rep; contents = pa_rep_der }, derived)

-- The certauth module: `none` is `NoOpinion`.
unfoldable pub authorize :
    Krb5 → Synta → Bool → Bytes → PrincipalRef → Result Krb5Error (Option (Unit {0}))
authorize krb5 synta allow_upn cert princ = do
  princ_str ← krb5.unparse_principal princ
  result ← map_err (verify_client_san synta cert princ_str allow_upn) (λ _. custom krb5.einval)
  ok (elim result [ authorized ↦ some tt | rejected reason ↦ none ])

-- `init_module_ex` of certauth: UPNs count if the first realm's configuration allows them.
unfoldable pub init_certauth : Krb5 → Profile → List Text → Result Krb5Error Bool
init_certauth krb5 profile [] = ok false
init_certauth krb5 profile (realm ∷ _) = do
  settings ← map_err (read_kdc_config profile realm) (λ _. custom krb5.einval)
  ok settings.allow_upn
