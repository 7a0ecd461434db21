-- ===== src/Certauth.antt =====
-- pkinit-core/src/certauth.rs: authorisation of client and KDC certificates by SAN, extended key
-- usage and key usage.
pub mod Names
use Prim.Native.Nat.{bit_and}
use kurbu5_pkinit.Common.{
  Bool, Bytes, Option, Text, [], any, false, if◌then◌else◌, list_eq, nat_eq, none, not, ok,
  option_eq, reject_if, some, ℕ, ◌&&◌, ◌==◌, ◌>>=◌, ◌>>◌, ◌^◌, ◌||◌, ◌∷◌,
}
use kurbu5_pkinit.Error.{Message, Pkinit, eku_mismatch, san_mismatch, str, text}
use kurbu5_pkinit.Constants.{eq_ignore_ascii_case, group_eq, kem_eq}
use kurbu5_pkinit.Synta.{Synta}
use kurbu5_pkinit.San.{
  extract_dns_names, extract_eku_oids, extract_key_usage, extract_pkinit_sans, extract_upn_sans,
}

pub data CertauthResult : Type 0 where
  authorized : CertauthResult
  rejected : Message → CertauthResult

-- `ku != 0 && (ku & (1 << KEY_USAGE_DIGITAL_SIGNATURE)) == 0`
unfoldable pub lacks_digital_signature : Synta → ℕ → Bool
lacks_digital_signature synta ku =
    not (ku == 0) && bit_and ku (2 ^ synta.key_usage_digital_signature) == 0

module _ (synta : Synta) where
  unfoldable pub verify_client_san : Bytes → Text → Bool → Pkinit CertauthResult
  verify_client_san cert_der expected_principal allow_upn = do
    pkinit_sans ← extract_pkinit_sans synta cert_der
    let no_match = rejected (str "no SAN matching " ∷ text expected_principal ∷ [])
    if any (λ s. s == expected_principal) pkinit_sans
        then ok authorized
        else if allow_upn
        then (do
          upn_sans ← extract_upn_sans synta cert_der
          ok (
              if any (λ u. eq_ignore_ascii_case u expected_principal) upn_sans
              then authorized
              else no_match))
        else ok no_match

  unfoldable pub verify_client_eku : Bytes → Bool → Pkinit CertauthResult
  verify_client_eku cert_der accept_secondary = do
    ekus ← extract_eku_oids synta cert_der
    let has_pkinit_client = any (λ o. o == synta.oids.id_pkinit_kpclient_auth) ekus
    let has_ms_sc_logon =
        accept_secondary && any (λ o. o == synta.oids.id_ms_kp_smartcard_logon) ekus
    if not has_pkinit_client && not has_ms_sc_logon
        then ok (rejected (str "missing id-pkinit-KPClientAuth EKU" ∷ []))
        else do
          ku ← extract_key_usage synta cert_der
          ok (
              if lacks_digital_signature synta ku
              then rejected (str "missing digitalSignature KeyUsage" ∷ [])
              else authorized)

  -- The second test of `verify_kdc_san`, made only when a host name is known.
  unfoldable pub host_matches : Bytes → Option Text → Pkinit Bool
  host_matches cert_der none = ok false
  host_matches cert_der (some hostname) = do
    dns_names ← extract_dns_names synta cert_der
    ok (any (λ d. eq_ignore_ascii_case d hostname) dns_names)

  unfoldable pub verify_kdc_san : Bytes → Text → Option Text → Pkinit (Unit {0})
  unfolding host_matches
  verify_kdc_san cert_der kdc_principal kdc_hostname = do
    pkinit_sans ← extract_pkinit_sans synta cert_der
    if any (λ s. s == kdc_principal) pkinit_sans then ok tt else do
      by_host ← host_matches cert_der kdc_hostname
      reject_if (not by_host)
          (san_mismatch (str "KDC certificate has no SAN matching " ∷ text kdc_principal ∷ []))

  unfoldable pub verify_kdc_eku : Bytes → Pkinit (Unit {0})
  verify_kdc_eku cert_der = do
    ekus ← extract_eku_oids synta cert_der
    reject_if
        (not (any (λ o. o == synta.oids.id_pkinit_kpkdc || o == synta.oids.id_kp_server_auth) ekus))
        (eku_mismatch (str "KDC certificate missing id-pkinit-KPKdc or id-kp-serverAuth" ∷ []))
    ku ← extract_key_usage synta cert_der
    reject_if (lacks_digital_signature synta ku)
        (eku_mismatch (str "KDC certificate missing digitalSignature KeyUsage" ∷ []))
