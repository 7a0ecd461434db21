-- ===== src/Client/Trust.antt =====
-- pkinit-core/src/client.rs: validation of the KDC's certificate, with trust on first use.
use kurbu5_pkinit.Common.{
  Bytes, List, Option, String, Text, [], collect, err, false, if◌then◌else◌, list_eq, map_err,
  nat_eq, none, ok, option_eq, some, ℕ, ◌==◌, ◌>>=◌, ◌>>◌, ◌∷◌,
}
use kurbu5_pkinit.Error.{Pkinit, kdc_ca_trust_denied, kdc_ca_trust_unknown, str, text}
use kurbu5_pkinit.Synta.{Synta}
use kurbu5_pkinit.Crypto.{Crypto, Policy, webpki_ca}
use kurbu5_pkinit.Identity.Store.{validate_chain}
use kurbu5_pkinit.Certauth.{verify_kdc_eku, verify_kdc_san}
use kurbu5_pkinit.Client.State.{
  KdcCaTrustBroker, KdcTrustDecision, KdcTrustRequest, PkinitClientState, denied, trusted, unknown,
}

-- `split('@').nth(1)`: the text between the first `@` and the next, or the end.
unfoldable pub until_at : Text → Text
until_at [] = []
until_at (c ∷ cs) = if c == b'@' then [] else c ∷ until_at cs

unfoldable pub realm_of_principal : Text → Option Text
realm_of_principal [] = none
realm_of_principal (c ∷ cs) = if c == b'@' then some (until_at cs) else realm_of_principal cs

module _ {H : Type 0} (synta : Synta) (crypto : Crypto H) (now : ℕ) where
  -- `anchor_vc`: the certificate must decode.
  unfoldable pub anchor_vc : String → Bytes → Pkinit Bytes
  anchor_vc what der = do
    _ ←
        map_err (synta.certificate_from_der der)
          (λ e. kdc_ca_trust_denied (str "bad " ∷ str what ∷ str " DER: " ∷ text e ∷ []))
    ok der

  unfoldable pub validate_broker_anchors : List Bytes → Bytes → List Bytes → Pkinit (Unit {0})
  unfolding anchor_vc
  validate_broker_anchors anchors signer_cert all_certs = do
    anchors_vc ← collect (anchor_vc "anchor") anchors
    intermediates_vc ← collect (anchor_vc "presented certificate") all_certs
    leaf ← anchor_vc "KDC signer certificate" signer_cert
    let policy : Policy = record { now = now; ca_extension_policy = webpki_ca; crls = none }
    map_err (crypto.verify_chain (crypto.store_of_anchors anchors_vc) leaf intermediates_vc policy)
        (λ e. kdc_ca_trust_denied (str "broker-approved anchor failed validation: " ∷ text e ∷ []))

  -- What is asked of the broker, if there is one and the KDC's realm is known.
  unfoldable pub trust_request :
      PkinitClientState H → Bytes → List Bytes → Option (KdcCaTrustBroker × KdcTrustRequest)
  trust_request c signer_cert all_certs = elim c.broker [
    | none ↦ none
    | some broker ↦ elim c.kdc_principal [
      | none ↦ none
      | some kdc_principal ↦ elim (realm_of_principal kdc_principal) [
        | none ↦ none
        | some realm ↦ some (
          broker,
          record {
            realm = realm;
            kdc_principal = kdc_principal;
            signer_cert_der = signer_cert;
            presented_certs_der = all_certs;
            interactive = c.is_anonymous;
          },
        )
      ]
    ]
  ]

  unfoldable pub obey : KdcTrustDecision → Bytes → List Bytes → Pkinit (Unit {0})
  obey (trusted anchors) signer_cert all_certs =
      validate_broker_anchors anchors signer_cert all_certs
  obey (denied reason) signer_cert all_certs = err (kdc_ca_trust_denied reason)
  obey unknown signer_cert all_certs = err kdc_ca_trust_unknown

  -- The configured anchors first; the broker only when they fail.
  unfoldable pub establish_trust : PkinitClientState H → Bytes → List Bytes → Pkinit (Unit {0})
  unfolding obey
  establish_trust c signer_cert all_certs =
      elim (validate_chain synta crypto now c.trust_store signer_cert all_certs false) [
        | ok _ ↦ ok tt
        | err configured_err ↦ elim (trust_request c signer_cert all_certs) [
          | none ↦ err configured_err
          | some (broker, req) ↦ do
            decision ← broker.request_trust req
            obey decision signer_cert all_certs
        ]
      ]

  unfoldable pub validate_kdc_chain : PkinitClientState H → Bytes → List Bytes → Pkinit (Unit {0})
  validate_kdc_chain c signer_cert all_certs = do
    establish_trust c signer_cert all_certs
    verify_kdc_eku synta signer_cert
    elim c.kdc_principal [
      | none ↦ ok tt
      | some principal ↦ verify_kdc_san synta signer_cert principal c.kdc_hostname
    ]
