-- ===== src/Plugin/Authorized.antt =====
-- kurbu5-pkinit/src/kdc_plugin.rs: who an accepted request authenticates, and how errors are answered.
use mathlib.Core.Path.{subst}
use kurbu5_pkinit.Common.{
  ==_iff, Bool, Bool-cases, Bytes, List, Option-cases, Result-cases, Text, [], ap, arith, err,
  false, if◌then◌else◌, inl, inr, list_eq, nat_eq, none, not, ok, option_eq, refl, some, sym, true,
  try-eq-ok, ℕ, ◌∙◌, ◌∷◌, ◌≡◌, ◌≢◌, ◌⊎◌,
}
use kurbu5_pkinit.Common.Int.{ℤ, ℤ_eq}
use kurbu5_pkinit.Common.Strings.{codes}
use kurbu5_pkinit.Error.{
  KemErrorClass, Pkinit, PkinitError, ephemeral_key_params_not_accepted, invalid_signature,
  kem_error_class, other,
}
use kurbu5_pkinit.Synta.{Synta}
use kurbu5_pkinit.Crypto.{Crypto}
use kurbu5_pkinit.Certauth.{authorized, rejected, verify_client_san}
use kurbu5_pkinit.Certauth.Names.{NamesPrincipal, verify_client_san-NamesPrincipal}
use kurbu5_pkinit.Cms.{Cms}
use kurbu5_pkinit.Server.Verify.{VerifiedRequest, verify_as_req}
use kurbu5_pkinit.Server.Admits.{IsAdmitted, verify_as_req-IsAdmitted}
use kurbu5_pkinit.Plugin.{Krb5, PrincipalRef, is_anonymous}
use kurbu5_pkinit.Plugin.Kdc.{
  KdcpreauthCallbacks, PkinitKdc, VerifyResponse, authorize_client, authorize_signed,
  class_response, error_response, ok_with_modreq, refused, verify,
}

-- The request is bound to the client principal that it asks a ticket for.
pub record IsBound (krb5 : Krb5) (synta : Synta) (allow_upn : Bool)
    (callbacks : KdcpreauthCallbacks) (verified : VerifiedRequest) : Type 0 where
  pub client : PrincipalRef
  pub has_client : callbacks.client_name_principal ≡ some client
  pub binds :
      ((verified.is_anonymous ≡ true)
        × (client.components ≡ codes "WELLKNOWN" ∷ codes "ANONYMOUS" ∷ []))
      ⊎ ((verified.is_anonymous ≡ false)
          × ((name : Text) × (krb5.unparse_principal client ≡ ok name)
              × NamesPrincipal synta allow_upn verified.client_cert_der name))

module _ {H : Type 0} (krb5 : Krb5) (synta : Synta) (crypto : Crypto H) (cms : Cms H)
    (now : ℕ) where
  authorize_signed-Names :
      (plugin : PkinitKdc H) (verified : VerifiedRequest) (client : PrincipalRef)
      → authorize_signed krb5 synta crypto cms now plugin verified client ≡ ok tt
      → (name : Text) × (krb5.unparse_principal client ≡ ok name)
        × NamesPrincipal synta plugin.config.allow_upn verified.client_cert_der name
  unfolding authorize_signed
  authorize_signed-Names plugin verified client h =
      let (name, e, h1) = try-eq-ok (krb5.unparse_principal client) _ _ h in
      let cert = verified.client_cert_der in
      let upn = plugin.config.allow_upn in
      elim (Result-cases (verify_client_san synta cert name upn)) [
        | inl (authorized, q) ↦ (name, e, verify_client_san-NamesPrincipal synta upn cert name q)
        | inl (rejected m, q) ↦ absurd (ground arith)
        | inr (x, q) ↦ absurd (ground arith)
      ]

  authorize_client-IsBound :
      (plugin : PkinitKdc H) (verified : VerifiedRequest) (callbacks : KdcpreauthCallbacks)
      → authorize_client krb5 synta crypto cms now plugin verified callbacks ≡ ok tt
      → IsBound krb5 synta plugin.config.allow_upn callbacks verified
  unfolding authorize_client is_anonymous
  authorize_client-IsBound plugin verified callbacks h =
      elim (Option-cases callbacks.client_name_principal) [
        | inl e ↦ absurd (ground arith)
        | inr (client, e) ↦ record {
          client = client;
          has_client = e;
          binds = elim (Bool-cases verified.is_anonymous) [
            | inl t ↦ inl (
              t,
              ground (arith, ==_iff client.components (codes "WELLKNOWN" ∷ codes "ANONYMOUS" ∷ [])),
            )
            | inr t ↦
                let signed : authorize_signed krb5 synta crypto cms now plugin verified client
                    ≡ ok tt =
                  ground arith in
                inr (t, authorize_signed-Names plugin verified client signed)
          ];
        }
      ]

  modreq-injective :
      (v w : VerifiedRequest) (i j : List Text)
      → Path (VerifyResponse × List Text) (ok_with_modreq v, i) (ok_with_modreq w, j)
      → (v ≡ w) × (i ≡ j)
  modreq-injective v w i j h = (modreq (ap (λ x. x.0) h), ap (λ x. x.1) h)
    where
      modreq : Path VerifyResponse (ok_with_modreq v) (ok_with_modreq w) → v ≡ w
      modreq q = cc

  class_response-refuses :
      (plugin : PkinitKdc H) (c : KemErrorClass) (v : VerifiedRequest)
      → class_response krb5 synta plugin c ≢ ok_with_modreq v
  unfolding class_response
  class_response-refuses plugin ephemeral_key_params_not_accepted v q = cc
  class_response-refuses plugin KemErrorClass.no_acceptable_kdf v q = cc
  class_response-refuses plugin KemErrorClass.preauth_failed v q = cc
  class_response-refuses plugin invalid_signature v q = cc
  class_response-refuses plugin KemErrorClass.client_not_trusted v q = cc
  class_response-refuses plugin KemErrorClass.inconsistent_key_purpose v q = cc
  class_response-refuses plugin other v q = cc

  module _ (plugin : PkinitKdc H) (b : ℕ) (bs : Bytes) (callbacks : KdcpreauthCallbacks)
      (current_time : ℤ) where
    abbrev checked : Pkinit VerifiedRequest
    checked =
        verify_as_req synta crypto cms now plugin.state (b ∷ bs) none callbacks.max_time_skew
          current_time

    abbrev answer : VerifyResponse × List Text
    answer = verify krb5 synta crypto cms now plugin (b ∷ bs) callbacks current_time

    verify-err :
        (e : PkinitError) → checked ≡ err e → answer ≡ (error_response krb5 synta plugin e, [])
    unfolding verify
    verify-err e h = rw (verify, h) refl

    verify-denied :
        (v : VerifiedRequest) (code : ℤ)
        → checked ≡ ok v
        → authorize_client krb5 synta crypto cms now plugin v callbacks ≡ err code
        → answer ≡ (refused code, [])
    unfolding verify
    verify-denied v code h k = rw (verify, h) (rw (verify, k) refl)

    verify-accepted :
        (v : VerifiedRequest)
        → checked ≡ ok v
        → authorize_client krb5 synta crypto cms now plugin v callbacks ≡ ok tt
        → answer
          ≡ (ok_with_modreq v, if not v.is_anonymous then plugin.config.auth_indicators else [])
    unfolding verify
    verify-accepted v h k = rw (verify, h) (rw (verify, k) refl)

  -- A request that the KDC module accepts passed the core's verification, and is bound to the client
  -- principal of the AS request: an unsigned one only to WELLKNOWN/ANONYMOUS, a signed one only to a
  -- principal that the client's certificate names, by UPN only where the configuration allows it. No
  -- authentication indicator is added for an unsigned request.
  pub verify-IsBound :
      (plugin : PkinitKdc H) (pa_contents : Bytes) (callbacks : KdcpreauthCallbacks)
      (current_time : ℤ) (verified : VerifiedRequest) (indicators : List Text)
      → verify krb5 synta crypto cms now plugin pa_contents callbacks current_time
        ≡ (ok_with_modreq verified, indicators)
      → IsAdmitted synta crypto cms now plugin.state pa_contents none callbacks.max_time_skew
          current_time verified
        × IsBound krb5 synta plugin.config.allow_upn callbacks verified
        × ((verified.is_anonymous ≡ false) ⊎ (indicators ≡ []))
  unfolding verify class_response error_response
  verify-IsBound plugin [] callbacks current_time verified indicators h = absurd (ground arith)
  verify-IsBound plugin (b ∷ bs) callbacks current_time verified indicators h =
      elim (Result-cases (checked plugin b bs callbacks current_time)) [
        | inr (e, q) ↦
            let answered =
              ap (λ x. x.0) (sym (verify-err plugin b bs callbacks current_time e q) ∙ h) in
            absurd (class_response-refuses plugin (kem_error_class e) verified answered)
        | inl (v, q) ↦
            elim (Result-cases (authorize_client krb5 synta crypto cms now plugin v callbacks)) [
              | inr (code, r) ↦
                  let answered =
                    ap (λ x. x.0)
                      (sym (verify-denied plugin b bs callbacks current_time v code q r) ∙ h) in
                  absurd (ground arith)
              | inl (u, r) ↦
                  let (same, added) =
                    modreq-injective v verified _ indicators
                      (sym (verify-accepted plugin b bs callbacks current_time v q r) ∙ h) in
                  (
                    verify_as_req-IsAdmitted synta crypto cms now plugin.state (b ∷ bs) none
                        callbacks.max_time_skew current_time verified (q ∙ ap ok same),
                    subst (IsBound krb5 synta plugin.config.allow_upn callbacks) same
                        (authorize_client-IsBound plugin v callbacks r),
                    subst (λ (x : VerifiedRequest). (x.is_anonymous ≡ false) ⊎ (indicators ≡ []))
                        same
                        (elim (Bool-cases v.is_anonymous) [
                          | inl t ↦ inr (sym added ∙ rw t refl)
                          | inr t ↦ inl t
                        ]),
                  )
            ]
      ]
