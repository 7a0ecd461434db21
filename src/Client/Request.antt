-- ===== src/Client/Request.antt =====
-- pkinit-core/src/client.rs: `build_as_req`. The random draws are arguments.
use kurbu5_pkinit.Common.{
  Bool, Bytes, Option, [], false, map_err, none, not, reject_if, some, true, ℕ, ◌&&◌, ◌∷◌,
}
use kurbu5_pkinit.Common.Int.{ℤ}
use kurbu5_pkinit.Common.Action.{Action, gets, lift, modify, pure, ◌>>=◌, ◌>>◌}
use kurbu5_pkinit.Error.{Pkinit, PkinitError, asn1_err, because, downgrade_rejected, ossl, str}
use kurbu5_pkinit.Constants.{DhGroup, KemAlgorithm, dh, kem}
use kurbu5_pkinit.Synta.{PkAuthenticator, Synta}
use kurbu5_pkinit.Crypto.{Crypto}
use kurbu5_pkinit.Config.{PkinitClientConfig}
use kurbu5_pkinit.Dh.{DhKeyPair, dh_spki_der, generate}
use kurbu5_pkinit.Kem.{generate_kem, kem_spki_der}
use kurbu5_pkinit.Cms.{Cms}
use kurbu5_pkinit.Client.State.{PkinitClientState}
use kurbu5_pkinit.Client.Authpack.{request_authenticator, request_kdfs, sign_auth_pack}
use kurbu5_pkinit.Client.Negotiate.{is_some}

module _ {H : Type 0} (synta : Synta) (crypto : Crypto H) (cms : Cms H) where
  abbrev pub Client : Type 0 → Type 0
  Client A = Action PkinitError (PkinitClientState H) A

  -- A fresh KEM key for every request. The state changes only when the key was generated.
  unfoldable pub rest_of_kem_key : ℕ → KemAlgorithm → Client Bytes
  rest_of_kem_key draw alg = do
    key ← lift (generate_kem crypto draw alg)
    modify (λ c. record c { kem_key = some key })
    lift (kem_spki_der crypto key)

  unfoldable pub request_kem_key : ℕ → KemAlgorithm → Client Bytes
  unfolding rest_of_kem_key
  request_kem_key draw alg = do
    modify (λ c. record c { key_exchange = some (kem alg) })
    rest_of_kem_key draw alg

  -- A DH key is kept for later requests.
  unfoldable pub dh_key_of : ℕ → DhGroup → Option (DhKeyPair H) → Client (DhKeyPair H)
  dh_key_of draw group (some key) = pure key
  dh_key_of draw group none = do
    key ← lift (generate crypto draw group)
    modify (λ c. record c { dh_key = some key })
    pure key

  unfoldable pub rest_of_dh_key : ℕ → DhGroup → Client Bytes
  unfolding dh_key_of
  rest_of_dh_key draw group = do
    held ← gets (λ c. c.dh_key)
    key ← dh_key_of draw group held
    lift (dh_spki_der crypto key)

  unfoldable pub request_dh_key : ℕ → DhGroup → Client Bytes
  unfolding rest_of_dh_key
  request_dh_key draw group = do
    modify (λ c. record c { key_exchange = some (dh group) })
    rest_of_dh_key draw group

  -- `client_spki_der`
  unfoldable pub request_key : ℕ → PkinitClientConfig → Client Bytes
  unfolding request_kem_key request_dh_key
  request_key draw config = elim config.kem_algorithm [
    | some alg ↦ request_kem_key draw alg
    | none ↦ request_dh_key draw config.dh_group
  ]

  -- No DH nonce accompanies a KEM key.
  unfoldable pub request_dh_nonce : ℕ → Bool → Client (Option Bytes)
  request_dh_nonce draw true = pure none
  request_dh_nonce draw false = do
    nonce ← lift (map_err (crypto.rand_bytes draw 32) (λ e. ossl (because "random bytes" e)))
    modify (λ c. record c { dh_nonce = some nonce })
    pure (some nonce)

  unfoldable pub check_exchange : PkinitClientConfig → Pkinit (Unit {0})
  check_exchange config = reject_if (config.require_kem && not (is_some config.kem_algorithm)) (
      downgrade_rejected
        (str "classic DH/ECDH key exchange refused: pkinit_require_kem is set" ∷ []))

  -- `build_as_req` after the client's key.
  unfoldable pub finish_as_req : ℕ → Bool → PkAuthenticator → Bytes → Client Bytes
  unfolding request_dh_nonce
  finish_as_req nonce_draw use_kem pk_auth client_spki = do
    client_spki_element ←
        lift (map_err (synta.element_from_der client_spki) (asn1_err "decode SPKI element"))
    dh_nonce ← request_dh_nonce nonce_draw use_kem
    supported_kdfs ← lift (request_kdfs synta use_kem)
    auth_pack_der ← lift (
        map_err
          (synta.auth_pack_to_der (record {
            pk_authenticator = pk_auth;
            client_public_value = some client_spki_element;
            supported_cmstypes = none;
            client_dhnonce = dh_nonce;
            supported_kdfs = some supported_kdfs;
          }))
          (asn1_err "encode AuthPack"))
    identity ← gets (λ c. c.identity)
    signed ← lift (sign_auth_pack synta cms identity auth_pack_der)
    lift (
        map_err
          (synta.pa_pk_as_req_to_der
            (record { signed_auth_pack = signed; trusted_certifiers = none; kdc_pk_id = none }))
          (asn1_err "encode PA-PK-AS-REQ"))

  unfoldable pub build_as_req : ℕ → ℕ → ℤ → ℤ → ℤ → Bytes → Client Bytes
  build_as_req key_draw nonce_draw nonce ctime cusec req_body = do
    freshness ← gets (λ c. c.freshness_token)
    pk_auth ← lift (request_authenticator synta crypto freshness nonce ctime cusec req_body)
    config ← gets (λ c. c.config)
    lift (check_exchange config)
    client_spki ← request_key key_draw config
    finish_as_req nonce_draw (is_some config.kem_algorithm) pk_auth client_spki
