-- ===== src/Server/Admits.antt =====
-- pkinit-core/src/server.rs: what a KDC that accepts a request has checked.
use mathlib.Core.Path.{subst}
use kurbu5_pkinit.Common.{
  ==_iff, >>=-eq-ok, Bytes, Oid, Option, Option-cases, [], ap, arith, false, inl, inr, list_eq,
  nat_eq, none, not, ok, ok-injective, ok_or, option_eq, refl, reject_if-eq-ok, some, sym, true,
  try-eq-ok, ℕ, ◌∙◌, ◌≡◌, ◌⊎◌,
}
use kurbu5_pkinit.Common.Int.{abs_diff, ltb_ℤ, pos, ℤ, ℤ_eq}
use kurbu5_pkinit.Error.{PkinitError}
use kurbu5_pkinit.Constants.{KemAlgorithm, KeyExchangeType, dh, group_eq, kem, kem_eq}
use kurbu5_pkinit.Synta.{AuthPack, PaPkAsReq, Synta}
use kurbu5_pkinit.Crypto.{Crypto}
use kurbu5_pkinit.KemTypes.{decode_nonce}
use kurbu5_pkinit.Dh.{validate_dh_params}
use kurbu5_pkinit.Identity.Store.{validate_chain}
use kurbu5_pkinit.Cms.{Cms, VerifiedSignedData}
use kurbu5_pkinit.Client.Negotiate.{is_some, offered_eq}
use kurbu5_pkinit.Server.State.{PkinitKdcState, accepts_kem}
use kurbu5_pkinit.Server.Verify.{
  Opened, VerifiedRequest, check_auth_data, check_body, check_client_eku, check_times,
  choose_exchange, detect_spki_algorithm, exchange_for, open_auth_pack, open_signed,
  unsigned_content, verify_as_req, verify_auth_pack,
}

module _ {H : Type 0} (synta : Synta) (crypto : Crypto H) (cms : Cms H) (now : ℕ)
    (kdc : PkinitKdcState H) where
  -- The key exchange that a request may have: a KEM that the KDC accepts, with the key's parameters
  -- absent and no DH nonce, or a group that passes the KDC's test when no KEM is required.
  abbrev pub Acceptable : Bytes → Option Bytes → KeyExchangeType → Type 0
  Acceptable spki client_nonce (kem alg) =
      (detect_spki_algorithm synta spki ≡ ok (some alg))
      × (accepts_kem kdc.config alg ≡ true)
      × (client_nonce ≡ none)
  Acceptable spki client_nonce (dh group) =
      (detect_spki_algorithm synta spki ≡ ok none)
      × (kdc.config.require_kem ≡ false)
      × (validate_dh_params crypto spki kdc.config.dh_min_bits ≡ ok group)

  exchange_for-Acceptable :
      (spki : Bytes) (client_nonce : Option Bytes) (detected : Option KemAlgorithm)
      (exchange : KeyExchangeType)
      → detect_spki_algorithm synta spki ≡ ok detected
      → exchange_for synta crypto kdc.config spki client_nonce detected ≡ ok exchange
      → Acceptable spki client_nonce exchange
  unfolding exchange_for
  exchange_for-Acceptable spki client_nonce (some alg) (kem a) d h =
      let (p, h1) = reject_if-eq-ok (not (accepts_kem kdc.config alg)) _ _ h in
      let (q, h2) = reject_if-eq-ok (is_some client_nonce) _ _ h1 in
      let same : alg ≡ a = ground arith in
      (d ∙ ap (λ x. ok (some x)) same, rw (sym same) (ground arith), ground arith)
  exchange_for-Acceptable spki client_nonce (some alg) (dh g) d h =
      let (p, h1) = reject_if-eq-ok (not (accepts_kem kdc.config alg)) _ _ h in
      let (q, h2) = reject_if-eq-ok (is_some client_nonce) _ _ h1 in absurd (ground arith)
  exchange_for-Acceptable spki client_nonce none (kem a) d h =
      let (p, h1) = reject_if-eq-ok kdc.config.require_kem _ _ h in
      let (g, q, h2) = >>=-eq-ok (validate_dh_params crypto spki kdc.config.dh_min_bits) _ h1 in
      absurd (ground arith)
  exchange_for-Acceptable spki client_nonce none (dh group) d h =
      let (p, h1) = reject_if-eq-ok kdc.config.require_kem _ _ h in
      let (g, q, h2) = >>=-eq-ok (validate_dh_params crypto spki kdc.config.dh_min_bits) _ h1 in
      (d, p, ground arith)

  -- Where the AuthPack came from: unsigned content for an anonymous request, else a signature by a
  -- certificate that chains to the KDC's anchors and has the key usage that the configuration asks for.
  abbrev pub Authenticated : Bytes → Opened → Type 0
  Authenticated signed (content, cert, anonymous) =
      ((anonymous ≡ true)
        × (cert ≡ [])
        × (unsigned_content synta crypto cms now signed
            ≡ some (content, synta.oids.id_pkinit_auth_data)))
      ⊎ ((anonymous ≡ false)
          × (unsigned_content synta crypto cms now signed ≡ none)
          × ((v : VerifiedSignedData) × ((cms.verify_signed_data signed ≡ ok v)
                × (content ≡ v.content)
                × (cert ≡ v.signer_cert_der)
                × (v.content_type ≡ synta.oids.id_pkinit_auth_data)
                × (validate_chain synta crypto now kdc.trust_store v.signer_cert_der v.all_certs_der
                      kdc.config.require_crl_checking
                    ≡ ok tt)
                × (check_client_eku synta kdc.config v.signer_cert_der ≡ ok tt))))

  check_auth_data-ok :
      (o : Oid) → check_auth_data synta o ≡ ok tt → o ≡ synta.oids.id_pkinit_auth_data
  unfolding check_auth_data
  check_auth_data-ok o h = (==_iff o synta.oids.id_pkinit_auth_data).0 (ground arith)

  open_auth_pack-Authenticated :
      (signed : Bytes) (opened : Opened)
      → open_auth_pack synta crypto cms now kdc signed ≡ ok opened
      → Authenticated signed opened
  unfolding open_auth_pack open_signed
  open_auth_pack-Authenticated signed opened h =
      elim (Option-cases (unsigned_content synta crypto cms now signed)) [
        | inr ((content, content_type), u) ↦
            let h0 = rw (u, open_auth_pack) at h in
            let (t, p, h1) = >>=-eq-ok (check_auth_data synta content_type) _ h0 in
            subst (λ o. Authenticated signed o) (ok-injective {E = PkinitError} h1)
              (inl
                (refl, refl, u ∙ ap (λ x. some (content, x)) (check_auth_data-ok content_type p)))
        | inl u ↦
            let h0 = rw (u, open_auth_pack) at h in
            let (v, a, h1) = >>=-eq-ok (cms.verify_signed_data signed) _ h0 in
            let (t, b, h2) = >>=-eq-ok (check_auth_data synta v.content_type) _ h1 in
            let (w, c, h3) =
              >>=-eq-ok
                (validate_chain synta crypto now kdc.trust_store v.signer_cert_der v.all_certs_der
                  kdc.config.require_crl_checking)
                _ h2 in
            let (x, d, h4) = >>=-eq-ok (check_client_eku synta kdc.config v.signer_cert_der) _ h3 in
            subst (λ o. Authenticated signed o) (ok-injective {E = PkinitError} h4)
              (inr (refl, u, (v, (a, refl, refl, check_auth_data-ok v.content_type b, c, d))))
      ]

  -- An accepted request, the content of its signed data, and the AuthPack in it.
  pub record IsAdmitted (pa_req : Bytes) (body : Option Bytes) (max_skew current_time : ℤ)
      (verified : VerifiedRequest) : Type 0 where
    pub req : PaPkAsReq
    pub content : Bytes
    pub auth_pack : AuthPack
    pub decoded : synta.pa_pk_as_req_from_der pa_req ≡ ok req
    pub authenticated :
        Authenticated req.signed_auth_pack
          (content, verified.client_cert_der, verified.is_anonymous)
    pub decoded_pack : synta.auth_pack_from_der content ≡ ok auth_pack
    pub in_time :
        ltb_ℤ max_skew (pos (abs_diff auth_pack.pk_authenticator.ctime current_time)) ≡ false
    pub fresh :
        kdc.config.require_freshness ≡ true
        → is_some auth_pack.pk_authenticator.freshness_token ≡ true
    pub body_bound : check_body synta crypto auth_pack.pk_authenticator body ≡ ok tt
    pub exchange :
        Acceptable verified.client_dh_public auth_pack.client_dhnonce verified.key_exchange
    pub nonce_of : decode_nonce synta auth_pack.pk_authenticator.nonce ≡ ok verified.nonce

  -- A request that the KDC accepts was checked in full: its AuthPack is either unsigned, and the request
  -- then anonymous and without a certificate, or signed by a certificate that chains to the KDC's
  -- anchors and passes the configured key usage; its time is within the skew; it has a freshness token
  -- if one is required; the checksums that it carries match the body, where the caller gives one; and
  -- its key exchange is one that the KDC accepts, a KEM if it requires one.
  pub verify_as_req-IsAdmitted :
      (pa_req : Bytes) (body : Option Bytes) (max_skew current_time : ℤ)
      (verified : VerifiedRequest)
      → verify_as_req synta crypto cms now kdc pa_req body max_skew current_time ≡ ok verified
      → IsAdmitted pa_req body max_skew current_time verified
  unfolding verify_as_req verify_auth_pack check_times choose_exchange
  verify_as_req-IsAdmitted pa_req body max_skew current_time verified h =
      let (req, a, h1) = try-eq-ok (synta.pa_pk_as_req_from_der pa_req) _ _ h in
      let (opened, b, h2) =
        >>=-eq-ok (open_auth_pack synta crypto cms now kdc req.signed_auth_pack) _ h1 in
      let (pack, c, h3) = try-eq-ok (synta.auth_pack_from_der opened.0) _ _ h2 in
      let auth = pack.pk_authenticator in
      let (t, d, h4) = >>=-eq-ok (check_times synta kdc.config auth max_skew current_time) _ h3 in
      let (skew, d1) =
        reject_if-eq-ok (ltb_ℤ max_skew (pos (abs_diff auth.ctime current_time))) _ _ d in
      let (u, e, h5) = >>=-eq-ok (check_body synta crypto auth body) _ h4 in
      let (value, f, h6) = >>=-eq-ok (ok_or pack.client_public_value _) _ h5 in
      let (spki, g, h7) = try-eq-ok (synta.element_to_der value) _ _ h6 in
      let (x, i, h8) =
        >>=-eq-ok (choose_exchange synta crypto kdc.config spki pack.client_dhnonce) _ h7 in
      let (n, j, h9) = >>=-eq-ok (decode_nonce synta auth.nonce) _ h8 in
      let (det, k, i1) = >>=-eq-ok (detect_spki_algorithm synta spki) _ i in
      subst (λ v. IsAdmitted pa_req body max_skew current_time v)
        (ok-injective {E = PkinitError} h9)
        (record {
          req = req;
          content = opened.0;
          auth_pack = pack;
          decoded = a;
          authenticated = open_auth_pack-Authenticated req.signed_auth_pack opened b;
          decoded_pack = c;
          in_time = skew;
          fresh = λ p. ground arith;
          body_bound = e;
          exchange = exchange_for-Acceptable spki pack.client_dhnonce det x k i1;
          nonce_of = j;
        })
