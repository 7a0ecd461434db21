-- ===== src/Agreement.antt =====
-- pkinit-core/src/server.rs and client.rs: a KDC's KEM reply and the client that reads it.
use kurbu5_pkinit.Common.{
  ==_refl, >>=-eq-ok, Bool-cases, Bytes, Oid, Option, Text, ap, arith, false, if◌then◌else◌, inl,
  inr, length, list_eq, nat_eq, none, not, ok, ok-injective, ok_or, option_eq, refl,
  reject_if-eq-ok, some, sym, true, try-eq-ok, ℕ, ◌&&◌, ◌<◌, ◌==◌, ◌^◌, ◌∙◌, ◌∷◌, ◌≡◌,
}
use kurbu5_pkinit.Common.Int.{IsInt32, ℤ, ℤ_beq_iff, ℤ_eq}
use kurbu5_pkinit.Error.{PkinitError}
use kurbu5_pkinit.Constants.{
  KemAlgorithm, ciphertext_len, group_eq, id_pkinit_kem_key_data, is_composite, kem_eq, kem_oid,
}
use kurbu5_pkinit.Synta.{KdcKemInfo, KemRepInfo, Synta}
use kurbu5_pkinit.Crypto.{Crypto}
use kurbu5_pkinit.KemTypes.{decode_kem_rep_content, encode_kem_rep_wrapper, encode_nonce}
use kurbu5_pkinit.KemTypes.Nonce.{ReadsI64, decode_nonce-encode_nonce}
use kurbu5_pkinit.KemTypes.Wrapper.{decode_kem_rep_content-encode_kem_rep_wrapper}
use kurbu5_pkinit.Kem.{KemKeyPair, decapsulate, encapsulate_for_client}
use kurbu5_pkinit.Kdf.{DerivedKey, OctetString2Key, pkinit_kem_kdf}
use kurbu5_pkinit.Cms.{Cms, digest_for_signer}
use kurbu5_pkinit.Identity.{PkinitIdentity}
use kurbu5_pkinit.Client.State.{PkinitClientState, has_pq_certificate, is_pq_signature_algorithm}
use kurbu5_pkinit.Client.Trust.{validate_kdc_chain}
use kurbu5_pkinit.Client.Reply.{
  AsRepParams, answer_kem_rep, check_kem_info, check_nonce, verify_kem_signed_data,
}
use kurbu5_pkinit.Server.State.{PkinitKdcState}
use kurbu5_pkinit.Server.Verify.{VerifiedRequest}
use kurbu5_pkinit.Server.Respond.{
  BuildAsRepParams, build_kem_rep, check_kem_kdfs, kdc_kem_info, sign_reply,
}

-- What the two sides need of the ASN.1 library: OIDs, integers, and codecs that read what they wrote.
pub record IsCodec (synta : Synta) : Type 0 where
  pub same_oid : (o p : Oid) → synta.object_identifier o ≡ ok p → p ≡ o
  pub reads_i64 : ReadsI64 synta
  pub reads_kem_rep_info :
      (i : KemRepInfo) (der : Bytes)
      → synta.kem_rep_info_to_der i ≡ ok der
      → (synta.kem_rep_info_from_der der ≡ ok i) × (length der < 2 ^ 32)
  pub reads_kdc_kem_info :
      (i : KdcKemInfo) (der : Bytes)
      → synta.kdc_kem_info_to_der i ≡ ok der
      → synta.kdc_kem_info_from_der der ≡ ok i

-- The KDCKEMInfo that answers a request.
abbrev answer_info : Synta → KemAlgorithm → Bytes → ℤ → KdcKemInfo
answer_info synta alg ct nonce = record {
  kem_algorithm = record { algorithm = kem_oid synta.oids alg; parameters = none };
  kemct = ct;
  kdf_algorithm = record { algorithm = synta.oids.id_alg_hkdf_with_sha512; parameters = none };
  nonce = some (encode_nonce nonce);
  server_nonce = none;
}

check_kem_info-answer_info :
    (synta : Synta) (alg : KemAlgorithm) (ct : Bytes) (nonce : ℤ)
    → ReadsI64 synta
    → length ct ≡ ciphertext_len alg
    → IsInt32 nonce
    → check_kem_info synta alg nonce (answer_info synta alg ct nonce) ≡ ok tt
unfolding check_kem_info check_nonce
check_kem_info-answer_info synta alg ct nonce reads l n =
    let r = (decode_nonce-encode_nonce synta nonce reads n).2 in
    let i = (ℤ_beq_iff nonce nonce).1 refl in
    let o = ==_refl (kem_oid synta.oids alg) in
    let k = ==_refl synta.oids.id_alg_hkdf_with_sha512 in ground (arith, r, i, o, k)

kdc_kem_info-answer_info :
    (synta : Synta) (alg : KemAlgorithm) (ct : Bytes) (nonce : ℤ) (info : KdcKemInfo)
    → IsCodec synta
    → kdc_kem_info synta alg ct nonce ≡ ok info
    → info ≡ answer_info synta alg ct nonce
unfolding kdc_kem_info
kdc_kem_info-answer_info synta alg ct nonce info codec h =
    let (o, a, h1) = try-eq-ok (synta.object_identifier (kem_oid synta.oids alg)) _ _ h in
    let (k, b, h2) =
      try-eq-ok (synta.object_identifier synta.oids.id_alg_hkdf_with_sha512) _ _ h1 in
    let p = codec.same_oid (kem_oid synta.oids alg) o a in
    let q = codec.same_oid synta.oids.id_alg_hkdf_with_sha512 k b in
    let both : (o, k) ≡ (kem_oid synta.oids alg, synta.oids.id_alg_hkdf_with_sha512) = cc in
    sym (ok-injective {E = PkinitError} h2)
    ∙ ap
        (λ (x, y). record {
          kem_algorithm = record { algorithm = x; parameters = none };
          kemct = ct;
          kdf_algorithm = record { algorithm = y; parameters = none };
          nonce = some (encode_nonce nonce);
          server_nonce = none;
        })
        both

length-encapsulated :
    {H : Type 0} (crypto : Crypto H) (draw : ℕ) (spki : Bytes) (alg : KemAlgorithm)
    (ct secret : Bytes)
    → encapsulate_for_client crypto draw spki alg ≡ ok (ct, secret)
    → length ct ≡ ciphertext_len alg
unfolding encapsulate_for_client
length-encapsulated crypto draw spki alg ct secret h =
    let pub_key = crypto.public_key_from_spki spki in
    let ((c, s), a, h1) =
      try-eq-ok
        (if is_composite alg
          then crypto.composite_kem_encapsulate draw pub_key
          else crypto.ml_kem_encapsulate draw pub_key)
        _ _ h in
    let (p, h2) = reject_if-eq-ok (not (length c == ciphertext_len alg)) _ _ h1 in
    let q : c ≡ ct = ap (λ x. x.0) (ok-injective {E = PkinitError} h2) in
    ground (arith, p, ap length q)

ok_or-some : {E A : Type 0} (o : Option A) (e : E) (a : A) → ok_or o e ≡ ok a → o ≡ some a
ok_or-some none e a h = cc
ok_or-some (some b) e a h = cc

-- What the KEMs of the crypto library promise for a private key and the public key of it.
pub record Decapsulates {H : Type 0} (crypto : Crypto H) (private_key pub_key : H) : Type 0 where
  pub composite :
      (draw : ℕ) (ct secret : Bytes)
      → crypto.composite_kem_encapsulate draw pub_key ≡ ok (ct, secret)
      → crypto.composite_kem_decapsulate private_key ct ≡ ok secret
  pub ml_kem :
      (draw : ℕ) (ct secret : Bytes)
      → crypto.ml_kem_encapsulate draw pub_key ≡ ok (ct, secret)
      → crypto.ml_kem_decapsulate private_key ct ≡ ok secret

-- What a signer signs as the content of a KEM reply is read back, with its certificates and its signature algorithm.
pub record ReadsSigned {H : Type 0} (cms : Cms H) (identity : PkinitIdentity H) (digest : Text)
    (signature_algorithm : Oid) : Type 0 where
  pub reads :
      (content signed : Bytes) (key : H)
      → identity.signing_key ≡ some key
      → cms.create_signed_data content id_pkinit_kem_key_data key identity.cert_der identity.chain
          digest
        ≡ ok signed
      → cms.verify_signed_data signed
        ≡ ok (record {
          content = content;
          content_type = id_pkinit_kem_key_data;
          signer_cert_der = identity.cert_der;
          all_certs_der = identity.cert_der ∷ identity.chain;
          signer_algorithm_oid = signature_algorithm;
        })

decapsulate-encapsulated :
    {H : Type 0} (crypto : Crypto H) (key : KemKeyPair H) (spki : Bytes)
    → Decapsulates crypto key.private_key (crypto.public_key_from_spki spki)
    → (draw : ℕ) (ct secret : Bytes)
    → encapsulate_for_client crypto draw spki key.algorithm ≡ ok (ct, secret)
    → decapsulate crypto key ct ≡ ok secret
unfolding encapsulate_for_client decapsulate
decapsulate-encapsulated crypto key spki law draw ct secret h =
    let len = length-encapsulated crypto draw spki key.algorithm ct secret h in
    let fits : (length ct == ciphertext_len key.algorithm) ≡ true =
      ground (arith, ==_refl (length ct), len) in
    let pub_key = crypto.public_key_from_spki spki in
    let ((c, s), a, h1) =
      try-eq-ok
        (if is_composite key.algorithm
          then crypto.composite_kem_encapsulate draw pub_key
          else crypto.ml_kem_encapsulate draw pub_key)
        _ _ h in
    let (p, h2) = reject_if-eq-ok (not (length c == ciphertext_len key.algorithm)) _ _ h1 in
    let same = ok-injective {E = PkinitError} h2 in
    let run : (if is_composite key.algorithm
          then crypto.composite_kem_encapsulate draw pub_key
          else crypto.ml_kem_encapsulate draw pub_key)
        ≡ ok (ct, secret) =
      a ∙ ap ok same in
    elim (Bool-cases (is_composite key.algorithm)) [
      | inl e ↦
          let back = law.composite draw ct secret (ground arith) in
          rw (decapsulate, fits) (rw (e, back) refl)
      | inr e ↦
          let back = law.ml_kem draw ct secret (ground arith) in
          rw (decapsulate, fits) (rw (e, back) refl)
    ]

module _ {H : Type 0} (synta : Synta) (crypto : Crypto H) (cms : Cms H) (o2k : OctetString2Key)
    (now : ℕ) (codec : IsCodec synta) (kdc : PkinitKdcState H) (c : PkinitClientState H)
    (key : KemKeyPair H) (verified : VerifiedRequest)
    (correct : Decapsulates crypto key.private_key
      (crypto.public_key_from_spki verified.client_dh_public))
    (algorithm : Oid)
    (signs : ReadsSigned cms kdc.identity (digest_for_signer synta kdc.identity.cert_der) algorithm)
    (quantum_safe : has_pq_certificate synta c ≡ true
      → is_pq_signature_algorithm synta algorithm ≡ true)
    (trusted : validate_kdc_chain synta crypto now c kdc.identity.cert_der
        (kdc.identity.cert_der ∷ kdc.identity.chain)
      ≡ ok tt) where
  trusts :
      (content signed : Bytes)
      → sign_reply synta crypto cms o2k kdc content id_pkinit_kem_key_data ≡ ok signed
      → verify_kem_signed_data synta crypto cms o2k now c signed ≡ ok content
  unfolding sign_reply verify_kem_signed_data
  trusts content signed h =
      let (sk, held, h1) = >>=-eq-ok (ok_or kdc.identity.signing_key _) _ h in
      let is_key : kdc.identity.signing_key ≡ some sk =
        ok_or-some kdc.identity.signing_key _ sk held in
      let read = signs.reads content signed sk is_key h1 in
      let same_type = ==_refl id_pkinit_kem_key_data in
      let strong : (has_pq_certificate synta c && not (is_pq_signature_algorithm synta algorithm))
          ≡ false =
        ground (arith, quantum_safe) in
      rw (verify_kem_signed_data, read) (rw (same_type, strong, trusted) refl)

  answer-steps :
      (pa_rep : Bytes) (params : AsRepParams) (wrapped inner : Bytes) (rep : KemRepInfo)
      (content : Bytes) (info : KdcKemInfo) (secret : Bytes)
      → pa_rep ≡ wrapped
      → decode_kem_rep_content wrapped ≡ ok inner
      → synta.kem_rep_info_from_der inner ≡ ok rep
      → verify_kem_signed_data synta crypto cms o2k now c rep.kem_signed_data ≡ ok content
      → synta.kdc_kem_info_from_der content ≡ ok info
      → check_kem_info synta key.algorithm params.nonce info ≡ ok tt
      → decapsulate crypto key info.kemct ≡ ok secret
      → answer_kem_rep synta crypto cms o2k now c pa_rep params key
        ≡ pkinit_kem_kdf synta crypto o2k (record {
          shared_secret = secret;
          enctype = params.enctype;
          as_req_der = params.as_req_der;
          kem_signed_data = rep.kem_signed_data;
        })
  unfolding answer_kem_rep
  answer-steps pa_rep params wrapped inner rep content info secret e p q r s t u =
      rw (e, answer_kem_rep, p) (rw q (rw r (rw s (rw t (rw u refl)))))

  -- Both sides of a KEM exchange derive the same key: whenever the KDC answers a request that carries
  -- the public key of `key`, the client that holds `key`, with the same nonce, enctype and request,
  -- accepts the reply and derives the KDC's key. It takes an ASN.1 library that reads what it wrote, and
  -- writes a KEMRepInfo in fewer than 2^32 octets; KEMs, composite and pure, whose private key
  -- decapsulates what was encapsulated to the public one; a CMS that reads back what the KDC's identity
  -- signs; and a client that validates the KDC's chain, and takes its signature algorithm for
  -- post-quantum if its own certificate is.
  pub answer_kem_rep-build_kem_rep :
      (draw : ℕ) (params : BuildAsRepParams) (client_params : AsRepParams) (pa_rep : Bytes)
      (derived : DerivedKey)
      → client_params.nonce ≡ params.nonce
      → client_params.enctype ≡ params.enctype
      → client_params.as_req_der ≡ params.as_req_der
      → IsInt32 params.nonce
      → build_kem_rep synta crypto cms o2k draw kdc verified params key.algorithm
        ≡ ok (pa_rep, derived)
      → answer_kem_rep synta crypto cms o2k now c pa_rep client_params key ≡ ok derived
  unfolding build_kem_rep answer_kem_rep encode_kem_rep_wrapper
  answer_kem_rep-build_kem_rep draw params client_params pa_rep derived en ee ea n h =
      let (t, kdfs, h1) = >>=-eq-ok (check_kem_kdfs synta verified.supported_kdfs) _ h in
      let ((ct, secret), enc, h2) =
        >>=-eq-ok (encapsulate_for_client crypto draw verified.client_dh_public key.algorithm) _
          h1 in
      let (info, mk, h3) = >>=-eq-ok (kdc_kem_info synta key.algorithm ct params.nonce) _ h2 in
      let (info_der, w, h4) = try-eq-ok (synta.kdc_kem_info_to_der info) _ _ h3 in
      let (signed, sg, h5) =
        >>=-eq-ok (sign_reply synta crypto cms o2k kdc info_der id_pkinit_kem_key_data) _ h4 in
      let rep : KemRepInfo = record { kem_signed_data = signed } in
      let (wrapped, wr, h6) = >>=-eq-ok (encode_kem_rep_wrapper synta rep) _ h5 in
      let (k, kd, h7) = >>=-eq-ok (pkinit_kem_kdf synta crypto o2k _) _ h6 in
      let (inner, hi, _) = try-eq-ok (synta.kem_rep_info_to_der rep) _ _ wr in
      let (reads, short) = codec.reads_kem_rep_info rep inner hi in
      let (_, unwrapped) =
        decode_kem_rep_content-encode_kem_rep_wrapper synta rep inner wrapped hi short wr in
      let out = ok-injective {E = PkinitError} h7 in
      let same = kdc_kem_info-answer_info synta key.algorithm ct params.nonce info codec mk in
      let len =
        length-encapsulated crypto draw verified.client_dh_public key.algorithm ct secret enc in
      let checks =
        check_kem_info-answer_info synta key.algorithm ct params.nonce codec.reads_i64 len n in
      answer-steps pa_rep client_params wrapped inner rep info_der info secret
        (ap (λ x. x.0) (sym out)) unwrapped reads (trusts info_der signed sg)
        (codec.reads_kdc_kem_info info info_der w) (rw (en, same) checks)
        (rw same (
          decapsulate-encapsulated crypto key verified.client_dh_public correct draw ct secret enc))
      ∙ rw (ee, ea) kd
      ∙ ap (λ x. ok (x.1)) out
