-- ===== src/Client/Accepted.antt =====
-- pkinit-core/src/client.rs: what a client that accepts a KEM reply has checked.
use kurbu5_pkinit.Common.{
  ==_iff, >>=-eq-ok, Bytes, Oid, Option, Result-cases, arith, false, inl, inr, length, list_eq,
  nat_eq, none, not, ok, ok_or, option_eq, refl, reject_if-eq-ok, some, true, try-eq-ok, ℕ, ◌&&◌,
  ◌==◌, ◌||◌, ◌≡◌,
}
use kurbu5_pkinit.Common.Int.{ℤ, ℤ_beq_iff, ℤ_eq}
use kurbu5_pkinit.Constants.{
  KemAlgorithm, ciphertext_len, group_eq, id_pkinit_kem_key_data, kem_eq, kem_oid,
}
use kurbu5_pkinit.Synta.{AlgorithmIdentifier, KdcKemInfo, KemRepInfo, Synta}
use kurbu5_pkinit.Crypto.{Crypto}
use kurbu5_pkinit.KemTypes.{decode_kem_rep_content, decode_nonce}
use kurbu5_pkinit.Kem.{KemKeyPair, decapsulate}
use kurbu5_pkinit.Kdf.{DerivedKey, OctetString2Key, pkinit_kem_kdf}
use kurbu5_pkinit.Cms.{Cms, VerifiedSignedData}
use kurbu5_pkinit.Client.State.{PkinitClientState, has_pq_certificate, is_pq_signature_algorithm}
use kurbu5_pkinit.Client.Negotiate.{is_some, offered_eq}
use kurbu5_pkinit.Client.Trust.{validate_kdc_chain}
use kurbu5_pkinit.Client.Reply.{
  AsRepParams, answer_kem_rep, check_kem_info, check_nonce, verify_kem_signed_data,
}

-- KDCKEMInfo answers a request with this algorithm and nonce.
pub record IsAnswer (synta : Synta) (alg : KemAlgorithm) (nonce : ℤ) (info : KdcKemInfo)
    : Type 0 where
  pub no_server_nonce : info.server_nonce ≡ none
  pub encoded : ℤ
  pub nonce_present : info.nonce ≡ some encoded
  pub same_nonce : decode_nonce synta encoded ≡ ok nonce
  pub same_kem :
      info.kem_algorithm ≡ record { algorithm = kem_oid synta.oids alg; parameters = none }
  pub hkdf_only :
      info.kdf_algorithm
      ≡ record { algorithm = synta.oids.id_alg_hkdf_with_sha512; parameters = none }
  pub ciphertext : length info.kemct ≡ ciphertext_len alg

is_some-false : {A : Type 0} (o : Option A) → is_some o ≡ false → o ≡ none
is_some-false none h = refl
is_some-false (some a) h = cc

alg_id_is :
    (a : AlgorithmIdentifier) (o : Oid)
    → (a.algorithm == o) ≡ true
    → is_some a.parameters ≡ false
    → a ≡ record { algorithm = o; parameters = none }
alg_id_is a o h k =
    let p : a.algorithm ≡ o = (==_iff a.algorithm o).0 h in
    let q : a.parameters ≡ none = is_some-false a.parameters k in cc

check_nonce-ok :
    (synta : Synta) (expected encoded : ℤ)
    → check_nonce synta expected encoded ≡ ok tt
    → decode_nonce synta encoded ≡ ok expected
unfolding check_nonce
check_nonce-ok synta expected encoded h = elim (Result-cases (decode_nonce synta encoded)) [
  | inl (n, p) ↦ ground (arith, ℤ_beq_iff n expected)
  | inr (e, p) ↦ ground arith
]

pub check_kem_info-IsAnswer :
    (synta : Synta) (alg : KemAlgorithm) (nonce : ℤ) (info : KdcKemInfo)
    → check_kem_info synta alg nonce info ≡ ok tt
    → IsAnswer synta alg nonce info
unfolding check_kem_info
check_kem_info-IsAnswer synta alg nonce info h =
    let (a, h1) = reject_if-eq-ok (is_some info.server_nonce) _ _ h in
    let (n, b, h2) = >>=-eq-ok (ok_or info.nonce _) _ h1 in
    let (t, d, h3) = >>=-eq-ok (check_nonce synta nonce n) _ h2 in
    let (e, h4) =
      reject_if-eq-ok (not (info.kem_algorithm.algorithm == kem_oid synta.oids alg)) _ _ h3 in
    let (f, h5) = reject_if-eq-ok (is_some info.kem_algorithm.parameters) _ _ h4 in
    let (g, h6) =
      reject_if-eq-ok
        (not (info.kdf_algorithm.algorithm == synta.oids.id_alg_hkdf_with_sha512)
          || is_some info.kdf_algorithm.parameters)
        _ _ h5 in
    record {
      no_server_nonce = is_some-false info.server_nonce a;
      encoded = n;
      nonce_present = ground arith;
      same_nonce = check_nonce-ok synta nonce n d;
      same_kem = alg_id_is info.kem_algorithm _ (ground arith) f;
      hkdf_only = alg_id_is info.kdf_algorithm _ (ground arith) (ground arith);
      ciphertext = ground arith;
    }

module _ {H : Type 0} (synta : Synta) (crypto : Crypto H) (cms : Cms H) (o2k : OctetString2Key)
    (now : ℕ) (c : PkinitClientState H) where
  -- Data signed by a KDC that the client trusts, for a KEM reply.
  pub record IsKdcSigned (signed_data : Bytes) (content : Bytes) : Type 0 where
    pub verified : VerifiedSignedData
    pub signature : cms.verify_signed_data signed_data ≡ ok verified
    pub content_type : verified.content_type ≡ id_pkinit_kem_key_data
    pub quantum_safe :
        has_pq_certificate synta c ≡ true
        → is_pq_signature_algorithm synta verified.signer_algorithm_oid ≡ true
    pub trusted_chain :
        validate_kdc_chain synta crypto now c verified.signer_cert_der verified.all_certs_der
        ≡ ok tt
    pub same_content : verified.content ≡ content

  verify_kem_signed_data-IsKdcSigned :
      (signed_data content : Bytes)
      → verify_kem_signed_data synta crypto cms o2k now c signed_data ≡ ok content
      → IsKdcSigned signed_data content
  unfolding verify_kem_signed_data
  verify_kem_signed_data-IsKdcSigned signed_data content h =
      let (v, s, h1) = >>=-eq-ok (cms.verify_signed_data signed_data) _ h in
      let (t, h2) = reject_if-eq-ok (not (v.content_type == id_pkinit_kem_key_data)) _ _ h1 in
      let (q, h3) =
        reject_if-eq-ok
          (has_pq_certificate synta c
            && not (is_pq_signature_algorithm synta v.signer_algorithm_oid))
          _ _ h2 in
      let (u, w, h4) =
        >>=-eq-ok (validate_kdc_chain synta crypto now c v.signer_cert_der v.all_certs_der) _ h3 in
      record {
        verified = v;
        signature = s;
        content_type = (==_iff v.content_type id_pkinit_kem_key_data).0 (ground arith);
        quantum_safe = λ p. ground arith;
        trusted_chain = w;
        same_content = ground arith;
      }

  -- The reply to the request that `key` belongs to, from a trusted KDC, and the key it leads to.
  pub record IsAcceptedKemReply (pa_rep : Bytes) (params : AsRepParams) (key : KemKeyPair H)
      (derived : DerivedKey) : Type 0 where
    pub wrapped : Bytes
    pub content : Bytes
    pub unwrapped : decode_kem_rep_content pa_rep ≡ ok wrapped
    pub reply : KemRepInfo
    pub decoded_reply : synta.kem_rep_info_from_der wrapped ≡ ok reply
    pub signed : IsKdcSigned reply.kem_signed_data content
    pub info : KdcKemInfo
    pub decoded_info : synta.kdc_kem_info_from_der content ≡ ok info
    pub answer : IsAnswer synta key.algorithm params.nonce info
    pub shared_secret : Bytes
    pub decapsulated : decapsulate crypto key info.kemct ≡ ok shared_secret
    pub derivation :
        pkinit_kem_kdf synta crypto o2k (record {
          shared_secret = shared_secret;
          enctype = params.enctype;
          as_req_der = params.as_req_der;
          kem_signed_data = reply.kem_signed_data;
        })
        ≡ ok derived

  -- A KEM reply that is answered with a key was checked in full: it is signed, with the content
  -- type id-pkinit-KEMKeyData and, if the client's certificate is post-quantum, a post-quantum
  -- algorithm, by a KDC whose chain, key usage and, where its principal is known, name validate; it
  -- names the request's nonce and the KEM of the client's key, with HKDF-SHA-512 and no parameters;
  -- and the key is derived from the decapsulated secret and the signed data.
  pub answer_kem_rep-IsAcceptedKemReply :
      (pa_rep : Bytes) (params : AsRepParams) (key : KemKeyPair H) (derived : DerivedKey)
      → answer_kem_rep synta crypto cms o2k now c pa_rep params key ≡ ok derived
      → IsAcceptedKemReply pa_rep params key derived
  unfolding answer_kem_rep
  answer_kem_rep-IsAcceptedKemReply pa_rep params key derived h =
      let (w, a, h1) = >>=-eq-ok (decode_kem_rep_content pa_rep) _ h in
      let (r, b, h2) = try-eq-ok (synta.kem_rep_info_from_der w) _ _ h1 in
      let (t, s, h3) =
        >>=-eq-ok (verify_kem_signed_data synta crypto cms o2k now c r.kem_signed_data) _ h2 in
      let (i, d, h4) = try-eq-ok (synta.kdc_kem_info_from_der t) _ _ h3 in
      let (u, k, h5) = >>=-eq-ok (check_kem_info synta key.algorithm params.nonce i) _ h4 in
      let (z, e, h6) = >>=-eq-ok (decapsulate crypto key i.kemct) _ h5 in
      record {
        wrapped = w;
        content = t;
        unwrapped = a;
        reply = r;
        decoded_reply = b;
        signed = verify_kem_signed_data-IsKdcSigned r.kem_signed_data t s;
        info = i;
        decoded_info = d;
        answer = check_kem_info-IsAnswer synta key.algorithm params.nonce i k;
        shared_secret = z;
        decapsulated = e;
        derivation = h6;
      }
