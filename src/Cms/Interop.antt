-- ===== src/Cms/Interop.antt =====
-- pkinit-core/src/crypto/cms.rs: the code as an implementation of the interface of Cms, and the round
-- trip of signed content.
use mathlib.Core.Path.{subst}
use kurbu5_pkinit.Common.{
  >>=-eq-ok, Bytes, List, List-cases, Oid, Text, ap, arith, if◌then◌else◌, inl, inr, is_empty,
  length, length-append, none, ok, ok_or, refl, some, true, try-eq-ok, ◌<◌, ◌^◌, ◌∙◌, ◌∷◌, ◌≡◌,
}
use kurbu5_pkinit.Synta.{Synta}
use kurbu5_pkinit.Crypto.{Crypto}
use kurbu5_pkinit.Cms.{Cms}
use kurbu5_pkinit.Cms.Structures.{CmsLibrary, IssuerAndSerialNumber, SignedData, SignerInfo}
use kurbu5_pkinit.Cms.Sign.{
  build_signed_attrs, concat_bytes, create_signed_data, create_unsigned_data, created_signed_data,
  created_signer_info, issuer_and_serial_der,
}
use kurbu5_pkinit.Cms.Verify.{
  certificates_of, digest_alg_to_name, extract_bare_content, extract_unsigned_content,
  find_signer_cert, first_signer, open_signed_data, retag_as_set, signer_public_key,
  verify_content_type, verify_message_digest, verify_signed_data, verify_signer,
}
use kurbu5_pkinit.Cms.Verified.{ok_or-eq-ok}
use kurbu5_pkinit.Cms.Roundtrip.{
  AllElements, ReadsContainers, extract_certificates-concat_bytes,
  open_signed_data-wrap_signed_data,
}
use kurbu5_pkinit.Cms.Signed.{
  IsKeyPair, ReadsSigner, build_signed_attrs-accepted, find_signer_cert-first,
}

module _ {H : Type 0} (synta : Synta) (crypto : Crypto H) (library : CmsLibrary H) where
  abbrev pub implementation : Cms H
  implementation = record {
    create_signed_data = create_signed_data synta crypto library;
    create_unsigned_data = create_unsigned_data synta crypto library;
    verify_signed_data = verify_signed_data synta crypto library;
    extract_unsigned_content = extract_unsigned_content synta crypto library;
    extract_bare_content = extract_bare_content synta crypto library;
  }

  -- What the signer and the library have to satisfy for content to be read back.
  pub record CanSign (key : H) (cert_der : Bytes) (extra_certs : List Bytes) (content : Bytes)
      (content_oid : Oid) (hash_algorithm : Text) : Type 0 where
    pub containers : ReadsContainers synta library
    pub parts : ReadsSigner synta library
    pub ct_eq_refl : (a : Bytes) → crypto.ct_eq a a ≡ true
    pub key_pair : IsKeyPair synta crypto library key cert_der hash_algorithm
    pub elements : AllElements synta crypto library (cert_der ∷ extra_certs)
    pub short :
        (digest to_sign attrs : Bytes)
        → build_signed_attrs synta crypto library content_oid digest ≡ ok (to_sign, attrs)
        → length attrs < 2 ^ 32

  certificates_of-written :
      (certs : List Bytes) (s : SignedData)
      → AllElements synta crypto library certs
      → 0 < length (concat_bytes certs)
      → s.certificates ≡ (if is_empty (concat_bytes certs) then none else some (concat_bytes certs))
      → certificates_of synta crypto library s ≡ ok certs
  unfolding certificates_of
  certificates_of-written certs s a p e = elim (List-cases (concat_bytes certs)) [
    | inl q ↦ absurd (omega (arith, p, ap length q))
    | inr (x, rest, q) ↦
        let some_certs : s.certificates ≡ some (concat_bytes certs) = ground (arith, q) in
        rw some_certs (extract_certificates-concat_bytes synta crypto library certs a)
  ]

  verify_signer-created :
      (key : H) (signer : SignerInfo) (content : Bytes) (t : Oid) (name : Text)
      (digest attrs to_sign sig_alg : Bytes)
      → signer.signed_attrs ≡ some attrs
      → synta.digest_oid_to_name signer.digest_algorithm.algorithm ≡ some name
      → crypto.hash_data name content ≡ ok digest
      → (verify_message_digest synta crypto library attrs digest ≡ ok tt)
        × (verify_content_type synta crypto library attrs t ≡ ok tt)
        × (to_sign ≡ retag_as_set attrs)
      → library.alg_id_to_der signer.signature_algorithm ≡ ok sig_alg
      → library.verify_signature key to_sign sig_alg signer.signature ≡ ok tt
      → verify_signer synta crypto library key signer content t ≡ ok tt
  unfolding verify_signer digest_alg_to_name
  verify_signer-created key signer content t name digest attrs to_sign sig_alg a n d (md, ct, s) e
        v =
      let v' = subst (λ x. library.verify_signature key x sig_alg signer.signature ≡ ok tt) s v in
      rw (a, n, d, md, ct, e, v') refl

  verify-steps :
      (der content cert_der : Bytes) (sd : SignedData) (signer : SignerInfo) (certs : List Bytes)
      (ias : IssuerAndSerialNumber) (key : H)
      → open_signed_data synta crypto library der ≡ ok sd
      → first_signer synta crypto library sd ≡ some signer
      → certificates_of synta crypto library sd ≡ ok certs
      → library.issuer_and_serial_from_der signer.sid ≡ ok ias
      → find_signer_cert synta crypto library certs ias ≡ ok cert_der
      → signer_public_key synta crypto library cert_der ≡ ok key
      → sd.encap_content_info.e_content ≡ some content
      → verify_signer synta crypto library key signer content sd.encap_content_info.e_content_type
        ≡ ok tt
      → verify_signed_data synta crypto library der
        ≡ ok (record {
          content = content;
          content_type = sd.encap_content_info.e_content_type;
          signer_cert_der = cert_der;
          all_certs_der = certs;
          signer_algorithm_oid = signer.signature_algorithm.algorithm;
        })
  unfolding verify_signed_data
  verify-steps der content cert_der sd signer certs ias key e0 e1 e2 e3 e4 e5 e6 e7 =
      rw (verify_signed_data, e0) (rw (e1, e2) (rw (e3, e4) (rw (e5, e6) (rw e7 refl))))

  -- Signed content verifies and is read back: its bytes, its type, the signer's certificate and all
  -- the certificates in order, when the library reads what it wrote, the key belongs to the
  -- certificate, each certificate is one DER element, and the signed attributes are shorter than
  -- 2^32 octets.
  pub verify_signed_data-create_signed_data :
      (key : H) (cert_der : Bytes) (extra_certs : List Bytes) (content : Bytes) (content_oid : Oid)
      (hash_algorithm : Text) (der : Bytes)
      → CanSign key cert_der extra_certs content content_oid hash_algorithm
      → create_signed_data synta crypto library content content_oid key cert_der extra_certs
          hash_algorithm
        ≡ ok der
      → (sig_alg : Oid) × (verify_signed_data synta crypto library der
          ≡ ok (record {
            content = content;
            content_type = content_oid;
            signer_cert_der = cert_der;
            all_certs_der = cert_der ∷ extra_certs;
            signer_algorithm_oid = sig_alg;
          }))
  unfolding create_signed_data verify_signed_data first_signer concat_bytes
  verify_signed_data-create_signed_data key cert_der extra_certs content content_oid hash_algorithm
        der can h =
      let (t, e0, h0) = try-eq-ok (synta.object_identifier content_oid) _ _ h in
      let (alg, e1, h1) = >>=-eq-ok (ok_or (library.digest_alg_id hash_algorithm) _) _ h0 in
      let (digest, e2, h2) = try-eq-ok (crypto.hash_data hash_algorithm content) _ _ h1 in
      let ((to_sign, attrs), e3, h3) =
        try-eq-ok (build_signed_attrs synta crypto library t digest) _ _ h2 in
      let signer = library.as_signer key hash_algorithm in
      let (sig_alg_der, e4, h4) = try-eq-ok (library.signature_algorithm_der signer) _ _ h3 in
      let (signature, e5, h5) = try-eq-ok (library.sign_tbs signer to_sign) _ _ h4 in
      let (sid, e6, h6) = try-eq-ok (issuer_and_serial_der synta crypto library cert_der) _ _ h5 in
      let (sig_alg, e7, h7) = try-eq-ok (synta.alg_id_from_der sig_alg_der) _ _ h6 in
      let same = can.containers.same_oid content_oid t e0 in
      let built =
        subst (λ x. build_signed_attrs synta crypto library x digest ≡ ok (to_sign, attrs)) same
          e3 in
      let accepted =
        build_signed_attrs-accepted synta crypto library can.parts can.containers.same_oid
          can.ct_eq_refl t digest to_sign attrs (can.short digest to_sign attrs built) e3 in
      let (ias, i0, i1, i2) =
        find_signer_cert-first synta crypto library can.parts can.containers.same_oid can.ct_eq_refl
          cert_der sid extra_certs e6 in
      let signer_info = created_signer_info sid alg attrs sig_alg signature in
      let sd =
        created_signed_data alg t content (concat_bytes (cert_der ∷ extra_certs)) signer_info in
      let opened =
        open_signed_data-wrap_signed_data synta crypto library can.containers sd der
          (λ b. can.containers.reads_signed sd signer_info ias b refl i0) h7 in
      let nonempty : 0 < length (concat_bytes (cert_der ∷ extra_certs)) =
        omega (arith, can.elements.0.0, length-append cert_der (concat_bytes extra_certs)) in
      let certs = certificates_of-written (cert_der ∷ extra_certs) sd can.elements nonempty refl in
      let name = can.parts.reads_digest_alg hash_algorithm alg (ok_or-eq-ok _ _ alg e1) in
      let valid = can.key_pair.verifies to_sign sig_alg_der signature e4 e5 in
      let signer_ok =
        verify_signer-created can.key_pair.public signer_info content t hash_algorithm digest attrs
          to_sign sig_alg_der refl name e2 accepted (can.parts.reads_alg_id sig_alg_der sig_alg e7)
          valid in
      (
        sig_alg.algorithm,
        verify-steps der content cert_der sd signer_info (cert_der ∷ extra_certs) ias
              can.key_pair.public opened refl certs i1 i2 can.key_pair.is_public refl signer_ok
            ∙ ap
                (λ (x : Oid). ok (record {
                  content = content;
                  content_type = x;
                  signer_cert_der = cert_der;
                  all_certs_der = cert_der ∷ extra_certs;
                  signer_algorithm_oid = sig_alg.algorithm;
                }))
                same,
      )
