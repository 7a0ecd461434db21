-- ===== src/Cms/Verified.antt =====
-- pkinit-core/src/crypto/cms.rs: what a SignedData that `verify_signed_data` accepts satisfies.
use mathlib.Core.Path.{subst}
use kurbu5_pkinit.Common.{
  ==_iff, >>=-eq-ok, Bytes, Has, List, List-cases, Oid, Option, Option-cases, Result, Text, [], ap,
  arith, err, inl, inr, length, list_eq, map_err-eq-ok, nat_eq, none, ok, ok-injective, ok_or,
  option_eq, refl, some, sym, true, try-eq-ok, ◌∙◌, ◌≡◌,
}
use kurbu5_pkinit.Common.Int.{ℤ_eq}
use kurbu5_pkinit.Error.{Fault, Pkinit, PkinitError}
use kurbu5_pkinit.Constants.{group_eq, kem_eq}
use kurbu5_pkinit.Synta.{Certificate, Synta}
use kurbu5_pkinit.Crypto.{Crypto}
use kurbu5_pkinit.Cms.{VerifiedSignedData}
use kurbu5_pkinit.Cms.Structures.{
  Attribute, CmsLibrary, IssuerAndSerialNumber, SignedData, SignerInfo,
}
use kurbu5_pkinit.Cms.Verify.{
  certificates_loop, certificates_of, digest_alg_to_name, extract_certificates,
  extract_unsigned_content, find_signer_cert, first_attribute, first_signer, open_signed_data,
  rejected_cms, retag_as_set, signer_public_key, verify_content_type, verify_message_digest,
  verify_signed_data, verify_signer,
}
use kurbu5_pkinit.Cms.Loops.{
  IsFirst, IsRead, certificates_loop-IsRead, first_attribute-IsFirst, search_signer-Has,
}

-- The first attribute of a type holds a value, as `read` reads it from the attribute's SET.
pub record Attests {H A : Type 0} (library : CmsLibrary H) (read : Bytes → Result Fault A)
    (id : Oid) (attrs : Bytes) (value : A) : Type 0 where
  pub attr : Attribute
  pub is_first : IsFirst library id attrs attr
  pub inner : Bytes
  pub entered : library.enter_set attr.attr_values ≡ ok inner
  pub holds : read inner ≡ ok value

-- The signed attributes of a signer bind the content and its type, and carry the signer's signature.
pub record Binds {H : Type 0} (synta : Synta) (crypto : Crypto H) (library : CmsLibrary H) (key : H)
    (signer : SignerInfo) (content : Bytes) (content_type : Oid) : Type 0 where
  pub attrs : Bytes
  pub has_attrs : signer.signed_attrs ≡ some attrs
  pub hash_name : Text
  pub hash_known : synta.digest_oid_to_name signer.digest_algorithm.algorithm ≡ some hash_name
  pub digest : Bytes
  pub hashed : crypto.hash_data hash_name content ≡ ok digest
  pub id_md : Oid
  pub id_md_is : synta.object_identifier synta.oids.pkcs9_message_digest ≡ ok id_md
  pub id_ct : Oid
  pub id_ct_is : synta.object_identifier synta.oids.pkcs9_content_type ≡ ok id_ct
  pub binds_content : Attests library library.decode_octet_string id_md attrs digest
  pub binds_type : Attests library library.decode_oid id_ct attrs content_type
  pub sig_alg_der : Bytes
  pub sig_alg_encoded : library.alg_id_to_der signer.signature_algorithm ≡ ok sig_alg_der
  pub signature_valid :
      library.verify_signature key (retag_as_set attrs) sig_alg_der signer.signature ≡ ok tt

pub record IsVerified {H : Type 0} (synta : Synta) (crypto : Crypto H) (library : CmsLibrary H)
    (der : Bytes) (v : VerifiedSignedData) : Type 0 where
  pub signed_data : SignedData
  pub opened : open_signed_data synta crypto library der ≡ ok signed_data
  pub signer : SignerInfo
  pub first : first_signer synta crypto library signed_data ≡ some signer
  pub content_is : signed_data.encap_content_info.e_content ≡ some v.content
  pub type_is : v.content_type ≡ signed_data.encap_content_info.e_content_type
  pub certificates : Bytes
  pub has_certificates : signed_data.certificates ≡ some certificates
  pub all_read : IsRead library certificates v.all_certs_der
  pub signer_included : Has v.signer_cert_der v.all_certs_der
  pub cert : Certificate
  pub cert_parsed : synta.certificate_from_der v.signer_cert_der ≡ ok cert
  pub ias : IssuerAndSerialNumber
  pub ias_parsed : library.issuer_and_serial_from_der signer.sid ≡ ok ias
  pub same_serial : cert.serial_number ≡ ias.serial_number
  pub same_issuer : library.name_to_der ias.issuer ≡ ok cert.issuer
  pub key : H
  pub key_of_signer : signer_public_key synta crypto library v.signer_cert_der ≡ ok key
  pub binds : Binds synta crypto library key signer v.content v.content_type

pub ok_or-eq-ok : {E A : Type 0} (o : Option A) (e : E) (a : A) → ok_or o e ≡ ok a → o ≡ some a
ok_or-eq-ok none e a h = cc
ok_or-eq-ok (some b) e a h = cc

module _ {H : Type 0} (synta : Synta) (crypto : Crypto H) (library : CmsLibrary H)
    (ct_eq-eq : (a b : Bytes) → crypto.ct_eq a b ≡ true → a ≡ b) where
  verify_message_digest-Attests :
      (attrs digest : Bytes)
      → verify_message_digest synta crypto library attrs digest ≡ ok tt
      → (id : Oid) × (synta.object_identifier synta.oids.pkcs9_message_digest ≡ ok id)
        × Attests library library.decode_octet_string id attrs digest
  unfolding verify_message_digest
  verify_message_digest-Attests attrs digest h =
      let (id, e0, h0) =
        try-eq-ok (synta.object_identifier synta.oids.pkcs9_message_digest) _ _ h in
      let (found, e1, h1) =
        >>=-eq-ok (first_attribute synta crypto library (length attrs) id attrs) _ h0 in
      let (attr, e2, h2) = >>=-eq-ok (ok_or found _) _ h1 in
      let (inner, e3, h3) = try-eq-ok (library.enter_set attr.attr_values) _ _ h2 in
      let (value, e4, h4) = try-eq-ok (library.decode_octet_string inner) _ _ h3 in
      let is_some = ok_or-eq-ok found _ attr e2 in
      let same : value ≡ digest = ct_eq-eq value digest (ground arith) in
      (
        id,
        e0,
        record {
          attr = attr;
          is_first =
              first_attribute-IsFirst synta crypto library (length attrs) id attrs attr
                (e1 ∙ ap ok is_some);
          inner = inner;
          entered = e3;
          holds = e4 ∙ ap ok same;
        },
      )

  verify_content_type-Attests :
      (attrs : Bytes) (content_type : Oid)
      → verify_content_type synta crypto library attrs content_type ≡ ok tt
      → (id : Oid) × (synta.object_identifier synta.oids.pkcs9_content_type ≡ ok id)
        × Attests library library.decode_oid id attrs content_type
  unfolding verify_content_type
  verify_content_type-Attests attrs content_type h =
      let (id, e0, h0) = try-eq-ok (synta.object_identifier synta.oids.pkcs9_content_type) _ _ h in
      let (found, e1, h1) =
        >>=-eq-ok (first_attribute synta crypto library (length attrs) id attrs) _ h0 in
      let (attr, e2, h2) = >>=-eq-ok (ok_or found _) _ h1 in
      let (inner, e3, h3) = try-eq-ok (library.enter_set attr.attr_values) _ _ h2 in
      let (value, e4, h4) = try-eq-ok (library.decode_oid inner) _ _ h3 in
      let is_some = ok_or-eq-ok found _ attr e2 in
      let same : value ≡ content_type = (==_iff value content_type).0 (ground arith) in
      (
        id,
        e0,
        record {
          attr = attr;
          is_first =
              first_attribute-IsFirst synta crypto library (length attrs) id attrs attr
                (e1 ∙ ap ok is_some);
          inner = inner;
          entered = e3;
          holds = e4 ∙ ap ok same;
        },
      )

  verify_signer-Binds :
      (key : H) (signer : SignerInfo) (content : Bytes) (content_type : Oid)
      → verify_signer synta crypto library key signer content content_type ≡ ok tt
      → Binds synta crypto library key signer content content_type
  unfolding verify_signer digest_alg_to_name
  verify_signer-Binds key signer content content_type h =
      let (attrs, e0, h0) = >>=-eq-ok (ok_or signer.signed_attrs _) _ h in
      let (name, e1, h1) =
        >>=-eq-ok (digest_alg_to_name synta crypto library signer.digest_algorithm) _ h0 in
      let (digest, e2, h2) = try-eq-ok (crypto.hash_data name content) _ _ h1 in
      let (u, e3, h3) = >>=-eq-ok (verify_message_digest synta crypto library attrs digest) _ h2 in
      let (w, e4, h4) =
        >>=-eq-ok (verify_content_type synta crypto library attrs content_type) _ h3 in
      let (sig, e5, h5) = try-eq-ok (library.alg_id_to_der signer.signature_algorithm) _ _ h4 in
      let (id_md, m, md) = verify_message_digest-Attests attrs digest e3 in
      let (id_ct, c, ct) = verify_content_type-Attests attrs content_type e4 in
      record {
        attrs = attrs;
        has_attrs = ok_or-eq-ok signer.signed_attrs _ attrs e0;
        hash_name = name;
        hash_known = ok_or-eq-ok (synta.digest_oid_to_name _) _ name e1;
        digest = digest;
        hashed = e2;
        id_md = id_md;
        id_md_is = m;
        id_ct = id_ct;
        id_ct_is = c;
        binds_content = md;
        binds_type = ct;
        sig_alg_der = sig;
        sig_alg_encoded = e5;
        signature_valid = map_err-eq-ok _ _ h5;
      }

  -- The certificates are the elements of the SignedData's own field, if one was found among them.
  certificates_of-IsRead :
      (sd : SignedData) (certs : List Bytes) (found : Bytes)
      → certificates_of synta crypto library sd ≡ ok certs
      → Has found certs
      → (raw : Bytes) × (sd.certificates ≡ some raw) × IsRead library raw certs
  unfolding certificates_of extract_certificates
  certificates_of-IsRead sd certs found h m = elim (Option-cases sd.certificates) [
    | inr (raw, e) ↦
        let r : certificates_loop synta crypto library (length raw) raw ≡ ok certs = ground arith in
        (raw, e, certificates_loop-IsRead synta crypto library (length raw) raw certs r)
    | inl e ↦
        let nothing : Path (Pkinit (List Bytes)) (ok []) (ok certs) = ground arith in
        absurd (subst (Has found) (sym (ok-injective {E = PkinitError} nothing)) m)
  ]

  -- A SignedData that verifies has a first signer whose certificate is one of the elements of its
  -- certificates field, which are the certificates returned, with the issuer and the serial number that
  -- the signer names, and whose key verifies the signature over the signed
  -- attributes; their messageDigest is the hash of the returned content and their contentType the
  -- returned type, provided that the constant-time comparison accepts only equal digests.
  pub verify_signed_data-IsVerified :
      (der : Bytes) (v : VerifiedSignedData)
      → verify_signed_data synta crypto library der ≡ ok v
      → IsVerified synta crypto library der v
  unfolding verify_signed_data find_signer_cert
  verify_signed_data-IsVerified der v h =
      let (sd, e0, h0) = >>=-eq-ok (open_signed_data synta crypto library der) _ h in
      let (signer, e1, h1) = >>=-eq-ok (ok_or (first_signer synta crypto library sd) _) _ h0 in
      let (certs, e2, h2) = >>=-eq-ok (certificates_of synta crypto library sd) _ h1 in
      let (ias, e3, h3) = try-eq-ok (library.issuer_and_serial_from_der signer.sid) _ _ h2 in
      let (cert_der, e4, h4) = >>=-eq-ok (find_signer_cert synta crypto library certs ias) _ h3 in
      let (key, e5, h5) = >>=-eq-ok (signer_public_key synta crypto library cert_der) _ h4 in
      let (content, e6, h6) = >>=-eq-ok (ok_or sd.encap_content_info.e_content _) _ h5 in
      let (u, e7, h7) =
        >>=-eq-ok
          (verify_signer synta crypto library key signer content
            sd.encap_content_info.e_content_type)
          _ h6 in
      let (issuer_der, i, s) = try-eq-ok (library.name_to_der ias.issuer) _ _ e4 in
      let (included, (cert, p, q, r)) =
        search_signer-Has synta crypto library issuer_der ias.serial_number certs cert_der s in
      let (raw, has_raw, read) = certificates_of-IsRead sd certs cert_der e2 included in
      subst (IsVerified synta crypto library der) (ok-injective {E = PkinitError} h7) (record {
        signed_data = sd;
        opened = e0;
        signer = signer;
        first = ok_or-eq-ok _ _ signer e1;
        content_is = ok_or-eq-ok _ _ content e6;
        type_is = refl;
        certificates = raw;
        has_certificates = has_raw;
        all_read = read;
        signer_included = included;
        cert = cert;
        cert_parsed = p;
        ias = ias;
        ias_parsed = e3;
        same_serial = q;
        same_issuer = i ∙ ap ok (sym r);
        key = key;
        key_of_signer = e5;
        binds = verify_signer-Binds key signer content _ e7;
      })

  -- Input that verifies as signed is never read as unsigned content too, under the same condition.
  pub verify_signed_data-not_unsigned :
      (der : Bytes) (v : VerifiedSignedData)
      → verify_signed_data synta crypto library der ≡ ok v
      → extract_unsigned_content synta crypto library der
        ≡ err (rejected_cms "SignedData has signers; expected unsigned anonymous content")
  unfolding extract_unsigned_content first_signer
  verify_signed_data-not_unsigned der v h =
      let r = verify_signed_data-IsVerified der v h in
      let some_signer = r.first in
      rw r.opened (elim (List-cases r.signed_data.signer_infos) [
        | inl e ↦ ground (arith, some_signer)
        | inr (s, others, e) ↦ rw e refl
      ])
