-- ===== src/Cms/Signed.antt =====
-- pkinit-core/src/crypto/cms.rs: a SignedData that was created verifies.
use mathlib.Core.List.{append-nil}
use mathlib.Core.Path.{subst}
use kurbu5_pkinit.Common.{
  ==_iff, ==_refl, Bytes, List, Oid, Option, Text, [], ap, arith, false, inl, inr, length,
  length-append, list_eq, map_err-eq-ok, nat_eq, ok, ok-injective, option_eq, refl, some, suc, sym,
  true, try-eq-ok, zero, ℕ, ◌++◌, ◌<◌, ◌==◌, ◌^◌, ◌∙◌, ◌∷◌, ◌≡◌, ◌≢◌, ◌≤◌, ◌⊎◌,
}
use kurbu5_pkinit.Common.Int.{ℤ_eq}
use kurbu5_pkinit.Error.{Message}
use kurbu5_pkinit.Constants.{group_eq, kem_eq}
use kurbu5_pkinit.Synta.{AlgorithmIdentifier, Synta}
use kurbu5_pkinit.Crypto.{Crypto}
use kurbu5_pkinit.KemTypes.{der_encode_length}
use kurbu5_pkinit.Cms.Structures.{Attribute, CmsLibrary, IssuerAndSerialNumber}
use kurbu5_pkinit.Cms.Sign.{build_signed_attrs, issuer_and_serial_der}
use kurbu5_pkinit.Cms.Verify.{
  find_signer_cert, first_attribute, retag_as_set, search_signer, signer_public_key,
  verify_content_type, verify_message_digest,
}

-- A decoder at the octets of an attribute reads it and stops after it.
abbrev pub IsReadAs : {H : Type 0} → CmsLibrary H → Attribute → Bytes → Type 0
IsReadAs library attr der =
    (0 < length der) × ((rest : Bytes) → library.decode_attribute (der ++ rest) ≡ ok (attr, rest))

-- The library reads a signer's parts as it wrote them, and sorts the elements of a SET.
pub record ReadsSigner {H : Type 0} (synta : Synta) (library : CmsLibrary H) : Type 0 where
  pub reads_type :
      (id value : Oid) (vals der : Bytes)
      → library.set_of_oids_to_der (value ∷ []) ≡ ok vals
      → library.attribute_to_der (record { attr_type = id; attr_values = vals }) ≡ ok der
      → IsReadAs library (record { attr_type = id; attr_values = vals }) der
        × ((inner : Bytes) × (library.enter_set vals ≡ ok inner)
            × (library.decode_oid inner ≡ ok value))
  pub reads_digest :
      (id : Oid) (value vals der : Bytes)
      → library.set_of_octet_strings_to_der (value ∷ []) ≡ ok vals
      → library.attribute_to_der (record { attr_type = id; attr_values = vals }) ≡ ok der
      → IsReadAs library (record { attr_type = id; attr_values = vals }) der
        × ((inner : Bytes) × (library.enter_set vals ≡ ok inner)
            × (library.decode_octet_string inner ≡ ok value))
  pub sorts :
      (a b s c : Bytes)
      → library.set_of_raw_to_der (a ∷ b ∷ []) ≡ ok s
      → library.enter_set s ≡ ok c
      → length c < 2 ^ 32
      → ((c ≡ a ++ b) ⊎ (c ≡ b ++ a)) × (s ≡ 0x31 ∷ der_encode_length (length c) ++ c)
  pub reads_name :
      (der name : Bytes) → library.name_from_der der ≡ ok name → library.name_to_der name ≡ ok der
  pub reads_ias :
      (i : IssuerAndSerialNumber) (der : Bytes)
      → library.issuer_and_serial_to_der i ≡ ok der
      → library.issuer_and_serial_from_der der ≡ ok i
  pub reads_alg_id :
      (der : Bytes) (a : AlgorithmIdentifier)
      → synta.alg_id_from_der der ≡ ok a
      → library.alg_id_to_der a ≡ ok der
  pub reads_digest_alg :
      (name : Text) (a : AlgorithmIdentifier)
      → library.digest_alg_id name ≡ some a
      → synta.digest_oid_to_name a.algorithm ≡ some name
  pub ids_differ : synta.oids.pkcs9_content_type ≢ synta.oids.pkcs9_message_digest

-- A private key and a certificate that belong together, for one digest.
pub record IsKeyPair {H : Type 0} (synta : Synta) (crypto : Crypto H) (library : CmsLibrary H)
    (key : H) (cert_der : Bytes) (hash_algorithm : Text) : Type 0 where
  pub public : H
  pub is_public : signer_public_key synta crypto library cert_der ≡ ok public
  pub verifies :
      (message sig_alg signature : Bytes)
      → library.signature_algorithm_der (library.as_signer key hash_algorithm) ≡ ok sig_alg
      → library.sign_tbs (library.as_signer key hash_algorithm) message ≡ ok signature
      → library.verify_signature public message sig_alg signature ≡ ok tt

module _ {H : Type 0} (synta : Synta) (crypto : Crypto H) (library : CmsLibrary H) where
  first_attribute-here :
      (fuel : ℕ) (id : Oid) (attr : Attribute) (der rest : Bytes)
      → IsReadAs library attr der
      → length (der ++ rest) ≤ fuel
      → attr.attr_type ≡ id
      → first_attribute synta crypto library fuel id (der ++ rest) ≡ ok (some attr)
  unfolding first_attribute
  first_attribute-here fuel id attr [] rest (p, r) l e = absurd (omega arith)
  first_attribute-here zero id attr (b ∷ bs) rest (p, r) l e = absurd (omega arith)
  first_attribute-here (suc fuel) id attr (b ∷ bs) rest (p, r) l e =
      let t = (==_iff attr.attr_type id).1 e in rw (r rest, t) refl

  first_attribute-skip :
      (fuel : ℕ) (id : Oid) (attr : Attribute) (der rest : Bytes) (found : Option Attribute)
      → IsReadAs library attr der
      → length (der ++ rest) ≤ fuel
      → attr.attr_type ≢ id
      → ((left : ℕ)
          → length rest ≤ left
          → first_attribute synta crypto library left id rest ≡ ok found)
      → first_attribute synta crypto library fuel id (der ++ rest) ≡ ok found
  unfolding first_attribute
  first_attribute-skip fuel id attr [] rest found (p, r) l n k = absurd (omega arith)
  first_attribute-skip zero id attr (b ∷ bs) rest found (p, r) l n k = absurd (omega arith)
  first_attribute-skip (suc fuel) id attr (b ∷ bs) rest found (p, r) l n k =
      let t : attr.attr_type == id ≡ false = ground (arith, ==_iff attr.attr_type id) in
      let m = length-append bs rest in rw (r rest, t) (k fuel (omega arith))

  -- Of two attributes of different types, in either order, the first of a type is the one that has it.
  first_attribute-either :
      (id : Oid) (a b : Attribute) (da db c : Bytes)
      → IsReadAs library a da
      → IsReadAs library b db
      → a.attr_type ≡ id
      → b.attr_type ≢ id
      → (c ≡ da ++ db) ⊎ (c ≡ db ++ da)
      → first_attribute synta crypto library (length c) id c ≡ ok (some a)
  first_attribute-either id a b da db c ra rb e n (inl q) =
      rw q (first_attribute-here (length (da ++ db)) id a da db ra (omega arith) e)
  first_attribute-either id a b da db c ra rb e n (inr q) = rw q (
      first_attribute-skip (length (db ++ da)) id b db da (some a) rb (omega arith) n (λ left l.
        subst (λ x. first_attribute synta crypto library left id x ≡ ok (some a)) (append-nil da)
          (first_attribute-here left id a da [] ra
            (subst (λ x. length x ≤ left) (sym (append-nil da)) l) e)))

  module _ (reads : ReadsSigner synta library)
      (same_oid : (o p : Oid) → synta.object_identifier o ≡ ok p → p ≡ o)
      (ct_eq_refl : (a : Bytes) → crypto.ct_eq a a ≡ true) where
    -- What `build_signed_attrs` writes passes both checks of the attributes.
    pub build_signed_attrs-accepted :
        (content_oid : Oid) (digest to_sign attrs : Bytes)
        → length attrs < 2 ^ 32
        → build_signed_attrs synta crypto library content_oid digest ≡ ok (to_sign, attrs)
        → (verify_message_digest synta crypto library attrs digest ≡ ok tt)
          × (verify_content_type synta crypto library attrs content_oid ≡ ok tt)
          × (to_sign ≡ retag_as_set attrs)
    unfolding build_signed_attrs verify_message_digest verify_content_type retag_as_set
    build_signed_attrs-accepted content_oid digest to_sign attrs short h =
        let (id_ct, e0, h0) =
          try-eq-ok (synta.object_identifier synta.oids.pkcs9_content_type) _ _ h in
        let (id_md, e1, h1) =
          try-eq-ok (synta.object_identifier synta.oids.pkcs9_message_digest) _ _ h0 in
        let (ct_vals, e2, h2) = try-eq-ok (library.set_of_oids_to_der (content_oid ∷ [])) _ _ h1 in
        let (ct_der, e3, h3) = try-eq-ok (library.attribute_to_der _) _ _ h2 in
        let (md_vals, e4, h4) =
          try-eq-ok (library.set_of_octet_strings_to_der (digest ∷ [])) _ _ h3 in
        let (md_der, e5, h5) = try-eq-ok (library.attribute_to_der _) _ _ h4 in
        let (s, e6, h6) = try-eq-ok (library.set_of_raw_to_der (ct_der ∷ md_der ∷ [])) _ _ h5 in
        let (c, e7, h7) = try-eq-ok (library.enter_set s) _ _ h6 in
        let pair = ok-injective {E = Message} h7 in
        let entered : library.enter_set s ≡ ok attrs = e7 ∙ ap (λ x. ok (x.1)) pair in
        let written = e6 ∙ ap (λ x. ok (x.0)) pair in
        let (order, tagged) =
          reads.sorts ct_der md_der to_sign attrs written
            (subst (λ x. library.enter_set x ≡ ok attrs) (ap (λ x. x.0) pair) entered) short in
        let (ct_read, (ct_inner, ct_in, ct_value)) =
          reads.reads_type id_ct content_oid ct_vals ct_der e2 e3 in
        let (md_read, (md_inner, md_in, md_value)) =
          reads.reads_digest id_md digest md_vals md_der e4 e5 in
        let differ : id_ct ≢ id_md =
          λ q. reads.ids_differ (sym (same_oid _ id_ct e0) ∙ q ∙ same_oid _ id_md e1) in
        let md_found =
          first_attribute-either id_md (record { attr_type = id_md; attr_values = md_vals })
            (record { attr_type = id_ct; attr_values = ct_vals }) md_der ct_der attrs md_read
            ct_read refl differ (elim order [ inl q ↦ inr q | inr q ↦ inl q ]) in
        let ct_found =
          first_attribute-either id_ct (record { attr_type = id_ct; attr_values = ct_vals })
            (record { attr_type = id_md; attr_values = md_vals }) ct_der md_der attrs ct_read
            md_read refl (λ q. differ (sym q)) order in
        (
          rw (e1, md_found, md_in, md_value, ct_eq_refl digest) refl,
          rw (e0, ct_found, ct_in, ct_value, ==_refl content_oid) refl,
          tagged,
        )

    -- The signer's own certificate, which is written first, is the one that is found.
    pub find_signer_cert-first :
        (cert_der sid : Bytes) (others : List Bytes)
        → issuer_and_serial_der synta crypto library cert_der ≡ ok sid
        → (ias : IssuerAndSerialNumber) × (library.issuer_and_serial_to_der ias ≡ ok sid)
          × (library.issuer_and_serial_from_der sid ≡ ok ias)
          × (find_signer_cert synta crypto library (cert_der ∷ others) ias ≡ ok cert_der)
    unfolding issuer_and_serial_der find_signer_cert search_signer
    find_signer_cert-first cert_der sid others h =
        let (cert, e0, h0) = try-eq-ok (synta.certificate_from_der cert_der) _ _ h in
        let (name, e1, h1) = try-eq-ok (library.name_from_der cert.issuer) _ _ h0 in
        let written = map_err-eq-ok _ _ h1 in
        let serial = ==_refl cert.serial_number in
        let issuer = ==_refl cert.issuer in
        (
          record { issuer = name; serial_number = cert.serial_number },
          written,
          reads.reads_ias _ sid written,
          rw (reads.reads_name cert.issuer name e1, e0, serial, issuer) refl,
        )
