-- ===== src/Cms/Roundtrip.antt =====
-- pkinit-core/src/crypto/cms.rs: what is created is read back, with a signer and without one.
use kurbu5_pkinit.Common.{
  ==_refl, Bytes, List, Oid, [], ap, arith, length, length-append, list_eq, map_err-eq-ok, nat_eq,
  ok, option_eq, refl, suc, try-eq-ok, zero, ℕ, ◌++◌, ◌<◌, ◌∷◌, ◌≡◌, ◌≤◌,
}
use kurbu5_pkinit.Common.Int.{ℤ_eq}
use kurbu5_pkinit.Constants.{group_eq, kem_eq}
use kurbu5_pkinit.Synta.{Synta}
use kurbu5_pkinit.Crypto.{Crypto}
use kurbu5_pkinit.Cms.Structures.{CmsLibrary, IssuerAndSerialNumber, SignedData, SignerInfo}
use kurbu5_pkinit.Cms.Sign.{concat_bytes, create_unsigned_data, wrap_signed_data}
use kurbu5_pkinit.Cms.Verify.{
  certificates_loop, extract_certificates, extract_unsigned_content, open_signed_data,
}

-- The ASN.1 library reads the containers that it wrote. A SignedData holds octets that it does not
-- check, so the law is about those whose signer is named by an encoded IssuerAndSerialNumber.
pub record ReadsContainers {H : Type 0} (synta : Synta) (library : CmsLibrary H) : Type 0 where
  pub same_oid : (o p : Oid) → synta.object_identifier o ≡ ok p → p ≡ o
  pub reads_explicit_0 :
      (b der : Bytes) → library.explicit_0_to_der b ≡ ok der → library.enter_explicit_0 der ≡ ok b
  pub reads_content_info :
      (b content der : Bytes) (t : Oid)
      → library.explicit_0_to_der b ≡ ok content
      → library.content_info_to_der (record { content_type = t; content = content }) ≡ ok der
      → library.content_info_from_der der ≡ ok (record { content_type = t; content = content })
  pub reads_unsigned :
      (s : SignedData) (der : Bytes)
      → s.signer_infos ≡ []
      → library.signed_data_to_der s ≡ ok der
      → library.signed_data_from_der der ≡ ok s
  pub reads_signed :
      (s : SignedData) (i : SignerInfo) (ias : IssuerAndSerialNumber) (der : Bytes)
      → s.signer_infos ≡ i ∷ []
      → library.issuer_and_serial_to_der ias ≡ ok i.sid
      → library.signed_data_to_der s ≡ ok der
      → library.signed_data_from_der der ≡ ok s

module _ {H : Type 0} (synta : Synta) (crypto : Crypto H) (library : CmsLibrary H) where
  pub open_signed_data-wrap_signed_data :
      ReadsContainers synta library
      → (s : SignedData) (der : Bytes)
      → ((b : Bytes) → library.signed_data_to_der s ≡ ok b → library.signed_data_from_der b ≡ ok s)
      → wrap_signed_data synta crypto library s ≡ ok der
      → open_signed_data synta crypto library der ≡ ok s
  unfolding wrap_signed_data open_signed_data
  open_signed_data-wrap_signed_data reads s der back h =
      let (b, e0, h0) = try-eq-ok (library.signed_data_to_der s) _ _ h in
      let (wrapped, e1, h1) = try-eq-ok (library.explicit_0_to_der b) _ _ h0 in
      let (t, e2, h2) = try-eq-ok (synta.object_identifier synta.oids.id_signed_data) _ _ h1 in
      let written = map_err-eq-ok _ _ h2 in
      let ci = reads.reads_content_info b wrapped der t e1 written in
      let same = ==_refl t in rw (ci, e2, same, reads.reads_explicit_0 b wrapped e1, back b e0) refl

  -- Content without a signer is read back with its type, when the library reads what it wrote.
  pub extract_unsigned_content-create_unsigned_data :
      (content : Bytes) (content_oid : Oid) (der : Bytes)
      → ReadsContainers synta library
      → create_unsigned_data synta crypto library content content_oid ≡ ok der
      → extract_unsigned_content synta crypto library der ≡ ok (content, content_oid)
  unfolding create_unsigned_data extract_unsigned_content
  extract_unsigned_content-create_unsigned_data content content_oid der reads h =
      let (t, e, k) = try-eq-ok (synta.object_identifier content_oid) _ _ h in
      let opened =
        open_signed_data-wrap_signed_data reads _ der (λ b. reads.reads_unsigned _ b refl) k in
      rw opened (ap (λ x. ok (content, x)) (reads.same_oid content_oid t e))

  -- A certificate is one DER element: a decoder reads it whole and stops after it.
  abbrev pub IsElement : Bytes → Type 0
  IsElement c = (0 < length c) × ((rest : Bytes) → library.decode_raw (c ++ rest) ≡ ok (c, rest))

  abbrev pub AllElements : List Bytes → Type 0
  AllElements [] = Unit
  AllElements (c ∷ cs) = IsElement c × AllElements cs

  certificates_loop-concat_bytes :
      (fuel : ℕ) (certs : List Bytes)
      → length (concat_bytes certs) ≤ fuel
      → AllElements certs
      → certificates_loop synta crypto library fuel (concat_bytes certs) ≡ ok certs
  unfolding certificates_loop concat_bytes
  certificates_loop-concat_bytes fuel [] p a = refl
  certificates_loop-concat_bytes fuel ([] ∷ cs) p ((q, r), rest) = absurd (omega arith)
  certificates_loop-concat_bytes zero ((b ∷ bs) ∷ cs) p ((q, r), rest) = absurd (omega arith)
  certificates_loop-concat_bytes (suc fuel) ((b ∷ bs) ∷ cs) p ((q, r), rest) =
      let l = length-append bs (concat_bytes cs) in
      rw (r (concat_bytes cs), certificates_loop-concat_bytes fuel cs (omega arith) rest) refl

  -- The certificates that were written one after the other are the ones that the loop returns, when
  -- each is one DER element.
  pub extract_certificates-concat_bytes :
      (certs : List Bytes)
      → AllElements certs
      → extract_certificates synta crypto library (concat_bytes certs) ≡ ok certs
  unfolding extract_certificates
  extract_certificates-concat_bytes certs a =
      certificates_loop-concat_bytes (length (concat_bytes certs)) certs (omega arith) a
