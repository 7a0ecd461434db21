-- ===== src/Cms/Loops.antt =====
-- pkinit-core/src/crypto/cms.rs: the loops over a decoder end, and what they find.
use mathlib.Core.Path.{subst}
use kurbu5_pkinit.Common.{
  ==_iff, >>=-eq-ok, Bool-cases, Bytes, Has, List, Oid, Result, Result-cases, [], arith, inl, inr,
  length, list_eq, nat_eq, ok, ok-injective, option_eq, refl, some, suc, sym, try-eq-ok, zero, ℕ,
  ◌&&◌, ◌<◌, ◌==◌, ◌∷◌, ◌≡◌, ◌≢◌, ◌≤◌,
}
use kurbu5_pkinit.Common.Int.{ℤ, ℤ_eq}
use kurbu5_pkinit.Error.{Fault, PkinitError}
use kurbu5_pkinit.Synta.{Certificate, Synta}
use kurbu5_pkinit.Crypto.{Crypto}
use kurbu5_pkinit.Cms.Structures.{Attribute, CmsLibrary}
use kurbu5_pkinit.Cms.Verify.{certificates_loop, first_attribute, search_signer}

-- A decoder that read an element has fewer octets left.
abbrev pub Shortens : {A : Type 0} → (Bytes → Result Fault (A × Bytes)) → Type 0
Shortens {A} decode =
    (b : Bytes) (a : A) (rest : Bytes) → decode b ≡ ok (a, rest) → length rest < length b

-- `attr` is the first attribute of the type `id` among those that a decoder reads.
pub data IsFirst {H : Type 0} (library : CmsLibrary H) (id : Oid) : Bytes → Attribute → Type 0 where
  here :
      (b rest : Bytes) (attr : Attribute)
      → library.decode_attribute b ≡ ok (attr, rest)
      → attr.attr_type ≡ id
      → IsFirst library id b attr
  later :
      (b rest : Bytes) (other attr : Attribute)
      → library.decode_attribute b ≡ ok (other, rest)
      → other.attr_type ≢ id
      → IsFirst library id rest attr
      → IsFirst library id b attr

-- A decoder reads these elements one after the other, and then nothing is left.
abbrev pub IsRead : {H : Type 0} → CmsLibrary H → Bytes → List Bytes → Type 0
IsRead library b [] = b ≡ []
IsRead library b (c ∷ certs) =
    (rest : Bytes) × (library.decode_raw b ≡ ok (c, rest)) × IsRead library rest certs

module _ {H : Type 0} (synta : Synta) (crypto : Crypto H) (library : CmsLibrary H) where
  certificates_loop_enough :
      Shortens library.decode_raw
      → (f g : ℕ) (b : Bytes) → length b ≤ f
      → length b ≤ g
      → certificates_loop synta crypto library f b ≡ certificates_loop synta crypto library g b
  unfolding certificates_loop
  certificates_loop_enough s f g [] p q = refl
  certificates_loop_enough s zero g (b ∷ bs) p q = absurd (omega arith)
  certificates_loop_enough s (suc f) zero (b ∷ bs) p q = absurd (omega arith)
  certificates_loop_enough s (suc f) (suc g) (b ∷ bs) p q =
      elim (Result-cases (library.decode_raw (b ∷ bs))) [
        | inl ((c, rest), e) ↦
            let l = s (b ∷ bs) c rest e in
            rw (e, certificates_loop_enough s f g rest (omega arith) (omega arith)) refl
        | inr (fault, e) ↦ rw e refl
      ]

  pub certificates_loop-IsRead :
      (fuel : ℕ) (b : Bytes) (certs : List Bytes)
      → certificates_loop synta crypto library fuel b ≡ ok certs
      → IsRead library b certs
  unfolding certificates_loop
  certificates_loop-IsRead fuel [] certs h =
      subst (IsRead library []) (ok-injective {E = PkinitError} h) refl
  certificates_loop-IsRead zero (b ∷ bs) certs h = absurd (ground arith)
  certificates_loop-IsRead (suc fuel) (b ∷ bs) certs h =
      let ((c, rest), e, h1) = try-eq-ok (library.decode_raw (b ∷ bs)) _ _ h in
      let (cs, l, h2) = >>=-eq-ok (certificates_loop synta crypto library fuel rest) _ h1 in
      subst (IsRead library (b ∷ bs)) (ok-injective {E = PkinitError} h2)
        (rest, e, certificates_loop-IsRead fuel rest cs l)

  pub first_attribute-IsFirst :
      (fuel : ℕ) (id : Oid) (b : Bytes) (attr : Attribute)
      → first_attribute synta crypto library fuel id b ≡ ok (some attr)
      → IsFirst library id b attr
  unfolding first_attribute
  first_attribute-IsFirst fuel id [] attr h = cc
  first_attribute-IsFirst zero id (b ∷ bs) attr h = cc
  first_attribute-IsFirst (suc fuel) id (b ∷ bs) attr h =
      let ((a, rest), e, k) = try-eq-ok (library.decode_attribute (b ∷ bs)) _ _ h in
      elim (Bool-cases (a.attr_type == id)) [
        | inl t ↦
            let same : a ≡ attr = ground arith in
            subst (IsFirst library id (b ∷ bs)) same
              (here (b ∷ bs) rest a e ((==_iff a.attr_type id).0 t))
        | inr t ↦
            later (b ∷ bs) rest a attr e (λ q. ground (arith, ==_iff a.attr_type id))
              (first_attribute-IsFirst fuel id rest attr (ground arith))
      ]

  -- The search gives a certificate of the list, with the issuer and the serial number asked for.
  pub search_signer-Has :
      (issuer_der : Bytes) (serial : ℤ) (certs : List Bytes) (found : Bytes)
      → search_signer synta crypto library issuer_der serial certs ≡ ok found
      → Has found certs
        × ((cert : Certificate) × (synta.certificate_from_der found ≡ ok cert)
            × (cert.serial_number ≡ serial)
            × (cert.issuer ≡ issuer_der))
  unfolding search_signer
  search_signer-Has issuer_der serial [] found h = cc
  search_signer-Has issuer_der serial (c ∷ certs) found h =
      let (cert, e, k) = try-eq-ok (synta.certificate_from_der c) _ _ h in
      elim (Bool-cases (cert.serial_number == serial && cert.issuer == issuer_der)) [
        | inl t ↦
            let same : c ≡ found = ground arith in
            let s : cert.serial_number ≡ serial =
              ground (arith, ==_iff cert.serial_number serial) in
            let i : cert.issuer ≡ issuer_der = ground (arith, ==_iff cert.issuer issuer_der) in
            (
              inl (sym same),
              (cert, subst (λ x. synta.certificate_from_der x ≡ ok cert) same e, s, i),
            )
        | inr t ↦
            let (m, rest) = search_signer-Has issuer_der serial certs found (ground arith) in
            (inr m, rest)
      ]
