-- ===== src/Examples/Signatures.antt =====
-- CMS at concrete inputs: a library that reads what it writes, and one signer.
use mathlib.Core.Logic.{ite, if_pos, if_neg}
use mathlib.Core.Path.{subst}
use native.Mathlib.Decide.{ℕ_discrete}
use kurbu5_pkinit.Common.{
  ==_iff, ==_refl, Bool-cases, Bytes, List, Oid, Result, Text, [], ap, arith, drop,
  drop-length-append, err, if◌then◌else◌, inl, inr, length, list_beq_iff, list_eq, ltb, nat_eq,
  none, ok, ok-injective, option_eq, refl, some, sym, take, take-length-append, true, ◌%◌, ◌++◌,
  ◌<◌, ◌==◌, ◌^◌, ◌∙◌, ◌∷◌, ◌≡◌, ◌⊎◌,
}
use kurbu5_pkinit.Common.Int.{negsuc, pos, ℤ, ℤ_eq}
use kurbu5_pkinit.Error.{Fault}
use kurbu5_pkinit.Synta.{AlgorithmIdentifier}
use kurbu5_pkinit.Constants.{codes, group_eq, kem_eq}
use kurbu5_pkinit.KemTypes.{der_encode_length}
use kurbu5_pkinit.Cms.{VerifiedSignedData}
use kurbu5_pkinit.Cms.Structures.{Attribute, CmsLibrary, IssuerAndSerialNumber, SignedData}
use kurbu5_pkinit.Cms.Sign.{
  build_signed_attrs, create_signed_data, create_unsigned_data, created_signed_data,
  created_signer_info,
}
use kurbu5_pkinit.Cms.Verify.{
  extract_unsigned_content, rejected_cms, signer_public_key, verify_signed_data,
}
use kurbu5_pkinit.Cms.Loops.{Shortens}
use kurbu5_pkinit.Cms.Verified.{
  IsVerified, verify_signed_data-IsVerified, verify_signed_data-not_unsigned,
}
use kurbu5_pkinit.Cms.Roundtrip.{ReadsContainers, extract_unsigned_content-create_unsigned_data}
use kurbu5_pkinit.Cms.Signed.{IsKeyPair, IsReadAs, ReadsSigner}
use kurbu5_pkinit.Cms.Interop.{CanSign, verify_signed_data-create_signed_data}
use kurbu5_pkinit.Examples.Toy.{failure, oid, toy_crypto, toy_synta}

signed_data_discrete : Discrete SignedData
signed_data_discrete = hlevel (ℕ_discrete)

-- The two structures that the toy codec knows: one without a signer, and one with.
abbrev toy_unsigned : SignedData
toy_unsigned = record {
  version = pos 3;
  digest_algorithms = [];
  encap_content_info = record { e_content_type = oid 7; e_content = some (oid 5) };
  certificates = none;
  crls = none;
  signer_infos = [];
}

abbrev toy_attrs : Bytes
toy_attrs = 28 ∷ 3 ∷ 0x31 ∷ 1 ∷ 7 ∷ 29 ∷ 3 ∷ 0x31 ∷ 1 ∷ 5 ∷ []

abbrev toy_sha256 : AlgorithmIdentifier
toy_sha256 = record { algorithm = oid 18; parameters = none }

abbrev toy_signed : SignedData
toy_signed = created_signed_data toy_sha256 (oid 7) (oid 5) (90 ∷ 95 ∷ []) (
    created_signer_info (oid 1) toy_sha256 toy_attrs
      (record { algorithm = oid 22; parameters = none }) (0x31 ∷ 10 ∷ toy_attrs))

unfoldable toy_signed_data_to_der : SignedData → Result Fault Bytes
unfolding signed_data_discrete ℕ_discrete
toy_signed_data_to_der s =
    ite (signed_data_discrete s toy_unsigned) (ok (oid 61))
      (ite (signed_data_discrete s toy_signed) (ok (oid 62)) (err failure))

unfoldable toy_signed_data_from_der : Bytes → Result Fault SignedData
toy_signed_data_from_der b = if b == oid 61 then ok toy_unsigned else ok toy_signed

unfoldable toy_attribute_to_der : Attribute → Result Fault Bytes
toy_attribute_to_der a = elim a.attr_type [
  | n ∷ [] ↦ ok (n ∷ length a.attr_values ∷ a.attr_values)
  | _ ↦ err failure
]

unfoldable toy_decode_attribute : Bytes → Result Fault (Attribute × Bytes)
toy_decode_attribute (n ∷ l ∷ bs) =
    ok (record { attr_type = oid n; attr_values = take l bs }, drop l bs)
toy_decode_attribute _ = err failure

unfoldable toy_enter_set : Bytes → Result Fault Bytes
toy_enter_set (t ∷ l ∷ content) = ok content
toy_enter_set _ = err failure

unfoldable toy_set_of_one : List Bytes → Result Fault Bytes
toy_set_of_one (v ∷ []) = ok (0x31 ∷ length v ∷ v)
toy_set_of_one _ = err failure

unfoldable toy_set_of_raw : List Bytes → Result Fault Bytes
toy_set_of_raw (a ∷ b ∷ []) =
    if ltb (length (a ++ b)) 128 then ok (0x31 ∷ length (a ++ b) ∷ a ++ b) else err failure
toy_set_of_raw _ = err failure

unfoldable toy_ias_to_der : IssuerAndSerialNumber → Result Fault Bytes
toy_ias_to_der i = elim i.serial_number [ pos n ↦ ok (n ∷ i.issuer) | negsuc n ↦ err failure ]

unfoldable toy_ias_from_der : Bytes → Result Fault IssuerAndSerialNumber
toy_ias_from_der (n ∷ i) = ok (record { issuer = i; serial_number = pos n })
toy_ias_from_der _ = err failure

unfoldable toy_decode_raw : Bytes → Result Fault (Bytes × Bytes)
toy_decode_raw (b ∷ bs) = ok (b ∷ [], bs)
toy_decode_raw [] = err failure

abbrev toy_library : CmsLibrary Bytes
toy_library = record {
  content_info_to_der = λ c. if c.content_type == oid 27 then ok c.content else err failure;
  content_info_from_der = λ b. ok (record { content_type = oid 27; content = b });
  signed_data_to_der = toy_signed_data_to_der;
  signed_data_from_der = toy_signed_data_from_der;
  attribute_to_der = toy_attribute_to_der;
  decode_attribute = toy_decode_attribute;
  decode_raw = toy_decode_raw;
  decode_octet_string = λ b. ok b;
  decode_oid = λ b. ok b;
  explicit_0_to_der = λ b. ok b;
  enter_explicit_0 = λ b. ok b;
  enter_set = toy_enter_set;
  set_of_oids_to_der = toy_set_of_one;
  set_of_octet_strings_to_der = toy_set_of_one;
  set_of_raw_to_der = toy_set_of_raw;
  name_from_der = λ b. ok b;
  name_to_der = λ b. ok b;
  issuer_and_serial_to_der = toy_ias_to_der;
  issuer_and_serial_from_der = toy_ias_from_der;
  alg_id_to_der = λ a. ok a.algorithm;
  digest_alg_id = λ n. if n == codes "sha256" then some toy_sha256 else none;
  as_signer = λ k n. k;
  signature_algorithm_der = λ k. ok (oid 22);
  sign_tbs = λ k m. ok m;
  backend_public_key = λ b. ok b;
  verify_signature = λ k m a s. if m == s then ok tt else err failure;
}

created :
    create_signed_data toy_synta toy_crypto toy_library
      (oid 5)
      (oid 7)
      (oid 92)
      (oid 90)
      (oid 95 ∷ [])
      (codes "sha256")
    ≡ ok (oid 62)
unfolding create_signed_data kurbu5_pkinit.Common.list_beq kurbu5_pkinit.Cms.Sign.build_signed_attrs
    toy_set_of_one toy_attribute_to_der toy_set_of_raw toy_enter_set
    kurbu5_pkinit.Cms.Sign.issuer_and_serial_der toy_ias_to_der
    kurbu5_pkinit.Cms.Sign.wrap_signed_data toy_signed_data_to_der
    kurbu5_pkinit.Cms.Sign.concat_bytes
created = refl

unsigned_created :
    create_unsigned_data toy_synta toy_crypto toy_library (oid 5) (oid 7) ≡ ok (oid 61)
unfolding create_unsigned_data kurbu5_pkinit.Cms.Sign.wrap_signed_data toy_signed_data_to_der
    kurbu5_pkinit.Common.list_beq
unsigned_created = refl

toy_reads :
    (s : SignedData) (der : Bytes)
    → toy_signed_data_to_der s ≡ ok der
    → toy_signed_data_from_der der ≡ ok s
unfolding toy_signed_data_to_der toy_signed_data_from_der kurbu5_pkinit.Common.list_beq
toy_reads s der h = elim (signed_data_discrete s toy_unsigned) [
  | yes p ↦
      let e : oid 61 ≡ der =
        ok-injective {E = Fault} (sym (if_pos (signed_data_discrete s toy_unsigned) p _ _) ∙ h) in
      subst (λ x. toy_signed_data_from_der x ≡ ok s) e (ap ok (sym p))
  | no n ↦
      let k = sym (if_neg (signed_data_discrete s toy_unsigned) n _ _) ∙ h in
      elim (signed_data_discrete s toy_signed) [
        | yes p ↦
            let e : oid 62 ≡ der =
              ok-injective {E = Fault}
                (sym (if_pos (signed_data_discrete s toy_signed) p _ _) ∙ k) in
            subst (λ x. toy_signed_data_from_der x ≡ ok s) e (ap ok (sym p))
        | no m ↦
            let bad = sym (if_neg (signed_data_discrete s toy_signed) m _ _) ∙ k in
            absurd (ground arith)
      ]
]

toy-ReadsContainers : ReadsContainers toy_synta toy_library
unfolding kurbu5_pkinit.Common.list_beq
toy-ReadsContainers = record {
  same_oid = λ o p h. sym (ok-injective {E = Fault} h);
  reads_explicit_0 = λ b der h. sym h;
  reads_content_info = λ b content der t e h. ground (arith, list_beq_iff t (oid 27));
  reads_unsigned = λ s der e h. toy_reads s der h;
  reads_signed = λ s i ias der e n h. toy_reads s der h;
}

toy_element-IsReadAs :
    (id : Oid) (vals der : Bytes)
    → toy_attribute_to_der (record { attr_type = id; attr_values = vals }) ≡ ok der
    → IsReadAs toy_library (record { attr_type = id; attr_values = vals }) der
unfolding toy_attribute_to_der toy_decode_attribute
toy_element-IsReadAs [] vals der h = cc
toy_element-IsReadAs (n ∷ []) vals der h =
    subst (IsReadAs toy_library (record { attr_type = oid n; attr_values = vals }))
      (ok-injective {E = Fault} h)
      (omega arith, λ rest. rw (take-length-append vals rest, drop-length-append vals rest) refl)
toy_element-IsReadAs (n ∷ m ∷ id) vals der h = cc

toy_sorts :
    (a b s c : Bytes)
    → toy_set_of_raw (a ∷ b ∷ []) ≡ ok s
    → toy_enter_set s ≡ ok c
    → ((c ≡ a ++ b) ⊎ (c ≡ b ++ a)) × (s ≡ 0x31 ∷ der_encode_length (length c) ++ c)
unfolding toy_set_of_raw toy_enter_set der_encode_length
toy_sorts a b s c w h = elim (Bool-cases (ltb (length (a ++ b)) 128)) [
  | inl t ↦
      let p : 0x31 ∷ length (a ++ b) ∷ a ++ b ≡ s = ground arith in
      let q : a ++ b ≡ c =
        ok-injective {E = Fault} (subst (λ x. toy_enter_set x ≡ ok c) (sym p) h) in
      (
        inl (sym q),
        sym p
            ∙ subst
                (λ x. 0x31 ∷ length (a ++ b) ∷ a ++ b ≡ 0x31 ∷ der_encode_length (length x) ++ x) q
                (tagged (a ++ b) t),
      )
  | inr t ↦ absurd (ground arith)
]
  where
    tagged :
        (x : Bytes)
        → ltb (length x) 128 ≡ true
        → 0x31 ∷ length x ∷ x ≡ 0x31 ∷ der_encode_length (length x) ++ x
    tagged x t = let m : length x % 256 ≡ length x = ground arith in rw (t, m) refl

toy_reads_ias_parts :
    (name : Bytes) (serial : ℤ) (der : Bytes)
    → toy_ias_to_der (record { issuer = name; serial_number = serial }) ≡ ok der
    → toy_ias_from_der der ≡ ok (record { issuer = name; serial_number = serial })
unfolding toy_ias_to_der toy_ias_from_der
toy_reads_ias_parts name (pos n) der h =
    subst (λ x. toy_ias_from_der x ≡ ok (record { issuer = name; serial_number = pos n }))
      (ok-injective {E = Fault} h) refl
toy_reads_ias_parts name (negsuc n) der h = cc

toy_reads_digest :
    (name : Text) (a : AlgorithmIdentifier)
    → toy_library.digest_alg_id name ≡ some a
    → toy_synta.digest_oid_to_name a.algorithm ≡ some name
unfolding kurbu5_pkinit.Common.list_beq
toy_reads_digest name a h = elim (Bool-cases (name == codes "sha256")) [
  | inl t ↦
      let n = (==_iff name (codes "sha256")).0 t in
      let p : toy_sha256 ≡ a = ground arith in
      subst (λ x. toy_synta.digest_oid_to_name x.algorithm ≡ some name) p (ap some (sym n))
  | inr t ↦ absurd (ground arith)
]

toy-ReadsSigner : ReadsSigner toy_synta toy_library
unfolding toy_set_of_one toy_enter_set toy_set_of_raw kurbu5_pkinit.Common.list_beq
toy-ReadsSigner = record {
  reads_type = λ id value vals der v h. (
    toy_element-IsReadAs id vals der h,
    (value, subst (λ x. toy_enter_set x ≡ ok value) (ok-injective {E = Fault} v) refl, refl),
  );
  reads_digest = λ id value vals der v h. (
    toy_element-IsReadAs id vals der h,
    (value, subst (λ x. toy_enter_set x ≡ ok value) (ok-injective {E = Fault} v) refl, refl),
  );
  sorts = λ a b s c w h short. toy_sorts a b s c w h;
  reads_name = λ der name h. sym h;
  reads_ias = λ i der h. toy_reads_ias_parts i.issuer i.serial_number der h;
  reads_alg_id = λ der a h. ap (λ x. ok (x.algorithm)) (sym (ok-injective {E = Fault} h));
  reads_digest_alg = λ name a h. toy_reads_digest name a h;
  ids_differ = λ h. ground arith;
}

toy-IsKeyPair : IsKeyPair toy_synta toy_crypto toy_library (oid 92) (oid 90) (codes "sha256")
unfolding signer_public_key kurbu5_pkinit.Common.list_beq
toy-IsKeyPair = record {
  public = [];
  is_public = refl;
  verifies = λ m a s e v.
      let same = ok-injective {E = Fault} v in let t = (==_iff m s).1 same in rw t refl;
}

toy_short :
    (digest to_sign attrs : Bytes)
    → build_signed_attrs toy_synta toy_crypto toy_library (oid 7) digest ≡ ok (to_sign, attrs)
    → length attrs < 2 ^ 32
unfolding build_signed_attrs toy_set_of_one toy_attribute_to_der toy_set_of_raw toy_enter_set
toy_short digest to_sign attrs h = ground arith

toy-CanSign :
    CanSign toy_synta toy_crypto toy_library
      (oid 92)
      (oid 90)
      (oid 95 ∷ [])
      (oid 5)
      (oid 7)
      (codes "sha256")
unfolding toy_decode_raw
toy-CanSign = record {
  containers = toy-ReadsContainers;
  parts = toy-ReadsSigner;
  ct_eq_refl = λ a. ==_refl a;
  key_pair = toy-IsKeyPair;
  elements = ((omega arith, λ rest. refl), ((omega arith, λ rest. refl), tt));
  short = λ digest to_sign attrs h. toy_short digest to_sign attrs h;
}

verify_signed_data-create_signed_data_example :
    (sig_alg : Oid) × (verify_signed_data toy_synta toy_crypto toy_library (oid 62)
      ≡ ok (record {
        content = oid 5;
        content_type = oid 7;
        signer_cert_der = oid 90;
        all_certs_der = oid 90 ∷ oid 95 ∷ [];
        signer_algorithm_oid = sig_alg;
      }))
verify_signed_data-create_signed_data_example =
    verify_signed_data-create_signed_data toy_synta toy_crypto toy_library (oid 92) (oid 90)
      (oid 95 ∷ []) (oid 5) (oid 7) (codes "sha256") (oid 62) toy-CanSign created

extract_unsigned_content-create_unsigned_data_example :
    extract_unsigned_content toy_synta toy_crypto toy_library (oid 61) ≡ ok (oid 5, oid 7)
extract_unsigned_content-create_unsigned_data_example =
    extract_unsigned_content-create_unsigned_data toy_synta toy_crypto toy_library (oid 5) (oid 7)
      (oid 61) toy-ReadsContainers unsigned_created

abbrev toy_verified_data : VerifiedSignedData
toy_verified_data = record {
  content = oid 5;
  content_type = oid 7;
  signer_cert_der = oid 90;
  all_certs_der = oid 90 ∷ oid 95 ∷ [];
  signer_algorithm_oid = oid 22;
}

data_verified : verify_signed_data toy_synta toy_crypto toy_library (oid 62) ≡ ok toy_verified_data
unfolding verify_signed_data kurbu5_pkinit.Common.list_beq toy_signed_data_from_der toy_decode_raw
    toy_ias_from_der kurbu5_pkinit.Common.Int.ℤ_beq toy_decode_attribute toy_enter_set
    der_encode_length
data_verified = refl

verify_signed_data-IsVerified_example :
    IsVerified toy_synta toy_crypto toy_library (oid 62) toy_verified_data
verify_signed_data-IsVerified_example =
    verify_signed_data-IsVerified toy_synta toy_crypto toy_library (λ a b h. (==_iff a b).0 h)
      (oid 62) toy_verified_data data_verified

verify_signed_data-not_unsigned_example :
    extract_unsigned_content toy_synta toy_crypto toy_library (oid 62)
    ≡ err (rejected_cms "SignedData has signers; expected unsigned anonymous content")
verify_signed_data-not_unsigned_example =
    verify_signed_data-not_unsigned toy_synta toy_crypto toy_library (λ a b h. (==_iff a b).0 h)
      (oid 62) toy_verified_data data_verified

toy-Shortens : Shortens toy_library.decode_raw
unfolding toy_decode_raw
toy-Shortens [] a rest h = cc
toy-Shortens (b ∷ bs) a rest h = ground arith
