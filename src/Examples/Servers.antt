-- ===== src/Examples/Servers.antt =====
-- Runs of a KDC that requires a KEM.
use mathlib.Core.Path.{subst}
use kurbu5_pkinit.Common.{
  ==_iff, ==_refl, Bool-cases, Bytes, Has, Oid, Option-cases, [], ap, arith, false, inl, inr,
  length, list_beq, list_eq, ltb, nat_eq, none, not, ok, ok-injective, option_eq, refl,
  reject_if-eq-ok, some, sym, true, ◌==◌, ◌^◌, ◌∷◌, ◌≡◌,
}
use kurbu5_pkinit.Common.Int.{negsuc, pos, ℤ_eq}
use kurbu5_pkinit.Error.{Fault, PkinitError}
use kurbu5_pkinit.Constants.{
  group_eq, id_pkinit_kem_key_data, is_composite, kem, kem_eq, ml_kem768, ml_kem768_x25519,
}
use kurbu5_pkinit.Synta.{KdcKemInfo}
use kurbu5_pkinit.KemTypes.{pa_pk_as_rep_kem_tag}
use kurbu5_pkinit.Config.{PkinitKdcConfig, default_kdc_config}
use kurbu5_pkinit.Identity.Store.{new_store}
use kurbu5_pkinit.Kem.{KemKeyPair, encapsulate_for_client}
use kurbu5_pkinit.Kdf.{DerivedKey, kdf_preference_order, pick_kdf_alg, zeros}
use kurbu5_pkinit.Kdf.Choice.{Before, pick_kdf_alg-best}
use kurbu5_pkinit.Checksum.{Checksums, generate_checksums, verify_checksums}
use kurbu5_pkinit.Checksum.Binding.{IsDigests, verify_checksums-generate_checksums}
use kurbu5_pkinit.Cms.{digest_for_signer}
use kurbu5_pkinit.Client.State.{has_pq_certificate}
use kurbu5_pkinit.Client.Reply.{AsRepParams, answer_kem_rep}
use kurbu5_pkinit.Server.State.{PkinitKdcState}
use kurbu5_pkinit.Server.Verify.{VerifiedRequest, verify_as_req}
use kurbu5_pkinit.Server.Respond.{BuildAsRepParams, build_kem_rep, sign_reply}
use kurbu5_pkinit.Server.Admits.{IsAdmitted, verify_as_req-IsAdmitted}
use kurbu5_pkinit.Server.Advertised.{IsSplit}
use kurbu5_pkinit.Client.Trust.{validate_kdc_chain}
use kurbu5_pkinit.Agreement.{Decapsulates, IsCodec, ReadsSigned, answer_kem_rep-build_kem_rep}
use kurbu5_pkinit.Examples.Toy.{
  oid, strict_client, toy_cms, toy_crypto, toy_identity, toy_info_from_der, toy_info_to_der,
  toy_o2k, toy_oids, toy_synta, toy_verify,
}

abbrev pub toy_kdc : PkinitKdcState Bytes
toy_kdc = record {
  identity = toy_identity;
  trust_store = new_store;
  config = record default_kdc_config { require_kem = true };
  supported_algorithms_hint = none;
  td_ephemeral_key_params = [];
}

abbrev pub toy_verified : VerifiedRequest
toy_verified = record {
  client_cert_der = oid 90;
  client_dh_public = oid 2;
  nonce = pos 7;
  supported_kdfs = [];
  client_dh_nonce = none;
  is_anonymous = false;
  key_exchange = kem ml_kem768;
}

request_verified :
    verify_as_req toy_synta toy_crypto toy_cms 0 toy_kdc (2 ∷ 50 ∷ []) none (pos 300) (pos 1100)
    ≡ ok toy_verified
unfolding verify_as_req kurbu5_pkinit.Server.Verify.open_auth_pack
    kurbu5_pkinit.Server.Verify.unsigned_content kurbu5_pkinit.Server.Verify.open_signed
    kurbu5_pkinit.Examples.Toy.toy_verify kurbu5_pkinit.Server.Verify.check_auth_data
    kurbu5_pkinit.Common.list_beq kurbu5_pkinit.Identity.Store.validate_chain
    kurbu5_pkinit.Common.collect kurbu5_pkinit.Server.Verify.check_client_eku
    kurbu5_pkinit.Certauth.verify_client_eku kurbu5_pkinit.San.extract_eku_oids
    kurbu5_pkinit.Common.any kurbu5_pkinit.San.extract_key_usage
    kurbu5_pkinit.Certauth.lacks_digital_signature kurbu5_pkinit.Server.Verify.verify_auth_pack
    kurbu5_pkinit.Server.Verify.check_times kurbu5_pkinit.Server.Verify.check_body
    generate_checksums kurbu5_pkinit.Checksum.verify_checksum2 verify_checksums
    kurbu5_pkinit.Checksum.verify_pa_checksum kurbu5_pkinit.Common.contains
    kurbu5_pkinit.Constants.from_oid kurbu5_pkinit.Constants.is_composite
    kurbu5_pkinit.Constants.kem_beq kurbu5_pkinit.Constants.parameter_set_name
    kurbu5_pkinit.Dh.Oakley.oakley_2048_prime kurbu5_pkinit.Dh.Oakley.oakley_4096_prime
    kurbu5_pkinit.Dh.explicit_group kurbu5_pkinit.Dh.identify_oakley_group
    kurbu5_pkinit.Dh.named_group kurbu5_pkinit.Dh.validate_dh_params kurbu5_pkinit.KemTypes.as_i32
    kurbu5_pkinit.KemTypes.decode_nonce kurbu5_pkinit.KemTypes.nonce_of_i64
    kurbu5_pkinit.San.key_usage_bits kurbu5_pkinit.Server.State.accepts_kem
    kurbu5_pkinit.Server.Verify.choose_exchange kurbu5_pkinit.Server.Verify.detect_spki_algorithm
    kurbu5_pkinit.Server.Verify.exchange_for
request_verified = refl

verify_as_req-IsAdmitted_example :
    IsAdmitted toy_synta toy_crypto toy_cms 0 toy_kdc
      (2 ∷ 50 ∷ [])
      none
      (pos 300)
      (pos 1100)
      toy_verified
verify_as_req-IsAdmitted_example =
    verify_as_req-IsAdmitted toy_synta toy_crypto toy_cms 0 toy_kdc (2 ∷ 50 ∷ []) none (pos 300)
      (pos 1100) toy_verified request_verified

toy_reads_info :
    (i : KdcKemInfo) (der : Bytes)
    → toy_synta.kdc_kem_info_to_der i ≡ ok der
    → toy_synta.kdc_kem_info_from_der der ≡ ok i
unfolding toy_info_to_der toy_info_from_der
toy_reads_info i der h = elim (Option-cases i.nonce) [
  | inl e ↦ absurd (ground arith)
  | inr (negsuc n, e) ↦ absurd (ground arith)
  | inr (pos n, e) ↦
      let h0 = rw (e, toy_info_to_der) at h in
      let (a, h1) = reject_if-eq-ok (not (i.kem_algorithm.algorithm == oid 2)) _ _ h0 in
      let (b, h2) = reject_if-eq-ok (not (i.kem_algorithm.parameters == none)) _ _ h1 in
      let (c, h3) = reject_if-eq-ok (not (i.kdf_algorithm.algorithm == oid 12)) _ _ h2 in
      let (d, h4) = reject_if-eq-ok (not (i.kdf_algorithm.parameters == none)) _ _ h3 in
      let (g, h5) = reject_if-eq-ok (not (i.server_nonce == none)) _ _ h4 in
      let p : i.kem_algorithm.algorithm ≡ oid 2 =
        (==_iff i.kem_algorithm.algorithm (oid 2)).0 (ground arith) in
      let q : i.kem_algorithm.parameters ≡ none =
        (==_iff i.kem_algorithm.parameters none).0 (ground arith) in
      let r : i.kdf_algorithm.algorithm ≡ oid 12 =
        (==_iff i.kdf_algorithm.algorithm (oid 12)).0 (ground arith) in
      let s : i.kdf_algorithm.parameters ≡ none =
        (==_iff i.kdf_algorithm.parameters none).0 (ground arith) in
      let t : i.server_nonce ≡ none = (==_iff i.server_nonce none).0 (ground arith) in
      let u : n ∷ i.kemct ≡ der = ok-injective {E = Fault} h5 in
      subst (λ x. toy_info_from_der x ≡ ok i) u (ap ok cc)
]

toy-IsCodec : IsCodec toy_synta
toy-IsCodec = record {
  same_oid = λ o p h. sym (ok-injective {E = Fault} h);
  reads_i64 = λ n h. refl;
  reads_kem_rep_info = λ i der h. elim (Bool-cases (ltb (length i.kem_signed_data) (2 ^ 32))) [
    | inl e ↦
        let p : i.kem_signed_data ≡ der = ground arith in
        (ap (λ b. ok (record { kem_signed_data = b })) (sym p), ground arith)
    | inr e ↦ absurd (ground arith)
  ];
  reads_kdc_kem_info = toy_reads_info;
}

abbrev toy_key : KemKeyPair Bytes
toy_key = record { algorithm = ml_kem768; private_key = oid 5 }

toy-Decapsulates : Decapsulates toy_crypto (oid 5) (oid 2)
toy-Decapsulates = record {
  composite = λ draw ct secret h. cc;
  ml_kem = λ draw ct secret h. ap (λ x. ok (x.1)) (ok-injective {E = Fault} h);
}

-- A KDC with the certificate that the library of the examples finds in what it reads.
abbrev signing_kdc : PkinitKdcState Bytes
signing_kdc = record toy_kdc {
  identity = record { cert_der = oid 90; signing_key = some (oid 92); chain = [] };
}

toy-ReadsSigned :
    ReadsSigned toy_cms signing_kdc.identity (digest_for_signer toy_synta (oid 90)) (oid 22)
unfolding toy_verify list_beq
toy-ReadsSigned = record {
  reads = λ content signed key k h.
      let p : 1 ∷ content ≡ signed = ok-injective {E = PkinitError} h in
      subst
        (λ s.
          toy_verify s
          ≡ ok (record {
            content = content;
            content_type = id_pkinit_kem_key_data;
            signer_cert_der = oid 90;
            all_certs_der = oid 90 ∷ [];
            signer_algorithm_oid = oid 22;
          }))
        p refl;
}

not_post_quantum : has_pq_certificate toy_synta strict_client ≡ false
unfolding has_pq_certificate kurbu5_pkinit.Client.State.new_client
    kurbu5_pkinit.Client.State.is_pq_signing_certificate list_beq
not_post_quantum = refl

chain_trusted :
    validate_kdc_chain toy_synta toy_crypto 0 strict_client (oid 90) (oid 90 ∷ []) ≡ ok tt
unfolding validate_kdc_chain kurbu5_pkinit.Client.Trust.establish_trust
    kurbu5_pkinit.Identity.Store.validate_chain kurbu5_pkinit.Common.collect
    kurbu5_pkinit.Client.State.new_client kurbu5_pkinit.Certauth.verify_kdc_eku
    kurbu5_pkinit.San.extract_eku_oids kurbu5_pkinit.Common.any list_beq
    kurbu5_pkinit.San.extract_key_usage kurbu5_pkinit.Certauth.lacks_digital_signature
chain_trusted = refl

abbrev kdc_params : BuildAsRepParams
kdc_params = record {
  nonce = pos 7;
  enctype = pos 18;
  as_req_der = oid 60;
  client_name = [];
  server_name = [];
}

abbrev client_params : AsRepParams
client_params = record {
  nonce = pos 7;
  enctype = pos 18;
  as_req_der = oid 60;
  pa_rep_raw = [];
  client_name = [];
  server_name = [];
}

abbrev built : Bytes × DerivedKey
built = (
  pa_pk_as_rep_kem_tag ∷ 130 ∷ 4 ∷ 66 ∷ 1 ∷ 7 ∷ zeros 1088,
  record { enctype = pos 18; key_data = oid 42 },
)

reply_built :
    build_kem_rep toy_synta toy_crypto toy_cms toy_o2k 3 signing_kdc toy_verified kdc_params
      ml_kem768
    ≡ ok built
unfolding build_kem_rep kurbu5_pkinit.Server.Respond.check_kem_kdfs encapsulate_for_client
    kurbu5_pkinit.Constants.is_composite zeros kurbu5_pkinit.Constants.ciphertext_len
    kurbu5_pkinit.Server.Respond.kdc_kem_info toy_info_to_der kurbu5_pkinit.KemTypes.encode_nonce
    kurbu5_pkinit.Common.list_beq kurbu5_pkinit.Constants.kem_oid kurbu5_pkinit.Common.option_beq
    sign_reply kurbu5_pkinit.KemTypes.encode_kem_rep_wrapper kurbu5_pkinit.Kdf.pkinit_kem_kdf
    kurbu5_pkinit.KemTypes.der_encode_length
reply_built = refl

answer_kem_rep-build_kem_rep_example :
    answer_kem_rep toy_synta toy_crypto toy_cms toy_o2k 0 strict_client built.0 client_params
      toy_key
    ≡ ok built.1
answer_kem_rep-build_kem_rep_example =
    answer_kem_rep-build_kem_rep toy_synta toy_crypto toy_cms toy_o2k 0 toy-IsCodec signing_kdc
      strict_client toy_key toy_verified toy-Decapsulates (oid 22) toy-ReadsSigned
      (λ h. absurd (ground (arith, h, not_post_quantum))) chain_trusted 3 kdc_params client_params
      built.0 built.1 refl refl refl (omega arith) reply_built

toy_digests : IsDigests toy_synta toy_crypto
unfolding kurbu5_pkinit.Common.list_beq
toy_digests = record {
  ct_eq_refl = λ b. ==_refl b;
  sha1_octets = λ b d h. ap length (sym (ok-injective {E = Fault} h));
  sha256_name = refl;
}

abbrev toy_sums : Checksums
toy_sums = record {
  sha1 = 0 ∷ 0 ∷ 0 ∷ 0 ∷ 0 ∷ 0 ∷ 0 ∷ 0 ∷ 0 ∷ 0 ∷ 0 ∷ 0 ∷ 0 ∷ 0 ∷ 0 ∷ 0 ∷ 0 ∷ 0 ∷ 0 ∷ 0 ∷ [];
  sha256 = oid 60;
}

sums_generated : generate_checksums toy_synta toy_crypto (oid 60) ≡ ok toy_sums
unfolding generate_checksums kurbu5_pkinit.Common.list_beq
sums_generated = refl

verify_checksums-generate_checksums_example :
    verify_checksums toy_synta toy_crypto (oid 60) toy_sums.sha1 (some (oid 60, oid 18)) ≡ ok tt
verify_checksums-generate_checksums_example =
    verify_checksums-generate_checksums toy_synta toy_crypto (oid 60) toy_sums toy_digests
      sums_generated

pick_kdf_alg-best_example :
    ((k : Oid)
      → pick_kdf_alg toy_oids (oid 9 ∷ oid 10 ∷ []) ≡ some k
      → Has k (oid 9 ∷ oid 10 ∷ [])
        × Has k (kdf_preference_order toy_oids)
        × ((q : Oid)
            → Has q (kdf_preference_order toy_oids)
            → Has q (oid 9 ∷ oid 10 ∷ [])
            → Before k (kdf_preference_order toy_oids) q))
    × (pick_kdf_alg toy_oids (oid 9 ∷ oid 10 ∷ []) ≡ none
        → (q : Oid) → Has q (kdf_preference_order toy_oids)
        → ¬ Has q (oid 9 ∷ oid 10 ∷ []))
pick_kdf_alg-best_example = pick_kdf_alg-best toy_oids (oid 9 ∷ oid 10 ∷ [])

abbrev mixed_config : PkinitKdcConfig
mixed_config = record default_kdc_config {
  supported_composite_kem_algorithms = ml_kem768_x25519 ∷ [];
}

mixed-IsSplit : IsSplit mixed_config
unfolding is_composite
mixed-IsSplit = record { pure_only = λ a h. absurd h; composite_only = λ a h. ground arith }
