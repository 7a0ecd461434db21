-- ===== src/Examples/Encodings.antt =====
-- Encodings and tables at concrete inputs.
use kurbu5_pkinit.Common.{
  Has, List, [], arith, collect, false, if◌then◌else◌, leb, length, none, ok, ok-injective, refl,
  some, sym, true, ◌++◌, ◌-◌, ◌^◌, ◌||◌, ◌↔◌, ◌∷◌, ◌≡◌, ◌≤◌,
}
use kurbu5_pkinit.Common.Int.{negsuc, pos, ◌≤ℤ◌}
use kurbu5_pkinit.Error.{Fault}
use kurbu5_pkinit.Constants.{
  algorithms_at_or_above, ec_p384, is_composite, is_ec, kem_oid, min_bits, ml_kem1024, ml_kem768,
  strength_order,
}
use kurbu5_pkinit.Constants.Roundtrip.{OidsDiffer, algorithms_at_or_above_iff}
use kurbu5_pkinit.Synta.{AlgorithmIdentifier, KemRepInfo}
use kurbu5_pkinit.KemTypes.{
  decode_kem_rep_content, decode_nonce, der_encode_length, der_parse_length, encode_kem_rep_wrapper,
  encode_nonce, encode_pkinit_hint_alg_ids, is_kem_rep, offered_algorithm, pa_pk_as_rep_kem_tag,
  parse_pkinit_hint,
}
use kurbu5_pkinit.KemTypes.Nonce.{decode_nonce-encode_nonce}
use kurbu5_pkinit.KemTypes.Wrapper.{
  decode_kem_rep_content-encode_kem_rep_wrapper, der_parse_length-der_encode_length,
}
use kurbu5_pkinit.KemTypes.Hint.{parse_pkinit_hint-encode_pkinit_hint_alg_ids}
use kurbu5_pkinit.Dh.{group_algorithm_oid_and_params, group_from_algorithm_identifier}
use kurbu5_pkinit.Dh.Groups.{ReadsGroups, group_from_algorithm_identifier-of_group}
use kurbu5_pkinit.Examples.Toy.{oid, toy_oids, toy_synta}

decode_nonce-encode_nonce_example :
    (pos 0 ≤ℤ encode_nonce (negsuc 4))
    × (encode_nonce (negsuc 4) ≤ℤ pos (2 ^ 32 - 1))
    × (decode_nonce toy_synta (encode_nonce (negsuc 4)) ≡ ok (negsuc 4))
decode_nonce-encode_nonce_example =
    decode_nonce-encode_nonce toy_synta (negsuc 4) (λ n h. refl) (omega arith)

der_parse_length-der_encode_length_example :
    der_parse_length (der_encode_length 300 ++ 5 ∷ []) ≡ ok (300, length (der_encode_length 300))
der_parse_length-der_encode_length_example =
    der_parse_length-der_encode_length 300 (5 ∷ []) (omega arith)

abbrev toy_info : KemRepInfo
toy_info = record { kem_signed_data = 1 ∷ 2 ∷ 3 ∷ [] }

info_wrapped :
    encode_kem_rep_wrapper toy_synta toy_info ≡ ok (pa_pk_as_rep_kem_tag ∷ 3 ∷ 1 ∷ 2 ∷ 3 ∷ [])
unfolding encode_kem_rep_wrapper der_encode_length
info_wrapped = refl

decode_kem_rep_content-encode_kem_rep_wrapper_example :
    (is_kem_rep (pa_pk_as_rep_kem_tag ∷ 3 ∷ 1 ∷ 2 ∷ 3 ∷ []) ≡ true)
    × (decode_kem_rep_content (pa_pk_as_rep_kem_tag ∷ 3 ∷ 1 ∷ 2 ∷ 3 ∷ []) ≡ ok (1 ∷ 2 ∷ 3 ∷ []))
decode_kem_rep_content-encode_kem_rep_wrapper_example =
    decode_kem_rep_content-encode_kem_rep_wrapper toy_synta toy_info (1 ∷ 2 ∷ 3 ∷ [])
      (pa_pk_as_rep_kem_tag ∷ 3 ∷ 1 ∷ 2 ∷ 3 ∷ []) refl (omega arith) info_wrapped

abbrev toy_ids : List AlgorithmIdentifier
toy_ids = record { algorithm = oid 2; parameters = none } ∷ []

ids_encoded : encode_pkinit_hint_alg_ids toy_synta toy_ids ≡ ok (0x30 ∷ 3 ∷ 0xA0 ∷ 1 ∷ 2 ∷ [])
unfolding encode_pkinit_hint_alg_ids der_encode_length
ids_encoded = refl

parse_pkinit_hint-encode_pkinit_hint_alg_ids_example :
    parse_pkinit_hint toy_synta (0x30 ∷ 3 ∷ 0xA0 ∷ 1 ∷ 2 ∷ [])
    ≡ collect (offered_algorithm toy_synta) toy_ids
parse_pkinit_hint-encode_pkinit_hint_alg_ids_example =
    parse_pkinit_hint-encode_pkinit_hint_alg_ids toy_synta toy_ids (oid 2)
      (0x30 ∷ 3 ∷ 0xA0 ∷ 1 ∷ 2 ∷ []) refl refl (omega arith) ids_encoded

toy_oids_differ : OidsDiffer toy_oids
unfolding kem_oid
toy_oids_differ a b h = ground arith

algorithms_at_or_above_iff_example :
    Has ml_kem1024 (algorithms_at_or_above ml_kem768)
    ↔ ((is_composite ml_kem1024 ≡ false) × (strength_order ml_kem768 ≤ strength_order ml_kem1024))
algorithms_at_or_above_iff_example = algorithms_at_or_above_iff ml_kem768 ml_kem1024

toy-ReadsGroups : ReadsGroups toy_synta
toy-ReadsGroups = record {
  ec_ne_dh = λ h. ground arith;
  p384_ne_p256 = λ h. ground arith;
  p521_ne_p256 = λ h. ground arith;
  p521_ne_p384 = λ h. ground arith;
  object_identifier_self = λ o p h. sym (ok-injective {E = Fault} h);
  oid_from_to = λ o b h. sym h;
  element_self = λ b c h. sym (ok-injective {E = Fault} h);
}

p384_identified : group_algorithm_oid_and_params toy_synta ec_p384 ≡ ok (oid 22, some (oid 25))
unfolding group_algorithm_oid_and_params
p384_identified = refl

group_from_algorithm_identifier-of_group_example :
    group_from_algorithm_identifier toy_synta (oid 22) (some (oid 25)) 4096
    ≡ (if is_ec ec_p384 || leb 4096 (min_bits ec_p384) then some ec_p384 else none)
group_from_algorithm_identifier-of_group_example =
    group_from_algorithm_identifier-of_group toy_synta toy-ReadsGroups ec_p384 (oid 22)
      (some (oid 25)) 4096 p384_identified
