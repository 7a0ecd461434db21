-- ===== src/KemTypes/Hint.antt =====
-- pkinit-core/src/kem_types.rs: the hint that a KDC encodes is parsed back, entry by entry.
use kurbu5_pkinit.Common.{
  Bytes, List, [], arith, collect, length, length-append, ok, ℕ, ◌+◌, ◌<◌, ◌^◌, ◌∷◌, ◌≡◌, ◌≤◌,
}
use kurbu5_pkinit.Error.{str}
use kurbu5_pkinit.Synta.{AlgorithmIdentifier, Synta}
use kurbu5_pkinit.KemTypes.{
  der_encode_length, encode_pkinit_hint_alg_ids, offered_algorithm, parse_pkinit_hint,
  starts_with_tag,
}
use kurbu5_pkinit.KemTypes.Wrapper.{tlv, tlv_content-encode}

length-header_le : (n : ℕ) → length (der_encode_length n) ≤ 5
unfolding der_encode_length
length-header_le n = ground arith

module _ (synta : Synta) (alg_ids : List AlgorithmIdentifier) (seq_of hint : Bytes) where
  -- A hint whose list is read back by the DER codec, and is shorter than 2^32 - 6 octets, is parsed
  -- to the offers that its entries stand for, in the same order.
  pub parse_pkinit_hint-encode_pkinit_hint_alg_ids :
      synta.alg_ids_to_der alg_ids ≡ ok seq_of
      → synta.alg_ids_from_der seq_of ≡ ok alg_ids
      → length seq_of + 6 < 2 ^ 32
      → encode_pkinit_hint_alg_ids synta alg_ids ≡ ok hint
      → parse_pkinit_hint synta hint ≡ collect (offered_algorithm synta) alg_ids
  unfolding parse_pkinit_hint starts_with_tag encode_pkinit_hint_alg_ids
  parse_pkinit_hint-encode_pkinit_hint_alg_ids enc dec short h =
      let s : length seq_of < 2 ^ 32 = omega arith in
      let inner : Bytes = tlv 0xA0 seq_of s in
      let s' : length inner < 2 ^ 32 = omega (
        arith,
        length-append (der_encode_length (length seq_of)) seq_of,
        length-header_le (length seq_of),
      ) in
      let eq : hint ≡ tlv 0x30 inner s' = ground arith in
      let a =
        tlv_content-encode 0x30 inner s' (str "PA-PK-AS-REQ-Hint: truncated outer SEQUENCE" ∷ []) in
      let b =
        tlv_content-encode 0xA0 seq_of s (str "PA-PK-AS-REQ-Hint: truncated [0] content" ∷ []) in
      rw (eq, a) (rw b (rw dec))
