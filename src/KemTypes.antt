-- ===== src/KemTypes.antt =====
-- pkinit-core/src/kem_types.rs: nonces, DER lengths, the `[2]` wrapper of a KEM reply, and the
-- PA-PK-AS-REQ-Hint. A `usize` has 64 bits.
pub mod Nonce
pub mod Wrapper
pub mod Hint
use kurbu5_pkinit.Common.{
  Bool, Bytes, List, Oid, Option, [], collect, drop, err, false, if◌then◌else◌, leb, length,
  list_eq, ltb, map_err, nat_eq, none, not, ok, option_eq, reject_if, some, take, ℕ, ◌%◌, ◌*◌, ◌++◌,
  ◌+◌, ◌-◌, ◌/◌, ◌==◌, ◌>>=◌, ◌>>◌, ◌^◌, ◌||◌, ◌∷◌,
}
use kurbu5_pkinit.Common.Int.{negsuc, pos, ℤ, ℤ_eq}
use kurbu5_pkinit.Error.{Message, Pkinit, asn1, asn1_err, int, str}
use kurbu5_pkinit.Synta.{AlgorithmIdentifier, KemRepInfo, Synta}

-- `nonce as u32`, widened.
unfoldable pub encode_nonce : ℤ → ℤ
encode_nonce (pos n) = pos n
encode_nonce (negsuc n) = pos (2 ^ 32 - 1 - n)

-- `n as i32`.
unfoldable pub as_i32 : ℕ → ℤ
as_i32 n = if ltb n (2 ^ 31) then pos n else negsuc (2 ^ 32 - 1 - n)

-- `u32::try_from(v)` and the cast back.
unfoldable pub nonce_of_i64 : ℤ → Pkinit ℤ
unfolding as_i32
nonce_of_i64 (pos n) =
    if ltb n (2 ^ 32)
    then ok (as_i32 n)
    else err (asn1 (str "nonce " ∷ int (pos n) ∷ str " outside 0..4294967295" ∷ []))
nonce_of_i64 (negsuc n) =
    err (asn1 (str "nonce " ∷ int (negsuc n) ∷ str " outside 0..4294967295" ∷ []))

unfoldable pub decode_nonce : Synta → ℤ → Pkinit ℤ
decode_nonce synta value = do v ← map_err (synta.as_i64 value) (asn1_err "nonce"); nonce_of_i64 v

abbrev pub pa_pk_as_rep_kem_tag : ℕ
pa_pk_as_rep_kem_tag = 0xA2

unfoldable pub is_kem_rep : Bytes → Bool
is_kem_rep [] = false
is_kem_rep (b ∷ _) = b == pa_pk_as_rep_kem_tag

-- The loop over the length octets: `checked_shl(8)` drops the bits above 64, `checked_add` fails.
unfoldable pub length_octets : ℕ → Bytes → Pkinit ℕ
length_octets len [] = ok len
length_octets len (b ∷ bs) =
    let sum = (len * 256) % 2 ^ 64 + b in
    let rest = length_octets sum bs in
    if ltb sum (2 ^ 64) then rest else err (asn1 (str "DER length: overflow" ∷ []))

-- The length and the number of octets that it took.
unfoldable pub der_parse_length : Bytes → Pkinit (ℕ × ℕ)
unfolding length_octets
der_parse_length [] = err (asn1 (str "DER length: unexpected end" ∷ []))
der_parse_length (first ∷ bs) =
    let n = first % 128 in
    if ltb first 0x80
    then ok (first, 1)
    else if n == 0 || ltb 4 n || ltb (length bs) n
    then err (asn1 (str "DER length: invalid long form" ∷ []))
    else do len ← length_octets 0 (take n bs); ok (len, 1 + n)

-- What `der_encode_length` appends to its output.
unfoldable pub der_encode_length : ℕ → Bytes
der_encode_length len =
    if ltb len 0x80
    then len % 256 ∷ []
    else if leb len 0xFF
    then 0x81 ∷ len % 256 ∷ []
    else if leb len 0xFFFF
    then 0x82 ∷ (len / 2 ^ 8) % 256 ∷ len % 256 ∷ []
    else if leb len 0xFFFFFF
    then 0x83 ∷ (len / 2 ^ 16) % 256 ∷ (len / 2 ^ 8) % 256 ∷ len % 256 ∷ []
    else 0x84 ∷ (len / 2 ^ 24) % 256 ∷ (len / 2 ^ 16) % 256 ∷ (len / 2 ^ 8) % 256 ∷ len % 256 ∷ []

-- The tag is read first; the rest of the reply holds the length and the content.
unfoldable pub decode_kem_rep_content : Bytes → Pkinit Bytes
decode_kem_rep_content pa_rep = do
  reject_if (not (is_kem_rep pa_rep)) (asn1 (str "PA-PK-AS-REP: expected kemInfo [2] tag" ∷ []))
  (len, header_size) ← der_parse_length (drop 1 pa_rep)
  let value_start = 1 + header_size
  reject_if (ltb (length pa_rep) (value_start + len)) (asn1 (str "kemInfo: truncated content" ∷ []))
  ok (take len (drop value_start pa_rep))

unfoldable pub encode_kem_rep_wrapper : Synta → KemRepInfo → Pkinit Bytes
encode_kem_rep_wrapper synta info = do
  inner ← map_err (synta.kem_rep_info_to_der info) (asn1_err "encode KEMRepInfo")
  ok (pa_pk_as_rep_kem_tag ∷ der_encode_length (length inner) ++ inner)

-- The content of a TLV with the given tag, as `parse_pkinit_hint` reads it after its tag test.
unfoldable pub tlv_content : Bytes → Message → Pkinit Bytes
tlv_content der truncated = do
  (len, header_size) ← der_parse_length (drop 1 der)
  reject_if (ltb (length der) (1 + header_size + len)) (asn1 truncated)
  ok (take len (drop (1 + header_size) der))

abbrev pub OfferedAlgorithm : Type 0
OfferedAlgorithm = Oid × Option Bytes

unfoldable pub offered_algorithm : Synta → AlgorithmIdentifier → Pkinit OfferedAlgorithm
offered_algorithm synta alg_id = elim alg_id.parameters [
  | none ↦ ok (alg_id.algorithm, none)
  | some p ↦ do
    der ← map_err (synta.element_to_der p) (asn1_err "encode algorithm parameters")
    ok (alg_id.algorithm, some der)
]

unfoldable pub starts_with_tag : ℕ → Bytes → Bool
starts_with_tag tag [] = false
starts_with_tag tag (b ∷ _) = b == tag

unfoldable pub parse_pkinit_hint : Synta → Bytes → Pkinit (List OfferedAlgorithm)
unfolding starts_with_tag tlv_content
parse_pkinit_hint synta hint = do
  reject_if (not (starts_with_tag 0x30 hint))
      (asn1 (str "PA-PK-AS-REQ-Hint: expected SEQUENCE" ∷ []))
  outer ← tlv_content hint (str "PA-PK-AS-REQ-Hint: truncated outer SEQUENCE" ∷ [])
  if not (starts_with_tag 0xA0 outer) then ok [] else do
    tag0 ← tlv_content outer (str "PA-PK-AS-REQ-Hint: truncated [0] content" ∷ [])
    alg_ids ← map_err (synta.alg_ids_from_der tag0) (asn1_err "decode ephemeralKeyParameters")
    collect (offered_algorithm synta) alg_ids

unfoldable pub encode_pkinit_hint_alg_ids : Synta → List AlgorithmIdentifier → Pkinit Bytes
encode_pkinit_hint_alg_ids synta alg_ids = do
  seq_of ← map_err (synta.alg_ids_to_der alg_ids) (asn1_err "encode alg ids")
  let tagged = 0xA0 ∷ der_encode_length (length seq_of) ++ seq_of
  ok (0x30 ∷ der_encode_length (length tagged) ++ tagged)
