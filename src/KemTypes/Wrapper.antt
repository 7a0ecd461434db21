-- ===== src/KemTypes/Wrapper.antt =====
-- pkinit-core/src/kem_types.rs: DER lengths and the kemInfo wrapper are read back as written.
use kurbu5_pkinit.Common.{
  Bytes, arith, drop, drop-length-append, drop-suc, false, length, length-append, ltb, ok, refl,
  take, take_all, true, ℕ, ◌++◌, ◌+◌, ◌<◌, ◌^◌, ◌∷◌, ◌≡◌,
}
use kurbu5_pkinit.Error.{Message}
use kurbu5_pkinit.Synta.{KemRepInfo, Synta}
use kurbu5_pkinit.KemTypes.{
  decode_kem_rep_content, der_encode_length, der_parse_length, encode_kem_rep_wrapper, is_kem_rep,
  pa_pk_as_rep_kem_tag, tlv_content,
}

-- Parsing what was written for a length below 2^32 returns it, with the octets that it took.
pub der_parse_length-der_encode_length :
    (n : ℕ) (rest : Bytes)
    → n < 2 ^ 32
    → der_parse_length (der_encode_length n ++ rest) ≡ ok (n, length (der_encode_length n))
unfolding der_parse_length der_encode_length
der_parse_length-der_encode_length n rest h = ground arith

-- The octets after the tag are read as the length and all of the content.
module _ (tag : ℕ) (xs : Bytes) (short : length xs < 2 ^ 32) where
  abbrev pub tlv : Bytes
  tlv = tag ∷ der_encode_length (length xs) ++ xs

  abbrev header : ℕ
  header = length (der_encode_length (length xs))

  parse_tlv : der_parse_length (drop 1 tlv) ≡ ok (length xs, header)
  parse_tlv = der_parse_length-der_encode_length (length xs) xs short

  length-tlv : ltb (length tlv) (1 + header + length xs) ≡ false
  length-tlv = ground (arith, length-append (der_encode_length (length xs)) xs)

  content-tlv : take (length xs) (drop (1 + header) tlv) ≡ xs
  content-tlv =
      rw (drop-suc header (1 + header) tag (der_encode_length (length xs) ++ xs) (omega arith))
        (rw (drop-length-append (der_encode_length (length xs)) xs) (take_all xs))

  pub tlv_content-encode : (m : Message) → tlv_content tlv m ≡ ok xs
  unfolding tlv_content
  tlv_content-encode m = rw (parse_tlv, length-tlv, content-tlv)

decode-tlv :
    (xs : Bytes) (short : length xs < 2 ^ 32)
    → decode_kem_rep_content (tlv pa_pk_as_rep_kem_tag xs short) ≡ ok xs
unfolding decode_kem_rep_content is_kem_rep
decode-tlv xs short =
    let t : ℕ = pa_pk_as_rep_kem_tag in
    rw (parse_tlv t xs short) (rw (length-tlv t xs short, content-tlv t xs short))

-- The reply that the KDC wraps is the one the client unwraps, for replies shorter than 2^32 octets.
pub decode_kem_rep_content-encode_kem_rep_wrapper :
    (synta : Synta) (info : KemRepInfo) (inner wrapped : Bytes)
    → synta.kem_rep_info_to_der info ≡ ok inner
    → length inner < 2 ^ 32
    → encode_kem_rep_wrapper synta info ≡ ok wrapped
    → (is_kem_rep wrapped ≡ true) × (decode_kem_rep_content wrapped ≡ ok inner)
unfolding encode_kem_rep_wrapper is_kem_rep
decode_kem_rep_content-encode_kem_rep_wrapper synta info inner wrapped e short h =
    let eq : wrapped ≡ tlv pa_pk_as_rep_kem_tag inner short = ground arith in
    rw eq (refl, decode-tlv inner short)
