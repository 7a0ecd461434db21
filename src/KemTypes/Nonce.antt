-- ===== src/KemTypes/Nonce.antt =====
-- pkinit-core/src/kem_types.rs: a nonce survives the trip through its unsigned encoding.
use kurbu5_pkinit.Common.{arith, ok, ℕ, ◌-◌, ◌<◌, ◌^◌, ◌≡◌}
use kurbu5_pkinit.Common.Int.{IsInt32, negsuc, pos, ℤ, ◌≤ℤ◌}
use kurbu5_pkinit.Synta.{Synta}
use kurbu5_pkinit.KemTypes.{decode_nonce, encode_nonce, nonce_of_i64}

-- `Integer::as_i64` returns the value of an INTEGER that an `i64` holds.
abbrev pub ReadsI64 : Synta → Type 0
ReadsI64 synta = (n : ℕ) → n < 2 ^ 63 → synta.as_i64 (pos n) ≡ ok (pos n)

nonce_of_i64-encode : (n : ℤ) → IsInt32 n → nonce_of_i64 (encode_nonce n) ≡ ok n
unfolding nonce_of_i64 encode_nonce
nonce_of_i64-encode (pos n) h = ground arith
nonce_of_i64-encode (negsuc n) h = ground arith

-- Every `i32` nonce is encoded as an INTEGER from 0 to 2^32 - 1, and decoding returns the nonce.
pub decode_nonce-encode_nonce :
    (synta : Synta) (n : ℤ)
    → ReadsI64 synta
    → IsInt32 n
    → (pos 0 ≤ℤ encode_nonce n)
      × (encode_nonce n ≤ℤ pos (2 ^ 32 - 1))
      × (decode_nonce synta (encode_nonce n) ≡ ok n)
unfolding decode_nonce encode_nonce
decode_nonce-encode_nonce synta (pos n) reads h =
    (omega arith, omega arith, rw (reads n (omega arith)) (nonce_of_i64-encode (pos n) h))
decode_nonce-encode_nonce synta (negsuc n) reads h = (
  omega arith,
  omega arith,
  rw (reads (2 ^ 32 - 1 - n) (omega arith)) (nonce_of_i64-encode (negsuc n) h),
)
