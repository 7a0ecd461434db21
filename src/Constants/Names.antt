-- ===== src/Constants/Names.antt =====
-- pkinit-core/src/constants.rs: the display names of groups and algorithms, and `from_name`.
pub use kurbu5_pkinit.Common.Strings.{codes}
use kurbu5_pkinit.Common.{
  Bool, Option, Text, if◌then◌else◌, leb, list_eq, map, nat_eq, none, option_eq, some, ℕ, ◌&&◌, ◌+◌,
  ◌==◌, ◌||◌,
}
use kurbu5_pkinit.Constants.Kem.{
  DhGroup, KemAlgorithm, KeyExchangeType, dh, ec_p256, ec_p384, ec_p521, group_eq, kem, kem_eq,
  ml_kem1024, ml_kem1024_ecdh_p384, ml_kem512, ml_kem768, ml_kem768_ecdh_p256, ml_kem768_x25519,
  oakley2048, oakley4096,
}

-- `to_ascii_lowercase`, byte by byte: bytes of other characters lie outside 'A' to 'Z'.
unfoldable pub lower : ℕ → ℕ
lower c = if leb b'A' c && leb c b'Z' then c + 32 else c

unfoldable pub to_ascii_lowercase : Text → Text
unfolding lower
to_ascii_lowercase s = map lower s

unfoldable pub eq_ignore_ascii_case : Text → Text → Bool
unfolding to_ascii_lowercase
eq_ignore_ascii_case s t = to_ascii_lowercase s == to_ascii_lowercase t

-- DhGroup::name
unfoldable pub group_name : DhGroup → Text
group_name oakley2048 = codes "DH-2048"
group_name oakley4096 = codes "DH-4096"
group_name ec_p256 = codes "ECDH-P256"
group_name ec_p384 = codes "ECDH-P384"
group_name ec_p521 = codes "ECDH-P521"

unfoldable pub parameter_set_name : KemAlgorithm → Text
parameter_set_name ml_kem512 = codes "ML-KEM-512"
parameter_set_name ml_kem768 = codes "ML-KEM-768"
parameter_set_name ml_kem1024 = codes "ML-KEM-1024"
parameter_set_name ml_kem768_x25519 = codes "ML-KEM-768-X25519"
parameter_set_name ml_kem768_ecdh_p256 = codes "ML-KEM-768-ECDH-P256"
parameter_set_name ml_kem1024_ecdh_p384 = codes "ML-KEM-1024-ECDH-P384"

-- The `Display` of a negotiated key exchange.
unfoldable pub key_exchange_name : KeyExchangeType → Text
key_exchange_name (dh g) = group_name g
key_exchange_name (kem a) = parameter_set_name a

unfoldable pub from_name : Text → Option KemAlgorithm
unfolding to_ascii_lowercase
from_name name =
    let s = to_ascii_lowercase name in
    if s == codes "ml-kem-512" || s == codes "mlkem512"
    then some ml_kem512
    else if s == codes "ml-kem-768" || s == codes "mlkem768"
    then some ml_kem768
    else if s == codes "ml-kem-1024" || s == codes "mlkem1024"
    then some ml_kem1024
    else if s == codes "ml-kem-768-x25519" || s == codes "mlkem768-x25519"
    then some ml_kem768_x25519
    else if s == codes "ml-kem-768-ecdh-p256" || s == codes "mlkem768-ecdh-p256"
    then some ml_kem768_ecdh_p256
    else if s == codes "ml-kem-1024-ecdh-p384" || s == codes "mlkem1024-ecdh-p384"
    then some ml_kem1024_ecdh_p384
    else none
