-- ===== src/Constants/Roundtrip.antt =====
-- pkinit-core/src/constants.rs: identifiers and names determine the algorithm.
use kurbu5_pkinit.Common.{
  ==_refl, Has, Oid, Option-cases, ap, arith, false, filter, inl, inr, list_beq, list_beq_iff,
  list_eq, nat_eq, none, option_eq, refl, some, ◌↔◌, ◌≡◌, ◌≢◌, ◌≤◌,
}
use kurbu5_pkinit.Constants.Kem.{
  KemAlgorithm, Oids, algorithms_at_or_above, from_oid, group_eq, is_composite, kem_eq, kem_oid,
  ml_kem1024, ml_kem1024_ecdh_p384, ml_kem512, ml_kem768, ml_kem768_ecdh_p256, ml_kem768_x25519,
  strength_order,
}
use kurbu5_pkinit.Constants.Names.{from_name, parameter_set_name}

pub from_oid-some : (o : Oids) (a : KemAlgorithm) → from_oid o (kem_oid o a) ≢ none
unfolding from_oid kem_oid
from_oid-some o ml_kem512 h = ground (arith, list_beq_iff o.id_ml_kem_512 o.id_ml_kem_512)
from_oid-some o ml_kem768 h = ground (arith, list_beq_iff o.id_ml_kem_768 o.id_ml_kem_768)
from_oid-some o ml_kem1024 h = ground (arith, list_beq_iff o.id_ml_kem_1024 o.id_ml_kem_1024)
from_oid-some o ml_kem768_x25519 h = ground (arith, ==_refl o.id_mlkem768_x25519_sha3_256)
from_oid-some o ml_kem768_ecdh_p256 h = ground (arith, ==_refl o.id_mlkem768_ecdh_p256_sha3_256)
from_oid-some o ml_kem1024_ecdh_p384 h = ground (arith, ==_refl o.id_mlkem1024_ecdh_p384_sha3_256)

-- What the registered OIDs satisfy: the six KEM algorithms have different ones.
abbrev pub OidsDiffer : Oids → Type 0
OidsDiffer o = (a b : KemAlgorithm) → kem_oid o a ≡ kem_oid o b → a ≡ b

pub oid-from_oid :
    (o : Oids) (oid : Oid) (a : KemAlgorithm) → from_oid o oid ≡ some a → kem_oid o a ≡ oid
unfolding from_oid kem_oid
oid-from_oid o oid a h = ground (
  arith,
  list_beq_iff oid o.id_ml_kem_512,
  list_beq_iff oid o.id_ml_kem_768,
  list_beq_iff oid o.id_ml_kem_1024,
  list_beq_iff oid o.id_mlkem768_x25519_sha3_256,
  list_beq_iff oid o.id_mlkem768_ecdh_p256_sha3_256,
  list_beq_iff oid o.id_mlkem1024_ecdh_p384_sha3_256,
)

-- The OID of a KEM algorithm is read back as that algorithm, when the six OIDs differ.
from_oid-oid : (o : Oids) (a : KemAlgorithm) → OidsDiffer o → from_oid o (kem_oid o a) ≡ some a
from_oid-oid o a d = elim (Option-cases (from_oid o (kem_oid o a))) [
  | inl e ↦ absurd (from_oid-some o a e)
  | inr (b, e) ↦ rw e (ap some (d b a (oid-from_oid o (kem_oid o a) b e)))
]

-- The name of a KEM's parameter set is read back as that KEM.
from_name-parameter_set_name : (a : KemAlgorithm) → from_name (parameter_set_name a) ≡ some a
unfolding from_name parameter_set_name list_beq
from_name-parameter_set_name ml_kem512 = refl
from_name-parameter_set_name _ = refl

-- The algorithms at or above a floor are exactly the pure ML-KEMs that are at least as strong.
pub algorithms_at_or_above_iff :
    (floor a : KemAlgorithm)
    → Has a (algorithms_at_or_above floor)
      ↔ ((is_composite a ≡ false) × (strength_order floor ≤ strength_order a))
unfolding algorithms_at_or_above filter strength_order is_composite
algorithms_at_or_above_iff floor a = (λ h. ground arith, λ h. ground arith)
