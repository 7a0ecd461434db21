-- ===== src/Checksum.antt =====
-- pkinit-core/src/crypto/checksum.rs: the checksums that bind a request body to the AuthPack.
pub mod Binding
use kurbu5_pkinit.Common.{
  Bytes, Oid, Option, [], err, if◌then◌else◌, length, list_eq, map_err, nat_eq, none, not, ok,
  ok_or, option_eq, reject_if, some, ◌==◌, ◌>>=◌, ◌>>◌, ◌∷◌,
}
use kurbu5_pkinit.Error.{Pkinit, because, checksum_failed, ossl, str, text}
use kurbu5_pkinit.Constants.{codes, group_eq, kem_eq}
use kurbu5_pkinit.Synta.{Synta}
use kurbu5_pkinit.Crypto.{Crypto}

pub record Checksums : Type 0 where
  pub sha1 : Bytes
  pub sha256 : Bytes

module _ {H : Type 0} (synta : Synta) (crypto : Crypto H) where
  unfoldable pub generate_checksums : Bytes → Pkinit Checksums
  generate_checksums req_body = do
    sha1 ←
        map_err (crypto.hash_data (codes "sha1") req_body)
          (λ e. ossl (because "SHA-1 hash failed" e))
    sha256 ←
        map_err (crypto.hash_data (codes "sha256") req_body)
          (λ e. ossl (because "SHA-256 hash failed" e))
    ok (record { sha1 = sha1; sha256 = sha256 })

  unfoldable pub verify_checksum2 : Bytes → Bytes → Oid → Pkinit (Unit {0})
  verify_checksum2 req_body checksum algorithm_oid = do
    alg ← ok_or (synta.digest_oid_to_name algorithm_oid) checksum_failed
    expected ←
        map_err (crypto.hash_data alg req_body)
          (λ e. ossl (text alg ∷ str " hash failed: " ∷ text e ∷ []))
    reject_if (not (crypto.ct_eq expected checksum)) checksum_failed

  -- The match on the checksum's length.
  unfoldable pub verify_pa_checksum : Checksums → Bytes → Pkinit (Unit {0})
  verify_pa_checksum computed pa_checksum =
      if length pa_checksum == 32
      then reject_if (not (crypto.ct_eq computed.sha256 pa_checksum)) checksum_failed
      else if length pa_checksum == 20
      then reject_if (not (crypto.ct_eq computed.sha1 pa_checksum)) checksum_failed
      else err checksum_failed

  unfoldable pub verify_checksums : Bytes → Bytes → Option (Bytes × Oid) → Pkinit (Unit {0})
  unfolding generate_checksums verify_pa_checksum verify_checksum2
  verify_checksums req_body pa_checksum pa_checksum2 = do
    computed ← generate_checksums req_body
    verify_pa_checksum computed pa_checksum
    elim pa_checksum2 [
      | none ↦ ok tt
      | some (checksum, algorithm_oid) ↦ verify_checksum2 req_body checksum algorithm_oid
    ]
