-- ===== src/Cms.antt =====
-- pkinit-core/src/crypto/cms.rs: what the exchange uses of CMS, as an interface. Its children hold the
-- code behind it: Structures, Sign, Verify, and the proofs about them.
pub mod Structures
pub mod Sign
pub mod Verify
pub mod Loops
pub mod Verified
pub mod Roundtrip
pub mod Signed
pub mod Interop
use kurbu5_pkinit.Common.{Bytes, List, Oid, Text, if◌then◌else◌}
use kurbu5_pkinit.Error.{Pkinit}
use kurbu5_pkinit.Constants.{codes}
use kurbu5_pkinit.Synta.{Synta}
use kurbu5_pkinit.Client.State.{is_pq_signing_certificate}

pub record VerifiedSignedData : Type 0 where
  pub content : Bytes
  pub content_type : Oid
  pub signer_cert_der : Bytes
  pub all_certs_der : List Bytes
  pub signer_algorithm_oid : Oid

-- `create_signed_data` takes the content, its type, the key, the signer's certificate, the extra
-- certificates and the digest's name.
pub record Cms (H : Type 0) : Type 0 where
  pub create_signed_data : Bytes → Oid → H → Bytes → List Bytes → Text → Pkinit Bytes
  pub create_unsigned_data : Bytes → Oid → Pkinit Bytes
  pub verify_signed_data : Bytes → Pkinit VerifiedSignedData
  pub extract_unsigned_content : Bytes → Pkinit (Bytes × Oid)
  pub extract_bare_content : Bytes → Pkinit (Bytes × Oid)

unfoldable pub digest_for_signer : Synta → Bytes → Text
digest_for_signer synta cert =
    if is_pq_signing_certificate synta cert then codes "sha512" else codes "sha256"
