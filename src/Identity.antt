-- ===== src/Identity.antt =====
-- pkinit-core/src/identity/mod.rs and store.rs: the signing identity and the trust store.
pub mod Store
pub mod Loader
pub mod Uri
use kurbu5_pkinit.Common.{Bytes, List, Option}

-- `signing_key` is `None` for an anonymous identity, whose certificate is empty.
pub record PkinitIdentity (H : Type 0) : Type 0 where
  pub cert_der : Bytes
  pub signing_key : Option H
  pub chain : List Bytes
