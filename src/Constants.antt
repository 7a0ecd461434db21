-- ===== src/Constants.antt =====
-- pkinit-core/src/constants.rs: the DH/ECDH groups and KEM algorithms, their parameters and names.
mod Kem
mod Names
pub mod Roundtrip
unfoldable pub use Kem.*
unfoldable pub use Names.*
