-- ===== src/Server.antt =====
-- pkinit-core/src/server.rs: the KDC's side of an exchange.
pub mod State
pub mod Verify
pub mod Respond
pub mod Admits
pub mod Advertised
