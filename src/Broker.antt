-- ===== src/Broker.antt =====
-- pkinit-trust-brokerd: the trust broker that a client asks about an unknown KDC.
pub mod Pins
pub mod Decide
pub mod Service
pub mod Safety
pub mod Memory
pub mod Grants
