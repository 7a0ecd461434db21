-- ===== src/Client.antt =====
-- pkinit-core/src/client.rs: the client side of an exchange.
pub mod State
pub mod Negotiate
pub mod Trust
pub mod Authpack
pub mod Request
pub mod Downgrade
pub mod Offers
pub mod Hint
pub mod Reply
pub mod Accepted
pub mod Keys
pub mod Sent
pub mod Exchange
pub mod Next
pub mod Once
unfoldable pub use State.*
