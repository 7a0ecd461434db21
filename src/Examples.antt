-- ===== src/Examples.antt =====
-- The theorems at concrete inputs, over small stand-ins for the libraries.
mod Toy
mod Clients
mod Servers
mod Brokers
mod Encodings
mod Signatures
mod Rules
mod Plugins
mod Identities
mod Exports
