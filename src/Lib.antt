-- ===== src/Lib.antt =====
-- A model of kurbu5-pkinit, PKINIT pre-authentication for Kerberos with classic and post-quantum key
-- exchange, and of the broker that lets a client trust a KDC's CA on first use.
--
-- A client builds a PA-PK-AS-REQ, with a DH or KEM public key in a signed AuthPack, and a KDC verifies
-- it and answers with its own key or a KEM ciphertext in signed data; both derive the reply key. What
-- the KDC advertises in a hint or in the typed data of an error makes the client choose another key
-- exchange, within its policy. When the configured anchors do not validate the KDC's chain, the client
-- asks the broker, which pins one CA for each realm.
--
-- Parts, and the files that model them:
--   pkinit-core/src/constants.rs, error.rs, config.rs    Constants, Error, Config
--   pkinit-core/src/kem_types.rs                         KemTypes: nonces, DER lengths, kemInfo, hints
--   pkinit-core/src/crypto/dh.rs, kem.rs, kdf.rs         Dh, Kem, Kdf
--   pkinit-core/src/crypto/checksum.rs                   Checksum
--   pkinit-core/src/crypto/cms.rs                        Cms: the interface that the exchange uses, and
--                                                        Structures, Sign, Verify; Loops, Verified,
--                                                        Signed and Roundtrip are proofs, and Interop
--                                                        fills the interface
--   pkinit-core/src/identity/mod.rs, store.rs, loader.rs Identity: Store, Loader; Uri is proofs
--   pkinit-core/src/identity/matching.rs                 Matching; its children are proofs
--   pkinit-core/src/san.rs, certauth.rs                  San, Certauth; Names is proofs
--   pkinit-core/src/client.rs, trust_broker.rs           Client: State, Negotiate, Trust, Authpack,
--                                                        Request, Reply; the other files are proofs
--   pkinit-core/src/server.rs                            Server: State, Verify, Respond; Admits and
--                                                        Advertised are proofs
--   kurbu5-pkinit/src/profile.rs                         Profile; Absent and Kems are proofs
--   kurbu5-pkinit/src/kdc_plugin.rs, principal.rs        Plugin: Kdc, Start, Session; Authorized and
--                                                        Contribution are proofs
--   kurbu5-pkinit/src/client_plugin.rs                   Plugin: Client, Process; Fallback is proofs
--   pkinit-trust-ctl/src/lib.rs                          Ctl; Export is proofs
--   server.rs and client.rs together                     Agreement
--   pkinit-trust-brokerd/src/store.rs, lib.rs,           Broker: Pins, Decide, Service; Safety, Memory
--   pkinit-trust-proto/src/lib.rs,                       and Grants are proofs
--   kurbu5-pkinit/src/trust_broker_client.rs
-- Common has the Result type, the actions on a state that may fail, and lists. Examples applies each
-- theorem at concrete inputs.
--
-- Functions keep their names; a method is a function of its state. A long function is cut in parts at
-- its early returns, and the part names the function that it comes from. A method on `&mut self` that
-- can fail returns its state beside the result, since what it wrote before an error stays written.
--
-- Parameters: the synta crates (Synta, and for CMS CmsLibrary), OpenSSL with the crypto and path
-- validation of the synta-certificate and synta-x509-verification crates (Crypto), base64 and Unicode
-- classes (Texts), krb5's key derivation (OctetString2Key), its profile (Profile), its error codes and
-- principals (Krb5), its FX-CF2 and encryption (KeyExchangeLibrary), files, environment and tokens
-- (Outside, CtlIo), the responder and the broker's socket (ClientEnv). They are records of functions.
-- Random draws and the clock are arguments. A theorem that needs more of them names it: a codec that
-- reads what it wrote, OIDs that differ, digests of the right length.
--
-- Numbers are naturals without bound, and integers are ℤ over them; where the code's width matters it
-- is written out: a nonce is an i32 that is encoded modulo 2^32, a grant's end saturates at 2^64 - 1,
-- a DER length is below 2^32. Most loops are structural recursions on lists. Four run on fuel, the
-- number of octets that remain: the readers of certificates and attributes in Cms, the splitting of a
-- rule in Matching, and the lines of a PEM file in Ctl. Each turn takes at least one octet or ends the
-- loop, so that is enough; Cms/Loops, Matching/Split and Ctl/Export are about it.
--
-- Not modelled: the bindings to C of the plugins and the random-to-key of o2k.rs, which only call
-- libkrb5; the terminal and desktop prompters, the broker's sockets and its state file; the command
-- lines; logs and tracing; and the erasure of secrets from memory. The text of error messages is kept
-- as a list of pieces. encode_upn_other_name and encode_pkinit_hint serve tests alone.
pub mod Common
pub mod Error
pub mod Constants
pub mod Synta
pub mod KemTypes
pub mod Crypto
pub mod Dh
pub mod Kem
pub mod Kdf
pub mod Checksum
pub mod Config
pub mod Identity
pub mod Matching
pub mod San
pub mod Certauth
pub mod Cms
pub mod Client
pub mod Server
pub mod Agreement
pub mod Profile
pub mod Plugin
pub mod Broker
pub mod Ctl
pub mod Examples
