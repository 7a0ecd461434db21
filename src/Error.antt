-- ===== src/Error.antt =====
-- pkinit-core/src/error.rs: `PkinitError`, its classification, and `asn1_err`.
-- A formatted message is the list of its pieces: rendering numbers and OIDs as digits is left out.
use kurbu5_pkinit.Common.{List, Oid, Result, String, Text, [], ℕ, ◌∷◌}
use kurbu5_pkinit.Common.Int.{ℤ}

-- What a library reports: its error's display text.
abbrev pub Fault : Type 0
Fault = Text

pub data Piece : Type 0 where
  str : String → Piece
  text : Text → Piece
  num : ℕ → Piece
  int : ℤ → Piece
  arcs : Oid → Piece

abbrev pub Message : Type 0
Message = List Piece

pub data PkinitError : Type 0 where
  cms_sign_failed : Message → PkinitError
  cms_verify_failed : Message → PkinitError
  cms_content_type_mismatch : String → Oid → PkinitError
  dh_params_rejected : Message → PkinitError
  dh_agreement_failed : Message → PkinitError
  kdf_failed : Message → PkinitError
  san_mismatch : Message → PkinitError
  eku_mismatch : Message → PkinitError
  cert_match_rejected : Message → PkinitError
  identity_load_failed : Message → PkinitError
  pkcs12_password_required : PkinitError
  chain_validation_failed : Message → PkinitError
  kdc_ca_trust_denied : Message → PkinitError
  kdc_ca_trust_unknown : PkinitError
  clock_skew : ℤ → ℤ → PkinitError
  checksum_failed : PkinitError
  nonce_mismatch : ℤ → ℤ → PkinitError
  no_supported_kdf : PkinitError
  asn1 : Message → PkinitError
  ossl : Message → PkinitError
  io : Fault → PkinitError
  config : Message → PkinitError
  kem_encap_failed : Message → PkinitError
  kem_decap_failed : Message → PkinitError
  kem_algorithm_mismatch : Oid → Oid → PkinitError
  kem_ciphertext_length_invalid : ℕ → ℕ → PkinitError
  kem_algorithm_not_supported : Message → PkinitError
  no_acceptable_kdf : PkinitError
  kdf_not_offered : Message → PkinitError
  no_acceptable_key_exchange : Message → PkinitError
  kem_nonce_not_allowed : PkinitError
  downgrade_rejected : Message → PkinitError
  unsupported : Message → PkinitError

abbrev pub Pkinit {ℓ} : Type ℓ → Type ℓ
Pkinit A = Result PkinitError A

-- `format!("{context}: {e}")`
abbrev pub because : String → Fault → Message
because context e = str context ∷ str ": " ∷ text e ∷ []

abbrev pub asn1_err : String → Fault → PkinitError
asn1_err context e = asn1 (because context e)

pub data KemErrorClass : Type 0 where
  ephemeral_key_params_not_accepted no_acceptable_kdf preauth_failed : KemErrorClass
  invalid_signature client_not_trusted inconsistent_key_purpose other : KemErrorClass

unfoldable pub kem_error_class : PkinitError → KemErrorClass
kem_error_class (kem_algorithm_not_supported _) = ephemeral_key_params_not_accepted
kem_error_class (dh_params_rejected _) = ephemeral_key_params_not_accepted
kem_error_class PkinitError.no_acceptable_kdf = KemErrorClass.no_acceptable_kdf
kem_error_class no_supported_kdf = KemErrorClass.no_acceptable_kdf
kem_error_class kem_nonce_not_allowed = preauth_failed
kem_error_class (cms_verify_failed _) = invalid_signature
kem_error_class (chain_validation_failed _) = client_not_trusted
kem_error_class (eku_mismatch _) = inconsistent_key_purpose
kem_error_class _ = other
