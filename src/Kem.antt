-- ===== src/Kem.antt =====
-- pkinit-core/src/crypto/kem.rs: KEM key pairs, encapsulation and decapsulation.
use kurbu5_pkinit.Common.{
  Bytes, [], if◌then◌else◌, length, list_eq, map_err, nat_eq, none, not, ok, option_eq, reject_if,
  some, ℕ, ◌==◌, ◌>>=◌, ◌>>◌, ◌∷◌,
}
use kurbu5_pkinit.Error.{
  Pkinit, because, kem_ciphertext_length_invalid, kem_decap_failed, kem_encap_failed, str, text,
}
use kurbu5_pkinit.Constants.{
  KemAlgorithm, ciphertext_len, composite_sub_arc, group_eq, is_composite, kem_eq,
  parameter_set_name,
}
use kurbu5_pkinit.Crypto.{Crypto}

pub record KemKeyPair (H : Type 0) : Type 0 where
  pub algorithm : KemAlgorithm
  pub private_key : H

module _ {H : Type 0} (crypto : Crypto H) where
  -- `KemKeyPair::generate`
  unfoldable pub generate_kem : ℕ → KemAlgorithm → Pkinit (KemKeyPair H)
  generate_kem draw algorithm = do
    private_key ←
        map_err
          (elim (composite_sub_arc algorithm) [
            | some sub_arc ↦ crypto.generate_composite_kem draw sub_arc
            | none ↦ crypto.generate_ml_kem draw (parameter_set_name algorithm)
          ])
          (λ e.
            kem_encap_failed
              (str "generate " ∷ text (parameter_set_name algorithm) ∷ str ": " ∷ text e ∷ []))
    ok (record { algorithm = algorithm; private_key = private_key })

  -- `KemKeyPair::public_key_spki_der`
  unfoldable pub kem_spki_der : KemKeyPair H → Pkinit Bytes
  kem_spki_der key =
      map_err (crypto.public_key_spki_der key.private_key)
        (λ e. kem_encap_failed (because "SPKI export" e))

  unfoldable pub decapsulate : KemKeyPair H → Bytes → Pkinit Bytes
  decapsulate key ciphertext = do
    reject_if (not (length ciphertext == ciphertext_len key.algorithm))
        (kem_ciphertext_length_invalid (ciphertext_len key.algorithm) (length ciphertext))
    map_err
        (if is_composite key.algorithm
          then crypto.composite_kem_decapsulate key.private_key ciphertext
          else crypto.ml_kem_decapsulate key.private_key ciphertext)
        (λ e. kem_decap_failed (text e ∷ []))

  unfoldable pub encapsulate_for_client : ℕ → Bytes → KemAlgorithm → Pkinit (Bytes × Bytes)
  encapsulate_for_client draw client_spki algorithm = do
    let pub_key = crypto.public_key_from_spki client_spki
    (ciphertext, shared_secret) ←
        map_err
          (if is_composite algorithm
            then crypto.composite_kem_encapsulate draw pub_key
            else crypto.ml_kem_encapsulate draw pub_key)
          (λ e.
            kem_encap_failed
              (str "encapsulate " ∷ text (parameter_set_name algorithm) ∷ str ": " ∷ text e ∷ []))
    reject_if (not (length ciphertext == ciphertext_len algorithm))
        (kem_ciphertext_length_invalid (ciphertext_len algorithm) (length ciphertext))
    ok (ciphertext, shared_secret)
