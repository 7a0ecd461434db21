-- ===== src/Identity/Store.antt =====
-- pkinit-core/src/identity/store.rs: the trust store and chain validation.
use kurbu5_pkinit.Common.{
  Bool, Bytes, List, String, [], collect, if◌then◌else◌, is_empty, map_err, none, reject_if, some,
  ℕ, ◌&&◌, ◌++◌, ◌>>=◌, ◌>>◌, ◌∷◌,
}
use kurbu5_pkinit.Error.{Fault, Pkinit, PkinitError, because, chain_validation_failed, str, text}
use kurbu5_pkinit.Synta.{Synta}
use kurbu5_pkinit.Crypto.{Crypto, Policy, permit_all}

pub record TrustStore : Type 0 where
  pub anchors : List Bytes
  pub intermediates : List Bytes
  pub crls : List Bytes

abbrev pub new_store : TrustStore
new_store = record { anchors = []; intermediates = []; crls = [] }

unfoldable pub add_anchor : TrustStore → Bytes → TrustStore
add_anchor s cert = record s { anchors = s.anchors ++ cert ∷ [] }

unfoldable pub add_intermediate : TrustStore → Bytes → TrustStore
add_intermediate s cert = record s { intermediates = s.intermediates ++ cert ∷ [] }

unfoldable pub add_crl : TrustStore → Bytes → TrustStore
add_crl s crl = record s { crls = s.crls ++ crl ∷ [] }

-- A decoded block of a trust store file: by its label a certificate, a CRL, or of no interest.
pub data PkiBlock : Type 0 where
  certificate_block crl_block other_block : Bytes → PkiBlock

-- The loop over the blocks of one file in `load_from_path`.
unfoldable pub load_blocks : TrustStore → List PkiBlock → TrustStore
load_blocks s [] = s
load_blocks s (certificate_block der ∷ bs) =
    load_blocks (record s { anchors = s.anchors ++ der ∷ [] }) bs
load_blocks s (crl_block der ∷ bs) = load_blocks (record s { crls = s.crls ++ der ∷ [] }) bs
load_blocks s (other_block _ ∷ bs) = load_blocks s bs

abbrev pub chain_err : String → Fault → PkinitError
chain_err context e = chain_validation_failed (because context e)

-- `now` is the system clock, in Unix seconds.
module _ {H : Type 0} (synta : Synta) (crypto : Crypto H) (now : ℕ) where
  unfoldable pub validate_chain : TrustStore → Bytes → List Bytes → Bool → Pkinit (Unit {0})
  validate_chain s cert chain require_crl = do
    store ← map_err (crypto.trust_store s.anchors) (chain_err "building trust store")
    _ ← map_err (synta.certificate_from_der cert) (chain_err "decoding leaf cert")
    let intermediates = chain ++ s.intermediates
    _ ←
        collect
          (λ der. map_err (synta.certificate_from_der der) (chain_err "decoding intermediate cert"))
          intermediates
    reject_if (require_crl && is_empty s.crls)
        (chain_validation_failed (str "CRL checking required but no CRLs loaded" ∷ []))
    let policy : Policy = record {
      now = now;
      ca_extension_policy = permit_all;
      crls = if require_crl then some s.crls else none;
    }
    map_err (crypto.verify_chain store cert intermediates policy)
        (λ e. chain_validation_failed (text e ∷ []))
