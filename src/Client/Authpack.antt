-- ===== src/Client/Authpack.antt =====
-- pkinit-core/src/client.rs: the parts of an AuthPack that `build_as_req` puts together.
use kurbu5_pkinit.Common.{
  Bool, Bytes, List, Oid, Option, [], collect, err, false, if◌then◌else◌, is_empty, map_err, none,
  ok, ok_or, some, true, ◌>>=◌, ◌∷◌,
}
use kurbu5_pkinit.Common.Int.{ℤ}
use kurbu5_pkinit.Error.{Pkinit, asn1, asn1_err, identity_load_failed, str}
use kurbu5_pkinit.Synta.{PkAuthenticator, Synta}
use kurbu5_pkinit.Crypto.{Crypto}
use kurbu5_pkinit.KemTypes.{encode_nonce}
use kurbu5_pkinit.Checksum.{generate_checksums}
use kurbu5_pkinit.Identity.{PkinitIdentity}
use kurbu5_pkinit.Cms.{Cms, digest_for_signer}

-- `supported_kdfs`
module _ (synta : Synta) where
  unfoldable pub kdfs_of : Bool → List Oid
  kdfs_of true = synta.oids.id_alg_hkdf_with_sha512 ∷ []
  kdfs_of false =
      synta.oids.id_pkinit_kdf_ah_sha256 ∷ synta.oids.id_pkinit_kdf_ah_sha512
      ∷ synta.oids.id_pkinit_kdf_ah_sha1 ∷ []

  unfoldable pub request_kdfs : Bool → Pkinit (List Oid)
  unfolding kdfs_of
  request_kdfs use_kem =
      collect (λ o. map_err (synta.object_identifier o) (asn1_err "KDF OID")) (kdfs_of use_kem)

module _ {H : Type 0} (synta : Synta) (crypto : Crypto H) where
  unfoldable pub request_authenticator : Option Bytes → ℤ → ℤ → ℤ → Bytes → Pkinit PkAuthenticator
  request_authenticator freshness nonce ctime cusec req_body = do
    checksums ← generate_checksums synta crypto req_body
    gen_time ← ok_or (synta.from_unix ctime) (asn1 (str "invalid ctime" ∷ []))
    sha256 ← map_err (synta.object_identifier synta.oids.id_sha256) (asn1_err "SHA-256 OID")
    ok (record {
      cusec = cusec;
      ctime = gen_time;
      nonce = encode_nonce nonce;
      pa_checksum = some checksums.sha1;
      freshness_token = freshness;
      pa_checksum2 = some (record {
        checksum = checksums.sha256;
        algorithm_identifier = record { algorithm = sha256; parameters = none };
      });
    })

module _ {H : Type 0} (synta : Synta) (cms : Cms H) where
  -- Anonymous clients send an unsigned AuthPack.
  unfoldable pub sign_auth_pack : PkinitIdentity H → Bytes → Pkinit Bytes
  sign_auth_pack identity auth_pack_der =
      if is_empty identity.cert_der
      then cms.create_unsigned_data auth_pack_der synta.oids.id_pkinit_auth_data
      else elim identity.signing_key [
        | none ↦
            err (
              identity_load_failed
                (str "client identity has a certificate but no signing key" ∷ []))
        | some key ↦
            cms.create_signed_data auth_pack_der synta.oids.id_pkinit_auth_data key
              identity.cert_der identity.chain (digest_for_signer synta identity.cert_der)
      ]
