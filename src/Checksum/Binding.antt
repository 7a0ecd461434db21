-- ===== src/Checksum/Binding.antt =====
-- pkinit-core/src/crypto/checksum.rs: the checksums of a client are those that a KDC verifies.
use kurbu5_pkinit.Common.{
  Bytes, ap, arith, length, ok, ok-injective, some, sym, true, try-eq-ok, ◌≡◌,
}
use kurbu5_pkinit.Error.{PkinitError}
use kurbu5_pkinit.Constants.{codes}
use kurbu5_pkinit.Synta.{Synta}
use kurbu5_pkinit.Crypto.{Crypto}
use kurbu5_pkinit.Checksum.{
  Checksums, generate_checksums, verify_checksum2, verify_checksums, verify_pa_checksum,
}

module _ {H : Type 0} (synta : Synta) (crypto : Crypto H) where
  -- What the digests need: a comparison that is reflexive, SHA-1's 20 octets, and SHA-256's name.
  pub record IsDigests : Type 0 where
    pub ct_eq_refl : (b : Bytes) → crypto.ct_eq b b ≡ true
    pub sha1_octets : (b d : Bytes) → crypto.hash_data (codes "sha1") b ≡ ok d → length d ≡ 20
    pub sha256_name : synta.digest_oid_to_name synta.oids.id_sha256 ≡ some (codes "sha256")

  -- The SHA-1 checksum and the SHA-256 paChecksum2 that a client computes over a request body verify
  -- over that body.
  pub verify_checksums-generate_checksums :
      (body : Bytes) (sums : Checksums)
      → IsDigests
      → generate_checksums synta crypto body ≡ ok sums
      → verify_checksums synta crypto body sums.sha1 (some (sums.sha256, synta.oids.id_sha256))
        ≡ ok tt
  unfolding verify_checksums generate_checksums verify_pa_checksum verify_checksum2
  verify_checksums-generate_checksums body sums digests h =
      let (a, p, h1) = try-eq-ok (crypto.hash_data (codes "sha1") body) _ _ h in
      let (b, q, h2) = try-eq-ok (crypto.hash_data (codes "sha256") body) _ _ h1 in
      let s = ok-injective {E = PkinitError} h2 in
      let x : a ≡ sums.sha1 = ap (λ r. r.sha1) s in
      let y : b ≡ sums.sha256 = ap (λ r. r.sha256) s in
      let l : length sums.sha1 ≡ 20 = rw (sym x) (digests.sha1_octets body a p) in
      let u = digests.ct_eq_refl sums.sha1 in
      let v = digests.ct_eq_refl sums.sha256 in
      let n = digests.sha256_name in ground (arith, p, q, x, y, l, u, v, n)
