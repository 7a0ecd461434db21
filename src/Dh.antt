-- ===== src/Dh.antt =====
-- pkinit-core/src/crypto/dh.rs: DH and ECDH key pairs, and the groups named by keys and by
-- algorithm identifiers.
pub mod Oakley
pub mod Groups
use kurbu5_pkinit.Common.{
  Bytes, Oid, Option, String, Text, [], err, if◌then◌else◌, leb, list_eq, ltb, map_err, nat_eq,
  none, ok, ok_or, option_eq, some, ℕ, ◌&&◌, ◌==◌, ◌>>=◌, ◌>>◌, ◌||◌, ◌∷◌,
}
use kurbu5_pkinit.Error.{
  Fault, Pkinit, PkinitError, asn1_err, because, dh_agreement_failed, dh_params_rejected, num, ossl,
  str, text,
}
use kurbu5_pkinit.Constants.{
  DhGroup, Oids, codes, ec_p256, ec_p384, ec_p521, group_eq, kem_eq, min_bits, oakley2048,
  oakley4096,
}
use kurbu5_pkinit.Synta.{Synta}
use kurbu5_pkinit.Crypto.{Crypto}
use Oakley.{oakley_2048_der, oakley_4096_der, oakley_2048_prime, oakley_4096_prime}

abbrev pub ossl_err : String → Fault → PkinitError
ossl_err context e = ossl (because context e)

abbrev agreement_err : String → Fault → PkinitError
agreement_err context e = dh_agreement_failed (because context e)

pub record DhKeyPair (H : Type 0) : Type 0 where
  pub group : DhGroup
  pub pkey : H

module _ {H : Type 0} where
  unfoldable pub generate_dhx : Crypto H → ℕ → Bytes → Pkinit H
  generate_dhx crypto draw params_der = do
    params_key ← map_err (crypto.dhx_params_from_der params_der) (ossl_err "load DH params")
    exported ← map_err (crypto.export params_key) (ossl_err "export DH params")
    kgen ← map_err (crypto.keygen_ctx (codes "DHX")) (ossl_err "DHX keygen ctx")
    ready ← map_err (crypto.set_params kgen exported) (ossl_err "set DH params")
    map_err (crypto.keygen draw ready) (ossl_err "DHX keygen")

  unfoldable pub generate_ec : Crypto H → ℕ → Text → Pkinit H
  generate_ec crypto draw curve = do
    builder ← map_err crypto.param_builder (ossl_err "param builder")
    set ← map_err (crypto.set_group builder curve) (ossl_err "set EC group")
    params ← map_err (crypto.build_params set) (ossl_err "build EC params")
    kgen ← map_err (crypto.keygen_ctx (codes "EC")) (ossl_err "EC keygen ctx")
    ready ← map_err (crypto.set_params kgen params) (ossl_err "set EC params")
    map_err (crypto.keygen draw ready) (ossl_err "EC keygen")

  unfoldable pub generate_pkey : Crypto H → ℕ → DhGroup → Pkinit H
  unfolding generate_dhx generate_ec
  generate_pkey crypto draw oakley2048 = generate_dhx crypto draw oakley_2048_der
  generate_pkey crypto draw oakley4096 = generate_dhx crypto draw oakley_4096_der
  generate_pkey crypto draw ec_p256 = generate_ec crypto draw (codes "P-256")
  generate_pkey crypto draw ec_p384 = generate_ec crypto draw (codes "P-384")
  generate_pkey crypto draw ec_p521 = generate_ec crypto draw (codes "P-521")

  -- `DhKeyPair::generate`
  unfoldable pub generate : Crypto H → ℕ → DhGroup → Pkinit (DhKeyPair H)
  generate crypto draw group = do
    pkey ← generate_pkey crypto draw group
    ok (record { group = group; pkey = pkey })

  -- `DhKeyPair::public_key_spki_der`
  unfoldable pub dh_spki_der : Crypto H → DhKeyPair H → Pkinit Bytes
  dh_spki_der crypto key =
      map_err (crypto.public_key_to_der key.pkey) (ossl_err "SPKI encode failed")

  -- `DhKeyPair::derive_shared_secret`. `truncate` keeps what `derive` wrote.
  unfoldable pub derive_shared_secret : Crypto H → DhKeyPair H → Bytes → Pkinit Bytes
  derive_shared_secret crypto key peer_spki = do
    peer ← map_err (crypto.pkey_from_der peer_spki) (agreement_err "peer key decode")
    ctx ← map_err (crypto.derive_ctx key.pkey) (agreement_err "derive ctx")
    ctx' ← map_err (crypto.set_peer ctx peer) (agreement_err "set peer")
    len ← map_err (crypto.derive_len ctx') (agreement_err "derive len")
    map_err (crypto.derive ctx' len) (agreement_err "derive")

-- The rejection of a key that is too small.
abbrev pub too_small : ℕ → ℕ → PkinitError
too_small bits min_bits =
    dh_params_rejected
      (str "key size " ∷ num bits ∷ str " bits < minimum " ∷ num min_bits ∷ str " bits" ∷ [])

unfoldable pub identify_oakley_group : Bytes → ℕ → Pkinit DhGroup
identify_oakley_group p bits =
    if leb 2048 bits && ltb bits 4096 && p == oakley_2048_prime
    then ok oakley2048
    else if leb 4096 bits && p == oakley_4096_prime
    then ok oakley4096
    else err (
        dh_params_rejected (
          str "DH prime ("
          ∷ num bits
          ∷ str " bits) does not match any well-known Oakley group"
          ∷ []))

-- The branch of `validate_dh_params` for a key that names its group.
unfoldable pub named_group : Text → ℕ → ℕ → Pkinit DhGroup
named_group name bits min_bits =
    if name == codes "prime256v1" || name == codes "P-256"
    then ok ec_p256
    else if name == codes "secp384r1" || name == codes "P-384"
    then ok ec_p384
    else if name == codes "secp521r1" || name == codes "P-521"
    then ok ec_p521
    else if ltb bits min_bits
    then err (too_small bits min_bits)
    else if name == codes "modp_2048"
    then ok oakley2048
    else if name == codes "modp_4096"
    then ok oakley4096
    else err (dh_params_rejected (str "unsupported group: " ∷ text name ∷ []))

-- The branch for explicit domain parameters.
unfoldable pub explicit_group : Option Bytes → ℕ → ℕ → Pkinit DhGroup
unfolding identify_oakley_group
explicit_group p bits min_bits =
    if ltb bits min_bits then err (too_small bits min_bits) else elim p [
      | some p_bytes ↦ identify_oakley_group p_bytes bits
      | none ↦ err (dh_params_rejected (str "could not identify DH group from key parameters" ∷ []))
    ]

unfoldable pub validate_dh_params : {H : Type 0} → Crypto H → Bytes → ℕ → Pkinit DhGroup
unfolding named_group explicit_group
validate_dh_params crypto spki min_bits = do
  key ← map_err (crypto.pkey_from_der spki) (λ e. dh_params_rejected (because "decode SPKI" e))
  exported ← map_err (crypto.export key) (λ e. dh_params_rejected (because "export params" e))
  elim (crypto.get_group_name exported) [
    | some name ↦ named_group name (crypto.bits key) min_bits
    | none ↦ explicit_group (crypto.get_p exported) (crypto.bits key) min_bits
  ]

-- `None` in the source stands for the classic groups, which have no curve.
unfoldable pub curve_oid : Oids → DhGroup → Option Oid
curve_oid oids ec_p256 = some oids.secp256r1
curve_oid oids ec_p384 = some oids.secp384r1
curve_oid oids ec_p521 = some oids.secp521r1
curve_oid oids _ = none

unfoldable pub group_params_der : DhGroup → Option Bytes
group_params_der oakley2048 = some oakley_2048_der
group_params_der oakley4096 = some oakley_4096_der
group_params_der _ = none

-- The two branches of `group_algorithm_oid_and_params`. The parameters are an `Element`; one that
-- holds a curve OID is its DER.
unfoldable pub ec_identifier : Synta → Oid → Pkinit (Oid × Option Bytes)
ec_identifier synta curve = do
  c ← map_err (synta.object_identifier curve) (asn1_err "curve OID")
  element ← map_err (synta.oid_to_der c) (asn1_err "curve OID")
  ok (synta.oids.id_ec_public_key, some element)

unfoldable pub dh_identifier : Synta → Option Bytes → Pkinit (Oid × Option Bytes)
dh_identifier synta params_der = do
  params ← ok_or params_der (dh_params_rejected (str "unknown DH group" ∷ []))
  element ← map_err (synta.element_from_der params) (asn1_err "decode DH params")
  ok (synta.oids.dhpublicnumber, some element)

unfoldable pub group_algorithm_oid_and_params : Synta → DhGroup → Pkinit (Oid × Option Bytes)
unfolding curve_oid group_params_der ec_identifier dh_identifier
group_algorithm_oid_and_params synta group = elim (curve_oid synta.oids group) [
  | some curve ↦ ec_identifier synta curve
  | none ↦ dh_identifier synta (group_params_der group)
]

unfoldable pub curve_group : Oids → Oid → Option DhGroup
curve_group oids c =
    if c == oids.secp256r1
    then some ec_p256
    else if c == oids.secp384r1
    then some ec_p384
    else if c == oids.secp521r1
    then some ec_p521
    else none

unfoldable pub oakley_group : Bytes → ℕ → Option DhGroup
oakley_group params min =
    if params == oakley_2048_der
    then (if leb min (min_bits oakley2048) then some oakley2048 else none)
    else if params == oakley_4096_der
    then (if leb min (min_bits oakley4096) then some oakley4096 else none)
    else none

-- `params_der?` ends the EC branch with `None`; absent parameters match neither Oakley group.
unfoldable pub group_from_algorithm_identifier : Synta → Oid → Option Bytes → ℕ → Option DhGroup
unfolding curve_group oakley_group
group_from_algorithm_identifier synta oid none min = none
group_from_algorithm_identifier synta oid (some params) min =
    if oid == synta.oids.id_ec_public_key
    then elim (synta.oid_from_der params) [ ok c ↦ curve_group synta.oids c | err _ ↦ none ]
    else if oid == synta.oids.dhpublicnumber
    then oakley_group params min
    else none
