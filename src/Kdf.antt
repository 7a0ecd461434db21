-- ===== src/Kdf.antt =====
-- pkinit-core/src/crypto/kdf.rs: choice of a KDF and derivation of the reply key. The krb5 key
-- derivation behind `OctetString2Key` is an interface, as in the source.
pub mod Choice
use Prim.Native.Nat.{min}
use kurbu5_pkinit.Common.{
  Bool, Bytes, List, Oid, Option, String, Text, [], any, drop, err, false, find, if◌then◌else◌,
  length, list_eq, map_err, nat_eq, none, ok, ok_or, option_eq, some, suc, take, zero, ℕ, ◌++◌,
  ◌==◌, ◌>>=◌, ◌>>◌, ◌∷◌,
}
use kurbu5_pkinit.Common.Int.{ℤ, ℤ_eq}
use kurbu5_pkinit.Error.{
  Fault, Pkinit, PkinitError, asn1, asn1_err, because, kdf_failed, no_supported_kdf, str, text,
}
use kurbu5_pkinit.Constants.{Oids, codes, group_eq, kem_eq}
use kurbu5_pkinit.Synta.{Synta}
use kurbu5_pkinit.Crypto.{Crypto}

pub record DerivedKey : Type 0 where
  pub enctype : ℤ
  pub key_data : Bytes

pub record OctetString2Key : Type 0 where
  pub random_to_key : ℤ → Bytes → Pkinit Bytes
  pub random_length : ℤ → Pkinit ℕ
  pub key_length : ℤ → Pkinit ℕ

-- constants.rs
unfoldable pub kdf_preference_order : Oids → List Oid
kdf_preference_order oids =
    oids.id_pkinit_kdf_ah_sha256 ∷ oids.id_pkinit_kdf_ah_sha1 ∷ oids.id_pkinit_kdf_ah_sha512 ∷ []

unfoldable pub pick_kdf_alg : Oids → List Oid → Option Oid
pick_kdf_alg oids client_kdfs =
    find (λ preferred. any (λ k. k == preferred) client_kdfs) (kdf_preference_order oids)

unfoldable pub kdf_oid_to_digest_name : Oids → Oid → Pkinit Text
kdf_oid_to_digest_name oids kdf_oid =
    if kdf_oid == oids.id_pkinit_kdf_ah_sha1
    then ok (codes "SHA1")
    else if kdf_oid == oids.id_pkinit_kdf_ah_sha256
    then ok (codes "SHA2-256")
    else if kdf_oid == oids.id_pkinit_kdf_ah_sha512
    then ok (codes "SHA2-512")
    else err no_supported_kdf

pub record KdfInput : Type 0 where
  pub shared_secret : Bytes
  pub kdf_oid : Oid
  pub enctype : ℤ
  pub party_u_info : Bytes
  pub party_v_info : Bytes
  pub as_req_der : Bytes
  pub pa_pk_as_rep_der : Bytes

pub record KemKdfInput : Type 0 where
  pub shared_secret : Bytes
  pub enctype : ℤ
  pub as_req_der : Bytes
  pub kem_signed_data : Bytes

abbrev pub kdf_err : String → Fault → PkinitError
kdf_err context e = kdf_failed (because context e)

module _ {H : Type 0} (synta : Synta) (crypto : Crypto H) (o2k : OctetString2Key) where
  unfoldable pub sskdf : Text → Bytes → Bytes → ℕ → Pkinit Bytes
  sskdf digest_name secret info len = do
    alg ← map_err (crypto.kdf_fetch (codes "SSKDF")) (kdf_err "fetch SSKDF")
    ctx ← map_err (crypto.kdf_ctx alg) (kdf_err "SSKDF ctx")
    builder ← map_err crypto.param_builder (kdf_err "param builder")
    with_digest ← map_err (crypto.push_digest builder digest_name) (kdf_err "set digest")
    with_key ← map_err (crypto.push_key with_digest secret) (kdf_err "set key")
    with_info ← map_err (crypto.push_info with_key info) (kdf_err "set info")
    params ← map_err (crypto.build_params with_info) (kdf_err "build params")
    map_err (crypto.kdf_derive ctx params len) (kdf_err "SSKDF derive")

  unfoldable pub pkinit_kdf : KdfInput → Pkinit DerivedKey
  unfolding sskdf
  pkinit_kdf input = do
    digest_name ← kdf_oid_to_digest_name synta.oids input.kdf_oid
    rand_len ← o2k.random_length input.enctype
    o ← map_err (synta.object_identifier input.kdf_oid) (asn1_err "KDF OID")
    supp_pub_info ←
        map_err
          (synta.supp_pub_info_to_der (record {
            enctype = input.enctype;
            as_req = input.as_req_der;
            pk_as_rep = input.pa_pk_as_rep_der;
          }))
          (asn1_err "encode SuppPubInfo")
    other_info ←
        map_err
          (synta.other_info_to_der (record {
            algorithm_id = record { algorithm = o; parameters = none };
            party_uinfo = input.party_u_info;
            party_vinfo = input.party_v_info;
            supp_pub_info = some supp_pub_info;
            supp_priv_info = none;
          }))
          (asn1_err "encode OtherInfo")
    random_data ← sskdf digest_name input.shared_secret other_info rand_len
    key_data ← o2k.random_to_key input.enctype random_data
    ok (record { enctype = input.enctype; key_data = key_data })

  unfoldable pub pkinit_kem_kdf : KemKdfInput → Pkinit DerivedKey
  pkinit_kem_kdf input = do
    rand_len ← o2k.random_length input.enctype
    supp_pub_info ←
        map_err
          (synta.kem_supp_pub_info_to_der (record {
            enctype = input.enctype;
            as_req = input.as_req_der;
            kem_signed_data = input.kem_signed_data;
          }))
          (asn1_err "encode PkinitKEMSuppPubInfo")
    prk ←
        map_err (crypto.hkdf_extract (codes "sha512") input.shared_secret) (kdf_err "HKDF-Extract")
    okm ←
        map_err (crypto.hkdf_expand (codes "sha512") prk supp_pub_info rand_len)
          (kdf_err "HKDF-Expand")
    key_data ← o2k.random_to_key input.enctype okm
    ok (record { enctype = input.enctype; key_data = key_data })

unfoldable pub zeros : ℕ → Bytes
zeros zero = []
zeros (suc n) = 0 ∷ zeros n

-- `vec![0u8; rand_len]` with the first bytes of the secret copied over its start.
unfoldable pub seed_of_secret : ℕ → Bytes → Bytes
unfolding zeros
seed_of_secret rand_len secret =
    let copy_len = min rand_len (length secret) in
    take copy_len secret ++ drop copy_len (zeros rand_len)

unfoldable pub octetstring2key : OctetString2Key → Bytes → ℤ → Pkinit DerivedKey
unfolding seed_of_secret
octetstring2key o2k shared_secret enctype = do
  rand_len ← o2k.random_length enctype
  key_data ← o2k.random_to_key enctype (seed_of_secret rand_len shared_secret)
  ok (record { enctype = enctype; key_data = key_data })

-- Two components, WELLKNOWN/ANONYMOUS.
unfoldable pub is_anonymous_principal : Synta → Text → Bool
is_anonymous_principal synta name = elim (synta.parse_principal name) [
  | none ↦ false
  | some p ↦ p.name_string == (codes "WELLKNOWN" ∷ codes "ANONYMOUS" ∷ [])
]

unfoldable pub encode_principal_for_kdf : Synta → Text → Pkinit Bytes
unfolding is_anonymous_principal
encode_principal_for_kdf synta name =
    if is_anonymous_principal synta name
    then map_err
        (synta.encode_principal_name_from_parts synta.nt_wellknown
          (codes "WELLKNOWN" ∷ codes "ANONYMOUS" ∷ []) (codes "WELLKNOWN:ANONYMOUS"))
        (asn1_err "encode anonymous principal for KDF")
    else do
      p ←
          ok_or (synta.parse_principal name)
            (asn1 (str "invalid principal name: " ∷ text name ∷ []))
      map_err
          (synta.encode_principal_name_from_parts p.name_type p.name_string
            (elim p.realm [ some r ↦ r | none ↦ [] ]))
          (asn1_err "encode principal for KDF")
