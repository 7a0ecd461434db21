-- ===== src/San.antt =====
-- pkinit-core/src/san.rs: what the code reads from a certificate's extensions.
use Prim.Native.Nat.{bit_or}
use kurbu5_pkinit.Common.{
  Bytes, List, Oid, Option, Text, [], filter_map, if◌then◌else◌, list_eq, map_err, nat_eq, none, ok,
  option_eq, some, suc, zero, ℕ, ◌==◌, ◌>>=◌, ◌^◌, ◌∷◌,
}
use kurbu5_pkinit.Error.{Pkinit, asn1_err}
use kurbu5_pkinit.Constants.{group_eq, kem_eq}
use kurbu5_pkinit.Synta.{GeneralName, Synta, dns_name, other_name}

module _ (synta : Synta) where
  unfoldable pub decode_san : Bytes → Pkinit (List GeneralName)
  decode_san ext_raw = elim (synta.find_subject_alt_name ext_raw) [
    | some san ↦ map_err (synta.general_names_from_der san) (asn1_err "decode SubjectAltName")
    | none ↦ ok []
  ]

  -- The common beginning of the SAN readers: `none` for a certificate without extensions.
  unfoldable pub subject_alt_names : Bytes → Pkinit (Option (List GeneralName))
  unfolding decode_san
  subject_alt_names cert_der = do
    cert ← map_err (synta.certificate_from_der cert_der) (asn1_err "parse certificate")
    elim cert.extensions [ none ↦ ok none | some raw ↦ do sans ← decode_san raw; ok (some sans) ]

  unfoldable pub pkinit_principals : List GeneralName → Pkinit (List Text)
  pkinit_principals [] = ok []
  pkinit_principals (other_name on ∷ rest) = do
    on_der ← map_err (synta.other_name_to_der on) (asn1_err "encode OtherName")
    found ← pkinit_principals rest
    elim (synta.decode_krb5_san on_der) [ some p ↦ ok (p ∷ found) | none ↦ ok found ]
  pkinit_principals (_ ∷ rest) = pkinit_principals rest

  unfoldable pub extract_pkinit_sans : Bytes → Pkinit (List Text)
  unfolding subject_alt_names pkinit_principals
  extract_pkinit_sans cert_der = do
    sans ← subject_alt_names cert_der
    elim sans [ none ↦ ok [] | some names ↦ pkinit_principals names ]

  unfoldable pub upn_of : Oid → GeneralName → Option Text
  upn_of upn_oid (other_name on) = if on.type_id == upn_oid then on.utf8 else none
  upn_of upn_oid _ = none

  unfoldable pub extract_upn_sans : Bytes → Pkinit (List Text)
  unfolding subject_alt_names upn_of
  extract_upn_sans cert_der = do
    sans ← subject_alt_names cert_der
    elim sans [
      | none ↦ ok []
      | some names ↦ do
        ms_upn_oid ← map_err (synta.object_identifier synta.oids.id_ms_san_upn) (asn1_err "UPN OID")
        ok (filter_map (upn_of ms_upn_oid) names)
    ]

  unfoldable pub dns_of : GeneralName → Option Text
  dns_of (dns_name n) = some n
  dns_of _ = none

  unfoldable pub extract_dns_names : Bytes → Pkinit (List Text)
  unfolding subject_alt_names dns_of
  extract_dns_names cert_der = do
    sans ← subject_alt_names cert_der
    elim sans [ none ↦ ok [] | some names ↦ ok (filter_map dns_of names) ]

  unfoldable pub extract_eku_oids : Bytes → Pkinit (List Oid)
  extract_eku_oids cert_der = do
    cert ← map_err (synta.certificate_from_der cert_der) (asn1_err "parse certificate")
    elim cert.extensions [
      | none ↦ ok []
      | some raw ↦ elim (synta.find_extended_key_usage raw) [
        | none ↦ ok []
        | some eku ↦
            map_err (synta.extended_key_usage_from_der eku) (asn1_err "decode ExtendedKeyUsage")
      ]
    ]

  -- `for i in 0..n { if key_usage_bit(&ku, i) { bits |= 1 << i } }`
  unfoldable pub key_usage_bits : Bytes → ℕ → ℕ
  key_usage_bits ku zero = 0
  key_usage_bits ku (suc i) =
      let bits = key_usage_bits ku i in
      if synta.key_usage_bit ku i then bit_or bits (2 ^ i) else bits

  unfoldable pub extract_key_usage : Bytes → Pkinit ℕ
  unfolding key_usage_bits
  extract_key_usage cert_der = do
    cert ← map_err (synta.certificate_from_der cert_der) (asn1_err "parse certificate")
    elim cert.extensions [
      | none ↦ ok 0
      | some raw ↦ elim (synta.find_key_usage raw) [
        | none ↦ ok 0
        | some bytes ↦ do
          ku ← map_err (synta.key_usage_from_der bytes) (asn1_err "decode KeyUsage")
          ok (key_usage_bits ku 9)
      ]
    ]
