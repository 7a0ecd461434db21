-- ===== src/Plugin.antt =====
-- kurbu5-pkinit/src: the krb5 plugin modules over the core. What they call of libkrb5 and of the
-- kurbu5-rs bindings is a record of parameters: error codes, flags, and the caller's principals.
use kurbu5_pkinit.Common.{
  Bool, Bytes, List, Result, Text, [], list_eq, nat_eq, option_eq, ◌==◌, ◌∷◌,
}
use kurbu5_pkinit.Common.Int.{pos, ℤ, ℤ_eq}
use kurbu5_pkinit.Common.Strings.{codes}
use kurbu5_pkinit.Error.{
  client_not_trusted, inconsistent_key_purpose, no_acceptable_kdf, preauth_failed,
}
pub mod Kdc
pub mod Authorized
pub mod Client
pub mod Process
pub mod Fallback
pub mod Start
pub mod Session
pub mod Contribution

-- kurbu5_rs::PrincipalRef: the components of the name.
pub record PrincipalRef : Type 0 where
  pub components : List Bytes

pub data Krb5Error : Type 0 where
  custom : ℤ → Krb5Error
  no_handle : Krb5Error

pub record PaData : Type 0 where
  pub pa_type : ℤ
  pub contents : Bytes

pub record Krb5 : Type 0 where
  pub einval : ℤ
  pub preauth_failed : ℤ
  pub no_acceptable_kdf : ℤ
  pub invalid_sig : ℤ
  pub client_not_trusted : ℤ
  pub inconsistent_key_purpose : ℤ
  pub client_name_mismatch : ℤ
  pub unparse_principal : PrincipalRef → Result Krb5Error Text

-- pkinit-core/src/constants.rs
abbrev pub pa_pk_as_req : ℤ
pa_pk_as_req = pos 16

abbrev pub pa_pk_as_rep : ℤ
pa_pk_as_rep = pos 17

abbrev pub pa_pkinit_kx : ℤ
pa_pkinit_kx = pos 147

abbrev pub pa_as_freshness : ℤ
pa_as_freshness = pos 150

abbrev pub enctype_aes256_cts_hmac_sha1_96 : ℤ
enctype_aes256_cts_hmac_sha1_96 = pos 18

-- principal.rs
unfoldable pub is_anonymous : PrincipalRef → Bool
is_anonymous p = p.components == (codes "WELLKNOWN" ∷ codes "ANONYMOUS" ∷ [])
