-- ===== src/Plugin/Session.antt =====
-- kurbu5-pkinit/src/kdc_plugin.rs: what the KDC's module adds to a reply, with the session key that an
-- anonymous client and the KDC both contribute to. Freeing and clearing the old key is left out.
use kurbu5_pkinit.Common.{
  Bool, Bytes, Option, Result, Text, err, false, if◌then◌else◌, length, list_eq, map_err, nat_eq,
  none, not, ok, option_eq, reject_if, some, ℕ, ◌==◌, ◌>>=◌, ◌>>◌,
}
use kurbu5_pkinit.Common.Int.{pos, ℤ, ℤ_eq}
use kurbu5_pkinit.Common.Strings.{codes}
use kurbu5_pkinit.Error.{Fault}
use kurbu5_pkinit.Synta.{Synta}
use kurbu5_pkinit.Crypto.{Crypto}
use kurbu5_pkinit.Kdf.{OctetString2Key}
use kurbu5_pkinit.Cms.{Cms}
use kurbu5_pkinit.Server.Verify.{VerifiedRequest}
use kurbu5_pkinit.Plugin.{
  Krb5, Krb5Error, PaData, PrincipalRef, custom, is_anonymous, pa_pk_as_req, pa_pkinit_kx,
}
use kurbu5_pkinit.Plugin.Kdc.{KdcpreauthCallbacks, PkinitKdc, return_pkinit_dh}

pub record Keyblock : Type 0 where
  pub enctype : ℤ
  pub contents : Bytes

-- What the module calls of libkrb5 and of the codecs of EncryptionKey and EncryptedData; whether
-- `malloc` finds the memory.
pub record KeyExchangeLibrary : Type 0 where
  pub fx_cf2_simple : Keyblock → Text → Keyblock → Text → Result Krb5Error Keyblock
  pub encrypt : Keyblock → ℕ → Bytes → Result Krb5Error (ℤ × Bytes)
  pub encryption_key_to_der : ℤ → Bytes → Result Fault Bytes
  pub encrypted_data_to_der : ℤ → Bytes → Result Fault Bytes
  pub replace_reply_key : Keyblock → Result Krb5Error (Unit {0})
  pub enomem : ℤ
  pub malloc_succeeds : ℕ → Bool

-- The reply that is being made: the padata it answers, its reply key, the ticket's session key (`none`
-- where a pointer on the way to it is null), and what the KDC says of the request.
pub record ReturnPadataRequest : Type 0 where
  pub padata_type : Option ℤ
  pub encrypting_key : Option Keyblock
  pub session : Option Keyblock
  pub modreq : Option VerifiedRequest
  pub server : Option PrincipalRef
  pub request_packet : Bytes

-- The keys that the reply goes on with.
pub record ReplyKeys : Type 0 where
  pub encrypting_key : Option Keyblock
  pub session : Option Keyblock

abbrev pub krb5_keyusage_pa_pkinit_kx : ℕ
krb5_keyusage_pa_pkinit_kx = 44

unfoldable pub keys_of : ReturnPadataRequest → ReplyKeys
keys_of req = record { encrypting_key = req.encrypting_key; session = req.session }

module _ (krb5 : Krb5) (library : KeyExchangeLibrary) where
  -- The KDC's own session key goes to the client under the reply key; the new session key mixes both.
  unfoldable pub contribute : Keyblock → Keyblock → Result Krb5Error (PaData × Keyblock)
  contribute reply_key session = do
    new_session ← library.fx_cf2_simple session (codes "PKINIT") reply_key (codes "KEYEXCHANGE")
    key_der ←
        map_err (library.encryption_key_to_der session.enctype session.contents)
          (λ _. custom krb5.einval)
    (etype, cipher) ← library.encrypt reply_key krb5_keyusage_pa_pkinit_kx key_der
    enc_data_der ← map_err (library.encrypted_data_to_der etype cipher) (λ _. custom krb5.einval)
    reject_if (not (library.malloc_succeeds (length new_session.contents))) (custom library.enomem)
    ok (record { pa_type = pa_pkinit_kx; contents = enc_data_der }, new_session)

  unfoldable pub continued : Keyblock → Keyblock → Result Krb5Error (Option PaData × ReplyKeys)
  unfolding contribute
  continued reply_key session = do
    (pa, new_session) ← contribute reply_key session
    ok (some pa, record { encrypting_key = some reply_key; session = some new_session })

  unfoldable pub return_pkinit_kx :
      ReturnPadataRequest → KdcpreauthCallbacks → Result Krb5Error (Option PaData × ReplyKeys)
  unfolding continued keys_of
  return_pkinit_kx req callbacks =
      let anonymous : Bool = elim callbacks.client_name_principal [
        | none ↦ false
        | some p ↦ is_anonymous p
      ] in
      if not anonymous then ok (none, keys_of req) else elim req.encrypting_key [
        | none ↦ err (custom krb5.einval)
        | some reply_key ↦ elim req.session [
          | none ↦ err (custom krb5.einval)
          | some session ↦ continued reply_key session
        ]
      ]

  module _ {H : Type 0} (synta : Synta) (crypto : Crypto H) (cms : Cms H) (now : ℕ)
      (o2k : OctetString2Key) (key_draw nonce_draw : ℕ) where
    unfoldable pub return_padata :
        PkinitKdc H
        → ReturnPadataRequest
        → KdcpreauthCallbacks
        → Result Krb5Error (Option PaData × ReplyKeys)
    unfolding return_pkinit_kx keys_of
    return_padata plugin req callbacks =
        let pa_type : ℤ = elim req.padata_type [ none ↦ pos 0 | some t ↦ t ] in
        if pa_type == pa_pk_as_req
        then (do
          (pa, derived) ←
              return_pkinit_dh krb5 synta crypto cms now o2k key_draw nonce_draw plugin req.modreq
                callbacks req.server req.request_packet
          let key : Keyblock = record { enctype = derived.enctype; contents = derived.key_data }
          _ ← library.replace_reply_key key
          ok (some pa, record (keys_of req) { encrypting_key = some key }))
        else if pa_type == pa_pkinit_kx
        then return_pkinit_kx req callbacks
        else ok (none, keys_of req)
