-- ===== src/Plugin/Contribution.antt =====
-- kurbu5-pkinit/src/kdc_plugin.rs: the session key of an anonymous client, as both sides compute it.
use mathlib.Core.Path.{subst}
use kurbu5_pkinit.Common.{
  >>=-eq-ok, Bool-cases, Bytes, Option, Option-cases, Result, ap, arith, false, inl, inr, none, ok,
  ok-injective, refl, reject_if-eq-ok, some, sym, true, try-eq-ok, ℕ, ◌≡◌, ◌⊎◌,
}
use kurbu5_pkinit.Common.Int.{ℤ}
use kurbu5_pkinit.Common.Strings.{codes}
use kurbu5_pkinit.Plugin.{Krb5, Krb5Error, PaData, PrincipalRef, is_anonymous, pa_pkinit_kx}
use kurbu5_pkinit.Plugin.Kdc.{KdcpreauthCallbacks}
use kurbu5_pkinit.Plugin.Session.{
  KeyExchangeLibrary, Keyblock, ReplyKeys, ReturnPadataRequest, continued, contribute, keys_of,
  krb5_keyusage_pa_pkinit_kx, return_pkinit_kx,
}

-- The inverses of the encryption and of the two codecs, which a client has.
pub record Opener : Type 0 where
  pub decrypt : Keyblock → ℕ → ℤ → Bytes → Option Bytes
  pub encryption_key_from_der : Bytes → Option (ℤ × Bytes)
  pub encrypted_data_from_der : Bytes → Option (ℤ × Bytes)

pub record Opens (library : KeyExchangeLibrary) (opener : Opener) : Type 0 where
  pub decrypts :
      (k : Keyblock) (usage : ℕ) (plain : Bytes) (etype : ℤ) (cipher : Bytes)
      → library.encrypt k usage plain ≡ ok (etype, cipher)
      → opener.decrypt k usage etype cipher ≡ some plain
  pub reads_key :
      (enctype : ℤ) (contents der : Bytes)
      → library.encryption_key_to_der enctype contents ≡ ok der
      → opener.encryption_key_from_der der ≡ some (enctype, contents)
  pub reads_encrypted :
      (etype : ℤ) (cipher der : Bytes)
      → library.encrypted_data_to_der etype cipher ≡ ok der
      → opener.encrypted_data_from_der der ≡ some (etype, cipher)

-- The KDC's contribution, read from a padata with the reply key.
unfoldable pub contribution_in : Opener → Keyblock → PaData → Option Keyblock
contribution_in opener reply_key pa = elim (opener.encrypted_data_from_der pa.contents) [
  | none ↦ none
  | some (etype, cipher) ↦ elim (opener.decrypt reply_key krb5_keyusage_pa_pkinit_kx etype cipher) [
    | none ↦ none
    | some der ↦ elim (opener.encryption_key_from_der der) [
      | none ↦ none
      | some (enctype, contents) ↦ some (record { enctype = enctype; contents = contents })
    ]
  ]
]

module _ (krb5 : Krb5) (library : KeyExchangeLibrary) (opener : Opener)
    (opens : Opens library opener) where
  contribute-opened :
      (reply_key session new_session : Keyblock) (pa : PaData)
      → contribute krb5 library reply_key session ≡ ok (pa, new_session)
      → (pa.pa_type ≡ pa_pkinit_kx)
        × (contribution_in opener reply_key pa ≡ some session)
        × (library.fx_cf2_simple session (codes "PKINIT") reply_key (codes "KEYEXCHANGE")
            ≡ ok new_session)
  unfolding contribute contribution_in
  contribute-opened reply_key session new_session pa h =
      let (made, mixed, h1) =
        >>=-eq-ok (library.fx_cf2_simple session (codes "PKINIT") reply_key (codes "KEYEXCHANGE")) _
          h in
      let (key_der, p, h2) =
        try-eq-ok (library.encryption_key_to_der session.enctype session.contents) _ _ h1 in
      let ((etype, cipher), q, h3) =
        >>=-eq-ok (library.encrypt reply_key krb5_keyusage_pa_pkinit_kx key_der) _ h2 in
      let (der, r, h4) = try-eq-ok (library.encrypted_data_to_der etype cipher) _ _ h3 in
      let (_, h5) = reject_if-eq-ok _ _ _ h4 in
      let same = ok-injective {E = Krb5Error} h5 in
      let opened : contribution_in opener reply_key
            (record { pa_type = pa_pkinit_kx; contents = der })
          ≡ some session =
        rw (
          contribution_in,
          opens.reads_encrypted etype cipher der r,
          opens.decrypts reply_key krb5_keyusage_pa_pkinit_kx key_der etype cipher q,
          opens.reads_key session.enctype session.contents key_der p,
        ) in
      subst
        (λ x.
          (x.0.pa_type ≡ pa_pkinit_kx)
          × (contribution_in opener reply_key x.0 ≡ some session)
          × (library.fx_cf2_simple session (codes "PKINIT") reply_key (codes "KEYEXCHANGE")
              ≡ ok x.1))
        same (refl, opened, mixed)

  -- An anonymous client gets the KDC's part of the session key, and both compute the same one: for the
  -- anonymous principal, a reply of `return_pkinit_kx` keeps the reply key, and carries a
  -- PA-PKINIT-KX from which a client with that key, and with inverses of the encryption and the two
  -- codecs, reads the session key that the KDC chose; mixed with the reply key it gives the session
  -- key that the ticket now has. For any other client nothing is added and no key is changed.
  pub return_pkinit_kx-contributes :
      (req : ReturnPadataRequest) (callbacks : KdcpreauthCallbacks) (client : PrincipalRef)
      (pa : Option PaData) (keys : ReplyKeys)
      → callbacks.client_name_principal ≡ some client
      → return_pkinit_kx krb5 library req callbacks ≡ ok (pa, keys)
      → ((is_anonymous client ≡ false) × (pa ≡ none) × (keys ≡ keys_of req))
        ⊎ ((is_anonymous client ≡ true)
            × ((sent : PaData) × (reply_key : Keyblock) × (session : Keyblock)
                × (new_session : Keyblock) × (pa ≡ some sent)
                × (sent.pa_type ≡ pa_pkinit_kx)
                × (req.encrypting_key ≡ some reply_key)
                × (req.session ≡ some session)
                × (contribution_in opener reply_key sent ≡ some session)
                × (library.fx_cf2_simple session (codes "PKINIT") reply_key (codes "KEYEXCHANGE")
                    ≡ ok new_session)
                × (keys ≡ record { encrypting_key = some reply_key; session = some new_session })))
  unfolding return_pkinit_kx continued
  return_pkinit_kx-contributes req callbacks client pa keys named h =
      elim (Bool-cases (is_anonymous client)) [
        | inr e ↦
            let q : Path (Result Krb5Error (Option PaData × ReplyKeys)) (ok (none, keys_of req))
                (ok (pa, keys)) =
              ground arith in
            let same = ok-injective {E = Krb5Error} q in
            inl (e, sym (ap (λ x. x.0) same), sym (ap (λ x. x.1) same))
        | inl e ↦ elim (Option-cases req.encrypting_key) [
          | inl x ↦ absurd (ground arith)
          | inr (reply_key, x) ↦ elim (Option-cases req.session) [
            | inl y ↦ absurd (ground arith)
            | inr (session, y) ↦
                let q : continued krb5 library reply_key session ≡ ok (pa, keys) = ground arith in
                let ((sent, new_session), made, h1) =
                  >>=-eq-ok (contribute krb5 library reply_key session) _ q in
                let same = ok-injective {E = Krb5Error} h1 in
                let (kind, opened, mixed) =
                  contribute-opened reply_key session new_session sent made in
                inr (
                  e,
                  (
                    sent,
                    reply_key,
                    session,
                    new_session,
                    sym (ap (λ x. x.0) same),
                    kind,
                    x,
                    y,
                    opened,
                    mixed,
                    sym (ap (λ x. x.1) same),
                  ),
                )
          ]
        ]
      ]
