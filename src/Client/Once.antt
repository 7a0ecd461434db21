-- ===== src/Client/Once.antt =====
-- pkinit-core/src/client.rs: a KEM key answers one reply.
use kurbu5_pkinit.Common.{
  Bool-cases, Bytes, Result-cases, [], ap, arith, err, inl, inr, none, refl, ℕ, ◌∙◌, ◌∷◌, ◌≡◌,
}
use kurbu5_pkinit.Error.{kem_decap_failed, str}
use kurbu5_pkinit.Constants.{dh, kem}
use kurbu5_pkinit.Synta.{Synta, dh_info, enc_key_pack}
use kurbu5_pkinit.Crypto.{Crypto}
use kurbu5_pkinit.KemTypes.{is_kem_rep}
use kurbu5_pkinit.Kdf.{OctetString2Key}
use kurbu5_pkinit.Cms.{Cms}
use kurbu5_pkinit.Client.State.{
  PkinitClientState, set_freshness_token, set_is_anonymous, set_kdc_identity, set_trust_broker,
}
use kurbu5_pkinit.Client.Negotiate.{Offered, apply}
use kurbu5_pkinit.Client.Reply.{AsRepParams, process_as_rep, process_kem_rep}
use kurbu5_pkinit.Client.Downgrade.{
  Chosen, Chosen-handle_tryagain, Chosen-handle_tryagain_typed_data, Chosen-process_pkinit_hint,
}
use kurbu5_pkinit.Client.Exchange.{
  Quiet, anonymous, broker, freshness, hint, kdc, reply, tryagain, typed_data,
}

no_key-apply :
    {H : Type 0} (synta : Synta) (c : PkinitClientState H) (o : Offered)
    → (apply synta c o).kem_key ≡ none
unfolding apply
no_key-apply synta c (kem alg) = refl
no_key-apply synta c (dh group) = refl

no_key-Chosen :
    {H : Type 0} (synta : Synta) (c d : PkinitClientState H)
    → Chosen synta c d
    → c.kem_key ≡ none
    → d.kem_key ≡ none
no_key-Chosen synta c d (inl e) h = ap (λ x. x.kem_key) e ∙ h
no_key-Chosen synta c d (inr (o, a, e)) h = ap (λ x. x.kem_key) e ∙ no_key-apply synta c o

module _ {H : Type 0} (synta : Synta) (crypto : Crypto H) (cms : Cms H)
    (o2k : OctetString2Key) where
  no_key-process_as_rep :
      (c : PkinitClientState H) (now : ℕ) (pa_rep : Bytes) (params : AsRepParams)
      → c.kem_key ≡ none
      → (process_as_rep synta crypto cms o2k now c pa_rep params).1.kem_key ≡ none
  unfolding process_as_rep process_kem_rep
  no_key-process_as_rep c now pa_rep params h = elim (Bool-cases (is_kem_rep pa_rep)) [
    | inl e ↦ ground arith
    | inr e ↦ elim (Result-cases (synta.pa_pk_as_rep_from_der pa_rep)) [
      | inr (f, p) ↦ ground arith
      | inl (dh_info info, p) ↦ ground arith
      | inl (enc_key_pack k, p) ↦ ground arith
    ]
  ]

  -- Only a request gives a client a KEM key.
  no_key-Quiet :
      (c d : PkinitClientState H)
      → Quiet synta crypto cms o2k c d
      → c.kem_key ≡ none
      → d.kem_key ≡ none
  unfolding set_freshness_token set_kdc_identity set_trust_broker set_is_anonymous
  no_key-Quiet c _ (hint _ der) h =
      no_key-Chosen synta c _ (Chosen-process_pkinit_hint synta c der) h
  no_key-Quiet c _ (tryagain _ padata) h =
      no_key-Chosen synta c _ (Chosen-handle_tryagain synta c padata) h
  no_key-Quiet c _ (typed_data _ typed) h =
      no_key-Chosen synta c _ (Chosen-handle_tryagain_typed_data synta c typed) h
  no_key-Quiet c _ (reply _ now pa_rep params) h = no_key-process_as_rep c now pa_rep params h
  no_key-Quiet c _ (freshness _ token) h = h
  no_key-Quiet c _ (kdc _ principal hostname) h = h
  no_key-Quiet c _ (broker _ b) h = h
  no_key-Quiet c _ (anonymous _ a) h = h

  -- Any number of calls without a request.
  pub data QuietReaches : (c d : PkinitClientState H) → Type 0 where
    rest : (c : PkinitClientState H) → QuietReaches c c
    after :
        (c d e : PkinitClientState H)
        → Quiet synta crypto cms o2k c d
        → QuietReaches d e
        → QuietReaches c e

  no_key-QuietReaches :
      (c d : PkinitClientState H) → QuietReaches c d → c.kem_key ≡ none → d.kem_key ≡ none
  no_key-QuietReaches c _ (rest _) h = h
  no_key-QuietReaches c e (after _ d _ s r) h = no_key-QuietReaches d e r (no_key-Quiet c d s h)

  -- One KEM key answers one reply: once a reply was processed, accepted or not, every later KEM reply
  -- is refused for want of a key, after any hints, errors, further replies and settings, until a
  -- request is built.
  pub process_kem_rep-once :
      (now later : ℕ) (c d : PkinitClientState H) (first second : Bytes) (p q : AsRepParams)
      → QuietReaches (process_kem_rep synta crypto cms o2k now c first p).1 d
      → (process_kem_rep synta crypto cms o2k later d second q).0
        ≡ err (kem_decap_failed (str "no KEM key generated for this exchange" ∷ []))
  unfolding process_kem_rep
  process_kem_rep-once now later c d first second p q r =
      let gone =
        no_key-QuietReaches (process_kem_rep synta crypto cms o2k now c first p).1 d r refl in
      ground (arith, gone)
