-- ===== src/Client/Next.antt =====
-- pkinit-core/src/client.rs: the request that follows a hint or a retry carries the key that was
-- negotiated.
use mathlib.Core.Path.{subst}
use kurbu5_pkinit.Common.{
  Bool-cases, Bytes, Has, List, Option-cases, ap, arith, false, filter_map, find, inl, inr,
  is_empty, ok, sym, true, ℕ, ◌∙◌, ◌≡◌, ◌≢◌, ◌⊎◌,
}
use kurbu5_pkinit.Common.Int.{ℤ}
use kurbu5_pkinit.Constants.{dh, kem}
use kurbu5_pkinit.Synta.{Synta}
use kurbu5_pkinit.Crypto.{Crypto}
use kurbu5_pkinit.KemTypes.{OfferedAlgorithm, parse_pkinit_hint}
use kurbu5_pkinit.Cms.{Cms}
use kurbu5_pkinit.Client.State.{PkinitClientState}
use kurbu5_pkinit.Client.Negotiate.{
  Offered, accepts, apply, handle_tryagain_typed_data, hint_choice, keeps_current,
  process_pkinit_hint, recognize, retry_action,
}
use kurbu5_pkinit.Client.Request.{build_as_req}
use kurbu5_pkinit.Client.Downgrade.{KeyFits}
use kurbu5_pkinit.Client.Offers.{IsRetry, handle_tryagain-Sound, planned}
use kurbu5_pkinit.Client.Hint.{process_pkinit_hint-Decides}
use kurbu5_pkinit.Client.Keys.{IsSent}
use kurbu5_pkinit.Client.Sent.{build_as_req-IsSent}

KeyFits-apply :
    {H : Type 0} (synta : Synta) (c : PkinitClientState H) (o : Offered) → KeyFits (apply synta c o)
unfolding apply
KeyFits-apply synta c (kem alg) = λ key e n. cc
KeyFits-apply synta c (dh group) = λ key e n. cc

keeps_current-KeyFits :
    {H : Type 0} (synta : Synta) (c : PkinitClientState H) (offers : List Offered)
    → keeps_current synta c offers ≡ true
    → KeyFits c
unfolding keeps_current
keeps_current-KeyFits synta c offers h = λ key e n. absurd (ground arith)

hint_choice-KeyFits :
    {H : Type 0} (synta : Synta) (c : PkinitClientState H) (offers : List Offered)
    → (hint_choice synta c offers).0 ≡ ok tt
    → KeyFits (hint_choice synta c offers).1
unfolding hint_choice
hint_choice-KeyFits synta c offers h = elim (Bool-cases (keeps_current synta c offers)) [
  | inl e ↦
      let same : c ≡ (hint_choice synta c offers).1 = ground arith in
      subst KeyFits same (keeps_current-KeyFits synta c offers e)
  | inr e ↦ elim (Option-cases (find (accepts synta c) offers)) [
    | inl f ↦ absurd (ground arith)
    | inr (o, f) ↦
        let same : apply synta c o ≡ (hint_choice synta c offers).1 = ground arith in
        subst KeyFits same (KeyFits-apply synta c o)
  ]
]

module _ {H : Type 0} (synta : Synta) (crypto : Crypto H) (cms : Cms H)
    (c : PkinitClientState H) where
  -- A hint that lists algorithms is decided by the client's policy. Either the hint is refused, nothing
  -- has changed, and the policy accepts none of the algorithms in it that the client implements; or it
  -- is taken, and the next request that is built records one of those that the policy accepts, and
  -- carries the public key of a private key of that algorithm or group, which the client holds.
  pub process_pkinit_hint-IsSent :
      (hint : Bytes) (advertised : List OfferedAlgorithm)
      → parse_pkinit_hint synta hint ≡ ok advertised
      → is_empty advertised ≡ false
      → (key_draw nonce_draw : ℕ) (nonce ctime cusec : ℤ) (body req : Bytes)
      → let r = process_pkinit_hint synta c hint in
        let offers = filter_map (recognize synta c) advertised in
        let built = build_as_req synta crypto cms key_draw nonce_draw nonce ctime cusec body r.1 in
        ((r.0 ≢ ok tt) × (r.1 ≡ c) × ((o : Offered) → Has o offers → accepts synta c o ≡ false))
        ⊎ ((r.0 ≡ ok tt)
            × (o : Offered) × Has o offers
            × (accepts synta c o ≡ true)
            × (built.0 ≡ ok req → IsSent synta crypto cms o req built.1))
  unfolding process_pkinit_hint
  process_pkinit_hint-IsSent hint advertised p e key_draw nonce_draw nonce ctime cusec body req =
      let offers = filter_map (recognize synta c) advertised in
      let run : process_pkinit_hint synta c hint ≡ hint_choice synta c offers = ground arith in
      let fits : (process_pkinit_hint synta c hint).0 ≡ ok tt
          → KeyFits (process_pkinit_hint synta c hint).1 =
        λ taken.
          subst (λ x. KeyFits x.1) (sym run)
            (hint_choice-KeyFits synta c offers (ap (λ x. x.0) (sym run) ∙ taken)) in
      elim (process_pkinit_hint-Decides synta c hint advertised p e) [
        | inr refused ↦ inl refused
        | inl (taken, has, accepted) ↦ inr (
          taken,
          planned (process_pkinit_hint synta c hint).1,
          has,
          accepted,
          λ h.
              (build_as_req-IsSent synta crypto cms key_draw nonce_draw nonce ctime cusec body
                (process_pkinit_hint synta c hint).1 (fits taken) h).0,
        )
      ]

  -- A retry with an algorithm is sound: the algorithm is one that a TD-EPHEMERAL-KEY-PARAMETERS-DATA
  -- entry lists, that the client implements and its policy accepts, and that differs from the one just
  -- sent; and the next request that is built records it, and carries the public key of a private key
  -- of that algorithm or group, which the client holds.
  pub handle_tryagain-IsSent :
      (typed : List (ℤ × Bytes)) (o : Offered) (key_draw nonce_draw : ℕ) (nonce ctime cusec : ℤ)
      (body req : Bytes)
      → (handle_tryagain_typed_data synta c typed).0 ≡ ok (retry_action o)
      → let d = (handle_tryagain_typed_data synta c typed).1 in
        let built = build_as_req synta crypto cms key_draw nonce_draw nonce ctime cusec body d in
        IsRetry synta c typed o d × (built.0 ≡ ok req → IsSent synta crypto cms o req built.1)
  handle_tryagain-IsSent typed o key_draw nonce_draw nonce ctime cusec body req h =
      let d = (handle_tryagain_typed_data synta c typed).1 in
      let retry = handle_tryagain-Sound synta c typed o h in
      let fits = subst KeyFits (sym retry.applied) (KeyFits-apply synta c o) in
      (
        retry,
        λ k.
            subst
              (λ p.
                IsSent synta crypto cms p req
                  (build_as_req synta crypto cms key_draw nonce_draw nonce ctime cusec body d).1)
              retry.next
              (build_as_req-IsSent synta crypto cms key_draw nonce_draw nonce ctime cusec body d
                fits k).0,
      )
