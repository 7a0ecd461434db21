-- ===== src/Broker/Memory.antt =====
-- pkinit-trust-brokerd/src/store.rs: what the pin store remembers from one request to the next.
use mathlib.Core.Path.{subst}
use kurbu5_pkinit.Common.{
  ==_iff, Bool, Bool-cases, Bytes, List, Option, Option-cases, Text, ap, arith, false, inl, inr,
  list_eq, nat_eq, none, option_eq, refl, some, sym, true, ℕ, ◌==◌, ◌∙◌, ◌≡◌, ◌≢◌, ◌⊎◌,
}
use kurbu5_pkinit.Synta.{Synta}
use kurbu5_pkinit.Crypto.{Crypto}
use kurbu5_pkinit.Broker.Pins.{
  Pin, PinStore, Pins, Prompter, TrustReply, expires_at_epoch_secs, get_pin,
  get_pin-insert_pin-other, get_pin-remove_pin-other, get_pin-remove_pin-same, insert_pin,
  remove_pin,
}
use kurbu5_pkinit.Broker.Decide.{
  Texts, conclude, decide, decide_unknown, live_pin, prompt, select_ca, sha256_hex, trust,
}

module _ {H : Type 0} (synta : Synta) (crypto : Crypto H) (texts : Texts) where
  -- How a request may change the store: not at all, by forgetting the realm's lapsed pin, or by
  -- pinning the CA that the user approved.
  abbrev pub Remembers :
      ℕ → PinStore → Text → Bool → Prompter → TrustReply × PinStore × Option (Text × Pins) → Type 0
  Remembers now s realm interactive prompter r =
      (r.1 ≡ s)
      ⊎ ((live_pin now s realm ≡ none)
          × (r.1 ≡ record { path = s.path; pins = remove_pin s.pins realm }))
      ⊎ ((interactive ≡ true)
          × (live_pin now s realm ≡ none)
          × ((pin : Pin) × ((r.1
                  ≡ record { path = s.path; pins = insert_pin (remove_pin s.pins realm) realm pin })
                × (r.0 ≡ trust pin.ca_b64))))

  module _ (now : ℕ) (s : PinStore) (realm kdc_principal : Text) (client_pid : Option ℕ)
      (signer : Bytes) (presented : List Bytes) (interactive : Bool) (prompter : Prompter) where
    Remembers-decide_unknown :
        (ca : Bytes) (fp : Text)
        → live_pin now s realm ≡ none
        → Remembers now s realm interactive prompter (
            decide_unknown synta crypto texts now s realm kdc_principal client_pid ca fp interactive
              prompter)
    unfolding decide_unknown conclude
    Remembers-decide_unknown ca fp g = elim (Bool-cases interactive) [
      | inr i ↦ rw i (inr (inl (g, refl)))
      | inl i ↦
          let r = prompt synta crypto texts now realm kdc_principal client_pid ca fp in
          rw i (elim (Option-cases (prompter.confirm r)) [
            | inl k ↦ rw k (inr (inl (g, refl)))
            | inr (ttl, k) ↦
                rw (k, conclude)
                  (inr (
                    inr (
                      refl,
                      g,
                      (
                        record {
                          ca_b64 = texts.b64_encode ca;
                          fingerprint = fp;
                          expires_at = expires_at_epoch_secs ttl now;
                        },
                        (refl, refl),
                      ),
                    )))
          ])
    ]

    decide-unknown :
        (ca : Bytes) (fp : Text)
        → select_ca synta crypto texts now signer presented ≡ some ca
        → sha256_hex synta crypto texts now ca ≡ some fp
        → live_pin now s realm ≡ none
        → decide synta crypto texts now s realm kdc_principal client_pid signer presented
            interactive prompter
          ≡ decide_unknown synta crypto texts now s realm kdc_principal client_pid ca fp interactive
              prompter
    unfolding decide
    decide-unknown ca fp e f g = ground arith

    pub Remembers-decide : Remembers now s realm interactive prompter (
        decide synta crypto texts now s realm kdc_principal client_pid signer presented interactive
          prompter)
    unfolding decide
    Remembers-decide = elim (Option-cases (select_ca synta crypto texts now signer presented)) [
      | inl e ↦ rw (e, decide) (inl refl)
      | inr (ca, e) ↦ elim (Option-cases (sha256_hex synta crypto texts now ca)) [
        | inl f ↦ inl (ground arith)
        | inr (fp, f) ↦ elim (Option-cases (live_pin now s realm)) [
          | inr (pin, g) ↦ inl (ground arith)
          | inl g ↦
              let q = decide-unknown ca fp e f g in
              subst (λ r. Remembers now s realm interactive prompter r) (sym q)
                (Remembers-decide_unknown ca fp g)
        ]
      ]
    ]

    abbrev after : PinStore
    after =
        (decide synta crypto texts now s realm kdc_principal client_pid signer presented interactive
          prompter).1

    -- A request about one realm leaves the pins of all others as they were.
    pub decide-other_realm :
        (realm2 : Text) → realm2 ≢ realm → get_pin after.pins realm2 ≡ get_pin s.pins realm2
    decide-other_realm realm2 n = elim Remembers-decide [
      | inl e ↦ ap (λ d. get_pin d.pins realm2) e
      | inr (inl (_, e)) ↦
          ap (λ d. get_pin d.pins realm2) e ∙ get_pin-remove_pin-other s.pins realm realm2 n
      | inr (inr (_, _, (pin, (e, _)))) ↦
          ap (λ d. get_pin d.pins realm2) e
          ∙ get_pin-insert_pin-other (remove_pin s.pins realm) realm realm2 pin n
          ∙ get_pin-remove_pin-other s.pins realm realm2 n
    ]

    -- A request that is not interactive never adds or changes a pin, for any realm.
    pub decide-not_interactive :
        interactive ≡ false
        → (realm2 : Text) (pin : Pin) → get_pin after.pins realm2 ≡ some pin
        → get_pin s.pins realm2 ≡ some pin
    decide-not_interactive i realm2 pin h = elim Remembers-decide [
      | inl e ↦ sym (ap (λ d. get_pin d.pins realm2) e) ∙ h
      | inr (inr (t, _, _)) ↦ absurd (ground arith)
      | inr (inl (_, e)) ↦
          let q = sym (ap (λ d. get_pin d.pins realm2) e) ∙ h in
          elim (Bool-cases (realm2 == realm)) [
            | inr n ↦
                sym (
                  get_pin-remove_pin-other s.pins realm realm2
                    (λ p. ground (arith, ==_iff realm2 realm)))
                ∙ q
            | inl n ↦
                let p = (==_iff realm2 realm).0 n in
                let z = get_pin-remove_pin-same s.pins realm in absurd (ground (arith, p, q, z))
          ]
    ]
