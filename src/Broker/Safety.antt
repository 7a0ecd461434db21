-- ===== src/Broker/Safety.antt =====
-- pkinit-trust-brokerd/src/store.rs: what a decision of the broker rests on.
use kurbu5_pkinit.Common.{
  ==_iff, Bool, Bool-cases, Bytes, Has, List, Option, Option-cases, Text, [], arith, find-Has, inl,
  inr, list_eq, nat_eq, none, option_eq, some, true, ℕ, ◌==◌, ◌∷◌, ◌≡◌, ◌≢◌, ◌⊎◌,
}
use kurbu5_pkinit.Synta.{Synta}
use kurbu5_pkinit.Crypto.{Crypto}
use kurbu5_pkinit.Broker.Pins.{GrantTtl, Pin, PinStore, Pins, Prompter, TrustReply, trusted}
use kurbu5_pkinit.Broker.Decide.{
  Texts, answer_pinned, conclude, decide, decide_unknown, is_candidate, live_pin, prompt,
  reverse_onto, select_ca, sha256_hex, validates_as_anchor,
}

pub reverse_onto-Has :
    {A : Type 0} (xs acc : List A) (a : A) → Has a (reverse_onto acc xs) → Has a xs ⊎ Has a acc
unfolding reverse_onto
reverse_onto-Has [] acc a h = inr h
reverse_onto-Has (x ∷ xs) acc a h = elim (reverse_onto-Has xs (x ∷ acc) a h) [
  | inl m ↦ inl (inr m)
  | inr (inl e) ↦ inl (inl e)
  | inr (inr m) ↦ inr m
]

module _ {H : Type 0} (synta : Synta) (crypto : Crypto H) (texts : Texts) (now : ℕ) (s : PinStore)
    (realm kdc_principal : Text) (client_pid : Option ℕ) (signer : Bytes) (presented : List Bytes)
    (interactive : Bool) (prompter : Prompter) where
  abbrev pub outcome : TrustReply × PinStore × Option (Text × Pins)
  outcome =
      decide synta crypto texts now s realm kdc_principal client_pid signer presented interactive
        prompter

  -- The realm's live pin, or the user's approval.
  abbrev pub HasGrounds : Bytes → Text → Type 0
  HasGrounds ca fp =
      ((pin : Pin) × (live_pin now s realm ≡ some pin)
        × (pin.fingerprint ≡ fp)
        × (outcome.0.anchors ≡ pin.ca_b64 ∷ [])
        × (outcome.1 ≡ s))
      ⊎ ((live_pin now s realm ≡ none)
          × (interactive ≡ true)
          × ((ttl : GrantTtl) × (prompter.confirm
                  (prompt synta crypto texts now realm kdc_principal client_pid ca fp)
                ≡ some ttl))
          × (outcome.0.anchors ≡ texts.b64_encode ca ∷ []))

  -- The grounds for a reply that trusts. The CA was presented, is not the signer, and validates the
  -- signer's chain. It is either the one pinned, or the user has just approved it.
  pub record IsJustified (ca : Bytes) (fp : Text) : Type 0 where
    pub was_presented : Has ca presented
    pub not_signer : ca ≢ signer
    pub is_anchor : validates_as_anchor synta crypto texts now ca signer presented ≡ true
    pub fingerprint : sha256_hex synta crypto texts now ca ≡ some fp
    pub grounds : HasGrounds ca fp

  select_ca_sound :
      (ca : Bytes)
      → select_ca synta crypto texts now signer presented ≡ some ca
      → Has ca presented
        × (ca ≢ signer)
        × (validates_as_anchor synta crypto texts now ca signer presented ≡ true)
  unfolding select_ca is_candidate
  select_ca_sound ca h =
      let (m, k) =
        find-Has (is_candidate synta crypto texts now signer presented) (reverse_onto [] presented)
          ca h in
      (
        elim (reverse_onto-Has presented [] ca m) [ inl n ↦ n | inr n ↦ absurd n ],
        λ e. ground (arith, ==_iff ca signer),
        ground arith,
      )

  HasGrounds-trusted :
      (ca : Bytes) (fp : Text)
      → select_ca synta crypto texts now signer presented ≡ some ca
      → sha256_hex synta crypto texts now ca ≡ some fp
      → outcome.0.decision ≡ trusted
      → HasGrounds ca fp
  unfolding decide decide_unknown answer_pinned conclude
  HasGrounds-trusted ca fp e f h = elim (Option-cases (live_pin now s realm)) [
    | inr (pin, g) ↦ elim (Bool-cases (pin.fingerprint == fp)) [
      | inl k ↦ inl (pin, g, (==_iff pin.fingerprint fp).0 k, ground arith, ground arith)
      | inr k ↦ absurd (ground arith)
    ]
    | inl g ↦
        let r = prompt synta crypto texts now realm kdc_principal client_pid ca fp in
        elim (Option-cases (prompter.confirm r)) [
          | inl k ↦ absurd (ground arith)
          | inr (ttl, k) ↦ inr (g, ground arith, (ttl, k), ground arith)
        ]
  ]

  -- A broker that answers `Trusted` has grounds for it: a presented CA certificate, not the signer's
  -- own, that validates the signer's chain, and that either has the fingerprint of the realm's live
  -- pin, whose certificate is the anchor, or was approved by the prompter in an interactive request
  -- for a realm without a live pin. A changed CA is never trusted while a pin is live.
  pub decide-IsJustified :
      outcome.0.decision ≡ trusted → (ca : Bytes) × (fp : Text) × IsJustified ca fp
  unfolding decide
  decide-IsJustified h = elim (Option-cases (select_ca synta crypto texts now signer presented)) [
    | inl e ↦ absurd (ground arith)
    | inr (ca, e) ↦ elim (Option-cases (sha256_hex synta crypto texts now ca)) [
      | inl f ↦ absurd (ground arith)
      | inr (fp, f) ↦ (
        ca,
        fp,
        record {
          was_presented = (select_ca_sound ca e).0;
          not_signer = (select_ca_sound ca e).1;
          is_anchor = (select_ca_sound ca e).2;
          fingerprint = f;
          grounds = HasGrounds-trusted ca fp e f h;
        },
      )
    ]
  ]
