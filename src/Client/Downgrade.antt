-- ===== src/Client/Downgrade.antt =====
-- pkinit-core/src/client.rs: whatever the KDC sends, before it is authenticated, the client's choice
-- stays within its own policy.
use mathlib.Core.Path.{subst}
use kurbu5_pkinit.Common.{
  Bool, Bool-cases, Bytes, List, Option, Option-cases, Result-cases, [], arith, false, filter_map,
  find, find-Has, inl, inr, is_empty, list_eq, nat_eq, none, option_eq, refl, some, sym, true, ◌==◌,
  ◌||◌, ◌∙◌, ◌∷◌, ◌≡◌, ◌⊎◌,
}
use kurbu5_pkinit.Common.Int.{ℤ, ℤ_eq}
use kurbu5_pkinit.Constants.{KemAlgorithm, dh, group_eq, kem, kem_eq}
use kurbu5_pkinit.Synta.{Synta}
use kurbu5_pkinit.KemTypes.{parse_pkinit_hint}
use kurbu5_pkinit.Config.{PkinitClientConfig}
use kurbu5_pkinit.Identity.{PkinitIdentity}
use kurbu5_pkinit.Identity.Store.{TrustStore}
use kurbu5_pkinit.Dh.{DhKeyPair}
use kurbu5_pkinit.Client.State.{PkinitClientState, new_client, with_default_kem}
use kurbu5_pkinit.Client.Negotiate.{
  Offered, accepts, apply, dh_allowed, handle_tryagain, handle_tryagain_typed_data, hint_choice,
  keeps_current, meets_floor, offered_eq, parse_td_offered, process_pkinit_hint, recognize,
  retry_choice, retry_offers,
}

-- A chosen KEM meets the floor, and there is one if the configuration requires it.
abbrev Allows : Option KemAlgorithm → Bool → Option KemAlgorithm → Type 0
Allows floor require_kem none = require_kem ≡ false
Allows floor require_kem (some alg) = meets_floor floor alg ≡ true

module _ {H : Type 0} where
  -- A DH key that is kept for the next DH request belongs to the configured group.
  abbrev pub KeyFits : PkinitClientState H → Type 0
  KeyFits c =
      (key : DhKeyPair H)
      → c.dh_key ≡ some key
      → c.config.kem_algorithm ≡ none
      → key.group ≡ c.config.dh_group

  abbrev pub IsCompliant : PkinitClientState H → Type 0
  IsCompliant c = Allows c.kem_floor c.config.require_kem c.config.kem_algorithm × KeyFits c

  -- An operation that keeps to the policy, and the policy itself.
  pub record Keeps (c d : PkinitClientState H) : Type 0 where
    pub compliant : IsCompliant d
    pub floor : d.kem_floor ≡ c.kem_floor
    pub required : d.config.require_kem ≡ c.config.require_kem
    pub identity : d.identity ≡ c.identity

  pub Keeps-refl : (c : PkinitClientState H) → IsCompliant c → Keeps c c
  Keeps-refl c h = record { compliant = h; floor = refl; required = refl; identity = refl }

  pub Keeps-trans : {c d e : PkinitClientState H} → Keeps c d → Keeps d e → Keeps c e
  Keeps-trans p q = record {
    compliant = q.compliant;
    floor = q.floor ∙ p.floor;
    required = q.required ∙ p.required;
    identity = q.identity ∙ p.identity;
  }

  -- A new client complies with its policy, whatever its configuration.
  pub IsCompliant-new_client :
      (i : PkinitIdentity H) (s : TrustStore) (config : PkinitClientConfig)
      → IsCompliant (new_client i s config)
  unfolding new_client meets_floor with_default_kem
  IsCompliant-new_client i s config = (ground arith, λ key e n. cc)

  module _ (synta : Synta) (c : PkinitClientState H) where
    -- Either nothing changed, or the client took an offer that its policy accepts.
    abbrev pub Chosen : PkinitClientState H → Type 0
    Chosen d = (d ≡ c) ⊎ ((o : Offered) × (accepts synta c o ≡ true) × (d ≡ apply synta c o))

    Chosen-hint_choice : (offers : List Offered) → Chosen (hint_choice synta c offers).1
    unfolding hint_choice
    Chosen-hint_choice offers = elim (Bool-cases (keeps_current synta c offers)) [
      | inl e ↦ rw e (inl refl)
      | inr e ↦ rw e (elim (Option-cases (find (accepts synta c) offers)) [
        | inl f ↦ rw f (inl refl)
        | inr (o, f) ↦ rw f (inr (o, (find-Has (accepts synta c) offers o f).1, refl))
      ])
    ]

    Chosen-retry_choice : (offers : List Offered) → Chosen (retry_choice synta c offers).1
    unfolding retry_choice
    Chosen-retry_choice offers = elim (Option-cases (find (accepts synta c) offers)) [
      | inl f ↦ rw (f, retry_choice) (inl refl)
      | inr (o, f) ↦ rw (f, retry_choice) (inr (o, (find-Has (accepts synta c) offers o f).1, refl))
    ]

    pub Chosen-process_pkinit_hint : (hint : Bytes) → Chosen (process_pkinit_hint synta c hint).1
    unfolding process_pkinit_hint
    Chosen-process_pkinit_hint hint = elim (Result-cases (parse_pkinit_hint synta hint)) [
      | inr (e, p) ↦ rw (p, process_pkinit_hint) (inl refl)
      | inl (a, p) ↦
          rw (p, process_pkinit_hint)
            (elim (Bool-cases (is_empty a)) [
              | inl q ↦ rw q (inl refl)
              | inr q ↦ rw q (Chosen-hint_choice (filter_map (recognize synta c) a))
            ])
    ]

    pub Chosen-handle_tryagain_typed_data :
        (typed : List (ℤ × Bytes)) → Chosen (handle_tryagain_typed_data synta c typed).1
    unfolding handle_tryagain_typed_data
    Chosen-handle_tryagain_typed_data [] = inl refl
    Chosen-handle_tryagain_typed_data ((pa_type, value) ∷ rest) =
        let ih = Chosen-handle_tryagain_typed_data rest in
        elim (Bool-cases (pa_type == synta.td_dh_parameters)) [
          | inr e ↦
              rw e
                (elim (Bool-cases (
                  pa_type == synta.td_trusted_certifiers
                  || pa_type == synta.td_pkinit_cms_certificates)) [
                    | inl f ↦ rw f (inl refl)
                    | inr f ↦ rw f ih
                  ])
          | inl e ↦ rw e (elim (Result-cases (parse_td_offered synta value)) [
            | inr (_, p) ↦ rw p (inl refl)
            | inl (a, p) ↦ rw p (Chosen-retry_choice (retry_offers synta c a))
          ])
        ]

    pub Chosen-handle_tryagain : (padata : Bytes) → Chosen (handle_tryagain synta c padata).1
    unfolding handle_tryagain
    Chosen-handle_tryagain padata = elim (Result-cases (synta.padata_from_der padata)) [
      | inr (e, p) ↦ rw (p, handle_tryagain) (inl refl)
      | inl (typed, p) ↦ rw (p, handle_tryagain) (Chosen-handle_tryagain_typed_data typed)
    ]

  module _ (synta : Synta) (c : PkinitClientState H) (h : IsCompliant c) where
    Keeps-apply : (o : Offered) → accepts synta c o ≡ true → Keeps c (apply synta c o)
    unfolding accepts apply dh_allowed
    Keeps-apply (kem alg) a = record {
      compliant = (a, λ key e n. cc);
      floor = refl;
      required = refl;
      identity = refl;
    }
    Keeps-apply (dh group) a = record {
      compliant = (ground arith, λ key e n. cc);
      floor = refl;
      required = refl;
      identity = refl;
    }

    pub Keeps-Chosen : (d : PkinitClientState H) → Chosen synta c d → Keeps c d
    Keeps-Chosen d (inl e) = subst (Keeps c) (sym e) (Keeps-refl c h)
    Keeps-Chosen d (inr (o, a, e)) = subst (Keeps c) (sym e) (Keeps-apply o a)
