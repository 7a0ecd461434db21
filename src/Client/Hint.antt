-- ===== src/Client/Hint.antt =====
-- pkinit-core/src/client.rs: the choice that a PA-PK-AS-REQ-Hint leads to.
use mathlib.Core.Path.{subst}
use kurbu5_pkinit.Common.{
  Bool-cases, Bytes, Has, List, Option-cases, arith, contains-Has, false, filter_map, find,
  find-Has, find-none, inl, inr, is_empty, list_eq, nat_eq, ok, option_eq, refl, sym, true, ◌≡◌,
  ◌≢◌, ◌⊎◌,
}
use kurbu5_pkinit.Error.{Pkinit}
use kurbu5_pkinit.Constants.{group_eq, kem, kem_eq}
use kurbu5_pkinit.Synta.{Synta}
use kurbu5_pkinit.KemTypes.{OfferedAlgorithm, parse_pkinit_hint}
use kurbu5_pkinit.Client.State.{PkinitClientState}
use kurbu5_pkinit.Client.Negotiate.{
  Offered, accepts, hint_choice, keeps_current, offered_eq, process_pkinit_hint, recognize,
}
use kurbu5_pkinit.Client.Offers.{planned, planned-apply}

module _ {H : Type 0} (synta : Synta) (c : PkinitClientState H) where
  -- Either the next request uses an offer that the policy accepts, or the hint is refused, nothing
  -- has changed, and the policy accepts no offer.
  abbrev pub Decides : List Offered → Pkinit (Unit {0}) × PkinitClientState H → Type 0
  Decides offers r =
      ((r.0 ≡ ok tt) × Has (planned r.1) offers × (accepts synta c (planned r.1) ≡ true))
      ⊎ ((r.0 ≢ ok tt) × (r.1 ≡ c) × ((o : Offered) → Has o offers → accepts synta c o ≡ false))

  keeps_current-planned :
      (offers : List Offered)
      → keeps_current synta c offers ≡ true
      → Has (planned c) offers × (accepts synta c (planned c) ≡ true)
  unfolding keeps_current
  keeps_current-planned offers h = elim (Option-cases c.config.kem_algorithm) [
    | inl e ↦ absurd (ground arith)
    | inr (a, e) ↦
        let q : planned c ≡ kem a = ground arith in
        (
          subst (λ o. Has o offers) (sym q) (contains-Has offers (kem a) (ground arith)),
          subst (λ o. accepts synta c o ≡ true) (sym q) (ground arith),
        )
  ]

  hint_choice-Decides : (offers : List Offered) → Decides offers (hint_choice synta c offers)
  unfolding hint_choice
  hint_choice-Decides offers = elim (Bool-cases (keeps_current synta c offers)) [
    | inl e ↦
        rw e (inl (refl, (keeps_current-planned offers e).0, (keeps_current-planned offers e).1))
    | inr e ↦ rw e (elim (Option-cases (find (accepts synta c) offers)) [
      | inl f ↦ rw f (inr ((λ x. cc), refl, λ o m. find-none (accepts synta c) offers o f m))
      | inr (o, f) ↦
          let (m, a) = find-Has (accepts synta c) offers o f in
          rw f (inl (refl, rw (planned-apply synta c o) m, rw (planned-apply synta c o) a))
    ])
  ]

  -- A hint that lists algorithms is decided by the client's policy: it succeeds exactly when the
  -- policy accepts one of the algorithms that the client implements, and the next request then uses
  -- one of those.
  pub process_pkinit_hint-Decides :
      (hint : Bytes) (advertised : List OfferedAlgorithm)
      → parse_pkinit_hint synta hint ≡ ok advertised
      → is_empty advertised ≡ false
      → Decides (filter_map (recognize synta c) advertised) (process_pkinit_hint synta c hint)
  unfolding process_pkinit_hint
  process_pkinit_hint-Decides hint advertised p e =
      rw (p, process_pkinit_hint)
        (rw e (hint_choice-Decides (filter_map (recognize synta c) advertised)))
