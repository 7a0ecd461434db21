-- ===== src/Client/Offers.antt =====
-- pkinit-core/src/client.rs: what the client chooses was offered, is acceptable, and is new.
use kurbu5_pkinit.Common.{
  Bool-cases, Bytes, Has, List, Option-cases, Result-cases, [], arith, filter-Has, filter_map, find,
  find-Has, inl, inr, list_eq, nat_eq, none, not, ok, option_beq_iff, option_eq, refl, some, true,
  ◌==◌, ◌||◌, ◌∷◌, ◌≡◌, ◌≢◌,
}
use kurbu5_pkinit.Common.Int.{ℤ, ℤ_beq_iff, ℤ_eq}
use kurbu5_pkinit.Error.{Pkinit}
use kurbu5_pkinit.Constants.{dh, group_eq, kem, kem_eq}
use kurbu5_pkinit.Synta.{Synta}
use kurbu5_pkinit.KemTypes.{OfferedAlgorithm}
use kurbu5_pkinit.Client.State.{PkinitClientState, RetryAction, no_retry, retry_with_certs}
use kurbu5_pkinit.Client.Negotiate.{
  Offered, accepts, apply, handle_tryagain_typed_data, offered_eq, parse_td_offered, recognize,
  retry_action, retry_choice, retry_offers,
}

-- The key exchange that the next request will use.
abbrev pub planned : {H : Type 0} → PkinitClientState H → Offered
planned c = elim c.config.kem_algorithm [ some alg ↦ kem alg | none ↦ dh c.config.dh_group ]

module _ {H : Type 0} (synta : Synta) (c : PkinitClientState H) where
  -- `o` is one of the algorithms in a TD-EPHEMERAL-KEY-PARAMETERS-DATA entry of the typed data, the
  -- client's policy accepts it, it is not what the client sent, and the client goes on with it.
  pub record IsRetry (typed : List (ℤ × Bytes)) (o : Offered) (d : PkinitClientState H)
      : Type 0 where
    pub value : Bytes
    pub advertised : List OfferedAlgorithm
    pub listed : Has (synta.td_dh_parameters, value) typed
    pub parsed : parse_td_offered synta value ≡ ok advertised
    pub offered : Has o (filter_map (recognize synta c) advertised)
    pub not_sent : some o ≢ c.key_exchange
    pub accepted : accepts synta c o ≡ true
    pub applied : d ≡ apply synta c o
    pub next : planned d ≡ o

  pub planned-apply : (o : Offered) → planned (apply synta c o) ≡ o
  unfolding apply
  planned-apply (kem a) = refl
  planned-apply (dh g) = refl

  retry_action-injective : (o p : Offered) → retry_action o ≡ retry_action p → o ≡ p
  unfolding retry_action
  retry_action-injective o p h = ground arith

  -- The result of `retry_choice`, when it is a retry with an algorithm.
  retry_choice-ok :
      (offers : List Offered) (o : Offered)
      → (retry_choice synta c offers).0 ≡ ok (retry_action o)
      → Has o offers
        × (accepts synta c o ≡ true)
        × ((retry_choice synta c offers).1 ≡ apply synta c o)
  unfolding retry_choice
  retry_choice-ok offers o h = elim (Option-cases (find (accepts synta c) offers)) [
    | inl f ↦ absurd (ground arith)
    | inr (p, f) ↦
        let e : p ≡ o = retry_action-injective p o (ground arith) in
        let (m, a) = find-Has (accepts synta c) offers p f in (rw e at m, rw e at a, ground arith)
  ]

  not_no_retry : (o : Offered) → no_retry ≢ retry_action o
  unfolding retry_action
  not_no_retry o h = ground arith

  not_certs : (o : Offered) → retry_with_certs ≢ retry_action o
  unfolding retry_action
  not_certs o h = ground arith

  abbrev pub Sound : List (ℤ × Bytes) → Offered → Pkinit RetryAction × PkinitClientState H → Type 0
  Sound typed o r = r.0 ≡ ok (retry_action o) → IsRetry typed o r.1

  Sound-later :
      (entry : ℤ × Bytes) (typed : List (ℤ × Bytes)) (o : Offered)
      (r : Pkinit RetryAction × PkinitClientState H)
      → Sound typed o r
      → Sound (entry ∷ typed) o r
  Sound-later entry typed o r s h =
      let w = s h in
      record {
        value = w.value;
        advertised = w.advertised;
        listed = inr w.listed;
        parsed = w.parsed;
        offered = w.offered;
        not_sent = w.not_sent;
        accepted = w.accepted;
        applied = w.applied;
        next = w.next;
      }

  Sound-choice :
      (value : Bytes) (rest : List (ℤ × Bytes)) (advertised : List OfferedAlgorithm) (o : Offered)
      → parse_td_offered synta value ≡ ok advertised
      → Sound
          ((synta.td_dh_parameters, value) ∷ rest)
          o
          (retry_choice synta c (retry_offers synta c advertised))
  unfolding retry_offers
  Sound-choice value rest advertised o p h =
      let (m, a, d) = retry_choice-ok (retry_offers synta c advertised) o h in
      let (r, n) =
        filter-Has (λ x. not (some x == c.key_exchange)) (filter_map (recognize synta c) advertised)
          o m in
      record {
        value = value;
        advertised = advertised;
        listed = inl refl;
        parsed = p;
        offered = r;
        not_sent = λ e. ground (arith, option_beq_iff (some o) c.key_exchange);
        accepted = a;
        applied = d;
        next = rw d (planned-apply o);
      }

  -- A retry with an algorithm is sound: the algorithm is one that a TD-EPHEMERAL-KEY-PARAMETERS-DATA
  -- entry lists, that the client implements and its policy accepts, and that differs from the one
  -- just sent; and the next request will use it.
  pub handle_tryagain-Sound :
      (typed : List (ℤ × Bytes)) (o : Offered)
      → Sound typed o (handle_tryagain_typed_data synta c typed)
  unfolding handle_tryagain_typed_data
  handle_tryagain-Sound [] o = λ h. absurd (not_no_retry o (ground arith))
  handle_tryagain-Sound ((pa_type, value) ∷ rest) o =
      let ih = Sound-later (pa_type, value) rest o _ (handle_tryagain-Sound rest o) in
      elim (Bool-cases (pa_type == synta.td_dh_parameters)) [
        | inl e ↦
            rw (e, (ℤ_beq_iff pa_type synta.td_dh_parameters).0 e)
              (elim (Result-cases (parse_td_offered synta value)) [
                | inr (_, p) ↦ rw p (λ h. absurd (ground arith))
                | inl (a, p) ↦ rw p (Sound-choice value rest a o p)
              ])
        | inr e ↦
            rw e
              (elim (Bool-cases (
                pa_type == synta.td_trusted_certifiers
                || pa_type == synta.td_pkinit_cms_certificates)) [
                  | inl f ↦ rw f (λ h. absurd (not_certs o (ground arith)))
                  | inr f ↦ rw f ih
                ])
      ]
