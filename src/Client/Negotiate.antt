-- ===== src/Client/Negotiate.antt =====
-- pkinit-core/src/client.rs: the choice of a key exchange from the KDC's hint and from the typed
-- data of its errors.
use kurbu5_pkinit.Common.{
  Bool, Bytes, List, Option, PartialEq, [], any, ap, arith, collect, contains, err, false, filter,
  filter_map, find, if◌then◌else◌, is_empty, leb, list_eq, map_err, nat_eq, none, not, ok,
  option_eq, some, true, ◌&&◌, ◌==◌, ◌>>=◌, ◌||◌, ◌↔◌, ◌∷◌, ◌≡◌,
}
use kurbu5_pkinit.Common.Int.{ℤ, ℤ_eq}
use kurbu5_pkinit.Error.{Pkinit, asn1_err, downgrade_rejected, no_acceptable_key_exchange, str}
use kurbu5_pkinit.Constants.{
  KemAlgorithm, KeyExchangeType, dh, from_oid, group_beq_iff, group_eq, kem, kem_beq_iff, kem_eq,
  strength_order,
}
use kurbu5_pkinit.Synta.{Synta}
use kurbu5_pkinit.KemTypes.{OfferedAlgorithm, offered_algorithm, parse_pkinit_hint}
use kurbu5_pkinit.Dh.{group_from_algorithm_identifier}
use kurbu5_pkinit.Client.State.{
  PkinitClientState, RetryAction, has_pq_certificate, no_retry, retry_with_certs,
  retry_with_dh_params, retry_with_kem_algorithm, set_dh_group, set_kem_algorithm,
}

-- `Offered` of the source has the variants of `KeyExchangeType`, of which it is another name here.
abbrev pub Offered : Type 0
Offered = KeyExchangeType

unfoldable pub offered_beq : Offered → Offered → Bool
offered_beq (kem a) (kem b) = a == b
offered_beq (dh a) (dh b) = a == b
offered_beq _ _ = false

pub offered_beq_iff : (a b : Offered) → (offered_beq a b ≡ true) ↔ (a ≡ b)
unfolding offered_beq
offered_beq_iff (kem a) (kem b) =
    (λ h. ap kem ((kem_beq_iff a b).0 h), λ p. ground (arith, kem_beq_iff a b))
offered_beq_iff (dh a) (dh b) =
    (λ h. ap dh ((group_beq_iff a b).0 h), λ p. ground (arith, group_beq_iff a b))
offered_beq_iff (kem a) (dh b) = (λ h. cc, λ h. cc)
offered_beq_iff (dh a) (kem b) = (λ h. cc, λ h. cc)

instance abbrev pub offered_eq : PartialEq Offered
offered_eq = record { test = offered_beq; decides = offered_beq_iff }

unfoldable pub is_kem_exchange : Option KeyExchangeType → Bool
is_kem_exchange (some (kem _)) = true
is_kem_exchange _ = false

unfoldable pub is_dh_offer : Offered → Bool
is_dh_offer (dh _) = true
is_dh_offer (kem _) = false

abbrev pub is_some : {A : Type 0} → Option A → Bool
is_some (some _) = true
is_some none = false

unfoldable pub meets_floor : Option KemAlgorithm → KemAlgorithm → Bool
meets_floor none alg = true
meets_floor (some floor) alg = leb (strength_order floor) (strength_order alg)

unfoldable pub parse_td_offered : Synta → Bytes → Pkinit (List OfferedAlgorithm)
parse_td_offered synta bytes = do
  elems ←
      map_err (synta.td_dh_parameters_from_der bytes)
        (asn1_err "decode TD-EPHEMERAL-KEY-PARAMETERS-DATA")
  collect
      (λ elem. do
        elem_der ← map_err (synta.element_to_der elem) (asn1_err "encode AlgorithmIdentifier")
        alg_id ← map_err (synta.alg_id_from_der elem_der) (asn1_err "decode AlgorithmIdentifier")
        offered_algorithm synta alg_id)
      elems

unfoldable pub retry_action : Offered → RetryAction
retry_action (kem alg) = retry_with_kem_algorithm alg
retry_action (dh group) = retry_with_dh_params group

module _ {H : Type 0} (synta : Synta) where
  unfoldable pub recognize : PkinitClientState H → OfferedAlgorithm → Option Offered
  recognize c (o, params) = elim (from_oid synta.oids o) [
    | some alg ↦ some (kem alg)
    | none ↦ elim (group_from_algorithm_identifier synta o params c.config.dh_min_bits) [
      | some group ↦ some (dh group)
      | none ↦ none
    ]
  ]

  unfoldable pub dh_allowed : PkinitClientState H → Bool
  unfolding is_kem_exchange
  dh_allowed c =
      not c.config.require_kem
      && not (has_pq_certificate synta c && (is_some c.kem_floor || is_kem_exchange c.key_exchange))

  unfoldable pub accepts : PkinitClientState H → Offered → Bool
  unfolding meets_floor dh_allowed
  accepts c (kem alg) = meets_floor c.kem_floor alg
  accepts c (dh _) = dh_allowed c

  unfoldable pub apply : PkinitClientState H → Offered → PkinitClientState H
  unfolding set_kem_algorithm set_dh_group
  apply c (kem alg) = set_kem_algorithm c alg
  apply c (dh group) = set_dh_group c group

  -- The configured KEM is advertised and acceptable.
  unfoldable pub keeps_current : PkinitClientState H → List Offered → Bool
  keeps_current c offers = elim c.config.kem_algorithm [
    | some current ↦ contains offers (kem current) && accepts c (kem current)
    | none ↦ false
  ]

  unfoldable pub hint_choice :
      PkinitClientState H → List Offered → Pkinit (Unit {0}) × PkinitClientState H
  hint_choice c offers =
      if keeps_current c offers then (ok tt, c) else elim (find (accepts c) offers) [
        | some offered ↦ (ok tt, apply c offered)
        | none ↦ (
          err (
              no_acceptable_key_exchange (
                str "the KDC advertised no key-establishment algorithm acceptable to the client"
                ∷ [])),
          c,
        )
      ]

  unfoldable pub process_pkinit_hint :
      PkinitClientState H → Bytes → Pkinit (Unit {0}) × PkinitClientState H
  process_pkinit_hint c hint_der = elim (parse_pkinit_hint synta hint_der) [
    | err e ↦ (err e, c)
    | ok advertised ↦
        if is_empty advertised
        then (ok tt, c)
        else hint_choice c (filter_map (recognize c) advertised)
  ]

  -- What the client may still offer: the recognised algorithms but the one just sent.
  unfoldable pub retry_offers : PkinitClientState H → List OfferedAlgorithm → List Offered
  retry_offers c advertised =
      filter (λ o. not (some o == c.key_exchange)) (filter_map (recognize c) advertised)

  unfoldable pub retry_choice :
      PkinitClientState H → List Offered → Pkinit RetryAction × PkinitClientState H
  unfolding is_dh_offer
  retry_choice c offers = elim (find (accepts c) offers) [
    | some offered ↦ (ok (retry_action offered), apply c offered)
    | none ↦ (
      err (
          if any is_dh_offer offers
          then downgrade_rejected (
              (if c.config.require_kem
                then str "KDC offered only classic DH/ECDH; pkinit_require_kem is set"
                else str
                    "client is committed to a post-quantum KEM; refusing to fall back to classical DH/ECDH")
              ∷ [])
          else no_acceptable_key_exchange
              (str "the KDC offered no key-establishment algorithm acceptable to the client" ∷ [])),
      c,
    )
  ]

  -- The first entry of a known type decides.
  unfoldable pub handle_tryagain_typed_data :
      PkinitClientState H → List (ℤ × Bytes) → Pkinit RetryAction × PkinitClientState H
  handle_tryagain_typed_data c [] = (ok no_retry, c)
  handle_tryagain_typed_data c ((pa_type, value) ∷ rest) =
      let later = handle_tryagain_typed_data c rest in
      if pa_type == synta.td_dh_parameters
      then elim (parse_td_offered synta value) [
        | err e ↦ (err e, c)
        | ok advertised ↦ retry_choice c (retry_offers c advertised)
      ]
      else if pa_type == synta.td_trusted_certifiers || pa_type == synta.td_pkinit_cms_certificates
      then (ok retry_with_certs, c)
      else later

  unfoldable pub handle_tryagain :
      PkinitClientState H → Bytes → Pkinit RetryAction × PkinitClientState H
  handle_tryagain c error_padata = elim (synta.padata_from_der error_padata) [
    | err e ↦ (err (asn1_err "decode error padata" e), c)
    | ok typed ↦ handle_tryagain_typed_data c typed
  ]
