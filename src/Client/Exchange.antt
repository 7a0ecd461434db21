-- ===== src/Client/Exchange.antt =====
-- pkinit-core/src/client.rs: everything that can happen to a client, as steps, and what holds of a
-- client whatever the KDC, or somebody in its place, has sent it.
use mathlib.Core.Path.{subst}
use kurbu5_pkinit.Common.{
  Bool, Bool-cases, Bytes, List, Option, Option-cases, Result-cases, Text, ap, arith, if◌then◌else◌,
  inl, inr, none, ok, refl, some, true, ℕ, ◌∙◌, ◌≡◌, ◌≤◌,
}
use kurbu5_pkinit.Common.Int.{ℤ}
use kurbu5_pkinit.Constants.{KemAlgorithm, kem, ml_kem768, strength_order}
use kurbu5_pkinit.Synta.{Synta, dh_info, enc_key_pack}
use kurbu5_pkinit.Crypto.{Crypto}
use kurbu5_pkinit.KemTypes.{is_kem_rep}
use kurbu5_pkinit.Config.{PkinitClientConfig}
use kurbu5_pkinit.Identity.{PkinitIdentity}
use kurbu5_pkinit.Identity.Store.{TrustStore}
use kurbu5_pkinit.Kdf.{OctetString2Key}
use kurbu5_pkinit.Cms.{Cms}
use kurbu5_pkinit.Client.State.{
  KdcCaTrustBroker, PkinitClientState, new_client, set_freshness_token, set_is_anonymous,
  set_kdc_identity, set_trust_broker, with_default_kem,
}
use kurbu5_pkinit.Client.Negotiate.{
  Offered, handle_tryagain, handle_tryagain_typed_data, meets_floor, process_pkinit_hint,
}
use kurbu5_pkinit.Client.Request.{build_as_req}
use kurbu5_pkinit.Client.Reply.{AsRepParams, process_as_rep, process_kem_rep}
use kurbu5_pkinit.Client.Downgrade.{
  Chosen-handle_tryagain, Chosen-handle_tryagain_typed_data, Chosen-process_pkinit_hint,
  IsCompliant, IsCompliant-new_client, Keeps, Keeps-Chosen, Keeps-refl, Keeps-trans, KeyFits,
}
use kurbu5_pkinit.Client.Offers.{planned}
use kurbu5_pkinit.Client.Keys.{IsSent}
use kurbu5_pkinit.Client.Sent.{KeyFits-build_as_req, Same, Same-build_as_req, build_as_req-IsSent}

-- The weakest KEM that a configuration allows, by its strength.
unfoldable pub least_strength : PkinitClientConfig → ℕ
least_strength config = elim config.kem_algorithm [
  | some alg ↦ strength_order alg
  | none ↦ if config.require_kem then strength_order ml_kem768 else 0
]

module _ {H : Type 0} (synta : Synta) (crypto : Crypto H) (cms : Cms H)
    (o2k : OctetString2Key) where
  -- One call on the client but for a request, whether it succeeds or fails. Setting the algorithm by
  -- hand is no step.
  pub data Quiet : (c d : PkinitClientState H) → Type 0 where
    hint : (c : PkinitClientState H) (der : Bytes) → Quiet c (process_pkinit_hint synta c der).1
    tryagain :
        (c : PkinitClientState H) (padata : Bytes) → Quiet c (handle_tryagain synta c padata).1
    typed_data :
        (c : PkinitClientState H) (typed : List (ℤ × Bytes))
        → Quiet c (handle_tryagain_typed_data synta c typed).1
    reply :
        (c : PkinitClientState H) (now : ℕ) (pa_rep : Bytes) (params : AsRepParams)
        → Quiet c (process_as_rep synta crypto cms o2k now c pa_rep params).1
    freshness : (c : PkinitClientState H) (token : Bytes) → Quiet c (set_freshness_token c token)
    kdc :
        (c : PkinitClientState H) (principal : Text) (hostname : Option Text)
        → Quiet c (set_kdc_identity c principal hostname)
    broker : (c : PkinitClientState H) (b : KdcCaTrustBroker) → Quiet c (set_trust_broker c b)
    anonymous : (c : PkinitClientState H) (a : Bool) → Quiet c (set_is_anonymous c a)

  -- Any call.
  pub data Step : (c d : PkinitClientState H) → Type 0 where
    quiet : (c d : PkinitClientState H) → Quiet c d → Step c d
    request :
        (c : PkinitClientState H) (key_draw nonce_draw : ℕ) (nonce ctime cusec : ℤ) (body : Bytes)
        → Step c (build_as_req synta crypto cms key_draw nonce_draw nonce ctime cusec body c).1

  -- Any number of steps, the first one first.
  pub data Reaches : (c d : PkinitClientState H) → Type 0 where
    stay : (c : PkinitClientState H) → Reaches c c
    step : (c d e : PkinitClientState H) → Step c d → Reaches d e → Reaches c e

  Keeps-Same : (c d : PkinitClientState H) → IsCompliant c → KeyFits d → Same c d → Keeps c d
  Keeps-Same c d h fits s = record {
    compliant = (rw (s.config, s.floor) h.0, fits);
    floor = s.floor;
    required = ap (λ f. f.require_kem) s.config;
    identity = s.identity;
  }

  Keeps-process_as_rep :
      (c : PkinitClientState H) (now : ℕ) (pa_rep : Bytes) (params : AsRepParams)
      → IsCompliant c
      → Keeps c (process_as_rep synta crypto cms o2k now c pa_rep params).1
  unfolding process_as_rep process_kem_rep
  Keeps-process_as_rep c now pa_rep params h =
      let same : Keeps c c = Keeps-refl c h in
      elim (Bool-cases (is_kem_rep pa_rep)) [
        | inl e ↦
            rw (e, process_as_rep)
              (record { compliant = h; floor = refl; required = refl; identity = refl })
        | inr e ↦
            rw (e, process_as_rep)
              (elim (Result-cases (synta.pa_pk_as_rep_from_der pa_rep)) [
                | inr (f, p) ↦ rw p same
                | inl (dh_info info, p) ↦ rw p same
                | inl (enc_key_pack k, p) ↦ rw p same
              ])
      ]

  Keeps-Quiet : (c d : PkinitClientState H) → IsCompliant c → Quiet c d → Keeps c d
  unfolding set_freshness_token set_kdc_identity set_trust_broker set_is_anonymous
  Keeps-Quiet c _ h (hint _ der) = Keeps-Chosen synta c h _ (Chosen-process_pkinit_hint synta c der)
  Keeps-Quiet c _ h (tryagain _ padata) =
      Keeps-Chosen synta c h _ (Chosen-handle_tryagain synta c padata)
  Keeps-Quiet c _ h (typed_data _ typed) =
      Keeps-Chosen synta c h _ (Chosen-handle_tryagain_typed_data synta c typed)
  Keeps-Quiet c _ h (reply _ now pa_rep params) = Keeps-process_as_rep c now pa_rep params h
  Keeps-Quiet c _ h (freshness _ token) = record {
    compliant = h;
    floor = refl;
    required = refl;
    identity = refl;
  }
  Keeps-Quiet c _ h (kdc _ principal hostname) = record {
    compliant = h;
    floor = refl;
    required = refl;
    identity = refl;
  }
  Keeps-Quiet c _ h (broker _ b) = record {
    compliant = h;
    floor = refl;
    required = refl;
    identity = refl;
  }
  Keeps-Quiet c _ h (anonymous _ a) = record {
    compliant = h;
    floor = refl;
    required = refl;
    identity = refl;
  }

  Keeps-Step : (c d : PkinitClientState H) → IsCompliant c → Step c d → Keeps c d
  Keeps-Step c d h (quiet _ _ q) = Keeps-Quiet c d h q
  Keeps-Step c _ h (request _ key_draw nonce_draw nonce ctime cusec body) =
      Keeps-Same c _ h
        (KeyFits-build_as_req synta crypto cms key_draw nonce_draw nonce ctime cusec body c h.1)
        ((Same-build_as_req synta crypto cms key_draw nonce_draw nonce ctime cusec body).at c)

  Keeps-Reaches : (c d : PkinitClientState H) → IsCompliant c → Reaches c d → Keeps c d
  Keeps-Reaches c _ h (stay _) = Keeps-refl c h
  Keeps-Reaches c e h (step _ d _ s r) =
      let p = Keeps-Step c d h s in Keeps-trans p (Keeps-Reaches d e p.compliant r)

  require_kem-with_default_kem :
      (config : PkinitClientConfig) → (with_default_kem config).require_kem ≡ config.require_kem
  unfolding with_default_kem
  require_kem-with_default_kem config = ground arith

  meets_floor-least :
      (config : PkinitClientConfig) (alg : KemAlgorithm)
      → meets_floor (with_default_kem config).kem_algorithm alg ≡ true
      → least_strength config ≤ strength_order alg
  unfolding meets_floor with_default_kem least_strength
  meets_floor-least config alg h = elim (Option-cases config.kem_algorithm) [
    | inr (floor, e) ↦ ground arith
    | inl e ↦ elim (Bool-cases config.require_kem) [ inl r ↦ ground arith | inr r ↦ ground arith ]
  ]

  meets_floor-planned :
      (c : PkinitClientState H)
      → IsCompliant c
      → (alg : KemAlgorithm) → planned c ≡ kem alg
      → meets_floor c.kem_floor alg ≡ true
  meets_floor-planned c (h, _) alg p = ground arith

  -- A new client may have received any hints, errors and replies, and built any requests, so long as
  -- nobody set its algorithm by hand. The next request that it builds carries the public key of a
  -- private key that the client holds for the key exchange that it records. With `require_kem` that is
  -- a KEM key, and any KEM key is of an algorithm that is at least as strong as the configured one, or
  -- as ML-KEM-768 when the configuration requires a KEM and names none.
  pub Reaches-no_downgrade :
      (i : PkinitIdentity H) (s : TrustStore) (config : PkinitClientConfig)
      (c : PkinitClientState H)
      → Reaches (new_client i s config) c
      → (key_draw nonce_draw : ℕ) (nonce ctime cusec : ℤ) (body req : Bytes)
      → (build_as_req synta crypto cms key_draw nonce_draw nonce ctime cusec body c).0 ≡ ok req
      → let d = (build_as_req synta crypto cms key_draw nonce_draw nonce ctime cusec body c).1 in
        (o : Offered) × IsSent synta crypto cms o req d
        × (config.require_kem ≡ true → (alg : KemAlgorithm) × (o ≡ kem alg))
        × ((alg : KemAlgorithm) → o ≡ kem alg → least_strength config ≤ strength_order alg)
  unfolding new_client with_default_kem
  Reaches-no_downgrade i s config c r key_draw nonce_draw nonce ctime cusec body req h =
      let k = Keeps-Reaches (new_client i s config) c (IsCompliant-new_client i s config) r in
      let (sent, g) =
        build_as_req-IsSent synta crypto cms key_draw nonce_draw nonce ctime cusec body c
          k.compliant.1 h in
      let required : c.config.require_kem ≡ config.require_kem =
        k.required ∙ require_kem-with_default_kem config in
      (
        planned c,
        sent,
        λ q. g (required ∙ q),
        λ alg p.
            let m = meets_floor-planned c k.compliant alg p in
            meets_floor-least config alg (subst (λ f. meets_floor f alg ≡ true) k.floor m),
      )
