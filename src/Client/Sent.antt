-- ===== src/Client/Sent.antt =====
-- pkinit-core/src/client.rs: what `build_as_req` leaves alone, and the key exchange that it uses.
use mathlib.Core.Path.{subst}
use kurbu5_pkinit.Common.{
  Bool, Bytes, Option, Option-cases, Result-cases, ap, arith, false, inl, inr, none, ok, refl, some,
  sym, true, ℕ, ◌∙◌, ◌≡◌,
}
use kurbu5_pkinit.Common.Int.{ℤ}
use kurbu5_pkinit.Common.Action.{◌>>=◌}
use kurbu5_pkinit.Common.Moves.{Moves, Moves->>=, Moves-gets, Moves-lift, Moves-modify, Moves-pure}
use kurbu5_pkinit.Error.{Pkinit}
use kurbu5_pkinit.Constants.{DhGroup, KemAlgorithm, dh, kem}
use kurbu5_pkinit.Synta.{PkAuthenticator, Synta}
use kurbu5_pkinit.Crypto.{Crypto}
use kurbu5_pkinit.Config.{PkinitClientConfig}
use kurbu5_pkinit.Dh.{DhKeyPair}
use kurbu5_pkinit.Cms.{Cms}
use kurbu5_pkinit.Client.State.{PkinitClientState}
use kurbu5_pkinit.Client.Negotiate.{is_some}
use kurbu5_pkinit.Client.Authpack.{request_authenticator}
use kurbu5_pkinit.Client.Request.{
  build_as_req, check_exchange, dh_key_of, finish_as_req, request_dh_key, request_dh_nonce,
  request_kem_key, request_key, rest_of_dh_key, rest_of_kem_key,
}
use kurbu5_pkinit.Client.Downgrade.{KeyFits}
use kurbu5_pkinit.Client.Offers.{planned}
use kurbu5_pkinit.Client.Keys.{
  Carries, HoldsKey-SameKeys, IsSent, KeyFits-SameKeys, KeyFits-request_key, SameKeys-finish_as_req,
  finish_as_req-Carries, request_key-HoldsKey,
}

module _ {H : Type 0} where
  -- The policy and the choice of key exchange are as they were.
  pub record Same (c d : PkinitClientState H) : Type 0 where
    pub config : d.config ≡ c.config
    pub floor : d.kem_floor ≡ c.kem_floor
    pub identity : d.identity ≡ c.identity

  Same-trans : (c d e : PkinitClientState H) → Same c d → Same d e → Same c e
  Same-trans c d e p q = record {
    config = q.config ∙ p.config;
    floor = q.floor ∙ p.floor;
    identity = q.identity ∙ p.identity;
  }

  Same-refl : (c : PkinitClientState H) → Same c c
  Same-refl c = record { config = refl; floor = refl; identity = refl }

  -- So is the key exchange of the last request.
  pub record SameAll (c d : PkinitClientState H) : Type 0 where
    pub same : Same c d
    pub key_exchange : d.key_exchange ≡ c.key_exchange

  SameAll-trans : (c d e : PkinitClientState H) → SameAll c d → SameAll d e → SameAll c e
  SameAll-trans c d e p q = record {
    same = Same-trans c d e p.same q.same;
    key_exchange = q.key_exchange ∙ p.key_exchange;
  }

  SameAll-refl : (c : PkinitClientState H) → SameAll c c
  SameAll-refl c = record { same = Same-refl c; key_exchange = refl }

  Same-by :
      (c d : PkinitClientState H)
      → d.config ≡ c.config
      → d.kem_floor ≡ c.kem_floor
      → d.identity ≡ c.identity
      → Same c d
  Same-by c d p q r = record { config = p; floor = q; identity = r }

  SameAll-by :
      (c d : PkinitClientState H) → Same c d → d.key_exchange ≡ c.key_exchange → SameAll c d
  SameAll-by c d p q = record { same = p; key_exchange = q }

  ruleset same_rules = (
    Moves-lift, Moves-pure, Moves-gets, Moves->>=, Moves-modify, Same-refl, Same-trans,
    SameAll-refl, SameAll-trans, Same-by, SameAll-by, refl,
  )

  module _ (synta : Synta) (crypto : Crypto H) (cms : Cms H) where
    SameAll-request_dh_nonce :
        (draw : ℕ) (use_kem : Bool) → Moves SameAll (request_dh_nonce synta crypto cms draw use_kem)
    unfolding request_dh_nonce
    SameAll-request_dh_nonce draw true = search same_rules
    SameAll-request_dh_nonce draw false = search same_rules

    SameAll-finish_as_req :
        (draw : ℕ) (use_kem : Bool) (pk_auth : PkAuthenticator) (spki : Bytes)
        → Moves SameAll (finish_as_req synta crypto cms draw use_kem pk_auth spki)
    unfolding finish_as_req
    SameAll-finish_as_req draw use_kem pk_auth spki =
        search (same_rules, SameAll-request_dh_nonce) depth 12

    Same-finish_as_req :
        (draw : ℕ) (use_kem : Bool) (pk_auth : PkAuthenticator) (spki : Bytes)
        → Moves Same (finish_as_req synta crypto cms draw use_kem pk_auth spki)
    Same-finish_as_req draw use_kem pk_auth spki = record {
      at = λ c. ((SameAll-finish_as_req draw use_kem pk_auth spki).at c).same;
    }

    Same-request_kem_key :
        (draw : ℕ) (alg : KemAlgorithm) → Moves Same (request_kem_key synta crypto cms draw alg)
    unfolding request_kem_key
    Same-request_kem_key draw alg = search same_rules depth 12

    Same-dh_key_of :
        (draw : ℕ) (group : DhGroup) (held : Option (DhKeyPair H))
        → Moves Same (dh_key_of synta crypto cms draw group held)
    unfolding dh_key_of
    Same-dh_key_of draw group (some key) = search same_rules
    Same-dh_key_of draw group none = search same_rules depth 12

    Same-request_dh_key :
        (draw : ℕ) (group : DhGroup) → Moves Same (request_dh_key synta crypto cms draw group)
    unfolding request_dh_key
    Same-request_dh_key draw group = search (same_rules, Same-dh_key_of) depth 12

    Same-request_key :
        (draw : ℕ) (config : PkinitClientConfig)
        → Moves Same (request_key synta crypto cms draw config)
    unfolding request_key
    Same-request_key draw config = elim (Option-cases config.kem_algorithm) [
      | inl e ↦ rw (e, request_key) (Same-request_dh_key draw config.dh_group)
      | inr (alg, e) ↦ rw (e, request_key) (Same-request_kem_key draw alg)
    ]

    SameAll-rest_of_kem_key :
        (draw : ℕ) (alg : KemAlgorithm) → Moves SameAll (rest_of_kem_key synta crypto cms draw alg)
    unfolding rest_of_kem_key
    SameAll-rest_of_kem_key draw alg = search same_rules depth 12

    SameAll-dh_key_of :
        (draw : ℕ) (group : DhGroup) (held : Option (DhKeyPair H))
        → Moves SameAll (dh_key_of synta crypto cms draw group held)
    unfolding dh_key_of
    SameAll-dh_key_of draw group (some key) = search same_rules
    SameAll-dh_key_of draw group none = search same_rules depth 12

    SameAll-rest_of_dh_key :
        (draw : ℕ) (group : DhGroup) → Moves SameAll (rest_of_dh_key synta crypto cms draw group)
    unfolding rest_of_dh_key
    SameAll-rest_of_dh_key draw group = search (same_rules, SameAll-dh_key_of) depth 12

    request_dh_key-exchange :
        (draw : ℕ) (group : DhGroup) (c : PkinitClientState H)
        → (request_dh_key synta crypto cms draw group c).1.key_exchange ≡ some (dh group)
    unfolding request_dh_key ◌>>=◌
    request_dh_key-exchange draw group c =
        ((SameAll-rest_of_dh_key draw group).at
          (record c { key_exchange = some (dh group) })).key_exchange

    request_kem_key-exchange :
        (draw : ℕ) (alg : KemAlgorithm) (c : PkinitClientState H)
        → (request_kem_key synta crypto cms draw alg c).1.key_exchange ≡ some (kem alg)
    unfolding request_kem_key ◌>>=◌
    request_kem_key-exchange draw alg c =
        ((SameAll-rest_of_kem_key draw alg).at
          (record c { key_exchange = some (kem alg) })).key_exchange

    request_key-planned :
        (draw : ℕ) (c : PkinitClientState H)
        → (request_key synta crypto cms draw c.config c).1.key_exchange ≡ some (planned c)
    unfolding request_key
    request_key-planned draw c = elim (Option-cases c.config.kem_algorithm) [
      | inl e ↦ let p = request_dh_key-exchange draw c.config.dh_group c in ground (arith, e, p)
      | inr (alg, e) ↦ let p = request_kem_key-exchange draw alg c in ground (arith, e, p)
    ]

    pub Same-build_as_req :
        (key_draw nonce_draw : ℕ) (nonce ctime cusec : ℤ) (req_body : Bytes)
        → Moves Same (build_as_req synta crypto cms key_draw nonce_draw nonce ctime cusec req_body)
    unfolding build_as_req
    Same-build_as_req key_draw nonce_draw nonce ctime cusec req_body =
        search (same_rules, Same-request_key, Same-finish_as_req) depth 12

    module _ (key_draw nonce_draw : ℕ) (nonce ctime cusec : ℤ) (req_body : Bytes)
        (c : PkinitClientState H) where
      abbrev build : Pkinit Bytes × PkinitClientState H
      build = build_as_req synta crypto cms key_draw nonce_draw nonce ctime cusec req_body c

      abbrev auth_of : Pkinit PkAuthenticator
      auth_of = request_authenticator synta crypto c.freshness_token nonce ctime cusec req_body

      abbrev key_of : Pkinit Bytes × PkinitClientState H
      key_of = request_key synta crypto cms key_draw c.config c

      build-ok :
          {req : Bytes}
          → build.0 ≡ ok req
          → (check_exchange synta crypto cms c.config ≡ ok tt)
            × ((pk_auth : PkAuthenticator) × (spki : Bytes) × (key_of.0 ≡ ok spki)
                × (build
                    ≡ finish_as_req synta crypto cms nonce_draw
                        (is_some c.config.kem_algorithm)
                        pk_auth
                        spki
                        key_of.1))
      unfolding build_as_req ◌>>=◌
      build-ok h = elim (Result-cases auth_of) [
        | inr (e, p) ↦ absurd (ground arith)
        | inl (pk_auth, p) ↦ elim (Result-cases (check_exchange synta crypto cms c.config)) [
          | inr (e, q) ↦ absurd (ground arith)
          | inl (u, q) ↦ elim (Result-cases key_of.0) [
            | inr (e, r) ↦ absurd (ground arith)
            | inl (spki, r) ↦ (q, (pk_auth, spki, r, ground arith))
          ]
        ]
      ]

      -- A client whose kept DH key, if it has one, is of the configured group sends what it had
      -- planned: a request that was built records the planned key exchange and carries, in the
      -- AuthPack that the client's identity signs, the public key of a private key of that exchange,
      -- which the client then holds; and with `require_kem` the exchange is a KEM.
      pub build_as_req-IsSent :
          {req : Bytes}
          → KeyFits c
          → build.0 ≡ ok req
          → IsSent synta crypto cms (planned c) req build.1
            × (c.config.require_kem ≡ true → (alg : KemAlgorithm) × (planned c ≡ kem alg))
      unfolding check_exchange
      build_as_req-IsSent {req = req} fits h =
          let use_kem = is_some c.config.kem_algorithm in
          let (q, (pk_auth, spki, s, p)) = build-ok h in
          let same =
            (SameKeys-finish_as_req synta crypto cms nonce_draw use_kem pk_auth spki).at key_of.1 in
          let recorded =
            ((SameAll-finish_as_req nonce_draw use_kem pk_auth spki).at key_of.1).key_exchange in
          let key = request_key-HoldsKey synta crypto cms key_draw c spki fits s in
          let carried =
            finish_as_req-Carries synta crypto cms nonce_draw use_kem pk_auth spki req key_of.1
              (ap (λ r. r.0) (sym p) ∙ h) in
          (
            subst (λ r. IsSent synta crypto cms (planned c) req r.1) (sym p)
                (record {
                  recorded = recorded ∙ request_key-planned key_draw c;
                  spki = spki;
                  held = HoldsKey-SameKeys synta crypto cms (planned c) key_of.1 _ spki same key;
                  carried =
                      subst (λ i. Carries synta crypto cms i spki req) (sym same.identity) carried;
                }),
            λ k. elim (Option-cases c.config.kem_algorithm) [
              | inl e ↦ absurd (ground arith)
              | inr (alg, e) ↦ (alg, ground arith)
            ],
          )

      -- A kept DH key goes on fitting, also when the request fails.
      pub KeyFits-build_as_req : KeyFits c → KeyFits build.1
      unfolding build_as_req ◌>>=◌
      KeyFits-build_as_req fits = elim (Result-cases auth_of) [
        | inr (e, p) ↦ let idle : c ≡ build.1 = ground arith in subst KeyFits idle fits
        | inl (pk_auth, p) ↦ elim (Result-cases (check_exchange synta crypto cms c.config)) [
          | inr (e, q) ↦ let idle : c ≡ build.1 = ground arith in subst KeyFits idle fits
          | inl (u, q) ↦
              let keyed =
                KeyFits-request_key synta crypto cms key_draw c fits
                  ((Same-request_key key_draw c.config).at c).config in
              elim (Result-cases key_of.0) [
                | inr (e, r) ↦
                    let same : key_of.1 ≡ build.1 = ground arith in subst KeyFits same keyed
                | inl (spki, r) ↦
                    let use_kem = is_some c.config.kem_algorithm in
                    let run : (finish_as_req synta crypto cms nonce_draw use_kem pk_auth spki
                          key_of.1).1
                        ≡ build.1 =
                      ground arith in
                    subst KeyFits run (
                      KeyFits-SameKeys synta crypto cms key_of.1 _
                        ((SameKeys-finish_as_req synta crypto cms nonce_draw use_kem pk_auth
                            spki).at
                          key_of.1)
                        keyed)
              ]
        ]
      ]
