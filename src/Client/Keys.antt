-- ===== src/Client/Keys.antt =====
-- pkinit-core/src/client.rs: the key that a request carries.
use mathlib.Core.Path.{subst}
use kurbu5_pkinit.Common.{
  >>=-eq-ok, Bool, Bytes, Option-cases, Result, Result-cases, ap, arith, false, inl, inr, map_err,
  map_err-eq-ok, none, ok, ok-injective, refl, some, sym, true, try-eq-ok, ℕ, ◌∙◌, ◌≡◌, ◌⊎◌,
}
use kurbu5_pkinit.Common.Action.{gets, lift, ◌>>=◌}
use kurbu5_pkinit.Common.Moves.{
  Moves, Moves->>=, Moves-gets, Moves-lift, Moves-modify, Moves-pure, lifted-ok, run-ok,
}
use kurbu5_pkinit.Error.{Fault, Pkinit, PkinitError, asn1_err}
use kurbu5_pkinit.Constants.{DhGroup, KemAlgorithm, composite_sub_arc, dh, kem, parameter_set_name}
use kurbu5_pkinit.Synta.{AuthPack, PkAuthenticator, Synta}
use kurbu5_pkinit.Crypto.{Crypto}
use kurbu5_pkinit.Identity.{PkinitIdentity}
use kurbu5_pkinit.Dh.{DhKeyPair, dh_spki_der, generate, generate_pkey}
use kurbu5_pkinit.Kem.{KemKeyPair, generate_kem, kem_spki_der}
use kurbu5_pkinit.Cms.{Cms}
use kurbu5_pkinit.Client.State.{PkinitClientState}
use kurbu5_pkinit.Client.Negotiate.{Offered}
use kurbu5_pkinit.Client.Authpack.{request_kdfs, sign_auth_pack}
use kurbu5_pkinit.Client.Request.{
  dh_key_of, finish_as_req, request_dh_key, request_dh_nonce, request_kem_key, request_key,
  rest_of_dh_key, rest_of_kem_key,
}
use kurbu5_pkinit.Client.Downgrade.{KeyFits}
use kurbu5_pkinit.Client.Offers.{planned}

module _ {H : Type 0} (synta : Synta) (crypto : Crypto H) (cms : Cms H) where
  -- The client holds a private key of the key exchange, and `spki` is its public key.
  abbrev pub HoldsKey : Offered → PkinitClientState H → Bytes → Type 0
  HoldsKey (kem alg) d spki =
      (key : KemKeyPair H) × (d.kem_key ≡ some key)
      × (key.algorithm ≡ alg)
      × (kem_spki_der crypto key ≡ ok spki)
  HoldsKey (dh group) d spki =
      (key : DhKeyPair H) × (d.dh_key ≡ some key)
      × (key.group ≡ group)
      × (dh_spki_der crypto key ≡ ok spki)

  generate_kem-algorithm :
      (draw : ℕ) (alg : KemAlgorithm) (key : KemKeyPair H)
      → generate_kem crypto draw alg ≡ ok key
      → key.algorithm ≡ alg
  unfolding generate_kem
  generate_kem-algorithm draw alg key h =
      let (k, e, g) =
        try-eq-ok
          (elim (composite_sub_arc alg) as (λ _. Result Fault H) [
            | some sub_arc ↦ crypto.generate_composite_kem draw sub_arc
            | none ↦ crypto.generate_ml_kem draw (parameter_set_name alg)
          ])
          _ _ h in
      sym (ap (λ x. x.algorithm) (ok-injective {E = PkinitError} g))

  generate-group :
      (draw : ℕ) (group : DhGroup) (key : DhKeyPair H)
      → generate crypto draw group ≡ ok key
      → key.group ≡ group
  unfolding generate
  generate-group draw group key h =
      let (k, e, g) = >>=-eq-ok (generate_pkey crypto draw group) _ h in
      sym (ap (λ x. x.group) (ok-injective {E = PkinitError} g))

  request_kem_key-HoldsKey :
      (draw : ℕ) (alg : KemAlgorithm) (c : PkinitClientState H) (spki : Bytes)
      → (request_kem_key synta crypto cms draw alg c).0 ≡ ok spki
      → HoldsKey (kem alg) (request_kem_key synta crypto cms draw alg c).1 spki
  unfolding request_kem_key rest_of_kem_key ◌>>=◌
  request_kem_key-HoldsKey draw alg c spki h = elim (Result-cases (generate_kem crypto draw alg)) [
    | inr (e, p) ↦ absurd (ground arith)
    | inl (key, p) ↦ (key, ground arith, generate_kem-algorithm draw alg key p, ground arith)
  ]

  -- What happens to the DH key.
  request_dh_key-cases :
      (draw : ℕ) (group : DhGroup) (c : PkinitClientState H)
      → let r = request_dh_key synta crypto cms draw group c in
        ((r.1.dh_key ≡ c.dh_key)
          × ((spki : Bytes)
              → r.0 ≡ ok spki
              → (key : DhKeyPair H) × (c.dh_key ≡ some key) × (dh_spki_der crypto key ≡ ok spki)))
        ⊎ ((key : DhKeyPair H) × (r.1.dh_key ≡ some key)
            × (key.group ≡ group)
            × ((spki : Bytes) → r.0 ≡ ok spki → dh_spki_der crypto key ≡ ok spki))
  unfolding request_dh_key rest_of_dh_key dh_key_of ◌>>=◌
  request_dh_key-cases draw group c = elim (Option-cases c.dh_key) [
    | inr (key, e) ↦ inl (ground arith, λ spki h. (key, e, ground arith))
    | inl e ↦ elim (Result-cases (generate crypto draw group)) [
      | inr (x, p) ↦ inl (ground arith, λ spki h. absurd (ground arith))
      | inl (key, p) ↦
          inr (key, ground arith, generate-group draw group key p, λ spki h. ground arith)
    ]
  ]

  pub request_key-HoldsKey :
      (draw : ℕ) (c : PkinitClientState H) (spki : Bytes)
      → KeyFits c
      → (request_key synta crypto cms draw c.config c).0 ≡ ok spki
      → HoldsKey (planned c) (request_key synta crypto cms draw c.config c).1 spki
  unfolding request_key
  request_key-HoldsKey draw c spki fits h = elim (Option-cases c.config.kem_algorithm) [
    | inr (alg, e) ↦
        let run : request_key synta crypto cms draw c.config c
            ≡ request_kem_key synta crypto cms draw alg c =
          ground arith in
        let which : planned c ≡ kem alg = ground arith in
        moved (kem alg) (request_kem_key synta crypto cms draw alg c) run which
          (request_kem_key-HoldsKey draw alg c spki (ap (λ r. r.0) (sym run) ∙ h))
    | inl e ↦
        let group = c.config.dh_group in
        let run : request_key synta crypto cms draw c.config c
            ≡ request_dh_key synta crypto cms draw group c =
          ground arith in
        let which : planned c ≡ dh group = ground arith in
        let asked : (request_dh_key synta crypto cms draw group c).0 ≡ ok spki =
          ap (λ r. r.0) (sym run) ∙ h in
        moved (dh group) (request_dh_key synta crypto cms draw group c) run which
          (elim (request_dh_key-cases draw group c) [
            | inl (same, held) ↦
                let (key, k, s) = held spki asked in (key, same ∙ k, fits key k e, s)
            | inr (key, made, of_group, exported) ↦ (key, made, of_group, exported spki asked)
          ])
  ]
    where
      moved :
          (o : Offered) (r : Pkinit Bytes × PkinitClientState H)
          → request_key synta crypto cms draw c.config c ≡ r
          → planned c ≡ o
          → HoldsKey o r.1 spki
          → HoldsKey (planned c) (request_key synta crypto cms draw c.config c).1 spki
      moved o r run which held =
          subst (λ p. HoldsKey p (request_key synta crypto cms draw c.config c).1 spki) (sym which)
            (subst (λ x. HoldsKey o x.1 spki) (sym run) held)

  -- A key that is kept goes on fitting, whether or not the request succeeded.
  pub KeyFits-request_key :
      (draw : ℕ) (c : PkinitClientState H)
      → KeyFits c
      → (request_key synta crypto cms draw c.config c).1.config ≡ c.config
      → KeyFits (request_key synta crypto cms draw c.config c).1
  unfolding request_key
  KeyFits-request_key draw c fits same key e n =
      let none_planned : c.config.kem_algorithm ≡ none = ap (λ f. f.kem_algorithm) (sym same) ∙ n in
      let group = c.config.dh_group in
      let to_group : c.config.dh_group
          ≡ (request_key synta crypto cms draw c.config c).1.config.dh_group =
        ap (λ f. f.dh_group) (sym same) in
      let asked : (request_key synta crypto cms draw c.config c).1.dh_key
          ≡ (request_dh_key synta crypto cms draw group c).1.dh_key =
        ground arith in
      elim (request_dh_key-cases draw group c) [
        | inl (kept, _) ↦ fits key (sym kept ∙ sym asked ∙ e) none_planned ∙ to_group
        | inr (made, m, of_group, _) ↦
            let both : some made ≡ some key = sym m ∙ sym asked ∙ e in
            let is_made : made ≡ key = cc in ap (λ x. x.group) (sym is_made) ∙ of_group ∙ to_group
      ]

  -- The octets of a request hold a public key: it stands in the AuthPack that the client signed.
  pub record Carries (identity : PkinitIdentity H) (spki req : Bytes) : Type 0 where
    pub element : Bytes
    pub of_key : synta.element_from_der spki ≡ ok element
    pub auth_pack : AuthPack
    pub public_value : auth_pack.client_public_value ≡ some element
    pub auth_pack_der : Bytes
    pub encoded : synta.auth_pack_to_der auth_pack ≡ ok auth_pack_der
    pub signed : Bytes
    pub signs : sign_auth_pack synta cms identity auth_pack_der ≡ ok signed
    pub sent :
        synta.pa_pk_as_req_to_der
          (record { signed_auth_pack = signed; trusted_certifiers = none; kdc_pk_id = none })
        ≡ ok req

  -- What the rest of `build_as_req` leaves alone.
  pub record SameKeys (c d : PkinitClientState H) : Type 0 where
    pub dh_key : d.dh_key ≡ c.dh_key
    pub kem_key : d.kem_key ≡ c.kem_key
    pub identity : d.identity ≡ c.identity
    pub config : d.config ≡ c.config

  SameKeys-refl : (c : PkinitClientState H) → SameKeys c c
  SameKeys-refl c = record { dh_key = refl; kem_key = refl; identity = refl; config = refl }

  SameKeys-trans : (c d e : PkinitClientState H) → SameKeys c d → SameKeys d e → SameKeys c e
  SameKeys-trans c d e p q = record {
    dh_key = q.dh_key ∙ p.dh_key;
    kem_key = q.kem_key ∙ p.kem_key;
    identity = q.identity ∙ p.identity;
    config = q.config ∙ p.config;
  }

  SameKeys-by :
      (c d : PkinitClientState H)
      → d.dh_key ≡ c.dh_key
      → d.kem_key ≡ c.kem_key
      → d.identity ≡ c.identity
      → d.config ≡ c.config
      → SameKeys c d
  SameKeys-by c d p q r s = record { dh_key = p; kem_key = q; identity = r; config = s }

  ruleset key_rules = (
    Moves-lift, Moves-pure, Moves-gets, Moves->>=, Moves-modify, SameKeys-refl, SameKeys-trans,
    SameKeys-by, refl,
  )

  SameKeys-request_dh_nonce :
      (draw : ℕ) (use_kem : Bool) → Moves SameKeys (request_dh_nonce synta crypto cms draw use_kem)
  unfolding request_dh_nonce
  SameKeys-request_dh_nonce draw true = search key_rules
  SameKeys-request_dh_nonce draw false = search key_rules

  pub SameKeys-finish_as_req :
      (draw : ℕ) (use_kem : Bool) (pk_auth : PkAuthenticator) (spki : Bytes)
      → Moves SameKeys (finish_as_req synta crypto cms draw use_kem pk_auth spki)
  unfolding finish_as_req
  SameKeys-finish_as_req draw use_kem pk_auth spki =
      search (key_rules, SameKeys-request_dh_nonce) depth 12

  signed_part :
      (t : PkinitClientState H) (der req : Bytes)
      → ((gets (λ (x : PkinitClientState H). x.identity) >>= λ i.
            lift (sign_auth_pack synta cms i der) >>= λ signed. lift (
              map_err
                (synta.pa_pk_as_req_to_der (record {
                  signed_auth_pack = signed;
                  trusted_certifiers = none;
                  kdc_pk_id = none;
                }))
                (asn1_err "encode PA-PK-AS-REQ")))
          t).0
        ≡ ok req
      → (signed : Bytes) × (sign_auth_pack synta cms t.identity der ≡ ok signed)
        × (map_err
              (synta.pa_pk_as_req_to_der
                (record { signed_auth_pack = signed; trusted_certifiers = none; kdc_pk_id = none }))
              (asn1_err "encode PA-PK-AS-REQ")
            ≡ ok req)
  unfolding ◌>>=◌
  signed_part t der req h = lifted-ok (sign_auth_pack synta cms t.identity der) _ t h

  pub finish_as_req-Carries :
      (draw : ℕ) (use_kem : Bool) (pk_auth : PkAuthenticator) (spki req : Bytes)
      (c : PkinitClientState H)
      → (finish_as_req synta crypto cms draw use_kem pk_auth spki c).0 ≡ ok req
      → Carries c.identity spki req
  unfolding finish_as_req
  finish_as_req-Carries draw use_kem pk_auth spki req c h =
      let (element, e, h0) =
        lifted-ok (map_err (synta.element_from_der spki) (asn1_err "decode SPKI element")) _ c h in
      let t = (request_dh_nonce synta crypto cms draw use_kem c).1 in
      let (nonce, n, h1) = run-ok (request_dh_nonce synta crypto cms draw use_kem) _ c h0 in
      let (kdfs, k, h2) = lifted-ok (request_kdfs synta use_kem) _ t h1 in
      let auth_pack : AuthPack = record {
        pk_authenticator = pk_auth;
        client_public_value = some element;
        supported_cmstypes = none;
        client_dhnonce = nonce;
        supported_kdfs = some kdfs;
      } in
      let (der, d, h3) =
        lifted-ok (map_err (synta.auth_pack_to_der auth_pack) (asn1_err "encode AuthPack")) _ t
          h2 in
      let (signed, s, h4) = signed_part t der req h3 in
      record {
        element = element;
        of_key = map_err-eq-ok _ _ e;
        auth_pack = auth_pack;
        public_value = refl;
        auth_pack_der = der;
        encoded = map_err-eq-ok _ _ d;
        signed = signed;
        signs =
            subst (λ i. sign_auth_pack synta cms i der ≡ ok signed)
              ((SameKeys-request_dh_nonce draw use_kem).at c).identity s;
        sent = map_err-eq-ok _ _ h4;
      }

  -- A request uses a key exchange: it records it, and carries the public key of a private key of that
  -- exchange, which the client holds to read the reply.
  pub record IsSent (o : Offered) (req : Bytes) (d : PkinitClientState H) : Type 0 where
    pub recorded : d.key_exchange ≡ some o
    pub spki : Bytes
    pub held : HoldsKey o d spki
    pub carried : Carries d.identity spki req

  pub HoldsKey-SameKeys :
      (o : Offered) (c d : PkinitClientState H) (spki : Bytes)
      → SameKeys c d
      → HoldsKey o c spki
      → HoldsKey o d spki
  HoldsKey-SameKeys (kem alg) c d spki same (key, k, a, s) = (key, same.kem_key ∙ k, a, s)
  HoldsKey-SameKeys (dh group) c d spki same (key, k, g, s) = (key, same.dh_key ∙ k, g, s)

  pub KeyFits-SameKeys : (c d : PkinitClientState H) → SameKeys c d → KeyFits c → KeyFits d
  KeyFits-SameKeys c d same fits key e n =
      fits key (sym same.dh_key ∙ e) (ap (λ f. f.kem_algorithm) (sym same.config) ∙ n)
      ∙ ap (λ f. f.dh_group) (sym same.config)
