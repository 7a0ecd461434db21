-- ===== src/Dh/Groups.antt =====
-- pkinit-core/src/crypto/dh.rs: an advertised group is recognised by the peer, and the minimum key
-- size is enforced.
use kurbu5_pkinit.Common.{
  ==_refl, Bytes, Oid, Option, arith, false, if◌then◌else◌, leb, list_beq, list_beq_iff, list_eq,
  nat_eq, none, ok, option_eq, refl, some, true, try-eq-ok, ℕ, ◌||◌, ◌≡◌, ◌≢◌,
}
use kurbu5_pkinit.Constants.{
  DhGroup, ec_p256, ec_p384, ec_p521, group_eq, is_ec, kem_eq, min_bits, oakley2048, oakley4096,
}
use kurbu5_pkinit.Synta.{Synta}
use kurbu5_pkinit.Dh.{
  curve_group, curve_oid, dh_identifier, ec_identifier, group_algorithm_oid_and_params,
  group_from_algorithm_identifier, oakley_group,
}
use kurbu5_pkinit.Dh.Oakley.{oakley_2048_der, oakley_4096_der}

-- What the registered OIDs and the DER codec satisfy: DH and EC keys and the three curves have
-- different OIDs, and an OID, or the element of a DH group, is read back as written.
pub record ReadsGroups (synta : Synta) : Type 0 where
  pub ec_ne_dh : synta.oids.dhpublicnumber ≢ synta.oids.id_ec_public_key
  pub p384_ne_p256 : synta.oids.secp384r1 ≢ synta.oids.secp256r1
  pub p521_ne_p256 : synta.oids.secp521r1 ≢ synta.oids.secp256r1
  pub p521_ne_p384 : synta.oids.secp521r1 ≢ synta.oids.secp384r1
  pub object_identifier_self : (o p : Oid) → synta.object_identifier o ≡ ok p → p ≡ o
  pub oid_from_to : (o : Oid) (b : Bytes) → synta.oid_to_der o ≡ ok b → synta.oid_from_der b ≡ ok o
  pub element_self : (b c : Bytes) → synta.element_from_der b ≡ ok c → c ≡ b

oakley_ne : list_beq oakley_4096_der oakley_2048_der ≡ false
unfolding oakley_4096_der oakley_2048_der list_beq
oakley_ne = refl

module _ (synta : Synta) (reads : ReadsGroups synta) where
  open reads use {ec_ne_dh, p384_ne_p256, p521_ne_p256, p521_ne_p384}

  -- What the two branches of `group_algorithm_oid_and_params` return.
  ec-params :
      (c o : Oid) (params : Option Bytes)
      → ec_identifier synta c ≡ ok (o, params)
      → (b : Bytes) × (o ≡ synta.oids.id_ec_public_key)
        × (params ≡ some b)
        × (synta.oid_from_der b ≡ ok c)
  unfolding ec_identifier
  ec-params c o params h =
      let (p, hp, h') = try-eq-ok (synta.object_identifier c) _ _ h in
      let (b, hb, h'') = try-eq-ok (synta.oid_to_der p) _ _ h' in
      (b, cc, cc, reads.oid_from_to c b (rw (reads.object_identifier_self c p hp) at hb))

  dh-params :
      (d : Bytes) (o : Oid) (params : Option Bytes)
      → dh_identifier synta (some d) ≡ ok (o, params)
      → (o ≡ synta.oids.dhpublicnumber) × (params ≡ some d)
  unfolding dh_identifier
  dh-params d o params h =
      let (b, hb, h') = try-eq-ok (synta.element_from_der d) _ _ h in
      (cc, cc (reads.element_self d b hb))

  curve_group-curve_oid :
      (g : DhGroup) (c : Oid) → curve_oid synta.oids g ≡ some c → curve_group synta.oids c ≡ some g
  unfolding curve_oid curve_group
  curve_group-curve_oid g c h = ground (
    arith,
    ==_refl synta.oids.secp256r1,
    ==_refl synta.oids.secp384r1,
    ==_refl synta.oids.secp521r1,
    list_beq_iff synta.oids.secp384r1 synta.oids.secp256r1,
    list_beq_iff synta.oids.secp521r1 synta.oids.secp256r1,
    list_beq_iff synta.oids.secp521r1 synta.oids.secp384r1,
  )

  of_curve :
      (g : DhGroup) (c o : Oid) (params : Option Bytes) (min : ℕ)
      → ec_identifier synta c ≡ ok (o, params)
      → curve_oid synta.oids g ≡ some c
      → is_ec g ≡ true
      → group_from_algorithm_identifier synta o params min
        ≡ (if is_ec g || leb min (min_bits g) then some g else none)
  unfolding group_from_algorithm_identifier
  of_curve g c o params min h e ec =
      let (b, eo, ep, eb) = ec-params c o params h in
      rw (eo, ep, ==_refl synta.oids.id_ec_public_key, eb, ec) (curve_group-curve_oid g c e)

  of_params :
      (g : DhGroup) (d o : Oid) (params : Option Bytes) (min : ℕ)
      → dh_identifier synta (some d) ≡ ok (o, params)
      → oakley_group d min ≡ (if leb min (min_bits g) then some g else none)
      → group_from_algorithm_identifier synta o params min
        ≡ (if leb min (min_bits g) then some g else none)
  unfolding group_from_algorithm_identifier
  of_params g d o params min h e =
      let (eo, ep) = dh-params d o params h in
      rw (eo, ep)
        (ground (
          arith,
          ==_refl synta.oids.dhpublicnumber,
          list_beq_iff synta.oids.dhpublicnumber synta.oids.id_ec_public_key,
        ))

  -- A peer recognises every group that the other side advertises; of the classic groups only those
  -- of at least `min` bits.
  pub group_from_algorithm_identifier-of_group :
      (g : DhGroup) (o : Oid) (params : Option Bytes) (min : ℕ)
      → group_algorithm_oid_and_params synta g ≡ ok (o, params)
      → group_from_algorithm_identifier synta o params min
        ≡ (if is_ec g || leb min (min_bits g) then some g else none)
  unfolding group_algorithm_oid_and_params is_ec oakley_group min_bits
  group_from_algorithm_identifier-of_group ec_p256 o params min h =
      of_curve ec_p256 _ o params min h refl refl
  group_from_algorithm_identifier-of_group ec_p384 o params min h =
      of_curve ec_p384 _ o params min h refl refl
  group_from_algorithm_identifier-of_group ec_p521 o params min h =
      of_curve ec_p521 _ o params min h refl refl
  group_from_algorithm_identifier-of_group oakley2048 o params min h =
      of_params oakley2048 oakley_2048_der o params min h (rw (==_refl oakley_2048_der))
  group_from_algorithm_identifier-of_group oakley4096 o params min h =
      of_params oakley4096 oakley_4096_der o params min h (rw (oakley_ne, ==_refl oakley_4096_der))
