-- ===== src/Broker/Grants.antt =====
-- pkinit-trust-brokerd/src/store.rs: an approval holds until its grant lapses, and no longer.
use mathlib.Core.Path.{subst}
use kurbu5_pkinit.Common.{
  Bool, Bool-cases, Bytes, Has, Has-filter_map, List, Option, Text, ap, arith, false,
  filter_map-Has, if◌then◌else◌, inl, inr, list_eq, nat_eq, none, option_eq, refl, some, sym, true,
  ℕ, ◌+◌, ◌-◌, ◌<◌, ◌==◌, ◌^◌, ◌↔◌, ◌∙◌, ◌≡◌,
}
use kurbu5_pkinit.Synta.{Synta}
use kurbu5_pkinit.Crypto.{Crypto}
use kurbu5_pkinit.Broker.Pins.{
  GrantTtl, Pin, PinStore, Pins, Prompter, TrustedRealm, expires_at_epoch_secs, for_secs, forever,
  get_pin, get_pin-insert_pin-same, insert_pin, is_expired, remove_pin, saturating_add,
  trusted_realms,
}
use kurbu5_pkinit.Broker.Decide.{
  Texts, answer_pinned, conclude, decide, decide_unknown, deny, live_pin, prompt, select_ca,
  sha256_hex, trust,
}

-- At the time `later`, a grant given at `now` still holds. A time is a u64.
abbrev pub Holds : GrantTtl → ℕ → ℕ → Type 0
Holds ttl now later = (d : ℕ) → ttl ≡ for_secs d → (later < now + d) × (later < 2 ^ 64 - 1)

is_expired-Holds :
    (ttl : GrantTtl) (now later : ℕ) (pin : Pin)
    → pin.expires_at ≡ expires_at_epoch_secs ttl now
    → Holds ttl now later
    → is_expired later pin ≡ false
unfolding is_expired expires_at_epoch_secs saturating_add
is_expired-Holds forever now later pin e h = ground arith
is_expired-Holds (for_secs d) now later pin e h = let (a, b) = h d refl in ground arith

-- What `trusted_realms` lists of one pin.
abbrev pub listed : Text → Pin → TrustedRealm
listed realm pin = record {
  realm = realm;
  ca_der = pin.ca_b64;
  fingerprint = pin.fingerprint;
  expires_at = pin.expires_at;
}

list_live : (now : ℕ) → Text × Pin → Option TrustedRealm
list_live now (realm, pin) = if is_expired now pin then none else some (listed realm pin)

trusted_realms-Has :
    (now : ℕ) (s : PinStore) (t : TrustedRealm)
    → Has t (trusted_realms now s) ↔ (
        (realm : Text) × (pin : Pin) × Has (realm, pin) s.pins
        × (is_expired now pin ≡ false)
        × (t ≡ listed realm pin))
unfolding trusted_realms list_live
trusted_realms-Has now s t = (
  λ h.
      let ((realm, pin), m, p) = filter_map-Has (list_live now) s.pins t h in
      elim (Bool-cases (is_expired now pin)) [
        | inl e ↦ absurd (ground arith)
        | inr e ↦ (realm, pin, m, e, ground arith)
      ],
  λ (realm, pin, m, e, p). Has-filter_map (list_live now) s.pins (realm, pin) t m (rw (e, p) refl),
)

not_expired-Holds :
    (ttl : GrantTtl) (now later : ℕ) (pin : Pin)
    → pin.expires_at ≡ expires_at_epoch_secs ttl now
    → is_expired later pin ≡ false
    → Holds ttl now later
unfolding is_expired expires_at_epoch_secs saturating_add
not_expired-Holds forever now later pin e h d q = absurd (ground arith)
not_expired-Holds (for_secs c) now later pin e h d q =
    let same : c ≡ d = cc in (ground arith, ground arith)

Has-insert_pin :
    (pins : Pins) (realm : Text) (pin : Pin) → Has (realm, pin) (insert_pin pins realm pin)
unfolding insert_pin
Has-insert_pin pins realm pin = inl refl

module _ {H : Type 0} (synta : Synta) (crypto : Crypto H) (texts : Texts) (now : ℕ) (s : PinStore)
    (realm kdc_principal : Text) (client_pid : Option ℕ) (signer : Bytes) (presented : List Bytes)
    (prompter : Prompter) (ca : Bytes) (fp : Text) (ttl : GrantTtl)
    (e : select_ca synta crypto texts now signer presented ≡ some ca)
    (f : sha256_hex synta crypto texts now ca ≡ some fp) (unpinned : live_pin now s realm ≡ none)
    (approved : prompter.confirm
        (prompt synta crypto texts now realm kdc_principal client_pid ca fp)
      ≡ some ttl) where
  abbrev granted_pin : Pin
  granted_pin = record {
    ca_b64 = texts.b64_encode ca;
    fingerprint = fp;
    expires_at = expires_at_epoch_secs ttl now;
  }

  abbrev granted : PinStore
  granted =
      (decide synta crypto texts now s realm kdc_principal client_pid signer presented true
        prompter).1

  granted-pins : granted.pins ≡ insert_pin (remove_pin s.pins realm) realm granted_pin
  unfolding decide decide_unknown conclude
  granted-pins = ground (arith, e, f, unpinned, approved)

  live_pin-granted :
      (later : ℕ) → Holds ttl now later → live_pin later granted realm ≡ some granted_pin
  unfolding live_pin
  live_pin-granted later h =
      let p : get_pin granted.pins realm ≡ some granted_pin =
        ap (λ pins. get_pin pins realm) granted-pins
        ∙ get_pin-insert_pin-same (remove_pin s.pins realm) realm granted_pin in
      let q = is_expired-Holds ttl now later granted_pin refl h in ground (arith, p, q)

  -- An approved CA is listed among the trusted realms, with its realm, its certificate and its
  -- fingerprint, exactly while its grant holds: a grant for ever always, and one of `d` seconds given
  -- at `now` at every time before `now + d` and before the last second of a u64, and from then on no
  -- longer.
  pub trusted_realms-granted :
      (later : ℕ)
      → Has (listed realm granted_pin) (trusted_realms later granted) ↔ Holds ttl now later
  trusted_realms-granted later = (
    λ h.
        let (r, pin, m, live, same) =
          (trusted_realms-Has later granted (listed realm granted_pin)).0 h in
        not_expired-Holds ttl now later pin (sym (ap (λ t. t.expires_at) same)) live,
    λ h. (trusted_realms-Has later granted (listed realm granted_pin)).1 (
      realm,
      granted_pin,
      subst (Has (realm, granted_pin)) (sym granted-pins)
          (Has-insert_pin (remove_pin s.pins realm) realm granted_pin),
      is_expired-Holds ttl now later granted_pin refl h,
      refl,
    ),
  )

  module _ (later : ℕ) (h : Holds ttl now later) (principal2 : Text) (pid2 : Option ℕ)
      (signer2 : Bytes) (presented2 : List Bytes) (interactive2 : Bool) (prompter2 : Prompter)
      (ca2 : Bytes) (fp2 : Text)
      (e2 : select_ca synta crypto texts later signer2 presented2 ≡ some ca2)
      (f2 : sha256_hex synta crypto texts later ca2 ≡ some fp2) where
    -- While a grant holds, every later request for its realm is decided by the CA's fingerprint alone:
    -- the same one is trusted with the certificate that the user approved, another one is denied,
    -- nobody is asked, and the store stays as it is.
    pub decide-granted :
        decide synta crypto texts later granted realm principal2 pid2 signer2 presented2
          interactive2 prompter2
        ≡ (
          (if fp == fp2
              then trust (texts.b64_encode ca)
              else deny "KDC CA changed for a known realm"),
          granted,
          none,
        )
    unfolding decide answer_pinned
    decide-granted = let p = live_pin-granted later h in ground (arith, p, e2, f2)
