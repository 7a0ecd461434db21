-- ===== src/Broker/Pins.antt =====
-- pkinit-trust-brokerd/src/store.rs and pkinit-trust-proto/src/lib.rs: pins, grants and replies. The
-- HashMap of pins is an association list. What a write to disk would hold is a value.
use Prim.Native.Nat.{min}
use kurbu5_pkinit.Common.{
  ==_iff, ==_refl, Bool, Bool-cases, List, Option, String, Text, [], arith, false, filter,
  filter_map, if◌then◌else◌, inl, inr, leb, list_eq, nat_eq, none, not, option_eq, refl, some, ℕ,
  ◌+◌, ◌-◌, ◌==◌, ◌^◌, ◌∷◌, ◌≡◌, ◌≢◌,
}

-- pkinit-trust-proto/src/lib.rs
pub data Decision : Type 0 where
  trusted denied unknown : Decision

pub record TrustReply : Type 0 where
  pub decision : Decision
  pub anchors : List Text
  pub reason : Option String

pub record TrustedRealm : Type 0 where
  pub realm : Text
  pub ca_der : Text
  pub fingerprint : Text
  pub expires_at : Option ℕ

-- store.rs
pub record Pin : Type 0 where
  pub ca_b64 : Text
  pub fingerprint : Text
  pub expires_at : Option ℕ

abbrev pub Pins : Type 0
Pins = List (Text × Pin)

pub record PinStore : Type 0 where
  pub path : Option Text
  pub pins : Pins

pub data GrantTtl : Type 0 where
  forever : GrantTtl
  for_secs : ℕ → GrantTtl

-- `u64::saturating_add`
unfoldable pub saturating_add : ℕ → ℕ → ℕ
saturating_add a b = min (a + b) (2 ^ 64 - 1)

unfoldable pub expires_at_epoch_secs : GrantTtl → ℕ → Option ℕ
unfolding saturating_add
expires_at_epoch_secs forever now = none
expires_at_epoch_secs (for_secs d) now = some (saturating_add now d)

-- `expires_at.is_some_and(|exp| now >= exp)`
unfoldable pub is_expired : ℕ → Pin → Bool
is_expired now pin = elim pin.expires_at [ none ↦ false | some e ↦ leb e now ]

unfoldable pub get_pin : Pins → Text → Option Pin
get_pin [] realm = none
get_pin ((r, p) ∷ rest) realm =
    let later = get_pin rest realm in if r == realm then some p else later

unfoldable pub remove_pin : Pins → Text → Pins
remove_pin pins realm = filter (λ e. not (e.0 == realm)) pins

unfoldable pub insert_pin : Pins → Text → Pin → Pins
unfolding remove_pin
insert_pin pins realm pin = (realm, pin) ∷ remove_pin pins realm

pub record TrustRequest : Type 0 where
  pub realm : Text
  pub kdc_principal : Text
  pub ca_subject : Text
  pub fingerprint : Text
  pub client_pid : Option ℕ

pub record Prompter : Type 0 where
  pub confirm : TrustRequest → Option GrantTtl

-- `AutoPrompter`
unfoldable pub auto_prompter : Bool → Prompter
auto_prompter approve = record { confirm = λ _. if approve then some forever else none }

-- `trusted_realms`: the realms with a live pin.
unfoldable pub trusted_realms : ℕ → PinStore → List TrustedRealm
unfolding is_expired
trusted_realms now s =
    filter_map
      (λ (realm, pin).
        if is_expired now pin
        then none
        else some (record {
          realm = realm;
          ca_der = pin.ca_b64;
          fingerprint = pin.fingerprint;
          expires_at = pin.expires_at;
        }))
      s.pins

-- `persist`: the file that is written, if there is one.
unfoldable pub persist : PinStore → Option (Text × Pins)
persist s = elim s.path [ none ↦ none | some path ↦ some (path, s.pins) ]

-- Lookup after removal and insertion.
pub get_pin-remove_pin-other :
    (pins : Pins) (realm other : Text)
    → other ≢ realm
    → get_pin (remove_pin pins realm) other ≡ get_pin pins other
unfolding get_pin remove_pin filter
get_pin-remove_pin-other [] realm other n = refl
get_pin-remove_pin-other ((r, p) ∷ rest) realm other n =
    let ih = get_pin-remove_pin-other rest realm other n in
    elim (Bool-cases (r == realm)) [
      | inl e ↦
          let q : (r == other) ≡ false = ground (arith, ==_iff r realm, ==_iff r other) in
          rw (e, q) ih
      | inr e ↦ rw e (ground (arith, ih))
    ]

pub get_pin-remove_pin-same :
    (pins : Pins) (realm : Text) → get_pin (remove_pin pins realm) realm ≡ none
unfolding get_pin remove_pin filter
get_pin-remove_pin-same [] realm = refl
get_pin-remove_pin-same ((r, p) ∷ rest) realm =
    let ih = get_pin-remove_pin-same rest realm in
    elim (Bool-cases (r == realm)) [ inl e ↦ rw e ih | inr e ↦ rw (e, e) ih ]

pub get_pin-insert_pin-same :
    (pins : Pins) (realm : Text) (pin : Pin) → get_pin (insert_pin pins realm pin) realm ≡ some pin
unfolding get_pin insert_pin
get_pin-insert_pin-same pins realm pin = rw (==_refl realm) refl

pub get_pin-insert_pin-other :
    (pins : Pins) (realm other : Text) (pin : Pin)
    → other ≢ realm
    → get_pin (insert_pin pins realm pin) other ≡ get_pin pins other
unfolding get_pin insert_pin
get_pin-insert_pin-other pins realm other pin n =
    let q : (realm == other) ≡ false = ground (arith, ==_iff realm other) in
    rw q (get_pin-remove_pin-other pins realm other n)
