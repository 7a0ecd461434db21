-- ===== src/Examples/Brokers.antt =====
-- Runs of the broker.
use kurbu5_pkinit.Common.{
  Bytes, Has, Option, Text, [], arith, false, if◌then◌else◌, list_eq, ltb, nat_eq, none, ok,
  option_eq, refl, some, true, ℕ, ◌==◌, ◌↔◌, ◌∷◌, ◌≡◌, ◌≢◌,
}
use kurbu5_pkinit.Common.Int.{ℤ_eq}
use kurbu5_pkinit.Constants.{codes, group_eq, kem_eq}
use kurbu5_pkinit.Client.State.{KdcTrustRequest}
use kurbu5_pkinit.Broker.Pins.{
  Pin, PinStore, Pins, Prompter, TrustReply, auto_prompter, expires_at_epoch_secs, for_secs,
  get_pin, trusted, trusted_realms,
}
use kurbu5_pkinit.Broker.Decide.{Texts, decide, deny, live_pin, select_ca, sha256_hex, trust}
use kurbu5_pkinit.Broker.Safety.{IsJustified, decide-IsJustified}
use kurbu5_pkinit.Broker.Memory.{decide-not_interactive, decide-other_realm}
use kurbu5_pkinit.Broker.Grants.{Holds, decide-granted, trusted_realms-granted}
use kurbu5_pkinit.Broker.Service.{
  decision_of_reply, varlink_request_trust, varlink_request_trust-decide,
}
use kurbu5_pkinit.Examples.Toy.{oid, toy_crypto, toy_synta}

abbrev toy_texts : Texts
toy_texts = record {
  b64_encode = λ b. b;
  b64_decode = λ t. ok t;
  is_control = λ c. ltb c 32;
  is_format = λ c. false;
}

abbrev empty_pins : PinStore
empty_pins = record { path = none; pins = [] }

abbrev hour : Prompter
hour = record { confirm = λ r. some (for_secs 3600) }

-- The signer's certificate is 90, the CA's 80, whose fingerprint is "50".
abbrev approved : TrustReply × PinStore × Option (Text × Pins)
approved =
    decide toy_synta toy_crypto toy_texts 1000 empty_pins (codes "R") (codes "K") none (oid 90)
      (oid 90 ∷ oid 80 ∷ []) true hour

was_trusted : approved.0.decision ≡ trusted
unfolding decide select_ca kurbu5_pkinit.Common.find kurbu5_pkinit.Broker.Decide.reverse_onto
    kurbu5_pkinit.Broker.Decide.is_candidate kurbu5_pkinit.Common.list_beq
    kurbu5_pkinit.Broker.Decide.validates_as_anchor kurbu5_pkinit.Common.collect
    kurbu5_pkinit.Common.filter sha256_hex live_pin get_pin
    kurbu5_pkinit.Broker.Decide.decide_unknown kurbu5_pkinit.Broker.Decide.conclude
was_trusted = refl

abbrev asked_fp : Text
asked_fp = codes "50"

selected :
    (now : ℕ)
    → select_ca toy_synta toy_crypto toy_texts now (oid 90) (oid 90 ∷ oid 80 ∷ []) ≡ some (oid 80)
unfolding select_ca kurbu5_pkinit.Common.find kurbu5_pkinit.Broker.Decide.reverse_onto
    kurbu5_pkinit.Broker.Decide.is_candidate kurbu5_pkinit.Common.list_beq
    kurbu5_pkinit.Broker.Decide.validates_as_anchor kurbu5_pkinit.Common.collect
    kurbu5_pkinit.Common.filter
selected now = refl

hashed : (now : ℕ) → sha256_hex toy_synta toy_crypto toy_texts now (oid 80) ≡ some asked_fp
unfolding sha256_hex kurbu5_pkinit.Common.list_beq
hashed now = refl

no_pin : live_pin 1000 empty_pins (codes "R") ≡ none
unfolding live_pin get_pin
no_pin = refl

decide-IsJustified_example :
    (ca : Bytes) × (fp : Text) × IsJustified toy_synta toy_crypto toy_texts 1000 empty_pins
      (codes "R")
      (codes "K")
      none
      (oid 90)
      (oid 90 ∷ oid 80 ∷ [])
      true
      hour
      ca
      fp
decide-IsJustified_example =
    decide-IsJustified toy_synta toy_crypto toy_texts 1000 empty_pins (codes "R") (codes "K") none
      (oid 90) (oid 90 ∷ oid 80 ∷ []) true hour was_trusted

hour-Holds : Holds (for_secs 3600) 1000 2000
hour-Holds d h = let p : 3600 ≡ d = ground arith in ground arith

abbrev no_one : Prompter
no_one = auto_prompter false

decide-granted_example :
    decide toy_synta toy_crypto toy_texts 2000 approved.1
      (codes "R")
      (codes "K2")
      none
      (oid 90)
      (oid 90 ∷ oid 80 ∷ [])
      false
      no_one
    ≡ (
      (if asked_fp == asked_fp then trust (oid 80) else deny "KDC CA changed for a known realm"),
      approved.1,
      none,
    )
decide-granted_example =
    decide-granted toy_synta toy_crypto toy_texts 1000 empty_pins (codes "R") (codes "K") none
      (oid 90) (oid 90 ∷ oid 80 ∷ []) hour (oid 80) asked_fp (for_secs 3600) (selected 1000)
      (hashed 1000) no_pin refl 2000 hour-Holds (codes "K2") none (oid 90) (oid 90 ∷ oid 80 ∷ [])
      false no_one (oid 80) asked_fp (selected 2000) (hashed 2000)

abbrev toy_pin : Pin
toy_pin = record { ca_b64 = oid 80; fingerprint = asked_fp; expires_at = none }

abbrev one_pin : PinStore
one_pin = record { path = none; pins = (codes "R", toy_pin) ∷ [] }

abbrev asked : TrustReply × PinStore × Option (Text × Pins)
asked =
    decide toy_synta toy_crypto toy_texts 1000 one_pin (codes "Q") (codes "K") none (oid 90)
      (oid 90 ∷ oid 80 ∷ []) false hour

pin_found : get_pin asked.1.pins (codes "R") ≡ some toy_pin
unfolding decide get_pin select_ca kurbu5_pkinit.Common.find
    kurbu5_pkinit.Broker.Decide.reverse_onto kurbu5_pkinit.Broker.Decide.is_candidate
    kurbu5_pkinit.Common.list_beq kurbu5_pkinit.Broker.Decide.validates_as_anchor
    kurbu5_pkinit.Common.collect kurbu5_pkinit.Common.filter sha256_hex live_pin
    kurbu5_pkinit.Broker.Decide.decide_unknown kurbu5_pkinit.Broker.Pins.remove_pin
pin_found = refl

decide-not_interactive_example : get_pin one_pin.pins (codes "R") ≡ some toy_pin
decide-not_interactive_example =
    decide-not_interactive toy_synta toy_crypto toy_texts 1000 one_pin (codes "Q") (codes "K") none
      (oid 90) (oid 90 ∷ oid 80 ∷ []) false hour refl (codes "R") toy_pin pin_found

realms_differ : codes "R" ≢ codes "Q"
realms_differ h = ground arith

decide-other_realm_example : get_pin asked.1.pins (codes "R") ≡ get_pin one_pin.pins (codes "R")
decide-other_realm_example =
    decide-other_realm toy_synta toy_crypto toy_texts 1000 one_pin (codes "Q") (codes "K") none
      (oid 90) (oid 90 ∷ oid 80 ∷ []) false hour (codes "R") realms_differ

trusted_realms-granted_example :
    Has
      (record {
        realm = codes "R";
        ca_der = oid 80;
        fingerprint = asked_fp;
        expires_at = some 4600;
      })
      (trusted_realms 4599 approved.1)
    ↔ Holds (for_secs 3600) 1000 4599
unfolding expires_at_epoch_secs
trusted_realms-granted_example =
    trusted_realms-granted toy_synta toy_crypto toy_texts 1000 empty_pins (codes "R") (codes "K")
      none (oid 90) (oid 90 ∷ oid 80 ∷ []) hour (oid 80) asked_fp (for_secs 3600) (selected 1000)
      (hashed 1000) no_pin refl 4599

abbrev toy_ask : KdcTrustRequest
toy_ask = record {
  realm = codes "R";
  kdc_principal = codes "K";
  signer_cert_der = oid 90;
  presented_certs_der = oid 90 ∷ oid 80 ∷ [];
  interactive = true;
}

varlink_request_trust-decide_example :
    varlink_request_trust toy_synta toy_crypto toy_texts 1000 none hour empty_pins toy_ask
    ≡ (decision_of_reply toy_texts approved.0, approved.1)
varlink_request_trust-decide_example =
    varlink_request_trust-decide toy_synta toy_crypto toy_texts 1000 none hour (λ b. refl)
      empty_pins toy_ask
