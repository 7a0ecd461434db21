-- ===== src/Broker/Decide.antt =====
-- pkinit-trust-brokerd/src/store.rs: the decision table. The clock is an argument.
use kurbu5_pkinit.Common.{
  Bool, Bytes, List, Option, Result, String, Text, [], collect, err, false, filter, find,
  if◌then◌else◌, list_eq, ltb, nat_eq, none, not, ok, option_eq, some, true, ℕ, ◌%◌, ◌&&◌, ◌++◌,
  ◌+◌, ◌-◌, ◌/◌, ◌==◌, ◌||◌, ◌∷◌,
}
use kurbu5_pkinit.Error.{Fault}
use kurbu5_pkinit.Constants.{codes, group_eq, kem_eq}
use kurbu5_pkinit.Synta.{Synta}
use kurbu5_pkinit.Crypto.{Crypto, webpki_ca}
use kurbu5_pkinit.Broker.Pins.{
  GrantTtl, Pin, PinStore, Pins, Prompter, TrustReply, TrustRequest, denied, expires_at_epoch_secs,
  get_pin, insert_pin, is_expired, persist, remove_pin, trusted, unknown,
}

-- Base64 and the Unicode classes that the broker uses from other crates.
pub record Texts : Type 0 where
  pub b64_encode : Bytes → Text
  pub b64_decode : Text → Result Fault Bytes
  pub is_control : ℕ → Bool
  pub is_format : ℕ → Bool

unfoldable pub hex_digit : ℕ → ℕ
hex_digit n = if ltb n 10 then b'0' + n else b'a' + (n - 10)

-- `{b:02x}` for every byte
unfoldable pub hex : Bytes → Text
unfolding hex_digit
hex [] = []
hex (b ∷ bs) = hex_digit (b / 16) ∷ hex_digit (b % 16) ∷ hex bs

unfoldable pub reverse_onto : {A : Type 0} → List A → List A → List A
reverse_onto acc [] = acc
reverse_onto acc (x ∷ xs) = reverse_onto (x ∷ acc) xs

unfoldable pub sanitize_for_display : Texts → Text → Text
sanitize_for_display t s = filter (λ c. not (t.is_control c || t.is_format c)) s

abbrev pub deny : String → TrustReply
deny reason = record { decision = denied; anchors = []; reason = some reason }

abbrev pub trust : Text → TrustReply
trust anchor = record { decision = trusted; anchors = anchor ∷ []; reason = none }

-- The answer of a live pin.
unfoldable pub answer_pinned : Pin → Text → TrustReply
answer_pinned existing fp =
    if existing.fingerprint == fp
    then trust existing.ca_b64
    else deny "KDC CA changed for a known realm"

unfoldable pub live_pin : ℕ → PinStore → Text → Option Pin
live_pin now s realm = elim (get_pin s.pins realm) [
  | none ↦ none
  | some pin ↦ if is_expired now pin then none else some pin
]

module _ {H : Type 0} (synta : Synta) (crypto : Crypto H) (texts : Texts) (now : ℕ) where
  unfoldable pub validates_as_anchor : Bytes → Bytes → List Bytes → Bool
  validates_as_anchor anchor signer presented = elim (crypto.trust_store (anchor ∷ [])) [
    | err _ ↦ false
    | ok store ↦ elim (synta.certificate_from_der signer) [
      | err _ ↦ false
      | ok _ ↦
          let intermediates = filter (λ d. not (d == signer || d == anchor)) presented in
          elim (collect synta.certificate_from_der intermediates) [
            | err _ ↦ false
            | ok _ ↦
                elim (crypto.verify_chain store signer intermediates
                  (record { now = now; ca_extension_policy = webpki_ca; crls = none })) [
                    | ok _ ↦ true
                    | err _ ↦ false
                  ]
          ]
    ]
  ]

  unfoldable pub is_candidate : Bytes → List Bytes → Bytes → Bool
  is_candidate signer presented der =
      not (der == signer) && validates_as_anchor der signer presented

  unfoldable pub select_ca : Bytes → List Bytes → Option Bytes
  select_ca signer presented = find (is_candidate signer presented) (reverse_onto [] presented)

  unfoldable pub sha256_hex : Bytes → Option Text
  unfolding hex
  sha256_hex der = elim (crypto.hash_data (codes "sha256") der) [
    | err _ ↦ none
    | ok digest ↦ some (hex digest)
  ]

  unfoldable pub subject_dn : Bytes → Option Text
  subject_dn der = elim (synta.certificate_from_der der) [
    | err _ ↦ none
    | ok cert ↦ some (synta.format_dn cert.subject)
  ]

  -- What the prompter is shown.
  unfoldable pub prompt : Text → Text → Option ℕ → Bytes → Text → TrustRequest
  unfolding subject_dn
  prompt realm kdc_principal client_pid ca fp =
      let realm_display = sanitize_for_display texts realm in
      record {
        realm = realm_display;
        kdc_principal = sanitize_for_display texts kdc_principal;
        ca_subject = sanitize_for_display texts (elim (subject_dn ca) [
          | some dn ↦ dn
          | none ↦ codes "(CA for " ++ realm_display ++ codes ")"
        ]);
        fingerprint = fp;
        client_pid = client_pid;
      }

  -- The end of `decide`, once the prompter has answered, on the store without the old pin.
  unfoldable pub conclude :
      PinStore
      → Text
      → Bytes
      → Text
      → Option GrantTtl
      → TrustReply × PinStore × Option (Text × Pins)
  conclude s realm ca fp none = (deny "user declined", s, none)
  conclude s realm ca fp (some ttl) =
      let pin : Pin = record {
        ca_b64 = texts.b64_encode ca;
        fingerprint = fp;
        expires_at = expires_at_epoch_secs ttl now;
      } in
      let d : PinStore = record { path = s.path; pins = insert_pin s.pins realm pin } in
      (trust (texts.b64_encode ca), d, persist d)

  -- No live pin: the realm is unknown, or its grant has lapsed.
  unfoldable pub decide_unknown :
      PinStore
      → Text
      → Text
      → Option ℕ
      → Bytes
      → Text
      → Bool
      → Prompter
      → TrustReply × PinStore × Option (Text × Pins)
  decide_unknown s realm kdc_principal client_pid ca fp interactive prompter =
      let forgotten : PinStore = record { path = s.path; pins = remove_pin s.pins realm } in
      if not interactive
      then (record { decision = unknown; anchors = []; reason = none }, forgotten, none)
      else conclude forgotten realm ca fp
          (prompter.confirm (prompt realm kdc_principal client_pid ca fp))

  unfoldable pub decide :
      PinStore
      → Text
      → Text
      → Option ℕ
      → Bytes
      → List Bytes
      → Bool
      → Prompter
      → TrustReply × PinStore × Option (Text × Pins)
  decide s realm kdc_principal client_pid signer presented interactive prompter =
      elim (select_ca signer presented) [
        | none ↦ (deny "presented chain contains no valid CA certificate", s, none)
        | some ca ↦ elim (sha256_hex ca) [
          | none ↦ (deny "failed to compute CA fingerprint", s, none)
          | some fp ↦ elim (live_pin now s realm) [
            | some pin ↦ (answer_pinned pin fp, s, none)
            | none ↦ decide_unknown s realm kdc_principal client_pid ca fp interactive prompter
          ]
        ]
      ]
