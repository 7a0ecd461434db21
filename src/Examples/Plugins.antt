-- ===== src/Examples/Plugins.antt =====
-- The plugins and their configuration at concrete inputs.
use kurbu5_pkinit.Common.{
  Bool-cases, Bytes, Option, Result, [], arith, err, false, if◌then◌else◌, inl, inr, list_eq,
  nat_eq, none, ok, option_eq, refl, some, true, ◌&&◌, ◌++◌, ◌-◌, ◌<◌, ◌==◌, ◌^◌, ◌∷◌, ◌≡◌, ◌≤◌,
  ◌⊎◌,
}
use kurbu5_pkinit.Common.Int.{negsuc, pos, ℤ, ℤ_beq_iff, ℤ_eq}
use kurbu5_pkinit.Common.Strings.{codes}
use kurbu5_pkinit.Error.{Fault, clock_skew, kem_error_class}
use kurbu5_pkinit.Synta.{Synta, other_name}
use kurbu5_pkinit.Constants.{
  group_eq, kem_eq, min_bits, ml_kem1024, ml_kem768, ml_kem768_x25519, oakley4096,
}
use kurbu5_pkinit.Config.{
  PkinitClientConfig, PkinitKdcConfig, default_client_config, default_kdc_config,
}
use kurbu5_pkinit.Server.Verify.{verify_as_req}
use kurbu5_pkinit.Server.Admits.{IsAdmitted}
use kurbu5_pkinit.Server.Advertised.{IsSplit}
use kurbu5_pkinit.Profile.{
  Profile, dh_group_from_min_bits, found_string, found_values, read_client_config, read_kdc_config,
}
use kurbu5_pkinit.Profile.Absent.{IsSilent, read_client_config-absent}
use kurbu5_pkinit.Profile.Kems.{read_client_config-bounds, read_kdc_config-IsSplit}
use kurbu5_pkinit.Plugin.{Krb5, PaData, is_anonymous, pa_pkinit_kx}
use kurbu5_pkinit.Plugin.Kdc.{KdcpreauthCallbacks, PkinitKdc, ok_with_modreq, verify}
use kurbu5_pkinit.Plugin.Authorized.{IsBound, verify-IsBound}
use kurbu5_pkinit.Plugin.Session.{
  KeyExchangeLibrary, Keyblock, ReplyKeys, ReturnPadataRequest, keys_of, return_pkinit_kx,
}
use kurbu5_pkinit.Plugin.Contribution.{Opener, Opens, contribution_in, return_pkinit_kx-contributes}
use kurbu5_pkinit.Examples.Toy.{failure, oid, strict_config, toy_cms, toy_crypto, toy_synta}
use kurbu5_pkinit.Examples.Servers.{toy_kdc, toy_verified}

abbrev silent_profile : Profile
silent_profile = record {
  get_string_opt = λ s n b. ok none;
  get_values = λ ns. ok [];
  get_boolean = λ s n b v. ok v;
  get_integer = λ s n b v. ok v;
}

silent_profile-IsSilent : IsSilent silent_profile
unfolding found_string found_values
silent_profile-IsSilent = record {
  no_string = λ s n b. refl;
  no_values = λ ns. refl;
  default_boolean = λ s n b v. refl;
  default_integer = λ s n b v. refl;
}

read_client_config-absent_example :
    read_client_config silent_profile (some (codes "R")) strict_config
    ≡ (record strict_config { dh_group = dh_group_from_min_bits strict_config.dh_min_bits }, ok tt)
read_client_config-absent_example =
    read_client_config-absent silent_profile (some (codes "R")) strict_config
      silent_profile-IsSilent (omega arith) (omega arith)

-- A profile that names KEMs, a minimal size and a negative timeout.
abbrev kem_profile : Profile
kem_profile = record silent_profile {
  get_string_opt = λ s n b.
      if s == codes "realms" && b == some (codes "pkinit_pqc_min_algorithm")
      then ok (some (codes "ML-KEM-768"))
      else ok none;
  get_values = λ ns.
      if ns == (codes "kdcdefaults" ∷ codes "pkinit_pqc_composite_algorithms" ∷ [])
      then ok (codes "mlkem768-x25519" ∷ [])
      else ok [];
  get_integer = λ s n b v. if b == none then ok v else ok (negsuc 0);
}

abbrev kem_settings : PkinitKdcConfig
kem_settings = record default_kdc_config {
  dh_min_bits = 2 ^ 32 - 1;
  supported_kem_algorithms = ml_kem768 ∷ ml_kem1024 ∷ [];
  supported_composite_kem_algorithms = ml_kem768_x25519 ∷ [];
}

kdc_config_read : read_kdc_config kem_profile (codes "R") ≡ ok kem_settings
unfolding read_kdc_config kurbu5_pkinit.Profile.supported_kems kurbu5_pkinit.Profile.string
    kurbu5_pkinit.Common.list_beq kurbu5_pkinit.Common.option_beq
    kurbu5_pkinit.Profile.parse_kem_algorithm kurbu5_pkinit.Constants.from_name
    kurbu5_pkinit.Profile.supported_composites kurbu5_pkinit.Profile.values
    kurbu5_pkinit.Profile.parse_composite_kem_algorithms kurbu5_pkinit.Common.collect
    kurbu5_pkinit.Constants.is_composite kurbu5_pkinit.Profile.eku_checking
    kurbu5_pkinit.Profile.boolean kurbu5_pkinit.Profile.as_u32
    kurbu5_pkinit.Constants.algorithms_at_or_above kurbu5_pkinit.Profile.integer
    kurbu5_pkinit.Common.filter kurbu5_pkinit.Constants.strength_order
kdc_config_read = refl

read_kdc_config-IsSplit_example : IsSplit kem_settings
read_kdc_config-IsSplit_example =
    read_kdc_config-IsSplit kem_profile (codes "R") kem_settings kdc_config_read

abbrev timed_profile : Profile
timed_profile = record silent_profile {
  get_integer = λ s n b v. if n == codes "pkinit_dh_min_bits" then ok (pos 3000) else ok (negsuc 4);
}

abbrev timed_settings : PkinitClientConfig
timed_settings = record default_client_config {
  dh_min_bits = 3000;
  dh_group = oakley4096;
  kdc_trust_timeout = 0;
}

client_config_read :
    read_client_config timed_profile none default_client_config ≡ (timed_settings, ok tt)
unfolding read_client_config kurbu5_pkinit.Profile.string kurbu5_pkinit.Profile.read_after_kem
    kurbu5_pkinit.Profile.read_before_kem dh_group_from_min_bits kurbu5_pkinit.Profile.boolean
    kurbu5_pkinit.Profile.clamp_seconds kurbu5_pkinit.Profile.eku_checking
    kurbu5_pkinit.Profile.as_u32 kurbu5_pkinit.Profile.values kurbu5_pkinit.Profile.integer
    kurbu5_pkinit.Common.list_beq
client_config_read = refl

read_client_config-bounds_example :
    (timed_settings.kdc_trust_timeout < 2 ^ 31)
    × (timed_settings.dh_min_bits ≤ min_bits timed_settings.dh_group)
read_client_config-bounds_example =
    read_client_config-bounds timed_profile none default_client_config timed_settings
      client_config_read (omega arith)

-- A certificate that names one principal, and the request of that principal.
abbrev named_synta : Synta
named_synta = record toy_synta {
  find_subject_alt_name = λ b. some b;
  general_names_from_der =
      λ b. ok (other_name (record { type_id = oid 1; utf8 = none; value = [] }) ∷ []);
  other_name_to_der = λ n. ok [];
  decode_krb5_san = λ b. some (codes "alice@R");
}

abbrev toy_krb5 : Krb5
toy_krb5 = record {
  einval = pos 22;
  preauth_failed = negsuc 24;
  no_acceptable_kdf = negsuc 100;
  invalid_sig = negsuc 64;
  client_not_trusted = negsuc 62;
  inconsistent_key_purpose = negsuc 77;
  client_name_mismatch = negsuc 75;
  unparse_principal = λ p. ok (codes "alice@R");
}

abbrev alice_request : KdcpreauthCallbacks
alice_request = record {
  max_time_skew = pos 300;
  client_name_principal = some (record { components = codes "alice" ∷ [] });
  client_name_string = some (codes "alice@R");
  fast_armor = none;
}

abbrev toy_plugin : PkinitKdc Bytes
toy_plugin = record {
  state = toy_kdc;
  config = record default_kdc_config { auth_indicators = codes "pkinit" ∷ [] };
}

alice_accepted :
    verify toy_krb5 named_synta toy_crypto toy_cms 0 toy_plugin
      (2 ∷ 50 ∷ [])
      alice_request
      (pos 1100)
    ≡ (ok_with_modreq toy_verified, codes "pkinit" ∷ [])
unfolding verify verify_as_req kurbu5_pkinit.Server.Verify.open_auth_pack
    kurbu5_pkinit.Server.Verify.unsigned_content kurbu5_pkinit.Server.Verify.open_signed
    kurbu5_pkinit.Examples.Toy.toy_verify kurbu5_pkinit.Server.Verify.check_auth_data
    kurbu5_pkinit.Common.list_beq kurbu5_pkinit.Identity.Store.validate_chain
    kurbu5_pkinit.Common.collect kurbu5_pkinit.Server.Verify.check_client_eku
    kurbu5_pkinit.Certauth.verify_client_eku kurbu5_pkinit.San.extract_eku_oids
    kurbu5_pkinit.Common.any kurbu5_pkinit.San.extract_key_usage
    kurbu5_pkinit.Certauth.lacks_digital_signature kurbu5_pkinit.Server.Verify.verify_auth_pack
    kurbu5_pkinit.Server.Verify.check_times kurbu5_pkinit.Certauth.verify_client_san
    kurbu5_pkinit.Checksum.generate_checksums kurbu5_pkinit.Checksum.verify_checksum2
    kurbu5_pkinit.Checksum.verify_checksums kurbu5_pkinit.Checksum.verify_pa_checksum
    kurbu5_pkinit.Common.contains kurbu5_pkinit.Common.filter_map kurbu5_pkinit.Constants.from_oid
    kurbu5_pkinit.Constants.is_composite kurbu5_pkinit.Constants.kem_beq
    kurbu5_pkinit.Constants.eq_ignore_ascii_case kurbu5_pkinit.Constants.lower
    kurbu5_pkinit.Constants.parameter_set_name kurbu5_pkinit.Constants.to_ascii_lowercase
    kurbu5_pkinit.Dh.Oakley.oakley_2048_prime kurbu5_pkinit.Dh.Oakley.oakley_4096_prime
    kurbu5_pkinit.Dh.explicit_group kurbu5_pkinit.Dh.identify_oakley_group
    kurbu5_pkinit.Dh.named_group kurbu5_pkinit.Dh.validate_dh_params kem_error_class
    kurbu5_pkinit.KemTypes.as_i32 kurbu5_pkinit.KemTypes.decode_nonce
    kurbu5_pkinit.KemTypes.nonce_of_i64 kurbu5_pkinit.Plugin.Kdc.authorize_client
    kurbu5_pkinit.Plugin.Kdc.authorize_signed kurbu5_pkinit.Plugin.Kdc.class_response
    kurbu5_pkinit.Plugin.Kdc.error_response kurbu5_pkinit.Plugin.is_anonymous
    kurbu5_pkinit.San.decode_san kurbu5_pkinit.San.extract_pkinit_sans
    kurbu5_pkinit.San.extract_upn_sans kurbu5_pkinit.San.key_usage_bits
    kurbu5_pkinit.San.pkinit_principals kurbu5_pkinit.San.subject_alt_names kurbu5_pkinit.San.upn_of
    kurbu5_pkinit.Server.State.accepts_kem kurbu5_pkinit.Server.Verify.check_body
    kurbu5_pkinit.Server.Verify.choose_exchange kurbu5_pkinit.Server.Verify.detect_spki_algorithm
    kurbu5_pkinit.Server.Verify.exchange_for
alice_accepted = refl

verify-IsBound_example :
    IsAdmitted named_synta toy_crypto toy_cms 0 toy_kdc
      (2 ∷ 50 ∷ [])
      none
      (pos 300)
      (pos 1100)
      toy_verified
    × IsBound toy_krb5 named_synta false alice_request toy_verified
    × ((toy_verified.is_anonymous ≡ false) ⊎ (codes "pkinit" ∷ [] ≡ []))
verify-IsBound_example =
    verify-IsBound toy_krb5 named_synta toy_crypto toy_cms 0 toy_plugin (2 ∷ 50 ∷ []) alice_request
      (pos 1100) toy_verified (codes "pkinit" ∷ []) alice_accepted

late_refused :
    verify_as_req named_synta toy_crypto toy_cms 0 toy_kdc (2 ∷ 50 ∷ []) none (pos 300) (pos 9000)
    ≡ err (clock_skew (pos 1000) (pos 300))
unfolding verify_as_req kurbu5_pkinit.Server.Verify.open_auth_pack
    kurbu5_pkinit.Server.Verify.unsigned_content kurbu5_pkinit.Server.Verify.open_signed
    kurbu5_pkinit.Examples.Toy.toy_verify kurbu5_pkinit.Server.Verify.check_auth_data
    kurbu5_pkinit.Common.list_beq kurbu5_pkinit.Identity.Store.validate_chain
    kurbu5_pkinit.Common.collect kurbu5_pkinit.Server.Verify.check_client_eku
    kurbu5_pkinit.Certauth.verify_client_eku kurbu5_pkinit.San.extract_eku_oids
    kurbu5_pkinit.Common.any kurbu5_pkinit.San.extract_key_usage
    kurbu5_pkinit.Certauth.lacks_digital_signature kurbu5_pkinit.Server.Verify.verify_auth_pack
    kurbu5_pkinit.Server.Verify.check_times
late_refused = refl

abbrev toy_library : KeyExchangeLibrary
toy_library = record {
  fx_cf2_simple =
      λ a p b q. ok (record { enctype = a.enctype; contents = a.contents ++ b.contents });
  encrypt = λ k usage plain. ok (k.enctype, plain);
  encryption_key_to_der = λ e b. ok b;
  encrypted_data_to_der = λ e b. ok b;
  replace_reply_key = λ k. ok tt;
  enomem = pos 12;
  malloc_succeeds = λ n. true;
}

-- A library whose codecs write the type as one octet, and know no other type than 18.
abbrev type18_library : KeyExchangeLibrary
type18_library = record toy_library {
  encrypt = λ k usage plain. ok (pos 18, plain);
  encryption_key_to_der = λ e b. if e == pos 18 then ok b else err failure;
  encrypted_data_to_der = λ e b. if e == pos 18 then ok b else err failure;
}

abbrev type18_opener : Opener
type18_opener = record {
  decrypt = λ k usage etype cipher. some cipher;
  encryption_key_from_der = λ b. some (pos 18, b);
  encrypted_data_from_der = λ b. some (pos 18, b);
}

type18_read :
    (e : ℤ) (b der : Bytes)
    → (if e == pos 18 then ok b else err failure) ≡ ok der
    → Path (Option (ℤ × Bytes)) (some (pos 18, der)) (some (e, b))
type18_read e b der h = elim (Bool-cases (e == pos 18)) [
  | inl p ↦
      let same : e ≡ pos 18 = (ℤ_beq_iff e (pos 18)).0 p in
      let q : Path (Result Fault Bytes) (ok b) (ok der) = ground arith in cc
  | inr p ↦ absurd (ground arith)
]

type18-Opens : Opens type18_library type18_opener
type18-Opens = record {
  decrypts = λ k usage plain etype cipher h. cc;
  reads_key = type18_read;
  reads_encrypted = type18_read;
}

abbrev anonymous_request : KdcpreauthCallbacks
anonymous_request = record alice_request {
  client_name_principal = some (record { components = codes "WELLKNOWN" ∷ codes "ANONYMOUS" ∷ [] });
}

abbrev reply_key_18 : Keyblock
reply_key_18 = record { enctype = pos 18; contents = 1 ∷ 2 ∷ [] }

abbrev session_18 : Keyblock
session_18 = record { enctype = pos 18; contents = 7 ∷ [] }

abbrev kx_request : ReturnPadataRequest
kx_request = record {
  padata_type = some pa_pkinit_kx;
  encrypting_key = some reply_key_18;
  session = some session_18;
  modreq = none;
  server = none;
  request_packet = [];
}

abbrev kx_sent : PaData
kx_sent = record { pa_type = pa_pkinit_kx; contents = 7 ∷ [] }

abbrev kx_keys : ReplyKeys
kx_keys = record {
  encrypting_key = some reply_key_18;
  session = some (record { enctype = pos 18; contents = 7 ∷ 1 ∷ 2 ∷ [] });
}

kx_returned :
    return_pkinit_kx toy_krb5 type18_library kx_request anonymous_request
    ≡ ok (some kx_sent, kx_keys)
unfolding return_pkinit_kx is_anonymous kurbu5_pkinit.Common.list_beq kurbu5_pkinit.Common.Int.ℤ_beq
kx_returned = refl

return_pkinit_kx-contributes_example :
    ((true ≡ false) × (some kx_sent ≡ none) × (kx_keys ≡ keys_of kx_request))
    ⊎ ((true ≡ true)
        × ((sent : PaData) × (reply_key : Keyblock) × (session : Keyblock)
            × (new_session : Keyblock) × (some kx_sent ≡ some sent)
            × (sent.pa_type ≡ pa_pkinit_kx)
            × (some reply_key_18 ≡ some reply_key)
            × (some session_18 ≡ some session)
            × (contribution_in type18_opener reply_key sent ≡ some session)
            × (type18_library.fx_cf2_simple session (codes "PKINIT") reply_key (codes "KEYEXCHANGE")
                ≡ ok new_session)
            × (kx_keys ≡ record { encrypting_key = some reply_key; session = some new_session })))
unfolding is_anonymous kurbu5_pkinit.Common.list_beq
return_pkinit_kx-contributes_example =
    return_pkinit_kx-contributes toy_krb5 type18_library type18_opener type18-Opens kx_request
      anonymous_request (record { components = codes "WELLKNOWN" ∷ codes "ANONYMOUS" ∷ [] })
      (some kx_sent) kx_keys refl kx_returned
