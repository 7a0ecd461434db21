-- ===== src/Examples/Identities.antt =====
-- Identities, and the plugins that load them, at concrete inputs.
use kurbu5_pkinit.Common.{
  Bytes, Result, [], err, false, if◌then◌else◌, list_eq, nat_eq, none, ok, option_eq, refl, some,
  true, ◌==◌, ◌∷◌, ◌≡◌,
}
use kurbu5_pkinit.Common.Int.{negsuc, pos, ℤ_eq}
use kurbu5_pkinit.Common.Strings.{codes}
use kurbu5_pkinit.Identity.{PkinitIdentity}
use kurbu5_pkinit.Identity.Loader.{
  Outside, dir_source, load, load_pkcs12, openssl_decrypt, pkcs11_cert_uri, pkcs12_source,
}
use kurbu5_pkinit.Error.{pkcs12_password_required}
use kurbu5_pkinit.Identity.Store.{new_store}
use kurbu5_pkinit.Client.State.{PkinitClientState}
use kurbu5_pkinit.Config.{PkinitKdcConfig, default_client_config, default_kdc_config}
use kurbu5_pkinit.Constants.{group_eq, kem_eq, ml_kem1024, ml_kem768}
use kurbu5_pkinit.Profile.{Profile}
use kurbu5_pkinit.Plugin.{Krb5, Krb5Error}
use kurbu5_pkinit.Plugin.Kdc.{PkinitKdc}
use kurbu5_pkinit.Plugin.Client.{
  ClientEnv, PkinitClient, finish_pending_pkcs12, init_client, use_identity,
}
use kurbu5_pkinit.Plugin.Fallback.{IsFresh, finish_pending_pkcs12-use_identity}
use kurbu5_pkinit.Examples.Toy.{failure, oid}

cert_uri_derived :
    pkcs11_cert_uri (codes "pkcs11:token=t;type=private;id=1?pin-value=1")
    ≡ codes "pkcs11:token=t;id=1;type=cert?pin-value=1"
unfolding pkcs11_cert_uri kurbu5_pkinit.Common.Strings.split_once kurbu5_pkinit.Common.Strings.join
    kurbu5_pkinit.Common.filter kurbu5_pkinit.Common.Strings.split_on
    kurbu5_pkinit.Common.Strings.starts_with kurbu5_pkinit.Common.Strings.strip_prefix
cert_uri_derived = refl

-- A `type` that stands directly after the scheme is kept, beside the one that is added.
leading_type_kept :
    pkcs11_cert_uri (codes "pkcs11:type=private;token=t")
    ≡ codes "pkcs11:type=private;token=t;type=cert"
unfolding pkcs11_cert_uri kurbu5_pkinit.Common.Strings.split_once kurbu5_pkinit.Common.Strings.join
    kurbu5_pkinit.Common.filter kurbu5_pkinit.Common.Strings.split_on
    kurbu5_pkinit.Common.Strings.starts_with kurbu5_pkinit.Common.Strings.strip_prefix
leading_type_kept = refl

abbrev toy_outside : Outside Bytes
toy_outside = record {
  read_file = λ p. ok p;
  read_dir = λ p. ok (
      ok (record { path = codes "sub"; is_file = false })
      ∷ ok (record { path = codes "id.pem"; is_file = true })
      ∷ []);
  env_var = λ n. err failure;
  read_pki_blocks = λ b. ok (
      (codes "PRIVATE KEY", oid 92)
      ∷ (codes "CERTIFICATE", oid 91)
      ∷ (codes "CERTIFICATE", oid 90)
      ∷ []);
  pki_from_pkcs12 = λ b password. err (openssl_decrypt failure);
  from_pkcs8_der_unchecked = λ b. b;
  from_pkcs11_uri = λ u. err failure;
  load_certs_from_pkcs11_uri = λ u. ok [];
}

dir_loaded :
    load toy_outside (dir_source (codes "/ids"))
    ≡ ok (record { cert_der = oid 91; signing_key = some (oid 92); chain = oid 90 ∷ [] })
unfolding load kurbu5_pkinit.Common.filter kurbu5_pkinit.Common.list_beq kurbu5_pkinit.Common.find
dir_loaded = refl

password_asked : load toy_outside (pkcs12_source (codes "/id.p12")) ≡ err pkcs12_password_required
unfolding load
password_asked = refl

abbrev toy_errors : Krb5
toy_errors = record {
  einval = pos 22;
  preauth_failed = negsuc 24;
  no_acceptable_kdf = negsuc 100;
  invalid_sig = negsuc 64;
  client_not_trusted = negsuc 62;
  inconsistent_key_purpose = negsuc 77;
  client_name_mismatch = negsuc 75;
  unparse_principal = λ p. ok (codes "alice@R");
}

-- A PKCS#12 file that opens with the password `pw` alone.
abbrev locked_outside : Outside Bytes
locked_outside = record toy_outside {
  pki_from_pkcs12 = λ b password.
      if password == codes "pw"
      then ok (record { certs = oid 91 ∷ []; keys = oid 92 ∷ [] })
      else err (openssl_decrypt failure);
}

abbrev p12_identity : PkinitIdentity Bytes
p12_identity = record { cert_der = oid 91; signing_key = some (oid 92); chain = [] }

abbrev toy_env : ClientEnv Bytes
toy_env = record {
  broker_at = λ path timeout. record { request_trust = λ r. err pkcs12_password_required };
  default_socket_path = codes "/run/broker";
  ask_responder_question = λ path. ok tt;
  get_responder_answer = some (codes "pw");
}

p12_locked : load locked_outside (pkcs12_source (codes "/id.p12")) ≡ err pkcs12_password_required
unfolding load kurbu5_pkinit.Common.list_beq
p12_locked = refl

p12_opened : load_pkcs12 locked_outside (codes "/id.p12") (codes "pw") ≡ ok p12_identity
unfolding load_pkcs12 kurbu5_pkinit.Common.list_beq
p12_opened = refl

abbrev asked : Result Krb5Error (Unit {0}) × PkinitClient Bytes
asked =
    use_identity toy_errors locked_outside toy_env init_client (pkcs12_source (codes "/id.p12"))
      new_store (some (codes "krbtgt/R@R"))

-- The same identity as a PEM file.
abbrev ready_outside : Outside Bytes
ready_outside = record toy_outside {
  read_pki_blocks = λ b. ok ((codes "PRIVATE KEY", oid 92) ∷ (codes "CERTIFICATE", oid 91) ∷ []);
}

dir_ready : load ready_outside (dir_source (codes "/ids")) ≡ ok p12_identity
unfolding load kurbu5_pkinit.Common.filter kurbu5_pkinit.Common.list_beq kurbu5_pkinit.Common.find
dir_ready = refl

finish_pending_pkcs12-use_identity_example :
    let finished = finish_pending_pkcs12 toy_errors locked_outside toy_env asked.1 in
    (asked.0 ≡ ok tt)
    × (asked.1.state ≡ none)
    × (finished
        ≡ use_identity toy_errors ready_outside toy_env init_client
            (dir_source (codes "/ids"))
            new_store
            (some (codes "krbtgt/R@R")))
    × (finished.0 ≡ ok tt)
    × (finished.1.pending_pkcs12 ≡ none)
    × ((client : PkinitClientState Bytes) × (finished.1.state ≡ some client)
        × IsFresh toy_errors locked_outside toy_env default_client_config new_store
            (some (codes "krbtgt/R@R"))
            p12_identity
            client)
unfolding init_client
finish_pending_pkcs12-use_identity_example =
    finish_pending_pkcs12-use_identity toy_errors locked_outside toy_env init_client
      (codes "/id.p12") new_store (some (codes "krbtgt/R@R")) (codes "pw") p12_identity
      ready_outside (dir_source (codes "/ids")) p12_locked refl refl p12_opened dir_ready

abbrev password_profile : Profile
password_profile = record {
  get_string_opt = λ s n b. ok none;
  get_values = λ ns. ok [];
  get_boolean = λ s n b v. ok v;
  get_integer = λ s n b v. ok v;
}

-- A KDC whose identity is a directory of PEM files, and which takes KEMs from ML-KEM-768 on.
abbrev started_profile : Profile
started_profile = record password_profile {
  get_string_opt = λ s n b.
      if b == some (codes "pkinit_identity")
      then ok (some (codes "DIR:/ids"))
      else if b == some (codes "pkinit_pqc_min_algorithm")
      then ok (some (codes "ML-KEM-768"))
      else ok none;
}

abbrev started_settings : PkinitKdcConfig
started_settings = record default_kdc_config {
  identity = some (codes "DIR:/ids");
  supported_kem_algorithms = ml_kem768 ∷ ml_kem1024 ∷ [];
}

abbrev started_plugin : PkinitKdc Bytes
started_plugin = record {
  state = record {
    identity = record { cert_der = oid 91; signing_key = some (oid 92); chain = oid 90 ∷ [] };
    trust_store = new_store;
    config = started_settings;
    supported_algorithms_hint = some (48 ∷ 3 ∷ 160 ∷ 1 ∷ 2 ∷ []);
    td_ephemeral_key_params = 2 ∷ [];
  };
  config = started_settings;
}
