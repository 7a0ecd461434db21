-- ===== src/Plugin/Client.antt =====
-- kurbu5-pkinit/src/client_plugin.rs: the client's preauthentication module. Tracing is left out. What
-- libkrb5 passes to a callback is a record; a null pointer is `none`.
use kurbu5_pkinit.Common.{
  Bool, Bytes, List, Option, Result, Text, [], err, false, if◌then◌else◌, none, not, ok, some,
  to_option, true, ℕ, ◌&&◌, ◌||◌, ◌∷◌,
}
use kurbu5_pkinit.Common.Int.{ℤ}
use kurbu5_pkinit.Error.{Fault, pkcs12_password_required}
use kurbu5_pkinit.Config.{PkinitClientConfig, default_client_config}
use kurbu5_pkinit.Identity.{PkinitIdentity}
use kurbu5_pkinit.Identity.Store.{TrustStore, new_store}
use kurbu5_pkinit.Identity.Loader.{
  IdentitySource, Outside, load, load_from_path, load_pkcs12, parse_source, pkcs12_source,
}
use kurbu5_pkinit.Kdf.{DerivedKey}
use kurbu5_pkinit.Client.State.{
  KdcCaTrustBroker, PkinitClientState, new_client, set_is_anonymous, set_kdc_identity,
  set_trust_broker,
}
use kurbu5_pkinit.Client.Negotiate.{is_some}
use kurbu5_pkinit.Profile.{Profile, or_current, read_client_config}
use kurbu5_pkinit.Plugin.{Krb5, Krb5Error, PrincipalRef, custom, is_anonymous}

pub record PendingPkcs12 : Type 0 where
  pub path : Text
  pub trust_store : TrustStore
  pub server_principal : Option Text

pub record PkinitClient (H : Type 0) : Type 0 where
  pub state : Option (PkinitClientState H)
  pub config : PkinitClientConfig
  pub pending_pkcs12 : Option PendingPkcs12

-- Where a callback ends: what it returns, and the module's state.
abbrev pub Step : Type 0 → Type 0 → Type 0
Step H A = Result Krb5Error A × PkinitClient H

unfoldable pub init_client : {H : Type 0} → PkinitClient H
init_client = record { state = none; config = default_client_config; pending_pkcs12 = none }

-- The broker's client and its default socket, and the question to the responder.
pub record ClientEnv (H : Type 0) : Type 0 where
  pub broker_at : Text → ℕ → KdcCaTrustBroker
  pub default_socket_path : Text
  pub ask_responder_question : Text → Result Fault (Unit {0})
  pub get_responder_answer : Option Bytes

pub record Request : Type 0 where
  pub client : Option PrincipalRef
  pub server : Option PrincipalRef
  pub nonce : ℤ
  pub realm : Option Text
  pub encoded_request_body : Option Bytes
  pub encoded_previous_request : Option Bytes
  pub preauth_time : Result Krb5Error (ℤ × ℤ)
  pub etype : ℤ
  pub set_as_key : DerivedKey → Result Krb5Error (Unit {0})

unfoldable pub build_client :
    {H : Type 0}
    → ClientEnv H
    → PkinitIdentity H
    → TrustStore
    → PkinitClientConfig
    → Option Text
    → Bool
    → PkinitClientState H
build_client env identity trust_store settings server_principal anonymous =
    let fresh = new_client identity trust_store settings in
    let named = elim server_principal as (λ _. PkinitClientState _) [
      | none ↦ fresh
      | some principal ↦ set_kdc_identity fresh principal none
    ] in
    let client = set_is_anonymous named anonymous in
    if settings.kdc_trust_tofu
    then set_trust_broker client (
        env.broker_at (or_current settings.kdc_trust_broker env.default_socket_path)
          settings.kdc_trust_timeout)
    else client

-- `req.client` is the anonymous principal.
unfoldable pub request_is_anonymous : Request → Bool
unfolding is_anonymous
request_is_anonymous req = elim req.client [ none ↦ false | some p ↦ is_anonymous p ]

unfoldable pub has_key : {H : Type 0} → Option (PkinitClientState H) → Bool
has_key none = false
has_key (some s) = is_some s.dh_key || is_some s.kem_key

unfoldable pub load_anchors :
    {H : Type 0} → Outside H → Krb5 → TrustStore → List Text → Result Krb5Error TrustStore
unfolding load_from_path
load_anchors outside krb5 s [] = ok s
load_anchors outside krb5 s (anchor ∷ anchors) =
    let (loaded, s2) = load_from_path outside s anchor in
    let rest = load_anchors outside krb5 s2 anchors in
    elim loaded [ err e ↦ err (custom krb5.einval) | ok _ ↦ rest ]

unfoldable pub server_name : Krb5 → Request → Option Text
server_name krb5 req = elim req.server [
  | none ↦ none
  | some p ↦ to_option (krb5.unparse_principal p)
]

module _ {H : Type 0} (krb5 : Krb5) (outside : Outside H) (env : ClientEnv H) where
  abbrev pub invalid : Krb5Error
  invalid = custom krb5.einval

  -- The match on the result of `PkinitIdentity::load`.
  unfoldable pub use_identity :
      PkinitClient H → IdentitySource → TrustStore → Option Text → Step H (Unit {0})
  unfolding build_client
  use_identity p source trust_store server_principal = elim (load outside source) [
    | ok identity ↦ (
      ok tt,
      record p {
        state = some (build_client env identity trust_store p.config server_principal false);
        pending_pkcs12 = none;
      },
    )
    | err pkcs12_password_required ↦ elim source [
      | pkcs12_source path ↦ elim (env.ask_responder_question path) [
        | err _ ↦ (err invalid, p)
        | ok _ ↦ (
          ok tt,
          record p {
            pending_pkcs12 = some (record {
              path = path;
              trust_store = trust_store;
              server_principal = server_principal;
            });
          },
        )
      ]
      | _ ↦ (err invalid, p)
    ]
    | err _ ↦ (err invalid, p)
  ]

  -- `init_etype_info` after the anchors are loaded.
  unfoldable pub start : PkinitClient H → Request → Option Text → TrustStore → Step H (Unit {0})
  unfolding build_client server_name request_is_anonymous use_identity
  start p req identity_str trust_store =
      if request_is_anonymous req
      then (
        ok tt,
        record p {
          state = some (
              build_client env (record { cert_der = []; signing_key = none; chain = [] })
                trust_store p.config (server_name krb5 req) true);
        },
      )
      else elim identity_str [
        | none ↦ (err invalid, p)
        | some uri ↦ elim (parse_source uri) [
          | err _ ↦ (err invalid, p)
          | ok source ↦ use_identity p source trust_store (server_name krb5 req)
        ]
      ]

  -- `init_etype_info`; `profile` is the result of `Profile::from_context`.
  unfoldable pub init_etype_info :
      PkinitClient H → Result Krb5Error Profile → Request → Step H (Unit {0})
  unfolding has_key load_anchors start request_is_anonymous
  init_etype_info p profile req = if has_key p.state then (ok tt, p) else elim profile [
    | err e ↦ (err e, p)
    | ok prof ↦
        let (settings, read) = read_client_config prof req.realm p.config in
        let configured = record p { config = settings } in
        elim read [
          | err _ ↦ (err invalid, configured)
          | ok _ ↦
              if not (request_is_anonymous req) && not (is_some settings.identity)
              then (ok tt, configured)
              else elim (load_anchors outside krb5 new_store settings.anchors) [
                | err e ↦ (err e, configured)
                | ok trust_store ↦ start configured req settings.identity trust_store
              ]
        ]
  ]

  unfoldable pub finish_pending_pkcs12 : PkinitClient H → Step H (Unit {0})
  unfolding build_client
  finish_pending_pkcs12 p = elim p.pending_pkcs12 [
    | none ↦ (ok tt, p)
    | some pending ↦
        let taken = record p { pending_pkcs12 = none } in
        elim env.get_responder_answer [
          | none ↦ (err invalid, taken)
          | some password ↦ elim (load_pkcs12 outside pending.path password) [
            | err _ ↦ (err invalid, taken)
            | ok identity ↦ (
              ok tt,
              record taken {
                state = some (
                    build_client env identity pending.trust_store p.config pending.server_principal
                      false);
              },
            )
          ]
        ]
  ]
