-- ===== src/Plugin/Fallback.antt =====
-- kurbu5-pkinit/src/client_plugin.rs: the client that a user with a certificate under a password gets.
use kurbu5_pkinit.Common.{Bytes, Option, Text, arith, err, false, none, ok, refl, some, sym, ◌≡◌}
use kurbu5_pkinit.Error.{pkcs12_password_required}
use kurbu5_pkinit.Config.{PkinitClientConfig}
use kurbu5_pkinit.Identity.{PkinitIdentity}
use kurbu5_pkinit.Identity.Store.{TrustStore}
use kurbu5_pkinit.Identity.Loader.{IdentitySource, Outside, load, load_pkcs12, pkcs12_source}
use kurbu5_pkinit.Client.State.{
  PkinitClientState, new_client, set_is_anonymous, set_kdc_identity, set_trust_broker,
  with_default_kem,
}
use kurbu5_pkinit.Client.Negotiate.{is_some}
use kurbu5_pkinit.Plugin.{Krb5}
use kurbu5_pkinit.Plugin.Client.{
  ClientEnv, PkinitClient, Step, build_client, finish_pending_pkcs12, use_identity,
}

module _ {H : Type 0} (krb5 : Krb5) (outside : Outside H) (env : ClientEnv H) where
  -- The client that a module makes of an identity.
  pub record IsFresh (settings : PkinitClientConfig) (store : TrustStore)
      (server_principal : Option Text) (identity : PkinitIdentity H) (c : PkinitClientState H)
      : Type 0 where
    pub same_identity : c.identity ≡ identity
    pub same_store : c.trust_store ≡ store
    pub same_principal : c.kdc_principal ≡ server_principal
    pub same_config : c.config ≡ with_default_kem settings
    pub signs : c.is_anonymous ≡ false
    pub no_dh_key : c.dh_key ≡ none
    pub no_kem_key : c.kem_key ≡ none
    pub asks_broker : is_some c.broker ≡ settings.kdc_trust_tofu

  build_client-IsFresh :
      (settings : PkinitClientConfig) (store : TrustStore) (server_principal : Option Text)
      (identity : PkinitIdentity H)
      → IsFresh settings store server_principal identity
          (build_client env identity store settings server_principal false)
  unfolding build_client new_client set_kdc_identity set_is_anonymous set_trust_broker
  build_client-IsFresh settings store none identity = record {
    same_identity = ground arith;
    same_store = ground arith;
    same_principal = ground arith;
    same_config = ground arith;
    signs = ground arith;
    no_dh_key = ground arith;
    no_kem_key = ground arith;
    asks_broker = ground arith;
  }
  build_client-IsFresh settings store (some name) identity = record {
    same_identity = ground arith;
    same_store = ground arith;
    same_principal = ground arith;
    same_config = ground arith;
    signs = ground arith;
    no_dh_key = ground arith;
    no_kem_key = ground arith;
    asks_broker = ground arith;
  }

  use_identity-ready :
      (p : PkinitClient H) (ready : Outside H) (source : IdentitySource) (store : TrustStore)
      (server_principal : Option Text) (identity : PkinitIdentity H)
      → load ready source ≡ ok identity
      → use_identity krb5 ready env p source store server_principal ≡ (
        ok tt,
        record p {
          state = some (build_client env identity store p.config server_principal false);
          pending_pkcs12 = none;
        },
      )
  unfolding use_identity
  use_identity-ready p ready source store server_principal identity loads = rw (loads, use_identity)

  use_identity-asks :
      (p : PkinitClient H) (path : Text) (store : TrustStore) (server_principal : Option Text)
      → load outside (pkcs12_source path) ≡ err pkcs12_password_required
      → env.ask_responder_question path ≡ ok tt
      → use_identity krb5 outside env p (pkcs12_source path) store server_principal ≡ (
        ok tt,
        record p {
          pending_pkcs12 =
              some
                (record { path = path; trust_store = store; server_principal = server_principal });
        },
      )
  unfolding use_identity
  use_identity-asks p path store server_principal locked asks = rw (locked, use_identity, asks)

  -- A PKCS#12 file under a password ends as an identity without one: when the file cannot be read with
  -- the empty password, the responder takes the question and its answer opens the file, then
  -- `use_identity` succeeds and leaves the module's client as it was, and completing it when the KDC's
  -- first padata arrives has the same outcome as `use_identity` on any source, in any surroundings, that
  -- gives that identity at once. The client then has the identity, the trust store, the KDC's principal
  -- and the configuration that were given (with the default KEM), is not anonymous, holds no key yet,
  -- and asks a broker exactly if the configuration says so; and nothing is pending.
  pub finish_pending_pkcs12-use_identity :
      (p : PkinitClient H) (path : Text) (store : TrustStore) (server_principal : Option Text)
      (password : Bytes) (identity : PkinitIdentity H) (ready : Outside H) (source : IdentitySource)
      → load outside (pkcs12_source path) ≡ err pkcs12_password_required
      → env.ask_responder_question path ≡ ok tt
      → env.get_responder_answer ≡ some password
      → load_pkcs12 outside path password ≡ ok identity
      → load ready source ≡ ok identity
      → let (asked, q) =
          use_identity krb5 outside env p (pkcs12_source path) store server_principal in
        let finished = finish_pending_pkcs12 krb5 outside env q in
        (asked ≡ ok tt)
        × (q.state ≡ p.state)
        × (finished ≡ use_identity krb5 ready env p source store server_principal)
        × (finished.0 ≡ ok tt)
        × (finished.1.pending_pkcs12 ≡ none)
        × ((client : PkinitClientState H) × (finished.1.state ≡ some client)
            × IsFresh p.config store server_principal identity client)
  unfolding finish_pending_pkcs12
  finish_pending_pkcs12-use_identity p path store server_principal password identity ready source
        locked asks answers opens loads =
      let q : PkinitClient H = record p {
        pending_pkcs12 =
            some (record { path = path; trust_store = store; server_principal = server_principal });
      } in
      let done : Step H (Unit {0}) = (
        ok tt,
        record p {
          state = some (build_client env identity store p.config server_principal false);
          pending_pkcs12 = none;
        },
      ) in
      let finished : finish_pending_pkcs12 krb5 outside env q ≡ done = ground arith in
      let at_once = use_identity-ready p ready source store server_principal identity loads in
      rw (use_identity-asks p path store server_principal locked asks, finished)
        (
          refl,
          refl,
          sym at_once,
          refl,
          refl,
          (
            build_client env identity store p.config server_principal false,
            refl,
            build_client-IsFresh p.config store server_principal identity,
          ),
        )
