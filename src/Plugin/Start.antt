-- ===== src/Plugin/Start.antt =====
-- kurbu5-pkinit/src/kdc_plugin.rs: how the KDC's module starts from the profile, and what the KDC that
-- it starts advertises.
use kurbu5_pkinit.Common.{
  Bool, List, Result, Text, [], err, false, if◌then◌else◌, list_eq, map_err, nat_eq, ok, ok_or,
  option_eq, true, ◌==◌, ◌>>=◌, ◌∷◌, ◌≡◌, ◌⊎◌,
}
use kurbu5_pkinit.Common.Int.{ℤ, ℤ_eq}
use kurbu5_pkinit.Constants.{group_eq, kem_eq, ml_kem1024, ml_kem512, ml_kem768}
use kurbu5_pkinit.Synta.{Synta}
use kurbu5_pkinit.Config.{PkinitKdcConfig}
use kurbu5_pkinit.Identity.Store.{new_store}
use kurbu5_pkinit.Identity.Loader.{Outside, load, parse_source}
use kurbu5_pkinit.Server.State.{new_kdc}
use kurbu5_pkinit.Profile.{Profile, read_kdc_config}
use kurbu5_pkinit.Plugin.{Krb5, Krb5Error, custom, no_handle, pa_pkinit_kx}
use kurbu5_pkinit.Plugin.Kdc.{PkinitKdc}
use kurbu5_pkinit.Plugin.Client.{load_anchors}

module _ {H : Type 0} (krb5 : Krb5) (synta : Synta) (outside : Outside H) where
  -- `init_module`; `profile` is the result of `Profile::from_context`.
  unfoldable pub init_module : Result Krb5Error Profile → List Text → Result Krb5Error (PkinitKdc H)
  init_module profile [] = err (custom krb5.einval)
  init_module profile (realm ∷ _) = do
    prof ← profile
    settings ← map_err (read_kdc_config prof realm) (λ _. custom krb5.einval)
    uri ← ok_or settings.identity no_handle
    source ← map_err (parse_source uri) (λ _. custom krb5.einval)
    identity ← map_err (load outside source) (λ _. custom krb5.einval)
    trust_store ← load_anchors outside krb5 new_store settings.anchors
    state ← map_err (new_kdc synta identity trust_store settings) (λ _. custom krb5.einval)
    ok (record { state = state; config = settings })

-- PA_SUFFICIENT | PA_REPLACES_KEY | PA_TYPED_E_DATA | PA_HARDWARE, by whether they are set.
unfoldable pub flags_for_type : ℤ → Bool
flags_for_type pa_type = if pa_type == pa_pkinit_kx then false else true

module _ {H : Type 0} (krb5 : Krb5) (synta : Synta) (outside : Outside H) where
  -- All fields are those that were read, but for the KEMs of a configuration that requires one and
  -- names none.
  abbrev pub RunsWith : PkinitKdcConfig → PkinitKdcConfig → Type 0
  RunsWith settings running =
      (running ≡ settings)
      ⊎ ((settings.require_kem ≡ true)
          × (settings.supported_kem_algorithms ≡ [])
          × (settings.supported_composite_kem_algorithms ≡ [])
          × (running ≡ record settings {
            supported_kem_algorithms = ml_kem512 ∷ ml_kem768 ∷ ml_kem1024 ∷ [];
          }))
