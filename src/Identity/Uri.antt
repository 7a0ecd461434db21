-- ===== src/Identity/Uri.antt =====
-- pkinit-core/src/identity/mod.rs and loader.rs: identity URIs are read back as they are written, and
-- the URIs of messages and of certificates.
use kurbu5_pkinit.Common.{
  ==_refl, Text, [], arith, contains, false, list_beq, list_eq, nat_eq, ok, option_eq, refl, some,
  ℕ, ◌++◌, ◌==◌, ◌∷◌, ◌≡◌,
}
use kurbu5_pkinit.Common.Strings.{codes, split_once}
use kurbu5_pkinit.Identity.Loader.{
  IdentitySource, dir_source, env_source, file_source, parse_source, pkcs11_uri_source,
  pkcs12_source,
}

-- The URI of an identity source.
unfoldable pub source_uri : IdentitySource → Text
source_uri (file_source cert key) = codes "FILE:" ++ (cert ++ b',' ∷ key)
source_uri (dir_source path) = codes "DIR:" ++ path
source_uri (pkcs12_source path) = codes "PKCS12:" ++ path
source_uri (pkcs11_uri_source uri) = codes "PKCS11:" ++ uri
source_uri (env_source cert_var key_var) = codes "ENV:" ++ (cert_var ++ b',' ∷ key_var)

-- The first of two names has no comma.
abbrev pub NoComma : IdentitySource → Type 0
NoComma (file_source cert key) = contains cert b',' ≡ false
NoComma (env_source cert_var key_var) = contains cert_var b',' ≡ false
NoComma _ = Unit

split_once-append :
    (sep : ℕ) (before after : Text)
    → contains before sep ≡ false
    → split_once sep (before ++ sep ∷ after) ≡ some (before, after)
unfolding split_once contains
split_once-append sep [] after h = let t = ==_refl sep in rw t refl
split_once-append sep (c ∷ before) after h =
    let t : c == sep ≡ false = ground arith in
    let k : contains before sep ≡ false = ground arith in
    rw (t, split_once-append sep before after k) refl

-- The URI of a source is parsed back as that source, when the name before a comma has none.
pub parse_source-source_uri :
    (source : IdentitySource) → NoComma source → parse_source (source_uri source) ≡ ok source
unfolding parse_source source_uri split_once list_beq
parse_source-source_uri (file_source cert key) h = rw (split_once-append b',' cert key h) refl
parse_source-source_uri (dir_source path) h = refl
parse_source-source_uri (pkcs12_source path) h = refl
parse_source-source_uri (pkcs11_uri_source uri) h = refl
parse_source-source_uri (env_source cert_var key_var) h =
    rw (split_once-append b',' cert_var key_var h) refl
