-- ===== src/Identity/Loader.antt =====
-- pkinit-core/src/identity/mod.rs, loader.rs and store.rs: identity URIs, and loading identities and
-- trust anchors. Files, directories, environment variables, the readers of PEM and PKCS#12, and
-- tokens are a record of parameters. A path is its text.
use kurbu5_pkinit.Common.{
  Bool, Bytes, List, Result, String, Text, [], err, filter, find, if◌then◌else◌, list_eq, map,
  map_err, nat_eq, none, not, ok, option_eq, some, ◌++◌, ◌==◌, ◌>>=◌, ◌||◌, ◌∷◌,
}
use kurbu5_pkinit.Common.Strings.{codes, join, split_on, split_once, starts_with}
use kurbu5_pkinit.Error.{
  Fault, Pkinit, PkinitError, because, config, identity_load_failed, pkcs12_password_required, str,
  text,
}
use kurbu5_pkinit.Identity.{PkinitIdentity}
use kurbu5_pkinit.Identity.Store.{
  PkiBlock, TrustStore, certificate_block, crl_block, load_blocks, other_block,
}

-- IdentitySource
pub data IdentitySource : Type 0 where
  file_source : Text → Text → IdentitySource
  dir_source : Text → IdentitySource
  pkcs12_source : Text → IdentitySource
  pkcs11_uri_source : Text → IdentitySource
  env_source : Text → Text → IdentitySource

unfoldable pub parse_source : Text → Pkinit IdentitySource
parse_source uri = elim (split_once b':' uri) [
  | none ↦ err (config (str "identity URI missing scheme: " ∷ text uri ∷ []))
  | some (scheme, rest) ↦
      if scheme == codes "FILE"
      then elim (split_once b',' rest) [
        | none ↦ err (config (str "FILE identity requires cert,key paths: " ∷ text rest ∷ []))
        | some (cert, key) ↦ ok (file_source cert key)
      ]
      else if scheme == codes "DIR"
      then ok (dir_source rest)
      else if scheme == codes "PKCS12"
      then ok (pkcs12_source rest)
      else if scheme == codes "PKCS11"
      then ok (pkcs11_uri_source rest)
      else if scheme == codes "ENV"
      then elim (split_once b',' rest) [
        | none ↦ err (config (str "ENV identity requires cert_var,key_var: " ∷ text rest ∷ []))
        | some (cert_var, key_var) ↦ ok (env_source cert_var key_var)
      ]
      else err (config (str "unknown identity scheme: " ∷ text scheme ∷ []))
]

pub record DirEntry : Type 0 where
  pub path : Text
  pub is_file : Bool

-- A labelled block of a PEM file.
abbrev pub Block : Type 0
Block = Text × Bytes

-- The failures of `pki_from_pkcs12`: a decryption that OpenSSL refused, and all others.
pub data Pkcs12Error : Type 0 where
  openssl_decrypt : Fault → Pkcs12Error
  other_pkcs12 : Fault → Pkcs12Error

pub record Pki : Type 0 where
  pub certs : List Bytes
  pub keys : List Bytes

pub record Outside (H : Type 0) : Type 0 where
  pub read_file : Text → Result Fault Bytes
  pub read_dir : Text → Result Fault (List (Result Fault DirEntry))
  pub env_var : Text → Result Fault Text
  pub read_pki_blocks : Bytes → Result Fault (List Block)
  pub pki_from_pkcs12 : Bytes → Bytes → Result Pkcs12Error Pki
  pub from_pkcs8_der_unchecked : Bytes → H
  pub from_pkcs11_uri : Text → Result Fault H
  pub load_certs_from_pkcs11_uri : Text → Result Fault (List Bytes)

abbrev pub load_err : String → Text → Fault → PkinitError
load_err context name e =
    identity_load_failed (str context ∷ str " " ∷ text name ∷ str ": " ∷ text e ∷ [])

unfoldable pub map_pkcs12_error : Pkcs12Error → PkinitError
map_pkcs12_error (openssl_decrypt _) = pkcs12_password_required
map_pkcs12_error (other_pkcs12 e) = identity_load_failed (because "parsing PKCS#12" e)

unfoldable pub is_certificate : Block → Bool
is_certificate block = block.0 == codes "CERTIFICATE"

unfoldable pub is_private_key : Block → Bool
is_private_key block = block.0 == codes "PRIVATE KEY" || block.0 == codes "RSA PRIVATE KEY"

unfoldable pub extract_cert_and_chain : List Block → Pkinit (Bytes × List Bytes)
unfolding is_certificate
extract_cert_and_chain blocks = elim (map (λ (b : Block). b.1) (filter is_certificate blocks)) [
  | [] ↦ err (identity_load_failed (str "no certificate found" ∷ []))
  | cert_der ∷ chain ↦ ok (cert_der, chain)
]

unfoldable pub extract_private_key : List Block → Pkinit Bytes
unfolding is_private_key
extract_private_key blocks = elim (find is_private_key blocks) [
  | none ↦ err (identity_load_failed (str "no private key found" ∷ []))
  | some block ↦ ok block.1
]

-- The URI without its query.
unfoldable pub redact_pkcs11_uri : Text → Text
redact_pkcs11_uri uri = elim (split_once b'?' uri) [ none ↦ uri | some (path, _) ↦ path ]

unfoldable pub cert_path : Text → Text
cert_path path = join (codes ";") (
    filter (λ c. not (starts_with c (codes "type="))) (split_on b';' path)
    ++ (codes "type=cert" ∷ []))

unfoldable pub pkcs11_cert_uri : Text → Text
unfolding cert_path
pkcs11_cert_uri uri = elim (split_once b'?' uri) [
  | none ↦ cert_path uri
  | some (path, query) ↦ cert_path path ++ b'?' ∷ query
]

module _ {H : Type 0} (outside : Outside H) where
  unfoldable pub load_file : Text → Text → Pkinit (PkinitIdentity H)
  unfolding extract_cert_and_chain extract_private_key
  load_file cert_file key_file = do
    cert_data ← map_err (outside.read_file cert_file) (load_err "reading cert" cert_file)
    key_data ← map_err (outside.read_file key_file) (load_err "reading key" key_file)
    cert_blocks ←
        map_err (outside.read_pki_blocks cert_data)
          (λ e. identity_load_failed (because "parsing cert file" e))
    key_blocks ←
        map_err (outside.read_pki_blocks key_data)
          (λ e. identity_load_failed (because "parsing key file" e))
    (cert_der, chain) ← extract_cert_and_chain cert_blocks
    key_der ← extract_private_key key_blocks
    ok (record {
      cert_der = cert_der;
      signing_key = some (outside.from_pkcs8_der_unchecked key_der);
      chain = chain;
    })

  -- The blocks of one file; none if they cannot be parsed.
  unfoldable pub blocks_of : Bytes → List Block
  blocks_of content = elim (outside.read_pki_blocks content) [ ok blocks ↦ blocks | err _ ↦ [] ]

  -- The loop over the entries of a directory.
  unfoldable pub dir_blocks : List (Result Fault DirEntry) → Pkinit (List Block)
  unfolding blocks_of
  dir_blocks [] = ok []
  dir_blocks (entry ∷ entries) = do
    e ← map_err entry (λ f. identity_load_failed (because "reading dir entry" f))
    let rest = dir_blocks entries
    if not e.is_file then rest else do
      content ← map_err (outside.read_file e.path) (load_err "reading" e.path)
      more ← rest
      ok (blocks_of content ++ more)

  unfoldable pub load_dir : Text → Pkinit (PkinitIdentity H)
  unfolding dir_blocks extract_cert_and_chain extract_private_key
  load_dir dir_path = do
    entries ← map_err (outside.read_dir dir_path) (load_err "reading directory" dir_path)
    all_blocks ← dir_blocks entries
    (cert_der, chain) ← extract_cert_and_chain all_blocks
    key_der ← extract_private_key all_blocks
    ok (record {
      cert_der = cert_der;
      signing_key = some (outside.from_pkcs8_der_unchecked key_der);
      chain = chain;
    })

  unfoldable pub load_pkcs12 : Text → Bytes → Pkinit (PkinitIdentity H)
  unfolding map_pkcs12_error
  load_pkcs12 path password = do
    content ← map_err (outside.read_file path) (load_err "reading PKCS#12" path)
    pki ← map_err (outside.pki_from_pkcs12 content password) map_pkcs12_error
    (cert_der, chain) ← elim pki.certs [
      | [] ↦ err (identity_load_failed (str "PKCS#12 contains no certificates" ∷ []))
      | c ∷ cs ↦ ok (c, cs)
    ]
    key_der ← elim pki.keys [
      | [] ↦ err (identity_load_failed (str "PKCS#12 contains no private keys" ∷ []))
      | k ∷ _ ↦ ok k
    ]
    ok (record {
      cert_der = cert_der;
      signing_key = some (outside.from_pkcs8_der_unchecked key_der);
      chain = chain;
    })

  unfoldable pub load_pkcs11 : Text → Pkinit (PkinitIdentity H)
  unfolding redact_pkcs11_uri pkcs11_cert_uri
  load_pkcs11 uri = do
    signing_key ←
        map_err (outside.from_pkcs11_uri uri)
          (load_err "loading PKCS#11 key from" (redact_pkcs11_uri uri))
    let cert_uri = pkcs11_cert_uri uri
    certs ←
        map_err (outside.load_certs_from_pkcs11_uri cert_uri)
          (load_err "loading PKCS#11 certificate from" (redact_pkcs11_uri cert_uri))
    elim certs [
      | [] ↦ err (
          identity_load_failed
            (str "PKCS#11 token exposes no certificate for " ∷ text (redact_pkcs11_uri uri) ∷ []))
      | c ∷ cs ↦ ok (record { cert_der = c; signing_key = some signing_key; chain = cs })
    ]

  unfoldable pub load_env : Text → Text → Pkinit (PkinitIdentity H)
  unfolding load_file
  load_env cert_var key_var = do
    cert_file ← map_err (outside.env_var cert_var) (load_err "reading env var" cert_var)
    key_file ← map_err (outside.env_var key_var) (load_err "reading env var" key_var)
    load_file cert_file key_file

  -- PkinitIdentity::load
  unfoldable pub load : IdentitySource → Pkinit (PkinitIdentity H)
  unfolding load_file load_dir load_pkcs12 load_pkcs11 load_env
  load (file_source cert_file key_file) = load_file cert_file key_file
  load (dir_source dir_path) = load_dir dir_path
  load (pkcs12_source path) = load_pkcs12 path []
  load (pkcs11_uri_source uri) = load_pkcs11 uri
  load (env_source cert_var key_var) = load_env cert_var key_var

-- TrustStore::load_from_path
unfoldable pub pki_block : Block → PkiBlock
pki_block (label, der) =
    if label == codes "CERTIFICATE"
    then certificate_block der
    else if label == codes "X509 CRL"
    then crl_block der
    else other_block der

module _ {H : Type 0} (outside : Outside H) where
  -- The loop over a directory: what was loaded before an error stays loaded.
  unfoldable pub load_entries :
      TrustStore → List (Result Fault DirEntry) → Pkinit (Unit {0}) × TrustStore
  unfolding pki_block
  load_entries s [] = (ok tt, s)
  load_entries s (err e ∷ entries) = (err (identity_load_failed (because "dir entry" e)), s)
  load_entries s (ok entry ∷ entries) =
      if not entry.is_file then load_entries s entries else elim (outside.read_file entry.path) [
        | err e ↦ (err (load_err "reading" entry.path e), s)
        | ok content ↦
            load_entries (load_blocks s (map pki_block (blocks_of outside content))) entries
      ]

  unfoldable pub load_store_file : TrustStore → Text → Pkinit (Unit {0}) × TrustStore
  unfolding pki_block
  load_store_file s path = elim (outside.read_file path) [
    | err e ↦ (err (load_err "reading" path e), s)
    | ok content ↦ elim (outside.read_pki_blocks content) [
      | err e ↦ (err (load_err "parsing" path e), s)
      | ok blocks ↦ (ok tt, load_blocks s (map pki_block blocks))
    ]
  ]

  unfoldable pub load_store_dir : TrustStore → Text → Pkinit (Unit {0}) × TrustStore
  unfolding load_entries
  load_store_dir s path = elim (outside.read_dir path) [
    | err e ↦ (err (load_err "reading dir" path e), s)
    | ok entries ↦ load_entries s entries
  ]

  unfoldable pub load_from_path : TrustStore → Text → Pkinit (Unit {0}) × TrustStore
  unfolding load_store_file load_store_dir
  load_from_path s uri =
      let (scheme, path) = elim (split_once b':' uri) as (λ _. Text × Text) [
        | none ↦ (codes "FILE", uri)
        | some parts ↦ parts
      ] in
      if scheme == codes "FILE"
      then load_store_file s path
      else if scheme == codes "DIR"
      then load_store_dir s path
      else (err (config (str "unsupported trust store URI scheme: " ∷ text scheme ∷ [])), s)
