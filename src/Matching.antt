-- ===== src/Matching.antt =====
-- pkinit-core/src/identity/matching.rs: the rules of pkinit_cert_match, their parser and their
-- evaluation on a certificate; and certauth.rs, `db_match`. A text is its bytes: `trim` takes off
-- ASCII white space. The depth of angle brackets is taken not to reach 2^32.
use Prim.Native.Nat.{bit_and}
use kurbu5_pkinit.Common.{
  Bool, Bytes, List, Oid, Option, Text, [], any, collect, contains, drop, err, false, if◌then◌else◌,
  is_empty, length, list_eq, map_err, nat_eq, none, not, ok, option_eq, some, suc, true, zero, ℕ,
  ◌&&◌, ◌++◌, ◌+◌, ◌-◌, ◌==◌, ◌>>=◌, ◌>>◌, ◌^◌, ◌∷◌,
}
use kurbu5_pkinit.Common.Strings.{
  codes, find_text, from_str_radix, split_on, split_once, strip_prefix, trim,
}
use kurbu5_pkinit.Error.{Pkinit, arcs, asn1_err, config, str, text}
use kurbu5_pkinit.Synta.{Synta}
use kurbu5_pkinit.San.{
  extract_dns_names, extract_eku_oids, extract_key_usage, extract_pkinit_sans, extract_upn_sans,
}
use kurbu5_pkinit.Certauth.{CertauthResult, authorized, rejected}
pub mod Split
pub mod Glob
pub mod Usage
pub mod Evaluate
pub mod Bounds

mutual
  pub data MatchRule : Type 0 where
    subject : Text → MatchRule
    issuer : Text → MatchRule
    san : Text → MatchRule
    eku : Oid → MatchRule
    ku : ℕ → MatchRule
    all_of : MatchRules → MatchRule
    any_of : MatchRules → MatchRule

  pub data MatchRules : Type 0 where
    no_rules : MatchRules
    and_then : MatchRule → MatchRules → MatchRules

unfoldable pub rules_of : List MatchRule → MatchRules
rules_of [] = no_rules
rules_of (r ∷ rs) = and_then r (rules_of rs)

-- The depth of `<` that the loop of `split_top_level` keeps, after one byte.
unfoldable pub depth_after : ℕ → ℕ → ℕ
depth_after depth c = if c == b'<' then depth + 1 else if c == b'>' then depth - 1 else depth

-- The separator at this place, if it is outside all angle brackets: what follows it.
unfoldable pub separator_here : Text → ℕ → Text → Option Text
separator_here sep depth rest = if depth == 0 then strip_prefix sep rest else none

-- The loop, with fuel: `current` is `input[last..i]` and `rest` is `input[i..]`.
unfoldable pub split_loop : ℕ → Text → ℕ → Text → Text → List Text
split_loop fuel sep depth current [] = current ∷ []
split_loop zero sep depth current (c ∷ rest) = (current ++ c ∷ rest) ∷ []
split_loop (suc fuel) sep depth current (c ∷ rest) =
    let inside = depth_after depth c in
    elim (separator_here sep inside (c ∷ rest)) [
      | some after ↦ current ∷ split_loop fuel sep inside [] after
      | none ↦ split_loop fuel sep inside (current ++ c ∷ []) rest
    ]

unfoldable pub split_top_level : Text → Text → List Text
unfolding split_loop
split_top_level input sep = split_loop (length input) sep 0 [] input

unfoldable pub parse_tagged : Text → Text → Pkinit MatchRule
parse_tagged tag value =
    if tag == codes "SUBJECT"
    then ok (subject value)
    else if tag == codes "ISSUER"
    then ok (issuer value)
    else if tag == codes "SAN"
    then ok (san value)
    else if tag == codes "EKU"
    then map_err
        (collect (from_str_radix 10 (2 ^ 32)) (split_on b'.' value) >>= λ arcs. ok (eku arcs))
        (λ e. config (str "invalid EKU OID " ∷ text value ∷ str ": " ∷ text e ∷ []))
    else if tag == codes "KU"
    then map_err (from_str_radix 16 (2 ^ 16) value >>= λ bits. ok (ku bits))
        (λ e. config (str "invalid KU hex " ∷ text value ∷ str ": " ∷ text e ∷ []))
    else err (config (str "unknown match rule tag: " ∷ text tag ∷ []))

unfoldable pub parse_leaf : Text → Pkinit MatchRule
unfolding parse_tagged
parse_leaf raw =
    let input = trim raw in
    elim (strip_prefix (codes "<") input) [
      | none ↦ err (config (str "match rule must start with <TAG>: " ∷ text input ∷ []))
      | some inner ↦ elim (split_once b'>' inner) [
        | none ↦ err (config (str "match rule missing closing >: " ∷ text input ∷ []))
        | some (tag, value) ↦ parse_tagged tag value
      ]
    ]

-- `parse_and` and `parse_or`: one part is parsed alone.
unfoldable pub parse_and : Text → Pkinit MatchRule
unfolding split_top_level parse_leaf
parse_and input = elim (split_top_level input (codes "&&")) [
  | part ∷ [] ↦ parse_leaf part
  | parts ↦ do rules ← collect parse_leaf parts; ok (all_of (rules_of rules))
]

unfoldable pub parse_or : Text → Pkinit MatchRule
unfolding split_top_level parse_and
parse_or input = elim (split_top_level input (codes "||")) [
  | part ∷ [] ↦ parse_and part
  | parts ↦ do rules ← collect parse_and parts; ok (any_of (rules_of rules))
]

-- CertMatcher::parse
unfoldable pub parse_rule : Text → Pkinit MatchRule
unfolding parse_or
parse_rule rule_str = parse_or (trim rule_str)

-- The loop over the parts between the stars: the offset at which it ends, unless a part is missing.
-- `first` is `i == 0`.
unfoldable pub glob_loop : Text → Bool → ℕ → List Text → Option ℕ
glob_loop haystack first pos [] = some pos
glob_loop haystack first pos (part ∷ parts) =
    if is_empty part
    then glob_loop haystack false pos parts
    else elim (find_text part (drop pos haystack)) [
      | none ↦ none
      | some found ↦
          let rest = glob_loop haystack false (pos + (found + length part)) parts in
          if first && not (found == 0) then none else rest
    ]

-- `parts.last()` is absent or empty.
unfoldable pub ends_open : List Text → Bool
ends_open [] = true
ends_open (part ∷ []) = is_empty part
ends_open (part ∷ next ∷ more) = ends_open (next ∷ more)

unfoldable pub contains_text : Text → Text → Bool
contains_text haystack needle = elim (find_text needle haystack) [ none ↦ false | some _ ↦ true ]

-- The match of a pattern with stars, on its parts.
unfoldable pub match_parts : Text → List Text → Bool
unfolding glob_loop ends_open
match_parts haystack parts = elim (glob_loop haystack true 0 parts) [
  | none ↦ false
  | some pos ↦ if not (ends_open parts) then pos == length haystack else true
]

unfoldable pub simple_match : Text → Text → Bool
unfolding match_parts contains_text
simple_match haystack pattern =
    if not (contains pattern b'*')
    then contains_text haystack pattern
    else match_parts haystack (split_on b'*' pattern)

module _ (synta : Synta) where
  unfoldable pub extract_subject_dn : Bytes → Pkinit Text
  extract_subject_dn cert_der = do
    cert ← map_err (synta.certificate_from_der cert_der) (asn1_err "decoding cert")
    ok (synta.format_dn cert.subject)

  unfoldable pub extract_issuer_dn : Bytes → Pkinit Text
  extract_issuer_dn cert_der = do
    cert ← map_err (synta.certificate_from_der cert_der) (asn1_err "decoding cert")
    ok (synta.format_dn cert.issuer)

  unfoldable pub all_sans : Bytes → Pkinit (List Text)
  all_sans cert_der = do
    pkinit_sans ← extract_pkinit_sans synta cert_der
    upn_sans ← extract_upn_sans synta cert_der
    dns_names ← extract_dns_names synta cert_der
    ok (pkinit_sans ++ upn_sans ++ dns_names)

unfoldable mutual
  unfolding simple_match extract_subject_dn extract_issuer_dn all_sans

  pub evaluate : Synta → Bytes → MatchRule → Pkinit Bool
  evaluate synta cert_der (subject pattern) = do
    dn ← extract_subject_dn synta cert_der
    ok (simple_match dn pattern)
  evaluate synta cert_der (issuer pattern) = do
    dn ← extract_issuer_dn synta cert_der
    ok (simple_match dn pattern)
  evaluate synta cert_der (san pattern) = do
    sans ← all_sans synta cert_der
    ok (any (λ s. simple_match s pattern) sans)
  evaluate synta cert_der (eku oid) = do
    ekus ← extract_eku_oids synta cert_der
    ok (any (λ e. e == oid) ekus)
  evaluate synta cert_der (ku bits) = do
    usage ← extract_key_usage synta cert_der
    ok (bit_and usage bits == bits)
  evaluate synta cert_der (all_of rules) = evaluate_all synta cert_der rules
  evaluate synta cert_der (any_of rules) = evaluate_any synta cert_der rules

  pub evaluate_all : Synta → Bytes → MatchRules → Pkinit Bool
  evaluate_all synta cert_der no_rules = ok true
  evaluate_all synta cert_der (and_then r rules) =
      let rest = evaluate_all synta cert_der rules in
      evaluate synta cert_der r >>= λ holds. if not holds then ok false else rest

  pub evaluate_any : Synta → Bytes → MatchRules → Pkinit Bool
  evaluate_any synta cert_der no_rules = ok false
  evaluate_any synta cert_der (and_then r rules) =
      let rest = evaluate_any synta cert_der rules in
      evaluate synta cert_der r >>= λ holds. if holds then ok true else rest

unfoldable pub db_match : Synta → Bytes → Text → Pkinit CertauthResult
unfolding parse_rule
db_match synta cert_der match_rule = do
  rule ← parse_rule match_rule
  matches ← evaluate synta cert_der rule
  ok (if matches then authorized else rejected (str "certificate does not match rule" ∷ []))
