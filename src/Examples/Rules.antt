-- ===== src/Examples/Rules.antt =====
-- Matching rules at concrete inputs.
use kurbu5_pkinit.Common.{
  [], contains, err, false, list_eq, nat_eq, ok, option_eq, refl, true, ◌∷◌, ◌≡◌,
}
use kurbu5_pkinit.Common.Strings.{codes}
use kurbu5_pkinit.Error.{config, str, text}
use kurbu5_pkinit.Certauth.{authorized}
use kurbu5_pkinit.Matching.{
  MatchRule, all_of, and_then, any_of, db_match, eku, evaluate, ku, no_rules, parse_rule,
  simple_match, subject,
}
use kurbu5_pkinit.Matching.Glob.{Glob, done, same, simple_match-Glob, star_ends, star_takes}
use kurbu5_pkinit.Examples.Toy.{oid, toy_synta}

rule_parsed :
    parse_rule (codes " <SUBJECT>CN=<a&&b>*&& <KU>+0080||<EKU>1.3.6")
    ≡ ok (
        any_of (
          and_then
            (all_of (and_then (subject (codes "CN=<a&&b>*")) (and_then (ku 0x80) no_rules)))
            (and_then (eku (1 ∷ 3 ∷ 6 ∷ [])) no_rules)))
unfolding parse_rule kurbu5_pkinit.Common.Strings.trim kurbu5_pkinit.Matching.separator_here
    kurbu5_pkinit.Matching.depth_after kurbu5_pkinit.Common.Strings.strip_prefix
    kurbu5_pkinit.Common.collect kurbu5_pkinit.Common.Strings.split_once
    kurbu5_pkinit.Common.list_beq kurbu5_pkinit.Common.Strings.from_str_radix
    kurbu5_pkinit.Common.Strings.split_on kurbu5_pkinit.Matching.rules_of
rule_parsed = refl

rule_refused :
    parse_rule (codes "SUBJECT")
    ≡ err (config (str "match rule must start with <TAG>: " ∷ text (codes "SUBJECT") ∷ []))
unfolding parse_rule kurbu5_pkinit.Common.Strings.trim kurbu5_pkinit.Matching.separator_here
    kurbu5_pkinit.Matching.depth_after kurbu5_pkinit.Common.Strings.strip_prefix
rule_refused = refl

-- A part that stands at the end and once more before it: the leftmost place is taken, and the
-- pattern is refused although the star can stand for what comes before the last place.
leftmost_refused :
    (simple_match (codes "aba") (codes "*a") ≡ false) × Glob (codes "*a") (codes "aba")
unfolding simple_match contains kurbu5_pkinit.Common.Strings.split_on
    kurbu5_pkinit.Common.Strings.find_text kurbu5_pkinit.Common.Strings.strip_prefix
leftmost_refused = (
  refl,
  star_takes b'a' (codes "a") (codes "ba") (
      star_takes b'b' (codes "a") (codes "a")
        (star_ends (codes "a") (codes "a") (same b'a' [] [] done))),
)

star_matched : simple_match (codes "CN=a,O=b") (codes "CN=*,O=b") ≡ true
unfolding simple_match contains kurbu5_pkinit.Common.Strings.split_on
    kurbu5_pkinit.Common.Strings.find_text kurbu5_pkinit.Common.Strings.strip_prefix
star_matched = refl

simple_match-Glob_example : Glob (codes "CN=*,O=b") (codes "CN=a,O=b")
unfolding contains
simple_match-Glob_example =
    simple_match-Glob (codes "CN=a,O=b") (codes "CN=*,O=b") refl star_matched

abbrev toy_rule : MatchRule
toy_rule = any_of (and_then (ku 0x80) (and_then (subject (codes "CN=*")) no_rules))

rule_matched : db_match toy_synta (oid 90) (codes "<KU>80||<SUBJECT>CN=*") ≡ ok authorized
unfolding db_match kurbu5_pkinit.Common.Strings.trim kurbu5_pkinit.Matching.separator_here
    kurbu5_pkinit.Matching.depth_after kurbu5_pkinit.Common.Strings.strip_prefix
    kurbu5_pkinit.Common.collect kurbu5_pkinit.Common.Strings.split_once
    kurbu5_pkinit.Common.list_beq kurbu5_pkinit.Common.Strings.from_str_radix evaluate
    kurbu5_pkinit.Matching.rules_of kurbu5_pkinit.San.extract_key_usage contains
    kurbu5_pkinit.Common.Strings.split_on kurbu5_pkinit.Common.Strings.find_text
rule_matched = refl
