-- ===== src/Certauth/Names.antt =====
-- pkinit-core/src/certauth.rs: a certificate is authorised for the principals that it names.
use mathlib.Core.Path.{subst}
use kurbu5_pkinit.Common.{
  ==_iff, >>=-eq-ok, Bool, Bool-cases, Bytes, Has, List, Text, [], any, any-Has, arith,
  if◌then◌else◌, inl, inr, list_eq, nat_eq, ok, option_eq, true, ◌==◌, ◌>>=◌, ◌∷◌, ◌≡◌, ◌⊎◌,
}
use kurbu5_pkinit.Error.{str, text}
use kurbu5_pkinit.Constants.{eq_ignore_ascii_case, group_eq, kem_eq}
use kurbu5_pkinit.Synta.{Synta}
use kurbu5_pkinit.San.{extract_pkinit_sans, extract_upn_sans}
use kurbu5_pkinit.Certauth.{authorized, rejected, verify_client_san}

-- The certificate has the principal among its id-pkinit-san names, or, where UPNs are allowed, among
-- its UPNs up to ASCII case.
abbrev pub NamesPrincipal : Synta → Bool → Bytes → Text → Type 0
NamesPrincipal synta allow_upn cert name =
    ((sans : List Text) × (extract_pkinit_sans synta cert ≡ ok sans) × Has name sans)
    ⊎ ((allow_upn ≡ true)
        × ((upns : List Text) × (upn : Text) × (extract_upn_sans synta cert ≡ ok upns)
            × Has upn upns
            × (eq_ignore_ascii_case upn name ≡ true)))

pub verify_client_san-NamesPrincipal :
    (synta : Synta) (allow_upn : Bool) (cert : Bytes) (name : Text)
    → verify_client_san synta cert name allow_upn ≡ ok authorized
    → NamesPrincipal synta allow_upn cert name
unfolding verify_client_san
verify_client_san-NamesPrincipal synta allow_upn cert name h =
    let (sans, e, h1) = >>=-eq-ok (extract_pkinit_sans synta cert) _ h in
    elim (Bool-cases (any (λ s. s == name) sans)) [
      | inl t ↦
          let (s, m, q) = any-Has (λ s. s == name) sans t in
          inl (sans, e, subst (λ x. Has x sans) ((==_iff s name).0 q) m)
      | inr t ↦ elim (Bool-cases allow_upn) [
        | inr u ↦ absurd (ground arith)
        | inl u ↦
            let k : (extract_upn_sans synta cert >>= λ upns. ok (
                  if any (λ x. eq_ignore_ascii_case x name) upns
                  then authorized
                  else rejected (str "no SAN matching " ∷ text name ∷ [])))
                ≡ ok authorized =
              ground arith in
            let (upns, f, h2) = >>=-eq-ok (extract_upn_sans synta cert) _ k in
            elim (Bool-cases (any (λ x. eq_ignore_ascii_case x name) upns)) [
              | inl w ↦
                  let (upn, m, q) = any-Has (λ x. eq_ignore_ascii_case x name) upns w in
                  inr (u, (upns, upn, f, m, q))
              | inr w ↦ absurd (ground arith)
            ]
      ]
    ]
