-- ===== src/Ctl/Export.antt =====
-- pkinit-trust-ctl/src/lib.rs: where an export writes, the lines of a PEM file, and the shown times.
use mathlib.Core.Path.{subst}
use kurbu5_pkinit.Common.{
  ==_iff, AllOf, Bytes, Has, List, Option-cases, Result, Result-cases, Text, [], any, ap, arith,
  contains, drop, false, inl, inr, is_empty, length, length-drop, list_eq, nat_eq, none, not,
  option_eq, refl, some, suc, sym, take, zero, ℕ, ◌*◌, ◌++◌, ◌+◌, ◌<◌, ◌∙◌, ◌∷◌, ◌≡◌, ◌≢◌, ◌≤◌, ◌⊎◌,
}
use kurbu5_pkinit.Common.Strings.{codes}
use kurbu5_pkinit.Error.{Fault}
use kurbu5_pkinit.Cms.Sign.{concat_bytes}
use kurbu5_pkinit.Broker.Pins.{TrustedRealm}
use kurbu5_pkinit.Ctl.{
  CtlIo, Written, anchor_path, chunks, export, export_realms, is_safe_byte, safe_filename,
  split_seconds, to_pem,
}

-- A name that stays in its directory: not empty, not the directory itself or its parent, and without
-- a slash.
pub record IsFilename (name : Text) : Type 0 where
  pub not_empty : name ≢ []
  pub not_here : name ≢ codes "."
  pub not_parent : name ≢ codes ".."
  pub no_slash : contains name b'/' ≡ false

safe-contains : (s : Text) → any (λ c. not (is_safe_byte c)) s ≡ false → contains s b'/' ≡ false
unfolding any contains is_safe_byte
safe-contains [] h = refl
safe-contains (c ∷ s) h = ground (arith, safe-contains s)

safe_filename-IsFilename :
    (realm filename : Text)
    → safe_filename realm ≡ some filename
    → IsFilename filename × (filename ≡ realm)
unfolding safe_filename
safe_filename-IsFilename realm filename h =
    let same : realm ≡ filename = ground arith in
    let safe : IsFilename realm = record {
      not_empty = λ e. ground (arith, ap is_empty e);
      not_here = λ e. ground (arith, ==_iff realm (codes "."));
      not_parent = λ e. ground (arith, ==_iff realm (codes ".."));
      no_slash = safe-contains realm (ground arith);
    } in
    (subst IsFilename same safe, sym same)

-- What the realm's iteration of the loop does: the realm is skipped, an operation fails, or its
-- anchor is written.
module _ (outside : CtlIo) (dir : Text) (r : TrustedRealm) (rs : List TrustedRealm) where
  abbrev rest : Result Fault Text × List Written
  rest = export_realms outside dir rs

  abbrev all : Result Fault Text × List Written
  all = export_realms outside dir (r ∷ rs)

  abbrev pem : Bytes → Text
  pem der = to_pem outside.base64_encode der

  export_realms-cases :
      (w : Written)
      → Has w all.1
      → Has w rest.1
        ⊎ ((filename : Text) × (safe_filename r.realm ≡ some filename)
            × (w.0 ≡ anchor_path dir filename))
  unfolding export_realms
  export_realms-cases w m = elim (Option-cases (safe_filename r.realm)) [
    | inl e ↦ inl (subst (λ x. Has w x) (ap (λ x. x.1) (skipped e)) m)
    | inr (f, e) ↦ elim (Result-cases (outside.base64_decode r.ca_der)) [
      | inr (x, q) ↦
          let none_written : all.1 ≡ [] = rw (export_realms, e) (rw (export_realms, q) refl) in
          absurd (subst (Has w) none_written m)
      | inl (der, q) ↦ elim (Result-cases (outside.write_file (anchor_path dir f) (pem der))) [
        | inr (x, k) ↦
            let none_written : all.1 ≡ [] =
              rw (export_realms, e) (rw (export_realms, q) (rw (export_realms, k) refl)) in
            absurd (subst (Has w) none_written m)
        | inl (u, k) ↦
            let one_more : all.1 ≡ (anchor_path dir f, pem der) ∷ rest.1 =
              rw (export_realms, e) (rw (export_realms, q) (rw (export_realms, k) refl)) in
            elim (subst (Has w) one_more m) [
              | inl p ↦ inr (f, e, ap (λ (x : Written). x.0) p)
              | inr n ↦ inl n
            ]
      ]
    ]
  ]
    where
      skipped : safe_filename r.realm ≡ none → all ≡ rest
      skipped e = rw (export_realms, e) refl

export_realms-inside :
    (outside : CtlIo) (dir : Text) (realms : List TrustedRealm) (w : Written)
    → Has w (export_realms outside dir realms).1
    → (r : TrustedRealm) × Has r realms × IsFilename r.realm × (w.0 ≡ anchor_path dir r.realm)
unfolding export_realms
export_realms-inside outside dir [] w m = absurd m
export_realms-inside outside dir (r ∷ rs) w m = elim (export_realms-cases outside dir r rs w m) [
  | inl n ↦ let (t, k, f, p) = export_realms-inside outside dir rs w n in (t, inr k, f, p)
  | inr (filename, e, p) ↦
      let (f, same) = safe_filename-IsFilename r.realm filename e in
      (r, inl refl, subst IsFilename same f, p ∙ ap (anchor_path dir) same)
]

-- Every file that an export writes, also one that fails later, is a `.pem` file directly in the given
-- directory, named for a trusted realm whose name is no path: without a slash, and neither `.` nor
-- `..` nor empty.
pub export-inside :
    (outside : CtlIo) (realms : List TrustedRealm) (dir : Text) (w : Written)
    → Has w (export outside realms dir).1
    → (r : TrustedRealm) × Has r realms × IsFilename r.realm × (w.0 ≡ anchor_path dir r.realm)
unfolding export
export-inside outside realms dir w m = elim (Result-cases (outside.create_dir_all dir)) [
  | inr (e, q) ↦
      let none_written : (export outside realms dir).1 ≡ [] = rw (export, q) refl in
      absurd (subst (Has w) none_written m)
  | inl (u, q) ↦
      let same : (export outside realms dir).1 ≡ (export_realms outside dir realms).1 =
        rw (export, q) refl in
      export_realms-inside outside dir realms w (subst (Has w) same m)
]

take-drop : (n : ℕ) (s : Text) → take n s ++ drop n s ≡ s
take-drop zero s = refl
take-drop (suc n) [] = refl
take-drop (suc n) (c ∷ s) = ap (◌∷◌ c) (take-drop n s)

length-take-le : (n : ℕ) (s : Text) → length (take n s) ≤ n
length-take-le zero s = omega arith
length-take-le (suc n) [] = omega arith
length-take-le (suc n) (c ∷ s) = omega (arith, length-take-le n s)

abbrev pub IsLine : ℕ → Text → Type 0
IsLine size l = (0 < length l) × (length l ≤ size)

chunks-IsLine :
    (fuel n : ℕ) (s : Text)
    → length s ≤ fuel
    → AllOf (IsLine (suc n)) (chunks fuel (suc n) s) × (concat_bytes (chunks fuel (suc n) s) ≡ s)
unfolding chunks concat_bytes
chunks-IsLine fuel n [] h = (tt, refl)
chunks-IsLine zero n (c ∷ s) h = absurd (omega arith)
chunks-IsLine (suc fuel) n (c ∷ s) h =
    let l = length-drop n s in
    let (ls, e) = chunks-IsLine fuel n (drop n s) (omega (arith, l)) in
    (
      ((omega arith, omega (arith, length-take-le n s)), ls),
      ap (λ x. (c ∷ take n s) ++ x) e ∙ ap (◌∷◌ c) (take-drop n s),
    )

-- The lines of a PEM file's body are not empty and have at most 64 characters, and put together they
-- are the base64 text: the fuel is enough for every line.
pub chunks-lines :
    (b64 : Text)
    → AllOf (IsLine 64) (chunks (length b64) 64 b64)
      × (concat_bytes (chunks (length b64) 64 b64) ≡ b64)
chunks-lines b64 = chunks-IsLine (length b64) 63 b64 (omega arith)

-- The time that is shown is the time that is left, rounded down to a minute, with fewer than 24 hours
-- beside the days and fewer than 60 minutes beside the hours.
pub split_seconds-bounds :
    (n : ℕ)
    → let r = split_seconds n in
      let shown : ℕ = r.days * 86400 + r.hours * 3600 + r.minutes * 60 in
      (r.hours < 24) × (r.minutes < 60) × (shown ≤ n) × (n < shown + 60)
unfolding split_seconds
split_seconds-bounds n = omega arith
