-- ===== src/Examples/Exports.antt =====
-- An export of trust anchors at concrete inputs.
use kurbu5_pkinit.Common.{Has, Text, [], inl, none, ok, refl, ◌∷◌, ◌≡◌}
use kurbu5_pkinit.Common.Strings.{codes}
use kurbu5_pkinit.Error.{num, str}
use kurbu5_pkinit.Broker.Pins.{TrustedRealm}
use kurbu5_pkinit.Ctl.{CtlIo, anchor_path, export, format_expiry}
use kurbu5_pkinit.Ctl.Export.{IsFilename, export-inside}

abbrev toy_realm : Text → TrustedRealm
toy_realm name = record { realm = name; ca_der = codes "MA"; fingerprint = []; expires_at = none }

abbrev toy_io : CtlIo
toy_io = record {
  create_dir_all = λ d. ok tt;
  write_file = λ p b. ok tt;
  base64_encode = λ b. codes "MA";
  base64_decode = λ t. ok t;
}

abbrev exported_pem : Text
exported_pem = codes "-----BEGIN CERTIFICATE-----\nMA\n-----END CERTIFICATE-----\n"

two_exported :
    export toy_io (toy_realm (codes "../etc") ∷ toy_realm (codes "EX.ORG") ∷ []) (codes "/a") ≡ (
      ok (codes "[realms]\n EX.ORG = {\n  pkinit_anchors = FILE:/a/EX.ORG.pem\n }\n"),
      (codes "/a/EX.ORG.pem", exported_pem) ∷ [],
    )
unfolding export kurbu5_pkinit.Common.list_beq kurbu5_pkinit.Common.any
two_exported = refl

one_written :
    Has
      (codes "/a/EX.ORG.pem", exported_pem)
      (export toy_io (toy_realm (codes "../etc") ∷ toy_realm (codes "EX.ORG") ∷ []) (codes "/a")).1
unfolding export kurbu5_pkinit.Common.list_beq kurbu5_pkinit.Common.any
one_written = inl refl

export-inside_example :
    (r : TrustedRealm) × Has r (toy_realm (codes "../etc") ∷ toy_realm (codes "EX.ORG") ∷ [])
    × IsFilename r.realm
    × (codes "/a/EX.ORG.pem" ≡ anchor_path (codes "/a") r.realm)
export-inside_example =
    export-inside toy_io (toy_realm (codes "../etc") ∷ toy_realm (codes "EX.ORG") ∷ []) (codes "/a")
      (codes "/a/EX.ORG.pem", exported_pem) one_written

expiry_shown :
    format_expiry 0 93784
    ≡ (str "in " ∷ num 1 ∷ str "d" ∷ str " " ∷ num 2 ∷ str "h" ∷ str " " ∷ num 3 ∷ str "m" ∷ [])
unfolding format_expiry
expiry_shown = refl
