-- ===== src/Ctl.antt =====
-- pkinit-trust-ctl/src/lib.rs: listing the trusted realms, and exporting their anchors. The clock, the
-- file system and base64 are parameters; messages to the terminal are left out.
use kurbu5_pkinit.Common.{
  Bool, Bytes, List, Option, Result, Text, [], any, drop, err, false, if◌then◌else◌, is_empty, leb,
  length, list_eq, ltb, nat_eq, none, not, ok, option_eq, some, suc, take, zero, ℕ, ◌%◌, ◌&&◌, ◌++◌,
  ◌-◌, ◌/◌, ◌==◌, ◌>>=◌, ◌||◌, ◌∷◌,
}
use kurbu5_pkinit.Common.Strings.{codes}
use kurbu5_pkinit.Error.{Fault, Message, num, str, text}
use kurbu5_pkinit.Broker.Pins.{TrustedRealm}
pub mod Export

-- Days, hours and minutes of a number of seconds.
pub record Remaining : Type 0 where
  pub days : ℕ
  pub hours : ℕ
  pub minutes : ℕ

unfoldable pub split_seconds : ℕ → Remaining
split_seconds remaining = record {
  days = remaining / 86400;
  hours = (remaining % 86400) / 3600;
  minutes = (remaining % 3600) / 60;
}

unfoldable pub expiry_parts : Remaining → List Message
expiry_parts r =
    let large =
      (if ltb 0 r.days then (num r.days ∷ str "d" ∷ []) ∷ [] else [])
      ++ (if ltb 0 r.hours then (num r.hours ∷ str "h" ∷ []) ∷ [] else []) in
    if ltb 0 r.minutes || is_empty large
    then large ++ (num r.minutes ∷ str "m" ∷ []) ∷ []
    else large

-- `parts.join(" ")`
unfoldable pub join_spaces : List Message → Message
join_spaces [] = []
join_spaces (m ∷ []) = m
join_spaces (m ∷ n ∷ ms) = m ++ str " " ∷ join_spaces (n ∷ ms)

-- `now` is the system clock, in Unix seconds.
unfoldable pub format_expiry : ℕ → ℕ → Message
unfolding split_seconds expiry_parts join_spaces
format_expiry now expires_at =
    if leb expires_at now
    then str "expired" ∷ []
    else str "in " ∷ join_spaces (expiry_parts (split_seconds (expires_at - now)))

unfoldable pub is_safe_byte : ℕ → Bool
is_safe_byte c =
    leb b'0' c && leb c b'9'
    || leb b'A' c && leb c b'Z'
    || leb b'a' c && leb c b'z'
    || c == b'.'
    || c == b'-'
    || c == b'_'

unfoldable pub safe_filename : Text → Option Text
unfolding is_safe_byte
safe_filename realm =
    if not (is_empty realm)
      && not (realm == codes ".")
      && not (realm == codes "..")
      && not (any (λ c. not (is_safe_byte c)) realm)
    then some realm
    else none

-- `chunks(64)`, with fuel.
unfoldable pub chunks : ℕ → ℕ → Text → List Text
chunks fuel size [] = []
chunks zero size (c ∷ s) = (c ∷ s) ∷ []
chunks (suc fuel) size (c ∷ s) = take size (c ∷ s) ∷ chunks fuel size (drop size (c ∷ s))

unfoldable pub lines_of : List Text → Text
lines_of [] = []
lines_of (l ∷ ls) = l ++ 10 ∷ lines_of ls

unfoldable pub to_pem : (Bytes → Text) → Bytes → Text
unfolding chunks lines_of
to_pem encode der =
    let b64 = encode der in
    codes "-----BEGIN CERTIFICATE-----"
    ++ 10
      ∷ (lines_of (chunks (length b64) 64 b64) ++ (codes "-----END CERTIFICATE-----" ++ 10 ∷ []))

-- `Path::join` of a name that is not absolute.
unfoldable pub join_path : Text → Text → Text
join_path [] name = name
join_path (c ∷ s) name = if ends_with_slash (c ∷ s) then (c ∷ s) ++ name else (c ∷ s) ++ b'/' ∷ name
  where
    ends_with_slash : Text → Bool
    ends_with_slash [] = false
    ends_with_slash (x ∷ []) = x == b'/'
    ends_with_slash (x ∷ y ∷ more) = ends_with_slash (y ∷ more)

-- `{:<width}`, in bytes.
unfoldable pub pad_right : ℕ → Text → Text
pad_right zero s = s
pad_right (suc width) [] = b' ' ∷ pad_right width []
pad_right (suc width) (c ∷ s) = c ∷ pad_right width s

unfoldable pub list_line : ℕ → TrustedRealm → Message
unfolding pad_right format_expiry
list_line now r =
    text (pad_right 30 r.realm)
      ∷ str " "
      ∷ text (pad_right 64 r.fingerprint)
      ∷ str " "
      ∷ (elim r.expires_at [ none ↦ str "never" ∷ [] | some at ↦ format_expiry now at ])
    ++ str "\n" ∷ []

unfoldable pub list_lines : ℕ → List TrustedRealm → Message
unfolding list_line
list_lines now [] = []
list_lines now (r ∷ rs) = list_line now r ++ list_lines now rs

unfoldable pub render_list : ℕ → List TrustedRealm → Message
unfolding list_lines pad_right
render_list now [] = str "(no realms currently trusted)\n" ∷ []
render_list now (r ∷ rs) =
    text (pad_right 30 (codes "REALM"))
    ∷ str " "
    ∷ text (pad_right 64 (codes "FINGERPRINT (SHA-256)"))
    ∷ str " EXPIRES\n"
    ∷ list_lines now (r ∷ rs)

-- A file that was written: its path and its content.
abbrev pub Written : Type 0
Written = Text × Text

pub record CtlIo : Type 0 where
  pub create_dir_all : Text → Result Fault (Unit {0})
  pub write_file : Text → Text → Result Fault (Unit {0})
  pub base64_encode : Bytes → Text
  pub base64_decode : Text → Result Fault Bytes

unfoldable pub anchor_path : Text → Text → Text
unfolding join_path
anchor_path dir filename = join_path dir (filename ++ codes ".pem")

unfoldable pub realm_snippet : Text → Text → Text
realm_snippet realm cert_path =
    codes " "
    ++ (realm
        ++ (codes " = {\n" ++ (codes "  pkinit_anchors = FILE:" ++ (cert_path ++ codes "\n }\n"))))

-- The loop: the text that is added to the snippet, and the files that were written, also those before
-- an error.
unfoldable pub export_realms : CtlIo → Text → List TrustedRealm → Result Fault Text × List Written
unfolding safe_filename to_pem anchor_path realm_snippet
export_realms outside dir [] = (ok [], [])
export_realms outside dir (r ∷ rs) =
    let (rest, written) = export_realms outside dir rs in
    elim (safe_filename r.realm) [
      | none ↦ (rest, written)
      | some filename ↦ elim (outside.base64_decode r.ca_der) [
        | err e ↦ (err e, [])
        | ok der ↦
            let cert_path = anchor_path dir filename in
            let pem = to_pem outside.base64_encode der in
            elim (outside.write_file cert_path pem) [
              | err e ↦ (err e, [])
              | ok _ ↦ (
                rest >>= λ more. ok (realm_snippet r.realm cert_path ++ more),
                (cert_path, pem) ∷ written,
              )
            ]
      ]
    ]

unfoldable pub export : CtlIo → List TrustedRealm → Text → Result Fault Text × List Written
unfolding export_realms
export outside realms dir = elim (outside.create_dir_all dir) [
  | err e ↦ (err e, [])
  | ok _ ↦
      let (snippet, written) = export_realms outside dir realms in
      (snippet >>= λ more. ok (codes "[realms]\n" ++ more), written)
]
