-- ===== src/Plugin/Process.antt =====
-- kurbu5-pkinit/src/client_plugin.rs: the callbacks of the client module that answer the KDC.
use kurbu5_pkinit.Common.{
  Bytes, List, Result, Text, [], err, if◌then◌else◌, is_empty, list_eq, nat_eq, none, ok, ok_or,
  option_eq, some, true, ℕ, ◌&&◌, ◌++◌, ◌==◌, ◌>>=◌, ◌||◌, ◌∷◌,
}
use kurbu5_pkinit.Common.Int.{negsuc, ℤ, ℤ_eq}
use kurbu5_pkinit.Common.Strings.{codes}
use kurbu5_pkinit.Error.{Pkinit, asn1}
use kurbu5_pkinit.Constants.{group_eq, kem_eq, to_ascii_lowercase}
use kurbu5_pkinit.Synta.{Synta}
use kurbu5_pkinit.Crypto.{Crypto}
use kurbu5_pkinit.Identity.Loader.{Outside}
use kurbu5_pkinit.Kdf.{OctetString2Key}
use kurbu5_pkinit.Cms.{Cms}
use kurbu5_pkinit.Client.State.{
  PkinitClientState, RetryAction, retry_with_dh_params, retry_with_kem_algorithm,
  set_freshness_token,
}
use kurbu5_pkinit.Client.Negotiate.{
  handle_tryagain_typed_data, is_some, offered_eq, process_pkinit_hint,
}
use kurbu5_pkinit.Client.Request.{build_as_req}
use kurbu5_pkinit.Client.Reply.{process_as_rep}
use kurbu5_pkinit.Plugin.{
  Krb5, Krb5Error, PaData, custom, no_handle, pa_as_freshness, pa_pk_as_rep, pa_pk_as_req,
  pa_pkinit_kx,
}
use kurbu5_pkinit.Plugin.Client.{ClientEnv, PkinitClient, Request, Step, finish_pending_pkcs12}

abbrev pub krb5_preauth_failed : ℤ
krb5_preauth_failed = negsuc 1765328173

-- The flags of a padata type, by the names that libkrb5 gives them.
pub data ClpreauthFlags : Type 0 where
  pa_real pa_info no_flags : ClpreauthFlags

unfoldable pub flags : ℤ → ClpreauthFlags
flags pa_type =
    if pa_type == pa_pk_as_req || pa_type == pa_pk_as_rep
    then pa_real
    else if pa_type == pa_pkinit_kx || pa_type == pa_as_freshness
    then pa_info
    else no_flags

-- `X509_user_identity` once, `X509_anchors` any number of times, and `disable_freshness`.
unfoldable pub supply_gic_opts : {H : Type 0} → PkinitClient H → Text → Text → Step H (Unit {0})
supply_gic_opts p attr value =
    if attr == codes "X509_user_identity"
    then (if is_some p.config.identity
        then (err (custom krb5_preauth_failed), p)
        else (ok tt, record p { config = record p.config { identity = some value } }))
    else if attr == codes "X509_anchors"
    then (ok tt, record p { config = record p.config { anchors = p.config.anchors ++ value ∷ [] } })
    else if attr == codes "disable_freshness"
        && (to_ascii_lowercase value == codes "yes"
            || to_ascii_lowercase value == codes "true"
            || to_ascii_lowercase value == codes "1")
    then (ok tt, record p { config = record p.config { disable_freshness = true } })
    else (ok tt, p)

-- Random draws of one request: the key's and the nonce's.
pub record Draws : Type 0 where
  pub key_draw : ℕ
  pub nonce_draw : ℕ

module _ {H : Type 0} (krb5 : Krb5) (synta : Synta) (crypto : Crypto H) (cms : Cms H)
    (o2k : OctetString2Key) (now : ℕ) (outside : Outside H) (env : ClientEnv H)
    (draws : Draws) where
  unfoldable pub build_pa_pk_as_req :
      PkinitClientState H → Request → Result Krb5Error (List PaData) × PkinitClientState H
  build_pa_pk_as_req c req = elim req.preauth_time [
    | err e ↦ (err e, c)
    | ok (ctime, cusec) ↦ elim req.encoded_request_body [
      | none ↦ (err (custom krb5.einval), c)
      | some body ↦
          let (built, sent) =
            build_as_req synta crypto cms draws.key_draw draws.nonce_draw req.nonce ctime cusec body
              c in
          elim built [
            | err _ ↦ (err (custom krb5.einval), sent)
            | ok der ↦ (ok (record { pa_type = pa_pk_as_req; contents = der } ∷ []), sent)
          ]
    ]
  ]

  -- What follows the hint: a hint that cannot be parsed is ignored, and one that offers nothing
  -- acceptable ends the attempt.
  unfoldable pub after_hint :
      Pkinit (Unit {0}) × PkinitClientState H
      → Request
      → Result Krb5Error (List PaData) × PkinitClientState H
  unfolding build_pa_pk_as_req
  after_hint (ok _, c) req = build_pa_pk_as_req c req
  after_hint (err (asn1 _), c) req = build_pa_pk_as_req c req
  after_hint (err _, c) req = (err (custom krb5.einval), c)

  unfoldable pub process_request :
      PkinitClientState H → Bytes → Request → Result Krb5Error (List PaData) × PkinitClientState H
  unfolding after_hint
  process_request c hint req =
      if is_empty hint
      then build_pa_pk_as_req c req
      else after_hint (process_pkinit_hint synta c hint) req

  -- The names of the request, with the client's first.
  unfoldable pub request_names : Request → Result Krb5Error (Text × Text)
  request_names req = do
    client ← ok_or req.client (custom krb5.einval)
    client_name ← krb5.unparse_principal client
    server ← ok_or req.server (custom krb5.einval)
    name ← krb5.unparse_principal server
    ok (client_name, name)

  unfoldable pub process_reply :
      PkinitClientState H → Bytes → Request → Result Krb5Error (List PaData) × PkinitClientState H
  unfolding request_names
  process_reply c pa_contents req =
      if is_empty pa_contents then (err (custom krb5.einval), c) else elim (request_names req) [
        | err e ↦ (err e, c)
        | ok (client_name, name) ↦
            let as_req = elim req.encoded_previous_request as (λ _. Bytes) [
              | none ↦ []
              | some der ↦ der
            ] in
            let (derived, after) = process_as_rep synta crypto cms o2k now c pa_contents (record {
              nonce = req.nonce;
              enctype = req.etype;
              as_req_der = as_req;
              pa_rep_raw = pa_contents;
              client_name = client_name;
              server_name = name;
            }) in
            elim derived [
              | err _ ↦ (err (custom krb5.einval), after)
              | ok key ↦ (req.set_as_key key >>= λ _. ok [], after)
            ]
      ]

  -- The arms of `process` for a module that has a client state, or none.
  unfoldable pub with_state :
      PkinitClient H
      → (PkinitClientState H → Result Krb5Error (List PaData) × PkinitClientState H)
      → Step H (List PaData)
  with_state p run = elim p.state [
    | none ↦ (err no_handle, p)
    | some c ↦ let (r, after) = run c in (r, record p { state = some after })
  ]

  unfoldable pub set_freshness : PkinitClient H → Bytes → PkinitClient H
  set_freshness p token = elim p.state [
    | none ↦ p
    | some c ↦ record p { state = some (set_freshness_token c token) }
  ]

  -- The match on the padata's type.
  unfoldable pub dispatch : PkinitClient H → PaData → Request → Step H (List PaData)
  unfolding with_state process_request process_reply set_freshness
  dispatch p pa req =
      if pa.pa_type == pa_pkinit_kx
      then (ok [], p)
      else if pa.pa_type == pa_as_freshness
      then (ok [], set_freshness p pa.contents)
      else if pa.pa_type == pa_pk_as_req
      then with_state p (λ c. process_request c pa.contents req)
      else if pa.pa_type == pa_pk_as_rep
      then with_state p (λ c. process_reply c pa.contents req)
      else (err no_handle, p)

  unfoldable pub process : PkinitClient H → PaData → Request → Step H (List PaData)
  unfolding finish_pending_pkcs12 dispatch
  process p pa req =
      let (finished, ready) = finish_pending_pkcs12 krb5 outside env p in
      elim finished [ err e ↦ (err e, ready) | ok _ ↦ dispatch ready pa req ]

  -- `tryagain`, on the (type, value) pairs of the error's typed data.
  unfoldable pub retry :
      Pkinit RetryAction × PkinitClientState H
      → Request
      → Result Krb5Error (List PaData) × PkinitClientState H
  unfolding build_pa_pk_as_req
  retry (ok (retry_with_kem_algorithm _), c) req = build_pa_pk_as_req c req
  retry (ok (retry_with_dh_params _), c) req = build_pa_pk_as_req c req
  retry (ok _, c) req = (err no_handle, c)
  retry (err _, c) req = (err (custom krb5.preauth_failed), c)

  unfoldable pub tryagain : PkinitClient H → List (ℤ × Bytes) → Request → Step H (List PaData)
  unfolding with_state retry
  tryagain p typed_data req =
      with_state p (λ c. retry (handle_tryagain_typed_data synta c typed_data) req)
