-- ===== src/Broker/Service.antt =====
-- pkinit-trust-brokerd/src/lib.rs, the varlink service, and kurbu5-pkinit/src/trust_broker_client.rs,
-- its client: certificates travel as base64. Sockets, the timeout and the log are left out.
use kurbu5_pkinit.Common.{
  Bool, Bytes, List, Option, Result, String, Text, [], collect, err, map, map_err, none, ok, refl,
  some, to_option, ℕ, ◌>>=◌, ◌∷◌, ◌≡◌,
}
use kurbu5_pkinit.Error.{Pkinit, PkinitError, because, str}
use kurbu5_pkinit.Synta.{Synta}
use kurbu5_pkinit.Crypto.{Crypto}
use kurbu5_pkinit.Client.State.{KdcTrustDecision, KdcTrustRequest, denied, trusted, unknown}
use kurbu5_pkinit.Broker.Pins.{Decision, PinStore, Prompter, TrustReply}
use kurbu5_pkinit.Broker.Decide.{Texts, decide}

pub data KdcTrustError : Type 0 where
  invalid_request internal : String → KdcTrustError

unfoldable pub decode_all : Texts → List Text → Option (List Bytes)
decode_all t items = to_option (collect t.b64_decode items)

-- `VarlinkTrustBroker::request_trust` on the reply. An anchor that is no base64 is an error.
unfoldable pub decision_of_reply : Texts → TrustReply → Pkinit KdcTrustDecision
decision_of_reply t reply = elim reply.decision [
  | Decision.trusted ↦ do
    anchors ←
        map_err (collect t.b64_decode reply.anchors)
          (λ e. PkinitError.config (because "trust broker anchor b64" e))
    ok (trusted anchors)
  | Decision.denied ↦ ok (denied (str (elim reply.reason [ some r ↦ r | none ↦ "denied" ]) ∷ []))
  | Decision.unknown ↦ ok unknown
]

module _ {H : Type 0} (synta : Synta) (crypto : Crypto H) (texts : Texts) (now : ℕ)
    (client_pid : Option ℕ) (prompter : Prompter) where
  -- `Broker::request_trust`; the store stays as it is when the request does not decode.
  unfoldable pub serve_request_trust :
      PinStore → Text → Text → Text → List Text → Bool → Result KdcTrustError TrustReply × PinStore
  serve_request_trust s realm kdc_principal signer_cert presented_certs interactive =
      elim (texts.b64_decode signer_cert) [
        | err _ ↦ (err (invalid_request "signer_cert not base64"), s)
        | ok signer ↦ elim (decode_all texts presented_certs) [
          | none ↦ (err (invalid_request "presented_certs not base64"), s)
          | some presented ↦
              let (reply, d, _) =
                decide synta crypto texts now s realm kdc_principal client_pid signer presented
                  interactive prompter in
              (ok reply, d)
        ]
      ]

  -- The client's request over the wire, when the connection holds.
  unfoldable pub varlink_request_trust :
      PinStore → KdcTrustRequest → Pkinit KdcTrustDecision × PinStore
  varlink_request_trust s req =
      let (answer, d) =
        serve_request_trust s req.realm req.kdc_principal (texts.b64_encode req.signer_cert_der)
          (map texts.b64_encode req.presented_certs_der) req.interactive in
      (
        elim answer [
          | err _ ↦ err (PkinitError.config (str "trust broker error" ∷ []))
          | ok reply ↦ decision_of_reply texts reply
        ],
        d,
      )

  module _ (b64 : (b : Bytes) → texts.b64_decode (texts.b64_encode b) ≡ ok b) where
    pub collect-b64 : (bs : List Bytes) → collect texts.b64_decode (map texts.b64_encode bs) ≡ ok bs
    unfolding collect
    collect-b64 [] = refl
    collect-b64 (b ∷ bs) = rw (b64 b, collect-b64 bs) refl

    serve-b64 :
        (s : PinStore) (realm kdc_principal : Text) (signer : Bytes) (presented : List Bytes)
        (interactive : Bool)
        → serve_request_trust s realm kdc_principal
            (texts.b64_encode signer)
            (map texts.b64_encode presented)
            interactive
          ≡ (
            ok
                (decide synta crypto texts now s realm kdc_principal client_pid signer presented
                  interactive prompter).0,
            (decide synta crypto texts now s realm kdc_principal client_pid signer presented
                interactive prompter).1,
          )
    unfolding serve_request_trust decode_all
    serve-b64 s realm kdc_principal signer presented interactive =
        rw (b64 signer, serve_request_trust) (rw (collect-b64 presented) refl)

    -- Over a base64 that decodes what it encodes, the client's request is the broker's decision on the
    -- certificates themselves: no request is refused or altered on the way.
    pub varlink_request_trust-decide :
        (s : PinStore) (req : KdcTrustRequest)
        → varlink_request_trust s req ≡ (
          decision_of_reply texts
              (decide synta crypto texts now s req.realm req.kdc_principal client_pid
                req.signer_cert_der req.presented_certs_der req.interactive prompter).0,
          (decide synta crypto texts now s req.realm req.kdc_principal client_pid
              req.signer_cert_der req.presented_certs_der req.interactive prompter).1,
        )
    unfolding varlink_request_trust
    varlink_request_trust-decide s req =
        rw
          (serve-b64 s req.realm req.kdc_principal req.signer_cert_der req.presented_certs_der
            req.interactive)
          refl
