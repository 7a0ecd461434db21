-- ===== src/Examples/Clients.antt =====
-- Runs of a client that requires a KEM.
use kurbu5_pkinit.Common.{
  Bytes, Has, List, [], err, false, filter_map, none, ok, refl, some, true, ◌∷◌, ◌≡◌, ◌≢◌, ◌≤◌, ◌⊎◌,
}
use kurbu5_pkinit.Common.Int.{pos, ℤ}
use kurbu5_pkinit.Error.{Pkinit, kem_decap_failed, str}
use kurbu5_pkinit.Constants.{KemAlgorithm, kem, ml_kem1024, ml_kem768, strength_order}
use kurbu5_pkinit.KemTypes.{pa_pk_as_rep_kem_tag, parse_pkinit_hint}
use kurbu5_pkinit.Identity.Store.{new_store}
use kurbu5_pkinit.Kem.{KemKeyPair}
use kurbu5_pkinit.Kdf.{DerivedKey, zeros}
use kurbu5_pkinit.Client.State.{PkinitClientState, new_client, set_freshness_token}
use kurbu5_pkinit.Client.Negotiate.{
  Offered, accepts, handle_tryagain_typed_data, process_pkinit_hint, recognize, retry_action,
}
use kurbu5_pkinit.Client.Request.{build_as_req}
use kurbu5_pkinit.Client.Reply.{AsRepParams, answer_kem_rep, process_kem_rep}
use kurbu5_pkinit.Client.Accepted.{IsAcceptedKemReply, answer_kem_rep-IsAcceptedKemReply}
use kurbu5_pkinit.Client.Offers.{IsRetry, planned}
use kurbu5_pkinit.Client.Downgrade.{KeyFits}
use kurbu5_pkinit.Client.Sent.{build_as_req-IsSent}
use kurbu5_pkinit.Client.Keys.{IsSent}
use kurbu5_pkinit.Client.Next.{handle_tryagain-IsSent, process_pkinit_hint-IsSent}
use kurbu5_pkinit.Client.Once.{after, process_kem_rep-once, rest}
use kurbu5_pkinit.Client.Exchange.{Reaches-no_downgrade, freshness, least_strength, stay}
use kurbu5_pkinit.Examples.Toy.{
  oid, strict_client, strict_config, toy_cms, toy_crypto, toy_identity, toy_o2k, toy_synta,
}

abbrev toy_request : Pkinit Bytes × PkinitClientState Bytes
toy_request =
    build_as_req toy_synta toy_crypto toy_cms 5 6 (pos 7) (pos 1000) (pos 0) (oid 60) strict_client

request_built : toy_request.0 ≡ ok (2 ∷ 50 ∷ [])
unfolding build_as_req kurbu5_pkinit.Common.Action.◌>>=◌
    kurbu5_pkinit.Client.Authpack.request_authenticator kurbu5_pkinit.Checksum.generate_checksums
    kurbu5_pkinit.Common.list_beq kurbu5_pkinit.Client.Request.check_exchange
    kurbu5_pkinit.Client.State.new_client kurbu5_pkinit.Client.Request.request_key
    kurbu5_pkinit.Kem.generate_kem kurbu5_pkinit.Constants.composite_sub_arc
    kurbu5_pkinit.Kem.kem_spki_der kurbu5_pkinit.Client.Request.finish_as_req
    kurbu5_pkinit.Client.Authpack.request_kdfs kurbu5_pkinit.Common.collect
    kurbu5_pkinit.Client.Authpack.sign_auth_pack
request_built = refl

no_kept_key : KeyFits strict_client
unfolding new_client
no_kept_key key e n = cc

build_as_req-IsSent_example :
    IsSent toy_synta toy_crypto toy_cms (planned strict_client) (2 ∷ 50 ∷ []) toy_request.1
    × (strict_client.config.require_kem ≡ true
        → (alg : KemAlgorithm) × (planned strict_client ≡ kem alg))
build_as_req-IsSent_example =
    build_as_req-IsSent toy_synta toy_crypto toy_cms 5 6 (pos 7) (pos 1000) (pos 0) (oid 60)
      strict_client no_kept_key request_built

Reaches-no_downgrade_example :
    (o : Offered) × IsSent toy_synta toy_crypto toy_cms o (2 ∷ 50 ∷ []) toy_request.1
    × (strict_config.require_kem ≡ true → (alg : KemAlgorithm) × (o ≡ kem alg))
    × ((alg : KemAlgorithm) → o ≡ kem alg → least_strength strict_config ≤ strength_order alg)
Reaches-no_downgrade_example =
    Reaches-no_downgrade toy_synta toy_crypto toy_cms toy_o2k toy_identity new_store strict_config
      strict_client (stay strict_client) 5 6 (pos 7) (pos 1000) (pos 0) (oid 60) (2 ∷ 50 ∷ [])
      request_built

abbrev toy_key : KemKeyPair Bytes
toy_key = record { algorithm = ml_kem768; private_key = oid 5 }

abbrev toy_params : AsRepParams
toy_params = record {
  nonce = pos 7;
  enctype = pos 18;
  as_req_der = oid 60;
  pa_rep_raw = [];
  client_name = [];
  server_name = [];
}

-- [2] 1093: the first octet of the signed data, the nonce, and the ciphertext.
abbrev toy_reply : Bytes
toy_reply = pa_pk_as_rep_kem_tag ∷ 130 ∷ 4 ∷ 66 ∷ 1 ∷ 7 ∷ zeros 1088

abbrev toy_derived : DerivedKey
toy_derived = record { enctype = pos 18; key_data = oid 42 }

reply_answered :
    answer_kem_rep toy_synta toy_crypto toy_cms toy_o2k 0 strict_client toy_reply toy_params toy_key
    ≡ ok toy_derived
unfolding answer_kem_rep kurbu5_pkinit.KemTypes.decode_kem_rep_content
    kurbu5_pkinit.KemTypes.is_kem_rep kurbu5_pkinit.KemTypes.der_parse_length
    kurbu5_pkinit.KemTypes.length_octets kurbu5_pkinit.Kdf.zeros
    kurbu5_pkinit.Client.Reply.verify_kem_signed_data kurbu5_pkinit.Examples.Toy.toy_verify
    kurbu5_pkinit.Examples.Toy.toy_info_from_der kurbu5_pkinit.Common.list_beq
    kurbu5_pkinit.Client.State.has_pq_certificate kurbu5_pkinit.Client.State.new_client
    kurbu5_pkinit.Client.State.is_pq_signing_certificate
    kurbu5_pkinit.Client.State.is_pq_signature_algorithm kurbu5_pkinit.Client.State.with_default_kem
    kurbu5_pkinit.Client.Trust.validate_kdc_chain kurbu5_pkinit.Client.Trust.establish_trust
    kurbu5_pkinit.Identity.Store.validate_chain kurbu5_pkinit.Common.collect
    kurbu5_pkinit.Common.any kurbu5_pkinit.Certauth.verify_kdc_eku
    kurbu5_pkinit.Certauth.lacks_digital_signature kurbu5_pkinit.San.extract_eku_oids
    kurbu5_pkinit.San.extract_key_usage kurbu5_pkinit.Client.Reply.check_kem_info
    kurbu5_pkinit.Client.Reply.check_nonce kurbu5_pkinit.Common.Int.ℤ_beq
    kurbu5_pkinit.Constants.ciphertext_len kurbu5_pkinit.Constants.is_composite
    kurbu5_pkinit.Constants.kem_oid kurbu5_pkinit.Kdf.pkinit_kem_kdf kurbu5_pkinit.Kem.decapsulate
    kurbu5_pkinit.KemTypes.as_i32 kurbu5_pkinit.KemTypes.decode_nonce
    kurbu5_pkinit.KemTypes.nonce_of_i64
reply_answered = refl

answer_kem_rep-IsAcceptedKemReply_example :
    IsAcceptedKemReply toy_synta toy_crypto toy_cms toy_o2k 0 strict_client toy_reply toy_params
      toy_key toy_derived
answer_kem_rep-IsAcceptedKemReply_example =
    answer_kem_rep-IsAcceptedKemReply toy_synta toy_crypto toy_cms toy_o2k 0 strict_client toy_reply
      toy_params toy_key toy_derived reply_answered

-- The client that built the request holds the key of its reply.
abbrev waiting_client : PkinitClientState Bytes
waiting_client = record strict_client { kem_key = some toy_key }

process_kem_rep-once_example :
    (process_kem_rep toy_synta toy_crypto toy_cms toy_o2k 1
      (set_freshness_token
        (process_kem_rep toy_synta toy_crypto toy_cms toy_o2k 0 waiting_client toy_reply
          toy_params).1
        (oid 8))
      toy_reply
      toy_params).0
    ≡ err (kem_decap_failed (str "no KEM key generated for this exchange" ∷ []))
process_kem_rep-once_example =
    process_kem_rep-once toy_synta toy_crypto toy_cms toy_o2k 0 1 waiting_client
      (set_freshness_token
        (process_kem_rep toy_synta toy_crypto toy_cms toy_o2k 0 waiting_client toy_reply
          toy_params).1
        (oid 8))
      toy_reply toy_reply toy_params toy_params
      (after _ _ _
        (freshness
          (process_kem_rep toy_synta toy_crypto toy_cms toy_o2k 0 waiting_client toy_reply
            toy_params).1
          (oid 8))
        (rest _))

-- The KDC asks for ML-KEM-1024.
abbrev toy_typed : List (ℤ × Bytes)
toy_typed = (pos 109, oid 3) ∷ []

typed_retry :
    (handle_tryagain_typed_data toy_synta strict_client toy_typed).0
    ≡ ok (retry_action (kem ml_kem1024))
unfolding handle_tryagain_typed_data kurbu5_pkinit.Common.Int.ℤ_beq
    kurbu5_pkinit.Client.Negotiate.parse_td_offered kurbu5_pkinit.Common.collect
    kurbu5_pkinit.KemTypes.offered_algorithm kurbu5_pkinit.Client.Negotiate.retry_choice
    kurbu5_pkinit.Common.find kurbu5_pkinit.Client.Negotiate.retry_offers
    kurbu5_pkinit.Common.filter filter_map recognize kurbu5_pkinit.Constants.from_oid
    kurbu5_pkinit.Common.list_beq kurbu5_pkinit.Common.option_beq
    kurbu5_pkinit.Client.State.new_client kurbu5_pkinit.Client.Negotiate.accepts
    kurbu5_pkinit.Constants.strength_order
typed_retry = refl

abbrev retrying : PkinitClientState Bytes
retrying = (handle_tryagain_typed_data toy_synta strict_client toy_typed).1

handle_tryagain-IsSent_example :
    let built =
      build_as_req toy_synta toy_crypto toy_cms 5 6 (pos 7) (pos 1000) (pos 0) (oid 60) retrying in
    IsRetry toy_synta strict_client toy_typed (kem ml_kem1024) retrying
    × (built.0 ≡ ok (2 ∷ 50 ∷ [])
        → IsSent toy_synta toy_crypto toy_cms (kem ml_kem1024) (2 ∷ 50 ∷ []) built.1)
handle_tryagain-IsSent_example =
    handle_tryagain-IsSent toy_synta toy_crypto toy_cms strict_client toy_typed (kem ml_kem1024) 5 6
      (pos 7) (pos 1000) (pos 0) (oid 60) (2 ∷ 50 ∷ []) typed_retry

abbrev toy_hint : Bytes
toy_hint = 0x30 ∷ 3 ∷ 0xA0 ∷ 1 ∷ 2 ∷ []

hint_parsed : parse_pkinit_hint toy_synta toy_hint ≡ ok ((oid 2, none) ∷ [])
unfolding parse_pkinit_hint kurbu5_pkinit.KemTypes.der_parse_length kurbu5_pkinit.Common.collect
    kurbu5_pkinit.KemTypes.offered_algorithm
hint_parsed = refl

process_pkinit_hint-IsSent_example :
    let r = process_pkinit_hint toy_synta strict_client toy_hint in
    let offers = filter_map (recognize toy_synta strict_client) ((oid 2, none) ∷ []) in
    let built =
      build_as_req toy_synta toy_crypto toy_cms 5 6 (pos 7) (pos 1000) (pos 0) (oid 60) r.1 in
    ((r.0 ≢ ok tt)
      × (r.1 ≡ strict_client)
      × ((o : Offered) → Has o offers → accepts toy_synta strict_client o ≡ false))
    ⊎ ((r.0 ≡ ok tt)
        × (o : Offered) × Has o offers
        × (accepts toy_synta strict_client o ≡ true)
        × (built.0 ≡ ok (2 ∷ 50 ∷ [])
            → IsSent toy_synta toy_crypto toy_cms o (2 ∷ 50 ∷ []) built.1))
process_pkinit_hint-IsSent_example =
    process_pkinit_hint-IsSent toy_synta toy_crypto toy_cms strict_client toy_hint
      ((oid 2, none) ∷ []) hint_parsed refl 5 6 (pos 7) (pos 1000) (pos 0) (oid 60) (2 ∷ 50 ∷ [])
