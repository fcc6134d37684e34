-- ===== src/Examples/Receiving.antt =====
-- The theorems on receiving credentials, at concrete values.
use openvino_wallet.Issuance.PreAuth.Calls.{pre_auth_credential_response-AtMost}
use openvino_wallet.Issuance.Request.Retry.{AtMost, get_credential_response-AtMost}
use openvino_wallet.Base.{
  map, ◌++◌, List, String, [], false, length, none, ◌∷◌, ◌≡◌, some, ◌⊎◌, refl, ◌↔◌, arith,
  Bool-cases, str_eq, inl, inr, true,
}
use openvino_wallet.Examples.{
  configuration, definition, answering, metadata, no_world, decoder, resolver, url,
}
use openvino_wallet.Issuance.Request.{
  sign_token, Order, Wanted, fetch_credentials, create_claims_proof, fetch_credential,
  create_credential_request_body, get_credential_response,
}
use openvino_wallet.Issuance.Model.{
  Credential, CredentialOffer, CredentialResponse, ErrorResponse, ExchangedToken, External,
  Interaction, Session, Signer, credential_accepted, read_source, on_world,
}
use openvino_wallet.Http.{
  OauthConfig, configured, reply, readable, do_context, send, to_response, log_metrics, read_all,
}
use openvino_wallet.Run.Rules.{Returns}
use openvino_wallet.Run.Success.{Ensures, IsPanic, IsRejected}
use openvino_wallet.Issuance.Issuer.{IssuerSession}
use openvino_wallet.Issuance.PreAuth.{
  PreAuthOptions, fill_responses, request_credential_with_pre_auth, pre_auth_credential_response,
  request_with_proof, pre_auth_attempt,
}
use openvino_wallet.Issuance.Acknowledgment.{AckState, acknowledge_issuer}
use openvino_wallet.Issuance.Offer.Laws.{
  AllDefined, AllFrom, determine_credential_parameters-crash, one_more, none_left,
  determine_credential_parameters-AllFrom,
}
use openvino_wallet.Errors.{as_invalid_proof, plain, GoError}
use openvino_wallet.Issuance.Interaction.{
  populate_issuer_metadata, request_access_token, the_metadata, UrlRequest,
}
use openvino_wallet.Issuance.Grants.{
  Grants, determine_issuer_grant_capabilities, authorization_code_grant_type,
  process_authorization_code_grant_params,
}
use openvino_wallet.IssuerMetadata.{Metadata}
use openvino_wallet.Issuance.Offer.{determine_credential_parameters}
use openvino_wallet.Base.Json.{pos, text}
use openvino_wallet.Issuance.Interaction.Laws.{IsGranted, IsRefused, request_access_token-IsGranted}
use openvino_wallet.Issuance.Trust.Laws.{IsVerified, verify_issuer-IsVerified}
use openvino_wallet.Issuance.Request.Laws.{AreFetched, fetch_credentials-AreFetched}
use openvino_wallet.Issuance.Acknowledgment.Laws.{
  Popped, IsAcknowledged, AtMostOne, acknowledge_issuer-pops,
}
use openvino_wallet.Issuance.Failures.{process_credential_error_response}
use openvino_wallet.Run.{◌>>◌, crash, ok, err, final, steps, done, fail, ◌>>=◌}
use openvino_wallet.Issuance.Grants.Laws.{AreListed, determine_issuer_grant_capabilities-AreListed}
use openvino_wallet.Issuance.Trust.{verify_issuer}
use openvino_wallet.Issuance.Failures.Laws.{AsksForProof, process_credential_error_response-asks}
use openvino_wallet.Issuance.Interaction.Cache.{populate_issuer_metadata-again}
use openvino_wallet.Issuance.Wallet.{
  WalletSession, create_wallet_authorization_url, request_credential,
}
use openvino_wallet.Issuance.Wallet.Laws.{IsOneOf, asked, request_credential-IsAsked}
use openvino_wallet.Issuance.PreAuth.Laws.{
  IsAllowed, fill_responses-crash, fill_responses-IsFilled, filled, zeros, holding,
  request_credential_with_pre_auth-IsAllowed, pre_auth_credential_response-stale,
}
use openvino_wallet.Issuance.Parse.Laws.{
  AreParsed, request_credential_with_auth-length, accept_responses-AreParsed,
}
use openvino_wallet.Issuance.Parse.{request_credential_with_auth, accept_responses}

abbrev credential_response : CredentialResponse
credential_response = record {
  credential = text "vc";
  transaction_id = "";
  c_nonce = "";
  c_nonce_expires_in = pos 0;
  ack_id = "ack-1";
}

abbrev token : ExchangedToken
token = record {
  access_token = "at";
  token_type = "Bearer";
  expiry = 60;
  refresh_token = "";
  extra_c_nonce = text "n1";
}

abbrev offer : CredentialOffer
offer = record {
  credential_issuer = "https://issuer.example";
  credential_configuration_ids = "degree" ∷ [];
  grants = (authorization_code_grant_type, []) ∷ [];
}

abbrev asking : ErrorResponse
asking = record {
  error = "invalid_proof";
  error_description = "stale";
  c_nonce = "n2";
  c_nonce_expires_in = pos 60;
}

abbrev credential : Credential
credential = record { id = "urn:vc"; subject_ids = [] }

abbrev outside : External
outside = record {
  network = answering "{}";
  decoder = decoder;
  resolver = resolver;
  now = λ n. n;
  uuid = λ n. "u";
  random_bytes = λ n. ok "bytes";
  add_seconds = λ t n. t;
  base64_url = λ s. s;
  sha256 = λ s. s;
  parse_url = λ s. ok url;
  auth_code_url = λ c s o. "https://issuer.example/authorize";
  exchange = λ calls c code verifier. ok token;
  encode_form = λ form. "form";
  marshal_details = λ d. ok "details";
  marshal_credential_request = λ r. ok "request";
  marshal_batch_request = λ r. ok "requests";
  marshal_acknowledgement = λ r. ok "ack";
  marshal_value = λ v. ok "vc";
  unmarshal_credential_offer = λ s. ok offer;
  unmarshal_credential_response = λ s. ok credential_response;
  unmarshal_batch_response = λ s. err (plain "no batch");
  unmarshal_token_response = λ s. err (plain "no token");
  unmarshal_error_response = λ s. ok asking;
  new_signed = λ headers claims signer. ok "jwt";
  serialize = λ jwt. ok jwt;
  new_verifier_error = none;
  parse_credential = λ checked s. ok credential;
  new_presentation = λ c. ok (record { id = ""; custom_fields = []; credential = c });
  presentation_claims = λ audience p. ok [];
}

abbrev config : OauthConfig
config = record {
  client_id = "wallet";
  auth_url = "";
  token_url = "";
  redirect_url = "https://wallet.example/cb";
  scopes = [];
}

-- An interaction that has created its authorization URL.
abbrev interaction : Interaction
interaction = record {
  issuer_uri = "https://issuer.example";
  client_id = "wallet";
  disable_vc_proof_checks = false;
  issuer_metadata = some (metadata (some "did:ion:1#key"));
  oauth2_config = some config;
  auth_token_response_nonce = text "n1";
  auth_token = none;
  auth_code_url_state = "s1";
  code_verifier = "v1";
  requested_acknowledgment = none;
}

abbrev session : Session
session = record { world = no_world; interaction = interaction }

redirected : String
redirected = "https://wallet.example/cb?code=c1&state=s1"

request_access_token-IsGranted_example :
    Returns
      (λ _ t. IsGranted outside redirected session t)
      (λ e t. IsRefused outside redirected session t)
      (request_access_token outside redirected session)
request_access_token-IsGranted_example =
    request_access_token-IsGranted outside redirected session (λ h e. cc e)

verify_issuer-IsVerified_example :
    Returns (IsVerified outside session) (λ e u. Unit {0}) (verify_issuer outside session)
verify_issuer-IsVerified_example = verify_issuer-IsVerified outside session

abbrev order : Order
order = record {
  client = configured;
  headers = [];
  proof_jwt = "jwt";
  formats = "jwt_vc_json" ∷ "jwt_vc_json" ∷ [];
  contexts = [] ∷ [] ∷ [];
  total = 2;
}

abbrev two_types : List (List String)
two_types = ("A" ∷ []) ∷ ("B" ∷ []) ∷ []

fetch_credentials-AreFetched_example :
    Ensures
      (λ responses t. AreFetched responses 2 session t)
      (fetch_credentials outside order 0 two_types session)
fetch_credentials-AreFetched_example =
    fetch_credentials-AreFetched outside order 0 two_types session

abbrev signer : Signer
signer = record { key_id = "did:key:1#k"; name = "k" }

abbrev wanted : Wanted
wanted = record { formats = "jwt_vc_json" ∷ []; types = ("A" ∷ []) ∷ []; contexts = [] ∷ [] }

abbrev issuer_session : IssuerSession
issuer_session = record {
  world = no_world;
  flow = record {
    interaction = interaction;
    credential_types = ("A" ∷ []) ∷ [];
    credential_formats = "jwt_vc_json" ∷ [];
    credential_config_ids = "degree" ∷ [];
    credential_contexts = [] ∷ [];
    pre_authorized_code_grant_params = some (record {
      pre_authorized_code = "code";
      tx_code = some (record { input_mode = "numeric"; length = pos 4; description = "" });
    });
    authorization_code_grant_params = none;
    auth_token = none;
  };
}

abbrev with_pin : PreAuthOptions
with_pin = record { pin = "1234"; attestation_vp_signer = signer; attestation_vc = "" }

request_credential_with_pre_auth-IsAllowed_example :
    IsRejected issuer_session
      (request_credential_with_pre_auth outside signer with_pin issuer_session)
    ⊎ IsAllowed signer with_pin issuer_session
request_credential_with_pre_auth-IsAllowed_example =
    request_credential_with_pre_auth-IsAllowed outside signer with_pin issuer_session

abbrev ack_state : AckState
ack_state = record {
  world = no_world;
  acknowledgment = record {
    ack_ids = "ack-1" ∷ "ack-2" ∷ [];
    credential_ack_endpoint = "https://issuer.example/ack";
    issuer_uri = "https://issuer.example";
    auth_token = some (record {
      access_token = "at";
      token_type = "Bearer";
      expires_at = 60;
      refresh_token = "";
    });
    interaction_details = none;
  };
}

acknowledge_issuer-pops_example :
    Returns
      (λ _ t.
        Popped ("ack-2" ∷ []) ack_state t
        × IsAcknowledged outside t.acknowledgment credential_accepted "ack-1" no_world t.world)
      (λ e t. Popped ("ack-2" ∷ []) ack_state t × AtMostOne no_world t.world)
      (acknowledge_issuer outside credential_accepted ack_state)
acknowledge_issuer-pops_example =
    acknowledge_issuer-pops outside credential_accepted ack_state "ack-1" ("ack-2" ∷ []) refl
      (λ e. cc e)

all_defined : AllDefined (metadata none)
all_defined id c found undefined = elim (Bool-cases (str_eq "degree" id)) [
  | inl same ↦ ground arith
  | inr other ↦ ground arith
]

determine_credential_parameters-AllFrom_example :
    Returns
      (λ p t. (t ≡ no_world) × AllFrom (metadata none) ("degree" ∷ []) p.types p.formats p.contexts)
      (λ e t. t ≡ no_world)
      (determine_credential_parameters offer (metadata none) no_world)
determine_credential_parameters-AllFrom_example =
    determine_credential_parameters-AllFrom offer (metadata none) no_world all_defined

process_credential_error_response-asks_example :
    (as_invalid_proof (process_credential_error_response outside 400 "{}") ≡ some "n2")
    ↔ AsksForProof outside "{}" "n2"
process_credential_error_response-asks_example =
    process_credential_error_response-asks outside 400 "{}" "n2"

populate_issuer_metadata-again_example :
    (populate_issuer_metadata outside "a" >> populate_issuer_metadata outside "b") session
    ≡ populate_issuer_metadata outside "a" session
populate_issuer_metadata-again_example = populate_issuer_metadata-again outside "a" "b" session

abbrev grants : Grants
grants = record { pre_authorized = none; authorization = some (record { issuer_state = none }) }

determine_issuer_grant_capabilities-AreListed_example : AreListed offer grants
unfolding determine_issuer_grant_capabilities process_authorization_code_grant_params
determine_issuer_grant_capabilities-AreListed_example =
    determine_issuer_grant_capabilities-AreListed offer grants refl

fill_responses-IsFilled_example :
    fill_responses (some "n") (some (pos 60)) 2 (credential_response ∷ []) session
    ≡ done
        (map (filled "n" (pos 60)) (credential_response ∷ []) ++ zeros 1)
        (holding (credential_response ∷ []) session)
fill_responses-IsFilled_example =
    fill_responses-IsFilled "n" (pos 60) 2 1 (credential_response ∷ []) session (omega arith)

fill_responses-crash_example :
    IsPanic (fill_responses (some "n") (some (pos 60)) 0 (credential_response ∷ []) session)
fill_responses-crash_example =
    fill_responses-crash "n" (pos 60) 0 (credential_response ∷ []) session (omega arith)

-- The second configuration of the offer has no definition.
abbrev undefined_metadata : Metadata
undefined_metadata = record (metadata none) {
  credential_configurations_supported =
      ("degree", configuration)
      ∷ ("badge", record configuration { credential_definition = none })
      ∷ [];
}

abbrev undefined_offer : CredentialOffer
undefined_offer = record offer { credential_configuration_ids = "degree" ∷ "badge" ∷ [] }

degree_first :
    AllFrom undefined_metadata ("degree" ∷ []) (definition.type ∷ []) ("jwt_vc_json" ∷ []) ([] ∷ [])
degree_first =
    one_more
      (record {
        configuration = configuration;
        offered = refl;
        definition = definition;
        defined = refl;
        same_types = refl;
        same_format = refl;
        supported = refl;
        same_context = refl;
      })
      none_left

determine_credential_parameters-crash_example :
    determine_credential_parameters undefined_offer undefined_metadata no_world ≡ crash no_world
determine_credential_parameters-crash_example =
    determine_credential_parameters-crash undefined_offer undefined_metadata ("degree" ∷ []) "badge"
      [] no_world (record configuration { credential_definition = none }) refl degree_first refl
      refl

-- An issuer that rejects each proof.
abbrev rejecting : External
rejecting = record outside {
  network = record (answering "{}") { answer = λ calls client request. reply 400 (readable "{}") };
}

abbrev proved_session : Session
proved_session = record { world = record no_world { ticks = 1 }; interaction = interaction }

abbrev rejected_session : Session
rejected_session = final (request_with_proof rejecting wanted "at" "jwt" proved_session)

abbrev rejection : GoError
rejection = process_credential_error_response rejecting 400 "{}"

claims_proved : create_claims_proof rejecting (text "n1") signer session ≡ done "jwt" proved_session
unfolding create_claims_proof sign_token steps read_source
claims_proved = refl

request_rejected :
    request_with_proof rejecting wanted "at" "jwt" proved_session ≡ fail rejection rejected_session
unfolding request_with_proof fetch_credentials fetch_credential create_credential_request_body
    the_metadata on_world do_context send to_response log_metrics read_all steps
request_rejected = refl

rejection_asks : as_invalid_proof rejection ≡ some "n2"
unfolding as_invalid_proof process_credential_error_response
rejection_asks = refl

-- The rejected nonce is used again, and not the fresh one.
nonce_used_again :
    pre_auth_credential_response rejecting signer wanted "at" (text "n1") session
    ≡ pre_auth_attempt rejecting signer wanted "at" (text "n1") rejected_session
nonce_used_again =
    pre_auth_credential_response-stale rejecting signer wanted "at" (text "n1") session
      proved_session rejected_session "jwt" "n2" rejection claims_proved request_rejected
      rejection_asks

-- Both attempts are made there.
pre_auth_credential_response-AtMost_example :
    AtMost 2 session
      (final (pre_auth_credential_response rejecting signer wanted "at" (text "n1") session))
pre_auth_credential_response-AtMost_example =
    pre_auth_credential_response-AtMost rejecting signer wanted "at" (text "n1") session

abbrev with_token_session : Session
with_token_session = record session {
  interaction = record interaction {
    auth_token = some (record {
      access_token = "at";
      token_type = "Bearer";
      expires_at = 60;
      refresh_token = "";
    });
  };
}

get_credential_response-AtMost_example :
    AtMost 2 with_token_session
      (final (get_credential_response rejecting signer wanted (text "n1") true with_token_session))
get_credential_response-AtMost_example =
    get_credential_response-AtMost rejecting signer wanted (text "n1") with_token_session

accept_responses-AreParsed_example :
    Ensures
      (λ vcs t. AreParsed outside false (credential_response ∷ []) vcs)
      (accept_responses outside (credential_response ∷ []) session)
accept_responses-AreParsed_example =
    accept_responses-AreParsed outside (credential_response ∷ []) session

request_credential_with_auth-length_example :
    Ensures
      (λ vcs t. length vcs ≡ 1)
      (request_credential_with_auth outside signer wanted with_token_session)
request_credential_with_auth-length_example =
    request_credential_with_auth-length outside signer wanted with_token_session

abbrev url_request : UrlRequest
url_request = record {
  client_id = "wallet";
  redirect_uri = "https://wallet.example/cb";
  format = "jwt_vc_json";
  types = "A" ∷ [];
  context = [];
  issuer_state = none;
  scopes = [];
  use_discoverable_scheme = false;
}

abbrev wallet_session : WalletSession
wallet_session = record {
  world = no_world;
  flow = record {
    interaction = interaction;
    credential_format = "";
    credential_types = [];
    credential_context = [];
  };
}

request_credential-IsAsked_example :
    Ensures
      (λ vcs u.
        (url : String) × (t : WalletSession) × (create_wallet_authorization_url outside url_request
            wallet_session
          ≡ done url t)
        × IsOneOf outside signer redirected (asked url_request) t vcs u)
      ((create_wallet_authorization_url outside url_request >>= λ url.
          request_credential outside signer redirected)
        wallet_session)
request_credential-IsAsked_example =
    request_credential-IsAsked outside signer url_request (λ url. redirected) wallet_session
