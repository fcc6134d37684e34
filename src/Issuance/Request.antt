-- ===== src/Issuance/Request.antt =====
-- The credential half of pkg/openid4ci/interaction.go: the proof of possession, the credential
-- requests and their retry, and parsing the credentials.
pub mod Laws
pub mod Retry
use Prim.Native.String.{◌++◌}
use openvino_wallet.Base.{
  ℕ, suc, ◌+◌, String, Bool, true, false, Option, none, some, List, [], ◌∷◌, get_elem?, append,
  decimal, length, is_empty, if◌then◌else◌, map,
}
use openvino_wallet.Base.Json.{Value, text, number, pos}
use openvino_wallet.Errors.{GoError, plain, wrapped, wallet, new_execution_error, as_invalid_proof}
use openvino_wallet.Run.{
  Run, done, fail, crash, M, ◌>>=◌, ◌>>◌, give, throw, gets, modify, deref, fail_with, lift,
  on_error, Result, ok, err,
}
use openvino_wallet.Http.{Client, with_token, MetricsEvent, do_context, log_metrics, log_activity}
use openvino_wallet.Issuance.Model.{
  External, Interaction, Session, CredentialRequest, CredentialResponse, Credential, Claims, Signer,
  error_module, on_world, set_interaction, read_source,
}
use openvino_wallet.Issuance.Failures.{process_credential_error_response}
use openvino_wallet.Issuance.Interaction.{the_metadata}

abbrev pub request_event_text : String
request_event_text = "Request credential(s) from issuer"

-- `signToken` of issuerinitiatedinteraction.go.
unfoldable pub sign_token : {S : Type 0} → External → Claims → Signer → M S String
sign_token ext claims signer = do
  jwt ←
      on_error (lift (ext.new_signed (("typ", text "openid4vci-proof+jwt") ∷ []) claims signer))
        (wrapped "sign token failed")
  on_error (lift (ext.serialize jwt)) (wrapped "serialize token failed")

-- The claims of the proof; `iss` is only used in the authorization code flow.
unfoldable pub proof_claims : Interaction → ℕ → Value → Claims
proof_claims i time nonce =
    let claims = ("aud", text i.issuer_uri) ∷ ("iat", number (pos time)) ∷ ("nonce", nonce) ∷ [] in
    if is_empty i.client_id then claims else append claims ("iss", text i.client_id)

signing_failed : GoError → GoError
signing_failed e =
    wallet
      (new_execution_error error_module 5 "JWT_SIGNING_FAILED" (wrapped "failed to create JWT" e))

unfoldable pub create_claims_proof : External → Value → Signer → M Session String
unfolding signing_failed
create_claims_proof ext nonce signer = do
  time ← read_source ext.now
  i ← gets (λ s. s.interaction)
  on_error (sign_token ext (proof_claims i time nonce) signer) signing_failed

abbrev optional_context : List String → Option (List String)
optional_context [] = none
optional_context (c ∷ cs) = some (c ∷ cs)

unfoldable pub credential_request : String → String → List String → List String → CredentialRequest
credential_request proof_jwt format types context = record {
  context = optional_context context;
  type = types;
  format = format;
  proof_type = "jwt";
  jwt = proof_jwt;
}

unfoldable pub create_credential_request_body :
    External → String → String → List String → List String → M Session String
create_credential_request_body ext proof_jwt format types context =
    lift (ext.marshal_credential_request (credential_request proof_jwt format types context))

abbrev pub append_id : Option (List String) → String → Option (List String)
append_id none id = some (id ∷ [])
append_id (some ids) id = some (append ids id)

unfoldable pub store_acknowledgment_id : String → M Session (Unit {0})
store_acknowledgment_id id = modify (
    set_interaction
      (λ i. record i { requested_acknowledgment = append_id i.requested_acknowledgment id }))

-- The arguments of the loop that do not change: the client and headers of the flow, the proof, and
-- the slices that are read by index.
pub record Order : Type 0 where
  pub client : Client
  pub headers : List (String × String)
  pub proof_jwt : String
  pub formats : List String
  pub contexts : List (List String)
  pub total : ℕ

unfoldable pub fetch_event_text : ℕ → ℕ → String → String
unfolding decimal
fetch_event_text nth total endpoint =
    "Fetch credential "
    ++ (decimal nth ++ (" of " ++ (decimal total ++ (" via an HTTP POST request to " ++ endpoint))))

-- One round of the loop over the credential types.
unfoldable pub fetch_credential : External → Order → ℕ → List String → M Session CredentialResponse
unfolding fetch_event_text
fetch_credential ext o index types = do
  format ← deref (get_elem? o.formats index)
  context ← deref (get_elem? o.contexts index)
  body ← create_credential_request_body ext o.proof_jwt format types context
  m ← the_metadata
  bytes ← on_world (
      do_context ext.network o.client (record {
        method = "POST";
        endpoint_url = m.credential_endpoint;
        content_type = "application/json";
        additional_headers = o.headers;
        body = body;
        event = fetch_event_text (index + 1) o.total m.credential_endpoint;
        parent_event = request_event_text;
        acceptable_statuses = some (200 ∷ 201 ∷ []);
        error_response_handler = some (process_credential_error_response ext);
      }))
  response ←
      on_error (lift (ext.unmarshal_credential_response bytes))
        (wrapped "failed to unmarshal response from the issuer's credential endpoint")
  store_acknowledgment_id response.ack_id
  give response

unfoldable pub fetch_credentials :
    External → Order → ℕ → List (List String) → M Session (List CredentialResponse)
fetch_credentials ext o index [] = give []
fetch_credentials ext o index (types ∷ rest) = do
  response ← fetch_credential ext o index types
  responses ← fetch_credentials ext o (suc index) rest
  give (response ∷ responses)

-- The deferred retry: where the error is an `InvalidProofError`, the call is made once more.
unfoldable pub again_if_invalid_proof : {S A : Type 0} → Run S A → (String → M S A) → Run S A
again_if_invalid_proof (done a s) again = done a s
again_if_invalid_proof (crash s) again = crash s
again_if_invalid_proof (fail e s) again = elim (as_invalid_proof e) [
  | none ↦ fail e s
  | some nonce ↦ again nonce s
]

unfoldable pub retry_once : {S A : Type 0} → M S A → (String → M S A) → M S A
unfolding again_if_invalid_proof
retry_once m again s = again_if_invalid_proof (m s) again

-- The requested credentials: `credentialFormats`, `credentialTypes` and `credentialContexts`.
pub record Wanted : Type 0 where
  pub formats : List String
  pub types : List (List String)
  pub contexts : List (List String)

-- `createOAuthHTTPClient`: a nil token is dereferenced, the configuration is only passed on. The client
-- that `oauth2.Config.Client` makes refreshes a token that has expired, by a request of its own; that
-- request belongs to the library, and so to how `answer` comes to its reply.
unfoldable pub create_oauth_http_client : M Session Client
create_oauth_http_client = do
  config ← gets (λ s. s.interaction.oauth2_config)
  held ← gets (λ s. s.interaction.auth_token)
  token ← deref held
  give (with_token config token)

-- The body of `getCredentialResponse`.
unfoldable pub request_with_nonce :
    External → Signer → Wanted → Value → M Session (List CredentialResponse)
request_with_nonce ext signer w nonce = do
  proof_jwt ← create_claims_proof ext nonce signer
  client ← create_oauth_http_client
  fetch_credentials ext
      (record {
        client = client;
        headers = [];
        proof_jwt = proof_jwt;
        formats = w.formats;
        contexts = w.contexts;
        total = length w.types;
      })
      0 w.types

-- `getCredentialResponse`, with `allowRetry`.
unfoldable pub get_credential_response :
    External → Signer → Wanted → Value → Bool → M Session (List CredentialResponse)
get_credential_response ext signer w nonce false = request_with_nonce ext signer w nonce
get_credential_response ext signer w nonce true =
    retry_once (request_with_nonce ext signer w nonce)
      (λ fresh. request_with_nonce ext signer w (text fresh))

-- `getCredentialResponsesWithAuth`.
unfoldable pub get_credential_responses_with_auth :
    External → Signer → Wanted → M Session (List CredentialResponse)
get_credential_responses_with_auth ext signer w = do
  nonce ← gets (λ s. s.interaction.auth_token_response_nonce)
  get_credential_response ext signer w nonce true
