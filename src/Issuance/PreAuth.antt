-- ===== src/Issuance/PreAuth.antt =====
-- The pre-authorized code flow of pkg/openid4ci/issuerinitiatedinteraction.go.
pub mod Laws
pub mod Calls
use Prim.Native.String.{◌++◌}
use openvino_wallet.Base.{
  ℕ, zero, suc, String, Bool, true, false, not, ◌&&◌, Option, none, some, List, [], ◌∷◌, get_elem?,
  length, ltb, is_empty, part_before, if◌then◌else◌, ◌==◌,
}
use openvino_wallet.Base.Json.{Value, null, text, pos, negsuc, ℤ}
use openvino_wallet.Errors.{GoError, plain, wrapped, wallet, new_invalid_sdk_usage_error}
use openvino_wallet.Run.{
  M, ◌>>=◌, ◌>>◌, give, throw, gets, modify, deref, panic, reject_if, lift, on_error,
}
use openvino_wallet.Http.{AuthToken, configured, do_context, do_request}
use openvino_wallet.Issuance.Model.{
  External, Session, Signer, Credential, CredentialRequest, CredentialResponse,
  BatchCredentialResponse, PreAuthTokenResponse, Presentation, error_module, on_world, read_source,
}
use openvino_wallet.Issuance.Failures.{
  process_credential_error_response, token_error_response_handler,
}
use openvino_wallet.Issuance.Grants.{
  PreAuthorizedCodeGrantParams, pre_authorized_grant_type, pin_required,
}
use openvino_wallet.Issuance.Interaction.{
  populate_issuer_metadata, the_metadata, get_token_endpoint,
}
use openvino_wallet.Issuance.Request.{
  Wanted, request_event_text, fetch_event_text, sign_token, create_claims_proof, fetch_credentials,
  retry_once, store_acknowledgment_id,
}
use openvino_wallet.Issuance.Parse.{accept_responses}
use openvino_wallet.Issuance.Issuer.{
  IssuerSession, IssuerInitiatedInteraction, on_interaction, usage_error, validate_signer_key_id,
  wanted_of,
}

-- `requestCredentialWithPreAuthOpts`.
pub record PreAuthOptions : Type 0 where
  pub pin : String
  pub attestation_vp_signer : Signer
  pub attestation_vc : String

nonce_field : String → List (String × Value)
nonce_field nonce = if is_empty nonce then [] else ("nonce", text nonce) ∷ []

unfoldable pub create_attestation_vp :
    External → String → Signer → String → String → M Session String
unfolding nonce_field
create_attestation_vp ext vc_data signer issuer_did nonce = do
  vc ← lift (ext.parse_credential true vc_data)
  vp ← lift (ext.new_presentation vc)
  id ← read_source ext.uuid
  claims ← lift (
      ext.presentation_claims (issuer_did ∷ [])
        (record vp { id = id; custom_fields = nonce_field nonce }))
  sign_token ext claims signer

-- The form that is posted to the token endpoint, and the token that comes back.
unfoldable pub token_form : String → String → String → List (String × String)
token_form code pin attestation_vp =
    openvino_wallet.Base.◌++◌
      (("grant_type", pre_authorized_grant_type) ∷ ("pre-authorized_code", code) ∷ [])
      (openvino_wallet.Base.◌++◌ (if is_empty pin then [] else ("tx_code", pin) ∷ []) (
        if is_empty attestation_vp
        then []
        else ("client_assertion_type", "attest_jwt_client_auth")
          ∷ ("client_assertion", attestation_vp)
          ∷ []))

-- The error names the attestation where it means the endpoint.
unfoldable pub get_pre_auth_token_response :
    External → String → String → String → String → M Session PreAuthTokenResponse
get_pre_auth_token_response ext code pin endpoint attestation_vp = do
  bytes ←
      on_error
        (on_world (
          do_request ext.network configured "POST" endpoint "application/x-www-form-urlencoded"
            (ext.encode_form (token_form code pin attestation_vp))
            ("Fetch token via an HTTP POST request to " ++ endpoint) request_event_text
            (some (token_error_response_handler ext))))
        (wrapped ("issuer's token endpoint " ++ attestation_vp))
  on_error (lift (ext.unmarshal_token_response bytes))
      (wrapped "failed to unmarshal response from the issuer's token endpoint")

-- `expiry`: the zero time where the response has no `expires_in`.
unfoldable pub expiry : External → ℤ → M Session ℕ
expiry ext (pos zero) = give 0
expiry ext n = do time ← read_source ext.now; give (ext.add_seconds time n)

unfoldable pub batch_requests :
    String → List String → ℕ → List (List String) → M Session (List CredentialRequest)
batch_requests proof_jwt formats index [] = give []
batch_requests proof_jwt formats index (types ∷ rest) = do
  format ← deref (get_elem? formats index)
  requests ← batch_requests proof_jwt formats (suc index) rest
  give (
      record { context = none; type = types; format = format; proof_type = "jwt"; jwt = proof_jwt }
      ∷ requests)

-- The loop over the responses of a batch. `credentialResponses` has one place for each credential
-- that was asked for, `room`: a further response is an index out of range, and a nil nonce or
-- expiry is dereferenced. Places that stay unfilled are zero values.
unfoldable pub zero_response : CredentialResponse
zero_response = record {
  credential = null;
  transaction_id = "";
  c_nonce = "";
  c_nonce_expires_in = pos 0;
  ack_id = "";
}

unfoldable pub fill_responses :
    Option String → Option ℤ → ℕ → List CredentialResponse → M Session (List CredentialResponse)
unfolding zero_response
fill_responses given expires zero [] = give []
fill_responses given expires (suc room) [] = do
  rest ← fill_responses given expires room []
  give (zero_response ∷ rest)
fill_responses given expires zero (r ∷ rs) = do n ← deref given; e ← deref expires; panic
fill_responses given expires (suc room) (r ∷ rs) = do
  n ← deref given
  e ← deref expires
  store_acknowledgment_id r.ack_id
  rest ← fill_responses given expires room rs
  give (
      record {
        credential = r.credential;
        transaction_id = r.transaction_id;
        c_nonce = n;
        c_nonce_expires_in = e;
        ack_id = r.ack_id;
      }
      ∷ rest)

abbrev bearer : String → List (String × String)
bearer token = ("Authorization", "Bearer " ++ token) ∷ []

unfoldable pub get_credential_responses_batch :
    External → Wanted → String → String → M Session (List CredentialResponse)
unfolding fetch_event_text
get_credential_responses_batch ext w access_token proof_jwt = do
  let count = length w.types
  requests ← batch_requests proof_jwt w.formats 0 w.types
  body ← lift (ext.marshal_batch_request requests)
  m ← the_metadata
  bytes ← on_world (
      do_context ext.network configured (record {
        method = "POST";
        endpoint_url = m.batch_credential_endpoint;
        content_type = "application/json";
        additional_headers = bearer access_token;
        body = body;
        event = fetch_event_text count count m.batch_credential_endpoint;
        parent_event = request_event_text;
        acceptable_statuses = some (200 ∷ 201 ∷ []);
        error_response_handler = some (process_credential_error_response ext);
      }))
  response ← lift (ext.unmarshal_batch_response bytes)
  fill_responses response.c_nonce response.c_nonce_expires_in count response.credential_responses

one_by_one : External → Wanted → String → String → M Session (List CredentialResponse)
one_by_one ext w access_token proof_jwt =
    fetch_credentials ext
      (record {
        client = configured;
        headers = bearer access_token;
        proof_jwt = proof_jwt;
        formats = w.formats;
        contexts = w.contexts;
        total = length w.types;
      })
      0 w.types

-- `len(i.credentialTypes) > 1 && issuerMetadata.BatchCredentialEndpoint != ""`: the metadata is
-- read only for more than one credential.
use_batch : Wanted → M Session Bool
use_batch w =
    if ltb 1 (length w.types)
    then (do m ← the_metadata; give (not (is_empty m.batch_credential_endpoint)))
    else give false

-- The rest of `getCredentialResponse`, once the proof is signed: one batch, or one request for each
-- credential.
unfoldable pub request_with_proof :
    External → Wanted → String → String → M Session (List CredentialResponse)
unfolding one_by_one use_batch
request_with_proof ext w access_token proof_jwt = do
  batch ← use_batch w
  if batch
      then get_credential_responses_batch ext w access_token proof_jwt
      else one_by_one ext w access_token proof_jwt

-- `getCredentialResponse` of the issuer-initiated flow, with `allowRetry` false: nothing that this
-- call makes is tried again.
unfoldable pub pre_auth_attempt :
    External → Signer → Wanted → String → Value → M Session (List CredentialResponse)
pre_auth_attempt ext signer w access_token nonce = do
  proof_jwt ← create_claims_proof ext nonce signer
  request_with_proof ext w access_token proof_jwt

-- With `allowRetry` true: the deferred retry is set up after the proof is signed, and is called with
-- the nonce of the first attempt.
unfoldable pub pre_auth_credential_response :
    External → Signer → Wanted → String → Value → M Session (List CredentialResponse)
pre_auth_credential_response ext signer w access_token nonce = do
  proof_jwt ← create_claims_proof ext nonce signer
  retry_once (request_with_proof ext w access_token proof_jwt)
      (λ fresh. pre_auth_attempt ext signer w access_token nonce)

hold_token : PreAuthTokenResponse → ℕ → IssuerSession → IssuerSession
hold_token t time s = record s {
  flow = record s.flow {
    auth_token = some (record {
      access_token = t.access_token;
      token_type = t.token_type;
      expires_at = time;
      refresh_token = t.refresh_token;
    });
  };
}

-- `getCredentialResponsesWithPreAuth`.
unfoldable pub get_credential_responses_with_pre_auth :
    External → String → String → Signer → String → M IssuerSession (List CredentialResponse)
unfolding hold_token
get_credential_responses_with_pre_auth ext code pin signer attestation_vp = do
  f ← gets (λ s. s.flow)
  endpoint ← on_interaction get_token_endpoint
  t ←
      on_error (on_interaction (get_pre_auth_token_response ext code pin endpoint attestation_vp))
        (wrapped "failed to get token response")
  time ← on_interaction (expiry ext t.expires_in)
  modify (hold_token t time)
  on_interaction
      (pre_auth_credential_response ext signer (wanted_of f) t.access_token (text t.c_nonce))

issuer_did_of : Option String → String
issuer_did_of none = ""
issuer_did_of (some kid) = part_before b'#' kid

attest : External → PreAuthOptions → String → M Session String
unfolding issuer_did_of
attest ext o code = if is_empty o.attestation_vc then give "" else (do
  m ← the_metadata
  create_attestation_vp ext o.attestation_vc o.attestation_vp_signer (issuer_did_of m.jwt_kid) code)

-- `requestCredentialWithPreAuth`.
unfoldable pub request_with_grant :
    External → Signer → PreAuthOptions → String → M IssuerSession (List Credential)
unfolding attest
request_with_grant ext signer o code = do
  validate_signer_key_id signer
  on_interaction (populate_issuer_metadata ext request_event_text)
  attestation_vp ← on_interaction (attest ext o code)
  responses ←
      on_error (get_credential_responses_with_pre_auth ext code o.pin signer attestation_vp)
        (wrapped "failed to get credential response")
  on_interaction (accept_responses ext responses)

need_pre_authorized_grant :
    Option PreAuthorizedCodeGrantParams → M IssuerSession PreAuthorizedCodeGrantParams
need_pre_authorized_grant none =
    throw (usage_error "issuer does not support the pre-authorized code grant")
need_pre_authorized_grant (some p) = give p

-- `RequestCredentialWithPreAuth`.
unfoldable pub request_credential_with_pre_auth :
    External → Signer → PreAuthOptions → M IssuerSession (List Credential)
unfolding need_pre_authorized_grant usage_error
request_credential_with_pre_auth ext signer o = do
  f ← gets (λ s. s.flow)
  grant ← need_pre_authorized_grant f.pre_authorized_code_grant_params
  reject_if (pin_required grant && is_empty o.pin)
      (usage_error "the credential offer requires a user PIN, but none was provided")
  request_with_grant ext signer o grant.pre_authorized_code
