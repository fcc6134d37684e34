-- ===== src/Issuance/Parse.antt =====
-- The last half of pkg/openid4ci/interaction.go's `requestCredentialWithAuth`: parsing what the
-- issuer sent, and reporting it.
pub mod Laws
use Prim.Native.String.{◌++◌}
use openvino_wallet.Base.{ℕ, suc, ◌+◌, String, Bool, List, [], ◌∷◌, length, decimal}
use openvino_wallet.Base.Json.{Value, text}
use openvino_wallet.Errors.{GoError, wrapped, wallet, new_execution_error}
use openvino_wallet.Run.{M, ◌>>=◌, ◌>>◌, give, gets, fail_with, lift, on_error, Result, ok}
use openvino_wallet.Http.{log_metrics, log_activity}
use openvino_wallet.Issuance.Model.{
  External, Session, CredentialResponse, Credential, Signer, error_module, on_world,
}
use openvino_wallet.Issuance.Interaction.{the_metadata}
use openvino_wallet.Issuance.Request.{
  Wanted, get_credential_responses_with_auth, request_event_text,
}

-- `SerializeToCredentialsBytes`: a text as it is, anything else as JSON.
unfoldable pub serialize_to_credentials_bytes : External → Value → Result String
serialize_to_credentials_bytes ext (text s) = ok s
serialize_to_credentials_bytes ext v = ext.marshal_value v

parse_failed : ℕ → GoError → GoError
unfolding decimal
parse_failed j e =
    wrapped ("failed to parse credential from credential response at index " ++ decimal j) e

parse_event_text : ℕ → ℕ → String
unfolding decimal
parse_event_text nth total =
    "Parsing and checking proof for received credential "
    ++ (decimal nth ++ (" of " ++ decimal total))

-- The loop of `getVCsFromCredentialResponses`, from index `j`.
unfoldable pub parse_credentials :
    External → ℕ → ℕ → List CredentialResponse → M Session (List Credential)
unfolding parse_failed parse_event_text
parse_credentials ext total j [] = give []
parse_credentials ext total j (response ∷ responses) = do
  bytes ← on_error (lift (serialize_to_credentials_bytes ext response.credential)) (parse_failed j)
  unchecked ← gets (λ s. s.interaction.disable_vc_proof_checks)
  vc ← on_error (lift (ext.parse_credential unchecked bytes)) (parse_failed j)
  on_world (
      log_metrics ext.network
        (record { event = parse_event_text (j + 1) total; parent_event = request_event_text }))
  vcs ← parse_credentials ext total (suc j) responses
  give (vc ∷ vcs)

unfoldable pub get_vcs_from_credential_responses :
    External → List CredentialResponse → M Session (List Credential)
get_vcs_from_credential_responses ext responses = do
  fail_with ext.new_verifier_error
  parse_credentials ext (length responses) 0 responses

unfoldable pub get_subject_ids : List Credential → List String
get_subject_ids [] = []
get_subject_ids (vc ∷ vcs) = openvino_wallet.Base.◌++◌ vc.subject_ids (get_subject_ids vcs)

-- From the responses to the credentials, with the metrics event and the activity: what
-- `requestCredentialWithAuth` and `requestCredentialWithPreAuth` do alike. The error of the last
-- log is returned beside the credentials; the model keeps the error.
unfoldable pub accept_responses : External → List CredentialResponse → M Session (List Credential)
accept_responses ext responses = do
  vcs ←
      on_error (get_vcs_from_credential_responses ext responses)
        (λ e. wallet (new_execution_error error_module 7 "CREDENTIAL_PARSE_FAILED" e))
  on_world (log_metrics ext.network (record { event = request_event_text; parent_event = "" }))
  m ← the_metadata
  on_world (
      log_activity ext.network (record {
        client = m.credential_issuer;
        operation = "oidc-issuance";
        subject_ids = get_subject_ids vcs;
      }))
  give vcs

unfoldable pub request_credential_with_auth :
    External → Signer → Wanted → M Session (List Credential)
request_credential_with_auth ext signer w = do
  responses ←
      on_error (get_credential_responses_with_auth ext signer w)
        (wrapped "failed to get credential response")
  accept_responses ext responses
