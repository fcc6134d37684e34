-- ===== src/Issuance/Failures.antt =====
-- What the issuer's error responses become: `processCredentialErrorResponse` of
-- pkg/openid4ci/interaction.go and `tokenErrorResponseHandler` of
-- pkg/openid4ci/issuerinitiatedinteraction.go.
pub mod Laws
use Prim.Native.String.{◌++◌}
use openvino_wallet.Base.{
  ℕ, String, Option, none, some, List, [], ◌∷◌, lookup, decimal, str_eq, if◌then◌else◌,
}
use openvino_wallet.Errors.{
  GoError, WalletError, plain, wallet, invalid_proof, new_execution_error, new_server_error,
}
use openvino_wallet.Run.{Result, ok, err}
use openvino_wallet.Issuance.Model.{External, ErrorResponse, error_module}

received : ℕ → String → String → GoError
unfolding decimal
received status body endpoint = plain (
    "received status code ["
    ++ (decimal status ++ ("] with body [" ++ (body ++ ("] from issuer's " ++ endpoint)))))

-- `NewExecutionError` with the server's code and message.
server_error : ℕ → String → GoError → ErrorResponse → WalletError
server_error number category detail r =
    new_server_error error_module number category detail r.error r.error_description

-- The cases of the switch on the server's error that give a wallet error.
abbrev credential_cases : List (String × (ℕ × String))
credential_cases =
    ("invalid_request", (14, "INVALID_CREDENTIAL_REQUEST"))
    ∷ ("invalid_token", (15, "INVALID_TOKEN"))
    ∷ ("unsupported_credential_format", (16, "UNSUPPORTED_CREDENTIAL_FORMAT"))
    ∷ ("unsupported_credential_type", (17, "UNSUPPORTED_CREDENTIAL_TYPE"))
    ∷ ("invalid_or_missing_proof", (18, "INVALID_OR_MISSING_PROOF"))
    ∷ ("expired_ack_id", (21, "ACKNOWLEDGMENT_EXPIRED"))
    ∷ []

wallet_case : Option (ℕ × String) → ℕ × String → GoError → ErrorResponse → GoError
unfolding server_error
wallet_case none (number, category) detail r = wallet (server_error number category detail r)
wallet_case (some (number, category)) _ detail r = wallet (server_error number category detail r)

-- The cases have different tags, so their order does not matter.
credential_error : GoError → ErrorResponse → GoError
unfolding server_error wallet_case
credential_error detail r =
    if str_eq r.error "invalid_proof"
    then invalid_proof (server_error 21 "ACKNOWLEDGMENT_EXPIRED" detail r) r.c_nonce
        r.c_nonce_expires_in
    else wallet_case (lookup r.error credential_cases) (13, "OTHER_CREDENTIAL_REQUEST_ERROR") detail
        r

unfoldable pub process_credential_error_response : External → ℕ → String → GoError
unfolding credential_error received
process_credential_error_response ext status body =
    let detail = received status body "credential endpoint" in
    elim (ext.unmarshal_error_response body) [
      | err e ↦ wallet (new_execution_error error_module 13 "OTHER_CREDENTIAL_REQUEST_ERROR" detail)
      | ok r ↦ credential_error detail r
    ]

abbrev token_cases : List (String × (ℕ × String))
token_cases =
    ("invalid_request", (9, "INVALID_TOKEN_REQUEST"))
    ∷ ("invalid_grant", (10, "INVALID_GRANT"))
    ∷ ("invalid_client", (11, "INVALID_CLIENT"))
    ∷ []

token_error : GoError → ErrorResponse → GoError
unfolding wallet_case
token_error detail r =
    wallet_case (lookup r.error token_cases) (12, "OTHER_TOKEN_REQUEST_ERROR") detail r

unfoldable pub token_error_response_handler : External → ℕ → String → GoError
unfolding token_error received
token_error_response_handler ext status body =
    let detail = received status body "token endpoint" in
    elim (ext.unmarshal_error_response body) [
      | err e ↦ wallet (new_execution_error error_module 12 "OTHER_TOKEN_REQUEST_ERROR" detail)
      | ok r ↦ token_error detail r
    ]
