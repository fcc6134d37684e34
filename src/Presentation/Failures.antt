-- ===== src/Presentation/Failures.antt =====
-- What the verifier's error responses become: `processAuthorizationErrorResponse` and
-- `processUsingMSEntraErrorResponseFormat` of pkg/openid4vp/openid4vp.go. The cases of each switch
-- have different tags, so they are a table.
use Prim.Native.String.{◌++◌}
use openvino_wallet.Base.{ℕ, String, Option, none, some, List, [], ◌∷◌, lookup, decimal}
use openvino_wallet.Errors.{
  GoError, plain, wallet, new_execution_error, new_server_error, new_execution_error_with_message,
}
use openvino_wallet.Run.{ok, err}
use openvino_wallet.Presentation.Model.{External, ErrorResponse, error_module}

received : ℕ → String → GoError
unfolding decimal
received status body = plain (
    "received status code ["
    ++ (decimal status
        ++ ("] with body [" ++ (body ++ "] in response to the authorization request"))))

abbrev authorization_cases : List (String × (ℕ × String))
authorization_cases =
    ("invalid_scope", (3, "INVALID_SCOPE"))
    ∷ ("invalid_request", (4, "INVALID_REQUEST"))
    ∷ ("invalid_client", (5, "INVALID_CLIENT"))
    ∷ ("vp_formats_not_supported", (6, "VP_FORMATS_NOT_SUPPORTED"))
    ∷ ("invalid_presentation_definition_uri", (7, "INVALID_PRESENTATION_DEFINITION_URI"))
    ∷ (
      "invalid_presentation_definition_reference",
      (8, "INVALID_PRESENTATION_DEFINITION_REFERENCE"),
    )
    ∷ []

-- Only the default case keeps the server's code and message.
authorization_error : GoError → ErrorResponse → Option (ℕ × String) → GoError
authorization_error detail r (some (nth, category)) =
    wallet (new_execution_error error_module nth category detail)
authorization_error detail r none = wallet (
    new_server_error error_module 9 "OTHER_AUTHORIZATION_RESPONSE_ERROR" detail r.error
      r.error_description)

abbrev entra_cases : List (String × (ℕ × String))
entra_cases =
    ("badOrMissingField", (10, "MS_ENTRA_BAD_OR_MISSING_FIELDS"))
    ∷ ("notFound", (11, "MS_ENTRA_NOT_FOUND"))
    ∷ ("tokenError", (12, "MS_ENTRA_TOKEN_ERROR"))
    ∷ ("transientError", (13, "MS_ENTRA_TRANSIENT_ERROR"))
    ∷ []

entra_error : GoError → String → Option (ℕ × String) → GoError
entra_error detail message (some (nth, category)) =
    wallet (new_execution_error_with_message error_module nth category message detail)
entra_error detail message none = wallet (
    new_execution_error_with_message error_module 9 "OTHER_AUTHORIZATION_RESPONSE_ERROR" message
      detail)

unfoldable pub process_using_ms_entra_error_response_format : External → String → GoError → GoError
unfolding entra_error
process_using_ms_entra_error_response_format ext body detail =
    elim (ext.unmarshal_entra_error body) [
      | err e ↦
          wallet (new_execution_error error_module 9 "OTHER_AUTHORIZATION_RESPONSE_ERROR" detail)
      | ok r ↦ entra_error detail r.message (lookup r.code entra_cases)
    ]

unfoldable pub process_authorization_error_response : External → ℕ → String → GoError
unfolding authorization_error received process_using_ms_entra_error_response_format
process_authorization_error_response ext status body =
    let detail = received status body in
    elim (ext.unmarshal_error_response body) [
      | err e ↦ process_using_ms_entra_error_response_format ext body detail
      | ok r ↦ authorization_error detail r (lookup r.error authorization_cases)
    ]
