-- ===== src/Presentation/RequestObject.antt =====
-- The verifier's request: `NewInteraction`, `fetchRequestObject`, `parseRequestObject` and
-- `matchClientIDAndResponseURI` of pkg/openid4vp/openid4vp.go.
pub mod Laws
pub mod Start
use Prim.Native.String.{◌++◌}
use openvino_wallet.Base.{
  String, Bool, true, false, not, ◌&&◌, ◌||◌, Option, none, some, lookup, str_eq, is_some, is_empty,
  starts_with, if◌then◌else◌,
}
use openvino_wallet.Errors.{
  GoError, plain, wrapped, wallet, new_validation_error, new_execution_error,
}
use openvino_wallet.Run.{
  M, ◌>>=◌, ◌>>◌, give, reject_if, fail_with, lift, on_error, throw, Result, ok, err,
}
use openvino_wallet.Http.{World, configured, do_request}
use openvino_wallet.Issuance.Model.{Url}
use openvino_wallet.Issuance.Interaction.{query_value}
use openvino_wallet.Presentation.Model.{
  External, RequestObject, ClientMetadata, Registration, PresentationDefinition, error_module,
}

unfoldable pub match_client_id_and_response_uri : External → String → String → Bool
match_client_id_and_response_uri ext client_id response_uri = elim (ext.parse_url client_id) [
  | err e ↦ false
  | ok c ↦ elim (ext.parse_url response_uri) [
    | err e ↦ false
    | ok r ↦
        ext.resolver.equal_fold c.scheme r.scheme
        && ext.resolver.equal_fold c.host r.host
        && ext.resolver.equal_fold c.path r.path
  ]
]

-- The switch on the client ID scheme: a signature by the issuer, or a client ID that matches.
unfoldable pub check_client : External → String → String → RequestObject → M World (Unit {0})
check_client ext client_id raw r =
    if str_eq r.client_id_scheme "" || str_eq r.client_id_scheme "did"
    then (do
      reject_if (is_empty r.issuer) (plain "iss claim in request object is required")
      on_error (fail_with (ext.check_proof raw r.issuer)) (wrapped "check proof"))
    else if str_eq r.client_id_scheme "redirect_uri"
    then reject_if (not (match_client_id_and_response_uri ext client_id r.response_uri))
        (plain "client_id mismatch between authorization request and request object")
    else throw (plain ("unsupported client_id_scheme: " ++ r.client_id_scheme))

-- The three steps "for backward compatibility".
or_else : {A : Type 0} → Option A → Option A → Option A
or_else none other = other
or_else (some a) other = some a

take_definition : RequestObject → RequestObject
unfolding or_else
take_definition r = record r {
  presentation_definition = or_else r.presentation_definition r.claims_definition;
}

take_registration : RequestObject → RequestObject
take_registration r =
    if not (is_some r.client_metadata.vp_formats) && is_some r.registration.vp_formats
    then record r {
      client_metadata = record {
        client_name = r.registration.client_name;
        client_purpose = r.registration.client_purpose;
        client_logo_uri = r.registration.logo_uri;
        subject_syntax_types_supported = r.registration.subject_syntax_types_supported;
        vp_formats = r.registration.vp_formats;
      };
    }
    else r

take_redirect_uri : RequestObject → RequestObject
take_redirect_uri r =
    if is_empty r.response_uri && not (is_empty r.redirect_uri)
    then record r { response_uri = r.redirect_uri }
    else r

unfoldable pub upgrade : RequestObject → RequestObject
unfolding take_definition take_registration take_redirect_uri
upgrade r = take_redirect_uri (take_registration (take_definition r))

unfoldable pub parse_request_object : External → String → String → M World RequestObject
parse_request_object ext client_id raw = do
  r ← on_error (lift (ext.parse_request_jwt raw)) (wrapped "parse jwt")
  check_client ext client_id raw r
  give (upgrade r)

invalid_request : GoError → GoError
invalid_request e = wallet (new_validation_error error_module 0 "INVALID_AUTHORIZATION_REQUEST" e)

unfoldable pub fetch_request_object : External → Url → M World String
unfolding invalid_request
fetch_request_object ext u = do
  reject_if (not (is_some (lookup "request_uri" u.query)))
      (invalid_request (plain "request_uri missing from authorization request URI"))
  on_error
      (do_request ext.network configured "GET" (query_value u "request_uri") "" ""
        ("Fetch request object via an HTTP GET request to " ++ query_value u "request_uri")
        "Instantiating OpenID4VP interaction object" none)
      (λ e. wallet (
        new_execution_error error_module 1 "REQUEST_OBJECT_FETCH_FAILED"
          (wrapped "fetch request object" e)))

-- The client ID and the raw request object that an authorization request gives: both from its URL,
-- or the request is the object itself and there is no client ID.
unfoldable pub raw_request : External → String → M World (String × String)
unfolding invalid_request
raw_request ext request =
    if starts_with request "openid-vc://" || starts_with request "openid4vp://"
    then (do
      u ← on_error (lift (ext.parse_url request)) invalid_request
      raw ← fetch_request_object ext u
      give (query_value u "client_id", raw))
    else give ("", request)

-- `NewInteraction`: the request object of the interaction.
unfoldable pub new_interaction : External → String → M World RequestObject
unfolding invalid_request
new_interaction ext request = do
  found ← raw_request ext request
  on_error (parse_request_object ext found.0 found.1)
      (λ e. invalid_request (wrapped "verify request object" e))
