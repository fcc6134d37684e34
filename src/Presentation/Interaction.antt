-- ===== src/Presentation/Interaction.antt =====
-- The methods of pkg/openid4vp/openid4vp.go's `Interaction`.
pub mod Laws
use Prim.Native.String.{◌++◌}
use openvino_wallet.Base.{
  String, Bool, true, false, not, Option, none, some, List, [], ◌∷◌, append, split, part_before,
  str_eq, is_empty, if◌then◌else◌,
}
use openvino_wallet.Base.Json.{Value}
use openvino_wallet.Errors.{GoError, plain, wrapped, wallet, new_execution_error}
use openvino_wallet.Run.{M, ◌>>=◌, ◌>>◌, give, gets, lift, on_error, Result, ok, err}
use openvino_wallet.Http.{World, configured, do_request, log_metrics, log_activity}
use openvino_wallet.Wellknown.{validate_linked_domains}
use openvino_wallet.Issuance.Model.{Signer}
use openvino_wallet.Presentation.Model.{
  External, VpSession, RequestObject, Credential, PresentationDefinition, AuthorizedResponse,
  error_module, on_world,
}
use openvino_wallet.Presentation.Failures.{process_authorization_error_response}
use openvino_wallet.Presentation.Response.{PresentOptions, create_authorized_response}

-- The loop of `CustomScope`.
without_openid : List String → List String
without_openid [] = []
without_openid (s ∷ ss) =
    let rest = without_openid ss in if str_eq s "openid" then rest else s ∷ rest

unfoldable pub custom_scope : RequestObject → List String
unfolding without_openid
custom_scope r = without_openid (split b'+' r.scope)

-- `GetQuery`.
unfoldable pub get_query : RequestObject → Option PresentationDefinition
get_query r = r.presentation_definition

pub record VerifierDisplayData : Type 0 where
  pub did : String
  pub name : String
  pub purpose : String
  pub logo_uri : String

unfoldable pub verifier_display_data : RequestObject → VerifierDisplayData
verifier_display_data r = record {
  did = r.client_id;
  name = r.client_metadata.client_name;
  purpose = r.client_metadata.client_purpose;
  logo_uri = r.client_metadata.client_logo_uri;
}

pub record VerifierTrustInfo : Type 0 where
  pub did : String
  pub domain : String
  pub domain_valid : Bool

unfoldable pub trust_info : External → M VpSession VerifierTrustInfo
trust_info ext = do
  r ← gets (λ s. s.request_object)
  if str_eq r.client_id_scheme "redirect_uri"
      then (do
        u ← lift (ext.parse_url r.response_uri)
        give (record { did = ""; domain = u.host; domain_valid = false }))
      else (do
        linked ← lift (validate_linked_domains (some ext.resolver) (part_before b'#' r.issuer))
        give (record {
          did = part_before b'#' r.issuer;
          domain = linked.domain;
          domain_valid = linked.valid;
        }))

unfoldable pub send_authorized_response : External → String → M VpSession (Unit {0})
send_authorized_response ext body = do
  uri ← gets (λ s. s.request_object.response_uri)
  bytes ← on_world (
      do_request ext.network configured "POST" uri "application/x-www-form-urlencoded" body
        ("Send authorized response via an HTTP POST request to " ++ uri) "Present credential"
        (some (process_authorization_error_response ext)))
  give tt

-- `data.Set` of a value that is not empty.
set_if_full : String → String → List (String × String) → List (String × String)
set_if_full key value form = if is_empty value then form else append form (key, value)

unfoldable pub response_form : AuthorizedResponse → List (String × String)
unfolding set_if_full
response_form r = set_if_full "state" r.state (
    set_if_full "id_token" r.id_token_jws
      (("presentation_submission", r.presentation_submission) ∷ ("vp_token", r.vp_token) ∷ []))

with_details :
    External
    → Option (List (String × Value))
    → List (String × String)
    → M VpSession (List (String × String))
with_details ext none form = give form
with_details ext (some details) form = do
  bytes ← on_error (lift (ext.marshal_details details)) (wrapped "encode interaction details")
  give (append form ("interaction_details", ext.base64_std bytes))

creation_failed : GoError → GoError
creation_failed e = wallet (
    new_execution_error error_module 2 "CREATE_AUTHORIZED_RESPONSE_FAILED"
      (wrapped "create authorized response failed" e))

-- What `presentCredentials` does with the response, once it is made.
unfoldable pub deliver : External → PresentOptions → AuthorizedResponse → M VpSession (Unit {0})
unfolding with_details
deliver ext o response = do
  form ← with_details ext o.interaction_details (response_form response)
  on_error (send_authorized_response ext (ext.encode_form form))
      (wrapped "send authorized response failed")
  on_world (log_metrics ext.network (record { event = "Present credential"; parent_event = "" }))
  r ← gets (λ s. s.request_object)
  on_world (
      log_activity ext.network (record {
        client = r.client_metadata.client_name;
        operation = "oidc-presentation";
        subject_ids = [];
      }))

unfoldable pub present_credentials :
    External → List Credential → List (String × Value) → PresentOptions → M VpSession (Unit {0})
unfolding creation_failed
present_credentials ext credentials scope o = do
  response ← on_error (create_authorized_response ext credentials scope o) creation_failed
  deliver ext o response

-- `PresentCredential`: no option sets `ignoreConstraints`.
unfoldable pub present_credential :
    External → List Credential → List (String × Value) → PresentOptions → M VpSession (Unit {0})
present_credential ext credentials scope o =
    present_credentials ext credentials scope (record o { ignore_constraints = false })

abbrev no_signer : Signer
no_signer = record { key_id = ""; name = "" }

unfoldable pub present_credential_unsafe :
    External → Credential → List (String × Value) → M VpSession (Unit {0})
present_credential_unsafe ext credential scope =
    present_credentials ext (credential ∷ []) scope (record {
      ignore_constraints = true;
      attestation_vp_signer = no_signer;
      attestation_vc = "";
      interaction_details = none;
    })
