-- ===== src/Issuance/Issuer.antt =====
-- pkg/openid4ci/issuerinitiatedinteraction.go: the flow that starts from a credential offer. Options
-- are taken as Options processes them.
pub mod Laws
use Prim.Native.String.{◌++◌}
use openvino_wallet.Base.{
  ℕ, suc, String, Bool, true, false, not, ◌&&◌, Option, none, some, List, [], ◌∷◌, get_elem?,
  length, split, ltb, str_eq, is_some, is_empty, if◌then◌else◌,
}
use openvino_wallet.Base.Json.{null}
use openvino_wallet.Errors.{
  GoError, plain, wrapped, wallet, new_execution_error, new_invalid_sdk_usage_error,
}
use openvino_wallet.Run.{
  Run, M, ◌>>=◌, ◌>>◌, give, throw, gets, modify, deref, reject_if, lift, on_error, zoom,
}
use openvino_wallet.Http.{World, AuthToken, log_metrics}
use openvino_wallet.IssuerMetadata.{Metadata}
use openvino_wallet.Issuance.Model.{
  External, Interaction, Session, Signer, Credential, CredentialOffer, error_module, on_world,
}
use openvino_wallet.Issuance.Grants.{
  PreAuthorizedCodeGrantParams, AuthorizationCodeGrantParams, Grants,
  determine_issuer_grant_capabilities, pin_required,
}
use openvino_wallet.Issuance.Offer.{
  CredentialParameters, get_credential_offer, determine_credential_parameters,
}
use openvino_wallet.Issuance.Interaction.{
  UrlRequest, populate_issuer_metadata, the_metadata, create_authorization_url,
  request_access_token,
}
use openvino_wallet.Issuance.Request.{Wanted}
use openvino_wallet.Issuance.Parse.{request_credential_with_auth}
use openvino_wallet.Issuance.Acknowledgment.{Acknowledgment}
use openvino_wallet.Issuance.Trust.{requested_acknowledgment_obj}

pub record IssuerInitiatedInteraction : Type 0 where
  pub interaction : Interaction
  pub credential_types : List (List String)
  pub credential_formats : List String
  pub credential_config_ids : List String
  pub credential_contexts : List (List String)
  pub pre_authorized_code_grant_params : Option PreAuthorizedCodeGrantParams
  pub authorization_code_grant_params : Option AuthorizationCodeGrantParams
  pub auth_token : Option AuthToken

pub record IssuerSession : Type 0 where
  pub world : World
  pub flow : IssuerInitiatedInteraction

-- A call of a method of the shared `interaction`.
unfoldable pub on_interaction : {A : Type 0} → M Session A → M IssuerSession A
unfolding zoom
on_interaction m =
    zoom (λ s. record { world = s.world; interaction = s.flow.interaction })
      (λ t s. record s { world = t.world; flow = record s.flow { interaction = t.interaction } }) m

unfoldable pub usage_error : String → GoError
usage_error message = wallet (new_invalid_sdk_usage_error error_module (plain message))

new_interaction : Bool → CredentialOffer → Interaction
new_interaction disable_checks offer = record {
  issuer_uri = offer.credential_issuer;
  client_id = "";
  disable_vc_proof_checks = disable_checks;
  issuer_metadata = none;
  oauth2_config = none;
  auth_token_response_nonce = null;
  auth_token = none;
  auth_code_url_state = "";
  code_verifier = "";
  requested_acknowledgment = none;
}

assemble : Grants → CredentialParameters → List String → Interaction → IssuerInitiatedInteraction
assemble grants parameters ids i = record {
  interaction = i;
  credential_types = parameters.types;
  credential_formats = parameters.formats;
  credential_config_ids = ids;
  credential_contexts = parameters.contexts;
  pre_authorized_code_grant_params = grants.pre_authorized;
  authorization_code_grant_params = grants.authorization;
  auth_token = none;
}

-- What `NewIssuerInitiatedInteraction` does once the offer is there, over a fresh `interaction`.
unfoldable pub prepare : External → CredentialOffer → M Session IssuerInitiatedInteraction
unfolding assemble
prepare ext offer = do
  populate_issuer_metadata ext "Get issuer metadata"
  grants ← lift (determine_issuer_grant_capabilities offer)
  m ← the_metadata
  parameters ← determine_credential_parameters offer m
  on_world (
      log_metrics ext.network
        (record { event = "Instantiating OpenID4CI interaction object"; parent_event = "" }))
  i ← gets (λ s. s.interaction)
  give (assemble grants parameters offer.credential_configuration_ids i)

-- `NewIssuerInitiatedInteraction`. The configuration is given with its DID resolver, so
-- `validateRequiredParameters` does not refuse it.
unfoldable pub new_issuer_initiated_interaction :
    External → Bool → String → M World IssuerInitiatedInteraction
unfolding new_interaction
new_issuer_initiated_interaction ext disable_checks uri = do
  offer ← get_credential_offer ext uri
  λ w.
      zoom {T = Session}
        (λ w. record { world = w; interaction = new_interaction disable_checks offer })
        (λ s w. s.world) (prepare ext offer) w

unfoldable pub issuer_state_conflict : GoError
unfolding usage_error
issuer_state_conflict =
    usage_error
      "the credential offer already specifies an issuer state, and a conflicting issuer state value was provided. An issuer state should only be provided if required by the issuer and the credential offer does not specify one already"

-- `determineIssuerStateToUse`, of the offer's state and the caller's.
unfoldable pub determine_issuer_state_to_use :
    {S : Type 0} → Option String → Option String → M S (Option String)
unfolding issuer_state_conflict
determine_issuer_state_to_use none given = give given
determine_issuer_state_to_use (some offered) none = give (some offered)
determine_issuer_state_to_use (some offered) (some given) = do
  reject_if (not (str_eq offered given)) issuer_state_conflict
  give (some offered)

-- The caller's arguments of `CreateAuthorizationURL`.
pub record UrlOptions : Type 0 where
  pub client_id : String
  pub redirect_uri : String
  pub issuer_state : Option String
  pub scopes : List String
  pub use_discoverable_scheme : Bool

need_authorization_grant :
    Option AuthorizationCodeGrantParams → M IssuerSession AuthorizationCodeGrantParams
unfolding usage_error
need_authorization_grant none =
    throw (usage_error "issuer does not support the authorization code grant type")
need_authorization_grant (some p) = give p

unfoldable pub create_authorization_url_from_offer : External → UrlOptions → M IssuerSession String
unfolding need_authorization_grant
create_authorization_url_from_offer ext o = do
  f ← gets (λ s. s.flow)
  grant ← need_authorization_grant f.authorization_code_grant_params
  state ← determine_issuer_state_to_use grant.issuer_state o.issuer_state
  format ← deref (get_elem? f.credential_formats 0)
  types ← deref (get_elem? f.credential_types 0)
  context ← deref (get_elem? f.credential_contexts 0)
  on_interaction (
      create_authorization_url ext (record {
        client_id = o.client_id;
        redirect_uri = o.redirect_uri;
        format = format;
        types = types;
        context = context;
        issuer_state = state;
        scopes = o.scopes;
        use_discoverable_scheme = o.use_discoverable_scheme;
      }))

unfoldable pub validate_signer_key_id : {S : Type 0} → Signer → M S (Unit {0})
validate_signer_key_id signer = reject_if (ltb (length (split b'#' signer.key_id)) 2) (
    wallet (
      new_execution_error error_module 6 "KEY_ID_MISSING_DID_PART"
        (plain ("key ID (" ++ (signer.key_id ++ ") is missing the DID part")))))

abbrev pub wanted_of : IssuerInitiatedInteraction → Wanted
wanted_of f = record {
  formats = f.credential_formats;
  types = f.credential_types;
  contexts = f.credential_contexts;
}

-- `RequestCredentialWithAuth`.
unfoldable pub request_credential_with_auth_from_offer :
    External → Signer → String → M IssuerSession (List Credential)
unfolding need_authorization_grant
request_credential_with_auth_from_offer ext signer redirect_uri = do
  f ← gets (λ s. s.flow)
  grant ← need_authorization_grant f.authorization_code_grant_params
  validate_signer_key_id signer
  on_interaction (request_access_token ext redirect_uri)
  on_interaction (request_credential_with_auth ext signer (wanted_of f))

-- `Acknowledgment`: the flow's own token if there is one, else the `interaction`'s.
prefer : Option AuthToken → Option AuthToken → Option AuthToken
prefer (some own) other = some own
prefer none other = other

unfoldable pub acknowledgment_of_flow : M IssuerSession Acknowledgment
unfolding prefer
acknowledgment_of_flow = do
  f ← gets (λ s. s.flow)
  on_interaction (requested_acknowledgment_obj (prefer f.auth_token f.interaction.auth_token))
