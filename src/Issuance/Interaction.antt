-- ===== src/Issuance/Interaction.antt =====
-- The authorization half of pkg/openid4ci/interaction.go: the issuer's metadata, the authorization
-- URL, and the access token.
pub mod Laws
pub mod Cache
use openvino_wallet.Base.{
  ℕ, suc, String, Bool, not, Option, none, some, List, [], ◌∷◌, ◌++◌, lookup, str_eq, is_some,
  is_empty, if◌then◌else◌,
}
use openvino_wallet.Base.Json.{Value, text}
use openvino_wallet.Errors.{
  GoError, plain, wrapped, wallet, new_execution_error, new_invalid_sdk_usage_error,
}
use openvino_wallet.Run.{
  Run, M, ◌>>=◌, ◌>>◌, give, throw, gets, modify, deref, reject_if, lift, on_error, Result,
}
use openvino_wallet.Http.{World, OauthConfig, AuthToken, token_exchange}
use openvino_wallet.IssuerMetadata.{Metadata, CredentialDefinition, get_metadata}
use openvino_wallet.Issuance.Model.{
  External, Interaction, Session, AuthorizationDetails, ExchangedToken, Url, error_module, on_world,
  set_interaction, read_source,
}

fetch_issuer_metadata : External → String → Option Metadata → M Session (Unit {0})
fetch_issuer_metadata ext parent_event (some m) = give tt
fetch_issuer_metadata ext parent_event none = do
  uri ← gets (λ s. s.interaction.issuer_uri)
  m ← on_error (on_world (get_metadata ext.network ext.decoder uri parent_event)) (λ e. wallet (
      new_execution_error error_module 4 "METADATA_FETCH_FAILED"
        (wrapped "failed to get issuer metadata" e)))
  modify (set_interaction (λ i. record i { issuer_metadata = some m }))

unfoldable pub populate_issuer_metadata : External → String → M Session (Unit {0})
unfolding fetch_issuer_metadata
populate_issuer_metadata ext parent_event s =
    fetch_issuer_metadata ext parent_event s.interaction.issuer_metadata s

-- `i.issuerMetadata`, where a nil pointer is a panic.
unfoldable pub the_metadata : M Session Metadata
the_metadata s = deref s.interaction.issuer_metadata s

unfoldable pub instantiate_oauth2_config : String → String → List String → M Session (Unit {0})
instantiate_oauth2_config client_id redirect_uri scopes = do
  m ← the_metadata
  modify (
      set_interaction (λ i. record i {
        oauth2_config = some (record {
          client_id = client_id;
          auth_url = m.authorization_server;
          token_url = "";
          redirect_url = redirect_uri;
          scopes = scopes;
        });
      }))

unfoldable pub instantiate_code_verifier : External → M Session (Unit {0})
instantiate_code_verifier ext = do
  drawn ← read_source ext.random_bytes
  bytes ← lift drawn
  modify (set_interaction (λ i. record i { code_verifier = ext.base64_url bytes }))

unfoldable pub generate_authorization_details :
    External → String → List String → List String → M Session String
generate_authorization_details ext format types context = do
  m ← the_metadata
  lift (
      ext.marshal_details (
        record {
          credential_configuration_id = "";
          credential_definition = record {
            context = context;
            credential_subject = [];
            type = types;
          };
          format = format;
          locations = if is_empty m.authorization_server then [] else m.credential_issuer ∷ [];
          type = "openid_credential";
        }
        ∷ []))

unfoldable pub generate_code_challenge : External → String → String
generate_code_challenge ext code_verifier = ext.base64_url (ext.sha256 code_verifier)

state_option : Option String → List (String × String)
state_option none = []
state_option (some state) = ("issuer_state", state) ∷ []

scheme_option : Bool → List (String × String)
scheme_option use_scheme =
    if use_scheme
    then ("client_id_scheme", "urn:ietf:params:oauth:client-id-scheme:oauth-discoverable-client")
      ∷ []
    else []

unfoldable pub generate_auth_code_options :
    External → String → String → Option String → Bool → List (String × String)
unfolding generate_code_challenge state_option scheme_option
generate_auth_code_options ext code_verifier details issuer_state use_scheme =
    ("code_challenge", generate_code_challenge ext code_verifier)
    ∷ ("code_challenge_method", "S256")
    ∷ ("authorization_details", details)
    ∷ (state_option issuer_state ++ scheme_option use_scheme)

-- The arguments of `createAuthorizationURL`.
pub record UrlRequest : Type 0 where
  pub client_id : String
  pub redirect_uri : String
  pub format : String
  pub types : List String
  pub context : List String
  pub issuer_state : Option String
  pub scopes : List String
  pub use_discoverable_scheme : Bool

unfoldable pub create_authorization_url : External → UrlRequest → M Session String
create_authorization_url ext r = do
  populate_issuer_metadata ext "Authorization"
  instantiate_oauth2_config r.client_id r.redirect_uri r.scopes
  instantiate_code_verifier ext
  details ← generate_authorization_details ext r.format r.types r.context
  verifier ← gets (λ s. s.interaction.code_verifier)
  state ← read_source ext.uuid
  modify (set_interaction (λ i. record i { auth_code_url_state = state; client_id = r.client_id }))
  config ← gets (λ s. s.interaction.oauth2_config)
  c ← deref config
  give (
      ext.auth_code_url c state
        (generate_auth_code_options ext verifier details r.issuer_state r.use_discoverable_scheme))

unfoldable pub get_token_endpoint : M Session String
get_token_endpoint = do
  m ← the_metadata
  reject_if (is_empty m.token_endpoint) (
      wallet (
        new_execution_error error_module 20 "NO_TOKEN_ENDPOINT_AVAILABLE"
          (plain "no token endpoint specified in issuer's metadata")))
  give m.token_endpoint

-- `oAuth2Config.Exchange`, which sends the code and the verifier to the token endpoint.
unfoldable pub exchange_code : External → OauthConfig → String → String → M Session ExchangedToken
exchange_code ext config code verifier s =
    lift (ext.exchange s.world.calls config code verifier) (record s {
      world = record s.world { calls = token_exchange config code verifier ∷ s.world.calls };
    })

value_or_empty : Option String → String
value_or_empty none = ""
value_or_empty (some s) = s

-- `parsedURI.Query().Get(key)`.
unfoldable pub query_value : Url → String → String
unfolding value_or_empty
query_value u key = value_or_empty (lookup key u.query)

unfoldable pub state_mismatch : GoError
state_mismatch = wallet (
    new_execution_error error_module 8 "STATE_IN_REDIRECT_URI_NOT_MATCHING_AUTH_URL"
      (plain "state in redirect URI does not match the state from the authorization URL"))

need_config : Option OauthConfig → M Session OauthConfig
need_config none = throw (plain "authorization URL must be created first")
need_config (some c) = give c

-- The checks of `requestAccessToken` before anything is sent.
unfoldable pub check_redirect : External → String → M Session Url
unfolding state_mismatch
check_redirect ext redirect_uri = do
  u ← lift (ext.parse_url redirect_uri)
  reject_if (not (is_some (lookup "code" u.query)))
      (plain "redirect URI is missing an authorization code")
  reject_if (not (is_some (lookup "state" u.query))) (plain "redirect URI is missing a state value")
  saved ← gets (λ s. s.interaction.auth_code_url_state)
  reject_if (not (str_eq (query_value u "state") saved)) state_mismatch
  give u

unfoldable pub store_token : ExchangedToken → Interaction → Interaction
store_token t i = record i {
  auth_token_response_nonce = t.extra_c_nonce;
  auth_token = some (record {
    access_token = t.access_token;
    token_type = t.token_type;
    expires_at = t.expiry;
    refresh_token = t.refresh_token;
  });
}

-- The exchange itself: the last part of `requestAccessToken`.
unfoldable pub trade_code : External → OauthConfig → Url → String → M Session (Unit {0})
trade_code ext c u endpoint = do
  modify
      (set_interaction (λ i. record i { oauth2_config = some (record c { token_url = endpoint }) }))
  verifier ← gets (λ s. s.interaction.code_verifier)
  t ← exchange_code ext (record c { token_url = endpoint }) (query_value u "code") verifier
  modify (set_interaction (store_token t))

unfoldable pub request_access_token : External → String → M Session (Unit {0})
unfolding need_config
request_access_token ext redirect_uri = do
  config ← gets (λ s. s.interaction.oauth2_config)
  c ← need_config config
  u ← check_redirect ext redirect_uri
  endpoint ← get_token_endpoint
  trade_code ext c u endpoint

unfoldable pub dynamic_client_registration_supported : External → M Session Bool
dynamic_client_registration_supported ext = do
  populate_issuer_metadata ext "Dynamic client registration supported"
  m ← the_metadata
  give (is_some m.registration_endpoint)

registration_endpoint_or : Option String → M Session String
registration_endpoint_or none = throw (
    wallet (
      new_invalid_sdk_usage_error error_module
        (plain "issuer does not support dynamic client registration")))
registration_endpoint_or (some e) = give e

unfoldable pub dynamic_client_registration_endpoint : External → M Session String
unfolding registration_endpoint_or
dynamic_client_registration_endpoint ext = do
  populate_issuer_metadata ext "Dynamic client registration endpoint"
  m ← the_metadata
  registration_endpoint_or m.registration_endpoint
