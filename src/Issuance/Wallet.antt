-- ===== src/Issuance/Wallet.antt =====
-- pkg/openid4ci/walletinitiatedinteraction.go: the flow that the wallet starts by itself. Options are
-- taken as Options processes them.
pub mod Laws
use openvino_wallet.Base.{String, Bool, none, List, [], ◌∷◌}
use openvino_wallet.Base.Json.{null}
use openvino_wallet.Run.{M, ◌>>=◌, ◌>>◌, give, gets, modify, deref, zoom}
use openvino_wallet.Http.{World, log_metrics}
use openvino_wallet.IssuerMetadata.{CredentialConfigurationSupported}
use openvino_wallet.Issuance.Model.{External, Interaction, Session, Signer, Credential}
use openvino_wallet.Issuance.Interaction.{
  UrlRequest, populate_issuer_metadata, the_metadata, create_authorization_url,
  request_access_token,
}
use openvino_wallet.Issuance.Parse.{request_credential_with_auth}
use openvino_wallet.Issuance.Trust.{SupportedCredential}

pub record WalletInitiatedInteraction : Type 0 where
  pub interaction : Interaction
  pub credential_format : String
  pub credential_types : List String
  pub credential_context : List String

pub record WalletSession : Type 0 where
  pub world : World
  pub flow : WalletInitiatedInteraction

unfoldable pub on_wallet_interaction : {A : Type 0} → M Session A → M WalletSession A
unfolding zoom
on_wallet_interaction m =
    zoom (λ s. record { world = s.world; interaction = s.flow.interaction })
      (λ t s. record s { world = t.world; flow = record s.flow { interaction = t.interaction } }) m

-- `NewWalletInitiatedInteraction`, with a configuration that has its DID resolver.
unfoldable pub new_wallet_initiated_interaction :
    External → Bool → String → M World WalletInitiatedInteraction
new_wallet_initiated_interaction ext disable_checks issuer_uri = do
  log_metrics ext.network
      (record { event = "Instantiating OpenID4CI interaction object"; parent_event = "" })
  give (record {
    interaction = record {
      issuer_uri = issuer_uri;
      client_id = "";
      disable_vc_proof_checks = disable_checks;
      issuer_metadata = none;
      oauth2_config = none;
      auth_token_response_nonce = null;
      auth_token = none;
      auth_code_url_state = "";
      code_verifier = "";
      requested_acknowledgment = none;
    };
    credential_format = "";
    credential_types = [];
    credential_context = [];
  })

-- The loop over the configurations, in the order of the iteration over the map; a configuration
-- with no definition is a nil dereference.
supported_of :
    List (String × CredentialConfigurationSupported) → M Session (List SupportedCredential)
supported_of [] = give []
supported_of ((id, c) ∷ rest) = do
  d ← deref c.credential_definition
  others ← supported_of rest
  give (record { format = c.format; types = d.type } ∷ others)

unfoldable pub supported_credentials_of_issuer :
    External → M WalletSession (List SupportedCredential)
unfolding supported_of
supported_credentials_of_issuer ext = do
  on_wallet_interaction (populate_issuer_metadata ext "Get supported credentials")
  m ← on_wallet_interaction the_metadata
  on_wallet_interaction (supported_of m.credential_configurations_supported)

remember : UrlRequest → WalletSession → WalletSession
remember r s = record s {
  flow = record s.flow {
    credential_format = r.format;
    credential_types = r.types;
    credential_context = r.context;
  };
}

-- `CreateAuthorizationURL`: what was asked for is remembered only on success.
unfoldable pub create_wallet_authorization_url : External → UrlRequest → M WalletSession String
unfolding remember
create_wallet_authorization_url ext r = do
  url ← on_wallet_interaction (create_authorization_url ext r)
  modify (remember r)
  give url

-- `RequestCredential`: the signer's key ID is not checked in this flow.
unfoldable pub request_credential : External → Signer → String → M WalletSession (List Credential)
request_credential ext signer redirect_uri = do
  on_wallet_interaction (request_access_token ext redirect_uri)
  f ← gets (λ s. s.flow)
  on_wallet_interaction (
      request_credential_with_auth ext signer (record {
        formats = f.credential_format ∷ [];
        types = f.credential_types ∷ [];
        contexts = f.credential_context ∷ [];
      }))
