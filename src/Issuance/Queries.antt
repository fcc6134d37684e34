-- ===== src/Issuance/Queries.antt =====
-- The methods of pkg/openid4ci's two flows by which a caller asks about an offer or an issuer.
use openvino_wallet.Base.{String, Bool, none, some, List, is_some}
use openvino_wallet.Run.{M, ◌>>=◌, ◌>>◌, gets, Result, ok, err}
use openvino_wallet.IssuerMetadata.{Metadata}
use openvino_wallet.Issuance.Model.{External, Session}
use openvino_wallet.Issuance.Grants.{PreAuthorizedCodeGrantParams, AuthorizationCodeGrantParams}
use openvino_wallet.Issuance.Interaction.{
  populate_issuer_metadata, the_metadata, dynamic_client_registration_supported,
  dynamic_client_registration_endpoint,
}
use openvino_wallet.Issuance.Issuer.{
  IssuerInitiatedInteraction, IssuerSession, on_interaction, usage_error,
}
use openvino_wallet.Issuance.Wallet.{WalletSession, on_wallet_interaction}
use openvino_wallet.Issuance.Trust.{
  IssuerTrustInfo, verify_issuer, issuer_full_trust_info, require_acknowledgment,
}

unfoldable pub issuer_uri : IssuerInitiatedInteraction → String
issuer_uri f = f.interaction.issuer_uri

unfoldable pub pre_authorized_code_grant_type_supported : IssuerInitiatedInteraction → Bool
pre_authorized_code_grant_type_supported f = is_some f.pre_authorized_code_grant_params

unfoldable pub pre_authorized_code_grant_params :
    IssuerInitiatedInteraction → Result PreAuthorizedCodeGrantParams
unfolding usage_error
pre_authorized_code_grant_params f = elim f.pre_authorized_code_grant_params [
  | none ↦ err (usage_error "issuer does not support the pre-authorized code grant")
  | some params ↦ ok params
]

unfoldable pub credential_config_ids : IssuerInitiatedInteraction → List String
credential_config_ids f = f.credential_config_ids

unfoldable pub authorization_code_grant_type_supported : IssuerInitiatedInteraction → Bool
authorization_code_grant_type_supported f = is_some f.authorization_code_grant_params

unfoldable pub authorization_code_grant_params :
    IssuerInitiatedInteraction → Result AuthorizationCodeGrantParams
unfolding usage_error
authorization_code_grant_params f = elim f.authorization_code_grant_params [
  | none ↦ err (usage_error "issuer does not support the authorization code grant")
  | some params ↦ ok params
]

unfoldable pub offered_credentials_types : IssuerInitiatedInteraction → List (List String)
offered_credentials_types f = f.credential_types

-- `IssuerMetadata` of both flows.
unfoldable pub shared_metadata : External → M Session Metadata
shared_metadata ext = do populate_issuer_metadata ext "Get issuer metadata"; the_metadata

-- The methods of the flow that starts from an offer.
unfoldable pub issuer_metadata : External → M IssuerSession Metadata
issuer_metadata ext = on_interaction (shared_metadata ext)

unfoldable pub registration_supported : External → M IssuerSession Bool
registration_supported ext = on_interaction (dynamic_client_registration_supported ext)

unfoldable pub registration_endpoint : External → M IssuerSession String
registration_endpoint ext = on_interaction (dynamic_client_registration_endpoint ext)

unfoldable pub verify_issuer_of_offer : External → M IssuerSession String
verify_issuer_of_offer ext = on_interaction (verify_issuer ext)

unfoldable pub issuer_trust_info : External → M IssuerSession IssuerTrustInfo
issuer_trust_info ext = do
  f ← gets (λ s. s.flow)
  on_interaction (issuer_full_trust_info ext f.credential_types f.credential_formats)

unfoldable pub acknowledgment_required : M IssuerSession Bool
acknowledgment_required = on_interaction require_acknowledgment

-- The methods of the flow that the wallet starts.
unfoldable pub wallet_issuer_metadata : External → M WalletSession Metadata
wallet_issuer_metadata ext = on_wallet_interaction (shared_metadata ext)

unfoldable pub wallet_registration_supported : External → M WalletSession Bool
wallet_registration_supported ext =
    on_wallet_interaction (dynamic_client_registration_supported ext)

unfoldable pub wallet_registration_endpoint : External → M WalletSession String
wallet_registration_endpoint ext = on_wallet_interaction (dynamic_client_registration_endpoint ext)

unfoldable pub wallet_verify_issuer : External → M WalletSession String
wallet_verify_issuer ext = on_wallet_interaction (verify_issuer ext)
