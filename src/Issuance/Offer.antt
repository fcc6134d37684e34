-- ===== src/Issuance/Offer.antt =====
-- The credential offer: `getCredentialOffer` and `determineCredentialParameters` of
-- pkg/openid4ci/issuerinitiatedinteraction.go.
pub mod Laws
use Prim.Native.String.{◌++◌}
use openvino_wallet.Base.{
  ℕ, suc, String, Bool, not, ◌&&◌, ◌||◌, Option, none, some, List, [], ◌∷◌, lookup, decimal, str_eq,
  is_some, if◌then◌else◌,
}
use openvino_wallet.Errors.{GoError, plain, wrapped, wallet, new_validation_error}
use openvino_wallet.Run.{
  M, ◌>>=◌, ◌>>◌, give, throw, deref, reject_if, lift, on_error, Result, ok, err,
}
use openvino_wallet.Http.{World, configured, do_request}
use openvino_wallet.IssuerMetadata.{
  Metadata, CredentialConfigurationSupported, CredentialDefinition,
}
use openvino_wallet.Issuance.Model.{External, CredentialOffer, Url, error_module}

unfoldable pub get_credential_offer_json_from_credential_offer_uri :
    External → String → M World String
get_credential_offer_json_from_credential_offer_uri ext uri =
    on_error
      (do_request ext.network configured "GET" uri "" ""
        ("Fetch credential offer via an HTTP GET request to " ++ uri)
        "Instantiating OpenID4CI interaction object" none)
      (λ e. wallet (
        new_validation_error error_module 1 "INVALID_CREDENTIAL_OFFER" (
          wrapped
            "failed to get credential offer from the endpoint specified in the credential_offer_uri URL query parameter"
            e)))

-- The switch on the query of the issuance URI.
unfoldable pub offer_json : External → Option String → Option String → M World String
offer_json ext (some inline) by_uri = give inline
offer_json ext none (some uri) = get_credential_offer_json_from_credential_offer_uri ext uri
offer_json ext none none = throw (
    wallet (
      new_validation_error error_module 0 "INVALID_ISSUANCE_URI"
        (plain "credential offer query parameter missing from initiate issuance URI")))

unfoldable pub get_credential_offer : External → String → M World CredentialOffer
get_credential_offer ext initiate_issuance_uri = do
  url ←
      on_error (lift (ext.parse_url initiate_issuance_uri))
        (λ e. wallet (new_validation_error error_module 0 "INVALID_ISSUANCE_URI" e))
  reject_if (not (str_eq url.scheme "openid-credential-offer")) (
      wallet (
        new_validation_error error_module 19 "UNSUPPORTED_ISSUANCE_URI_SCHEME"
          (plain (url.scheme ++ " is not a supported issuance URL scheme"))))
  json ←
      offer_json ext (lookup "credential_offer" url.query) (lookup "credential_offer_uri" url.query)
  on_error (lift (ext.unmarshal_credential_offer json)) (λ e. wallet (
      new_validation_error error_module 1 "INVALID_CREDENTIAL_OFFER"
        (wrapped "failed to unmarshal credential offer JSON into a credential offer object" e)))

-- What `determineCredentialParameters` returns: one entry for each configuration ID.
pub record CredentialParameters : Type 0 where
  pub types : List (List String)
  pub formats : List String
  pub contexts : List (List String)

abbrev pub is_supported_format : String → Bool
is_supported_format f = str_eq f "jwt_vc_json" || str_eq f "jwt_vc_json-ld" || str_eq f "ldp_vc"

invalid_id : String → GoError
invalid_id id = wallet (
    new_validation_error error_module 22 "INVALID_CREDENTIAL_CONFIGURATION_ID"
      (plain ("invalid credential configuration ID (" ++ (id ++ ") in credential offer"))))

unsupported_format : String → ℕ → GoError
unfolding decimal
unsupported_format format i = wallet (
    new_validation_error error_module 2 "UNSUPPORTED_CREDENTIAL_TYPE_IN_OFFER" (
      plain (
        "unsupported credential type ("
        ++ (format
            ++ (") in credential offer at index "
                ++ (decimal i
                    ++ " of credential_configurations_supported (must be jwt_vc_json or jwt_vc_json-ld)"))))))

-- A map lookup with its `ok`, as a result.
found_or : {A : Type 0} → GoError → Option A → Result A
found_or e none = err e
found_or e (some a) = ok a

abbrev context_of : String → CredentialDefinition → List String
context_of format d = if str_eq format "ldp_vc" then d.context else []

-- The loop, from index `i`. The definition is read before it is compared with nil, so a
-- configuration without one is a panic.
unfoldable pub credential_parameters :
    {S : Type 0} → Metadata → ℕ → List String → M S CredentialParameters
unfolding found_or invalid_id unsupported_format
credential_parameters metadata i [] = give (record { types = []; formats = []; contexts = [] })
credential_parameters metadata i (id ∷ ids) = do
  configuration ←
      lift (found_or (invalid_id id) (lookup id metadata.credential_configurations_supported))
  definition ← deref configuration.credential_definition
  reject_if (not (is_supported_format configuration.format))
      (unsupported_format configuration.format i)
  rest ← credential_parameters metadata (suc i) ids
  give (record {
    types = definition.type ∷ rest.types;
    formats = configuration.format ∷ rest.formats;
    contexts = context_of configuration.format definition ∷ rest.contexts;
  })

unfoldable pub determine_credential_parameters :
    {S : Type 0} → CredentialOffer → Metadata → M S CredentialParameters
determine_credential_parameters offer metadata =
    credential_parameters metadata 0 offer.credential_configuration_ids
