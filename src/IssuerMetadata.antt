-- ===== src/IssuerMetadata.antt =====
-- pkg/models/issuer/metadata.go and pkg/internal/issuermetadata/issuermetadata.go: the issuer's
-- metadata and how it is fetched, plain or signed. Decoding JSON and checking a JWT are parameters.
-- Metadata fields that no modelled code reads are left out.
pub mod Laws
use Prim.Native.String.{◌++◌}
use openvino_wallet.Base.{
  ℕ, index_of, String, Option, none, some, List, is_empty, if◌then◌else◌, trim_suffix,
}
use openvino_wallet.Errors.{GoError, plain, wrapped}
use openvino_wallet.Run.{M, ◌>>=◌, lift, on_error, Result, ok, err}
use openvino_wallet.Http.{World, Network, configured, do_request}

pub record Logo : Type 0 where
  pub url : String
  pub alt_text : String

pub record LocalizedCredentialDisplay : Type 0 where
  pub name : String
  pub locale : String
  pub logo : Option Logo
  pub background_color : String
  pub text_color : String

pub record LocalizedIssuerDisplay : Type 0 where
  pub name : String
  pub locale : String
  pub url : String
  pub logo : Option Logo
  pub background_color : String
  pub text_color : String

pub record LocalizedClaimDisplay : Type 0 where
  pub name : String
  pub locale : String

pub record Claim : Type 0 where
  pub localized_claim_displays : List LocalizedClaimDisplay
  pub value_type : String
  pub pattern : String
  pub mask : String

-- `CredentialSubject` maps to pointers: a claim that is null in the JSON is nil.
pub record CredentialDefinition : Type 0 where
  pub context : List String
  pub credential_subject : List (String × Option Claim)
  pub type : List String

pub record CredentialConfigurationSupported : Type 0 where
  pub credential_definition : Option CredentialDefinition
  pub localized_credential_displays : List LocalizedCredentialDisplay
  pub format : String
  pub order : List String

-- The configurations are pointers. One that is null in the JSON is a configuration without a definition
-- here: what reads a configuration reads its definition first, and panics for either, but for
-- `ResolveCredential` with the ID of a configuration, which refuses a nil one.
pub record Metadata : Type 0 where
  pub jwt_kid : Option String
  pub authorization_server : String
  pub batch_credential_endpoint : String
  pub credential_configurations_supported : List (String × CredentialConfigurationSupported)
  pub credential_endpoint : String
  pub credential_issuer : String
  pub localized_issuer_displays : List LocalizedIssuerDisplay
  pub notification_endpoint : String
  pub registration_endpoint : Option String
  pub signed_metadata : String
  pub token_endpoint : String

-- `ClaimOrderAsInt`.
unfoldable pub claim_order_as_int : CredentialConfigurationSupported → String → Result ℕ
claim_order_as_int c name = elim (index_of name c.order) [
  | some i ↦ ok i
  | none ↦ err (plain "order is not specified")
]

-- What `jwt.ParseAndCheckProof` gives for an accepted JWT: the payload, and the key ID of the header
-- if it has one that is a string.
pub record CheckedJwt : Type 0 where
  pub payload : String
  pub key_id : Option String

-- `decode` is `json.Unmarshal` into `issuer.Metadata`; `check` is `jwt.ParseAndCheckProof` with the
-- signature verifier, `none` where the caller passes no verifier.
pub record Decoder : Type 0 where
  pub decode : String → Result Metadata
  pub check : Option (String → Result CheckedJwt)

-- A decoder cannot set the unexported field `jwtKID`.
unfoldable pub unmarshal_metadata : Decoder → String → Result Metadata
unmarshal_metadata d bytes = elim (d.decode bytes) [
  | ok m ↦ ok (record m { jwt_kid = none })
  | err e ↦ err e
]

with_key_id : Metadata → Option String → Result Metadata
with_key_id m none = err (
    plain
      "issuer's OpenID configuration endpoint returned a JWT, but the kid header value is missing or is not a string")
with_key_id m (some kid) = ok (record m { jwt_kid = some kid })

from_payload : Decoder → CheckedJwt → Result Metadata
unfolding with_key_id unmarshal_metadata
from_payload d jwt = elim (unmarshal_metadata d jwt.payload) [
  | err e ↦ err (
      wrapped
        "failed to unmarshal the marshalled issuer metadata JSON into an issuer metadata object OpenID configuration endpoint"
        e)
  | ok m ↦ with_key_id m jwt.key_id
]

-- `errUnmarshal` is always nil here, and `errors.Join` then keeps the other error alone.
unfoldable pub issuer_metadata_object_from_jwt : Decoder → String → Result Metadata
unfolding from_payload
issuer_metadata_object_from_jwt d signed = elim d.check [
  | none ↦ err (plain "missing signature verifier")
  | some check ↦ elim (check signed) [
    | err e ↦ err (
        wrapped
          "failed to parse the response from the issuer's OpenID Credential Issuer endpoint as JSON or as a JWT"
          e)
    | ok jwt ↦ from_payload d jwt
  ]
]

signed_or_plain : Decoder → Metadata → Result Metadata
unfolding issuer_metadata_object_from_jwt
signed_or_plain d m =
    if is_empty m.signed_metadata then ok m else issuer_metadata_object_from_jwt d m.signed_metadata

unfoldable pub response_bytes_to_issuer_metadata_object : Decoder → String → Result Metadata
unfolding signed_or_plain unmarshal_metadata
response_bytes_to_issuer_metadata_object d bytes = elim (unmarshal_metadata d bytes) [
  | err e ↦ err (wrapped "decode metadata" e)
  | ok m ↦ signed_or_plain d m
]

unfoldable pub metadata_endpoint : String → String
unfolding trim_suffix
metadata_endpoint issuer_uri = trim_suffix issuer_uri "/" ++ "/.well-known/openid-credential-issuer"

-- `Get`. The callers pass an HTTP client and a metrics logger, so the defaults are not modelled.
unfoldable pub get_metadata : Network → Decoder → String → String → M World Metadata
get_metadata net d issuer_uri parent_event = do
  bytes ←
      on_error
        (do_request net configured "GET" (metadata_endpoint issuer_uri) "" ""
          ("Fetch issuer metadata via an HTTP GET request to " ++ metadata_endpoint issuer_uri)
          parent_event none)
        (wrapped "failed to get response from the issuer's metadata endpoint")
  lift (response_bytes_to_issuer_metadata_object d bytes)
