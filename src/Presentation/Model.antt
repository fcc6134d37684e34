-- ===== src/Presentation/Model.antt =====
-- The data of pkg/openid4vp (request_object.go, tokens.go, the structs of openid4vp.go), and what the
-- flow takes from outside: JWTs, presentation exchange, JSON, URLs, DID resolution, keys and
-- signatures, the clock and random numbers. The parts of vc-go's types that the flow does not read
-- are left out.
use openvino_wallet.Base.{ℕ, suc, String, Bool, Option, List}
use openvino_wallet.Base.Json.{Value}
use openvino_wallet.Errors.{GoError}
use openvino_wallet.Run.{M, done, Result, zoom}
use openvino_wallet.Http.{World, Network}
use openvino_wallet.Wellknown.{Resolver}
use openvino_wallet.Issuance.Model.{Url, Signer, Claims}

abbrev pub error_module : String
error_module = "OVP"

-- `presexch.InputDescriptor`, `presexch.PresentationDefinition` and `presexch.Format`.
pub record InputDescriptor : Type 0 where
  pub id : String
  pub constraints : Option Value

pub record PresentationDefinition : Type 0 where
  pub id : String
  pub input_descriptors : List InputDescriptor

pub record Format : Type 0 where
  pub ldp_vp : Option (List String)

pub record ClientMetadata : Type 0 where
  pub client_name : String
  pub client_purpose : String
  pub client_logo_uri : String
  pub subject_syntax_types_supported : List String
  pub vp_formats : Option Format

pub record Registration : Type 0 where
  pub client_name : String
  pub subject_syntax_types_supported : List String
  pub vp_formats : Option Format
  pub client_purpose : String
  pub logo_uri : String

-- `requestObject`; `claims_definition` is `Claims.VPToken.PresentationDefinition`.
pub record RequestObject : Type 0 where
  pub issuer : String
  pub response_type : String
  pub response_uri : String
  pub scope : String
  pub nonce : String
  pub client_id : String
  pub client_id_scheme : String
  pub state : String
  pub client_metadata : ClientMetadata
  pub presentation_definition : Option PresentationDefinition
  pub redirect_uri : String
  pub registration : Registration
  pub claims_definition : Option PresentationDefinition

-- `verifiable.Credential` and `verifiable.Presentation`.
pub record Credential : Type 0 where
  pub id : String
  pub is_jwt : Bool
  pub subjects : List Value

-- `presexch.InputDescriptorMapping`, with the path of its `PathNested`.
pub record Descriptor : Type 0 where
  pub id : String
  pub format : String
  pub path : String
  pub nested_path : Option String

-- A `presentation_submission`: a `*presexch.PresentationSubmission`, or any other value.
pub data Submission : Type 0 where
  submission : String → List Descriptor → Submission
  untyped : Value → Submission

-- `submission` is the custom field "presentation_submission", beside the others.
pub record Presentation : Type 0 where
  pub id : String
  pub submission : Submission
  pub custom_fields : List (String × Value)
  pub credentials : List Credential

pub record VerificationMethod : Type 0 where
  pub id : String
  pub type : String

pub data VpFormat : Type 0 where
  jwt_vp ldp_vp : VpFormat

pub record VpTokenClaims : Type 0 where
  pub vp : Presentation
  pub nonce : String
  pub exp : ℕ
  pub iss : String
  pub aud : String
  pub nbf : ℕ
  pub iat : ℕ
  pub jti : String

pub record IdTokenClaims : Type 0 where
  pub scope : List (String × Value)
  pub attestation_vp : String
  pub nonce : String
  pub exp : ℕ
  pub iss : String
  pub sub : String
  pub aud : String
  pub nbf : ℕ
  pub iat : ℕ
  pub jti : String
  pub vp_token : Submission

pub data TokenClaims : Type 0 where
  vp_token_claims : VpTokenClaims → TokenClaims
  id_token_claims : IdTokenClaims → TokenClaims
  attestation_claims : Claims → TokenClaims

pub record AuthorizedResponse : Type 0 where
  pub id_token_jws : String
  pub vp_token : String
  pub presentation_submission : String
  pub state : String

pub record ErrorResponse : Type 0 where
  pub error : String
  pub error_description : String

-- `msEntraErrorResponse`, down to its inner error.
pub record EntraError : Type 0 where
  pub code : String
  pub message : String

-- The arguments of `ldproof.Add` beside the presentation.
pub record LdProofRequest : Type 0 where
  pub ldp_type : List String
  pub method : VerificationMethod
  pub did : String
  pub challenge : String
  pub domain : String

pub record External : Type 0 where
  pub network : Network
  pub resolver : Resolver
  pub now : ℕ → ℕ
  pub uuid : ℕ → String
  -- `crypto/rand.Int` below a bound
  pub random_below : ℕ → ℕ → Result ℕ
  pub parse_url : String → Result Url
  pub encode_form : List (String × String) → String
  pub base64_std : String → String
  -- `jwt.Parse` into a request object, and `jwt.CheckProof` for the issuer
  pub parse_request_jwt : String → Result RequestObject
  pub check_proof : String → String → Option GoError
  pub unmarshal_error_response : String → Result ErrorResponse
  pub unmarshal_entra_error : String → Result EntraError
  pub marshal_submission : Submission → Result String
  pub marshal_tokens : List String → Result String
  pub marshal_details : List (String × Value) → Result String
  pub marshal_presentation : Presentation → Result String
  -- `CreateVP` and `CreateVPArray` of the definition
  pub create_vp : Option PresentationDefinition → VpFormat → List Credential → Result Presentation
  pub create_vp_array :
      Option PresentationDefinition
      → VpFormat
      → List Credential
      → Result (List Presentation × Submission)
  pub subject_id : List Value → Result String
  -- the assertion methods of a resolved DID document, and the signer for one
  pub assertion_methods : String → Result (List VerificationMethod)
  pub new_jws_signer : VerificationMethod → Result Signer
  pub new_signed : TokenClaims → Signer → Result String
  pub serialize : String → Result String
  pub add_ld_proof : LdProofRequest → Presentation → Result Presentation
  pub deep_copy_error : Submission → Option GoError
  pub parse_attestation : String → Result Credential
  pub new_presentation : Credential → Result Presentation
  pub presentation_claims : Presentation → Result Claims

pub record VpSession : Type 0 where
  pub world : World
  pub request_object : RequestObject

unfoldable pub on_world : {A : Type 0} → M World A → M VpSession A
unfolding zoom
on_world m = zoom (λ s. s.world) (λ w s. record s { world = w }) m

-- Reading the clock or a random source moves it on.
unfoldable pub read_source : {A : Type 0} → (ℕ → A) → M VpSession A
read_source source s =
    done (source s.world.ticks) (record s { world = record s.world { ticks = suc s.world.ticks } })
