-- ===== src/Issuance/Model.antt =====
-- The data of pkg/openid4ci (models.go, the `interaction` struct of interaction.go), and what the
-- flow takes from outside: JSON, URLs, JWTs, the OAuth library, the clock, random bytes, parsing a
-- credential.
use openvino_wallet.Base.{ℕ, suc, String, Bool, Option, List}
use openvino_wallet.Base.Json.{Value, ℤ}
use openvino_wallet.Errors.{GoError}
use openvino_wallet.Run.{M, done, Result, zoom}
use openvino_wallet.Http.{World, Network, Call, AuthToken, OauthConfig}
use openvino_wallet.IssuerMetadata.{Metadata, Decoder, CredentialDefinition}
use openvino_wallet.Wellknown.{Resolver}

abbrev pub error_module : String
error_module = "OCI"

pub record CredentialOffer : Type 0 where
  pub credential_issuer : String
  pub credential_configuration_ids : List String
  pub grants : List (String × List (String × Value))

pub record AuthorizationDetails : Type 0 where
  pub credential_configuration_id : String
  pub credential_definition : CredentialDefinition
  pub format : String
  pub locations : List String
  pub type : String

pub record CredentialResponse : Type 0 where
  pub credential : Value
  pub transaction_id : String
  pub c_nonce : String
  pub c_nonce_expires_in : ℤ
  pub ack_id : String

pub record BatchCredentialResponse : Type 0 where
  pub c_nonce : Option String
  pub c_nonce_expires_in : Option ℤ
  pub credential_responses : List CredentialResponse

pub record PreAuthTokenResponse : Type 0 where
  pub access_token : String
  pub token_type : String
  pub expires_in : ℤ
  pub refresh_token : String
  pub c_nonce : String
  pub c_nonce_expires_in : ℤ

-- `credentialRequest`; its definition and its proof are spread out, and `context` is `@context`.
pub record CredentialRequest : Type 0 where
  pub context : Option (List String)
  pub type : List String
  pub format : String
  pub proof_type : String
  pub jwt : String

pub record ErrorResponse : Type 0 where
  pub error : String
  pub error_description : String
  pub c_nonce : String
  pub c_nonce_expires_in : ℤ

pub data EventStatus : Type 0 where
  credential_accepted credential_failure credential_deleted : EventStatus

pub record AcknowledgementRequest : Type 0 where
  pub event : EventStatus
  pub issuer_identifier : String
  pub notification_id : String
  pub interaction_details : Option (List (String × Value))

-- `api.JWTSigner`: its `GetKeyID`, and a name that tells two signers with one key ID apart.
pub record Signer : Type 0 where
  pub key_id : String
  pub name : String

-- What the flows read of a parsed `verifiable.Credential`.
pub record Credential : Type 0 where
  pub id : String
  pub subject_ids : List String

pub record Presentation : Type 0 where
  pub id : String
  pub custom_fields : List (String × Value)
  pub credential : Credential

pub record Url : Type 0 where
  pub scheme : String
  pub host : String
  pub path : String
  pub query : List (String × String)

-- `oauth2.Token`, with `Extra("c_nonce")`.
pub record ExchangedToken : Type 0 where
  pub access_token : String
  pub token_type : String
  pub expiry : ℕ
  pub refresh_token : String
  pub extra_c_nonce : Value

abbrev pub Claims : Type 0
Claims = List (String × Value)

pub record External : Type 0 where
  pub network : Network
  pub decoder : Decoder
  pub resolver : Resolver
  -- The clock, `uuid.New` and `crypto/rand.Read`, at their nth reading.
  pub now : ℕ → ℕ
  pub uuid : ℕ → String
  pub random_bytes : ℕ → Result String
  -- `t.Add(n * time.Second)`
  pub add_seconds : ℕ → ℤ → ℕ
  pub base64_url : String → String
  pub sha256 : String → String
  pub parse_url : String → Result Url
  pub auth_code_url : OauthConfig → String → List (String × String) → String
  pub exchange : List Call → OauthConfig → String → String → Result ExchangedToken
  pub encode_form : List (String × String) → String
  pub marshal_details : List AuthorizationDetails → Result String
  pub marshal_credential_request : CredentialRequest → Result String
  pub marshal_batch_request : List CredentialRequest → Result String
  pub marshal_acknowledgement : AcknowledgementRequest → Result String
  pub marshal_value : Value → Result String
  pub unmarshal_credential_offer : String → Result CredentialOffer
  pub unmarshal_credential_response : String → Result CredentialResponse
  pub unmarshal_batch_response : String → Result BatchCredentialResponse
  pub unmarshal_token_response : String → Result PreAuthTokenResponse
  pub unmarshal_error_response : String → Result ErrorResponse
  -- `jwt.NewSigned` with the additional headers, and `Serialize(false)`
  pub new_signed : Claims → Claims → Signer → Result String
  pub serialize : String → Result String
  -- `dataintegrity.NewVerifier`, and `verifiable.ParseCredential` with or without proof checks
  pub new_verifier_error : Option GoError
  pub parse_credential : Bool → String → Result Credential
  pub new_presentation : Credential → Result Presentation
  pub presentation_claims : List String → Presentation → Result Claims

-- The `interaction` struct. Its resolver, loggers, document loader and HTTP client are the
-- `External`; `requested_acknowledgment` is the pointer to the list of IDs.
pub record Interaction : Type 0 where
  pub issuer_uri : String
  pub client_id : String
  pub disable_vc_proof_checks : Bool
  pub issuer_metadata : Option Metadata
  pub oauth2_config : Option OauthConfig
  pub auth_token_response_nonce : Value
  pub auth_token : Option AuthToken
  pub auth_code_url_state : String
  pub code_verifier : String
  pub requested_acknowledgment : Option (List String)

pub record Session : Type 0 where
  pub world : World
  pub interaction : Interaction

-- A call that acts on the outside world only.
unfoldable pub on_world : {A : Type 0} → M World A → M Session A
unfolding zoom
on_world m = zoom (λ s. s.world) (λ w s. record s { world = w }) m

-- A call that changes the `interaction` only.
abbrev pub set_interaction : (Interaction → Interaction) → Session → Session
set_interaction f s = record s { interaction = f s.interaction }

-- Reading the clock or a random source moves it on.
unfoldable pub read_source : {A : Type 0} → (ℕ → A) → M Session A
read_source source s =
    done (source s.world.ticks) (record s { world = record s.world { ticks = suc s.world.ticks } })
