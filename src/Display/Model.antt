-- ===== src/Display/Model.antt =====
-- The data of pkg/credentialschema (models.go, the structs of opts.go), and what it takes from
-- outside: vc-go's credentials, JSON paths, regular expressions, `%v` and `encoding/json`.
use openvino_wallet.Base.{ℕ, String, Option, List, Bool}
use openvino_wallet.Base.Json.{Value, Fields}
use openvino_wallet.Errors.{GoError}
use openvino_wallet.Run.{Result}
use openvino_wallet.Http.{Call, Client, Request, Reply, MetricsEvent}
use openvino_wallet.IssuerMetadata.{CredentialConfigurationSupported, Metadata, CheckedJwt}

-- `verifiable.Subject` and `verifiable.Credential`: its ID, types and subjects, and `ToRawJSON`.
pub record VerifiableSubject : Type 0 where
  pub id : String
  pub custom_fields : Fields

pub record VerifiableCredential : Type 0 where
  pub id : String
  pub types : List String
  pub subjects : List VerifiableSubject
  pub raw_json : Fields

pub record Logo : Type 0 where
  pub url : String
  pub alt_text : String

pub record Attachment : Type 0 where
  pub id : String
  pub type : List String
  pub mime_type : String
  pub description : String
  pub uri : String
  pub hash : String
  pub hash_alg : String

pub record ResolvedIssuerDisplay : Type 0 where
  pub name : String
  pub locale : String
  pub url : String
  pub logo : Option Logo
  pub background_color : String
  pub text_color : String

pub record CredentialOverview : Type 0 where
  pub name : String
  pub locale : String
  pub logo : Option Logo
  pub background_color : String
  pub text_color : String

pub record ResolvedClaim : Type 0 where
  pub raw_id : String
  pub label : String
  pub value_type : String
  pub raw_value : String
  pub value : Option String
  pub order : Option ℕ
  pub pattern : String
  pub mask : String
  pub locale : String
  pub attachment : Option Attachment

pub record CredentialDisplay : Type 0 where
  pub overview : CredentialOverview
  pub claims : List ResolvedClaim

pub record ResolvedDisplayData : Type 0 where
  pub issuer_display : Option ResolvedIssuerDisplay
  pub credential_displays : List CredentialDisplay

pub record Label : Type 0 where
  pub name : String
  pub locale : String

pub record Subject : Type 0 where
  pub raw_id : String
  pub localized_labels : List Label
  pub value_type : String
  pub raw_value : String
  pub value : Option String
  pub order : Option ℕ
  pub pattern : String
  pub mask : String
  pub attachment : Option Attachment

pub record Credential : Type 0 where
  pub localized_overview : List CredentialOverview
  pub subject : List Subject

pub record ResolvedData : Type 0 where
  pub localized_issuer : List ResolvedIssuerDisplay
  pub credential : List Credential

-- `credentialConfigMapping`; the credential is a pointer, and so are the values of the map.
pub record CredentialConfigMapping : Type 0 where
  pub credential : Option VerifiableCredential
  pub config : List (String × Option CredentialConfigurationSupported)

-- A nil slice, reader or pointer is `none`.
pub record CredentialSource : Type 0 where
  pub vcs : Option (List (Option VerifiableCredential))
  pub reader : Option (String → Result (Option VerifiableCredential))
  pub ids : List String
  pub credential_config_ids : List String

pub record IssuerMetadataSource : Type 0 where
  pub issuer_uri : String
  pub metadata : Option Metadata

-- `Do` of an HTTP client and `Log` of a metrics logger, as in `Network`.
abbrev pub HttpClient : Type 0
HttpClient = List Call → Client → Request → Reply

abbrev pub MetricsLogger : Type 0
MetricsLogger = List MetricsEvent → MetricsEvent → Option GoError

pub record ResolveOpts : Type 0 where
  pub credential_source : CredentialSource
  pub issuer_metadata_source : IssuerMetadataSource
  pub preferred_local : String
  pub metrics_logger : Option MetricsLogger
  pub http_client : Option HttpClient
  pub masking_string : Option String
  pub signature_verifier : Option (String → Result CheckedJwt)
  pub skip_non_claim_data : Bool

-- Code outside this repository. `equal_fold` is `strings.EqualFold`, `print` is `%v`, and `json_path`
-- is `jsonpath.Get`. `compile_error` is the error of `regexp.Compile`, and `first_submatch`, given the
-- expression and a text, its `ReplaceAllString` with "$1". `unmarshal_attachment` gives what
-- `json.Unmarshal` leaves in a pointer to an empty attachment, whether or not it succeeds.
pub record External : Type 0 where
  pub equal_fold : String → String → Bool
  pub print : Value → String
  pub json_path : String → Fields → Result Value
  pub compile_error : String → Option GoError
  pub first_submatch : String → String → String
  pub marshal : Fields → Result String
  pub unmarshal_attachment : String → Option Attachment
  pub create_display_credential : VerifiableCredential → Result VerifiableCredential
  pub new_request_error : String → String → Option GoError
  pub default_client : HttpClient
  pub decode_metadata : String → Result Metadata
