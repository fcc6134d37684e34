-- ===== src/Clients/TrustRegistry.antt =====
-- pkg/trustregistry/trust_registry.go: the evaluation of an issuer or a verifier by a trust registry.
-- JSON is a parameter.
use Prim.Native.String.{◌++◌}
use openvino_wallet.Base.{ℕ, String, Bool, Option, none, List}
use openvino_wallet.Base.Json.{Value}
use openvino_wallet.Errors.{wrapped}
use openvino_wallet.Run.{M, ◌>>=◌, lift, on_error, Result}
use openvino_wallet.Http.{World, Network, configured, do_request}

pub record EvaluationData : Type 0 where
  pub attestations_required : List String
  pub multiple_credential_allowed : Bool

pub record EvaluationResult : Type 0 where
  pub allowed : Bool
  pub error_code : String
  pub error_message : String
  pub deny_reasons : List String
  pub payload : Option EvaluationData

pub record CredentialOffer : Type 0 where
  pub credential_type : String
  pub credential_format : String
  pub client_attestation_requested : Bool

pub record IssuanceRequest : Type 0 where
  pub issuer_did : String
  pub issuer_domain : String
  pub credential_offers : List CredentialOffer

-- A `time.Time` is a number of seconds.
pub record CredentialClaimsToCheck : Type 0 where
  pub credential_id : String
  pub credential_types : List String
  pub issuer_id : String
  pub issuance_date : ℕ
  pub expiration_date : ℕ
  pub credential_claim_keys : Value

pub record PresentationRequest : Type 0 where
  pub verifier_did : String
  pub verifier_domain : String
  pub credential_claims : List CredentialClaimsToCheck

pub record External : Type 0 where
  pub network : Network
  pub marshal_issuance : IssuanceRequest → Result String
  pub marshal_presentation : PresentationRequest → Result String
  pub unmarshal_result : String → Result EvaluationResult

pub record Registry : Type 0 where
  pub evaluate_issuance_url : String
  pub evaluate_presentation_url : String

unfoldable pub evaluate_issuance : External → Registry → IssuanceRequest → M World EvaluationResult
unfolding ◌>>=◌ on_error lift do_request
evaluate_issuance ext r request = do
  body ← on_error (lift (ext.marshal_issuance request)) (wrapped "fail to marshal issuanceRequest")
  bytes ←
      on_error
        (do_request ext.network configured "POST" r.evaluate_issuance_url "application/json" body
          ("Evaluate issuance via an HTTP GET request to " ++ r.evaluate_issuance_url)
          "Evaluate issuance" none)
        (wrapped "evaluate issuance endpoint")
  on_error (lift (ext.unmarshal_result bytes))
      (wrapped "failed to unmarshal evaluate issuance endpoint")

unfoldable pub evaluate_presentation :
    External → Registry → PresentationRequest → M World EvaluationResult
unfolding ◌>>=◌ on_error lift do_request
evaluate_presentation ext r request = do
  body ←
      on_error (lift (ext.marshal_presentation request))
        (wrapped "fail to marshal presentationRequest")
  bytes ←
      on_error
        (do_request ext.network configured "POST" r.evaluate_presentation_url "application/json"
          body ("Evaluate presentation via an HTTP GET request to " ++ r.evaluate_presentation_url)
          "Evaluate presentation" none)
        (wrapped "evaluate presentation endpoint")
  on_error (lift (ext.unmarshal_result bytes))
      (wrapped "failed to unmarshal evaluate presentation endpoint")
