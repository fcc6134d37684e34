-- ===== src/Issuance/Trust.antt =====
-- The trust half of pkg/openid4ci/interaction.go: who the issuer is, and the acknowledgment that it
-- asked for.
pub mod Laws
use openvino_wallet.Base.{
  String, Bool, false, not, Option, none, some, List, [], ◌∷◌, get_elem?, is_empty, part_before,
}
use openvino_wallet.Errors.{plain, wrapped, wallet, new_execution_error}
use openvino_wallet.Run.{M, ◌>>=◌, ◌>>◌, give, throw, gets, deref, reject_if, lift, on_error}
use openvino_wallet.Http.{AuthToken}
use openvino_wallet.Wellknown.{validate_linked_domains}
use openvino_wallet.Issuance.Model.{External, Session}
use openvino_wallet.Issuance.Acknowledgment.{Acknowledgment}
use openvino_wallet.Issuance.Interaction.{populate_issuer_metadata, the_metadata}

pub record BasicTrustInfo : Type 0 where
  pub did : String
  pub domain : String
  pub domain_valid : Bool

pub record SupportedCredential : Type 0 where
  pub format : String
  pub types : List String

pub record IssuerTrustInfo : Type 0 where
  pub did : String
  pub domain : String
  pub credentials_supported : List SupportedCredential

trust_of_key_id : External → Option String → M Session BasicTrustInfo
trust_of_key_id ext none = do
  uri ← gets (λ s. s.interaction.issuer_uri)
  url ← on_error (lift (ext.parse_url uri)) (wrapped "parse issuer uri")
  give (record { did = ""; domain = url.host; domain_valid = false })
trust_of_key_id ext (some kid) = do
  linked ← lift (validate_linked_domains (some ext.resolver) (part_before b'#' kid))
  give (record { did = part_before b'#' kid; domain = linked.domain; domain_valid = linked.valid })

unfoldable pub issuer_basic_trust_info : External → M Session BasicTrustInfo
unfolding trust_of_key_id
issuer_basic_trust_info ext = do
  populate_issuer_metadata ext "Verify issuer"
  m ← the_metadata
  trust_of_key_id ext m.jwt_kid

-- The loop over the formats; the types are read by index.
supported_credentials : List String → List (List String) → M Session (List SupportedCredential)
supported_credentials [] types = give []
supported_credentials (f ∷ fs) [] = λ s. deref none s
supported_credentials (f ∷ fs) (t ∷ ts) = do
  rest ← supported_credentials fs ts
  give (record { format = f; types = t } ∷ rest)

unfoldable pub issuer_full_trust_info :
    External → List (List String) → List String → M Session IssuerTrustInfo
unfolding supported_credentials
issuer_full_trust_info ext types formats = do
  info ← issuer_basic_trust_info ext
  supported ← supported_credentials formats types
  give (record { did = info.did; domain = info.domain; credentials_supported = supported })

unfoldable pub verify_issuer : External → M Session String
verify_issuer ext = do
  info ← issuer_basic_trust_info ext
  reject_if (not info.domain_valid) (
      wallet (
        new_execution_error "DID" 7 "DOMAIN_AND_DID_VERIFICATION_FAILED"
          (plain "DID service validation failed: %!w(<nil>)")))
  give info.domain

need_ids : Option (List String) → M Session (List String)
need_ids none = throw (plain "no acknowledgment data: request credentials first")
need_ids (some ids) = give ids

unfoldable pub require_acknowledgment : M Session Bool
unfolding need_ids
require_acknowledgment = do
  held ← gets (λ s. s.interaction.requested_acknowledgment)
  ids ← need_ids held
  m ← the_metadata
  give (not (is_empty m.notification_endpoint))

unfoldable pub requested_acknowledgment_obj : Option AuthToken → M Session Acknowledgment
unfolding need_ids
requested_acknowledgment_obj token = do
  needed ← require_acknowledgment
  reject_if (not needed) (plain "issuer not support credential acknowledgement")
  held ← gets (λ s. s.interaction.requested_acknowledgment)
  ids ← deref held
  m ← the_metadata
  uri ← gets (λ s. s.interaction.issuer_uri)
  give (record {
    ack_ids = ids;
    credential_ack_endpoint = m.notification_endpoint;
    issuer_uri = uri;
    auth_token = token;
    interaction_details = none;
  })
