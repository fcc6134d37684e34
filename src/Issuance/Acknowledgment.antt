-- ===== src/Issuance/Acknowledgment.antt =====
-- pkg/openid4ci/acknowledgment.go: telling the issuer what became of the credentials.
pub mod Laws
use Prim.Native.String
use openvino_wallet.Base.{
  ℕ, String, not, Option, none, some, List, [], ◌∷◌, ◌++◌, ◌==◌, if◌then◌else◌,
}
use openvino_wallet.Base.Json.{Value}
use openvino_wallet.Errors.{GoError, plain, wrapped}
use openvino_wallet.Run.{
  Run, done, fail, M, ◌>>=◌, ◌>>◌, give, throw, deref, reject_if, fail_with, lift, on_error, modify,
  gets, zoom,
}
use openvino_wallet.Http.{World, AuthToken, OauthConfig, Request, with_token, send, read_all}
use openvino_wallet.Issuance.Model.{External, EventStatus, AcknowledgementRequest}
use openvino_wallet.Issuance.Failures.{process_credential_error_response}

pub record Acknowledgment : Type 0 where
  pub ack_ids : List String
  pub credential_ack_endpoint : String
  pub issuer_uri : String
  pub auth_token : Option AuthToken
  pub interaction_details : Option (List (String × Value))

pub record AckState : Type 0 where
  pub world : World
  pub acknowledgment : Acknowledgment

abbrev pub empty_config : OauthConfig
empty_config = record {
  client_id = "";
  auth_url = "";
  token_url = "";
  redirect_url = "";
  scopes = [];
}

abbrev pub ack_http_request : String → String → Request
ack_http_request endpoint bytes = record {
  method = "POST";
  url = endpoint;
  headers = ("Content-Type", "application/json") ∷ [];
  body = bytes;
}

-- This request does not go through `httprequest`: no metrics event, and only status 204 is accepted.
-- A nil token is dereferenced.
unfoldable pub send_acknowledge_request :
    External → Acknowledgment → AcknowledgementRequest → M World (Unit {0})
send_acknowledge_request ext a request = do
  bytes ←
      on_error (lift (ext.marshal_acknowledgement request))
        (wrapped "fail to marshal acknowledgementRequest")
  fail_with (ext.network.new_request_error "POST" a.credential_ack_endpoint)
  token ← deref a.auth_token
  resp ←
      send ext.network (with_token (some empty_config) token)
        (ack_http_request a.credential_ack_endpoint bytes)
  body ← read_all resp.body
  reject_if (not (resp.status_code == 204))
      (process_credential_error_response ext resp.status_code body)
  give tt

unfoldable pub send_acknowledge :
    External → Acknowledgment → String → EventStatus → M World (Unit {0})
send_acknowledge ext a ack_id status =
    on_error
      (send_acknowledge_request ext a (record {
        event = status;
        issuer_identifier = a.issuer_uri;
        notification_id = ack_id;
        interaction_details = a.interaction_details;
      }))
      (wrapped (String.◌++◌ "send acknowledge request id " ack_id))

-- The head of `AckIDs` is taken off before the request is sent, so a failure does not put it back.
acknowledge_ids : External → EventStatus → List String → M AckState (Unit {0})
acknowledge_ids ext status [] = throw (plain "ack list is empty")
acknowledge_ids ext status (ack_id ∷ rest) = do
  modify (λ s. record s { acknowledgment = record s.acknowledgment { ack_ids = rest } })
  a ← gets (λ s. s.acknowledgment)
  zoom (λ s. s.world) (λ w s. record s { world = w }) (send_acknowledge ext a ack_id status)

unfoldable pub acknowledge_issuer : External → EventStatus → M AckState (Unit {0})
unfolding acknowledge_ids
acknowledge_issuer ext status s = acknowledge_ids ext status s.acknowledgment.ack_ids s
