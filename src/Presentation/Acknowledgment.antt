-- ===== src/Presentation/Acknowledgment.antt =====
-- pkg/openid4vp/acknowledgment.go, and the method of `Interaction` that begins one.
use openvino_wallet.Base.{String, Option, none, some, List, [], ◌∷◌, append}
use openvino_wallet.Base.Json.{Value}
use openvino_wallet.Errors.{wrapped}
use openvino_wallet.Run.{M, ◌>>=◌, give, lift, on_error}
use openvino_wallet.Http.{World, Network, configured, do_request}
use openvino_wallet.Presentation.Model.{External, RequestObject}

pub record Acknowledgment : Type 0 where
  pub response_uri : String
  pub state : String
  pub interaction_details : Option (List (String × Value))

unfoldable pub acknowledgment : RequestObject → Acknowledgment
acknowledgment r = record {
  response_uri = r.response_uri;
  state = r.state;
  interaction_details = none;
}

with_interaction_details :
    External
    → Option (List (String × Value))
    → List (String × String)
    → M World (List (String × String))
unfolding ◌>>=◌ on_error lift
with_interaction_details ext none form = give form
with_interaction_details ext (some details) form = do
  bytes ← on_error (lift (ext.marshal_details details)) (wrapped "encode interaction details")
  give (append form ("interaction_details", ext.base64_std bytes))

-- With the metrics logger of package noop, which never fails.
unlogged : Network → Network
unlogged net = record net { metrics_error = λ events e. none }

unfoldable pub acknowledge_verifier :
    External → Acknowledgment → String → String → M World (Unit {0})
unfolding ◌>>=◌ with_interaction_details unlogged do_request
acknowledge_verifier ext a error description = do
  form ←
      with_interaction_details ext a.interaction_details
        (("error", error) ∷ ("error_description", description) ∷ ("state", a.state) ∷ [])
  answer ←
      do_request (unlogged ext.network) configured "POST" a.response_uri
        "application/x-www-form-urlencoded" (ext.encode_form form) "" "" none
  give tt
