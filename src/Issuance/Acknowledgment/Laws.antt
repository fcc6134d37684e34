-- ===== src/Issuance/Acknowledgment/Laws.antt =====
-- The list of acknowledgment IDs, and what is sent for one: pkg/openid4ci/acknowledgment.go.
use openvino_wallet.Issuance.Model.{External, EventStatus}
use openvino_wallet.Http.{World, Call, AuthToken, http, with_token, reply, readable}
use openvino_wallet.Issuance.Acknowledgment.{
  Acknowledgment, send_acknowledge, send_acknowledge_request, empty_config, ack_http_request,
  AckState, acknowledge_issuer, acknowledge_ids,
}
use openvino_wallet.Base.{
  ◌≡◌, ◌⊎◌, String, ◌∷◌, some, inl, inr, refl, List, arith, ◌≢◌, none, Option-cases,
}
use openvino_wallet.Run.{ok}
use openvino_wallet.Run.Rules.{
  Returns, wrapping, after, lift_lem, after_fail_with, after_deref, after_reject, returned,
  after_modify, after_gets, zooming,
}
use openvino_wallet.Http.Laws.{send_lem, read_all_lem}

-- The acknowledgment of `ack_id` reached the issuer: the request was the only call, and its reply
-- had the status 204.
pub record IsAcknowledged (ext : External) (a : Acknowledgment) (status : EventStatus)
    (ack_id : String) (w w' : World) : Type 0 where
  pub bytes : String
  pub marshalled :
      ext.marshal_acknowledgement (record {
        event = status;
        issuer_identifier = a.issuer_uri;
        notification_id = ack_id;
        interaction_details = a.interaction_details;
      })
      ≡ ok bytes
  pub token : AuthToken
  pub has_token : a.auth_token ≡ some token
  pub calls_one :
      w'.calls
      ≡ http
          (with_token (some empty_config) token)
          (ack_http_request a.credential_ack_endpoint bytes)
        ∷ w.calls
  pub body : String
  pub answered :
      ext.network.answer w.calls
        (with_token (some empty_config) token)
        (ack_http_request a.credential_ack_endpoint bytes)
      ≡ reply 204 (readable body)

-- The calls after an acknowledgment that failed: at most one more.
abbrev pub AtMostOne : World → World → Type 0
AtMostOne w w' = (w'.calls ≡ w.calls) ⊎ ((c : Call) × (w'.calls ≡ c ∷ w.calls))

module _ (ext : External) (a : Acknowledgment) (status : EventStatus) (ack_id : String) (w : World)
    (token : AuthToken) (has_token : a.auth_token ≡ some token) where
  send_acknowledge_lem :
      Returns
        (λ _ w'. IsAcknowledged ext a status ack_id w w')
        (λ e w'. AtMostOne w w')
        (send_acknowledge ext a ack_id status w)
  unfolding send_acknowledge send_acknowledge_request
  send_acknowledge_lem =
      wrapping _ _ _ (λ e t h. h)
        (after _ _ _ (wrapping _ _ _ (λ e t h. h) (lift_lem _ _ (λ e. inl refl))) λ bytes t p.
          rw p.0 (
            after_fail_with _ _ _ (λ e h. inl refl)
              λ ready.
                after_deref _ _ _ (λ h. cc)
                  λ token' q.
                    after _ _ _ (send_lem ext.network _ _ _ (λ e. inr (_, refl))) λ resp u r.
                      after _ _ _ (read_all_lem _ _ (λ e. rw r.0 (inr (_, refl)))) λ body v x.
                        after_reject _ _ _ _ (λ h. rw (x.0, r.0) (inr (_, refl)))
                          λ good. returned (record {
                            bytes = bytes;
                            marshalled = p.1;
                            token = token';
                            has_token = q;
                            calls_one = rw (x.0, r.0);
                            body = body;
                            answered = ground arith;
                          })))

-- What one call of `AcknowledgeIssuer` does to the acknowledgment: its first ID is gone, whether or
-- not the issuer could be told.
abbrev pub Popped : List String → AckState → AckState → Type 0
Popped rest s t = t.acknowledgment ≡ record s.acknowledgment { ack_ids = rest }

module _ (ext : External) (status : EventStatus) (s : AckState) (ack_id : String)
    (rest : List String) where
  -- With an ID in the list and a token, `AcknowledgeIssuer` never panics, and takes the first ID off
  -- the list on success and on failure alike. It succeeds only if that ID was sent, in the only call
  -- made, and the reply had the status 204; where it fails, at most one call was made.
  pub acknowledge_issuer-pops :
      s.acknowledgment.ack_ids ≡ ack_id ∷ rest
      → s.acknowledgment.auth_token ≢ none
      → Returns
          (λ _ t.
            Popped rest s t × IsAcknowledged ext t.acknowledgment status ack_id s.world t.world)
          (λ e t. Popped rest s t × AtMostOne s.world t.world)
          (acknowledge_issuer ext status s)
  unfolding acknowledge_issuer acknowledge_ids
  acknowledge_issuer-pops has_id has_token = elim (Option-cases s.acknowledgment.auth_token) [
    | inl missing ↦ absurd (has_token missing)
    | inr (token, held) ↦
        rw (has_id, acknowledge_issuer)
          (after_modify _ _ _ (
            after_gets _ _ _ (
              zooming _ _ _ _
                (send_acknowledge_lem ext (record s.acknowledgment { ack_ids = rest }) status ack_id
                  s.world token held)
                (λ _ w h. (refl, h)) (λ e w h. (refl, h)))))
  ]
