-- ===== src/Presentation/RequestObject/Start.antt =====
-- How an interaction starts: `NewInteraction` of pkg/openid4vp/openid4vp.go.
use openvino_wallet.Presentation.Model.{External}
use openvino_wallet.Http.{World, do_request, configured, Exchange}
use openvino_wallet.Base.{
  arith, length, String, ◌≤◌, ◌+◌, inl, inr, starts_with, ◌||◌, true, false, none, [], refl, ◌≡◌,
  Bool,
}
use openvino_wallet.Presentation.RequestObject.{
  fetch_request_object, new_interaction, raw_request, invalid_request,
}
use openvino_wallet.Issuance.Model.{Url}
use openvino_wallet.Run.Rules.{
  Returns, after_reject, in_branches, after, wrapping, Returns-mono, lift_lem, returned,
}
use openvino_wallet.Presentation.RequestObject.Laws.{IsTrusted, parse_request_object-IsTrusted}
use openvino_wallet.Http.Laws.{IsReply, do_context-Answered}
use openvino_wallet.Run.{ok, on_error, lift, ◌>>=◌, give}
use openvino_wallet.Issuance.Interaction.{query_value}

-- At most one call was made.
pub IsOneCall : World → World → Type 0
IsOneCall w t = length t.calls ≤ 1 + length w.calls

-- The request for a request object.
abbrev pub object_exchange : String → Exchange
object_exchange uri = record {
  method = "GET";
  endpoint_url = uri;
  content_type = "";
  additional_headers = [];
  body = "";
  event = "";
  parent_event = "";
  acceptable_statuses = none;
  error_response_handler = none;
}

abbrev pub is_by_url : String → Bool
is_by_url request = starts_with request "openid-vc://" || starts_with request "openid4vp://"

-- The client ID and the JWT that an authorization request gives: the request is the JWT itself, or a
-- URL with a client ID and with the URI at which the server replies with the JWT.
pub data IsRequested (ext : External) (w : World) (request client_id raw : String) : Type 0 where
  inline :
      is_by_url request ≡ false
      → client_id ≡ ""
      → raw ≡ request
      → IsRequested ext w request client_id raw
  by_url :
      is_by_url request ≡ true
      → (u : Url) → ext.parse_url request ≡ ok u
      → client_id ≡ query_value u "client_id"
      → IsReply ext.network configured (object_exchange (query_value u "request_uri")) w raw
      → IsRequested ext w request client_id raw

module _ (ext : External) (w : World) where
  IsOneCall-refl : IsOneCall w w
  unfolding IsOneCall
  IsOneCall-refl = omega arith

  fetch_request_object-IsOneCall :
      (u : Url)
      → Returns
          (λ raw t.
            IsOneCall w t
            × IsReply ext.network configured (object_exchange (query_value u "request_uri")) w raw)
          (λ e t. IsOneCall w t)
          (fetch_request_object ext u w)
  unfolding fetch_request_object do_request IsOneCall
  fetch_request_object-IsOneCall u =
      after_reject _ _ _ _ (λ h. omega arith)
        λ h.
          wrapping _ _ _ (λ e t p. p)
            (Returns-mono
              (λ bytes t a. (rw a.calls_one (omega arith), (a.status, a.answered, a.accepted)))
              (λ e t r. elim r.calls_most [
                | inl same ↦ rw same (omega arith)
                | inr one ↦ rw one (omega arith)
              ])
              (do_context-Answered ext.network configured _ w))

  raw_request-IsOneCall :
      (request : String)
      → Returns
          (λ found t. IsOneCall w t × IsRequested ext w request found.0 found.1)
          (λ e t. IsOneCall w t)
          (raw_request ext request w)
  unfolding raw_request invalid_request
  raw_request-IsOneCall request =
      in_branches (starts_with request "openid-vc://" || starts_with request "openid4vp://")
        (on_error (lift (ext.parse_url request)) invalid_request >>= λ u.
          fetch_request_object ext u >>= λ raw. give (query_value u "client_id", raw))
        (give ("", request)) w
        (λ by.
          after _ _ _
            (wrapping _ _ _ (λ e t p. p) (lift_lem (ext.parse_url request) w (λ e. IsOneCall-refl)))
            λ u t p. rw p.0 (
              after _ _ _ (fetch_request_object-IsOneCall u)
                λ raw t one. returned (one.0, by_url by u p.1 refl one.1)))
        (λ not_by. returned (IsOneCall-refl, inline not_by refl refl))

  -- `NewInteraction` never panics and makes at most one call. The request object that an interaction
  -- starts with is the content, upgraded, of a JWT that passed the checks for a client ID. Where the
  -- request is a URL, the client ID is the one in its query, and the JWT is the server's reply to the
  -- request for the URI in its query. Otherwise the request is the JWT itself, and the client ID empty.
  pub new_interaction-IsTrusted :
      (request : String)
      → Returns
          (λ o t.
            IsOneCall w t
            × ((client_id : String) × (raw : String) × IsRequested ext w request client_id raw
                × IsTrusted ext client_id raw o))
          (λ e t. IsOneCall w t)
          (new_interaction ext request w)
  unfolding new_interaction
  new_interaction-IsTrusted request = after _ _ _ (raw_request-IsOneCall request) λ found t one.
      wrapping _ _ _ (λ e u p. p)
        (Returns-mono (λ o u p. (rw p.0 one.0, (found.0, found.1, one.1, p.1)))
          (λ e u p. rw p one.0) (parse_request_object-IsTrusted ext found.0 found.1 t))
