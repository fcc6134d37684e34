-- ===== src/Clients/Attestation/Exchanges.antt =====
-- Each of the two exchanges by itself: pkg/attestation/attestation_client.go.
use Prim.Native.String.{◌++◌ as concat}
use openvino_wallet.Base.{
  ◌++◌, none, [], ◌∷◌, inl, inr, String, ℕ, List, arith, ◌≡◌, length, ◌⊎◌, ◌≤◌, ap, refl, ◌∙◌,
}
use openvino_wallet.Run.{ok, Result, lift, on_error, M, ◌>>=◌}
use openvino_wallet.Http.{
  World, Call, Network, Exchange, http, configured, request_of, do_and_parse, do_request,
  do_context,
}
use openvino_wallet.Http.Laws.{IsReply, do_context-Answered}
use openvino_wallet.Clients.Attestation.{
  External, InitRequest, InitResponse, attestation_init, attestation_complete, CompleteRequest,
}
use openvino_wallet.Errors.{GoError, wrapped}
use openvino_wallet.Run.Rules.{Returns, after, Returns-mono, wrapping, lift_lem}

-- A POST of JSON with no special handling.
abbrev pub post : String → String → String → Exchange
post url body event = record {
  method = "POST";
  endpoint_url = url;
  content_type = "application/json";
  additional_headers = [];
  body = body;
  event = event;
  parent_event = "";
  acceptable_statuses = none;
  error_response_handler = none;
}

-- The requests, the latest first.
abbrev pub posted : String → String → Call
posted url body = http configured (request_of (post url body ""))

-- At most the given number of calls was made.
abbrev pub Within : ℕ → World → GoError → World → Type 0
Within n w e w' = (cs : List Call) × (length cs ≤ n) × (w'.calls ≡ cs ++ w.calls)

-- One exchange: what the server replied to it was parsed, and it was the only call.
abbrev pub Parsed :
    {A : Type 0} → Network → (String → Result A) → String → String → World → A → World → Type 0
Parsed net parse url body w a w' =
    (bytes : String) × IsReply net configured (post url body "") w bytes
    × (parse bytes ≡ ok a)
    × (w'.calls ≡ posted url body ∷ w.calls)

pub none-Within : (n : ℕ) (w : World) (e : GoError) → Within n w e w
none-Within n w e = ([], omega arith, refl)

do_and_parse-Parsed :
    {A : Type 0} (net : Network) (url body event : String) (parse : String → Result A) (w : World)
    → Returns
        (Parsed net parse url body w)
        (Within 1 w)
        (do_and_parse net configured "POST" url "application/json" body event "" none parse w)
unfolding do_and_parse do_request
do_and_parse-Parsed net url body event parse w =
    after (do_context net configured (post url body event)) _ w
      (Returns-mono (λ bytes t a. a) (λ e t r. refused t e r.calls_most)
        (do_context-Answered net configured (post url body event) w))
      λ bytes t a.
        Returns-mono
          (λ v u h.
            (bytes, (a.status, a.answered, a.accepted), h.1, ap (λ x. x.calls) h.0 ∙ a.calls_one))
          (λ e u h. h)
          (lift_lem (parse bytes) t (λ e. (posted url body ∷ [], omega arith, a.calls_one)))
  where
    refused :
        (t : World) (e : GoError)
        → (t.calls ≡ w.calls) ⊎ (t.calls ≡ posted url body ∷ w.calls)
        → Within 1 w e t
    refused t e (inl same) = ([], omega arith, same)
    refused t e (inr one) = (posted url body ∷ [], omega arith, one)

module _ {S A B : Type 0} {Q : B → S → Type 0} {R : GoError → S → Type 0} where
  pub after_wrapped :
      (r : Result A) (wrap : GoError → GoError) (f : A → M S B) (s : S)
      → ((e : GoError) → R e s)
      → ((a : A) → r ≡ ok a → Returns Q R (f a s))
      → Returns Q R ((on_error (lift r) wrap >>= f) s)
  after_wrapped r wrap f s h k =
      after (on_error (lift r) wrap) f s
        (wrapping (lift r) wrap s (λ e t h. h) (lift_lem r s (λ e. h (wrap e))))
        λ a t p. rw p.0 (k a p.1)

-- What is sent first, and what comes back.
abbrev pub Began : External → InitRequest → String → World → InitResponse → World → Type 0
Began ext req url w init w' =
    (body : String) × (ext.marshal_init req ≡ ok body)
    × Parsed ext.network ext.unmarshal_init (concat url "/init") body w init w'

pub attestation_init-Began :
    (ext : External) (req : InitRequest) (url : String) (w : World)
    → Returns (Began ext req url w) (Within 1 w) (attestation_init ext req url w)
unfolding attestation_init
attestation_init-Began ext req url w =
    after_wrapped (ext.marshal_init req) (λ e. wrapped "marshal request" e)
      (λ body.
        on_error
          (do_and_parse ext.network configured "POST" (concat url "/init") "application/json" body
            "perform init attestation request" "" none ext.unmarshal_init)
          (wrapped (concat "do request " body)))
      w (none-Within 1 w)
      λ body p.
        wrapping
          (do_and_parse ext.network configured "POST" (concat url "/init") "application/json" body
            "perform init attestation request" "" none ext.unmarshal_init)
          (λ e. wrapped (concat "do request " body) e) w (λ e t h. h)
          (Returns-mono (λ a u h. (body, p, h)) (λ e u h. h)
            (do_and_parse-Parsed ext.network (concat url "/init") body
              "perform init attestation request" ext.unmarshal_init w))

pub attestation_complete-Parsed :
    (ext : External) (req : CompleteRequest) (url : String) (w : World)
    → Returns
        (λ a w'.
          (body : String) × (ext.marshal_complete req ≡ ok body)
          × Parsed ext.network ext.unmarshal_complete (concat url "/complete") body w a w')
        (Within 1 w)
        (attestation_complete ext req url w)
unfolding attestation_complete
attestation_complete-Parsed ext req url w =
    after_wrapped (ext.marshal_complete req) (λ e. wrapped "marshal request" e)
      (λ body.
        on_error
          (do_and_parse ext.network configured "POST" (concat url "/complete") "application/json"
            body "perform complete attestation request" "" none ext.unmarshal_complete)
          (wrapped "do request"))
      w (none-Within 1 w)
      λ body p.
        wrapping
          (do_and_parse ext.network configured "POST" (concat url "/complete") "application/json"
            body "perform complete attestation request" "" none ext.unmarshal_complete)
          (λ e. wrapped "do request" e) w (λ e t h. h)
          (Returns-mono (λ a u h. (body, p, h)) (λ e u h. h)
            (do_and_parse-Parsed ext.network (concat url "/complete") body
              "perform complete attestation request" ext.unmarshal_complete w))
