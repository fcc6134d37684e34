-- ===== src/Presentation/Interaction/Laws.antt =====
-- What presenting credentials does: pkg/openid4vp/openid4vp.go.
use openvino_wallet.Base.{
  none, some, [], String, ◌≡◌, Option, ◌∷◌, ◌⊎◌, ℕ, inr, inl, ◌∙◌, List, sym, refl, false,
}
use openvino_wallet.Presentation.Model.{
  VpSession, on_world, External, Credential, AuthorizedResponse, PresentationDefinition,
}
use openvino_wallet.Presentation.Tokens.Laws.{IsQuiet, quiet}
use openvino_wallet.Http.{
  do_request, Network, Request, http, configured, World, Exchange, request_of, log_metrics,
  MetricsEvent, log_activity, Activity,
}
use openvino_wallet.Errors.{GoError}
use openvino_wallet.Run.{final, Run, ◌>>=◌, ◌>>◌, M, give}
use openvino_wallet.Run.Rules.{Returns, returned, failed}
use openvino_wallet.Http.Laws.{Answered, Refused, do_context-Answered}
use openvino_wallet.Presentation.Interaction.{
  with_details, deliver, present_credential, send_authorized_response, present_credentials,
  present_credential_unsafe,
}
use openvino_wallet.Run.Frame.{
  Keeps, Keeps-give, Keeps->>=, Keeps-on_error, Keeps-lift, final-zoom, final-fail_with, Keeps-then,
  Keeps-then_, Keeps->>, Keeps-gets, final->>=-give,
}
use openvino_wallet.Base.Json.{Value}
use openvino_wallet.Presentation.Response.{PresentOptions, create_authorized_response}
use openvino_wallet.Presentation.Response.Laws.{
  create_authorized_response-IsQuiet, IsRelaxed, IsRelaxed-same, one_cred-IsRelaxed, relaxed,
}

-- The POST of `body` to `uri`.
abbrev posted : String → String → Request
posted uri body = record {
  method = "POST";
  url = uri;
  headers = ("Content-Type", "application/x-www-form-urlencoded") ∷ [];
  body = body;
}

-- At most one call was made, a POST to the response URI, and the request object is as it was.
unfoldable pub IsPosted : VpSession → VpSession → Type 0
IsPosted s t =
    (t.request_object ≡ s.request_object)
    × ((t.world.calls ≡ s.world.calls)
        ⊎ ((body : String) × (t.world.calls
              ≡ http configured (posted s.request_object.response_uri body) ∷ s.world.calls)))

IsQuiet-into : (s t : VpSession) → IsQuiet s t → IsPosted s t
unfolding IsQuiet IsPosted
IsQuiet-into s t q = (q.1, inl q.0)

IsQuiet-IsPosted : (s t u : VpSession) → IsQuiet s t → IsPosted t u → IsPosted s u
unfolding IsQuiet IsPosted
IsQuiet-IsPosted s t u q (same, inl h) = (same ∙ q.1, inl (h ∙ q.0))
IsQuiet-IsPosted s t u q (same, inr (body, h)) = (same ∙ q.1, inr (body, rw (sym q.1, sym q.0) h))

IsPosted-IsQuiet : (s t u : VpSession) → IsPosted s t → IsQuiet t u → IsPosted s u
unfolding IsQuiet IsPosted
IsPosted-IsQuiet s t u (same, inl h) q = (q.1 ∙ same, inl (q.0 ∙ h))
IsPosted-IsQuiet s t u (same, inr (body, h)) q = (q.1 ∙ same, inr (body, q.0 ∙ h))

do_request-calls :
    (net : Network) (uri body event parent : String) (handler : Option (ℕ → String → GoError))
    (w : World)
    → ((final (
          do_request net configured "POST" uri "application/x-www-form-urlencoded" body event parent
            handler w)).calls
        ≡ w.calls)
      ⊎ ((final (
            do_request net configured "POST" uri "application/x-www-form-urlencoded" body event
              parent handler w)).calls
          ≡ http configured (posted uri body) ∷ w.calls)
unfolding do_request
do_request-calls net uri body event parent handler w = go (do_context-Answered net configured _ w)
  where
    go :
        {x : Exchange} {r : Run World String}
        → Returns (Answered net configured x w) (Refused net configured x w) r
        → ((final r).calls ≡ w.calls) ⊎ ((final r).calls ≡ http configured (request_of x) ∷ w.calls)
    go (returned a) = inr a.calls_one
    go (failed f) = f.calls_most

with_details-IsQuiet :
    (ext : External) (o : Option (List (String × Value))) (form : List (String × String))
    → Keeps IsQuiet (with_details ext o form)
unfolding with_details
with_details-IsQuiet ext none form = Keeps-give _ quiet _
with_details-IsQuiet ext (some details) form =
    Keeps->>= _ quiet _ _ (Keeps-on_error _ _ _ (Keeps-lift _ quiet _))
      λ bytes. Keeps-give _ quiet _

log_metrics-IsQuiet :
    (ext : External) (m : MetricsEvent) → Keeps IsQuiet (on_world (log_metrics ext.network m))
unfolding on_world log_metrics Keeps IsQuiet
log_metrics-IsQuiet ext m s =
    rw
      (
        final-zoom (λ (s : VpSession). s.world) (λ w s. record s { world = w })
            (log_metrics ext.network m) s,
        final-fail_with (ext.network.metrics_error s.world.metrics m)
            (record s.world { metrics = m ∷ s.world.metrics }),
      )
      (refl, refl)

log_activity-IsQuiet :
    (ext : External) (a : Activity) → Keeps IsQuiet (on_world (log_activity ext.network a))
unfolding on_world log_activity Keeps IsQuiet
log_activity-IsQuiet ext a s =
    rw
      (
        final-zoom (λ (s : VpSession). s.world) (λ w s. record s { world = w })
            (log_activity ext.network a) s,
        final-fail_with (ext.network.activity_error s.world.activities a)
            (record s.world { activities = a ∷ s.world.activities }),
      )
      (refl, refl)

sent-IsPosted :
    (m : M World String) (body : String) (s : VpSession)
    → ((final (m s.world)).calls ≡ s.world.calls)
      ⊎ ((final (m s.world)).calls
          ≡ http configured (posted s.request_object.response_uri body) ∷ s.world.calls)
    → IsPosted s (final ((on_world m >>= λ bytes. give tt) s))
unfolding IsPosted on_world
sent-IsPosted m body s h =
    rw
      (
        final->>=-give (on_world m) (λ bytes. tt) s,
        final-zoom (λ (s : VpSession). s.world) (λ w s. record s { world = w }) m s,
      )
      (refl, elim h [ inl e ↦ inl e | inr e ↦ inr (body, e) ])

send_authorized_response-IsPosted :
    (ext : External) (body : String) → Keeps IsPosted (send_authorized_response ext body)
unfolding Keeps send_authorized_response ◌>>=◌
send_authorized_response-IsPosted ext body s =
    sent-IsPosted _ body s (do_request-calls ext.network _ body _ _ _ s.world)

IsPosted-refl : (s t : VpSession) → IsPosted s t → IsPosted s t
IsPosted-refl s t p = p

deliver-IsPosted :
    (ext : External) (o : PresentOptions) (response : AuthorizedResponse)
    → Keeps IsPosted (deliver ext o response)
unfolding deliver ◌>>◌
deliver-IsPosted ext o response =
    Keeps-then IsQuiet IsPosted IsPosted IsQuiet-into IsQuiet-IsPosted _ _
      (with_details-IsQuiet ext o.interaction_details _)
      λ form.
        Keeps-then_ IsPosted IsQuiet IsPosted IsPosted-refl IsPosted-IsQuiet _ _
          (Keeps-on_error _ _ _ (send_authorized_response-IsPosted ext _))
          (Keeps->> _ quiet _ _ (log_metrics-IsQuiet ext _)
            (Keeps->>= _ quiet _ _ (Keeps-gets _ quiet _) λ r. log_activity-IsQuiet ext _))

present_credential-Keeps :
    (ext : External) (cs : List Credential) (scope : List (String × Value)) (o : PresentOptions)
    → Keeps IsPosted (present_credential ext cs scope o)
unfolding present_credential present_credentials
present_credential-Keeps ext cs scope o =
    Keeps-then IsQuiet IsPosted IsPosted IsQuiet-into IsQuiet-IsPosted _ _
      (Keeps-on_error _ _ _ (
        create_authorized_response-IsQuiet ext cs scope (record o { ignore_constraints = false })
          refl))
      λ response. deliver-IsPosted ext _ response

present_credential_unsafe-Keeps :
    (ext : External) (c : Credential) (scope : List (String × Value))
    → Keeps IsRelaxed (present_credential_unsafe ext c scope)
unfolding IsPosted present_credential_unsafe present_credentials create_authorized_response
present_credential_unsafe-Keeps ext c scope =
    Keeps-then IsRelaxed IsPosted IsRelaxed (λ s t h. h) (λ s t u h q. IsRelaxed-same s t u h q.0) _
      _ (Keeps-on_error _ _ _ (one_cred-IsRelaxed ext c scope _ refl))
      λ response. deliver-IsPosted ext _ response

-- `PresentCredential` makes at most one call, a POST to the response URI of the request object, and
-- leaves the request object as it is: on success, on failure, and where it panics.
pub present_credential-IsPosted :
    (ext : External) (cs : List Credential) (scope : List (String × Value)) (o : PresentOptions)
    (s : VpSession)
    → IsPosted s (final (present_credential ext cs scope o s))
unfolding Keeps
present_credential-IsPosted ext cs scope o s = present_credential-Keeps ext cs scope o s

-- `PresentCredentialUnsafe` clears the constraints of every input descriptor in the definition that
-- the interaction's request object holds, if it holds one, and they stay cleared for each later call:
-- on success, on failure, and where it panics.
pub present_credential_unsafe-relaxed :
    (ext : External) (c : Credential) (scope : List (String × Value)) (s : VpSession)
    (pd : PresentationDefinition)
    → s.request_object.presentation_definition ≡ some pd
    → (final (present_credential_unsafe ext c scope s)).request_object ≡ relaxed pd s.request_object
unfolding Keeps IsRelaxed
present_credential_unsafe-relaxed ext c scope s pd held =
    present_credential_unsafe-Keeps ext c scope s pd held
