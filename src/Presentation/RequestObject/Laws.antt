-- ===== src/Presentation/RequestObject/Laws.antt =====
-- Whom a verifier's request object is trusted from: `parseRequestObject` and `NewInteraction` of
-- pkg/openid4vp/openid4vp.go.
use openvino_wallet.Presentation.Model.{External, RequestObject, ClientMetadata}
use openvino_wallet.Base.{
  Bool, String, not, str_eq, ◌||◌, ◌≡◌, false, true, ◌⊎◌, arith, inl, ◌≢◌, eq_iff, inr, none, refl,
  if◌then◌else◌, starts_with, is_empty, ◌∙◌, sym,
}
use openvino_wallet.Presentation.RequestObject.{
  check_client, parse_request_object, upgrade, match_client_id_and_response_uri, take_definition,
  take_registration, take_redirect_uri, new_interaction, raw_request,
}
use openvino_wallet.Http.{World}
use openvino_wallet.Run.{ok, steps, done, reject_if}
use openvino_wallet.Run.Rules.{
  Returns, after, in_branches, after_reject, wrapping, Returns-mono, lift_lem, after_,
  fail_with-none, reject_if_lem, returned, failed,
}
use openvino_wallet.Issuance.Model.{Url}

-- Why a request object is accepted.
pub data IsChecked (ext : External) (client_id raw : String) (r : RequestObject) : Type 0 where
  by_proof :
      (r.client_id_scheme ≡ "") ⊎ (r.client_id_scheme ≡ "did")
      → r.issuer ≢ ""
      → ext.check_proof raw r.issuer ≡ none
      → IsChecked ext client_id raw r
  by_client_id :
      r.client_id_scheme ≡ "redirect_uri"
      → match_client_id_and_response_uri ext client_id r.response_uri ≡ true
      → IsChecked ext client_id raw r

-- The request object that an interaction starts with: what the JWT holds, checked, and upgraded.
pub record IsTrusted (ext : External) (client_id raw : String) (o : RequestObject) : Type 0 where
  pub held : RequestObject
  pub parsed : ext.parse_request_jwt raw ≡ ok held
  pub checked : IsChecked ext client_id raw held
  pub upgraded : o ≡ upgrade held

or_cases : (a b : Bool) → (a || b) ≡ true → (a ≡ true) ⊎ (b ≡ true)
or_cases true b h = inl refl
or_cases false b h = inr h

str_eq-≡ : (s t : String) → str_eq s t ≡ true → s ≡ t
str_eq-≡ s t h = ground (arith, eq_iff s t)

not-false : (b : Bool) → not b ≡ false → b ≡ true
not-false true h = refl
not-false false h = cc

module _ (ext : External) (client_id raw : String) where
  check_client_lem :
      (r : RequestObject) (w : World)
      → Returns
          (λ _ t. (t ≡ w) × IsChecked ext client_id raw r)
          (λ e t. t ≡ w)
          (check_client ext client_id raw r w)
  unfolding check_client
  check_client_lem r w =
      in_branches _ _ _ _
        (λ scheme.
          after_reject _ _ _ _ (λ h. refl)
            λ full.
              wrapping _ _ _ (λ e t p. p)
                (Returns-mono
                  (λ a t p. (
                    p.0,
                    by_proof
                        (elim (or_cases (str_eq r.client_id_scheme "")
                          (str_eq r.client_id_scheme "did") scheme) [
                            | inl h ↦ inl (str_eq-≡ r.client_id_scheme "" h)
                            | inr h ↦ inr (str_eq-≡ r.client_id_scheme "did" h)
                          ])
                        (ground (arith, eq_iff r.issuer "")) p.1,
                  ))
                  (λ e t p. p) (fail_with-none (ext.check_proof raw r.issuer) w (λ e. refl))))
        (λ _.
          in_branches _ _ _ _
            (λ scheme.
              Returns-mono
                (λ a t p. (
                  p.0,
                  by_client_id (str_eq-≡ r.client_id_scheme "redirect_uri" scheme)
                      (not-false _ p.1),
                ))
                (λ e t p. p) (reject_if_lem _ _ w (λ h. refl)))
            (λ _. failed refl))

  -- `parseRequestObject` makes no call and never panics, and what it returns is the content of the
  -- JWT, upgraded, which was accepted either because the issuer that it names signed it (under the
  -- scheme "did" or none), or because its response URI matches the client ID (under the scheme
  -- "redirect_uri").
  pub parse_request_object-IsTrusted :
      (w : World)
      → Returns
          (λ o t. (t ≡ w) × IsTrusted ext client_id raw o)
          (λ e t. t ≡ w)
          (parse_request_object ext client_id raw w)
  unfolding parse_request_object
  parse_request_object-IsTrusted w =
      after _ _ _ (wrapping _ _ _ (λ e t p. p) (lift_lem (ext.parse_request_jwt raw) w (λ e. refl)))
        λ r t p. rw p.0 (
          after_ _ _ _ (check_client_lem r w) λ t' q.
            returned (q.0, record { held = r; parsed = p.1; checked = q.1; upgraded = refl }))

is_empty-ne : (t : String) → t ≢ "" → is_empty t ≡ false
is_empty-ne t h = ground (arith, eq_iff t "")

upgraded_metadata : RequestObject → ClientMetadata
upgraded_metadata r = record {
  client_name = r.registration.client_name;
  client_purpose = r.registration.client_purpose;
  client_logo_uri = r.registration.logo_uri;
  subject_syntax_types_supported = r.registration.subject_syntax_types_supported;
  vp_formats = r.registration.vp_formats;
}

if_same :
    {A B : Type 0} (f : A → B) (test : Bool) {x y : A} {z : B}
    → f x ≡ z
    → f y ≡ z
    → f (if test then x else y) ≡ z
if_same f true p q = p
if_same f false p q = q

take_registration_lem :
    (r : RequestObject) (f : RequestObject → String)
    → f (record r { client_metadata = upgraded_metadata r }) ≡ f r
    → f (take_registration r) ≡ f r
unfolding take_registration upgraded_metadata
take_registration_lem r f p = if_same f _ p refl

take_redirect_uri_lem :
    (r : RequestObject)
    → r.response_uri ≡ ""
    → r.redirect_uri ≢ ""
    → (take_redirect_uri r).response_uri ≡ r.redirect_uri
unfolding take_redirect_uri
take_redirect_uri_lem r none_given full = rw (none_given, is_empty-ne r.redirect_uri full) refl

module _ (ext : External) (raw : String) (r : RequestObject) (empty : Url) (w : World)
    (parses : ext.parse_url "" ≡ ok empty)
    (same : (t : String) → ext.resolver.equal_fold t t ≡ true) (no_uri : r.response_uri ≡ "") where
  match_empty : match_client_id_and_response_uri ext "" "" ≡ true
  unfolding match_client_id_and_response_uri
  match_empty =
      rw
        (
          match_client_id_and_response_uri,
          parses,
          parses,
          same empty.scheme,
          same empty.host,
          same empty.path,
        )
        refl

  check_client-unchecked :
      r.client_id_scheme ≡ "redirect_uri" → check_client ext "" raw r w ≡ done tt w
  unfolding check_client reject_if
  check_client-unchecked scheme = rw (scheme, no_uri, match_empty) refl

  upgrade-response_uri : r.redirect_uri ≢ "" → (upgrade r).response_uri ≡ r.redirect_uri
  unfolding upgrade take_redirect_uri take_registration take_definition
  upgrade-response_uri full =
      take_redirect_uri_lem (take_registration (take_definition r))
        (take_registration_lem (take_definition r) (λ x. x.response_uri) refl ∙ no_uri)
        (λ e. full (sym (take_registration_lem (take_definition r) (λ x. x.redirect_uri) refl) ∙ e))
      ∙ take_registration_lem (take_definition r) (λ x. x.redirect_uri) refl

raw_request-inline :
    (ext : External) (raw : String) (w : World)
    → (starts_with raw "openid-vc://" || starts_with raw "openid4vp://") ≡ false
    → raw_request ext raw w ≡ done ("", raw) w
unfolding raw_request
raw_request-inline ext raw w inline = rw inline refl

-- An inline request has no client ID. Under the scheme "redirect_uri", a request object without a
-- response URI then matches it, and the redirect URI that nothing was compared with becomes the
-- response URI: given that the empty text parses as a URL, and that `strings.EqualFold` is reflexive.
pub new_interaction-unchecked :
    (ext : External) (raw : String) (r : RequestObject) (empty : Url) (w : World)
    → (starts_with raw "openid-vc://" || starts_with raw "openid4vp://") ≡ false
    → ext.parse_url "" ≡ ok empty
    → ((t : String) → ext.resolver.equal_fold t t ≡ true)
    → ext.parse_request_jwt raw ≡ ok r
    → r.client_id_scheme ≡ "redirect_uri"
    → r.response_uri ≡ ""
    → r.redirect_uri ≢ ""
    → (o : RequestObject) × (new_interaction ext raw w ≡ done o w)
      × (o.response_uri ≡ r.redirect_uri)
unfolding new_interaction parse_request_object steps
new_interaction-unchecked ext raw r empty w inline parses same jwt scheme no_uri has_uri = (
  upgrade r,
  rw
      (
        raw_request-inline ext raw w inline,
        jwt,
        check_client-unchecked ext raw r empty w parses same no_uri scheme,
      )
      refl,
  upgrade-response_uri ext raw r empty w parses same no_uri has_uri,
)
