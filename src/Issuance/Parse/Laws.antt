-- ===== src/Issuance/Parse/Laws.antt =====
-- From the responses to the credentials: pkg/openid4ci/interaction.go.
use openvino_wallet.Base.{
  none, some, [], ◌∷◌, Bool, ℕ, List, Option, String, length, ◌≡◌, ap, suc, refl, ◌∙◌,
}
use openvino_wallet.Issuance.Model.{
  External, on_world, CredentialResponse, Session, Credential, Signer,
}
use openvino_wallet.Issuance.Parse.{
  accept_responses, parse_credentials, get_vcs_from_credential_responses,
  serialize_to_credentials_bytes, request_credential_with_auth,
}
use openvino_wallet.Run.{M, fail_with, ok, Run, fail, done, crash}
use openvino_wallet.Http.{World}
use openvino_wallet.Issuance.Interaction.{the_metadata}
use openvino_wallet.Run.Success.{
  Ensures, succeeds, Ensures->>=, Ensures-zoom, Ensures-any, Ensures-on_error, Ensures-lift, fails,
  Ensures->>, Ensures-gets, Ensures-deref, Ensures-mono,
}
use openvino_wallet.Errors.{GoError, as_invalid_proof}
use openvino_wallet.Issuance.Request.{
  request_with_nonce, retry_once, again_if_invalid_proof, get_credential_responses_with_auth,
  Wanted, get_credential_response, create_claims_proof, create_oauth_http_client,
}
use openvino_wallet.Base.Json.{Value, text}
use openvino_wallet.Issuance.Request.Laws.{fetch_credentials-AreFetched}

-- Each credential is parsed from the response at its place, with the proof checked or not as the
-- interaction was configured.
pub data AreParsed (ext : External) (unchecked : Bool)
    : List CredentialResponse → List Credential → Type 0 where
  none_parsed : AreParsed ext unchecked [] []
  one_parsed :
      {response : CredentialResponse} {vc : Credential} {responses : List CredentialResponse}
      {vcs : List Credential} (bytes : String)
      → serialize_to_credentials_bytes ext response.credential ≡ ok bytes
      → ext.parse_credential unchecked bytes ≡ ok vc
      → AreParsed ext unchecked responses vcs
      → AreParsed ext unchecked (response ∷ responses) (vc ∷ vcs)

pub AreParsed-length :
    {ext : External} {unchecked : Bool} {responses : List CredentialResponse}
    {vcs : List Credential}
    → AreParsed ext unchecked responses vcs
    → length vcs ≡ length responses
AreParsed-length none_parsed = refl
AreParsed-length (one_parsed bytes s p rest) = ap suc (AreParsed-length rest)

-- A call on the outside world leaves the interaction alone.
on_world-same :
    {A : Type 0} (m : M World A) (s : Session)
    → Ensures (λ a t. t.interaction ≡ s.interaction) (on_world m s)
unfolding on_world
on_world-same m s =
    Ensures-zoom (λ (s : Session). s.world) (λ w s. record s { world = w }) m s
      (Ensures-any (m s.world)) (λ a w h. refl)

-- Where the responses are accepted, there is one credential for each, in order, parsed from it with
-- the proof check that the interaction was configured with.
parse_credentials-AreParsed :
    (ext : External) (total j : ℕ) (responses : List CredentialResponse) (s : Session)
    → Ensures
        (λ vcs t. AreParsed ext s.interaction.disable_vc_proof_checks responses vcs)
        (parse_credentials ext total j responses s)
unfolding parse_credentials
parse_credentials-AreParsed ext total j [] s = succeeds none_parsed
parse_credentials-AreParsed ext total j (r ∷ rs) s =
    Ensures->>= _ _ _ (Ensures-on_error _ _ s (Ensures-lift _ s)) λ bytes t p. rw p.0 (
      Ensures-gets _ _ s (
        Ensures->>= _ _ _ (Ensures-on_error _ _ s (Ensures-lift _ s)) λ vc u q. rw q.0 (
          Ensures->> _ _ s (on_world-same _ s) λ v same.
            Ensures->>= _ _ _ (parse_credentials-AreParsed ext total (suc j) rs v)
              λ vcs w rest. succeeds (one_parsed bytes p.1 q.1 (rw (← same) rest)))))

-- `getVCsFromCredentialResponses` and what follows it, where it succeeds, give one credential for each
-- response, in order, parsed from it with the proof checked unless the interaction was configured
-- without proof checks.
pub accept_responses-AreParsed :
    (ext : External) (responses : List CredentialResponse) (s : Session)
    → Ensures
        (λ vcs t. AreParsed ext s.interaction.disable_vc_proof_checks responses vcs)
        (accept_responses ext responses s)
unfolding accept_responses get_vcs_from_credential_responses the_metadata fail_with
accept_responses-AreParsed ext responses s =
    Ensures->>= _ _ _
      (Ensures-on_error _ _ s (
        Ensures->> _ _ s (no_verifier_error ext.new_verifier_error)
          λ t same. rw same (parse_credentials-AreParsed ext (length responses) 0 responses s)))
      λ vcs t parsed. Ensures->> _ _ t (on_world-same _ t) λ u h.
        Ensures->>= _ _ _ (Ensures-deref _ u)
          λ m v q. Ensures->> _ _ v (on_world-same _ v) λ w h. succeeds parsed
  where
    no_verifier_error : (o : Option GoError) → Ensures (λ _ t. t ≡ s) (fail_with o s)
    no_verifier_error none = succeeds refl
    no_verifier_error (some e) = fails

request_with_nonce-length :
    (ext : External) (signer : Signer) (w : Wanted) (used : Value) (s : Session)
    → Ensures
        (λ responses t. length responses ≡ length w.types)
        (request_with_nonce ext signer w used s)
unfolding request_with_nonce
request_with_nonce-length ext signer w used s =
    Ensures->>= _ _ _ (Ensures-any (create_claims_proof ext used signer s)) λ proof_jwt t p.
      Ensures->>= _ _ _ (Ensures-any (create_oauth_http_client t)) λ client u q.
        Ensures-mono (λ responses v h. h.one_each) (fetch_credentials-AreFetched ext _ 0 w.types u)

Ensures-retry_once :
    {A : Type 0} {Q : A → Session → Type 0} (m : M Session A) (again : String → M Session A)
    (s : Session)
    → Ensures Q (m s)
    → ((fresh : String) (t : Session) → Ensures Q (again fresh t))
    → Ensures Q (retry_once m again s)
unfolding retry_once again_if_invalid_proof
Ensures-retry_once {A} {Q} m again s h k = go (m s) h
  where
    tried :
        (o : Option String) (e : GoError) (t : Session)
        → Ensures Q
            (elim o as (λ _. Run Session A) [ none ↦ fail e t | some fresh ↦ again fresh t ])
    tried none e t = fails
    tried (some fresh) e t = k fresh t

    go : (r : Run Session A) → Ensures Q r → Ensures Q (again_if_invalid_proof r again)
    go (done a t) h = h
    go (fail e t) h = tried (as_invalid_proof e) e t
    go (crash t) h = h

-- `RequestCredentialWithAuth`, once there is an access token, gives exactly one credential for each
-- one that was asked for where it succeeds, also where a proof was rejected on the way.
pub request_credential_with_auth-length :
    (ext : External) (signer : Signer) (w : Wanted) (s : Session)
    → Ensures (λ vcs t. length vcs ≡ length w.types) (request_credential_with_auth ext signer w s)
unfolding request_credential_with_auth get_credential_responses_with_auth get_credential_response
request_credential_with_auth-length ext signer w s =
    Ensures->>= _ _ _
      (Ensures-on_error _ _ s (
        Ensures-gets _ _ s (
          Ensures-retry_once _ _ s (request_with_nonce-length ext signer w _ s)
            λ fresh t. request_with_nonce-length ext signer w (text fresh) t)))
      λ responses t one_each.
        Ensures-mono (λ vcs u parsed. AreParsed-length parsed ∙ one_each)
          (accept_responses-AreParsed ext responses t)
