-- ===== src/Presentation/Tokens/Laws.antt =====
-- The tokens of a response, in pkg/openid4vp/openid4vp.go: what making them does to the session.
use openvino_wallet.Base.{List, [], ◌∷◌, none, some, ◌∙◌, ◌≡◌, String, refl, ℕ, Option}
use openvino_wallet.Run.{throw, give, M}
use openvino_wallet.Errors.{plain}
use openvino_wallet.Presentation.Model.{
  VpSession, read_source, External, RequestObject, TokenClaims, VerificationMethod, Presentation,
  Submission, untyped, submission, Format,
}
use openvino_wallet.Run.Frame.{
  Frame, Keeps, Keeps->>=, Keeps-on_error, Keeps-lift, Keeps-throw, Keeps-give, Keeps->>,
  Keeps-fail_with,
}
use openvino_wallet.Presentation.Tokens.{
  create_jwt_vp_token, get_assertion_vm, sign_token, first_method, create_attestation_vp,
  create_id_token, create_ldp_vp_token, id_token_submission, ldp_type_of,
}
use openvino_wallet.Issuance.Model.{Signer}
use openvino_wallet.Base.Json.{Value}

unfoldable pub IsQuiet : VpSession → VpSession → Type 0
IsQuiet s t = (t.world.calls ≡ s.world.calls) × (t.request_object ≡ s.request_object)

pub quiet : Frame IsQuiet
unfolding IsQuiet
quiet = record { same = λ s. (refl, refl); both = λ s t u p q. (q.0 ∙ p.0, q.1 ∙ p.1) }

pub read_source-IsQuiet : {A : Type 0} (f : ℕ → A) → Keeps IsQuiet (read_source f)
unfolding Keeps read_source IsQuiet
read_source-IsQuiet f s = (refl, refl)

sign_token-IsQuiet :
    (ext : External) (c : TokenClaims) (k : Signer) → Keeps IsQuiet (sign_token ext c k)
unfolding sign_token
sign_token-IsQuiet ext c k =
    Keeps->>= _ quiet _ _ (Keeps-on_error _ _ _ (Keeps-lift _ quiet _))
      λ jwt. Keeps-on_error _ _ _ (Keeps-lift _ quiet _)

pub get_assertion_vm-IsQuiet :
    (ext : External) (did : String) → Keeps IsQuiet (get_assertion_vm ext did)
unfolding get_assertion_vm
get_assertion_vm-IsQuiet ext did =
    Keeps->>= _ quiet _ _ (Keeps-on_error _ _ _ (Keeps-lift _ quiet _)) first
  where
    first : (ms : List VerificationMethod) → Keeps IsQuiet (first_method ms)
    first [] = Keeps-throw _ quiet _ _
    first (m ∷ ms) = Keeps-give _ quiet _

pub create_jwt_vp_token-IsQuiet :
    (ext : External) (r : RequestObject) (did : String) (k : Signer) (p : Presentation)
    → Keeps IsQuiet (create_jwt_vp_token ext r did k p)
unfolding create_jwt_vp_token
create_jwt_vp_token-IsQuiet ext r did k p = Keeps->>= _ quiet _ _ (read_source-IsQuiet _) λ exp.
    Keeps->>= _ quiet _ _ (read_source-IsQuiet _) λ nbf.
      Keeps->>= _ quiet _ _ (read_source-IsQuiet _) λ iat.
        Keeps->>= _ quiet _ _ (read_source-IsQuiet _)
          λ jti. Keeps-on_error _ _ _ (sign_token-IsQuiet ext _ k)

pub create_ldp_vp_token-IsQuiet :
    (ext : External) (did : String) (vm : VerificationMethod) (r : RequestObject) (p : Presentation)
    → Keeps IsQuiet (create_ldp_vp_token ext did vm r p)
unfolding create_ldp_vp_token ldp_type_of
create_ldp_vp_token-IsQuiet ext did vm r p =
    Keeps->>= _ quiet _ _ (type_of r.client_metadata.vp_formats) λ type.
      Keeps->>= _ quiet _ _ (Keeps-on_error _ _ _ (Keeps-lift _ quiet _))
        λ proved. Keeps-on_error _ _ _ (Keeps-lift _ quiet _)
  where
    of_ldp :
        (o : Option (List String))
        → Keeps IsQuiet (elim o as (λ _. M VpSession (List String)) [
          | none ↦ throw (plain "client does not support ldp_vp format")
          | some type ↦ give type
        ])
    of_ldp none = Keeps-throw _ quiet _ _
    of_ldp (some type) = Keeps-give _ quiet _

    type_of : (o : Option Format) → Keeps IsQuiet (ldp_type_of o)
    type_of none = Keeps-throw _ quiet _ _
    type_of (some f) = of_ldp f.ldp_vp

id_token_submission-IsQuiet :
    (ext : External) (s : Submission) → Keeps IsQuiet (id_token_submission ext s)
unfolding id_token_submission
id_token_submission-IsQuiet ext (untyped v) = Keeps-give _ quiet _
id_token_submission-IsQuiet ext (submission id descriptors) =
    Keeps->> _ quiet _ _ (Keeps-on_error _ _ _ (Keeps-fail_with _ quiet _)) (Keeps-give _ quiet _)

pub create_id_token-IsQuiet :
    (ext : External) (r : RequestObject) (did : String) (scope : List (String × Value)) (k : Signer)
    (vp : String) (s : Submission)
    → Keeps IsQuiet (create_id_token ext r did scope k vp s)
unfolding create_id_token
create_id_token-IsQuiet ext r did scope k vp s =
    Keeps->>= _ quiet _ _ (read_source-IsQuiet _) λ exp.
      Keeps->>= _ quiet _ _ (read_source-IsQuiet _) λ nbf.
        Keeps->>= _ quiet _ _ (read_source-IsQuiet _) λ iat.
          Keeps->>= _ quiet _ _ (read_source-IsQuiet _) λ jti.
            Keeps->>= _ quiet _ _ (id_token_submission-IsQuiet ext s)
              λ copy. Keeps-on_error _ _ _ (sign_token-IsQuiet ext _ k)

pub create_attestation_vp-IsQuiet :
    (ext : External) (vc : String) (k : Signer) → Keeps IsQuiet (create_attestation_vp ext vc k)
unfolding create_attestation_vp
create_attestation_vp-IsQuiet ext vc k = Keeps->>= _ quiet _ _ (Keeps-lift _ quiet _) λ c.
    Keeps->>= _ quiet _ _ (Keeps-lift _ quiet _) λ vp.
      Keeps->>= _ quiet _ _ (read_source-IsQuiet _)
        λ id. Keeps->>= _ quiet _ _ (Keeps-lift _ quiet _) λ claims. sign_token-IsQuiet ext _ k
