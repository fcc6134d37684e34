-- ===== src/Presentation/Response/Laws.antt =====
-- `createAuthorizedResponse` of pkg/openid4vp/openid4vp.go: what it does to the session.
use openvino_wallet.Presentation.Model.{
  jwt_vp, ldp_vp, External, RequestObject, Credential, VpFormat, Presentation, Submission,
  VerificationMethod, PresentationDefinition, VpSession,
}
use openvino_wallet.Base.{List, [], ◌∷◌, String, ◌≡◌, false, true, some, ◌∙◌, map, refl}
use openvino_wallet.Presentation.Response.{
  attest, create_authorized_response, create_authorized_response_multi_cred,
  create_authorized_response_one_cred, id_token_many, id_token_one, pick_random_element,
  sign_presentations, clear_constraints, sign_presentation, PresentOptions, Signed, create_vp_token,
  respond_one, without_constraints,
}
use openvino_wallet.Presentation.Tokens.{get_holder_signer}
use openvino_wallet.Run.Frame.{
  Keeps, Keeps->>=, Keeps-deref, Keeps-if, Keeps-give, Keeps->>, Keeps-gets, Keeps-throw,
  Keeps-lift, Keeps-on_error, Keeps-reject_if, Keeps-then_,
}
use openvino_wallet.Presentation.Tokens.Laws.{
  IsQuiet, quiet, create_attestation_vp-IsQuiet, create_id_token-IsQuiet, get_assertion_vm-IsQuiet,
  read_source-IsQuiet, create_jwt_vp_token-IsQuiet, create_ldp_vp_token-IsQuiet,
}
use openvino_wallet.Base.Json.{Value}
use openvino_wallet.Issuance.Model.{Signer}
use openvino_wallet.Run.{◌>>=◌, deref}

create_vp_token-IsQuiet :
    (ext : External) (format : VpFormat) (r : RequestObject) (did : String)
    (vm : VerificationMethod) (k : Signer) (p : Presentation)
    → Keeps IsQuiet (create_vp_token ext format r did vm k p)
unfolding create_vp_token
create_vp_token-IsQuiet ext jwt_vp r did vm k p = create_jwt_vp_token-IsQuiet ext r did k p
create_vp_token-IsQuiet ext ldp_vp r did vm k p =
    Keeps-on_error _ _ _ (create_ldp_vp_token-IsQuiet ext did vm r p)

attest-IsQuiet : (ext : External) (o : PresentOptions) → Keeps IsQuiet (attest ext o)
unfolding attest
attest-IsQuiet ext o =
    Keeps-if _ quiet _ _ _ (Keeps-give _ quiet _)
      (create_attestation_vp-IsQuiet ext o.attestation_vc o.attestation_vp_signer)

id_token_one-IsQuiet :
    (ext : External) (r : RequestObject) (o : PresentOptions) (scope : List (String × Value))
    (did : String) (k : Signer) (s : Submission)
    → Keeps IsQuiet (id_token_one ext r o scope did k s)
unfolding id_token_one
id_token_one-IsQuiet ext r o scope did k s =
    Keeps-if _ quiet _ _ _
      (Keeps->>= _ quiet _ _ (attest-IsQuiet ext o)
        λ vp. create_id_token-IsQuiet ext r did scope k vp s)
      (Keeps-give _ quiet _)

respond_one-IsQuiet :
    (ext : External) (c : Credential) (scope : List (String × Value)) (o : PresentOptions)
    → Keeps IsQuiet (respond_one ext c scope o)
unfolding respond_one get_holder_signer
respond_one-IsQuiet ext c scope o = Keeps->>= _ quiet _ _ (Keeps-gets _ quiet _) λ r.
    Keeps->>= _ quiet _ _ (Keeps-lift _ quiet _) λ p.
      Keeps->>= _ quiet _ _ (Keeps-on_error _ _ _ (Keeps-lift _ quiet _)) λ did.
        Keeps->> _ quiet _ _ (Keeps-reject_if _ quiet _ _) (
          Keeps->>= _ quiet _ _ (get_assertion_vm-IsQuiet ext did) λ vm.
            Keeps->>= _ quiet _ _ (Keeps-lift _ quiet _) λ k.
              Keeps->>= _ quiet _ _ (Keeps-on_error _ _ _ (Keeps-lift _ quiet _)) λ shown.
                Keeps->>= _ quiet _ _ (create_vp_token-IsQuiet ext _ r did vm k _) λ token.
                  Keeps->>= _ quiet _ _ (id_token_one-IsQuiet ext r o scope did k _)
                    λ id_token. Keeps-give _ quiet _)

one_cred-IsQuiet :
    (ext : External) (c : Credential) (scope : List (String × Value)) (o : PresentOptions)
    → o.ignore_constraints ≡ false
    → Keeps IsQuiet (create_authorized_response_one_cred ext c scope o)
unfolding create_authorized_response_one_cred clear_constraints
one_cred-IsQuiet ext c scope o kept =
    Keeps->> _ quiet _ _ (rw kept (Keeps-give _ quiet tt)) (respond_one-IsQuiet ext c scope o)

-- What `ignoreConstraints` leaves in the request object, where its definition is not nil.
abbrev pub relaxed : PresentationDefinition → RequestObject → RequestObject
relaxed pd r = record r {
  presentation_definition =
      some (record pd { input_descriptors = map without_constraints pd.input_descriptors });
}

unfoldable pub IsRelaxed : VpSession → VpSession → Type 0
IsRelaxed s t =
    (pd : PresentationDefinition)
    → s.request_object.presentation_definition ≡ some pd
    → t.request_object ≡ relaxed pd s.request_object

clear_constraints-IsRelaxed : Keeps IsRelaxed (clear_constraints true)
unfolding Keeps IsRelaxed clear_constraints ◌>>=◌ deref
clear_constraints-IsRelaxed s pd has = rw has refl

pub IsRelaxed-same :
    (s t u : VpSession) → IsRelaxed s t → u.request_object ≡ t.request_object → IsRelaxed s u
unfolding IsRelaxed
IsRelaxed-same s t u h e pd has = e ∙ h pd has

pub one_cred-IsRelaxed :
    (ext : External) (c : Credential) (scope : List (String × Value)) (o : PresentOptions)
    → o.ignore_constraints ≡ true
    → Keeps IsRelaxed (create_authorized_response_one_cred ext c scope o)
unfolding create_authorized_response_one_cred IsQuiet
one_cred-IsRelaxed ext c scope o ignored =
    Keeps-then_ IsRelaxed IsQuiet IsRelaxed (λ s t h. h) (λ s t u h q. IsRelaxed-same s t u h q.1) _
      _ (rw ignored clear_constraints-IsRelaxed) (respond_one-IsQuiet ext c scope o)

sign_presentations-IsQuiet :
    (ext : External) (format : VpFormat) (r : RequestObject) (acc : Signed) (ps : List Presentation)
    → Keeps IsQuiet (sign_presentations ext format r acc ps)
unfolding sign_presentations sign_presentation get_holder_signer
sign_presentations-IsQuiet ext format r acc [] = Keeps-give _ quiet _
sign_presentations-IsQuiet ext format r acc (p ∷ ps) =
    Keeps->>= _ quiet _ _
      (Keeps->>= _ quiet _ _ (Keeps-deref _ quiet _) λ c.
        Keeps->>= _ quiet _ _ (Keeps-on_error _ _ _ (Keeps-lift _ quiet _)) λ did.
          Keeps->>= _ quiet _ _ (get_assertion_vm-IsQuiet ext did) λ vm.
            Keeps->>= _ quiet _ _ (Keeps-lift _ quiet _) λ k.
              Keeps->>= _ quiet _ _ (create_vp_token-IsQuiet ext format r did vm k p)
                λ token. Keeps-give _ quiet _)
      λ next. sign_presentations-IsQuiet ext format r next ps

pick_random_element-IsQuiet :
    (ext : External) (keys : List String) → Keeps IsQuiet (pick_random_element ext keys)
unfolding pick_random_element
pick_random_element-IsQuiet ext [] = Keeps-deref _ quiet _
pick_random_element-IsQuiet ext (x ∷ xs) =
    Keeps->>= _ quiet _ _ (read_source-IsQuiet _)
      λ drawn. Keeps->>= _ quiet _ _ (Keeps-lift _ quiet _) λ index. Keeps-deref _ quiet _

id_token_many-IsQuiet :
    (ext : External) (r : RequestObject) (o : PresentOptions) (scope : List (String × Value))
    (signers : List (String × Signer)) (s : Submission)
    → Keeps IsQuiet (id_token_many ext r o scope signers s)
unfolding id_token_many
id_token_many-IsQuiet ext r o scope signers s =
    Keeps-if _ quiet _ _ _
      (Keeps->>= _ quiet _ _ (pick_random_element-IsQuiet ext _) λ did.
        Keeps->>= _ quiet _ _ (attest-IsQuiet ext o) λ vp.
          Keeps->>= _ quiet _ _ (Keeps-deref _ quiet _)
            λ k. create_id_token-IsQuiet ext r did scope k vp s)
      (Keeps-give _ quiet _)

multi_cred-IsQuiet :
    (ext : External) (cs : List Credential) (scope : List (String × Value)) (o : PresentOptions)
    → Keeps IsQuiet (create_authorized_response_multi_cred ext cs scope o)
unfolding create_authorized_response_multi_cred
multi_cred-IsQuiet ext cs scope o = Keeps->>= _ quiet _ _ (Keeps-gets _ quiet _) λ r.
    Keeps->>= _ quiet _ _ (Keeps-lift _ quiet _) λ made.
      Keeps->>= _ quiet _ _ (sign_presentations-IsQuiet ext _ r _ _) λ signed.
        Keeps->>= _ quiet _ _ (Keeps-lift _ quiet _) λ tokens.
          Keeps->>= _ quiet _ _ (id_token_many-IsQuiet ext r o scope _ _) λ id_token.
            Keeps->>= _ quiet _ _ (Keeps-on_error _ _ _ (Keeps-lift _ quiet _))
              λ shown. Keeps-give _ quiet _

-- Without `ignoreConstraints`, `createAuthorizedResponse` makes no call and leaves the request object
-- as it is, however it ends.
pub create_authorized_response-IsQuiet :
    (ext : External) (cs : List Credential) (scope : List (String × Value)) (o : PresentOptions)
    → o.ignore_constraints ≡ false
    → Keeps IsQuiet (create_authorized_response ext cs scope o)
unfolding create_authorized_response
create_authorized_response-IsQuiet ext [] scope o kept = Keeps-throw _ quiet _ _
create_authorized_response-IsQuiet ext (c ∷ []) scope o kept = one_cred-IsQuiet ext c scope o kept
create_authorized_response-IsQuiet ext (c ∷ d ∷ cs) scope o kept =
    multi_cred-IsQuiet ext (c ∷ d ∷ cs) scope o
