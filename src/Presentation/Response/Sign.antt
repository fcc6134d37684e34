-- ===== src/Presentation/Response/Sign.antt =====
-- Who signs the tokens of a response, and for what: pkg/openid4vp/openid4vp.go.
use mathlib.Core.List.{append-nil, append_assoc}
use openvino_wallet.Base.{
  sym, ap, ◌∙◌, [], ◌∷◌, String, List, ◌≡◌, get_elem?, refl, some, append, Pairwise, pair, no_pairs,
  ◌++◌,
}
use openvino_wallet.Presentation.Model.{
  External, Presentation, RequestObject, VpFormat, VpSession, Credential, VerificationMethod,
  jwt_vp, ldp_vp, AuthorizedResponse,
}
use openvino_wallet.Presentation.Tokens.{get_holder_signer}
use openvino_wallet.Presentation.Response.{
  sign_presentations, sign_presentation, Signed, create_vp_token, respond_one, choose_format,
  PresentOptions, strip_presentation,
}
use openvino_wallet.Issuance.Model.{Signer}
use openvino_wallet.Run.Success.{
  Ensures, succeeds, Ensures->>=, Ensures-on_error, Ensures-any, Ensures-lift, Ensures-mono,
  Ensures-deref, Ensures-gets, Ensures->>,
}
use openvino_wallet.Run.{ok}
use openvino_wallet.Presentation.Tokens.Signed.{
  IsBound, create_jwt_vp_token-IsBound, IsProved, create_ldp_vp_token-IsProved,
  get_assertion_vm-first,
}
use openvino_wallet.Base.Json.{Value}

abbrev pub IsToken :
    External
    → VpFormat
    → RequestObject
    → String
    → VerificationMethod
    → Signer
    → Presentation
    → String
    → Type 0
IsToken ext jwt_vp r did vm signer p token = IsBound ext r did signer p token
IsToken ext ldp_vp r did vm signer p token = IsProved ext r did vm p token

-- A token for a presentation by the holder of a credential: the holder is the credential's subject, and
-- the key is the first assertion method of the holder's DID.
pub record IsTokenOf (ext : External) (format : VpFormat) (r : RequestObject) (c : Credential)
    (p : Presentation) (token : String) : Type 0 where
  pub did : String
  pub is_subject : ext.subject_id c.subjects ≡ ok did
  pub vm : VerificationMethod
  pub other_methods : List VerificationMethod
  pub is_first : ext.assertion_methods did ≡ ok (vm ∷ other_methods)
  pub signer : Signer
  pub of_method : ext.new_jws_signer vm ≡ ok signer
  pub token_made : IsToken ext format r did vm signer p token

-- The holder is the subject of the first credential of the presentation.
abbrev pub IsTokenOfFirst : External → VpFormat → RequestObject → Presentation → String → Type 0
IsTokenOfFirst ext format r p token =
    (c : Credential) × (get_elem? p.credentials 0 ≡ some c) × IsTokenOf ext format r c p token

create_vp_token-IsToken :
    (ext : External) (format : VpFormat) (r : RequestObject) (did : String)
    (vm : VerificationMethod) (signer : Signer) (p : Presentation) (s : VpSession)
    → Ensures
        (λ token t. IsToken ext format r did vm signer p token)
        (create_vp_token ext format r did vm signer p s)
unfolding create_vp_token
create_vp_token-IsToken ext jwt_vp r did vm signer p s =
    create_jwt_vp_token-IsBound ext r did signer p s
create_vp_token-IsToken ext ldp_vp r did vm signer p s =
    Ensures-on_error _ _ s (create_ldp_vp_token-IsProved ext r did vm p s)

module _ (ext : External) (format : VpFormat) (r : RequestObject) where
  sign_presentation-IsTokenOf :
      (acc : Signed) (p : Presentation) (s : VpSession)
      → Ensures
          (λ next t.
            (token : String) × (next.tokens ≡ append acc.tokens token)
            × IsTokenOfFirst ext format r p token)
          (sign_presentation ext format r acc p s)
  unfolding sign_presentation get_holder_signer
  sign_presentation-IsTokenOf acc p s =
      Ensures->>= _ _ s (Ensures-deref (get_elem? p.credentials 0) s) λ c s1 first.
        Ensures->>= _ _ s1 (Ensures-on_error _ _ s1 (Ensures-lift _ s1)) λ did s2 subject.
          Ensures->>= _ _ s2 (get_assertion_vm-first ext did s2) λ vm s3 method.
            Ensures->>= _ _ s3 (Ensures-lift (ext.new_jws_signer vm) s3) λ signer s4 key.
              Ensures->>= _ _ s4 (create_vp_token-IsToken ext format r did vm signer p s4)
                λ token s5 made. succeeds (
                  token,
                  refl,
                  (
                    c,
                    first.1,
                    record {
                      did = did;
                      is_subject = subject.1;
                      vm = vm;
                      other_methods = method.0;
                      is_first = method.1;
                      signer = signer;
                      of_method = key.1;
                      token_made = made;
                    },
                  ),
                )

  -- A response with several presentations, where it is made, has after the tokens that were there one
  -- token for each presentation, in order and for that presentation: made by the subject of its first
  -- credential, with the first assertion method of the subject's DID, for the verifier's nonce and
  -- client ID.
  pub sign_presentations-AreTokens :
      (ps : List Presentation) (acc : Signed) (s : VpSession)
      → Ensures
          (λ signed t.
            (tokens : List String) × (signed.tokens ≡ acc.tokens ++ tokens)
            × Pairwise (IsTokenOfFirst ext format r) ps tokens)
          (sign_presentations ext format r acc ps s)
  unfolding sign_presentations
  sign_presentations-AreTokens [] acc s = succeeds ([], sym (append-nil acc.tokens), no_pairs)
  sign_presentations-AreTokens (p ∷ ps) acc s =
      Ensures->>= _ _ s (sign_presentation-IsTokenOf acc p s) λ next t one.
        Ensures-mono
          (λ signed u h. (one.0 ∷ h.0, h.1 ∙ after_one acc next one.0 h.0 one.1, pair one.2 h.2))
          (sign_presentations-AreTokens ps next t)
    where
      after_one :
          (acc next : Signed) (token : String) (tokens : List String)
          → next.tokens ≡ append acc.tokens token
          → next.tokens ++ tokens ≡ acc.tokens ++ (token ∷ tokens)
      after_one acc next token tokens h =
          ap (λ ts. ts ++ tokens) h ∙ append_assoc acc.tokens (token ∷ []) tokens

-- What a response with one credential is made of.
pub record IsResponse (ext : External) (r : RequestObject) (c : Credential)
    (response : AuthorizedResponse) : Type 0 where
  pub presentation : Presentation
  pub created :
      ext.create_vp r.presentation_definition (choose_format r (c ∷ [])) (c ∷ []) ≡ ok presentation
  pub token :
      IsTokenOf ext
        (choose_format r (c ∷ []))
        r
        c
        (strip_presentation presentation)
        response.vp_token
  pub shown : ext.marshal_submission presentation.submission ≡ ok response.presentation_submission
  pub same_state : response.state ≡ r.state

-- The response for one credential, where it is made, has the presentation that the definition gives for
-- this credential, as a token that is made by the credential's subject with the first assertion method
-- of the subject's DID, for the verifier's nonce and client ID; and it has the presentation's
-- submission and the state of the request.
pub respond_one-IsResponse :
    (ext : External) (c : Credential) (scope : List (String × Value)) (o : PresentOptions)
    (s : VpSession)
    → Ensures
        (λ response t. IsResponse ext s.request_object c response)
        (respond_one ext c scope o s)
unfolding respond_one get_holder_signer
respond_one-IsResponse ext c scope o s = Ensures-gets _ _ s (
    Ensures->>= _ _ s (Ensures-lift _ s) λ p s0 created.
      Ensures->>= _ _ s0 (Ensures-on_error _ _ s0 (Ensures-lift _ s0)) λ did s1 subject.
        Ensures->> {P = λ t. Unit {0}} _ _ s1 (Ensures-any _) λ s2 full.
          Ensures->>= _ _ s2 (get_assertion_vm-first ext did s2) λ vm s3 method.
            Ensures->>= _ _ s3 (Ensures-lift (ext.new_jws_signer vm) s3) λ signer s4 key.
              Ensures->>= _ _ s4 (Ensures-on_error _ _ s4 (Ensures-lift _ s4))
                λ shown s5 marshalled.
                  Ensures->>= _ _ s5
                    (create_vp_token-IsToken ext (choose_format s.request_object (c ∷ []))
                      s.request_object did vm signer (strip_presentation p) s5)
                    λ token s6 made. Ensures->>= _ _ s6 (Ensures-any _) λ id_token s7 _.
                      succeeds (record {
                        presentation = p;
                        created = created.1;
                        token = record {
                          did = did;
                          is_subject = subject.1;
                          vm = vm;
                          other_methods = method.0;
                          is_first = method.1;
                          signer = signer;
                          of_method = key.1;
                          token_made = made;
                        };
                        shown = marshalled.1;
                        same_state = refl;
                      }))
