-- ===== src/Presentation/Tokens/Signed.antt =====
-- The tokens for one presentation, and the key that signs them: pkg/openid4vp/openid4vp.go.
use openvino_wallet.Base.{none, some, [], ◌∷◌, String, List, ℕ, ◌≡◌, ◌+◌, refl, Option}
use openvino_wallet.Presentation.Model.{
  External, Presentation, RequestObject, TokenClaims, read_source, VpSession, VpTokenClaims,
  vp_token_claims, VerificationMethod, Format,
}
use openvino_wallet.Presentation.Tokens.{
  create_jwt_vp_token, sign_token, token_live_time_sec, get_assertion_vm, create_ldp_vp_token,
  first_method, ldp_type_of,
}
use openvino_wallet.Issuance.Model.{Signer}
use openvino_wallet.Run.Success.{
  Ensures, succeeds, Ensures->>=, Ensures-on_error, Ensures-lift, Ensures-mono, fails,
}
use openvino_wallet.Run.{ok}

-- A JWT token for a presentation: signed claims that hold the presentation, and name the holder, the
-- verifier and the verifier's nonce.
pub record IsBound (ext : External) (r : RequestObject) (did : String) (signer : Signer)
    (p : Presentation) (token : String) : Type 0 where
  pub claims : VpTokenClaims
  pub jwt : String
  pub signed : ext.new_signed (vp_token_claims claims) signer ≡ ok jwt
  pub serialized : ext.serialize jwt ≡ ok token
  pub shown : claims.vp ≡ p
  pub same_nonce : claims.nonce ≡ r.nonce
  pub for_verifier : claims.aud ≡ r.client_id
  pub from_holder : claims.iss ≡ did

sign_token_lem :
    (ext : External) (c : TokenClaims) (k : Signer) (s : VpSession)
    → Ensures
        (λ token t. (jwt : String) × (ext.new_signed c k ≡ ok jwt) × (ext.serialize jwt ≡ ok token))
        (sign_token ext c k s)
unfolding sign_token
sign_token_lem ext c k s = Ensures->>= _ _ _ (Ensures-on_error _ _ s (Ensures-lift _ s)) λ jwt t p.
    rw p.0 (Ensures-mono (λ token u q. (jwt, p.1, q.1)) (Ensures-on_error _ _ s (Ensures-lift _ s)))

-- A `jwt_vp` token that is made holds the presentation it was made for, names the holder and the
-- verifier, carries the verifier's nonce, and is signed by the holder's signer.
pub create_jwt_vp_token-IsBound :
    (ext : External) (r : RequestObject) (did : String) (signer : Signer) (p : Presentation)
    (s : VpSession)
    → Ensures
        (λ token t. IsBound ext r did signer p token)
        (create_jwt_vp_token ext r did signer p s)
unfolding create_jwt_vp_token read_source
create_jwt_vp_token-IsBound ext r did signer p s =
    Ensures->>= _ _ s (read_any ext.now s) λ exp s1 _.
      Ensures->>= _ _ s1 (read_any ext.now s1) λ nbf s2 _.
        Ensures->>= _ _ s2 (read_any ext.now s2) λ iat s3 _.
          Ensures->>= _ _ s3 (read_any ext.uuid s3) λ jti s4 _. Ensures-on_error _ _ s4 (
            Ensures-mono
              (λ token t q. record {
                claims = record {
                  vp = p;
                  nonce = r.nonce;
                  exp = exp + token_live_time_sec;
                  iss = did;
                  aud = r.client_id;
                  nbf = nbf;
                  iat = iat;
                  jti = jti;
                };
                jwt = q.0;
                signed = q.1;
                serialized = q.2;
                shown = refl;
                same_nonce = refl;
                for_verifier = refl;
                from_holder = refl;
              })
              (sign_token_lem ext _ signer s4))
  where
    read_any :
        {A : Type 0} (f : ℕ → A) (s : VpSession) → Ensures (λ a t. Unit {0}) (read_source f s)
    read_any f s = succeeds tt

-- An LD proof of a presentation: of a type that the verifier supports, for its nonce and its client ID.
pub record IsProved (ext : External) (r : RequestObject) (did : String) (vm : VerificationMethod)
    (p : Presentation) (token : String) : Type 0 where
  pub formats : Format
  pub has_formats : r.client_metadata.vp_formats ≡ some formats
  pub types : List String
  pub has_types : formats.ldp_vp ≡ some types
  pub proved : Presentation
  pub signed :
      ext.add_ld_proof
        (record {
          ldp_type = types;
          method = vm;
          did = did;
          challenge = r.nonce;
          domain = r.client_id;
        })
        p
      ≡ ok proved
  pub shown : ext.marshal_presentation proved ≡ ok token

ldp_type_of-types :
    (r : RequestObject) (f : Format) (s : VpSession) (o : Option (List String))
    → r.client_metadata.vp_formats ≡ some f
    → f.ldp_vp ≡ o
    → Ensures
        (λ types t.
          (f : Format) × (r.client_metadata.vp_formats ≡ some f) × (f.ldp_vp ≡ some types))
        (ldp_type_of (some f) s)
unfolding ldp_type_of
ldp_type_of-types r f s none h g = rw g fails
ldp_type_of-types r f s (some types) h g = rw g (succeeds (f, h, g))

pub create_ldp_vp_token-IsProved :
    (ext : External) (r : RequestObject) (did : String) (vm : VerificationMethod) (p : Presentation)
    (s : VpSession)
    → Ensures (λ token t. IsProved ext r did vm p token) (create_ldp_vp_token ext did vm r p s)
unfolding create_ldp_vp_token ldp_type_of
create_ldp_vp_token-IsProved ext r did vm p s =
    Ensures->>= _ _ s (types_lem r.client_metadata.vp_formats refl) λ types t h.
      Ensures->>= _ _ t (Ensures-on_error _ _ t (Ensures-lift _ t)) λ proved u q.
        Ensures-mono
          (λ token v k. record {
            formats = h.0;
            has_formats = h.1;
            types = types;
            has_types = h.2;
            proved = proved;
            signed = q.1;
            shown = k.1;
          })
          (Ensures-on_error _ _ u (Ensures-lift _ u))
  where
    types_lem :
        (o : Option Format)
        → r.client_metadata.vp_formats ≡ o
        → Ensures
            (λ types t.
              (f : Format) × (r.client_metadata.vp_formats ≡ some f) × (f.ldp_vp ≡ some types))
            (ldp_type_of o s)
    types_lem none h = fails
    types_lem (some f) h = ldp_type_of-types r f s f.ldp_vp h refl

pub get_assertion_vm-first :
    (ext : External) (did : String) (s : VpSession)
    → Ensures
        (λ vm t. (ms : List VerificationMethod) × (ext.assertion_methods did ≡ ok (vm ∷ ms)))
        (get_assertion_vm ext did s)
unfolding get_assertion_vm first_method
get_assertion_vm-first ext did s =
    Ensures->>= _ _ s (Ensures-on_error _ _ s (Ensures-lift _ s)) λ ms t h. first_lem ms t h.1
  where
    first_lem :
        (ms : List VerificationMethod) (t : VpSession)
        → ext.assertion_methods did ≡ ok ms
        → Ensures
            (λ vm t. (ms : List VerificationMethod) × (ext.assertion_methods did ≡ ok (vm ∷ ms)))
            (first_method ms t)
    first_lem [] t h = fails
    first_lem (m ∷ ms) t h = succeeds (ms, h)
