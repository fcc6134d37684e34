-- ===== src/Issuance/PreAuth/Calls.antt =====
-- How often the pre-authorized code flow asks for credentials: `getCredentialResponse` of
-- pkg/openid4ci/issuerinitiatedinteraction.go.
use openvino_wallet.Base.{
  [], ◌∷◌, zero, suc, inl, inr, true, false, Option, String, List, length, ℕ, Bool, ltb, ◌+◌,
  if◌then◌else◌, ◌≡◌, Bool-cases, refl, arith,
}
use openvino_wallet.Run.Frame.{
  Keeps, Keeps-if, Keeps->>, Keeps->>=, Keeps-give, Keeps-deref, Keeps-lift,
}
use openvino_wallet.Issuance.Request.Retry.{
  AtMost, after_no_call, no_call, create_claims_proof-AtMost, fetch_credentials-AtMost,
  the_metadata-AtMost, in_sequence, store_acknowledgment_id-AtMost, post-AtMost, retry_once-AtMost,
  weaken,
}
use openvino_wallet.Issuance.Model.{External, Signer, Session, CredentialResponse}
use openvino_wallet.Issuance.PreAuth.{
  fill_responses, batch_requests, get_credential_responses_batch, one_by_one, request_with_proof,
  use_batch, pre_auth_attempt, pre_auth_credential_response,
}
use openvino_wallet.Issuance.Request.{Wanted}
use openvino_wallet.Base.Json.{Value, ℤ}
use openvino_wallet.Run.{final, done, panic, ◌>>=◌}
use openvino_wallet.Http.{configured}

module _ (ext : External) where
  batch_requests-AtMost :
      (proof_jwt : String) (formats : List String) (index : ℕ) (types : List (List String))
      → Keeps (AtMost 0) (batch_requests proof_jwt formats index types)
  unfolding batch_requests
  batch_requests-AtMost proof_jwt formats index [] = Keeps-give _ no_call _
  batch_requests-AtMost proof_jwt formats index (types ∷ rest) =
      Keeps->>= _ no_call _ _ (Keeps-deref _ no_call _) λ format.
        Keeps->>= _ no_call _ _ (batch_requests-AtMost proof_jwt formats (suc index) rest)
          λ requests. Keeps-give _ no_call _

panic-AtMost : (A : Type 0) → Keeps (AtMost 0) (panic {A = A})
unfolding Keeps AtMost
panic-AtMost A s = omega arith

fill_responses-AtMost :
    (given : Option String) (expires : Option ℤ) (room : ℕ) (rs : List CredentialResponse)
    → Keeps (AtMost 0) (fill_responses given expires room rs)
unfolding fill_responses
fill_responses-AtMost given expires zero [] = Keeps-give _ no_call _
fill_responses-AtMost given expires (suc room) [] =
    Keeps->>= _ no_call _ _ (fill_responses-AtMost given expires room [])
      λ rest. Keeps-give _ no_call _
fill_responses-AtMost given expires zero (r ∷ rs) =
    Keeps->>= _ no_call _ _ (Keeps-deref _ no_call given)
      λ n. Keeps->>= _ no_call _ _ (Keeps-deref _ no_call expires) λ e. panic-AtMost _
fill_responses-AtMost given expires (suc room) (r ∷ rs) =
    Keeps->>= _ no_call _ _ (Keeps-deref _ no_call given) λ n.
      Keeps->>= _ no_call _ _ (Keeps-deref _ no_call expires) λ e.
        Keeps->> _ no_call _ _ (store_acknowledgment_id-AtMost r.ack_id) (
          Keeps->>= _ no_call _ _ (fill_responses-AtMost given expires room rs)
            λ rest. Keeps-give _ no_call _)

module _ (ext : External) (w : Wanted) (access_token : String) where
  batch-AtMost :
      (proof_jwt : String)
      → Keeps (AtMost 1) (get_credential_responses_batch ext w access_token proof_jwt)
  unfolding get_credential_responses_batch
  batch-AtMost proof_jwt =
      after_no_call 1 _ _ (batch_requests-AtMost ext proof_jwt w.formats 0 w.types) λ requests.
        after_no_call 1 _ _ (Keeps-lift _ no_call _) λ body.
          after_no_call 1 _ _ the_metadata-AtMost λ m.
            in_sequence 1 0 _ _ (post-AtMost ext configured _) λ bytes.
              Keeps->>= _ no_call _ _ (Keeps-lift _ no_call _)
                λ response. fill_responses-AtMost _ _ _ _

  one_by_one-AtMost :
      (proof_jwt : String)
      → Keeps (AtMost (length w.types)) (one_by_one ext w access_token proof_jwt)
  unfolding one_by_one
  one_by_one-AtMost proof_jwt = fetch_credentials-AtMost ext _ 0 w.types

  use_batch-AtMost : Keeps (AtMost 0) (use_batch w)
  unfolding use_batch
  use_batch-AtMost =
      Keeps-if _ no_call _ _ _
        (Keeps->>= _ no_call _ _ the_metadata-AtMost λ m. Keeps-give _ no_call _)
        (Keeps-give _ no_call _)

  use_batch-one : (s : Session) → ltb 1 (length w.types) ≡ false → use_batch w s ≡ done false s
  unfolding use_batch
  use_batch-one s few = rw few refl

  request_one_by_one-AtMost :
      (proof_jwt : String)
      → ltb 1 (length w.types) ≡ false
      → Keeps (AtMost (length w.types)) (request_with_proof ext w access_token proof_jwt)
  unfolding request_with_proof Keeps ◌>>=◌
  request_one_by_one-AtMost proof_jwt few s =
      rw (use_batch-one s few) (one_by_one-AtMost proof_jwt s)

  request_with_proof-AtMost :
      (proof_jwt : String)
      → Keeps (AtMost (length w.types)) (request_with_proof ext w access_token proof_jwt)
  unfolding request_with_proof
  request_with_proof-AtMost proof_jwt = elim (Bool-cases (ltb 1 (length w.types))) [
    | inl several ↦ after_no_call (length w.types) _ _ use_batch-AtMost λ batch.
        either batch
          (weaken 1 (length w.types) _ (ground (arith, several)) (batch-AtMost proof_jwt))
    | inr few ↦ request_one_by_one-AtMost proof_jwt few
  ]
    where
      either :
          (batch : Bool)
          → Keeps
              (AtMost (length w.types))
              (get_credential_responses_batch ext w access_token proof_jwt)
          → Keeps (AtMost (length w.types)) (
              if batch
              then get_credential_responses_batch ext w access_token proof_jwt
              else one_by_one ext w access_token proof_jwt)
      either true h = h
      either false h = one_by_one-AtMost proof_jwt

module _ (ext : External) (signer : Signer) (w : Wanted) (access_token : String)
    (used : Value) where
  pre_auth_attempt-AtMost :
      Keeps (AtMost (length w.types)) (pre_auth_attempt ext signer w access_token used)
  unfolding pre_auth_attempt
  pre_auth_attempt-AtMost =
      after_no_call (length w.types) _ _ (create_claims_proof-AtMost ext used signer)
        λ proof_jwt. request_with_proof-AtMost ext w access_token proof_jwt

  -- However often proofs are rejected, the pre-authorized code flow makes at most two calls for each
  -- credential that is asked for, on every outcome, whether it asks one by one or in batches.
  pub pre_auth_credential_response-AtMost :
      (s : Session)
      → AtMost
          (length w.types + length w.types)
          s
          (final (pre_auth_credential_response ext signer w access_token used s))
  unfolding Keeps pre_auth_credential_response
  pre_auth_credential_response-AtMost s =
      after_no_call (length w.types + length w.types) _ _
        (create_claims_proof-AtMost ext used signer)
        (λ proof_jwt.
          retry_once-AtMost (length w.types) (length w.types) _ _
            (request_with_proof-AtMost ext w access_token proof_jwt)
            (λ fresh. pre_auth_attempt-AtMost))
        s
