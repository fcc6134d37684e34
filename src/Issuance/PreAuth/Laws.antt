-- ===== src/Issuance/PreAuth/Laws.antt =====
-- The pre-authorized code flow: pkg/openid4ci/issuerinitiatedinteraction.go.
use openvino_wallet.Issuance.PreAuth.{
  zero_response, fill_responses, PreAuthOptions, request_credential_with_pre_auth,
  request_with_grant, need_pre_authorized_grant, pre_auth_credential_response, request_with_proof,
  pre_auth_attempt,
}
use openvino_wallet.Issuance.Request.{
  append_id, store_acknowledgment_id, retry_once, again_if_invalid_proof, Wanted,
  create_claims_proof,
}
use openvino_wallet.Issuance.Model.{
  set_interaction, External, Signer, CredentialResponse, Session, Credential,
}
use openvino_wallet.Base.{
  map, ◌++◌, ◌+◌, none, some, [], ◌∷◌, zero, String, ℕ, ◌≡◌, List, ◌&&◌, is_empty, false, length,
  ◌⊎◌, Bool-cases, ltb, inl, split, inr, suc, arith, refl, Option, ◌<◌,
}
use openvino_wallet.Issuance.Issuer.{IssuerSession, validate_signer_key_id, usage_error}
use openvino_wallet.Issuance.Grants.{PreAuthorizedCodeGrantParams, pin_required}
use openvino_wallet.Base.Json.{ℤ, Value}
use openvino_wallet.Run.{steps, ◌>>◌, reject_if, M, ◌>>=◌, done, fail}
use openvino_wallet.Run.Success.{IsRejected, rejected, IsPanic, panicked, panics-first}
use openvino_wallet.Errors.{GoError, as_invalid_proof}

-- What has to hold before the flow does anything.
pub record IsAllowed (signer : Signer) (o : PreAuthOptions) (s : IssuerSession) : Type 0 where
  pub grant : PreAuthorizedCodeGrantParams
  pub offered : s.flow.pre_authorized_code_grant_params ≡ some grant
  pub has_pin : (pin_required grant && is_empty o.pin) ≡ false
  pub has_did : ltb (length (split b'#' signer.key_id)) 2 ≡ false

module _ (ext : External) (signer : Signer) (o : PreAuthOptions) (s : IssuerSession) where
  request_with_grant-IsAllowed :
      (grant : PreAuthorizedCodeGrantParams)
      → s.flow.pre_authorized_code_grant_params ≡ some grant
      → (pin_required grant && is_empty o.pin) ≡ false
      → IsRejected s (request_with_grant ext signer o grant.pre_authorized_code s)
        ⊎ IsAllowed signer o s
  unfolding request_with_grant validate_signer_key_id ◌>>◌ reject_if
  request_with_grant-IsAllowed grant offered has_pin =
      elim (Bool-cases (ltb (length (split b'#' signer.key_id)) 2)) [
        | inl bad ↦ inl (rw bad rejected)
        | inr good ↦
            inr (record { grant = grant; offered = offered; has_pin = has_pin; has_did = good })
      ]

  -- `RequestCredentialWithPreAuth` fails at once, with nothing changed and no call made, unless the
  -- offer has a pre-authorized code grant, the PIN is there where the grant requires one, and the
  -- signer's key ID has a DID part.
  pub request_credential_with_pre_auth-IsAllowed :
      IsRejected s (request_credential_with_pre_auth ext signer o s) ⊎ IsAllowed signer o s
  unfolding request_credential_with_pre_auth need_pre_authorized_grant steps
  request_credential_with_pre_auth-IsAllowed = go s.flow.pre_authorized_code_grant_params refl
    where
      rest : PreAuthorizedCodeGrantParams → M IssuerSession (List Credential)
      rest grant =
          reject_if (pin_required grant && is_empty o.pin)
            (usage_error "the credential offer requires a user PIN, but none was provided")
          >> request_with_grant ext signer o grant.pre_authorized_code

      go :
          (held : Option PreAuthorizedCodeGrantParams)
          → s.flow.pre_authorized_code_grant_params ≡ held
          → IsRejected s ((need_pre_authorized_grant held >>= rest) s) ⊎ IsAllowed signer o s
      go none e = inl rejected
      go (some grant) offered = elim (Bool-cases (pin_required grant && is_empty o.pin)) [
        | inl bad ↦ inl (rw bad rejected)
        | inr good ↦ elim (request_with_grant-IsAllowed grant offered good) [
          | inl h ↦ inl (rw good h)
          | inr h ↦ inr h
        ]
      ]

-- What is taken from one response of a batch.
abbrev pub filled : String → ℤ → CredentialResponse → CredentialResponse
filled n expires r = record {
  credential = r.credential;
  transaction_id = r.transaction_id;
  c_nonce = n;
  c_nonce_expires_in = expires;
  ack_id = r.ack_id;
}

unfoldable pub zeros : ℕ → List CredentialResponse
zeros zero = []
zeros (suc k) = zero_response ∷ zeros k

-- The acknowledgment IDs, with those of the responses after them.
unfoldable pub with_ids : Option (List String) → List CredentialResponse → Option (List String)
with_ids ids [] = ids
with_ids ids (r ∷ rs) = with_ids (append_id ids r.ack_id) rs

abbrev pub holding : List CredentialResponse → Session → Session
holding rs =
    set_interaction
      (λ i. record i { requested_acknowledgment = with_ids i.requested_acknowledgment rs })

fill_responses-zeros :
    (n : String) (expires : ℤ) (room : ℕ) (s : Session)
    → fill_responses (some n) (some expires) room [] s ≡ done (zeros room) s
unfolding fill_responses zeros ◌>>=◌
fill_responses-zeros n expires zero s = refl
fill_responses-zeros n expires (suc room) s = rw (fill_responses-zeros n expires room s) refl

-- A batch response with a nonce and an expiry is taken over without a panic, an error or a call, where it
-- has no more responses than credentials were asked for. Each response gives one in its place, with
-- the nonce and the expiry of the batch; each place that is left has the zero value; and the
-- acknowledgment IDs of the responses are added in order, with nothing else changed.
pub fill_responses-IsFilled :
    (n : String) (expires : ℤ) (room spare : ℕ) (responses : List CredentialResponse) (s : Session)
    → room ≡ length responses + spare
    → fill_responses (some n) (some expires) room responses s
      ≡ done (map (filled n expires) responses ++ zeros spare) (holding responses s)
unfolding fill_responses store_acknowledgment_id with_ids steps
fill_responses-IsFilled n expires room spare [] s fits =
    let same : room ≡ spare = omega (arith, fits) in
    rw same (fill_responses-zeros n expires spare s)
fill_responses-IsFilled n expires zero spare (r ∷ rs) s fits = absurd (omega (arith, fits))
fill_responses-IsFilled n expires (suc room) spare (r ∷ rs) s fits =
    rw (fill_responses-IsFilled n expires room spare rs _ (omega (arith, fits))) refl

-- A batch response with more responses than credentials were asked for makes the wallet panic: the
-- loop writes past the end of the slice.
pub fill_responses-crash :
    (n : String) (expires : ℤ) (room : ℕ) (responses : List CredentialResponse) (s : Session)
    → room < length responses
    → IsPanic (fill_responses (some n) (some expires) room responses s)
unfolding fill_responses store_acknowledgment_id steps
fill_responses-crash n expires room [] s over = absurd (omega (arith, over))
fill_responses-crash n expires zero (r ∷ rs) s over = panicked
fill_responses-crash n expires (suc room) (r ∷ rs) s over =
    panics-first _ (fill_responses-crash n expires room rs _ (omega (arith, over)))

again_if_invalid_proof-some :
    {S A : Type 0} (e : GoError) (fresh : String) (s : S) (again : String → M S A)
    → as_invalid_proof e ≡ some fresh
    → again_if_invalid_proof (fail e s) again ≡ again fresh s
unfolding again_if_invalid_proof
again_if_invalid_proof-some e fresh s again h = rw (h, again_if_invalid_proof) refl

-- Where the issuer rejects the proof and gives a fresh nonce, the pre-authorized code flow tries once
-- more, but with the nonce that was rejected: the fresh one is not used.
pub pre_auth_credential_response-stale :
    (ext : External) (signer : Signer) (w : Wanted) (access_token : String) (used : Value)
    (s t u : Session) (proof_jwt fresh : String) (e : GoError)
    → create_claims_proof ext used signer s ≡ done proof_jwt t
    → request_with_proof ext w access_token proof_jwt t ≡ fail e u
    → as_invalid_proof e ≡ some fresh
    → pre_auth_credential_response ext signer w access_token used s
      ≡ pre_auth_attempt ext signer w access_token used u
unfolding pre_auth_credential_response retry_once ◌>>=◌
pre_auth_credential_response-stale ext signer w access_token used s t u proof_jwt fresh e signed
      refused asks =
    rw (signed, refused)
      (again_if_invalid_proof-some e fresh u
        (λ fresh. pre_auth_attempt ext signer w access_token used) asks)
