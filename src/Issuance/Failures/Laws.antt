-- ===== src/Issuance/Failures/Laws.antt =====
-- Which error responses ask for a new proof: `processCredentialErrorResponse` of
-- pkg/openid4ci/interaction.go and `tokenErrorResponseHandler` of
-- pkg/openid4ci/issuerinitiatedinteraction.go.
use openvino_wallet.Base.{
  ℕ, String, Option, none, some, ◌≡◌, refl, ◌↔◌, inl, inr, arith, eq_iff, str_eq, lookup,
  Bool-cases,
}
use openvino_wallet.Errors.{GoError, WalletError, wallet, as_invalid_proof}
use openvino_wallet.Run.{ok}
use openvino_wallet.Run.Rules.{Result-cases}
use openvino_wallet.Issuance.Model.{External, ErrorResponse}
use openvino_wallet.Issuance.Failures.{
  wallet_case, credential_cases, credential_error, process_credential_error_response, token_cases,
  token_error_response_handler,
}

wallet_case-nonce :
    (o : Option (ℕ × String)) (default : ℕ × String) (detail : GoError) (r : ErrorResponse)
    → as_invalid_proof (wallet_case o default detail r) ≡ none
unfolding wallet_case as_invalid_proof
wallet_case-nonce none default detail r = refl
wallet_case-nonce (some c) default detail r = refl

wallet-nonce : (e : WalletError) (nonce : String) → as_invalid_proof (wallet e) ≡ some nonce → ⊥
unfolding as_invalid_proof
wallet-nonce e nonce h = cc

credential_error-nonce :
    (detail : GoError) (r : ErrorResponse) (nonce : String)
    → (as_invalid_proof (credential_error detail r) ≡ some nonce)
      ↔ ((r.error ≡ "invalid_proof") × (r.c_nonce ≡ nonce))
unfolding credential_error as_invalid_proof
credential_error-nonce detail r nonce = elim (Bool-cases (str_eq r.error "invalid_proof")) [
  | inl e ↦ ground (arith, eq_iff r.error "invalid_proof")
  | inr e ↦ (
    λ h. cc (
      wallet_case-nonce (lookup r.error credential_cases) (13, "OTHER_CREDENTIAL_REQUEST_ERROR")
          detail r,
      rw e at h,
    ),
    λ (tag, same). ground (arith, eq_iff r.error "invalid_proof"),
  )
]

-- The response asks for a new proof with `nonce`.
abbrev pub AsksForProof : External → String → String → Type 0
AsksForProof ext body nonce =
    (r : ErrorResponse) × (ext.unmarshal_error_response body ≡ ok r)
    × (r.error ≡ "invalid_proof")
    × (r.c_nonce ≡ nonce)

-- An error response of the credential endpoint is turned into an `InvalidProofError` with the nonce
-- `nonce` exactly when its body decodes to the error `invalid_proof` with that `c_nonce`, whatever
-- the status is.
pub process_credential_error_response-asks :
    (ext : External) (status : ℕ) (body nonce : String)
    → (as_invalid_proof (process_credential_error_response ext status body) ≡ some nonce)
      ↔ AsksForProof ext body nonce
unfolding process_credential_error_response
process_credential_error_response-asks ext status body nonce =
    elim (Result-cases (ext.unmarshal_error_response body)) [
      | inl (r, good) ↦ (
        λ h.
            let (tag, same) =
              (credential_error-nonce _ r nonce).0
                (rw (good, process_credential_error_response) at h) in
            (r, good, tag, same),
        λ h.
            let same_r : h.0 ≡ r = ground (arith, h.1) in
            rw (good, process_credential_error_response)
              ((credential_error-nonce _ r nonce).1 (rw (← same_r) h.2, rw (← same_r) h.3)),
      )
      | inr (e, bad) ↦ (
        λ h. absurd (wallet-nonce _ nonce (rw (bad, process_credential_error_response) at h)),
        λ h. absurd (ground (arith, h.1)),
      )
    ]

-- No error response of the token endpoint becomes an `InvalidProofError`, so it is never retried.
pub token_error_response_handler-nonce :
    (ext : External) (status : ℕ) (body : String)
    → as_invalid_proof (token_error_response_handler ext status body) ≡ none
unfolding token_error_response_handler
token_error_response_handler-nonce ext status body =
    elim (Result-cases (ext.unmarshal_error_response body)) [
      | inl (r, good) ↦
          rw (good, token_error_response_handler)
            (wallet_case-nonce (lookup r.error token_cases) (12, "OTHER_TOKEN_REQUEST_ERROR") _ r)
      | inr (e, bad) ↦ rw (bad, token_error_response_handler) (unfold as_invalid_proof in refl)
    ]
