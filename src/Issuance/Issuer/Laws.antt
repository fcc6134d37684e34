-- ===== src/Issuance/Issuer/Laws.antt =====
-- Which issuer state an authorization request carries:
-- pkg/openid4ci/issuerinitiatedinteraction.go.
use openvino_wallet.Base.{
  none, some, Option, String, not, str_eq, ◌≡◌, false, true, ◌≢◌, arith, eq_iff, refl,
}
use openvino_wallet.Issuance.Issuer.{determine_issuer_state_to_use}
use openvino_wallet.Run.Rules.{Returns, returned, after_reject}

-- The state to use, of the offer's and the caller's: the one that is given, and where both are given
-- they are the same.
pub data IsAgreed : Option String → Option String → Option String → Type 0 where
  not_offered : {given : Option String} → IsAgreed none given given
  not_given : {offered : String} → IsAgreed (some offered) none (some offered)
  both_same : {state : String} → IsAgreed (some state) (some state) (some state)

same : (o g : String) → not (str_eq o g) ≡ false → g ≡ o
same o g h = ground (arith, eq_iff o g)

differ : (o g : String) → not (str_eq o g) ≡ true → some o ≢ some g
differ o g h e = ground (arith, eq_iff o g)

-- `determineIssuerStateToUse` changes nothing and never panics. It gives the state that the offer or
-- the caller gives, and fails only where both give one and the two differ.
pub determine_issuer_state_to_use-IsAgreed :
    {S : Type 0} (offered given : Option String) (s : S)
    → Returns
        (λ state t. (t ≡ s) × IsAgreed offered given state)
        (λ e t. (t ≡ s) × (offered ≢ none) × (given ≢ none) × (offered ≢ given))
        (determine_issuer_state_to_use offered given s)
unfolding determine_issuer_state_to_use
determine_issuer_state_to_use-IsAgreed none given s = returned (refl, not_offered)
determine_issuer_state_to_use-IsAgreed (some o) none s = returned (refl, not_given)
determine_issuer_state_to_use-IsAgreed (some o) (some g) s =
    after_reject _ _ _ _ (λ bad. (refl, (λ e. cc), (λ e. cc), λ e. differ o g bad e))
      λ good. returned (refl, rw (same o g good) both_same)
