-- ===== src/Issuance/Grants/Laws.antt =====
-- The grants that are read from a credential offer: pkg/openid4ci/grants.go.
use openvino_wallet.Base.{
  none, some, not, List, Option, String, is_some, ◌≡◌, lookup, arith, ◌||◌, inl, true, inr, Bool,
  ◌&&◌, false, if◌then◌else◌, refl, sym,
}
use openvino_wallet.Issuance.Model.{CredentialOffer}
use openvino_wallet.Issuance.Grants.{
  both_grants, determine_issuer_grant_capabilities, process_if_present, Grants,
  PreAuthorizedCodeGrantParams, AuthorizationCodeGrantParams, pre_authorized_grant_type,
  authorization_code_grant_type,
}
use openvino_wallet.Run.{Result, ok, err}
use openvino_wallet.Base.Json.{Value}
use openvino_wallet.Run.Rules.{Result-cases}
use openvino_wallet.Errors.{GoError}

-- The grants of a result are those that the offer lists, at least one.
pub record AreListed (offer : CredentialOffer) (g : Grants) : Type 0 where
  pub pre_authorized_same :
      is_some g.pre_authorized ≡ is_some (lookup pre_authorized_grant_type offer.grants)
  pub authorization_same :
      is_some g.authorization ≡ is_some (lookup authorization_code_grant_type offer.grants)
  pub some_listed : (is_some g.pre_authorized || is_some g.authorization) ≡ true

process_if_present-is_some :
    {A : Type 0} (process : List (String × Value) → Result A) (o : Option (List (String × Value)))
    (p : Option A)
    → process_if_present process o ≡ ok p
    → is_some p ≡ is_some o
unfolding process_if_present
process_if_present-is_some process none p h = ground arith
process_if_present-is_some process (some raw) p h = elim (Result-cases (process raw)) [
  | inl (a, good) ↦ ground arith
  | inr (e, bad) ↦ ground arith
]

both_grants-eq-ok :
    (p : Result (Option PreAuthorizedCodeGrantParams))
    (a : Result (Option AuthorizationCodeGrantParams)) (g : Grants)
    → both_grants p a ≡ ok g
    → (p ≡ ok g.pre_authorized) × (a ≡ ok g.authorization)
unfolding both_grants
both_grants-eq-ok (err e) a g h = ground arith
both_grants-eq-ok (ok p) (err e) g h = ground arith
both_grants-eq-ok (ok p) (ok a) g h = ground arith

if-eq-ok :
    {A : Type 0} (test : Bool) (e : GoError) (r : Result A) (a : A)
    → (if test then err e else r) ≡ ok a
    → (test ≡ false) × (r ≡ ok a)
if-eq-ok true e r a h = ground arith
if-eq-ok false e r a h = (refl, h)

not_both : (a b : Bool) → (not a && not b) ≡ false → (a || b) ≡ true
not_both true b h = refl
not_both false true h = refl
not_both false false h = sym h

-- `determineIssuerGrantCapabilities`, where it succeeds, gives parameters for exactly the grants that
-- the offer lists, and there is at least one.
pub determine_issuer_grant_capabilities-AreListed :
    (offer : CredentialOffer) (g : Grants)
    → determine_issuer_grant_capabilities offer ≡ ok g
    → AreListed offer g
unfolding determine_issuer_grant_capabilities
determine_issuer_grant_capabilities-AreListed offer g h =
    let listed = if-eq-ok _ _ _ g h in
    let parts = both_grants-eq-ok _ _ g listed.1 in
    let p = process_if_present-is_some _ _ g.pre_authorized parts.0 in
    let a = process_if_present-is_some _ _ g.authorization parts.1 in
    record {
      pre_authorized_same = p;
      authorization_same = a;
      some_listed = rw (p, a) (not_both _ _ listed.0);
    }
