-- ===== src/Wellknown.antt =====
-- pkg/did/wellknown/wellknown.go: whether a DID and the web domain that its document names belong
-- together. Resolving the DID, the check of the DID configuration and `strings.EqualFold` are
-- parameters.
pub mod Laws
use Prim.Native.String.{◌++◌}
use openvino_wallet.Base.{
  ℕ, suc, String, Bool, true, false, not, Option, none, some, List, [], ◌∷◌, is_some, trim_suffix,
  decimal, if◌then◌else◌,
}
use openvino_wallet.Base.Json.{Value, as_string}
use openvino_wallet.Errors.{GoError, plain, wrapped, wallet, new_execution_error}
use openvino_wallet.Run.{Result, ok, err}

-- A service of a DID document; its `Type` is any JSON value. `endpoint_uri` is what
-- `ServiceEndpoint.URI()` returns.
pub record Service : Type 0 where
  pub type : Value
  pub endpoint_uri : Result String

pub record Resolver : Type 0 where
  pub resolve : String → Result (List Service)
  pub verify_did_and_domain : String → String → Option GoError
  pub equal_fold : String → String → Bool

-- What `ValidateLinkedDomains` returns beside its error.
pub record LinkedDomain : Type 0 where
  pub valid : Bool
  pub domain : String

abbrev pub linked_domains_service_type : String
linked_domains_service_type = "LinkedDomains"

unsupported_type : ℕ → GoError
unfolding decimal
unsupported_type i = plain (
    "resolved DID document is not supported since it contains a service type at index "
    ++ (decimal i ++ " that is not a simple string"))

-- The loop of `getLinkedDomainsService`, from index `i`.
find_service : Resolver → ℕ → List Service → Result (Option Service)
unfolding unsupported_type
find_service r i [] = ok none
find_service r i (s ∷ services) =
    let rest = find_service r (suc i) services in
    elim (as_string s.type) [
      | none ↦ err (unsupported_type i)
      | some type ↦ if r.equal_fold type linked_domains_service_type then ok (some s) else rest
    ]

unfoldable pub get_linked_domains_service : Resolver → List Service → Result (Option Service)
unfolding find_service
get_linked_domains_service r services = find_service r 0 services

initialization_failed : GoError → GoError
initialization_failed e = wallet (new_execution_error "DID" 6 "WELLKNOWN_INITIALIZATION_FAILED" e)

check_service : Resolver → String → Option Service → Result LinkedDomain
unfolding initialization_failed trim_suffix
check_service r did none = ok (record { valid = false; domain = "" })
check_service r did (some service) = elim service.endpoint_uri [
  | err e ↦ err (initialization_failed e)
  | ok uri ↦
      let site = trim_suffix uri "/" in
      ok (record { valid = not (is_some (r.verify_did_and_domain did site)); domain = site })
]

check_services : Resolver → String → List Service → Result LinkedDomain
unfolding check_service get_linked_domains_service
check_services r did services = elim (get_linked_domains_service r services) [
  | err e ↦ err e
  | ok found ↦ check_service r did found
]

-- The resolver is `none` where the caller passes nil.
unfoldable pub validate_linked_domains : Option Resolver → String → Result LinkedDomain
unfolding check_services initialization_failed
validate_linked_domains none did = err (initialization_failed (plain "no resolver provided"))
validate_linked_domains (some r) did = elim (r.resolve did) [
  | err e ↦ err (initialization_failed (wrapped "failed to resolve DID" e))
  | ok services ↦ check_services r did services
]
