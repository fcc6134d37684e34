-- ===== src/Wellknown/Laws.antt =====
-- Linked domains: pkg/did/wellknown/wellknown.go.
use openvino_wallet.Base.{
  ℕ, suc, String, true, false, Option, none, some, List, [], ◌∷◌, ◌++◌, ◌≡◌, refl, inl, inr, arith,
  All, Option-cases, Bool-cases, trim_suffix,
}
use openvino_wallet.Base.Json.{as_string}
use openvino_wallet.Run.{ok}
use openvino_wallet.Run.Rules.{Result-cases}
use openvino_wallet.Wellknown.{
  Service, Resolver, linked_domains_service_type, find_service, get_linked_domains_service,
  check_service, validate_linked_domains,
}

-- The service is not of the type that is looked for, and its type is a text.
abbrev pub IsOther : Resolver → Service → Type 0
IsOther r s =
    (type : String) × (as_string s.type ≡ some type)
    × (r.equal_fold type linked_domains_service_type ≡ false)

-- The first service of the type `LinkedDomains`, after others of types that are texts.
pub record IsFirst (r : Resolver) (services : List Service) (s : Service) : Type 0 where
  pub before : List Service
  pub following : List Service
  pub split : services ≡ before ++ s ∷ following
  pub others : All (IsOther r) before
  pub type : String
  pub has_type : as_string s.type ≡ some type
  pub matches : r.equal_fold type linked_domains_service_type ≡ true

module _ (r : Resolver) where
  find_service-IsFirst :
      (i : ℕ) (services : List Service) (s : Service)
      → find_service r i services ≡ ok (some s)
      → IsFirst r services s
  unfolding find_service
  find_service-IsFirst i [] s h = cc
  find_service-IsFirst i (x ∷ xs) s h = elim (Option-cases (as_string x.type)) [
    | inl bad ↦ ground arith
    | inr (type, good) ↦ elim (Bool-cases (r.equal_fold type linked_domains_service_type)) [
      | inl found ↦
          let same : x ≡ s = ground arith in
          record {
            before = [];
            following = xs;
            split = ground arith;
            others = tt;
            type = type;
            has_type = rw (← same) good;
            matches = found;
          }
      | inr other ↦
          let rest = find_service-IsFirst (suc i) xs s (ground arith) in
          record {
            before = x ∷ rest.before;
            following = rest.following;
            split = cc (rest.split);
            others = ((type, good, other), rest.others);
            type = rest.type;
            has_type = rest.has_type;
            matches = rest.matches;
          }
    ]
  ]

  -- What makes a domain valid for a DID.
  pub record IsLinked (did domain : String) : Type 0 where
    pub services : List Service
    pub resolved : r.resolve did ≡ ok services
    pub service : Service
    pub first : IsFirst r services service
    pub uri : String
    pub has_uri : service.endpoint_uri ≡ ok uri
    pub trimmed : domain ≡ trim_suffix uri "/"
    pub verified : r.verify_did_and_domain did domain ≡ none

  check_service-valid :
      (did domain : String) (found : Option Service)
      → check_service r did found ≡ ok (record { valid = true; domain = domain })
      → (s : Service) × (uri : String) × (found ≡ some s)
        × (s.endpoint_uri ≡ ok uri)
        × (domain ≡ trim_suffix uri "/")
        × (r.verify_did_and_domain did domain ≡ none)
  unfolding check_service
  check_service-valid did domain none h = ground arith
  check_service-valid did domain (some s) h = elim (Result-cases s.endpoint_uri) [
    | inr (e, bad) ↦ ground arith
    | inl (uri, good) ↦
        let same : domain ≡ trim_suffix uri "/" = ground arith in
        (s, uri, refl, good, same, rw same (ground arith))
  ]

-- A domain is reported valid only if the DID resolves, its first service of the type
-- `LinkedDomains` has this domain as its endpoint, less a slash at the end, and the DID
-- configuration found at the domain confirms the DID.
pub valid_needs_link :
    (r : Resolver) (did domain : String)
    → validate_linked_domains (some r) did ≡ ok (record { valid = true; domain = domain })
    → IsLinked r did domain
unfolding validate_linked_domains get_linked_domains_service
valid_needs_link r did domain h = elim (Result-cases (r.resolve did)) [
  | inr (e, bad) ↦ ground arith
  | inl (services, resolved) ↦ elim (Result-cases (find_service r 0 services)) [
    | inr (e, bad) ↦ ground arith
    | inl (found, good) ↦
        let (s, uri, is_found, has_uri, trimmed, verified) =
          check_service-valid r did domain found (ground arith) in
        record {
          services = services;
          resolved = resolved;
          service = s;
          first = find_service-IsFirst r 0 services s (ground arith);
          uri = uri;
          has_uri = has_uri;
          trimmed = trimmed;
          verified = verified;
        }
  ]
]
