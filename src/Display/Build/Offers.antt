-- ===== src/Display/Build/Offers.antt =====
-- The displays of offered types: pkg/credentialschema/credentialdisplay.go.
use openvino_wallet.Base.{
  none, some, [], ◌∷◌, All, List, String, Bool, Option, ◌≡◌, ◌≢◌, Bool-cases, false, if◌then◌else◌,
  map, not, inl, refl, ◌&&◌, ◌||◌, inr, true,
}
use openvino_wallet.Display.Model.{External, CredentialDisplay}
use openvino_wallet.Display.Locale.{get_overview_display}
use openvino_wallet.Display.Build.{
  first_matching, have_matching_types, any_equal_fold, build_credential_offering_displays,
  offering_display,
}
use openvino_wallet.IssuerMetadata.{CredentialConfigurationSupported, CredentialDefinition}
use openvino_wallet.Http.{World}
use openvino_wallet.Run.{◌>>=◌, deref, done, M, give}
use openvino_wallet.Display.Claims.{add_if}

any : (String → Bool) → List String → Bool
any test [] = false
any test (x ∷ xs) = test x || any test xs

abbrev types_in : Option CredentialDefinition → List String
types_in none = []
types_in (some d) = d.type

abbrev types_of : CredentialConfigurationSupported → List String
types_of c = types_in c.credential_definition

-- One of the types, other than the type of all credentials, is a type of the configuration, up to case.
unfoldable pub shares_type : External → List String → CredentialConfigurationSupported → Bool
unfolding any
shares_type ext types c =
    any (λ t. not (ext.equal_fold t "VerifiableCredential") && any (ext.equal_fold t) (types_of c))
      types

-- The first configuration that shares a type.
unfoldable pub find_config :
    External
    → List String
    → List (String × CredentialConfigurationSupported)
    → Option (String × CredentialConfigurationSupported)
unfolding shares_type
find_config ext types [] = none
find_config ext types (c ∷ cs) =
    let rest = find_config ext types cs in if shares_type ext types c.1 then some c else rest

-- The configurations of the offered types, without those that have none.
unfoldable pub configs_for :
    External
    → List (String × CredentialConfigurationSupported)
    → List (List String)
    → List (String × CredentialConfigurationSupported)
unfolding find_config
configs_for ext cs [] = []
configs_for ext cs (types ∷ offered) =
    add_if (find_config ext types cs) (configs_for ext cs offered)

any_equal_fold-any :
    (ext : External) (t : String) (ts : List String)
    → any_equal_fold ext t ts ≡ any (ext.equal_fold t) ts
unfolding any_equal_fold any
any_equal_fold-any ext t [] = refl
any_equal_fold-any ext t (u ∷ us) = elim (Bool-cases (ext.equal_fold t u)) [
  | inl hit ↦ rw hit
  | inr miss ↦ rw miss (any_equal_fold-any ext t us)
]

module _ (ext : External) (w : World) where
  read_definition :
      (o : Option CredentialDefinition) (t : String) (rest : M World Bool) (b : Bool)
      → o ≢ none
      → rest w ≡ done b w
      → (deref o >>= λ d. if any_equal_fold ext t d.type then give true else rest) w
        ≡ done (any (ext.equal_fold t) (types_in o) || b) w
  unfolding deref ◌>>=◌
  read_definition none t rest b h r = absurd (h refl)
  read_definition (some d) t rest b h r = elim (Bool-cases (any_equal_fold ext t d.type)) [
    | inl hit ↦ rw (← any_equal_fold-any ext t d.type, hit)
    | inr miss ↦ rw (← any_equal_fold-any ext t d.type, miss) r
  ]

  have_matching_types-shares :
      (c : CredentialConfigurationSupported) (types : List String)
      → c.credential_definition ≢ none
      → have_matching_types ext c types w ≡ done (shares_type ext types c) w
  unfolding have_matching_types shares_type any ◌>>=◌ deref
  have_matching_types-shares c [] h = refl
  have_matching_types-shares c (t ∷ ts) h =
      elim (Bool-cases (ext.equal_fold t "VerifiableCredential")) [
        | inl common ↦ rw common (have_matching_types-shares c ts h)
        | inr own ↦ rw own (
            read_definition c.credential_definition t (have_matching_types ext c ts)
              (shares_type ext ts c) h (have_matching_types-shares c ts h))
      ]

  pub first_matching-find :
      (types : List String) (cs : List (String × CredentialConfigurationSupported))
      → All (λ c. c.1.credential_definition ≢ none) cs
      → first_matching ext types cs w ≡ done (find_config ext types cs) w
  unfolding first_matching find_config ◌>>=◌
  first_matching-find types [] h = refl
  first_matching-find types (c ∷ cs) h = elim (Bool-cases (shares_type ext types c.1)) [
    | inl hit ↦ rw (have_matching_types-shares c.1 types h.0, hit)
    | inr miss ↦
        rw (have_matching_types-shares c.1 types h.0, miss) (first_matching-find types cs h.1)
  ]

abbrev pub overview_only :
    External → String → String × CredentialConfigurationSupported → CredentialDisplay
overview_only ext preferred c = record {
  overview = get_overview_display ext c.1 preferred;
  claims = [];
}

offering_display-map :
    (ext : External) (preferred : String) (o : Option (String × CredentialConfigurationSupported))
    (cs : List (String × CredentialConfigurationSupported))
    → offering_display ext preferred o (map (overview_only ext preferred) cs)
      ≡ map (overview_only ext preferred) (add_if o cs)
offering_display-map ext preferred none cs = refl
offering_display-map ext preferred (some c) cs = refl

-- Where every configuration has a definition, the displays of an offer are the overviews of the first
-- configuration that shares a type with each of the offered type lists, in their order, with no
-- claims. A type list that shares no type with a configuration gives no display, and so those after it
-- move up. The type "VerifiableCredential" is never counted.
pub build_credential_offering_displays-matches :
    (ext : External) (cs : List (String × CredentialConfigurationSupported)) (preferred : String)
    (offered : List (List String)) (w : World)
    → All (λ c. c.1.credential_definition ≢ none) cs
    → build_credential_offering_displays ext cs preferred offered w
      ≡ done (map (overview_only ext preferred) (configs_for ext cs offered)) w
unfolding build_credential_offering_displays configs_for ◌>>=◌
build_credential_offering_displays-matches ext cs preferred [] w h = refl
build_credential_offering_displays-matches ext cs preferred (types ∷ offered) w h = rw (
  first_matching-find ext w types cs h,
  build_credential_offering_displays-matches ext cs preferred offered w h,
  offering_display-map ext preferred (find_config ext types cs) (configs_for ext cs offered),
)
