-- ===== src/Display/Build.antt =====
-- The displays of whole credentials: `buildCredentialDisplays`, `buildCredentialOfferingDisplays`,
-- their `AllLocale` forms and the default display, in pkg/credentialschema/credentialdisplay.go.
pub mod Laws
pub mod Offers
use openvino_wallet.Base.{
  String, Bool, true, false, Option, none, some, List, [], ◌∷◌, ◌++◌, map, if◌then◌else◌, is_empty,
}
use openvino_wallet.Base.Json.{Value, Fields, fields, text}
use openvino_wallet.Errors.{plain}
use openvino_wallet.Run.{Result, ok, err, M, ◌>>=◌, ◌>>◌, give, throw, deref, lift}
use openvino_wallet.Http.{World}
use openvino_wallet.IssuerMetadata.{CredentialConfigurationSupported}
use openvino_wallet.Display.Model.{
  VerifiableCredential, VerifiableSubject, ResolvedClaim, CredentialDisplay, Credential, External,
  CredentialConfigMapping,
}
use openvino_wallet.Display.Locale.{
  get_overview_display, empty_overview, issuer_credential_display_to_resolved_credential_overview,
}
use openvino_wallet.Display.Claims.{Resolving, resolve_claims, resolve_claims_all_locale}

-- The inner loop of `haveMatchingTypes`.
unfoldable pub any_equal_fold : External → String → List String → Bool
any_equal_fold ext type [] = false
any_equal_fold ext type (t ∷ ts) =
    if ext.equal_fold type t then true else any_equal_fold ext type ts

-- The definition is a pointer, read for each type but "VerifiableCredential".
unfoldable pub have_matching_types :
    External → CredentialConfigurationSupported → List String → M World Bool
unfolding ◌>>=◌ any_equal_fold
have_matching_types ext config [] = give false
have_matching_types ext config (type ∷ types) =
    let rest = have_matching_types ext config types in
    if ext.equal_fold type "VerifiableCredential"
    then rest
    else deref config.credential_definition >>= λ definition.
        if any_equal_fold ext type definition.type then give true else rest

-- The first configuration of the map whose types match.
unfoldable pub first_matching :
    External
    → List String
    → List (String × CredentialConfigurationSupported)
    → M World (Option (String × CredentialConfigurationSupported))
unfolding ◌>>=◌
first_matching ext types [] = give none
first_matching ext types ((id, config) ∷ configs) =
    let rest = first_matching ext types configs in
    have_matching_types ext config types >>= λ matching.
    if matching then give (some (id, config)) else rest

abbrev pub offering_display :
    External
    → String
    → Option (String × CredentialConfigurationSupported)
    → List CredentialDisplay
    → List CredentialDisplay
offering_display ext preferred none others = others
offering_display ext preferred (some found) others =
    record { overview = get_overview_display ext found.1 preferred; claims = [] } ∷ others

unfoldable pub build_credential_offering_displays :
    External
    → List (String × CredentialConfigurationSupported)
    → String
    → List (List String)
    → M World (List CredentialDisplay)
unfolding ◌>>=◌ get_overview_display
build_credential_offering_displays ext configs preferred [] = give []
build_credential_offering_displays ext configs preferred (types ∷ offered) = do
  found ← first_matching ext types configs
  others ← build_credential_offering_displays ext configs preferred offered
  give (offering_display ext preferred found others)

unfoldable pub get_subject : VerifiableCredential → Result VerifiableSubject
get_subject vc = elim vc.subjects [
  | [] ↦ err (plain "only VCs with one credential subject are supported")
  | s ∷ [] ↦ ok s
  | s ∷ t ∷ more ↦ err (plain "only VCs with one credential subject are supported")
]

abbrev pub default_claim : External → String × Value → ResolvedClaim
default_claim ext f = record {
  raw_id = f.0;
  label = "";
  value_type = "";
  raw_value = ext.print f.1;
  value = none;
  order = none;
  pattern = "";
  mask = "";
  locale = "";
  attachment = none;
}

abbrev pub id_claim : String → ResolvedClaim
id_claim id = record {
  raw_id = "id";
  label = "";
  value_type = "string";
  raw_value = id;
  value = none;
  order = none;
  pattern = "";
  mask = "";
  locale = "";
  attachment = none;
}

unfoldable pub build_default_credential_display :
    External → String → VerifiableSubject → CredentialDisplay
build_default_credential_display ext vc_id subject = record {
  overview = record empty_overview { name = vc_id };
  claims =
      (if is_empty subject.id then [] else id_claim subject.id ∷ [])
      ++ map (default_claim ext) (fields subject.custom_fields);
}

unfoldable pub build_credential_display : External → Resolving → String → M World CredentialDisplay
unfolding ◌>>=◌ resolve_claims get_overview_display
build_credential_display ext r preferred = do
  claims ← resolve_claims ext r preferred
  give (record { overview = get_overview_display ext r.config preferred; claims = claims })

abbrev pub no_credential : {A : Type 0} → M World A
no_credential = throw (plain "no credential specified")

-- The credential with the selective disclosures merged in, and its subject.
unfoldable pub displayed_subject : External → VerifiableCredential → M World VerifiableSubject
unfolding ◌>>=◌ get_subject
displayed_subject ext vc = do
  display_vc ← lift (ext.create_display_credential vc)
  lift (get_subject display_vc)

-- The body of the loop for a credential that is there. The first configuration of the map is used.
unfoldable pub build_one :
    External
    → String
    → String
    → VerifiableCredential
    → List (String × Option CredentialConfigurationSupported)
    → M World CredentialDisplay
unfolding ◌>>=◌ displayed_subject build_default_credential_display build_credential_display
build_one ext preferred masking vc [] = do
  subject ← displayed_subject ext vc
  give (build_default_credential_display ext vc.id subject)
build_one ext preferred masking vc ((id, config) ∷ configs) = do
  subject ← displayed_subject ext vc
  config' ← deref config
  build_credential_display ext
      (record { vc = vc; subject = subject; config = config'; masking_string = masking }) preferred

abbrev pub require_credential :
    {A : Type 0} → Option VerifiableCredential → (VerifiableCredential → M World A) → M World A
require_credential none f = no_credential
require_credential (some vc) f = f vc

unfoldable pub build_credential_displays :
    External → String → String → List CredentialConfigMapping → M World (List CredentialDisplay)
unfolding ◌>>=◌ build_one
build_credential_displays ext preferred masking [] = give []
build_credential_displays ext preferred masking (m ∷ ms) = do
  display ← require_credential m.credential (λ vc. build_one ext preferred masking vc m.config)
  others ← build_credential_displays ext preferred masking ms
  give (display ∷ others)

unfoldable pub build_credential_display_all_locale :
    External → Resolving → Bool → M World Credential
unfolding ◌>>=◌ resolve_claims_all_locale issuer_credential_display_to_resolved_credential_overview
build_credential_display_all_locale ext r skip = do
  claims ← resolve_claims_all_locale ext r skip
  give (record {
    localized_overview =
        map issuer_credential_display_to_resolved_credential_overview
          r.config.localized_credential_displays;
    subject = claims;
  })

abbrev pub first_config :
    List (String × Option CredentialConfigurationSupported)
    → Option CredentialConfigurationSupported
first_config [] = none
first_config ((id, config) ∷ configs) = config

unfoldable pub build_one_all_locale :
    External
    → String
    → Bool
    → VerifiableCredential
    → Option CredentialConfigurationSupported
    → M World Credential
unfolding ◌>>=◌ displayed_subject build_credential_display_all_locale
build_one_all_locale ext masking skip vc none =
    throw (plain "no credential configuration specified")
build_one_all_locale ext masking skip vc (some config) = do
  subject ← displayed_subject ext vc
  build_credential_display_all_locale ext
      (record { vc = vc; subject = subject; config = config; masking_string = masking }) skip

unfoldable pub build_credential_displays_all_locale :
    External → String → Bool → List CredentialConfigMapping → M World (List Credential)
unfolding ◌>>=◌ build_one_all_locale
build_credential_displays_all_locale ext masking skip [] = give []
build_credential_displays_all_locale ext masking skip (m ∷ ms) = do
  display ←
      require_credential m.credential
        (λ vc. build_one_all_locale ext masking skip vc (first_config m.config))
  others ← build_credential_displays_all_locale ext masking skip ms
  give (display ∷ others)
