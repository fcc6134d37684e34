-- ===== src/Display/Locale.antt =====
-- The display data that is chosen by a locale: pkg/credentialschema/issuerdisplay.go, and
-- `getLocalizedLabel`, `getOverviewDisplay` and `convertLogo` of credentialdisplay.go.
pub mod Laws
use openvino_wallet.IssuerMetadata
use openvino_wallet.Base.{String, Option, none, some, List, [], ◌∷◌, map, if◌then◌else◌, is_empty}
use openvino_wallet.IssuerMetadata.{
  CredentialConfigurationSupported, Claim, LocalizedClaimDisplay, LocalizedCredentialDisplay,
  LocalizedIssuerDisplay,
}
use openvino_wallet.Run.{M, deref, give}
use openvino_wallet.Http.{World}
use openvino_wallet.Display.Model.{Logo, ResolvedIssuerDisplay, CredentialOverview, Label, External}

abbrev pub default_locale : String
default_locale = "en-US"

abbrev pub or_default : String → String
or_default locale = if is_empty locale then default_locale else locale

unfoldable pub convert_logo : Option IssuerMetadata.Logo → Option Logo
convert_logo none = none
convert_logo (some l) = some (record { url = l.url; alt_text = l.alt_text })

abbrev pub head? {ℓ} : {A : Type ℓ} → List A → Option A
head? [] = none
head? (x ∷ xs) = some x

-- `getLocalizedLabel`. The caller tests that there is a display.
unfoldable pub matching_label :
    External → String → List LocalizedClaimDisplay → Option LocalizedClaimDisplay
matching_label ext preferred [] = none
matching_label ext preferred (d ∷ ds) =
    if ext.equal_fold preferred d.locale then some d else matching_label ext preferred ds

abbrev pub label_or :
    Option LocalizedClaimDisplay → Option LocalizedClaimDisplay → Option (String × String)
label_or (some d) first = some (d.name, d.locale)
label_or none (some d) = some (d.name, d.locale)
label_or none none = none

unfoldable pub get_localized_label : External → String → Claim → M World (String × String)
unfolding matching_label
get_localized_label ext preferred claim = deref (
    label_or (matching_label ext (or_default preferred) claim.localized_claim_displays)
      (head? claim.localized_claim_displays))

unfoldable pub issuer_credential_display_to_resolved_credential_overview :
    LocalizedCredentialDisplay → CredentialOverview
unfolding convert_logo
issuer_credential_display_to_resolved_credential_overview d = record {
  name = d.name;
  locale = d.locale;
  logo = convert_logo d.logo;
  background_color = d.background_color;
  text_color = d.text_color;
}

abbrev pub empty_overview : CredentialOverview
empty_overview = record {
  name = "";
  locale = "";
  logo = none;
  background_color = "";
  text_color = "";
}

unfoldable pub matching_overview :
    External → String → List LocalizedCredentialDisplay → Option LocalizedCredentialDisplay
matching_overview ext preferred [] = none
matching_overview ext preferred (d ∷ ds) =
    if ext.equal_fold preferred d.locale then some d else matching_overview ext preferred ds

abbrev pub overview_or :
    Option LocalizedCredentialDisplay → List LocalizedCredentialDisplay → CredentialOverview
overview_or (some d) ds = issuer_credential_display_to_resolved_credential_overview d
overview_or none [] = empty_overview
overview_or none (d ∷ ds) = issuer_credential_display_to_resolved_credential_overview d

unfoldable pub get_overview_display :
    External → CredentialConfigurationSupported → String → CredentialOverview
unfolding matching_overview issuer_credential_display_to_resolved_credential_overview
get_overview_display ext c preferred =
    overview_or (matching_overview ext (or_default preferred) c.localized_credential_displays)
      c.localized_credential_displays

unfoldable pub resolved_issuer_display : LocalizedIssuerDisplay → ResolvedIssuerDisplay
unfolding convert_logo
resolved_issuer_display d = record {
  name = d.name;
  locale = d.locale;
  url = d.url;
  logo = convert_logo d.logo;
  background_color = d.background_color;
  text_color = d.text_color;
}

-- The loop over the displays, with what follows it.
unfoldable pub issuer_display_or :
    External → String → ResolvedIssuerDisplay → List LocalizedIssuerDisplay → ResolvedIssuerDisplay
unfolding resolved_issuer_display
issuer_display_or ext locale first [] = first
issuer_display_or ext locale first (d ∷ ds) =
    if ext.equal_fold d.locale locale
    then resolved_issuer_display d
    else issuer_display_or ext locale first ds

unfoldable pub get_issuer_display :
    External → List LocalizedIssuerDisplay → String → Option ResolvedIssuerDisplay
unfolding issuer_display_or resolved_issuer_display
get_issuer_display ext [] locale = none
get_issuer_display ext (d ∷ ds) locale =
    some (issuer_display_or ext (or_default locale) (resolved_issuer_display d) (d ∷ ds))

unfoldable pub get_issuer_display_all_locale :
    List LocalizedIssuerDisplay → List ResolvedIssuerDisplay
unfolding resolved_issuer_display
get_issuer_display_all_locale ds = map resolved_issuer_display ds
