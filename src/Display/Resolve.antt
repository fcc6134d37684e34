-- ===== src/Display/Resolve.antt =====
-- `Resolve`, `ResolveCredential` and `ResolveCredentialOffer`: pkg/credentialschema/credentialschema.go.
pub mod Laws
use openvino_wallet.Base.{String, Option, none, some, List}
use openvino_wallet.Run.{M, ◌>>=◌, give}
use openvino_wallet.Http.{World}
use openvino_wallet.IssuerMetadata.{Metadata}
use openvino_wallet.Display.Model.{External, ResolvedDisplayData, ResolvedData}
use openvino_wallet.Display.Locale.{get_issuer_display, get_issuer_display_all_locale}
use openvino_wallet.Display.Build.{
  build_credential_displays, build_credential_displays_all_locale,
  build_credential_offering_displays,
}
use openvino_wallet.Display.Options.{ResolveOpt, merge_opts}
use openvino_wallet.Display.Process.{process_opts}

abbrev pub masking_or_default : Option String → String
masking_or_default none = "•"
masking_or_default (some s) = s

unfoldable pub resolve : External → List ResolveOpt → M World ResolvedDisplayData
unfolding ◌>>=◌ process_opts build_credential_displays get_issuer_display
resolve ext opts = do
  p ← process_opts ext opts
  displays ←
      build_credential_displays ext p.preferred_locale (masking_or_default p.masking_string)
        p.mappings
  give (record {
    issuer_display = get_issuer_display ext p.metadata.localized_issuer_displays p.preferred_locale;
    credential_displays = displays;
  })

unfoldable pub resolve_credential : External → List ResolveOpt → M World ResolvedData
unfolding ◌>>=◌ process_opts build_credential_displays_all_locale get_issuer_display_all_locale
    merge_opts
resolve_credential ext opts = do
  p ← process_opts ext opts
  let o = merge_opts opts
  displays ←
      build_credential_displays_all_locale ext (masking_or_default p.masking_string)
        o.skip_non_claim_data p.mappings
  give (record {
    localized_issuer = get_issuer_display_all_locale p.metadata.localized_issuer_displays;
    credential = displays;
  })

unfoldable pub resolve_credential_offer :
    External → Metadata → List (List String) → String → M World ResolvedDisplayData
unfolding ◌>>=◌ get_issuer_display build_credential_offering_displays
resolve_credential_offer ext metadata offered preferred = do
  displays ←
      build_credential_offering_displays ext metadata.credential_configurations_supported preferred
        offered
  give (record {
    issuer_display = get_issuer_display ext metadata.localized_issuer_displays preferred;
    credential_displays = displays;
  })
