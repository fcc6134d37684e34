-- ===== src/Examples/Showing.antt =====
-- The theorems on display data and on disclosed claims, at concrete values.
use mathlib.Core.Option
use Prim.Native.String.{◌++◌, len}
use openvino_wallet.Base.{
  [], ◌∷◌, none, some, inl, List, String, contains_text, str_eq, refl, ◌≡◌, Pairwise, arith, length,
  map, repeat, ◌↔◌, eq_iff, true,
}
use openvino_wallet.Base.Json.{
  Value, null, boolean, number, text, array, object, Fields, end, field,
}
use openvino_wallet.Run.{ok, err, done, crash, deref}
use openvino_wallet.Http.{reply, readable}
use openvino_wallet.Display.Model.{
  External, VerifiableCredential, VerifiableSubject, CredentialConfigMapping,
}
use openvino_wallet.Examples.{no_world, metadata}
use openvino_wallet.IssuerMetadata.{
  Claim, CredentialConfigurationSupported, Metadata, LocalizedIssuerDisplay,
}
use openvino_wallet.Display.Value.{
  find_matching_claim_value_in_map, get_masked_value, get_matching_claim_value, find_in_first_map,
}
use openvino_wallet.Display.Claims.{Resolving, resolve_claim, resolve_claim_all_locale}
use openvino_wallet.Display.Claims.Laws.{is_shown}
use openvino_wallet.Display.Claims.Shown.{IsUsable}
use openvino_wallet.Run.Rules.{Returns, Same}
use openvino_wallet.Display.Build.{build_credential_offering_displays, build_credential_displays}
use openvino_wallet.Display.Options.{
  validate_opts, merge_opts, ResolveOpt, with_credentials, with_issuer_metadata,
}
use openvino_wallet.Errors.{plain}
use openvino_wallet.Display.Locale.{
  get_localized_label, get_issuer_display, get_overview_display, resolved_issuer_display,
}
use openvino_wallet.Display.Process.Laws.{AllThere, wanted}
use openvino_wallet.Display.Value.Laws.{get_masked_value-hides}
use openvino_wallet.Display.Claims.Panics.{resolve_claim-crash}
use openvino_wallet.Display.Build.Laws.{IsDisplayOf, build_credential_displays-AreDisplays}
use openvino_wallet.Display.Build.Offers.{
  overview_only, configs_for, build_credential_offering_displays-matches,
}
use openvino_wallet.Display.Options.Laws.{IsChosen, HasMetadata, validate_opts_iff}
use openvino_wallet.Display.Resolve.{resolve}
use openvino_wallet.Display.Resolve.Laws.{resolve-length}
use openvino_wallet.Display.Locale.Laws.{label_of, chosen, overview_of, displays-AreChosen}

abbrev show_value : Value → String
show_value (text s) = s
show_value null = ""
show_value (boolean b) = ""
show_value (number n) = ""
show_value (array xs) = ""
show_value (object fs) = ""

abbrev displays : External
displays = record {
  equal_fold = λ s t. str_eq s t;
  print = show_value;
  json_path = λ path fs. err (plain "no such path");
  compile_error = λ regex. none;
  first_submatch = λ regex s. "123";
  marshal = λ fs. ok "{}";
  unmarshal_attachment = λ json. none;
  create_display_credential = λ vc. ok vc;
  new_request_error = λ method url. none;
  default_client = λ calls client request. reply 200 (readable "{}");
  decode_metadata = λ bytes. err (plain "no metadata");
}

str_eq_comm : (s t : String) → str_eq s t ≡ str_eq t s
str_eq_comm s t = ground (arith, eq_iff s t, eq_iff t s)

displays-AreChosen_example :
    ((claim : Claim)
      → get_localized_label displays "de" claim
        ≡ deref (
            Option.map label_of
              (chosen displays "de" (λ d. d.locale) claim.localized_claim_displays)))
    × ((c : CredentialConfigurationSupported)
        → get_overview_display displays c "de"
          ≡ overview_of (chosen displays "de" (λ d. d.locale) c.localized_credential_displays))
    × ((ds : List LocalizedIssuerDisplay)
        → get_issuer_display displays ds "de"
          ≡ Option.map resolved_issuer_display (chosen displays "de" (λ d. d.locale) ds))
displays-AreChosen_example = displays-AreChosen displays "de" str_eq_comm

get_masked_value-hides_example :
    get_masked_value displays ("123" ++ "45") "regex(^(.{3}).*$)" "*" no_world
    ≡ done (repeat "*" (len "123") ++ "45") no_world
unfolding contains_text
get_masked_value-hides_example =
    get_masked_value-hides displays "123" "45" "regex(^(.{3}).*$)" "*" no_world (omega arith) refl
      refl (λ p. ground (arith, eq_iff "123" "")) refl

abbrev first_name : Fields
first_name = field "name" (text "Ada") end

abbrev claim : String → Claim
claim mask = record {
  localized_claim_displays = record { name = "Name"; locale = "en-US" } ∷ [];
  value_type = "string";
  pattern = "";
  mask = mask;
}

abbrev config : CredentialConfigurationSupported
config = record {
  credential_definition = some (record {
    context = [];
    credential_subject = ("name", some (claim "")) ∷ [];
    type = "Degree" ∷ [];
  });
  localized_credential_displays = [];
  format = "jwt_vc_json";
  order = "name" ∷ [];
}

abbrev degree_subject : VerifiableSubject
degree_subject = record { id = "did:example:ada"; custom_fields = first_name }

abbrev degree : VerifiableCredential
degree = record {
  id = "urn:degree";
  types = "VerifiableCredential" ∷ "Degree" ∷ [];
  subjects = degree_subject ∷ [];
  raw_json = end;
}

abbrev resolving_degree : Resolving
resolving_degree = record {
  vc = degree;
  subject = degree_subject;
  config = config;
  masking_string = "*";
}

name_shown : is_shown displays resolving_degree "name" (claim "short") ≡ true
unfolding is_shown get_matching_claim_value find_matching_claim_value_in_map find_in_first_map
name_shown = refl

resolve_claim-crash_example :
    (resolve_claim displays resolving_degree "" "name" (some (claim "short")) no_world
      ≡ crash no_world)
    × (resolve_claim_all_locale displays resolving_degree "name" (some (claim "short")) no_world
        ≡ crash no_world)
resolve_claim-crash_example =
    resolve_claim-crash displays resolving_degree "name" (claim "short") no_world refl refl
      (omega arith) "" name_shown

config-IsUsable : IsUsable config
config-IsUsable = ((λ p. cc), (inl refl, tt))

abbrev mapping : CredentialConfigMapping
mapping = record { credential = some degree; config = ("degree", some config) ∷ [] }

build_credential_displays-AreDisplays_example :
    Returns
      (λ ds t. (t ≡ no_world) × Pairwise (IsDisplayOf displays "" "*") (mapping ∷ []) ds)
      (Same no_world)
      (build_credential_displays displays "" "*" (mapping ∷ []) no_world)
build_credential_displays-AreDisplays_example =
    build_credential_displays-AreDisplays displays "" "*" (mapping ∷ []) no_world
      (config-IsUsable, tt)

abbrev offered : List (List String)
offered = ("Other" ∷ []) ∷ ("VerifiableCredential" ∷ "Degree" ∷ []) ∷ []

build_credential_offering_displays-matches_example :
    build_credential_offering_displays displays (("degree", config) ∷ []) "" offered no_world
    ≡ done
        (map (overview_only displays "") (configs_for displays (("degree", config) ∷ []) offered))
        no_world
build_credential_offering_displays-matches_example =
    build_credential_offering_displays-matches displays (("degree", config) ∷ []) "" offered
      no_world ((λ p. cc), tt)

abbrev issuer : Metadata
issuer = record (metadata none) { credential_configurations_supported = ("degree", config) ∷ [] }

abbrev options : List ResolveOpt
options = with_credentials (some (some degree ∷ [])) [] ∷ with_issuer_metadata (some issuer) ∷ []

validate_opts_iff_example :
    (validate_opts (merge_opts options) ≡ none)
    ↔ (IsChosen (merge_opts options).credential_source × HasMetadata (merge_opts options))
validate_opts_iff_example = validate_opts_iff (merge_opts options)

options-AllThere : AllThere (merge_opts options).credential_source
unfolding merge_opts
options-AllThere = (
  λ vcs p. let e : vcs ≡ some degree ∷ [] = ground arith in rw e ((λ q. cc), tt),
  λ get id p. absurd (ground arith),
)

metadata_given : (merge_opts options).issuer_metadata_source.metadata ≡ some issuer
unfolding merge_opts
metadata_given = refl

resolve-length_example :
    Returns
      (λ d t.
        (t ≡ no_world)
        × (length d.credential_displays ≡ wanted (merge_opts options).credential_source)
        × (d.issuer_display
            ≡ get_issuer_display displays issuer.localized_issuer_displays
                (merge_opts options).preferred_local))
      (Same no_world)
      (resolve displays options no_world)
resolve-length_example =
    resolve-length displays options issuer no_world metadata_given (config-IsUsable, tt)
      options-AllThere
