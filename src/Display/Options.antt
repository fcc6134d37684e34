-- ===== src/Display/Options.antt =====
-- The options of `Resolve`, how they are merged and validated, and the credentials and the metadata
-- that they stand for: pkg/credentialschema/opts.go.
pub mod Laws
use Prim.Native.String.{◌++◌}
use openvino_wallet.Base.{
  ℕ, ◌<◌, String, Bool, true, false, not, ◌&&◌, Option, none, some, List, [], ◌∷◌, map, lookup,
  length, decimal, if◌then◌else◌, is_empty, is_some, ltb, ◌==◌,
}
use openvino_wallet.Errors.{GoError, plain}
use openvino_wallet.Run.{Result, ok, err, M, ◌>>=◌, ◌>>◌, give, throw, deref, lift, fail_with}
use openvino_wallet.Http.{World, Network, Reply}
use openvino_wallet.IssuerMetadata.{
  CredentialConfigurationSupported, Metadata, CheckedJwt, Decoder, get_metadata,
}
use openvino_wallet.Display.Model.{
  VerifiableCredential, External, CredentialConfigMapping, CredentialSource, IssuerMetadataSource,
  ResolveOpts, HttpClient, MetricsLogger,
}
use openvino_wallet.Display.Build.{have_matching_types, first_matching}

pub data ResolveOpt : Type 0 where
  with_credentials : Option (List (Option VerifiableCredential)) → List String → ResolveOpt
  with_metrics_logger : Option MetricsLogger → ResolveOpt
  with_credential_reader :
      Option (String → Result (Option VerifiableCredential)) → List String → ResolveOpt
  with_issuer_uri : String → ResolveOpt
  with_issuer_metadata : Option Metadata → ResolveOpt
  with_preferred_locale : String → ResolveOpt
  with_http_client : Option HttpClient → ResolveOpt
  with_masking_string : String → ResolveOpt
  with_jwt_signature_verifier : Option (String → Result CheckedJwt) → ResolveOpt
  with_skip_non_claim_data : ResolveOpt

abbrev pub no_opts : ResolveOpts
no_opts = record {
  credential_source = record { vcs = none; reader = none; ids = []; credential_config_ids = [] };
  issuer_metadata_source = record { issuer_uri = ""; metadata = none };
  preferred_local = "";
  metrics_logger = none;
  http_client = none;
  masking_string = none;
  signature_verifier = none;
  skip_non_claim_data = false;
}

unfoldable pub apply_opt : ResolveOpt → ResolveOpts → ResolveOpts
apply_opt (with_credentials vcs config_ids) o = record o {
  credential_source = record o.credential_source { vcs = vcs; credential_config_ids = config_ids };
}
apply_opt (with_metrics_logger l) o = record o { metrics_logger = l }
apply_opt (with_credential_reader reader ids) o = record o {
  credential_source = record o.credential_source { reader = reader; ids = ids };
}
apply_opt (with_issuer_uri uri) o = record o {
  issuer_metadata_source = record o.issuer_metadata_source { issuer_uri = uri };
}
apply_opt (with_issuer_metadata m) o = record o {
  issuer_metadata_source = record o.issuer_metadata_source { metadata = m };
}
apply_opt (with_preferred_locale l) o = record o { preferred_local = l }
apply_opt (with_http_client c) o = record o { http_client = c }
apply_opt (with_masking_string s) o = record o { masking_string = some s }
apply_opt (with_jwt_signature_verifier v) o = record o { signature_verifier = v }
apply_opt with_skip_non_claim_data o = record o { skip_non_claim_data = true }

apply_opts : List ResolveOpt → ResolveOpts → ResolveOpts
unfolding apply_opt
apply_opts [] o = o
apply_opts (opt ∷ opts) o = apply_opts opts (apply_opt opt o)

unfoldable pub merge_opts : List ResolveOpt → ResolveOpts
unfolding apply_opts apply_opt
merge_opts opts = apply_opts opts no_opts

unfoldable pub mismatch : ℕ → ℕ → GoError
unfolding decimal
mismatch num_vcs num_config_ids = plain (
    "mismatch between the number of credentials ("
    ++ (decimal num_vcs ++ (") and the number of config IDs (" ++ (decimal num_config_ids ++ ")"))))

abbrev reader_needs_ids : CredentialSource → Option GoError
reader_needs_ids s =
    if is_some s.reader && length s.ids == 0
    then some (plain "credential IDs must be provided when using a credential reader")
    else none

unfoldable pub validate_vc_opts : CredentialSource → Option GoError
unfolding mismatch
validate_vc_opts s = elim s.vcs [
  | none ↦ if is_some s.reader then reader_needs_ids s else some (plain "no credentials specified")
  | some vcs ↦
      if is_some s.reader
      then some (
          plain
            "cannot have multiple credential sources specified - must use either WithCredentials or WithCredentialReader, but not both")
      else if ltb 0 (length s.credential_config_ids)
          && not (length s.credential_config_ids == length vcs)
      then some (mismatch (length vcs) (length s.credential_config_ids))
      else reader_needs_ids s
]

unfoldable pub validate_issuer_metadata_opts : IssuerMetadataSource → Option GoError
validate_issuer_metadata_opts s =
    if is_empty s.issuer_uri && not (is_some s.metadata)
    then some (plain "no issuer metadata source specified")
    else none

abbrev first_error : Option GoError → Option GoError → Option GoError
first_error none other = other
first_error (some e) other = some e

unfoldable pub validate_opts : ResolveOpts → Option GoError
unfolding validate_vc_opts validate_issuer_metadata_opts
validate_opts o =
    first_error (validate_vc_opts o.credential_source)
      (validate_issuer_metadata_opts o.issuer_metadata_source)
