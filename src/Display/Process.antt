-- ===== src/Display/Process.antt =====
-- The credentials and the metadata that merged options stand for: pkg/credentialschema/opts.go.
pub mod Laws
use Prim.Native.String.{◌++◌}
use openvino_wallet.Base.{
  ℕ, ◌<◌, String, Bool, true, false, not, ◌&&◌, Option, none, some, List, [], ◌∷◌, map, lookup,
  length, decimal, if◌then◌else◌, is_empty, is_some, ltb, ◌==◌,
}
use openvino_wallet.Errors.{GoError, plain}
use openvino_wallet.Run.{Result, ok, err, M, ◌>>=◌, ◌>>◌, give, throw, deref, lift, fail_with}
use openvino_wallet.Http.{World, Network, Reply}
use openvino_wallet.IssuerMetadata.{
  CredentialConfigurationSupported, Metadata, CheckedJwt, Decoder, get_metadata,
}
use openvino_wallet.Display.Model.{
  VerifiableCredential, External, CredentialConfigMapping, CredentialSource, IssuerMetadataSource,
  ResolveOpts, HttpClient, MetricsLogger,
}
use openvino_wallet.Display.Build.{have_matching_types, first_matching}
use openvino_wallet.Display.Options.{ResolveOpt, merge_opts, validate_opts}

-- The loop over the credentials that are passed in. With an ID for it, the map has a nil entry.
unfoldable pub map_vcs :
    List (Option VerifiableCredential) → List String → List CredentialConfigMapping
map_vcs [] ids = []
map_vcs (vc ∷ vcs) [] = record { credential = vc; config = [] } ∷ map_vcs vcs []
map_vcs (vc ∷ vcs) (id ∷ ids) =
    record { credential = vc; config = (id, none) ∷ [] } ∷ map_vcs vcs ids

unfoldable pub read_vcs :
    (String → Result (Option VerifiableCredential))
    → List String
    → M World (List CredentialConfigMapping)
unfolding ◌>>=◌
read_vcs get [] = give []
read_vcs get (id ∷ ids) = do
  vc ← lift (get id)
  others ← read_vcs get ids
  give (record { credential = vc; config = [] } ∷ others)

-- `credentialSource.reader.Get` of a nil reader is a panic, at the first ID.
unfoldable pub read_ids :
    Option (String → Result (Option VerifiableCredential))
    → List String
    → M World (List CredentialConfigMapping)
unfolding ◌>>=◌ read_vcs
read_ids reader [] = give []
read_ids reader (id ∷ ids) = do get ← deref reader; read_vcs get (id ∷ ids)

unfoldable pub process_vc_opts : CredentialSource → M World (List CredentialConfigMapping)
unfolding map_vcs read_ids
process_vc_opts s = elim s.vcs [
  | some vcs ↦ give (map_vcs vcs s.credential_config_ids)
  | none ↦ read_ids s.reader s.ids
]

abbrev client_or_default : External → Option HttpClient → HttpClient
client_or_default ext (some c) = c
client_or_default ext none = ext.default_client

abbrev logger_or_noop : Option MetricsLogger → MetricsLogger
logger_or_noop (some l) = l
logger_or_noop none = λ events e. none

unfoldable pub network_of : External → ResolveOpts → Network
network_of ext o = record {
  new_request_error = ext.new_request_error;
  answer = client_or_default ext o.http_client;
  metrics_error = logger_or_noop o.metrics_logger;
  activity_error = λ activities a. none;
}

unfoldable pub process_issuer_metadata_opts : External → ResolveOpts → M World Metadata
unfolding network_of
process_issuer_metadata_opts ext o = elim o.issuer_metadata_source.metadata [
  | some m ↦ give m
  | none ↦
      get_metadata (network_of ext o)
        (record { decode = ext.decode_metadata; check = o.signature_verifier })
        o.issuer_metadata_source.issuer_uri "Resolve display"
]

-- The configuration that the caller named for a credential.
unfoldable pub named_config :
    Metadata → String → M World (List (String × Option CredentialConfigurationSupported))
named_config m id = elim (lookup id m.credential_configurations_supported) [
  | some config ↦ give ((id, some config) ∷ [])
  | none ↦ throw (plain ("credential configuration with ID " ++ (id ++ " not found")))
]

abbrev matched_config :
    Option (String × CredentialConfigurationSupported)
    → List (String × Option CredentialConfigurationSupported)
matched_config none = []
matched_config (some (id, config)) = (id, some config) ∷ []

-- The types of the credential are read for each configuration of the metadata, and only then.
unfoldable pub matching_config :
    External
    → List (String × CredentialConfigurationSupported)
    → Option VerifiableCredential
    → M World (List (String × Option CredentialConfigurationSupported))
unfolding ◌>>=◌ first_matching
matching_config ext [] vc = give []
matching_config ext (config ∷ configs) vc = do
  vc' ← deref vc
  found ← first_matching ext vc'.types (config ∷ configs)
  give (matched_config found)

-- The map of a mapping has one entry at most.
unfoldable pub config_of :
    External
    → Metadata
    → CredentialConfigMapping
    → M World (List (String × Option CredentialConfigurationSupported))
unfolding named_config matching_config
config_of ext m mapping = elim mapping.config [
  | (id, config) ∷ more ↦ named_config m id
  | [] ↦ matching_config ext m.credential_configurations_supported mapping.credential
]

unfoldable pub fill_configs :
    External → Metadata → List CredentialConfigMapping → M World (List CredentialConfigMapping)
unfolding ◌>>=◌ config_of
fill_configs ext m [] = give []
fill_configs ext m (mapping ∷ mappings) = do
  config ← config_of ext m mapping
  others ← fill_configs ext m mappings
  give (record mapping { config = config } ∷ others)

-- What the credentials are resolved with.
pub record Processed : Type 0 where
  pub mappings : List CredentialConfigMapping
  pub metadata : Metadata
  pub preferred_locale : String
  pub masking_string : Option String

unfoldable pub process_validated_opts : External → ResolveOpts → M World Processed
unfolding ◌>>=◌ process_vc_opts process_issuer_metadata_opts fill_configs
process_validated_opts ext o = do
  mappings ← process_vc_opts o.credential_source
  metadata ← process_issuer_metadata_opts ext o
  filled ← fill_configs ext metadata mappings
  give (record {
    mappings = filled;
    metadata = metadata;
    preferred_locale = o.preferred_local;
    masking_string = o.masking_string;
  })

unfoldable pub process_opts : External → List ResolveOpt → M World Processed
unfolding ◌>>◌ fail_with merge_opts validate_opts process_validated_opts
process_opts ext opts = do
  let o = merge_opts opts
  fail_with (validate_opts o)
  process_validated_opts ext o
