-- ===== src/Issuance/Options.antt =====
-- pkg/openid4ci/createauthorizationurlopts.go and requestcredentialopts.go: the options of the two
-- flows, and what they are processed to.
use openvino_wallet.Base.{String, Bool, true, false, Option, none, some, List, [], ◌∷◌}
use openvino_wallet.Issuance.Model.{Signer}
use openvino_wallet.Issuance.Issuer.{UrlOptions}
use openvino_wallet.Issuance.PreAuth.{PreAuthOptions}
use openvino_wallet.Issuance.Interaction.{UrlRequest}

pub record ProcessedUrlOptions : Type 0 where
  pub scopes : List String
  pub issuer_state : Option String
  pub use_discoverable_scheme : Bool
  pub context : List String

pub data CreateAuthorizationUrlOpt : Type 0 where
  with_scopes : List String → CreateAuthorizationUrlOpt
  with_issuer_state : String → CreateAuthorizationUrlOpt
  with_oauth_discoverable_client_id_scheme : CreateAuthorizationUrlOpt
  with_credential_context : List String → CreateAuthorizationUrlOpt

apply_url_opt : CreateAuthorizationUrlOpt → ProcessedUrlOptions → ProcessedUrlOptions
apply_url_opt (with_scopes scopes) o = record o { scopes = scopes }
apply_url_opt (with_issuer_state state) o = record o { issuer_state = some state }
apply_url_opt with_oauth_discoverable_client_id_scheme o = record o {
  use_discoverable_scheme = true;
}
apply_url_opt (with_credential_context context) o = record o { context = context }

-- A nil option is skipped.
unfoldable pub process_url_opts :
    List (Option CreateAuthorizationUrlOpt) → ProcessedUrlOptions → ProcessedUrlOptions
unfolding apply_url_opt
process_url_opts [] o = o
process_url_opts (none ∷ opts) o = process_url_opts opts o
process_url_opts (some opt ∷ opts) o = process_url_opts opts (apply_url_opt opt o)

abbrev pub no_url_options : ProcessedUrlOptions
no_url_options = record {
  scopes = [];
  issuer_state = none;
  use_discoverable_scheme = false;
  context = [];
}

-- The offer's flow takes its context from the offer, the wallet's flow from the options.
unfoldable pub url_options : String → String → List (Option CreateAuthorizationUrlOpt) → UrlOptions
unfolding process_url_opts
url_options client_id redirect_uri opts =
    let o = process_url_opts opts no_url_options in
    record {
      client_id = client_id;
      redirect_uri = redirect_uri;
      issuer_state = o.issuer_state;
      scopes = o.scopes;
      use_discoverable_scheme = o.use_discoverable_scheme;
    }

unfoldable pub wallet_url_request :
    String → String → String → List String → List (Option CreateAuthorizationUrlOpt) → UrlRequest
unfolding process_url_opts
wallet_url_request client_id redirect_uri format types opts =
    let o = process_url_opts opts no_url_options in
    record {
      client_id = client_id;
      redirect_uri = redirect_uri;
      format = format;
      types = types;
      context = o.context;
      issuer_state = o.issuer_state;
      scopes = o.scopes;
      use_discoverable_scheme = o.use_discoverable_scheme;
    }

pub data RequestCredentialWithPreAuthOpt : Type 0 where
  with_pin : String → RequestCredentialWithPreAuthOpt
  with_attestation_vc : Signer → String → RequestCredentialWithPreAuthOpt

apply_pre_auth_opt : RequestCredentialWithPreAuthOpt → PreAuthOptions → PreAuthOptions
apply_pre_auth_opt (with_pin pin) o = record o { pin = pin }
apply_pre_auth_opt (with_attestation_vc signer vc) o = record o {
  attestation_vc = vc;
  attestation_vp_signer = signer;
}

unfoldable pub process_pre_auth_opts :
    List (Option RequestCredentialWithPreAuthOpt) → PreAuthOptions → PreAuthOptions
unfolding apply_pre_auth_opt
process_pre_auth_opts [] o = o
process_pre_auth_opts (none ∷ opts) o = process_pre_auth_opts opts o
process_pre_auth_opts (some opt ∷ opts) o = process_pre_auth_opts opts (apply_pre_auth_opt opt o)

-- A signer that is not given is never used, since the attestation credential is empty then.
abbrev pub no_pre_auth_options : PreAuthOptions
no_pre_auth_options = record {
  pin = "";
  attestation_vp_signer = record { key_id = ""; name = "" };
  attestation_vc = "";
}
