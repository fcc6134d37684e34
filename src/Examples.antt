-- ===== src/Examples.antt =====
-- Concrete values for the outside world: a network that answers each call alike, one clock, an issuer
-- with one credential configuration, and a verifier. The child modules apply the theorems to them.
mod Receiving
mod Presenting
mod Services
mod Showing
mod Keeping
use openvino_wallet.Http.{World, Network, reply, readable}
use openvino_wallet.Base.{Option, String, [], some, ◌∷◌, none, str_eq}
use openvino_wallet.Wellknown.{Resolver, Service}
use openvino_wallet.IssuerMetadata.{
  CredentialConfigurationSupported, CredentialDefinition, Decoder, Metadata,
}
use openvino_wallet.Issuance.Model.{Url}
use openvino_wallet.Base.Json.{text}
use openvino_wallet.Run.{ok}

abbrev pub no_world : World
no_world = record { calls = []; metrics = []; activities = []; ticks = 0 }

-- Every request gets this body with the status 200.
abbrev pub answering : String → Network
answering body = record {
  new_request_error = λ method url. none;
  answer = λ calls client request. reply 200 (readable body);
  metrics_error = λ events e. none;
  activity_error = λ activities a. none;
}

abbrev pub linked_service : Service
linked_service = record { type = text "LinkedDomains"; endpoint_uri = ok "https://issuer.example/" }

abbrev pub resolver : Resolver
resolver = record {
  resolve = λ did. ok (linked_service ∷ []);
  verify_did_and_domain = λ did domain. none;
  equal_fold = λ s t. str_eq s t;
}

abbrev pub definition : CredentialDefinition
definition = record { context = []; credential_subject = []; type = "VerifiableCredential" ∷ [] }

abbrev pub configuration : CredentialConfigurationSupported
configuration = record {
  credential_definition = some definition;
  localized_credential_displays = [];
  format = "jwt_vc_json";
  order = [];
}

abbrev pub metadata : Option String → Metadata
metadata kid = record {
  jwt_kid = kid;
  authorization_server = "";
  batch_credential_endpoint = "";
  credential_configurations_supported = ("degree", configuration) ∷ [];
  credential_endpoint = "https://issuer.example/credential";
  credential_issuer = "https://issuer.example";
  localized_issuer_displays = [];
  notification_endpoint = "https://issuer.example/ack";
  registration_endpoint = none;
  signed_metadata = "jwt";
  token_endpoint = "https://issuer.example/token";
}

abbrev pub decoder : Decoder
decoder = record {
  decode = λ bytes. ok (metadata none);
  check = some (λ jwt. ok (record { payload = "{}"; key_id = some "did:ion:1#key" }));
}

abbrev pub url : Url
url = record {
  scheme = "https";
  host = "wallet.example";
  path = "/cb";
  query = ("code", "c1") ∷ ("state", "s1") ∷ [];
}
