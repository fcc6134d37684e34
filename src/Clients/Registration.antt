-- ===== src/Clients/Registration.antt =====
-- pkg/oauth2: registering an OAuth client. The client metadata is its JSON object, which the code
-- does not read, and a nil one is an empty object. JSON is a parameter.
use Prim.Native.String.{◌++◌}
use openvino_wallet.Base.{String, Option, none, some, List, [], ◌∷◌, if◌then◌else◌, is_empty}
use openvino_wallet.Base.Json.{ℤ, Fields, end}
use openvino_wallet.Errors.{GoError, plain, wrapped}
use openvino_wallet.Run.{M, ◌>>=◌, ◌>>◌, reject_if, lift, on_error, Result}
use openvino_wallet.Http.{
  World, Network, Call, Client, Request, Reply, MetricsEvent, configured, do_context,
}

pub record RegisterClientResponse : Type 0 where
  pub client_id : String
  pub client_secret : String
  pub client_id_issued_at : Option ℤ
  pub client_secret_expires_at : Option ℤ
  pub registered_metadata : Fields

abbrev pub HttpClient : Type 0
HttpClient = List Call → Client → Request → Reply

abbrev pub MetricsLogger : Type 0
MetricsLogger = List MetricsEvent → MetricsEvent → Option GoError

-- `json.Unmarshal` into a pointer, which "null" leaves nil.
pub record External : Type 0 where
  pub new_request_error : String → String → Option GoError
  pub default_client : HttpClient
  pub marshal_metadata : Fields → Result String
  pub unmarshal_response : String → Result (Option RegisterClientResponse)

pub record Opts : Type 0 where
  pub initial_access_bearer_token : String
  pub http_client : Option HttpClient
  pub metrics_logger : Option MetricsLogger

pub data Opt : Type 0 where
  with_initial_access_bearer_token : String → Opt
  with_http_client : Option HttpClient → Opt
  with_metrics_logger : Option MetricsLogger → Opt

unfoldable pub apply_opt : Opt → Opts → Opts
apply_opt (with_initial_access_bearer_token t) o = record o { initial_access_bearer_token = t }
apply_opt (with_http_client c) o = record o { http_client = c }
apply_opt (with_metrics_logger l) o = record o { metrics_logger = l }

-- A nil option is skipped.
unfoldable pub apply_opts : List (Option Opt) → Opts → Opts
unfolding apply_opt
apply_opts [] o = o
apply_opts (none ∷ opts) o = apply_opts opts o
apply_opts (some opt ∷ opts) o = apply_opts opts (apply_opt opt o)

abbrev pub no_opts : Opts
no_opts = record { initial_access_bearer_token = ""; http_client = none; metrics_logger = none }

client_or_default : External → Option HttpClient → HttpClient
client_or_default ext none = ext.default_client
client_or_default ext (some c) = c

logger_or_noop : Option MetricsLogger → MetricsLogger
logger_or_noop none = λ events e. none
logger_or_noop (some l) = l

-- The client and the logger that `processOpts` leaves.
unfoldable pub network_of : External → Opts → Network
unfolding client_or_default logger_or_noop
network_of ext o = record {
  new_request_error = ext.new_request_error;
  answer = client_or_default ext o.http_client;
  metrics_error = logger_or_noop o.metrics_logger;
  activity_error = λ activities a. none;
}

unfoldable pub authorization_header : Opts → List (String × String)
authorization_header o =
    if is_empty o.initial_access_bearer_token
    then []
    else ("Authorization", "Bearer " ++ o.initial_access_bearer_token) ∷ []

unfoldable pub get_raw_response : External → Opts → String → String → M World String
unfolding network_of authorization_header do_context
get_raw_response ext o body endpoint = do_context (network_of ext o) configured (record {
  method = "POST";
  endpoint_url = endpoint;
  content_type = "application/json";
  additional_headers = authorization_header o;
  body = body;
  event = "Fetch request object via an HTTP GET request to " ++ endpoint;
  parent_event = "Register client";
  acceptable_statuses = some (201 ∷ []);
  error_response_handler = none;
})

metadata_or_empty : Option Fields → Fields
metadata_or_empty none = end
metadata_or_empty (some m) = m

unfoldable pub register_client :
    External → String → Option Fields → List (Option Opt) → M World (Option RegisterClientResponse)
unfolding ◌>>=◌ ◌>>◌ reject_if lift on_error metadata_or_empty apply_opts get_raw_response
register_client ext endpoint metadata opts = do
  reject_if (is_empty endpoint) (plain "registration endpoint cannot be blank")
  body ← lift (ext.marshal_metadata (metadata_or_empty metadata))
  bytes ← get_raw_response ext (apply_opts opts no_opts) body endpoint
  on_error (lift (ext.unmarshal_response bytes))
      (wrapped "failed to unmarshal response body into a RegisterClientResponse")
