-- ===== src/Http.antt =====
-- pkg/internal/httprequest/httprequest.go, and the outside world that the flows act on: the
-- requests sent so far, the metrics and the activities logged. The HTTP client, the loggers and
-- `http.NewRequestWithContext` are parameters, which may answer each call in a way that depends on
-- all earlier ones. The duration of a metrics event is not modelled, and with it the two readings of
-- the clock that only measure it. Requests that an `oauth2` client sends by itself, to refresh an
-- expired token, are part of how `answer` comes to its reply, and are not among the calls.
pub mod Laws
use Prim.Native.String.{◌++◌}
use openvino_wallet.Base.{
  ℕ, String, not, Option, none, some, List, [], ◌∷◌, if◌then◌else◌, is_empty, contains, decimal,
  append, length, ◌==◌,
}
use openvino_wallet.Errors.{GoError, plain}
use openvino_wallet.Run.{Result, lift, M, ◌>>=◌, ◌>>◌, give, throw, reject_if, fail_with}

-- `universalAuthToken` of pkg/openid4ci/models.go; a `time.Time` is a number of seconds.
pub record AuthToken : Type 0 where
  pub access_token : String
  pub token_type : String
  pub expires_at : ℕ
  pub refresh_token : String

-- `oauth2.Config`, with its `Endpoint` spread out.
pub record OauthConfig : Type 0 where
  pub client_id : String
  pub auth_url : String
  pub token_url : String
  pub redirect_url : String
  pub scopes : List String

-- The HTTP client that a request goes through: the configured one, or the one that
-- `createOAuthHTTPClient` wraps around it, which adds the token's header and may refresh the token.
pub data Client : Type 0 where
  configured : Client
  with_token : Option OauthConfig → AuthToken → Client

pub record Request : Type 0 where
  pub method : String
  pub url : String
  pub headers : List (String × String)
  pub body : String

-- `io.ReadAll(resp.Body)`.
pub data Body : Type 0 where
  readable : String → Body
  unreadable : GoError → Body

pub data Reply : Type 0 where
  no_reply : GoError → Reply
  reply : ℕ → Body → Reply

-- What was sent out: an HTTP request, or the code that `oauth2.Config.Exchange` trades for a token,
-- with its verifier.
pub data Call : Type 0 where
  http : Client → Request → Call
  token_exchange : OauthConfig → String → String → Call

pub record MetricsEvent : Type 0 where
  pub event : String
  pub parent_event : String

pub record Activity : Type 0 where
  pub client : String
  pub operation : String
  pub subject_ids : List String

-- The histories, the latest entry first, and how many times the clock or the random source was read,
-- but for the readings that measure durations. `calls` has the calls of `Do` on the HTTP client.
pub record World : Type 0 where
  pub calls : List Call
  pub metrics : List MetricsEvent
  pub activities : List Activity
  pub ticks : ℕ

pub record Network : Type 0 where
  pub new_request_error : String → String → Option GoError
  pub answer : List Call → Client → Request → Reply
  pub metrics_error : List MetricsEvent → MetricsEvent → Option GoError
  pub activity_error : List Activity → Activity → Option GoError

-- `metricsLogger.Log` and `activityLogger.Log`.
unfoldable pub log_metrics : Network → MetricsEvent → M World (Unit {0})
log_metrics net e w =
    fail_with (net.metrics_error w.metrics e) (record w { metrics = e ∷ w.metrics })

unfoldable pub log_activity : Network → Activity → M World (Unit {0})
log_activity net a w =
    fail_with (net.activity_error w.activities a) (record w { activities = a ∷ w.activities })

pub record Response : Type 0 where
  pub status_code : ℕ
  pub body : Body

unfoldable pub to_response : Reply → M World Response
to_response (no_reply e) = throw e
to_response (reply status body) = give (record { status_code = status; body = body })

-- `httpClient.Do(req)`.
unfoldable pub send : Network → Client → Request → M World Response
send net client req w =
    to_response (net.answer w.calls client req) (record w { calls = http client req ∷ w.calls })

unfoldable pub read_all : Body → M World String
read_all (readable s) = give s
read_all (unreadable e) = throw e

-- The `%v` of a slice of numbers.
numbers : List ℕ → String
unfolding decimal
numbers [] = ""
numbers (n ∷ []) = decimal n
numbers (n ∷ ns) = decimal n ++ (" " ++ numbers ns)

unfoldable pub generic_error_response_handler : List ℕ → ℕ → String → GoError
unfolding numbers decimal
generic_error_response_handler expected status body = plain (
    (if length expected == 1
      then "expected status code " ++ numbers expected
      else "expected status codes [" ++ (numbers expected ++ "]"))
    ++ (" but got status code "
        ++ (decimal status ++ (" with response body " ++ (body ++ " instead")))))

-- The arguments of `DoContext`; a nil slice and a nil handler are `none`.
pub record Exchange : Type 0 where
  pub method : String
  pub endpoint_url : String
  pub content_type : String
  pub additional_headers : List (String × String)
  pub body : String
  pub event : String
  pub parent_event : String
  pub acceptable_statuses : Option (List ℕ)
  pub error_response_handler : Option (ℕ → String → GoError)

abbrev statuses_or_default : Option (List ℕ) → List ℕ
statuses_or_default none = 200 ∷ []
statuses_or_default (some statuses) = statuses

abbrev handler_or_generic : List ℕ → Option (ℕ → String → GoError) → ℕ → String → GoError
handler_or_generic statuses none = generic_error_response_handler statuses
handler_or_generic statuses (some handler) = handler

abbrev pub request_of : Exchange → Request
request_of x = record {
  method = x.method;
  url = x.endpoint_url;
  headers =
      if is_empty x.content_type
      then x.additional_headers
      else append x.additional_headers ("Content-Type", x.content_type);
  body = x.body;
}

-- `(*Request).DoContext`.
unfoldable pub do_context : Network → Client → Exchange → M World String
do_context net client x = do
  fail_with (net.new_request_error x.method x.endpoint_url)
  resp ← send net client (request_of x)
  log_metrics net (record { event = x.event; parent_event = x.parent_event })
  bytes ← read_all resp.body
  let statuses = statuses_or_default x.acceptable_statuses
  reject_if (not (contains statuses resp.status_code))
      (handler_or_generic statuses x.error_response_handler resp.status_code bytes)
  give bytes

-- `(*Request).Do`.
unfoldable pub do_request :
    Network
    → Client
    → String
    → String
    → String
    → String
    → String
    → String
    → Option (ℕ → String → GoError)
    → M World String
do_request net client method endpoint content_type body event parent handler =
    do_context net client (record {
      method = method;
      endpoint_url = endpoint;
      content_type = content_type;
      additional_headers = [];
      body = body;
      event = event;
      parent_event = parent;
      acceptable_statuses = none;
      error_response_handler = handler;
    })

-- `(*Request).DoAndParse`, with the parser of the response.
unfoldable pub do_and_parse :
    {A : Type 0}
    → Network
    → Client
    → String
    → String
    → String
    → String
    → String
    → String
    → Option (ℕ → String → GoError)
    → (String → Result A)
    → M World A
unfolding do_request
do_and_parse net client method endpoint content_type body event parent handler parse = do
  bytes ← do_request net client method endpoint content_type body event parent handler
  lift (parse bytes)
