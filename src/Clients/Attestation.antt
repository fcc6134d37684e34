-- ===== src/Clients/Attestation.antt =====
-- pkg/attestation/attestation_client.go: an attestation credential, by two exchanges with the
-- attestation service. JSON, JWTs, the clock and parsing the credential are parameters.
pub mod Exchanges
pub mod Laws
use Prim.Native.String.{◌++◌}
use openvino_wallet.Base.{
  ℕ, suc, ◌+◌, String, Option, none, some, List, if◌then◌else◌, split, get_or, length, ltb,
  trim_right, ◌*◌,
}
use openvino_wallet.Errors.{GoError, plain, wrapped, wallet, new_execution_error}
use openvino_wallet.Run.{M, done, ◌>>=◌, give, throw, lift, on_error, Result, ok, err}
use openvino_wallet.Http.{World, Network, configured, do_and_parse}
use openvino_wallet.Issuance.Model.{Signer}
use openvino_wallet.Base.Json.{Value}

-- The payload of `AttestWalletInitRequest`.
pub record InitRequest : Type 0 where
  pub payload : List (String × Value)

pub record InitResponse : Type 0 where
  pub challenge : String
  pub session_id : String

-- `AttestWalletCompleteRequest`, with the fields of its proof.
pub record CompleteRequest : Type 0 where
  pub assurance_level : String
  pub jwt : String
  pub proof_type : String
  pub session_id : String

pub record CompleteResponse : Type 0 where
  pub wallet_attestation_vc : String

pub record JwtProofClaims : Type 0 where
  pub issuer : String
  pub audience : String
  pub issued_at : ℕ
  pub nonce : String
  pub exp : ℕ

-- `now` gives the seconds of the clock's n-th reading; `new_signed` is `jwt.NewSigned` with the type
-- header. A parsed credential is its JSON.
pub record External : Type 0 where
  pub network : Network
  pub now : ℕ → ℕ
  pub marshal_init : InitRequest → Result String
  pub marshal_complete : CompleteRequest → Result String
  pub unmarshal_init : String → Result InitResponse
  pub unmarshal_complete : String → Result CompleteResponse
  pub new_signed : JwtProofClaims → String → Signer → Result String
  pub serialize : String → Result String
  pub parse_credential : String → Result String

-- `ServerAPI`, which a caller may implement.
pub record ServerApi : Type 0 where
  pub attestation_init : InitRequest → String → M World InitResponse
  pub attestation_complete : CompleteRequest → String → M World CompleteResponse

pub record Client : Type 0 where
  pub attestation_url : String
  pub api : ServerApi

unfoldable pub attestation_init : External → InitRequest → String → M World InitResponse
unfolding ◌>>=◌ on_error lift do_and_parse
attestation_init ext req url = do
  body ← on_error (lift (ext.marshal_init req)) (wrapped "marshal request")
  on_error
      (do_and_parse ext.network configured "POST" (url ++ "/init") "application/json" body
        "perform init attestation request" "" none ext.unmarshal_init)
      (wrapped ("do request " ++ body))

unfoldable pub attestation_complete : External → CompleteRequest → String → M World CompleteResponse
unfolding ◌>>=◌ on_error lift do_and_parse
attestation_complete ext req url = do
  body ← on_error (lift (ext.marshal_complete req)) (wrapped "marshal request")
  on_error
      (do_and_parse ext.network configured "POST" (url ++ "/complete") "application/json" body
        "perform complete attestation request" "" none ext.unmarshal_complete)
      (wrapped "do request")

unfoldable pub server_api : External → ServerApi
unfolding attestation_init attestation_complete
server_api ext = record {
  attestation_init = attestation_init ext;
  attestation_complete = attestation_complete ext;
}

unfoldable api_or : External → Option ServerApi → ServerApi
unfolding server_api
api_or ext none = server_api ext
api_or ext (some api) = api

-- The URL and the custom API of `ClientConfig`; the metrics logger is never nil here.
unfoldable pub new_client : External → String → Option ServerApi → Client
unfolding api_or trim_right
new_client ext url custom_api = record {
  attestation_url = trim_right b'/' url;
  api = api_or ext custom_api;
}

unfoldable pub get_signer_did : Signer → Result String
unfolding split
get_signer_did signer =
    let parts = split b'#' signer.key_id in
    if ltb (length parts) 2
    then err (
        wallet (
          new_execution_error "ATT" 2 "KEY_ID_MISSING_DID_PART"
            (plain ("key ID (" ++ (signer.key_id ++ ") is missing the DID part")))))
    else ok (get_or parts 0 "")

unfoldable pub read_clock : {A : Type 0} → (ℕ → A) → M World A
read_clock source w = done (source w.ticks) (record w { ticks = suc w.ticks })

abbrev pub challenge_vc_lifetime : ℕ
challenge_vc_lifetime = 5

abbrev pub claims_for : Client → String → String → ℕ → ℕ → JwtProofClaims
claims_for c challenge did now later = record {
  issuer = did;
  audience = c.attestation_url;
  issued_at = now;
  nonce = challenge;
  exp = later + 60 * challenge_vc_lifetime;
}

abbrev pub request_for : String → String → CompleteRequest
request_for session_id jws = record {
  assurance_level = "low";
  jwt = jws;
  proof_type = "jwt";
  session_id = session_id;
}

unfoldable signing_failed : GoError → GoError
signing_failed e =
    wallet (new_execution_error "ATT" 1 "JWT_SIGNING_FAILED" (wrapped "failed to sign JWT" e))

-- `(*Client).attestationComplete`.
unfoldable pub complete : External → Client → String → String → Signer → M World CompleteResponse
unfolding ◌>>=◌ on_error lift get_signer_did read_clock signing_failed
complete ext c session_id challenge signer = do
  did ← lift (get_signer_did signer)
  now ← read_clock ext.now
  later ← read_clock ext.now
  jwt ←
      on_error
        (lift (ext.new_signed (claims_for c challenge did now later) "openid4vci-proof+jwt" signer))
        signing_failed
  jws ← on_error (lift (ext.serialize jwt)) (wrapped "serialize signed jwt")
  c.api.attestation_complete (request_for session_id jws) c.attestation_url

unfoldable parse_failed : GoError → GoError
parse_failed e =
    wallet
      (new_execution_error "ATT" 3 "PARSE_ATTESTATION_VC_FAILED" (wrapped "parse attestation vc" e))

-- `GetAttestationVC`.
unfoldable pub get_attestation_vc : External → Client → InitRequest → Signer → M World String
unfolding ◌>>=◌ on_error lift complete parse_failed
get_attestation_vc ext c req signer = do
  init ← c.api.attestation_init req c.attestation_url
  completed ← complete ext c init.session_id init.challenge signer
  on_error (lift (ext.parse_credential completed.wallet_attestation_vc)) parse_failed
