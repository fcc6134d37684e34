-- ===== src/Signing/Keys.antt =====
-- Verification methods and the signer of JWTs: pkg/models/verificationmethod.go and
-- pkg/common/jwt_signer.go. Key types, thumbprints and the names of algorithms are kms-go's and
-- vc-go's, and the wallet's `Crypto` signs; all are parameters.
use Prim.Native.String.{◌++◌}
use openvino_wallet.Base.{String, Option, none, some, not, List, [], ◌∷◌, if◌then◌else◌, str_eq}
use openvino_wallet.Errors.{plain, wrapped, wallet, new_validation_error}
use openvino_wallet.Run.{Result, ok, err}

-- A `jwk.JWK`: its ID and the key, which the code does not read.
pub record Jwk : Type 0 where
  pub key_id : String
  pub key : String

pub record VerificationKey : Type 0 where
  pub json_web_key : Option Jwk
  pub raw : String

pub record VerificationMethod : Type 0 where
  pub id : String
  pub type : String
  pub key : VerificationKey

-- `did.VerificationMethod`, with its `JSONWebKey()`.
pub record DocMethod : Type 0 where
  pub id : String
  pub type : String
  pub json_web_key : Option Jwk
  pub value : String

-- `Sign` of the wallet's crypto, for a message and a key ID.
abbrev pub Crypto : Type 0
Crypto = String → String → Result String

-- `create_kid` is `jwkkid.CreateKID` for a raw Ed25519 key; `thumbprint` is the base64 form of
-- `JWK.Thumbprint`; `algorithm_name` is `KeyTypeToJWSAlgo` followed by `Name`.
pub record KeyTools : Type 0 where
  pub create_kid : String → Result String
  pub key_type : Jwk → Result String
  pub thumbprint : Jwk → Result String
  pub algorithm_name : String → Result String
  pub header_key_id : String
  pub header_algorithm : String

pub data VerificationMethodOption : Type 0 where
  with_raw_key : String → VerificationMethodOption
  with_jwk : Option Jwk → VerificationMethodOption

unfoldable pub apply_option : VerificationMethodOption → VerificationMethod → VerificationMethod
apply_option (with_raw_key raw) vm = record vm { key = record vm.key { raw = raw } }
apply_option (with_jwk jwk) vm = record vm { key = record vm.key { json_web_key = jwk } }

apply_all : List VerificationMethodOption → VerificationMethod → VerificationMethod
unfolding apply_option
apply_all [] vm = vm
apply_all (o ∷ os) vm = apply_all os (apply_option o vm)

unfoldable pub new_verification_method :
    String → String → List VerificationMethodOption → VerificationMethod
unfolding apply_all
new_verification_method key_id type options =
    apply_all options
      (record { id = key_id; type = type; key = record { json_web_key = none; raw = "" } })

unfoldable pub verification_method_from_doc : DocMethod → VerificationMethod
verification_method_from_doc d = elim d.json_web_key [
  | some jwk ↦ record {
    id = d.id;
    type = d.type;
    key = record { json_web_key = some jwk; raw = "" };
  }
  | none ↦ record { id = d.id; type = d.type; key = record { json_web_key = none; raw = d.value } }
]

pub record JwsSigner : Type 0 where
  pub key_id : String
  pub algorithm : String
  pub crypto_kid : String
  pub crypto : Crypto

abbrev pub ed25519_verification_key_2018 : String
ed25519_verification_key_2018 = "Ed25519VerificationKey2018"

abbrev pub json_web_key_2020 : String
json_web_key_2020 = "JsonWebKey2020"

abbrev pub ed_dsa : String
ed_dsa = "EdDSA"

unfoldable pub infer_alg : KeyTools → Jwk → Result String
infer_alg tools jwk = elim (tools.key_type jwk) [ err e ↦ err e | ok kt ↦ tools.algorithm_name kt ]

with_thumbprint : Result String → String → Result (String × String)
with_thumbprint (err e) tp = err e
with_thumbprint (ok alg) tp = ok (alg, tp)

ed25519_thumbprint : Result String → Result (String × String)
ed25519_thumbprint (err e) = err (wrapped "generating thumbprint for ed25519 key" e)
ed25519_thumbprint (ok tp) = ok (ed_dsa, tp)

jwk_thumbprint : KeyTools → Jwk → Result (String × String)
unfolding infer_alg with_thumbprint
jwk_thumbprint tools jwk = elim (tools.thumbprint jwk) [
  | err e ↦ err (wrapped "creating crypto thumbprint for JWK" e)
  | ok tp ↦ with_thumbprint (infer_alg tools jwk) tp
]

-- The algorithm and the thumbprint.
unfoldable pub alg_and_thumbprint : KeyTools → VerificationMethod → Result (String × String)
unfolding ed25519_thumbprint jwk_thumbprint infer_alg
alg_and_thumbprint tools vm =
    if str_eq vm.type ed25519_verification_key_2018
    then ed25519_thumbprint (tools.create_kid vm.key.raw)
    else if not (str_eq vm.type json_web_key_2020)
    then err (plain ("verification method type '" ++ (vm.type ++ "' not supported")))
    else elim vm.key.json_web_key [
      | none ↦ err (plain ("missing jwk for " ++ (json_web_key_2020 ++ " verification method")))
      | some jwk ↦ jwk_thumbprint tools jwk
    ]

signer_with : VerificationMethod → Option Crypto → String × String → Result JwsSigner
signer_with vm none at = err (
    wallet (
      new_validation_error "COM" 1 "NO_CRYPTO_PROVIDED"
        (plain "crypto instance should be provided")))
signer_with vm (some crypto) (alg, tp) =
    ok (record { key_id = vm.id; algorithm = alg; crypto_kid = tp; crypto = crypto })

unfoldable pub new_jws_signer : KeyTools → VerificationMethod → Option Crypto → Result JwsSigner
unfolding alg_and_thumbprint signer_with
new_jws_signer tools vm crypto = elim (alg_and_thumbprint tools vm) [
  | err e ↦ err (wallet (new_validation_error "COM" 0 "UNSUPPORTED_ALGORITHM" e))
  | ok at ↦ signer_with vm crypto at
]

unfoldable pub sign_jwt : JwsSigner → String → Result String
sign_jwt s message = s.crypto message s.crypto_kid

unfoldable pub create_jwt_headers : KeyTools → JwsSigner → List (String × String)
create_jwt_headers tools s =
    (tools.header_key_id, s.key_id) ∷ (tools.header_algorithm, s.algorithm) ∷ []
