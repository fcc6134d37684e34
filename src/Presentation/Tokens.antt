-- ===== src/Presentation/Tokens.antt =====
-- The tokens of pkg/openid4vp/openid4vp.go: `signToken`, `createLdpVPToken`, `createIDToken`,
-- `createAttestationVP`, and the keys that sign them. pkg/ldproof and the signer of pkg/common are
-- parameters.
pub mod Laws
pub mod Signed
use openvino_wallet.Base.{ℕ, ◌+◌, String, Option, none, some, List, [], ◌∷◌, map, replace_first}
use openvino_wallet.Base.Json.{Value}
use openvino_wallet.Errors.{plain, wrapped}
use openvino_wallet.Run.{M, ◌>>=◌, ◌>>◌, give, throw, fail_with, lift, on_error}
use openvino_wallet.Issuance.Model.{Signer}
use openvino_wallet.Presentation.Model.{
  External, VpSession, RequestObject, Format, Presentation, VerificationMethod, Submission,
  submission, untyped, Descriptor, TokenClaims, vp_token_claims, id_token_claims,
  attestation_claims, read_source,
}

abbrev pub token_live_time_sec : ℕ
token_live_time_sec = 600

unfoldable pub sign_token : External → TokenClaims → Signer → M VpSession String
sign_token ext claims signer = do
  jwt ← on_error (lift (ext.new_signed claims signer)) (wrapped "sign token failed")
  on_error (lift (ext.serialize jwt)) (wrapped "serialize token failed")

first_method : List VerificationMethod → M VpSession VerificationMethod
first_method [] = throw (plain "holder DID has no assertion method for signing")
first_method (m ∷ ms) = give m

unfoldable pub get_assertion_vm : External → String → M VpSession VerificationMethod
unfolding first_method
get_assertion_vm ext did = do
  methods ←
      on_error (lift (ext.assertion_methods did))
        (wrapped "resolve holder DID for assertion method")
  first_method methods

unfoldable pub get_holder_signer : External → VerificationMethod → M VpSession Signer
get_holder_signer ext vm = lift (ext.new_jws_signer vm)

-- The claims of a `jwt_vp` token; the clock is read for each of its times.
unfoldable pub create_jwt_vp_token :
    External → RequestObject → String → Signer → Presentation → M VpSession String
create_jwt_vp_token ext r did signer p = do
  exp ← read_source ext.now
  nbf ← read_source ext.now
  iat ← read_source ext.now
  jti ← read_source ext.uuid
  on_error
      (sign_token ext
        (vp_token_claims (record {
          vp = p;
          nonce = r.nonce;
          exp = exp + token_live_time_sec;
          iss = did;
          aud = r.client_id;
          nbf = nbf;
          iat = iat;
          jti = jti;
        }))
        signer)
      (wrapped "sign vp token")

ldp_type_of : Option Format → M VpSession (List String)
ldp_type_of none = throw (plain "client does not support ldp_vp format")
ldp_type_of (some f) = elim f.ldp_vp [
  | none ↦ throw (plain "client does not support ldp_vp format")
  | some type ↦ give type
]

unfoldable pub create_ldp_vp_token :
    External → String → VerificationMethod → RequestObject → Presentation → M VpSession String
unfolding ldp_type_of
create_ldp_vp_token ext did vm r p = do
  type ← ldp_type_of r.client_metadata.vp_formats
  proved ←
      on_error
        (lift (
          ext.add_ld_proof
            (record {
              ldp_type = type;
              method = vm;
              did = did;
              challenge = r.nonce;
              domain = r.client_id;
            })
            p))
        (wrapped "add ld proof to vp")
  on_error (lift (ext.marshal_presentation proved)) (wrapped "marshal vp into vp token")

nested : Option String → Option String
nested none = none
nested (some path) = some (replace_first path "$.vp." "$.")

rewrite_descriptor : Descriptor → Descriptor
unfolding nested
rewrite_descriptor d = record d { nested_path = nested d.nested_path }

-- The submission of the id token: a copy whose nested paths start one level higher.
unfoldable pub id_token_submission : External → Submission → M VpSession Submission
unfolding rewrite_descriptor
id_token_submission ext (untyped v) = give (untyped v)
id_token_submission ext (submission id descriptors) = do
  on_error (fail_with (ext.deep_copy_error (submission id descriptors)))
      (wrapped "deep copy presentation submission")
  give (submission id (map rewrite_descriptor descriptors))

unfoldable pub create_id_token :
    External
    → RequestObject
    → String
    → List (String × Value)
    → Signer
    → String
    → Submission
    → M VpSession String
create_id_token ext r did scope signer attestation_vp s = do
  exp ← read_source ext.now
  nbf ← read_source ext.now
  iat ← read_source ext.now
  jti ← read_source ext.uuid
  copy ← id_token_submission ext s
  on_error
      (sign_token ext
        (id_token_claims (record {
          scope = scope;
          attestation_vp = attestation_vp;
          nonce = r.nonce;
          exp = exp + token_live_time_sec;
          iss = "https://self-issued.me/v2/openid-vc";
          sub = did;
          aud = r.client_id;
          nbf = nbf;
          iat = iat;
          jti = jti;
          vp_token = copy;
        }))
        signer)
      (wrapped "sign id_token")

unfoldable pub create_attestation_vp : External → String → Signer → M VpSession String
create_attestation_vp ext vc_data signer = do
  vc ← lift (ext.parse_attestation vc_data)
  vp ← lift (ext.new_presentation vc)
  id ← read_source ext.uuid
  claims ← lift (ext.presentation_claims (record vp { id = id }))
  sign_token ext (attestation_claims claims) signer
