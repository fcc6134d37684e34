-- ===== src/Signing/Credential.antt =====
-- Signing a credential as a JWT: pkg/credentialsigner/signer.go. DID resolution, the documents and
-- `CreateSignedJWTVC` are parameters. A credential is its JSON, or its JWT once it is signed.
pub mod Laws
use Prim.Native.String.{◌++◌}
use Prim.Native.Nat.{◌<◌}
use openvino_wallet.Base.{
  ℕ, String, Bool, true, false, ◌&&◌, Option, none, some, List, [], ◌∷◌, length, get_or,
  if◌then◌else◌, str_eq, split, ltb, is_empty, ◌==◌,
}
use openvino_wallet.Errors.{plain, wrapped}
use openvino_wallet.Run.{Result, ok, err}
use openvino_wallet.Signing.Keys.{
  DocMethod, KeyTools, Crypto, JwsSigner, verification_method_from_doc, new_jws_signer,
}

pub data Relationship : Type 0 where
  general assertion_method authentication other : Relationship

pub record Verification : Type 0 where
  pub relationship : Relationship
  pub method : DocMethod

-- `VerificationMethods(AssertionMethod)[AssertionMethod]`, and the lists of `VerificationMethods()`, in
-- the order of an iteration over the map.
pub record Document : Type 0 where
  pub assertion_methods : List Verification
  pub verification_methods : List (List Verification)

-- The algorithms that vc-go has a constant for.
pub data JwsAlgorithm : Type 0 where
  rs256 ps256 ed_dsa ecdsa_secp256k1 ecdsa_secp256r1 ecdsa_secp384r1 ecdsa_secp521r1 : JwsAlgorithm

pub record External : Type 0 where
  pub tools : KeyTools
  pub resolve : String → Result Document
  pub create_signed_jwt_vc : String → JwsAlgorithm → JwsSigner → String → Result String

pub data ProofFormat : Type 0 where
  external_jwt embedded_ld unrecognized : ProofFormat

pub record ProofOptions : Type 0 where
  pub proof_format : ProofFormat
  pub key_id : String

abbrev pub hash : ℕ
hash = b'#'

unfoldable pub is_signing_key : Relationship → Bool
is_signing_key general = true
is_signing_key assertion_method = true
is_signing_key authentication = true
is_signing_key other = false

unfoldable pub verification_relationship_name : Relationship → String
verification_relationship_name general = ""
verification_relationship_name assertion_method = "assertionMethod"
verification_relationship_name authentication = "authentication"
verification_relationship_name other = ""

unfoldable pub vm_id_fragment_only : String → String
unfolding split
vm_id_fragment_only vm_id =
    let parts = split hash vm_id in
    if length parts == 1 then get_or parts 0 "" else get_or parts 1 ""

unfoldable pub full_vm_id : String → String → String
unfolding split
full_vm_id did vm_id =
    let parts = split hash vm_id in
    if length parts == 1
    then did ++ ("#" ++ get_or parts 0 "")
    else if is_empty (get_or parts 0 "")
    then did ++ ("#" ++ get_or parts 1 "")
    else vm_id

unfoldable pub alg_by_name : String → Result JwsAlgorithm
alg_by_name alg =
    if str_eq alg "RS256"
    then ok rs256
    else if str_eq alg "PS256"
    then ok ps256
    else if str_eq alg "EdDSA"
    then ok ed_dsa
    else if str_eq alg "ES256K"
    then ok ecdsa_secp256k1
    else if str_eq alg "ES256"
    then ok ecdsa_secp256r1
    else if str_eq alg "ES384"
    then ok ecdsa_secp384r1
    else if str_eq alg "ES521"
    then ok ecdsa_secp521r1
    else err (plain ("unsupported algorithm: " ++ alg))

-- The method, its full ID and the name of the relationship.
pub record SigningMethod : Type 0 where
  pub method : DocMethod
  pub full_id : String
  pub relationship : String

unfoldable pub is_wanted : String → Verification → Bool
unfolding is_signing_key vm_id_fragment_only
is_wanted fragment v =
    is_signing_key v.relationship && str_eq (vm_id_fragment_only v.method.id) fragment

find_in : String → List Verification → Option Verification
unfolding is_wanted
find_in fragment [] = none
find_in fragment (v ∷ vs) =
    let rest = find_in fragment vs in if is_wanted fragment v then some v else rest

or_else : Option Verification → Option Verification → Option Verification
or_else (some v) rest = some v
or_else none rest = rest

-- The two loops over the verification methods.
unfoldable pub find_method : String → List (List Verification) → Option Verification
unfolding find_in or_else is_wanted
find_method fragment [] = none
find_method fragment (vs ∷ rest) = or_else (find_in fragment vs) (find_method fragment rest)

first_assertion_method : String → List Verification → Result SigningMethod
unfolding full_vm_id
first_assertion_method did [] =
    err (plain "DID provided has no assertion method to use as a default signing key")
first_assertion_method did (v ∷ vs) = ok (record {
  method = v.method;
  full_id = full_vm_id did v.method.id;
  relationship = "assertionMethod";
})

named_method : String → Option Verification → Result SigningMethod
unfolding verification_relationship_name
named_method kid none = err (plain "did document has no verification method with given ID")
named_method kid (some v) = ok (record {
  method = v.method;
  full_id = kid;
  relationship = verification_relationship_name v.relationship;
})

-- In a resolved document: by the fragment of the key ID, or the first assertion method.
unfoldable pub choose_method : String → List String → Document → Result SigningMethod
unfolding first_assertion_method named_method find_method full_vm_id verification_relationship_name
choose_method kid parts document =
    if length parts == 1
    then first_assertion_method (get_or parts 0 "") document.assertion_methods
    else named_method kid (find_method (get_or parts 1 "") document.verification_methods)

unfoldable pub resolve_signing_vm_with_relationship : External → String → Result SigningMethod
unfolding choose_method split
resolve_signing_vm_with_relationship ext kid =
    let parts = split hash kid in
    if ltb 2 (length parts)
    then err (plain "invalid verification method format")
    else elim (ext.resolve (get_or parts 0 "")) [
      | err e ↦ err (wrapped "failed to resolve signing DID" e)
      | ok document ↦ choose_method kid parts document
    ]

signed : Result String → Result String
signed (err e) = err (wrapped "failed to create JWT VC" e)
signed (ok vc) = ok vc

sign_as : External → String → String → JwsSigner → Result JwsAlgorithm → Result String
unfolding signed
sign_as ext credential full_id signer (err e) = err e
sign_as ext credential full_id signer (ok alg) =
    signed (ext.create_signed_jwt_vc credential alg signer full_id)

sign_with : External → String → String → Result JwsSigner → Result String
unfolding alg_by_name sign_as
sign_with ext credential full_id (err e) = err (wrapped "initializing jwt signer" e)
sign_with ext credential full_id (ok signer) =
    sign_as ext credential full_id signer (alg_by_name signer.algorithm)

sign_by : External → Option Crypto → String → Result SigningMethod → Result String
unfolding sign_with new_jws_signer verification_method_from_doc
sign_by ext crypto credential (err e) =
    err (wrapped "resolving verification method for signing key" e)
sign_by ext crypto credential (ok m) =
    sign_with ext credential m.full_id
      (new_jws_signer ext.tools (verification_method_from_doc m.method) crypto)

unfoldable pub issue_jwt_vc : External → Option Crypto → String → String → Result String
unfolding sign_by resolve_signing_vm_with_relationship
issue_jwt_vc ext crypto credential kid =
    sign_by ext crypto credential (resolve_signing_vm_with_relationship ext kid)

-- `Issue`. The proof options are a pointer that is not nil.
unfoldable pub issue : External → Option Crypto → Option String → ProofOptions → Result String
unfolding issue_jwt_vc
issue ext crypto credential options = elim credential [
  | none ↦ err (plain "no credential provided")
  | some vc ↦ elim options.proof_format [
    | external_jwt ↦ issue_jwt_vc ext crypto vc options.key_id
    | embedded_ld ↦ err (plain "JSON-LD proof format not currently supported")
    | unrecognized ↦ err (plain "proof format not recognized")
  ]
]
