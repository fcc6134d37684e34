-- ===== src/Presentation/Response.antt =====
-- The authorized response of pkg/openid4vp/openid4vp.go: `createAuthorizedResponse` for one
-- credential and for several.
pub mod Laws
pub mod Sign
use Prim.Native.String.{◌++◌}
use openvino_wallet.Base.{
  ℕ, suc, String, Bool, true, false, not, ◌&&◌, ◌||◌, Option, none, some, List, [], ◌∷◌, map,
  length, append, lookup, get_elem?, is_some, is_empty, contains_text, if◌then◌else◌, str_eq,
}
use openvino_wallet.Base.Json.{Value, null}
use openvino_wallet.Errors.{GoError, plain, wrapped}
use openvino_wallet.Run.{
  M, ◌>>=◌, ◌>>◌, give, throw, gets, modify, deref, reject_if, lift, on_error, Result,
}
use openvino_wallet.Issuance.Model.{Signer}
use openvino_wallet.Presentation.Model.{
  External, VpSession, RequestObject, PresentationDefinition, InputDescriptor, Format, Credential,
  Presentation, Submission, untyped, VpFormat, jwt_vp, ldp_vp, VerificationMethod,
  AuthorizedResponse, read_source,
}
use openvino_wallet.Presentation.Tokens.{
  get_assertion_vm, get_holder_signer, create_jwt_vp_token, create_ldp_vp_token, create_id_token,
  create_attestation_vp,
}

-- `presentOpts`.
pub record PresentOptions : Type 0 where
  pub ignore_constraints : Bool
  pub attestation_vp_signer : Signer
  pub attestation_vc : String
  pub interaction_details : Option (List (String × Value))

abbrev pub without_constraints : InputDescriptor → InputDescriptor
without_constraints d = record d { constraints = none }

-- The constraints are cleared in the definition that the interaction's request object points to; a
-- nil definition is dereferenced.
clear_constraints : Bool → M VpSession (Unit {0})
clear_constraints false = give tt
clear_constraints true = do
  held ← gets (λ s. s.request_object.presentation_definition)
  pd ← deref held
  modify (λ s. record s {
    request_object = record s.request_object {
      presentation_definition =
          some (record pd { input_descriptors = map without_constraints pd.input_descriptors });
    };
  })

has_ldp : Option Format → Bool
has_ldp none = false
has_ldp (some f) = is_some f.ldp_vp

any_jwt : List Credential → Bool
any_jwt [] = false
any_jwt (c ∷ cs) = c.is_jwt || any_jwt cs

-- The format of the tokens, in both functions: `ldp_vp` where the verifier takes it and no
-- credential is a JWT.
unfoldable pub choose_format : RequestObject → List Credential → VpFormat
unfolding has_ldp any_jwt
choose_format r credentials =
    if has_ldp r.client_metadata.vp_formats && not (any_jwt credentials) then ldp_vp else jwt_vp

-- The switch on the format.
unfoldable pub create_vp_token :
    External
    → VpFormat
    → RequestObject
    → String
    → VerificationMethod
    → Signer
    → Presentation
    → M VpSession String
create_vp_token ext jwt_vp r did vm signer p = create_jwt_vp_token ext r did signer p
create_vp_token ext ldp_vp r did vm signer p =
    on_error (create_ldp_vp_token ext did vm r p) (wrapped "create ldp vp token")

unfoldable pub attest : External → PresentOptions → M VpSession String
attest ext o =
    if is_empty o.attestation_vc
    then give ""
    else create_attestation_vp ext o.attestation_vc o.attestation_vp_signer

-- The custom fields are dropped and the ID is made a URN.
abbrev pub strip_presentation : Presentation → Presentation
strip_presentation p = record p {
  submission = untyped null;
  custom_fields = [];
  id = "urn:uuid:" ++ p.id;
}

unfoldable pub id_token_one :
    External
    → RequestObject
    → PresentOptions
    → List (String × Value)
    → String
    → Signer
    → Submission
    → M VpSession String
id_token_one ext r o scope did signer s =
    if contains_text r.response_type "id_token"
    then (do attestation_vp ← attest ext o; create_id_token ext r did scope signer attestation_vp s)
    else give ""

-- `createAuthorizedResponseOneCred`, once the constraints are cleared where they have to be.
unfoldable pub respond_one :
    External → Credential → List (String × Value) → PresentOptions → M VpSession AuthorizedResponse
respond_one ext c scope o = do
  r ← gets (λ s. s.request_object)
  let format = choose_format r (c ∷ [])
  p ← lift (ext.create_vp r.presentation_definition format (c ∷ []))
  did ←
      on_error (lift (ext.subject_id c.subjects))
        (wrapped "presentation VC does not have a subject ID")
  reject_if (is_empty did) (plain "presentation VC does not have a subject ID")
  vm ← get_assertion_vm ext did
  signer ← get_holder_signer ext vm
  shown ←
      on_error (lift (ext.marshal_submission p.submission))
        (wrapped "marshal presentation submission")
  token ← create_vp_token ext format r did vm signer (strip_presentation p)
  id_token ← id_token_one ext r o scope did signer p.submission
  give (record {
    id_token_jws = id_token;
    vp_token = token;
    presentation_submission = shown;
    state = r.state;
  })

unfoldable pub create_authorized_response_one_cred :
    External → Credential → List (String × Value) → PresentOptions → M VpSession AuthorizedResponse
unfolding clear_constraints
create_authorized_response_one_cred ext c scope o = do
  clear_constraints o.ignore_constraints
  respond_one ext c scope o

-- `m[k] = v` on a map of signers.
set_signer : String → Signer → List (String × Signer) → List (String × Signer)
set_signer did signer [] = (did, signer) ∷ []
set_signer did signer ((k, v) ∷ m) =
    let rest = set_signer did signer m in if str_eq k did then (k, signer) ∷ m else (k, v) ∷ rest

-- The tokens so far, and the signer of each holder.
pub record Signed : Type 0 where
  pub tokens : List String
  pub signers : List (String × Signer)

-- One round of the loop over the presentations.
unfoldable pub sign_presentation :
    External → VpFormat → RequestObject → Signed → Presentation → M VpSession Signed
unfolding set_signer
sign_presentation ext format r acc p = do
  c ← deref (get_elem? p.credentials 0)
  did ←
      on_error (lift (ext.subject_id c.subjects))
        (wrapped "presentation VC does not have a subject ID")
  vm ← get_assertion_vm ext did
  signer ← get_holder_signer ext vm
  token ← create_vp_token ext format r did vm signer p
  give (record { tokens = append acc.tokens token; signers = set_signer did signer acc.signers })

unfoldable pub sign_presentations :
    External → VpFormat → RequestObject → Signed → List Presentation → M VpSession Signed
sign_presentations ext format r acc [] = give acc
sign_presentations ext format r acc (p ∷ ps) = do
  next ← sign_presentation ext format r acc p
  sign_presentations ext format r next ps

unfoldable pub map_keys : List (String × Signer) → List String
map_keys [] = []
map_keys ((k, v) ∷ m) = k ∷ map_keys m

-- `rand.Int` with a bound that is not positive panics, and so does an index out of range.
unfoldable pub pick_random_element : External → List String → M VpSession String
pick_random_element ext [] = λ s. deref none s
pick_random_element ext (x ∷ xs) = do
  drawn ← read_source (λ n. ext.random_below n (length (x ∷ xs)))
  index ← lift drawn
  deref (get_elem? (x ∷ xs) index)

unfoldable pub id_token_many :
    External
    → RequestObject
    → PresentOptions
    → List (String × Value)
    → List (String × Signer)
    → Submission
    → M VpSession String
id_token_many ext r o scope signers s =
    if contains_text r.response_type "id_token"
    then (do
      did ← pick_random_element ext (map_keys signers)
      attestation_vp ← attest ext o
      signer ← deref (lookup did signers)
      create_id_token ext r did scope signer attestation_vp s)
    else give ""

unfoldable pub create_authorized_response_multi_cred :
    External
    → List Credential
    → List (String × Value)
    → PresentOptions
    → M VpSession AuthorizedResponse
create_authorized_response_multi_cred ext cs scope o = do
  r ← gets (λ s. s.request_object)
  let format = choose_format r cs
  made ← lift (ext.create_vp_array r.presentation_definition format cs)
  signed ← sign_presentations ext format r (record { tokens = []; signers = [] }) made.0
  tokens ← lift (ext.marshal_tokens signed.tokens)
  id_token ← id_token_many ext r o scope signed.signers made.1
  shown ←
      on_error (lift (ext.marshal_submission made.1)) (wrapped "marshal presentation submission")
  give (record {
    id_token_jws = id_token;
    vp_token = tokens;
    presentation_submission = shown;
    state = r.state;
  })

unfoldable pub create_authorized_response :
    External
    → List Credential
    → List (String × Value)
    → PresentOptions
    → M VpSession AuthorizedResponse
create_authorized_response ext [] scope o =
    throw (plain "expected at least one credential to present to verifier")
create_authorized_response ext (c ∷ []) scope o = create_authorized_response_one_cred ext c scope o
create_authorized_response ext (c ∷ d ∷ cs) scope o =
    create_authorized_response_multi_cred ext (c ∷ d ∷ cs) scope o
