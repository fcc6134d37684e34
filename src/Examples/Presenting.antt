-- ===== src/Examples/Presenting.antt =====
-- The theorems on presenting credentials, at concrete values.
use openvino_wallet.Base.{
  Pairwise, ◌++◌, String, true, [], false, some, ◌≡◌, eq_refl, none, ◌∷◌, refl, List,
}
use openvino_wallet.Presentation.Response.{respond_one, PresentOptions, Signed, sign_presentations}
use openvino_wallet.Presentation.RequestObject.Start.{
  IsRequested, IsOneCall, new_interaction-IsTrusted,
}
use openvino_wallet.Presentation.Claims.Laws.{leaf, no_keys, presented_claims-SameKeys}
use openvino_wallet.Presentation.Model.{
  External, Credential, Presentation, PresentationDefinition, RequestObject, VpSession, submission,
  jwt_vp,
}
use openvino_wallet.Issuance.Model.{Signer}
use openvino_wallet.Examples.{answering, no_world, resolver, url}
use openvino_wallet.Run.Rules.{Returns}
use openvino_wallet.Presentation.Interaction.Laws.{
  IsPosted, present_credential-IsPosted, present_credential_unsafe-relaxed,
}
use openvino_wallet.Run.{final, done, ok, err}
use openvino_wallet.Base.Json.{text, field, end}
use openvino_wallet.Presentation.RequestObject.{new_interaction, parse_request_object}
use openvino_wallet.Presentation.Interaction.{present_credential, present_credential_unsafe}
use openvino_wallet.Presentation.RequestObject.Laws.{
  IsTrusted, new_interaction-unchecked, parse_request_object-IsTrusted,
}
use openvino_wallet.Presentation.Response.Laws.{relaxed}
use openvino_wallet.Errors.{plain}
use openvino_wallet.Run.Success.{Ensures}
use openvino_wallet.Presentation.Response.Sign.{
  IsResponse, respond_one-IsResponse, IsTokenOfFirst, sign_presentations-AreTokens,
}
use openvino_wallet.Presentation.Claims.{Disclosure, presented_claims}

abbrev signer : Signer
signer = record { key_id = "did:key:1#k"; name = "k" }

abbrev pd : PresentationDefinition
pd = record {
  id = "pd";
  input_descriptors = record { id = "degree"; constraints = some (text "age") } ∷ [];
}

-- A request object without a response URI, under the scheme "redirect_uri".
abbrev request_object : RequestObject
request_object = record {
  issuer = "did:ion:2";
  response_type = "vp_token id_token";
  response_uri = "";
  scope = "openid";
  nonce = "n1";
  client_id = "verifier";
  client_id_scheme = "redirect_uri";
  state = "s1";
  client_metadata = record {
    client_name = "Verifier";
    client_purpose = "";
    client_logo_uri = "";
    subject_syntax_types_supported = [];
    vp_formats = none;
  };
  presentation_definition = some pd;
  redirect_uri = "https://other.example/cb";
  registration = record {
    client_name = "";
    subject_syntax_types_supported = [];
    vp_formats = none;
    client_purpose = "";
    logo_uri = "";
  };
  claims_definition = none;
}

abbrev credential : Credential
credential = record { id = "urn:vc"; is_jwt = true; subjects = text "did:key:1" ∷ [] }

abbrev presentation : Presentation
presentation = record {
  id = "1";
  submission = submission "s" [];
  custom_fields = [];
  credentials = credential ∷ [];
}

abbrev outside : External
outside = record {
  network = answering "";
  resolver = resolver;
  now = λ n. n;
  uuid = λ n. "u";
  random_below = λ n bound. ok 0;
  parse_url = λ s. ok url;
  encode_form = λ form. "form";
  base64_std = λ s. s;
  parse_request_jwt = λ s. ok request_object;
  check_proof = λ raw iss. none;
  unmarshal_error_response = λ s. ok (record { error = "e"; error_description = "" });
  unmarshal_entra_error = λ s. err (plain "other");
  marshal_submission = λ s. ok "submission";
  marshal_tokens = λ ts. ok "tokens";
  marshal_details = λ d. ok "details";
  marshal_presentation = λ p. ok "vp";
  create_vp = λ d format cs. ok presentation;
  create_vp_array = λ d format cs. ok (presentation ∷ [], submission "s" []);
  subject_id = λ subjects. ok "did:key:1";
  assertion_methods = λ did. ok (record { id = "k"; type = "JsonWebKey2020" } ∷ []);
  new_jws_signer = λ vm. ok signer;
  new_signed = λ claims signer. ok "jwt";
  serialize = λ jwt. ok jwt;
  add_ld_proof = λ r p. ok p;
  deep_copy_error = λ s. none;
  parse_attestation = λ s. ok credential;
  new_presentation = λ c. ok presentation;
  presentation_claims = λ p. ok [];
}

abbrev options : PresentOptions
options = record {
  ignore_constraints = false;
  attestation_vp_signer = signer;
  attestation_vc = "";
  interaction_details = none;
}

abbrev session : VpSession
session = record {
  world = no_world;
  request_object = record request_object { response_uri = "https://verifier.example/post" };
}

parse_request_object-IsTrusted_example :
    Returns
      (λ o t. (t ≡ no_world) × IsTrusted outside "https://verifier.example/post" "jwt" o)
      (λ e t. t ≡ no_world)
      (parse_request_object outside "https://verifier.example/post" "jwt" no_world)
parse_request_object-IsTrusted_example =
    parse_request_object-IsTrusted outside "https://verifier.example/post" "jwt" no_world

equal_fold_refl : (t : String) → resolver.equal_fold t t ≡ true
equal_fold_refl t = eq_refl t

new_interaction-unchecked_example :
    (o : RequestObject) × (new_interaction outside "ey.jwt" no_world ≡ done o no_world)
    × (o.response_uri ≡ "https://other.example/cb")
new_interaction-unchecked_example =
    new_interaction-unchecked outside "ey.jwt" request_object url no_world refl refl equal_fold_refl
      refl refl refl (λ e. cc e)

present_credential-IsPosted_example :
    IsPosted session (final (present_credential outside (credential ∷ []) [] options session))
present_credential-IsPosted_example =
    present_credential-IsPosted outside (credential ∷ []) [] options session

present_credential_unsafe-relaxed_example :
    (final (present_credential_unsafe outside credential [] session)).request_object
    ≡ relaxed pd session.request_object
present_credential_unsafe-relaxed_example =
    present_credential_unsafe-relaxed outside credential [] session pd refl

respond_one-IsResponse_example :
    Ensures
      (λ response t. IsResponse outside request_object credential response)
      (respond_one outside credential [] options
        (record session { request_object = request_object }))
respond_one-IsResponse_example =
    respond_one-IsResponse outside credential [] options
      (record session { request_object = request_object })

abbrev none_signed : Signed
none_signed = record { tokens = []; signers = [] }

sign_presentations-AreTokens_example :
    Ensures
      (λ signed t.
        (tokens : List String) × (signed.tokens ≡ [] ++ tokens)
        × Pairwise
            (IsTokenOfFirst outside jwt_vp request_object)
            (presentation ∷ presentation ∷ [])
            tokens)
      (sign_presentations outside jwt_vp request_object none_signed
        (presentation ∷ presentation ∷ [])
        session)
sign_presentations-AreTokens_example =
    sign_presentations-AreTokens outside jwt_vp request_object (presentation ∷ presentation ∷ [])
      none_signed session

new_interaction-IsTrusted_example :
    Returns
      (λ o t.
        IsOneCall no_world t
        × ((client_id : String) × (raw : String) × IsRequested outside no_world
              "openid4vp://authorize?request_uri=x" client_id raw
            × IsTrusted outside client_id raw o))
      (λ e t. IsOneCall no_world t)
      (new_interaction outside "openid4vp://authorize?request_uri=x" no_world)
new_interaction-IsTrusted_example =
    new_interaction-IsTrusted outside no_world "openid4vp://authorize?request_uri=x"

-- Every subject has one claim, its name.
abbrev claiming : Disclosure
claiming = record {
  create_vp = λ definition vc. ok (record presentation { credentials = vc ∷ [] });
  fields_of = λ subject. field "name" subject end;
}

abbrev named : String → Credential
named name = record credential { subjects = text name ∷ [] }

presented_claims-SameKeys_example :
    presented_claims claiming (named "Ada") session
    ≡ presented_claims claiming (named "Bob") session
presented_claims-SameKeys_example =
    presented_claims-SameKeys claiming (named "Ada") (named "Bob") session
      (record presentation { credentials = named "Ada" ∷ [] })
      (record presentation { credentials = named "Bob" ∷ [] }) (named "Ada") (named "Bob") [] []
      (text "Ada") (text "Bob") [] [] refl refl refl refl refl refl (leaf tt tt no_keys)
