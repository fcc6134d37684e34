-- ===== src/Examples/Keeping.antt =====
-- The theorems on stored credentials, on signatures and on disclosed claims, at concrete values.
use openvino_wallet.Clients.Attestation
use openvino_wallet.Signing.Credential
use openvino_wallet.Signing.Proof
use openvino_wallet.Clients.Attestation.{InitRequest, new_client, get_attestation_vc}
use openvino_wallet.Clients.Attestation.Laws.{Attested, get_attestation_vc-Attested}
use openvino_wallet.Issuance.Model.{Signer}
use openvino_wallet.Examples.{answering, no_world}
use openvino_wallet.Base.{
  trim_right, ◌+◌, [], ◌∷◌, none, some, List, String, ◌≡◌, Option, refl, ◌↔◌,
}
use openvino_wallet.Run.{ok}
use openvino_wallet.Storage.{new_provider, get, get_all}
use openvino_wallet.Storage.Laws.{Op, adding, removing, run, replay, IsIn, get-run}
use openvino_wallet.Signing.Keys.{KeyTools, DocMethod}
use openvino_wallet.Signing.Credential.{
  Document, Verification, ProofOptions, issue, assertion_method, external_jwt,
}
use openvino_wallet.Signing.Credential.Laws.{IsSigned, issue-IsSigned}
use openvino_wallet.Signing.Proof.{
  Opt, with_ldp_type, with_verification_method, merge_opts, add, get_key_id_and_type,
}
use openvino_wallet.Signing.Proof.Laws.{IsFirst, Proved, MaybeContexts, add-IsFirst}
use openvino_wallet.Run.Rules.{Returns}
use openvino_wallet.Clients.Attestation.Exchanges.{Within}

abbrev ops : List (Op String)
ops = adding (some "urn:a") ∷ adding none ∷ removing "urn:b" ∷ []

get-run_example :
    ((get (run (λ c. c) new_provider ops) "urn:a" ≡ ok "urn:a")
      ↔ (replay (λ c. c) (λ _. none) ops "urn:a" ≡ some "urn:a"))
    × (IsIn "urn:a" (get_all (run (λ c. c) new_provider ops))
        ↔ (get (run (λ c. c) new_provider ops) "urn:a" ≡ ok "urn:a"))
get-run_example = get-run (λ c. c) ops "urn:a" "urn:a"

abbrev tools : KeyTools
tools = record {
  create_kid = λ raw. ok "kid";
  key_type = λ jwk. ok "ED25519";
  thumbprint = λ jwk. ok "tp";
  algorithm_name = λ kt. ok "EdDSA";
  header_key_id = "kid";
  header_algorithm = "alg";
}

abbrev doc_method : DocMethod
doc_method = record {
  id = "#key-1";
  type = "JsonWebKey2020";
  json_web_key = some (record { key_id = "key-1"; key = "{}" });
  value = "";
}

abbrev verification : Verification
verification = record { relationship = assertion_method; method = doc_method }

abbrev document : Document
document = record {
  assertion_methods = verification ∷ [];
  verification_methods = (verification ∷ []) ∷ [];
}

abbrev signing : Credential.External
signing = record {
  tools = tools;
  resolve = λ did. ok document;
  create_signed_jwt_vc = λ vc alg signer kid. ok "jwt";
}

abbrev with_key : ProofOptions
with_key = record { proof_format = external_jwt; key_id = "did:example:issuer#key-1" }

credential_issued :
    issue signing (some (λ message kid. ok "signature")) (some "{}") with_key ≡ ok "jwt"
unfolding issue
credential_issued = refl

issue-IsSigned_example :
    (vc : String) × (◌≡◌ {A = Option String} (some "{}") (some vc))
    × (external_jwt ≡ external_jwt)
    × IsSigned signing (some (λ message kid. ok "signature")) vc "did:example:issuer#key-1" "jwt"
issue-IsSigned_example =
    issue-IsSigned signing (some (λ message kid. ok "signature")) (some "{}") with_key "jwt"
      credential_issued

abbrev descriptor : Proof.Descriptor
descriptor = record { proof_type = "Ed25519Signature2018"; key_types = "ED25519" ∷ [] }

abbrev proofs : Proof.External
proofs = record {
  tools = tools;
  ecdsa2019 = "ecdsa-2019";
  eddsa2022 = "eddsa-2022";
  ecdsa_p256 = "ECDSAP256IEEEP1363";
  ecdsa_p384 = "ECDSAP384IEEEP1363";
  ed25519 = "ED25519";
  ecdsa_secp256k1_signature_2019 = ("EcdsaSecp256k1Signature2019", descriptor);
  ed25519_signature_2018 = ("Ed25519Signature2018", descriptor);
  ed25519_signature_2020 = ("Ed25519Signature2020", descriptor);
  json_web_signature_2020 = ("JsonWebSignature2020", descriptor);
  ed25519_method_2018 = "Ed25519VerificationKey2018";
  ed25519_method_2020 = "Ed25519VerificationKey2020";
  new_signer_error = λ suite kid. none;
  add_data_integrity_proof = λ context p. ok p;
  add_linked_data_proof = λ context p. ok p;
}

abbrev proof_opts : List Opt
proof_opts =
    with_verification_method (some doc_method)
    ∷ with_ldp_type (some ("ecdsa-2019" ∷ "Ed25519Signature2018" ∷ []))
    ∷ []

abbrev unproved : Proof.Presentation
unproved = record { context = []; content = "{}" }

has_method : (merge_opts proof_opts).verification_method ≡ some doc_method
unfolding merge_opts
has_method = refl

has_types : (merge_opts proof_opts).ldp_type ≡ some ("ecdsa-2019" ∷ "Ed25519Signature2018" ∷ [])
unfolding merge_opts
has_types = refl

add-IsFirst_example :
    Returns
      (λ _ p'.
        (key : String × String) × (get_key_id_and_type proofs doc_method ≡ ok key)
        × ((t : String) × IsFirst proofs key.1 ("ecdsa-2019" ∷ "Ed25519Signature2018" ∷ []) t
            × Proved proofs (merge_opts proof_opts) doc_method key.0 key.1 t unproved p'))
      (MaybeContexts unproved)
      (add proofs proof_opts unproved)
add-IsFirst_example =
    add-IsFirst proofs proof_opts doc_method ("ecdsa-2019" ∷ "Ed25519Signature2018" ∷ []) unproved
      has_method has_types

abbrev init_request : InitRequest
init_request = record { payload = [] }

-- A service that answers every request with the same body, at a clock that does not stand still.
abbrev attesting : Attestation.External
attesting = record {
  network = answering "{}";
  now = λ n. 1000 + n;
  marshal_init = λ r. ok "{\"payload\":{}}";
  marshal_complete = λ r. ok r.jwt;
  unmarshal_init = λ b. ok (record { challenge = "c"; session_id = "s" });
  unmarshal_complete = λ b. ok (record { wallet_attestation_vc = b });
  new_signed = λ claims header signer. ok claims.issuer;
  serialize = λ jwt. ok jwt;
  parse_credential = λ vc. ok vc;
}

abbrev key : Signer
key = record { key_id = "did:key:1#k"; name = "k" }

get_attestation_vc-Attested_example :
    Returns
      (Attested attesting (trim_right b'/' "https://attest.example/") init_request key no_world)
      (Within 2 no_world)
      (get_attestation_vc attesting
        (new_client attesting "https://attest.example/" none)
        init_request
        key
        no_world)
get_attestation_vc-Attested_example =
    get_attestation_vc-Attested attesting "https://attest.example/" init_request key no_world
