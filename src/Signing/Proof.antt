-- ===== src/Signing/Proof.antt =====
-- Linked data proofs on presentations: pkg/ldproof/ldproof.go and ldproof_opts.go. The suites and
-- descriptors of vc-go, with their names and key types, and the proofs themselves are parameters. The
-- presentation is changed in place.
pub mod Laws
use Prim.Native.String.{◌++◌}
use openvino_wallet.Base.{
  String, Bool, true, false, ◌&&◌, ◌||◌, Option, none, some, List, [], ◌∷◌, lookup, if◌then◌else◌,
  str_eq, starts_with, is_empty, append,
}
use openvino_wallet.Errors.{GoError, plain, wrapped}
use openvino_wallet.Run.{
  M, ◌>>=◌, ◌>>◌, give, throw, modify, lift, deref, fail_with, on_error, Result, ok, err, done,
  fail,
}
use openvino_wallet.Signing.Keys.{DocMethod, KeyTools}

pub record Presentation : Type 0 where
  pub context : List String
  pub content : String

-- The first part of `proof.LDProofDescriptor`, and the key types of its verification methods.
pub record Descriptor : Type 0 where
  pub proof_type : String
  pub key_types : List String

-- `options`; nil pointers are `none`.
pub record Options : Type 0 where
  pub ldp_type : Option (List String)
  pub verification_method : Option DocMethod
  pub did : String
  pub challenge : String
  pub domain : String

pub data Opt : Type 0 where
  with_ldp_type : Option (List String) → Opt
  with_verification_method : Option DocMethod → Opt
  with_did : String → Opt
  with_challenge : String → Opt
  with_domain : String → Opt

unfoldable pub apply_opt : Opt → Options → Options
apply_opt (with_ldp_type t) o = record o { ldp_type = t }
apply_opt (with_verification_method vm) o = record o { verification_method = vm }
apply_opt (with_did did) o = record o { did = did }
apply_opt (with_challenge c) o = record o { challenge = c }
apply_opt (with_domain d) o = record o { domain = d }

abbrev no_options : Options
no_options = record {
  ldp_type = none;
  verification_method = none;
  did = "";
  challenge = "";
  domain = "";
}

apply_opts : List Opt → Options → Options
unfolding apply_opt
apply_opts [] o = o
apply_opts (opt ∷ opts) o = apply_opts opts (apply_opt opt o)

-- `verifiable.DataIntegrityProofContext` and `verifiable.LinkedDataProofContext`, each with the key ID
-- that its signer uses. Both have the purpose "authentication".
pub record DataIntegrityContext : Type 0 where
  pub signing_key_id : String
  pub crypto_suite : String
  pub purpose : String
  pub challenge : String
  pub domain : String
  pub signer_key_id : String

pub record LinkedDataContext : Type 0 where
  pub signature_type : String
  pub key_type : String
  pub verification_method : String
  pub challenge : String
  pub domain : String
  pub purpose : String
  pub signer_key_id : String

-- The names of the two data integrity suites and of the key types; the four descriptors under their
-- proof types; the types of verification methods for raw Ed25519 keys; and the calls that add proofs.
pub record External : Type 0 where
  pub tools : KeyTools
  pub ecdsa2019 : String
  pub eddsa2022 : String
  pub ecdsa_p256 : String
  pub ecdsa_p384 : String
  pub ed25519 : String
  pub ecdsa_secp256k1_signature_2019 : String × Descriptor
  pub ed25519_signature_2018 : String × Descriptor
  pub ed25519_signature_2020 : String × Descriptor
  pub json_web_signature_2020 : String × Descriptor
  pub ed25519_method_2018 : String
  pub ed25519_method_2020 : String
  pub new_signer_error : String → String → Option GoError
  pub add_data_integrity_proof : DataIntegrityContext → Presentation → Result Presentation
  pub add_linked_data_proof : LinkedDataContext → Presentation → Result Presentation

abbrev pub proof_purpose : String
proof_purpose = "authentication"

unfoldable pub supported_ld_proof_types : External → List (String × Descriptor)
supported_ld_proof_types ext =
    ext.ecdsa_secp256k1_signature_2019 ∷ ext.ed25519_signature_2018 ∷ ext.ed25519_signature_2020
    ∷ ext.json_web_signature_2020 ∷ []

unfoldable pub supported_di_key_types : External → List (String × List String)
supported_di_key_types ext =
    (ext.ecdsa2019, ext.ecdsa_p256 ∷ ext.ecdsa_p384 ∷ []) ∷ (ext.eddsa2022, ext.ed25519 ∷ []) ∷ []

-- `lo.Contains`.
abbrev pub has : List String → String → Bool
has [] s = false
has (x ∷ xs) s = str_eq x s || has xs s

jwk_key : String → Result String → Result (String × String)
jwk_key key_id (err e) = err (wrapped "get key type from jwk" e)
jwk_key key_id (ok key_type) = ok (key_id, key_type)

raw_key : External → Result String → Result (String × String)
raw_key ext (err e) = err (wrapped "failed to generate key ID for ed25519 key" e)
raw_key ext (ok kid) = ok (kid, ext.ed25519)

unfoldable pub get_key_id_and_type : External → DocMethod → Result (String × String)
unfolding jwk_key raw_key
get_key_id_and_type ext vm = elim vm.json_web_key [
  | some jwk ↦ jwk_key jwk.key_id (ext.tools.key_type jwk)
  | none ↦
      if is_empty vm.value
      then err (plain ("missing key value for " ++ (vm.id ++ " verification method")))
      else if str_eq vm.type ext.ed25519_method_2018 || str_eq vm.type ext.ed25519_method_2020
      then raw_key ext (ext.tools.create_kid vm.value)
      else err (plain ("unsupported verification method type: " ++ vm.type))
]

unfoldable pub full_vm_id : String → String → String
full_vm_id id vm_id =
    if is_empty vm_id
    then id
    else if starts_with vm_id "#"
    then id ++ vm_id
    else if starts_with vm_id "did:"
    then vm_id
    else id ++ ("#" ++ vm_id)

unfoldable pub is_key_type_supported : Descriptor → String → Bool
is_key_type_supported d key_type = has d.key_types key_type

unfoldable pub data_integrity_context : Options → DocMethod → String → String → DataIntegrityContext
unfolding full_vm_id
data_integrity_context o vm suite key_id = record {
  signing_key_id = full_vm_id o.did vm.id;
  crypto_suite = suite;
  purpose = proof_purpose;
  challenge = o.challenge;
  domain = o.domain;
  signer_key_id = key_id;
}

-- Stores the presentation that a call of vc-go leaves.
unfoldable pub replace : (Presentation → Result Presentation) → M Presentation (Unit {0})
replace f p = elim (f p) [ ok p' ↦ done tt p' | err e ↦ fail e p ]

-- The suite is one of the two, so the default case of the switch is never taken.
unfoldable pub add_data_integrity_proof :
    External → Options → DocMethod → String → String → M Presentation (Unit {0})
unfolding ◌>>◌ fail_with replace data_integrity_context
add_data_integrity_proof ext o vm suite key_id = do
  fail_with (ext.new_signer_error suite key_id)
  replace (ext.add_data_integrity_proof (data_integrity_context o vm suite key_id))

unfoldable pub update_presentation_context : Presentation → Presentation
update_presentation_context p = record p {
  context =
      append (append p.context "https://www.w3.org/ns/credentials/examples/v2")
        "https://w3c-ccg.github.io/lds-jws2020/contexts/lds-jws2020-v1.json";
}

unfoldable pub linked_data_context :
    Options → DocMethod → Descriptor → String → String → LinkedDataContext
linked_data_context o vm d key_id key_type = record {
  signature_type = d.proof_type;
  key_type = key_type;
  verification_method = vm.id;
  challenge = o.challenge;
  domain = o.domain;
  purpose = proof_purpose;
  signer_key_id = key_id;
}

unfoldable pub add_linked_data_proof :
    External → Options → DocMethod → Descriptor → String → String → M Presentation (Unit {0})
unfolding ◌>>◌ replace update_presentation_context linked_data_context
add_linked_data_proof ext o vm d key_id key_type = do
  modify update_presentation_context
  replace (ext.add_linked_data_proof (linked_data_context o vm d key_id key_type))

-- A data integrity suite for the key type.
unfoldable pub is_di_supported : External → String → String → Bool
unfolding supported_di_key_types
is_di_supported ext key_type proof_type =
    (str_eq proof_type ext.ecdsa2019 || str_eq proof_type ext.eddsa2022)
    && elim (lookup proof_type (supported_di_key_types ext)) [
      | none ↦ false
      | some key_types ↦ has key_types key_type
    ]

-- The descriptor of a linked data proof for the key type.
unfoldable pub ld_supported : External → String → String → Option Descriptor
unfolding supported_ld_proof_types is_key_type_supported
ld_supported ext key_type proof_type = elim (lookup proof_type (supported_ld_proof_types ext)) [
  | none ↦ none
  | some d ↦ if is_key_type_supported d key_type then some d else none
]

-- The loop over the proof types.
unfoldable pub add_first :
    External → Options → DocMethod → String → String → List String → M Presentation (Unit {0})
unfolding is_di_supported ld_supported add_data_integrity_proof add_linked_data_proof
add_first ext o vm key_id key_type [] = throw (plain "no supported ldp types found")
add_first ext o vm key_id key_type (proof_type ∷ proof_types) =
    let rest = add_first ext o vm key_id key_type proof_types in
    if is_di_supported ext key_type proof_type
    then add_data_integrity_proof ext o vm proof_type key_id
    else elim (ld_supported ext key_type proof_type) [
      | some d ↦ add_linked_data_proof ext o vm d key_id key_type
      | none ↦ rest
    ]

add_with : External → Options → DocMethod → M Presentation (Unit {0})
unfolding ◌>>=◌ on_error lift deref get_key_id_and_type add_first
add_with ext o vm = do
  key ← on_error (lift (get_key_id_and_type ext vm)) (wrapped "get key ID and type")
  proof_types ← deref o.ldp_type
  add_first ext o vm key.0 key.1 proof_types

unfoldable pub merge_opts : List Opt → Options
unfolding apply_opts apply_opt
merge_opts opts = apply_opts opts no_options

-- `(*LDProof).Add`.
unfoldable pub add : External → List Opt → M Presentation (Unit {0})
unfolding add_with merge_opts
add ext opts = elim (merge_opts opts).verification_method [
  | none ↦ throw (wrapped "get key ID and type" (plain "missing verification method"))
  | some vm ↦ add_with ext (merge_opts opts) vm
]
