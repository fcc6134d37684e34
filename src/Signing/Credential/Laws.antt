-- ===== src/Signing/Credential/Laws.antt =====
-- With which key a credential is signed: pkg/credentialsigner/signer.go.
use openvino_wallet.Base.{
  none, some, [], ◌∷◌, inl, inr, List, Option, String, length, ◌≡◌, ◌⊎◌, arith, split, true,
  Bool-cases, refl, get_or, ltb, false, ◌==◌, ◌≢◌, split-ne-nil,
}
use openvino_wallet.Run.{ok, err, Result}
use openvino_wallet.Signing.Credential.{
  External, Document, Verification, SigningMethod, JwsAlgorithm, issue, issue_jwt_vc, sign_by,
  sign_with, signed, find_method, find_in, or_else, choose_method, first_assertion_method,
  named_method, resolve_signing_vm_with_relationship, is_wanted, external_jwt, embedded_ld,
  unrecognized, hash, full_vm_id, alg_by_name, ProofOptions, sign_as, ProofFormat,
}
use openvino_wallet.Signing.Keys.{JwsSigner, Crypto, new_jws_signer, verification_method_from_doc}
use openvino_wallet.Run.Rules.{Result-cases}

-- The verification stands in one of the lists, for a relationship that may sign, under the fragment.
abbrev pub StandsIn : (Verification → Type 0) → List Verification → Type 0
StandsIn P [] = ⊥
StandsIn P (v ∷ vs) = P v ⊎ StandsIn P vs

abbrev pub StandsInOne : (Verification → Type 0) → List (List Verification) → Type 0
StandsInOne P [] = ⊥
StandsInOne P (vs ∷ rest) = StandsIn P vs ⊎ StandsInOne P rest

abbrev IsFound : String → Verification → Verification → Type 0
IsFound fragment found v = (v ≡ found) × (is_wanted fragment v ≡ true)

find_in-StandsIn :
    (fragment : String) (vs : List Verification) (v : Verification)
    → find_in fragment vs ≡ some v
    → StandsIn (IsFound fragment v) vs
unfolding find_in
find_in-StandsIn fragment [] v h = absurd (ground arith)
find_in-StandsIn fragment (u ∷ vs) v h = elim (Bool-cases (is_wanted fragment u)) [
  | inl hit ↦ inl (ground arith, hit)
  | inr miss ↦ inr (find_in-StandsIn fragment vs v (rw miss at h))
]

or_else-cases :
    (a b : Option Verification) (v : Verification)
    → or_else a b ≡ some v
    → (a ≡ some v) ⊎ (b ≡ some v)
unfolding or_else
or_else-cases none b v h = inr h
or_else-cases (some u) b v h = inl h

find_method-StandsInOne :
    (fragment : String) (lists : List (List Verification)) (v : Verification)
    → find_method fragment lists ≡ some v
    → StandsInOne (IsFound fragment v) lists
unfolding find_method
find_method-StandsInOne fragment [] v h = absurd (ground arith)
find_method-StandsInOne fragment (vs ∷ rest) v h =
    elim (or_else-cases (find_in fragment vs) (find_method fragment rest) v h) [
      | inl here ↦ inl (find_in-StandsIn fragment vs v here)
      | inr later ↦ inr (find_method-StandsInOne fragment rest v later)
    ]

-- How a method was chosen in the document. A key ID with no fragment stands for the first assertion
-- method; one with a fragment for a signing method under that fragment, and keeps its own text.
pub data IsChosen (kid : String) (document : Document) (m : SigningMethod) : Type 0 where
  by_default :
      (v : Verification) {vs : List Verification}
      → length (split hash kid) ≡ 1
      → document.assertion_methods ≡ v ∷ vs
      → m.method ≡ v.method
      → m.full_id ≡ full_vm_id (get_or (split hash kid) 0 "") v.method.id
      → IsChosen kid document m
  by_fragment :
      (v : Verification)
      → length (split hash kid) ≡ 2
      → StandsInOne (IsFound (get_or (split hash kid) 1 "") v) document.verification_methods
      → m.method ≡ v.method
      → m.full_id ≡ kid
      → IsChosen kid document m

first_assertion_method-eq_ok :
    (did : String) (vs : List Verification) (m : SigningMethod)
    → first_assertion_method did vs ≡ ok m
    → (v : Verification) × (rest : List Verification) × (vs ≡ v ∷ rest)
      × (m.method ≡ v.method)
      × (m.full_id ≡ full_vm_id did v.method.id)
unfolding first_assertion_method
first_assertion_method-eq_ok did [] m h = absurd (ground arith)
first_assertion_method-eq_ok did (v ∷ vs) m h = (v, vs, refl, ground arith, ground arith)

named_method-eq_ok :
    (kid : String) (o : Option Verification) (m : SigningMethod)
    → named_method kid o ≡ ok m
    → (v : Verification) × (o ≡ some v) × (m.method ≡ v.method) × (m.full_id ≡ kid)
unfolding named_method
named_method-eq_ok kid none m h = absurd (ground arith)
named_method-eq_ok kid (some v) m h = (v, refl, ground arith, ground arith)

two_parts :
    (kid : String)
    → ltb 2 (length (split hash kid)) ≡ false
    → (length (split hash kid) == 1) ≡ false
    → length (split hash kid) ≡ 2
two_parts kid h k = go (split hash kid) (split-ne-nil hash kid) h k
  where
    go :
        (ps : List String)
        → ps ≢ []
        → ltb 2 (length ps) ≡ false
        → (length ps == 1) ≡ false
        → length ps ≡ 2
    go [] n h k = absurd (n refl)
    go (x ∷ xs) n h k = ground arith

choose_method-IsChosen :
    (kid : String) (document : Document) (m : SigningMethod)
    → ltb 2 (length (split hash kid)) ≡ false
    → choose_method kid (split hash kid) document ≡ ok m
    → IsChosen kid document m
unfolding choose_method
choose_method-IsChosen kid document m short h = elim (Bool-cases (length (split hash kid) == 1)) [
  | inl one ↦
      let (v, rest, listed, method, id) =
        first_assertion_method-eq_ok (get_or (split hash kid) 0 "") document.assertion_methods m
          (rw one at h) in
      by_default v (ground arith) listed method id
  | inr two ↦
      let (v, found, method, id) =
        named_method-eq_ok kid
          (find_method (get_or (split hash kid) 1 "") document.verification_methods) m
          (rw two at h) in
      by_fragment v (two_parts kid short two) (find_method-StandsInOne _ _ v found) method id
]

-- The credential was signed by a key of the document that the DID part of the key ID resolves to.
pub record IsSigned (ext : External) (crypto : Option Crypto) (credential kid out : String)
    : Type 0 where
  pub document : Document
  pub resolved : ext.resolve (get_or (split hash kid) 0 "") ≡ ok document
  pub method : SigningMethod
  pub chosen : IsChosen kid document method
  pub signer : JwsSigner
  pub has_signer :
      new_jws_signer ext.tools (verification_method_from_doc method.method) crypto ≡ ok signer
  pub alg : JwsAlgorithm
  pub named : alg_by_name signer.algorithm ≡ ok alg
  pub made : ext.create_signed_jwt_vc credential alg signer method.full_id ≡ ok out

resolve_signing_vm-eq_ok :
    (ext : External) (kid : String) (m : SigningMethod)
    → resolve_signing_vm_with_relationship ext kid ≡ ok m
    → (document : Document) × (ext.resolve (get_or (split hash kid) 0 "") ≡ ok document)
      × IsChosen kid document m
unfolding resolve_signing_vm_with_relationship
resolve_signing_vm-eq_ok ext kid m h = elim (Bool-cases (ltb 2 (length (split hash kid)))) [
  | inl long ↦ absurd (ground arith)
  | inr short ↦ elim (Result-cases (ext.resolve (get_or (split hash kid) 0 ""))) [
    | inr (e, bad) ↦ absurd (ground arith)
    | inl (document, good) ↦
        (document, good, choose_method-IsChosen kid document m short (rw (short, good) at h))
  ]
]

sign_as-eq_ok :
    (ext : External) (credential full_id : String) (signer : JwsSigner) (r : Result JwsAlgorithm)
    (out : String)
    → sign_as ext credential full_id signer r ≡ ok out
    → (alg : JwsAlgorithm) × (r ≡ ok alg)
      × (ext.create_signed_jwt_vc credential alg signer full_id ≡ ok out)
unfolding sign_as signed
sign_as-eq_ok ext credential full_id signer (err e) out h = absurd (ground arith)
sign_as-eq_ok ext credential full_id signer (ok alg) out h =
    elim (Result-cases (ext.create_signed_jwt_vc credential alg signer full_id)) [
      | inl (vc, good) ↦ (alg, refl, ground arith)
      | inr (e, bad) ↦ absurd (ground arith)
    ]

sign_with-eq_ok :
    (ext : External) (credential full_id : String) (r : Result JwsSigner) (out : String)
    → sign_with ext credential full_id r ≡ ok out
    → (signer : JwsSigner) × (r ≡ ok signer)
      × ((alg : JwsAlgorithm) × (alg_by_name signer.algorithm ≡ ok alg)
          × (ext.create_signed_jwt_vc credential alg signer full_id ≡ ok out))
unfolding sign_with
sign_with-eq_ok ext credential full_id (err e) out h = absurd (ground arith)
sign_with-eq_ok ext credential full_id (ok signer) out h =
    (signer, refl, sign_as-eq_ok ext credential full_id signer (alg_by_name signer.algorithm) out h)

sign_by-IsSigned :
    (ext : External) (crypto : Option Crypto) (credential kid : String) (r : Result SigningMethod)
    (out : String)
    → resolve_signing_vm_with_relationship ext kid ≡ r
    → sign_by ext crypto credential r ≡ ok out
    → IsSigned ext crypto credential kid out
unfolding sign_by
sign_by-IsSigned ext crypto credential kid (err e) out found h = absurd (ground arith)
sign_by-IsSigned ext crypto credential kid (ok m) out found h =
    let (document, resolved, chosen) = resolve_signing_vm-eq_ok ext kid m found in
    let (signer, has_signer, (alg, named, made)) =
      sign_with-eq_ok ext credential m.full_id _ out h in
    record {
      document = document;
      resolved = resolved;
      method = m;
      chosen = chosen;
      signer = signer;
      has_signer = has_signer;
      alg = alg;
      named = named;
      made = made;
    }

-- `Issue` gives a credential only for one that is there, in the external JWT format, with a key ID of at
-- most one fragment. It is the JWT that vc-go made of that credential with a key of the document that
-- the DID part of the key ID resolves to: with no fragment the first assertion method, whose full ID
-- becomes the key ID; with one a method under that fragment whose relationship may sign, and the key
-- ID stays as it was. The algorithm is that of the signer of this method.
pub issue-IsSigned :
    (ext : External) (crypto : Option Crypto) (credential : Option String) (options : ProofOptions)
    (out : String)
    → issue ext crypto credential options ≡ ok out
    → (vc : String) × (credential ≡ some vc)
      × (options.proof_format ≡ external_jwt)
      × IsSigned ext crypto vc options.key_id out
unfolding issue issue_jwt_vc
issue-IsSigned ext crypto none options out h = absurd (ground arith)
issue-IsSigned ext crypto (some vc) options out h = go options.proof_format refl
  where
    go :
        (format : ProofFormat)
        → options.proof_format ≡ format
        → (vc' : String) × (◌≡◌ {A = Option String} (some vc) (some vc'))
          × (options.proof_format ≡ external_jwt)
          × IsSigned ext crypto vc' options.key_id out
    go external_jwt p = (
      vc,
      refl,
      p,
      sign_by-IsSigned ext crypto vc options.key_id
          (resolve_signing_vm_with_relationship ext options.key_id) out refl (rw p at h),
    )
    go embedded_ld p = absurd (ground arith)
    go unrecognized p = absurd (ground arith)
