-- ===== src/Presentation/Claims/Laws.antt =====
-- That no value of a claim is disclosed: pkg/openid4vp/openid4vp.go.
use openvino_wallet.Base.{◌∷◌, String, ◌≡◌, if◌then◌else◌, refl, ◌∙◌, str_eq, sym, List, ap}
use openvino_wallet.Base.Json.{
  Value, null, boolean, number, text, array, object, Fields, end, field,
}
use openvino_wallet.Presentation.Claims.{
  Disclosure, presented_claims, populate_claim_keys, first_credential, claims_of_subject,
  copy_json_keys_only,
}
use openvino_wallet.Run.{◌>>=◌, lift, deref, ok, done}
use openvino_wallet.Presentation.Model.{Credential, VpSession, Presentation}

-- A value that is no object.
abbrev IsLeaf : Value → Type 0
IsLeaf (object fs) = ⊥
IsLeaf v = Unit

-- The same names at the same places, where values other than objects may differ, and anything may
-- differ under "_sd".
pub data SameKeys : Fields → Fields → Type 0 where
  no_keys : SameKeys end end
  leaf :
      {k : String} {u v : Value} {fs gs : Fields}
      → IsLeaf u
      → IsLeaf v
      → SameKeys fs gs
      → SameKeys (field k u fs) (field k v gs)
  nested :
      {k : String} {sub sub' fs gs : Fields}
      → SameKeys sub sub'
      → SameKeys fs gs
      → SameKeys (field k (object sub) fs) (field k (object sub') gs)
  hidden :
      {u v : Value} {fs gs : Fields}
      → SameKeys fs gs
      → SameKeys (field "_sd" u fs) (field "_sd" v gs)

populate-leaf :
    (k : String) (u : Value) (fs : Fields)
    → IsLeaf u
    → populate_claim_keys (field k u fs) ≡ (
        if str_eq k "_sd"
        then populate_claim_keys fs
        else field k (object end) (populate_claim_keys fs))
unfolding populate_claim_keys
populate-leaf k (object sub) fs h = elim h [ ]
populate-leaf k null fs h = refl
populate-leaf k (boolean b) fs h = refl
populate-leaf k (number n) fs h = refl
populate-leaf k (text s) fs h = refl
populate-leaf k (array xs) fs h = refl

populate_hidden :
    (u : Value) (fs : Fields) → populate_claim_keys (field "_sd" u fs) ≡ populate_claim_keys fs
unfolding populate_claim_keys
populate_hidden (object sub) fs = refl
populate_hidden null fs = refl
populate_hidden (boolean b) fs = refl
populate_hidden (number n) fs = refl
populate_hidden (text s) fs = refl
populate_hidden (array xs) fs = refl

populate-nested :
    (k : String) (sub fs : Fields)
    → populate_claim_keys (field k (object sub) fs) ≡ (
        if str_eq k "_sd"
        then populate_claim_keys fs
        else field k (object (populate_claim_keys sub)) (populate_claim_keys fs))
unfolding populate_claim_keys
populate-nested k sub fs = refl

populate-SameKeys :
    {fs gs : Fields} → SameKeys fs gs → populate_claim_keys fs ≡ populate_claim_keys gs
populate-SameKeys no_keys = refl
populate-SameKeys (leaf {k} {u} {v} {fs} {gs} h h' r) =
    rw (populate-leaf k u fs h, populate-leaf k v gs h', populate-SameKeys r)
populate-SameKeys (nested {k} {sub} {sub'} {fs} {gs} r r') =
    rw (
      populate-nested k sub fs,
      populate-nested k sub' gs,
      populate-SameKeys r,
      populate-SameKeys r',
    )
populate-SameKeys (hidden {u} {v} {fs} {gs} r) =
    populate_hidden u fs ∙ populate-SameKeys r ∙ sym (populate_hidden v gs)

shown_lem :
    (d : Disclosure) (c : Credential) (s : VpSession) (p : Presentation) (vc : Credential)
    (vcs : List Credential) (subject : Value) (rest : List Value)
    → d.create_vp s.request_object.presentation_definition c ≡ ok p
    → p.credentials ≡ vc ∷ vcs
    → vc.subjects ≡ subject ∷ rest
    → presented_claims d c s ≡ done (object (populate_claim_keys (d.fields_of subject))) s
unfolding presented_claims ◌>>=◌ lift deref first_credential claims_of_subject copy_json_keys_only
shown_lem d c s p vc vcs subject rest made has first = rw (made, has, first)

-- The claims that are shown before a credential is presented say nothing of the values in it: for two
-- credentials whose presentations hold subjects with the same names at the same places, the result is
-- the same whatever the values are, and whatever stands under "_sd".
pub presented_claims-SameKeys :
    (d : Disclosure) (c c' : Credential) (s : VpSession) (p p' : Presentation) (vc vc' : Credential)
    (vcs vcs' : List Credential) (subject subject' : Value) (rest rest' : List Value)
    → d.create_vp s.request_object.presentation_definition c ≡ ok p
    → d.create_vp s.request_object.presentation_definition c' ≡ ok p'
    → p.credentials ≡ vc ∷ vcs
    → p'.credentials ≡ vc' ∷ vcs'
    → vc.subjects ≡ subject ∷ rest
    → vc'.subjects ≡ subject' ∷ rest'
    → SameKeys (d.fields_of subject) (d.fields_of subject')
    → presented_claims d c s ≡ presented_claims d c' s
presented_claims-SameKeys d c c' s p p' vc vc' vcs vcs' subject subject' rest rest' made made' has
      has' first first' same =
    shown_lem d c s p vc vcs subject rest made has first
    ∙ ap (λ fs. done (object fs) s) (populate-SameKeys same)
    ∙ sym (shown_lem d c' s p' vc' vcs' subject' rest' made' has' first')
