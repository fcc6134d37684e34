-- ===== src/Presentation/Claims.antt =====
-- The names of the claims that a presentation would disclose: `PresentedClaims`, `copyJSONKeysOnly` and
-- `populateClaimKeys` of pkg/openid4vp/openid4vp.go. Creating the presentation, with its own options,
-- and the custom fields of a subject are vc-go's. An `emptyObj` is an object with no fields.
pub mod Laws
use openvino_wallet.Base.{String, Bool, Option, none, some, List, [], ◌∷◌, if◌then◌else◌, str_eq}
use openvino_wallet.Base.Json.{
  Value, null, boolean, number, text, array, object, Items, nil, cons, Fields, end, field,
}
use openvino_wallet.Errors.{plain}
use openvino_wallet.Run.{M, ◌>>=◌, give, throw, lift, deref, Result}
use openvino_wallet.Presentation.Model.{
  VpSession, RequestObject, PresentationDefinition, Credential, Presentation,
}

abbrev pub sd_key : String
sd_key = "_sd"

unfoldable pub populate_claim_keys : Fields → Fields
populate_claim_keys end = end
populate_claim_keys (field k (object sub) rest) =
    let keys = populate_claim_keys sub in
    let others = populate_claim_keys rest in
    if str_eq k sd_key then others else field k (object keys) others
populate_claim_keys (field k v rest) =
    let others = populate_claim_keys rest in
    if str_eq k sd_key then others else field k (object end) others

-- The cases of the type switch but for `verifiable.CustomFields`.
unfoldable mutual
  pub copy_value : Value → Value
  copy_value (object fs) = object (copy_fields fs)
  copy_value (array xs) = array (copy_items xs)
  copy_value null = object end
  copy_value (boolean b) = object end
  copy_value (number n) = object end
  copy_value (text s) = object end

  pub copy_items : Items → Items
  copy_items nil = nil
  copy_items (cons x xs) = cons (copy_value x) (copy_items xs)

  pub copy_fields : Fields → Fields
  copy_fields end = end
  copy_fields (field k v rest) = field k (copy_value v) (copy_fields rest)

-- A value by its dynamic type.
pub data JsonObject : Type 0 where
  custom_fields : Fields → JsonObject
  other_value : Value → JsonObject

unfoldable pub copy_json_keys_only : JsonObject → Value
unfolding populate_claim_keys copy_value
copy_json_keys_only (custom_fields fs) = object (populate_claim_keys fs)
copy_json_keys_only (other_value v) = copy_value v

pub record Disclosure : Type 0 where
  pub create_vp : Option PresentationDefinition → Credential → Result Presentation
  pub fields_of : Value → Fields

first_credential : {A : Type 0} → List A → Option A
first_credential [] = none
first_credential (c ∷ cs) = some c

claims_of_subject : Disclosure → List Value → M VpSession Value
unfolding copy_json_keys_only
claims_of_subject d [] = throw (plain "no subject in presentation VC")
claims_of_subject d (s ∷ ss) = give (copy_json_keys_only (custom_fields (d.fields_of s)))

unfoldable pub presented_claims : Disclosure → Credential → M VpSession Value
unfolding ◌>>=◌ lift deref first_credential claims_of_subject copy_json_keys_only
presented_claims d credential s =
    (do
      presentation ← lift (d.create_vp s.request_object.presentation_definition credential)
      vc ← deref (first_credential presentation.credentials)
      claims_of_subject d vc.subjects)
      s
