-- ===== src/Display/Value.antt =====
-- The value that is shown for a claim: `getMatchingClaimValue`, `getMaskedValue` and what they call,
-- in pkg/credentialschema/credentialdisplay.go. The nil interface value is `null`.
pub mod Laws
use openvino_wallet.Base.{
  ℕ, suc, ◌-◌, ◌≤◌, String, Bool, true, false, Option, none, some, lookup, if◌then◌else◌, is_empty,
  starts_with, ltb, replace_all, repeat,
}
use openvino_wallet.Base.Json.{Value, null, text, object, Fields, end, field, fields}
use openvino_wallet.Errors.{GoError, wrapped, plain}
use openvino_wallet.Run.{Result, ok, err, M, ◌>>=◌, ◌>>◌, give, panic, fail_with, throw}
use openvino_wallet.Http.{World}
use openvino_wallet.Display.Model.{VerifiableSubject, VerifiableCredential, External}
use Prim.Native.String.{len, slice}

abbrev pub value_or : Option Value → Value → Value
value_or (some v) other = v
value_or none other = other

-- The loop of `findMatchingClaimValueInMap`: it returns from within the first map that it meets.
unfoldable pub find_in_first_map : String → Fields → Value
find_in_first_map name end = null
find_in_first_map name (field k (object sub) rest) =
    value_or (lookup name (fields sub)) (find_in_first_map name sub)
find_in_first_map name (field k v rest) = find_in_first_map name rest

unfoldable pub find_matching_claim_value_in_map : Fields → String → Value
unfolding find_in_first_map
find_matching_claim_value_in_map claims name =
    value_or (lookup name (fields claims)) (find_in_first_map name claims)

unfoldable pub find_matching_claim_using_json_path : External → Fields → String → Value
find_matching_claim_using_json_path ext claims name = elim (ext.json_path name claims) [
  | ok v ↦ v
  | err e ↦ null
]

abbrev pub subject_prefix : String
subject_prefix = "$.credentialSubject."

abbrev pub subject_id : String → Value
subject_id id = if is_empty id then null else text id

unfoldable pub get_matching_claim_value :
    External → VerifiableCredential → VerifiableSubject → String → Value
unfolding find_matching_claim_value_in_map find_matching_claim_using_json_path replace_all
get_matching_claim_value ext vc subject name =
    if ext.equal_fold name "ID"
    then subject_id subject.id
    else if starts_with name subject_prefix
    then find_matching_claim_using_json_path ext subject.custom_fields
        (replace_all name subject_prefix "$.")
    else if starts_with name "$."
    then find_matching_claim_using_json_path ext vc.raw_json name
    else value_or (lookup name (fields subject.custom_fields))
        (find_matching_claim_value_in_map subject.custom_fields name)

-- What is to be masked, in the text that shows it.
abbrev pub mask_part : String → String → String → String
mask_part raw part masking = replace_all raw part (repeat masking (len part))

-- `getMaskedValue`. A slice of a mask of less than seven bytes is out of range; a longer one is cut
-- between characters, as it is where the mask has the form `regex(...)`.
unfoldable pub get_masked_value : External → String → String → String → M World String
unfolding ◌>>◌ fail_with replace_all repeat
get_masked_value ext raw mask masking =
    if ltb (len mask) 7
    then panic
    else (let regex = slice mask 6 (len mask - 1) in
        (fail_with (ext.compile_error regex)
          >> give (mask_part raw (ext.first_submatch regex raw) masking)))
