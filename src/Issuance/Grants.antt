-- ===== src/Issuance/Grants.antt =====
-- pkg/openid4ci/grants.go: the grants of a credential offer. An untyped map is an association list.
pub mod Laws
use openvino_wallet.Base.{
  ℕ, String, Bool, Option, none, some, List, lookup, is_some, not, ◌&&◌, if◌then◌else◌,
}
use openvino_wallet.Base.Json.{Value, ℤ, pos, as_string, as_int, as_object}
use openvino_wallet.Errors.{plain}
use openvino_wallet.Run.{Result, ok, err}
use openvino_wallet.Issuance.Model.{CredentialOffer}

pub record TxCode : Type 0 where
  pub input_mode : String
  pub length : ℤ
  pub description : String

pub record PreAuthorizedCodeGrantParams : Type 0 where
  pub pre_authorized_code : String
  pub tx_code : Option TxCode

pub record AuthorizationCodeGrantParams : Type 0 where
  pub issuer_state : Option String

pub record Grants : Type 0 where
  pub pre_authorized : Option PreAuthorizedCodeGrantParams
  pub authorization : Option AuthorizationCodeGrantParams

abbrev pub pre_authorized_grant_type : String
pre_authorized_grant_type = "urn:ietf:params:oauth:grant-type:pre-authorized_code"

abbrev pub authorization_code_grant_type : String
authorization_code_grant_type = "authorization_code"

abbrev RawParams : Type 0
RawParams = List (String × Value)

unfoldable pub pin_required : PreAuthorizedCodeGrantParams → Bool
pin_required p = is_some p.tx_code

-- `m[key].(T)` with its `ok` false on a missing key, and the zero value then.
abbrev read_or : {A : Type 0} → (Value → Option A) → A → Option Value → A
read_or cast zero none = zero
read_or cast zero (some v) = elim (cast v) [ none ↦ zero | some a ↦ a ]

tx_code_of : RawParams → TxCode
tx_code_of m = record {
  input_mode = read_or as_string "" (lookup "input_mode" m);
  length = read_or as_int (pos 0) (lookup "length" m);
  description = read_or as_string "" (lookup "description" m);
}

process_tx_code : Option Value → Result (Option TxCode)
unfolding tx_code_of
process_tx_code none = ok none
process_tx_code (some v) = elim (as_object v) [
  | none ↦ err (plain "tx_code is not a valid json object")
  | some m ↦ ok (some (tx_code_of m))
]

with_tx_code : String → Result (Option TxCode) → Result PreAuthorizedCodeGrantParams
with_tx_code code (err e) = err e
with_tx_code code (ok tx) = ok (record { pre_authorized_code = code; tx_code = tx })

unfoldable pub process_pre_authorized_code_grant_params :
    RawParams → Result PreAuthorizedCodeGrantParams
unfolding process_tx_code with_tx_code
process_pre_authorized_code_grant_params raw = elim (lookup "pre-authorized_code" raw) [
  | none ↦ err (plain "pre-authorized_code field value is missing")
  | some v ↦ elim (as_string v) [
    | none ↦ err (plain "pre-authorized_code field value is not a bool")
    | some code ↦ with_tx_code code (process_tx_code (lookup "tx_code" raw))
  ]
]

unfoldable pub process_authorization_code_grant_params :
    RawParams → Result AuthorizationCodeGrantParams
process_authorization_code_grant_params raw = elim (lookup "issuer_state" raw) [
  | none ↦ ok (record { issuer_state = none })
  | some v ↦ elim (as_string v) [
    | none ↦ err (plain "user-pin-required field value is not a bool")
    | some state ↦ ok (record { issuer_state = some state })
  ]
]

-- `if exists { params, err = process(raw) }`.
process_if_present : {A : Type 0} → (RawParams → Result A) → Option RawParams → Result (Option A)
process_if_present process none = ok none
process_if_present process (some raw) = elim (process raw) [ err e ↦ err e | ok p ↦ ok (some p) ]

both_grants :
    Result (Option PreAuthorizedCodeGrantParams)
    → Result (Option AuthorizationCodeGrantParams)
    → Result Grants
both_grants (err e) _ = err e
both_grants (ok p) (err e) = err e
both_grants (ok p) (ok a) = ok (record { pre_authorized = p; authorization = a })

unfoldable pub determine_issuer_grant_capabilities : CredentialOffer → Result Grants
unfolding process_if_present both_grants
determine_issuer_grant_capabilities offer =
    let pre_authorized = lookup pre_authorized_grant_type offer.grants in
    let authorization = lookup authorization_code_grant_type offer.grants in
    if not (is_some pre_authorized) && not (is_some authorization)
    then err (plain "no supported grant types found")
    else both_grants (process_if_present process_pre_authorized_code_grant_params pre_authorized)
        (process_if_present process_authorization_code_grant_params authorization)
