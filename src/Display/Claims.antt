-- ===== src/Display/Claims.antt =====
-- One claim, in one language or in all: `resolveClaim`, `resolveClaims`, their `AllLocale` forms, and
-- `haveMatchingTypes` of pkg/credentialschema/credentialdisplay.go. `errNoClaimDisplays` and
-- `errClaimValueNotFoundInVC` are error variables that are never set, so that a claim with neither
-- displays nor a value is skipped without an error.
pub mod Laws
pub mod Shown
pub mod Panics
use Prim.Native.String.{◌++◌}
use openvino_wallet.Base.{
  ℕ, String, Bool, true, false, not, ◌&&◌, ◌||◌, Option, none, some, List, [], ◌∷◌, map,
  if◌then◌else◌, is_empty, starts_with, str_eq,
}
use openvino_wallet.Base.Json.{Value, null, object, Fields}
use openvino_wallet.Errors.{plain}
use openvino_wallet.Run.{Result, ok, err, M, ◌>>=◌, ◌>>◌, give, throw, deref, lift}
use openvino_wallet.Http.{World}
use openvino_wallet.IssuerMetadata.{
  CredentialConfigurationSupported, CredentialDefinition, Claim, LocalizedClaimDisplay,
  claim_order_as_int,
}
use openvino_wallet.Display.Model.{
  VerifiableCredential, VerifiableSubject, Attachment, ResolvedClaim, Label, Subject, External,
}
use openvino_wallet.Display.Locale.{get_localized_label}
use openvino_wallet.Display.Value.{get_matching_claim_value, get_masked_value, subject_prefix}

abbrev pub empty_attachment : Attachment
empty_attachment = record {
  id = "";
  type = [];
  mime_type = "";
  description = "";
  uri = "";
  hash = "";
  hash_alg = "";
}

-- The attachment of a map, which goes through its JSON. An error of `json.Marshal` is only printed.
unfoldable pub attachment_of : External → Fields → Option Attachment
attachment_of ext fs = elim (ext.marshal fs) [
  | ok json ↦ ext.unmarshal_attachment json
  | err e ↦ ext.unmarshal_attachment ""
]

unfoldable pub unsupported_attachment : External → Value → Result (Option Attachment)
unsupported_attachment ext v =
    err (plain ("unsupported attachment value '" ++ (ext.print v ++ "'")))

unfoldable pub attachment_value : External → Value → Result (Option Attachment)
unfolding attachment_of unsupported_attachment
attachment_value ext (object fs) = ok (attachment_of ext fs)
attachment_value ext v = unsupported_attachment ext v

unfoldable pub claim_attachment : External → Claim → Value → Result (Option Attachment)
unfolding attachment_value
claim_attachment ext claim v =
    if str_eq claim.value_type "attachment" then attachment_value ext v else ok none

unfoldable pub claim_mask : External → Claim → String → String → M World (Option String)
unfolding ◌>>=◌
claim_mask ext claim masking raw =
    if is_empty claim.mask
    then give none
    else get_masked_value ext raw claim.mask masking >>= λ masked. give (some masked)

abbrev pub as_order : Result ℕ → Option ℕ
as_order (ok i) = some i
as_order (err e) = none

abbrev pub is_nil : Value → Bool
is_nil null = true
is_nil v = false

-- What a claim is resolved against.
pub record Resolving : Type 0 where
  pub vc : VerifiableCredential
  pub subject : VerifiableSubject
  pub config : CredentialConfigurationSupported
  pub masking_string : String

-- The rest of `resolveClaim`, from the value on.
unfoldable pub resolve_value :
    External → Resolving → String → Claim → String × String → Value → M World (Option ResolvedClaim)
unfolding claim_attachment claim_mask claim_order_as_int
resolve_value ext r name claim label v = do
  attachment ← lift (claim_attachment ext claim v)
  value ← claim_mask ext claim r.masking_string (ext.print v)
  give (
      some (record {
        raw_id = name;
        label = label.0;
        value_type = claim.value_type;
        raw_value = ext.print v;
        value = value;
        order = as_order (claim_order_as_int r.config name);
        pattern = claim.pattern;
        mask = claim.mask;
        locale = label.1;
        attachment = attachment;
      }))

abbrev pub found_value : {A : Type 0} → Value → M World (Option A) → M World (Option A)
found_value v found = if is_nil v then give none else found

abbrev pub with_displays :
    {A : Type 0} → List LocalizedClaimDisplay → M World (Option A) → M World (Option A)
with_displays [] found = give none
with_displays (d ∷ ds) found = found

unfoldable pub resolve_there :
    External → Resolving → String → String → Claim → M World (Option ResolvedClaim)
unfolding ◌>>=◌ get_localized_label get_matching_claim_value resolve_value
resolve_there ext r preferred name claim = with_displays claim.localized_claim_displays (
    get_localized_label ext preferred claim >>= λ label.
    let v = get_matching_claim_value ext r.vc r.subject name in
    found_value v (resolve_value ext r name claim label v))

-- The claim is a pointer, whose displays are read first.
unfoldable pub resolve_claim :
    External → Resolving → String → String → Option Claim → M World (Option ResolvedClaim)
unfolding ◌>>=◌ resolve_there
resolve_claim ext r preferred name pointer = do
  claim ← deref pointer
  resolve_there ext r preferred name claim

unfoldable pub localized_labels : List LocalizedClaimDisplay → List Label
localized_labels ds = map (λ d. record { name = d.name; locale = d.locale }) ds

unfoldable pub resolve_value_all_locale :
    External → Resolving → String → Claim → Value → M World (Option Subject)
unfolding claim_attachment claim_mask claim_order_as_int localized_labels
resolve_value_all_locale ext r name claim v = do
  attachment ← lift (claim_attachment ext claim v)
  value ← claim_mask ext claim r.masking_string (ext.print v)
  give (
      some (record {
        raw_id = name;
        localized_labels = localized_labels claim.localized_claim_displays;
        value_type = claim.value_type;
        raw_value = ext.print v;
        value = value;
        order = as_order (claim_order_as_int r.config name);
        pattern = claim.pattern;
        mask = claim.mask;
        attachment = attachment;
      }))

unfoldable pub resolve_there_all_locale :
    External → Resolving → String → Claim → M World (Option Subject)
unfolding get_matching_claim_value resolve_value_all_locale
resolve_there_all_locale ext r name claim = with_displays claim.localized_claim_displays (
    let v = get_matching_claim_value ext r.vc r.subject name in
    found_value v (resolve_value_all_locale ext r name claim v))

unfoldable pub resolve_claim_all_locale :
    External → Resolving → String → Option Claim → M World (Option Subject)
unfolding ◌>>=◌ resolve_there_all_locale
resolve_claim_all_locale ext r name pointer = do
  claim ← deref pointer
  resolve_there_all_locale ext r name claim

abbrev pub add_if {ℓ} : {A : Type ℓ} → Option A → List A → List A
add_if none xs = xs
add_if (some x) xs = x ∷ xs

-- The loop over the claims of a definition, by the function that resolves one of them.
unfoldable pub resolve_each :
    {A : Type 0}
    → (String → Option Claim → M World (Option A))
    → List (String × Option Claim)
    → M World (List A)
unfolding ◌>>=◌
resolve_each resolve [] = give []
resolve_each resolve ((name, claim) ∷ rest) = do
  resolved ← resolve name claim
  others ← resolve_each resolve rest
  give (add_if resolved others)

unfoldable pub resolve_claims : External → Resolving → String → M World (List ResolvedClaim)
unfolding ◌>>=◌ resolve_each resolve_claim
resolve_claims ext r preferred = do
  definition ← deref r.config.credential_definition
  resolve_each (resolve_claim ext r preferred) definition.credential_subject

-- A claim on the credential that is not one on its subject, such as a date of issue.
abbrev pub is_non_claim_data : String → Bool
is_non_claim_data name = starts_with name "$." && not (starts_with name subject_prefix)

unfoldable pub resolve_unless_skipped :
    External → Resolving → Bool → String → Option Claim → M World (Option Subject)
unfolding resolve_claim_all_locale
resolve_unless_skipped ext r skip name claim =
    if skip && is_non_claim_data name then give none else resolve_claim_all_locale ext r name claim

unfoldable pub resolve_claims_all_locale : External → Resolving → Bool → M World (List Subject)
unfolding ◌>>=◌ resolve_each resolve_unless_skipped
resolve_claims_all_locale ext r skip = do
  definition ← deref r.config.credential_definition
  resolve_each (resolve_unless_skipped ext r skip) definition.credential_subject
