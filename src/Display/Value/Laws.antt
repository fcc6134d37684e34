-- ===== src/Display/Value/Laws.antt =====
-- Which value is found for a claim, and what a mask hides: pkg/credentialschema/credentialdisplay.go.
use Prim.Native.String.{◌++◌, len, slice}
use openvino_wallet.Base.{
  none, some, String, ℕ, lookup, ◌≤◌, ltb, ◌≡◌, false, arith, ◌-◌, ◌≢◌, contains_text, repeat,
}
use openvino_wallet.Base.Text.Laws.{replace_all-prefix}
use openvino_wallet.Base.Json.{Value, object, Fields, field, fields}
use openvino_wallet.Display.Value.{get_masked_value}
use openvino_wallet.Run.{◌>>◌, fail_with, done}
use openvino_wallet.Display.Model.{External}
use openvino_wallet.Http.{World}

pub ltb-false : (a b : ℕ) → b ≤ a → ltb a b ≡ false
ltb-false a b h = ground arith

-- The rest of a masked value that begins with what the mask's expression finds, and contains it nowhere
-- else, is kept, and each byte of the beginning becomes one copy of the masking text. The mask has at
-- least seven bytes and its expression compiles.
pub get_masked_value-hides :
    (ext : External) (part rest mask masking : String) (w : World)
    → 7 ≤ len mask
    → ext.compile_error (slice mask 6 (len mask - 1)) ≡ none
    → ext.first_submatch (slice mask 6 (len mask - 1)) (part ++ rest) ≡ part
    → part ≢ ""
    → contains_text rest part ≡ false
    → get_masked_value ext (part ++ rest) mask masking w
      ≡ done (repeat masking (len part) ++ rest) w
unfolding get_masked_value ◌>>◌ fail_with
get_masked_value-hides ext part rest mask masking w long compiles finds some_part once = rw (
  ltb-false (len mask) 7 long,
  compiles,
  finds,
  replace_all-prefix part rest (repeat masking (len part)) some_part once,
)

-- `v` is the value of a field `name`, at some depth of nested objects.
pub data Occurs (name : String) (v : Value) : Fields → Type 0 where
  at_top : {fs : Fields} → lookup name (fields fs) ≡ some v → Occurs name v fs
  within :
      {k : String} {sub rest : Fields}
      → Occurs name v sub
      → Occurs name v (field k (object sub) rest)
  later :
      {k : String} {u : Value} {rest : Fields} → Occurs name v rest → Occurs name v (field k u rest)
