-- ===== src/Errors.antt =====
-- pkg/walleterror/walleterror.go, and the other shapes of a Go `error` that the flows tell apart:
-- `errors.New` and `fmt.Errorf`, its `%w` form, and `InvalidProofError` of
-- pkg/openid4ci/models.go. An error keeps the text that its `Error()` prints.
use Prim.Native.String.{◌++◌}
use openvino_wallet.Base.{ℕ, String, Option, none, some, decimal, pad4}
use openvino_wallet.Base.Json.{ℤ}

pub record WalletError : Type 0 where
  pub code : String
  pub category : String
  pub message : String
  pub parent_error : String
  pub server_code : String
  pub server_message : String

pub data GoError : Type 0 where
  plain : String → GoError
  wrapped : String → GoError → GoError
  wallet : WalletError → GoError
  invalid_proof : WalletError → String → ℤ → GoError

-- `(*Error).Error`.
unfoldable pub wallet_error_text : WalletError → String
wallet_error_text e = e.category ++ ("(" ++ (e.code ++ ("):" ++ e.parent_error)))

-- `err.Error()`. A wrapped error is printed as `fmt.Errorf("prefix: %w", err)` prints it.
unfoldable pub error_text : GoError → String
unfolding wallet_error_text
error_text (plain s) = s
error_text (wrapped prefix e) = prefix ++ (": " ++ error_text e)
error_text (wallet e) = wallet_error_text e
error_text (invalid_proof e nonce expires) = wallet_error_text e

-- The kinds of `getErrorCode`.
pub data Kind : Type 0 where
  validation execution system incorrect_usage : Kind

abbrev pub kind_digit : Kind → ℕ
kind_digit validation = 0
kind_digit execution = 1
kind_digit system = 2
kind_digit incorrect_usage = 3

-- `fmt.Sprintf("%s%d-%04d", module, errType, code)`.
unfoldable pub get_error_code : String → Kind → ℕ → String
unfolding decimal pad4
get_error_code name kind code = name ++ (decimal (kind_digit kind) ++ ("-" ++ pad4 code))

abbrev new_error : String → Kind → ℕ → String → GoError → WalletError
new_error name kind number category parent = record {
  code = get_error_code name kind number;
  category = category;
  message = "";
  parent_error = error_text parent;
  server_code = "";
  server_message = "";
}

unfoldable pub new_validation_error : String → ℕ → String → GoError → WalletError
new_validation_error name number category parent = new_error name validation number category parent

unfoldable pub new_execution_error : String → ℕ → String → GoError → WalletError
new_execution_error name number category cause = new_error name execution number category cause

-- `NewExecutionError` with the options `WithServerErrorCode` and `WithServerErrorMessage`.
unfoldable pub new_server_error : String → ℕ → String → GoError → String → String → WalletError
new_server_error name number category cause server_code server_message =
    record (new_execution_error name number category cause) {
      server_code = server_code;
      server_message = server_message;
    }

unfoldable pub new_execution_error_with_message :
    String → ℕ → String → String → GoError → WalletError
new_execution_error_with_message name number category message parent =
    record (new_error name execution number category parent) { message = message }

unfoldable pub new_invalid_sdk_usage_error : String → GoError → WalletError
new_invalid_sdk_usage_error name parent =
    new_error name incorrect_usage 0 "INVALID_SDK_USAGE" parent

-- The nonce that `errors.As(err, &proofError)` finds: it follows `Unwrap`, and a wallet error keeps
-- only the text of its cause.
unfoldable pub as_invalid_proof : GoError → Option String
as_invalid_proof (plain s) = none
as_invalid_proof (wrapped prefix e) = as_invalid_proof e
as_invalid_proof (wallet e) = none
as_invalid_proof (invalid_proof e nonce expires) = some nonce
