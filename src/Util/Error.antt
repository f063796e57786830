-- ===== src/Util/Error.antt =====
-- src/core/util/error.hpp, error.cpp and result.hpp: error codes, errors and `Result`.
use Prim.Native.String.{String}
use vaulkeeper.Prelude.{ℕ}

pub data ErrorCode : Type 0 where
  code_ok : ErrorCode
  unknown : ErrorCode
  invalid_argument : ErrorCode
  not_found : ErrorCode
  permission_denied : ErrorCode
  io_error : ErrorCode
  not_supported : ErrorCode
  already_exists : ErrorCode
  busy : ErrorCode
  cancelled : ErrorCode
  out_of_memory : ErrorCode
  timeout : ErrorCode
  unauthenticated : ErrorCode
  corrupted_data : ErrorCode
  version_mismatch : ErrorCode
  quota_exceeded : ErrorCode
  would_destroy_data : ErrorCode

-- `osCode` is only ever set from the operating system's last error, and is 0 in all that is modelled.
pub record Error : Type 0 where
  pub code : ErrorCode
  pub message : String
  pub hint : String
  pub os_code : ℕ

abbrev pub make_error : ErrorCode → String → Error
make_error code message = record { code = code; message = message; hint = ""; os_code = 0 }

-- `std::expected<T, Error>`.
pub data Result {ℓ} (T : Type ℓ) : Type ℓ where
  err : Error → Result T
  ok : T → Result T

abbrev pub fail {ℓ} : {T : Type ℓ} → ErrorCode → String → Result T
fail code message = err (make_error code message)

-- The early return of an error.
infixl 5 ◌>>=◌
abbrev pub ◌>>=◌ {ℓ κ} : {T : Type ℓ} {U : Type κ} → Result T → (T → Result U) → Result U
err problem >>= _ = err problem
ok value >>= next_step = next_step value

unfoldable pub to_string : ErrorCode → String
to_string code_ok = "ok"
to_string unknown = "unknown"
to_string invalid_argument = "invalid_argument"
to_string not_found = "not_found"
to_string permission_denied = "permission_denied"
to_string io_error = "io_error"
to_string not_supported = "not_supported"
to_string already_exists = "already_exists"
to_string busy = "busy"
to_string cancelled = "cancelled"
to_string out_of_memory = "out_of_memory"
to_string timeout = "timeout"
to_string unauthenticated = "unauthenticated"
to_string corrupted_data = "corrupted_data"
to_string version_mismatch = "version_mismatch"
to_string quota_exceeded = "quota_exceeded"
to_string would_destroy_data = "would_destroy_data"
