-- ===== src/Errors/Table.antt =====
-- The names that src/error_codes.cpp gives the error codes.
use rclabs_api.Prelude.{
  ℕ, ◌/◌, ◌≡◌, refl, String, str_eq, Bool, true, false, Option, none, some, leb, ◌==◌,
  if◌then◌else◌,
}
use rclabs_api.Errors.{ErrorCode, ErrorCodeInfo, to_int, get_error_code_info, error_code_to_string}
use rclabs_api.Errors.Legacy.{LegacyErrorCode, legacy_to_int, migrate_legacy_error_code}

-- The code of a name, read back.
code_of_name : String → Option ErrorCode
code_of_name s =
    if str_eq s "INVALID_INPUT"
    then some ErrorCode.invalid_input
    else if str_eq s "MISSING_FIELD"
    then some ErrorCode.missing_field
    else if str_eq s "INVALID_RANGE"
    then some ErrorCode.invalid_range
    else if str_eq s "CONSTRAINT_VIOLATION"
    then some ErrorCode.constraint_violation
    else if str_eq s "UNAUTHORIZED"
    then some ErrorCode.unauthorized
    else if str_eq s "FORBIDDEN"
    then some ErrorCode.forbidden
    else if str_eq s "TOKEN_EXPIRED"
    then some ErrorCode.token_expired
    else if str_eq s "ACCESS_DENIED"
    then some ErrorCode.access_denied
    else if str_eq s "DATABASE_ERROR"
    then some ErrorCode.database_error
    else if str_eq s "NETWORK_ERROR"
    then some ErrorCode.network_error
    else if str_eq s "FILE_ERROR"
    then some ErrorCode.file_error
    else if str_eq s "MEMORY_ERROR"
    then some ErrorCode.memory_error
    else if str_eq s "CONFIGURATION_ERROR"
    then some ErrorCode.configuration_error
    else if str_eq s "LOCK_TIMEOUT"
    then some ErrorCode.lock_timeout
    else if str_eq s "RATE_LIMIT_EXCEEDED"
    then some ErrorCode.rate_limit_exceeded
    else if str_eq s "DISK_FULL"
    then some ErrorCode.disk_full
    else if str_eq s "THREAD_POOL_EXHAUSTED"
    then some ErrorCode.thread_pool_exhausted
    else if str_eq s "SERVICE_STARTUP_FAILED"
    then some ErrorCode.service_startup_failed
    else if str_eq s "COMPONENT_UNAVAILABLE"
    then some ErrorCode.component_unavailable
    else if str_eq s "INTERNAL_ERROR"
    then some ErrorCode.internal_error
    else if str_eq s "INVALID_CONNECTION"
    then some ErrorCode.invalid_connection
    else if str_eq s "POOL_NOT_RUNNING"
    then some ErrorCode.pool_not_running
    else if str_eq s "POOL_CAPACITY_EXCEEDED"
    then some ErrorCode.pool_capacity_exceeded
    else if str_eq s "JOB_NOT_FOUND"
    then some ErrorCode.job_not_found
    else if str_eq s "JOB_ALREADY_RUNNING"
    then some ErrorCode.job_already_running
    else if str_eq s "INVALID_JOB_STATE"
    then some ErrorCode.invalid_job_state
    else if str_eq s "PROCESSING_FAILED"
    then some ErrorCode.processing_failed
    else if str_eq s "TRANSFORMATION_ERROR"
    then some ErrorCode.transformation_error
    else if str_eq s "DATA_INTEGRITY_ERROR"
    then some ErrorCode.data_integrity_error
    else none

of_name-to_string : (c : ErrorCode) → code_of_name (error_code_to_string c) ≡ some c
unfolding code_of_name error_code_to_string
of_name-to_string ErrorCode.invalid_input = refl
of_name-to_string ErrorCode.missing_field = refl
of_name-to_string ErrorCode.invalid_range = refl
of_name-to_string ErrorCode.constraint_violation = refl
of_name-to_string ErrorCode.unauthorized = refl
of_name-to_string ErrorCode.forbidden = refl
of_name-to_string ErrorCode.token_expired = refl
of_name-to_string ErrorCode.access_denied = refl
of_name-to_string ErrorCode.database_error = refl
of_name-to_string ErrorCode.network_error = refl
of_name-to_string ErrorCode.file_error = refl
of_name-to_string ErrorCode.memory_error = refl
of_name-to_string ErrorCode.configuration_error = refl
of_name-to_string ErrorCode.lock_timeout = refl
of_name-to_string ErrorCode.rate_limit_exceeded = refl
of_name-to_string ErrorCode.disk_full = refl
of_name-to_string ErrorCode.thread_pool_exhausted = refl
of_name-to_string ErrorCode.service_startup_failed = refl
of_name-to_string ErrorCode.component_unavailable = refl
of_name-to_string ErrorCode.internal_error = refl
of_name-to_string ErrorCode.invalid_connection = refl
of_name-to_string ErrorCode.pool_not_running = refl
of_name-to_string ErrorCode.pool_capacity_exceeded = refl
of_name-to_string ErrorCode.job_not_found = refl
of_name-to_string ErrorCode.job_already_running = refl
of_name-to_string ErrorCode.invalid_job_state = refl
of_name-to_string ErrorCode.processing_failed = refl
of_name-to_string ErrorCode.transformation_error = refl
of_name-to_string ErrorCode.data_integrity_error = refl

-- No two error codes print alike.
pub error_code_to_string_injective :
    (a b : ErrorCode) → error_code_to_string a ≡ error_code_to_string b → a ≡ b
error_code_to_string_injective a b e = cc (of_name-to_string a, of_name-to_string b)

-- Where the thousands of a legacy code lead; a legacy constraint violation is the exception.
abbrev pub band_after : LegacyErrorCode → ℕ
unfolding legacy_to_int
band_after LegacyErrorCode.constraint_violation = 1
band_after l = let n = legacy_to_int l / 1000 in if n == 5 then 4 else if leb 3 n then 3 else n

abbrev pub has_entry : Option ErrorCodeInfo → Bool
has_entry none = false
has_entry (some i) = true

-- A legacy code migrates into the range that its own range stands for (validation and
-- authentication to themselves, processing to business, all else to system, and the database's
-- constraint violation to validation), and to a code that the table knows.
pub migrate_in_band :
    (l : LegacyErrorCode)
    → (to_int (migrate_legacy_error_code l) / 1000 ≡ band_after l)
      × (has_entry (get_error_code_info (migrate_legacy_error_code l)) ≡ true)
unfolding legacy_to_int to_int migrate_legacy_error_code get_error_code_info
migrate_in_band LegacyErrorCode.invalid_input = (refl, refl)
migrate_in_band LegacyErrorCode.missing_required_field = (refl, refl)
migrate_in_band LegacyErrorCode.invalid_format = (refl, refl)
migrate_in_band LegacyErrorCode.value_out_of_range = (refl, refl)
migrate_in_band LegacyErrorCode.invalid_type = (refl, refl)
migrate_in_band LegacyErrorCode.invalid_credentials = (refl, refl)
migrate_in_band LegacyErrorCode.token_expired = (refl, refl)
migrate_in_band LegacyErrorCode.token_invalid = (refl, refl)
migrate_in_band LegacyErrorCode.insufficient_permissions = (refl, refl)
migrate_in_band LegacyErrorCode.account_locked = (refl, refl)
migrate_in_band LegacyErrorCode.connection_failed = (refl, refl)
migrate_in_band LegacyErrorCode.query_failed = (refl, refl)
migrate_in_band LegacyErrorCode.transaction_failed = (refl, refl)
migrate_in_band LegacyErrorCode.deadlock_detected = (refl, refl)
migrate_in_band LegacyErrorCode.constraint_violation = (refl, refl)
migrate_in_band LegacyErrorCode.connection_timeout = (refl, refl)
migrate_in_band LegacyErrorCode.request_timeout = (refl, refl)
migrate_in_band LegacyErrorCode.connection_refused = (refl, refl)
migrate_in_band LegacyErrorCode.invalid_response = (refl, refl)
migrate_in_band LegacyErrorCode.rate_limit_exceeded = (refl, refl)
migrate_in_band LegacyErrorCode.service_unavailable = (refl, refl)
migrate_in_band LegacyErrorCode.job_execution_failed = (refl, refl)
migrate_in_band LegacyErrorCode.data_transformation_error = (refl, refl)
migrate_in_band LegacyErrorCode.extract_failed = (refl, refl)
migrate_in_band LegacyErrorCode.load_failed = (refl, refl)
migrate_in_band LegacyErrorCode.job_not_found = (refl, refl)
migrate_in_band LegacyErrorCode.job_already_running = (refl, refl)
migrate_in_band LegacyErrorCode.config_not_found = (refl, refl)
migrate_in_band LegacyErrorCode.config_parse_error = (refl, refl)
migrate_in_band LegacyErrorCode.invalid_config_value = (refl, refl)
migrate_in_band LegacyErrorCode.missing_config_section = (refl, refl)
migrate_in_band LegacyErrorCode.out_of_memory = (refl, refl)
migrate_in_band LegacyErrorCode.file_not_found = (refl, refl)
migrate_in_band LegacyErrorCode.permission_denied = (refl, refl)
migrate_in_band LegacyErrorCode.disk_full = (refl, refl)
migrate_in_band LegacyErrorCode.resource_exhausted = (refl, refl)
migrate_in_band LegacyErrorCode.internal_error = (refl, refl)
migrate_in_band LegacyErrorCode.service_startup_failed = (refl, refl)
migrate_in_band LegacyErrorCode.component_unavailable = (refl, refl)
migrate_in_band LegacyErrorCode.thread_pool_exhausted = (refl, refl)
migrate_in_band LegacyErrorCode.unknown_error = (refl, refl)
