-- ===== src/Errors.antt =====
-- The error codes of include/error_codes.hpp and src/error_codes.cpp: the consolidated codes, the
-- table of what is known of each, and the migration of the legacy codes.
pub mod Legacy
pub mod Table
mod Examples
use rclabs_api.Prelude.{ℕ, String, Bool, true, false, Option, none, some}

pub data ErrorCode : Type 0 where
  invalid_input missing_field invalid_range constraint_violation unauthorized : ErrorCode
  forbidden token_expired access_denied database_error network_error : ErrorCode
  file_error memory_error configuration_error lock_timeout : ErrorCode
  rate_limit_exceeded disk_full thread_pool_exhausted service_startup_failed : ErrorCode
  component_unavailable internal_error invalid_connection pool_not_running : ErrorCode
  pool_capacity_exceeded job_not_found job_already_running invalid_job_state : ErrorCode
  processing_failed transformation_error data_integrity_error : ErrorCode

-- `static_cast<int>(code)`
pub to_int : ErrorCode → ℕ
to_int invalid_input = 1000
to_int missing_field = 1001
to_int invalid_range = 1002
to_int constraint_violation = 1003
to_int unauthorized = 2000
to_int forbidden = 2001
to_int token_expired = 2002
to_int access_denied = 2003
to_int database_error = 3000
to_int network_error = 3001
to_int file_error = 3002
to_int memory_error = 3003
to_int configuration_error = 3004
to_int lock_timeout = 3005
to_int rate_limit_exceeded = 3006
to_int disk_full = 3007
to_int thread_pool_exhausted = 3008
to_int service_startup_failed = 3009
to_int component_unavailable = 3010
to_int internal_error = 3011
to_int invalid_connection = 3012
to_int pool_not_running = 3013
to_int pool_capacity_exceeded = 3014
to_int job_not_found = 4000
to_int job_already_running = 4001
to_int invalid_job_state = 4002
to_int processing_failed = 4003
to_int transformation_error = 4004
to_int data_integrity_error = 4005

pub record ErrorCodeInfo : Type 0 where
  pub description : String
  pub category : String
  pub is_retryable : Bool
  pub default_http_status : ℕ

abbrev entry : String → String → Bool → ℕ → Option ErrorCodeInfo
entry d c r s =
    some (record { description = d; category = c; is_retryable = r; default_http_status = s })

-- `getErrorCodeInfo().find(code)`: `none` where the map has no entry.
pub get_error_code_info : ErrorCode → Option ErrorCodeInfo
get_error_code_info invalid_input = entry "Invalid input data or format" "Validation" false 400
get_error_code_info missing_field = entry "Required field is missing" "Validation" false 400
get_error_code_info invalid_range = entry "Value is outside acceptable range" "Validation" false 400
get_error_code_info constraint_violation =
    entry "Data violates business or database constraints" "Validation" false 409
get_error_code_info unauthorized =
    entry "Authentication required or credentials invalid" "Authentication" false 401
get_error_code_info forbidden =
    entry "Access forbidden - insufficient permissions" "Authorization" false 403
get_error_code_info token_expired =
    entry "Authentication token has expired" "Authentication" false 401
get_error_code_info access_denied =
    entry "Access denied to requested resource" "Authorization" false 403
get_error_code_info database_error = entry "Database operation failed" "System" true 500
get_error_code_info network_error = entry "Network communication failed" "System" true 502
get_error_code_info file_error = entry "File system operation failed" "System" true 500
get_error_code_info memory_error =
    entry "Memory allocation or resource exhaustion" "System" true 503
get_error_code_info configuration_error =
    entry "Configuration loading or parsing failed" "System" false 500
get_error_code_info lock_timeout = entry "Lock acquisition timeout" "System" true 503
get_error_code_info rate_limit_exceeded = entry "Request rate limit exceeded" "System" true 429
get_error_code_info disk_full = entry "Disk space exhausted" "System" false 507
get_error_code_info thread_pool_exhausted = entry "Thread pool capacity exceeded" "System" true 503
get_error_code_info service_startup_failed =
    entry "Service initialization failed" "System" false 500
get_error_code_info component_unavailable =
    entry "Required component is unavailable" "System" true 503
get_error_code_info internal_error = entry "Unexpected internal error" "System" false 500
get_error_code_info invalid_connection = none
get_error_code_info pool_not_running = none
get_error_code_info pool_capacity_exceeded = none
get_error_code_info job_not_found = entry "Requested job does not exist" "Business" false 404
get_error_code_info job_already_running =
    entry "Job is already in running state" "Business" false 409
get_error_code_info invalid_job_state =
    entry "Job is in invalid state for requested operation" "Business" false 409
get_error_code_info processing_failed = entry "Data processing operation failed" "Business" true 500
get_error_code_info transformation_error = entry "Data transformation failed" "Business" false 422
get_error_code_info data_integrity_error =
    entry "Data integrity validation failed" "Business" false 422

pub get_error_code_description : ErrorCode → String
unfolding get_error_code_info
get_error_code_description code = elim (get_error_code_info code) [
  | some i ↦ i.description
  | none ↦ "Unknown error"
]

pub get_error_category : ErrorCode → String
unfolding get_error_code_info
get_error_category code = elim (get_error_code_info code) [ some i ↦ i.category | none ↦ "Unknown" ]

pub is_retryable_error : ErrorCode → Bool
unfolding get_error_code_info
is_retryable_error code = elim (get_error_code_info code) [ some i ↦ i.is_retryable | none ↦ false ]

pub get_default_http_status : ErrorCode → ℕ
unfolding get_error_code_info
get_default_http_status code = elim (get_error_code_info code) [
  | some i ↦ i.default_http_status
  | none ↦ 500
]

pub error_code_to_string : ErrorCode → String
error_code_to_string invalid_input = "INVALID_INPUT"
error_code_to_string missing_field = "MISSING_FIELD"
error_code_to_string invalid_range = "INVALID_RANGE"
error_code_to_string constraint_violation = "CONSTRAINT_VIOLATION"
error_code_to_string unauthorized = "UNAUTHORIZED"
error_code_to_string forbidden = "FORBIDDEN"
error_code_to_string token_expired = "TOKEN_EXPIRED"
error_code_to_string access_denied = "ACCESS_DENIED"
error_code_to_string database_error = "DATABASE_ERROR"
error_code_to_string network_error = "NETWORK_ERROR"
error_code_to_string file_error = "FILE_ERROR"
error_code_to_string memory_error = "MEMORY_ERROR"
error_code_to_string configuration_error = "CONFIGURATION_ERROR"
error_code_to_string lock_timeout = "LOCK_TIMEOUT"
error_code_to_string rate_limit_exceeded = "RATE_LIMIT_EXCEEDED"
error_code_to_string disk_full = "DISK_FULL"
error_code_to_string thread_pool_exhausted = "THREAD_POOL_EXHAUSTED"
error_code_to_string service_startup_failed = "SERVICE_STARTUP_FAILED"
error_code_to_string component_unavailable = "COMPONENT_UNAVAILABLE"
error_code_to_string internal_error = "INTERNAL_ERROR"
error_code_to_string invalid_connection = "INVALID_CONNECTION"
error_code_to_string pool_not_running = "POOL_NOT_RUNNING"
error_code_to_string pool_capacity_exceeded = "POOL_CAPACITY_EXCEEDED"
error_code_to_string job_not_found = "JOB_NOT_FOUND"
error_code_to_string job_already_running = "JOB_ALREADY_RUNNING"
error_code_to_string invalid_job_state = "INVALID_JOB_STATE"
error_code_to_string processing_failed = "PROCESSING_FAILED"
error_code_to_string transformation_error = "TRANSFORMATION_ERROR"
error_code_to_string data_integrity_error = "DATA_INTEGRITY_ERROR"
