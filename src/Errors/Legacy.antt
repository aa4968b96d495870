-- ===== src/Errors/Legacy.antt =====
-- The `migration` namespace of src/error_codes.cpp. The legacy enumeration repeats names of the
-- new one, so a legacy code is written behind its type where both are in scope.
use rclabs_api.Prelude.{ℕ}
use rclabs_api.Errors.{ErrorCode}

pub data LegacyErrorCode : Type 0 where
  invalid_input missing_required_field invalid_format value_out_of_range : LegacyErrorCode
  invalid_type invalid_credentials token_expired token_invalid : LegacyErrorCode
  insufficient_permissions account_locked connection_failed query_failed : LegacyErrorCode
  transaction_failed deadlock_detected constraint_violation : LegacyErrorCode
  connection_timeout request_timeout connection_refused invalid_response : LegacyErrorCode
  rate_limit_exceeded service_unavailable job_execution_failed : LegacyErrorCode
  data_transformation_error extract_failed load_failed job_not_found : LegacyErrorCode
  job_already_running config_not_found config_parse_error : LegacyErrorCode
  invalid_config_value missing_config_section out_of_memory file_not_found : LegacyErrorCode
  permission_denied disk_full resource_exhausted internal_error : LegacyErrorCode
  service_startup_failed component_unavailable thread_pool_exhausted : LegacyErrorCode
  unknown_error : LegacyErrorCode

-- `static_cast<int>(legacyCode)`
unfoldable pub legacy_to_int : LegacyErrorCode → ℕ
legacy_to_int invalid_input = 1000
legacy_to_int missing_required_field = 1001
legacy_to_int invalid_format = 1002
legacy_to_int value_out_of_range = 1003
legacy_to_int invalid_type = 1004
legacy_to_int invalid_credentials = 2000
legacy_to_int token_expired = 2001
legacy_to_int token_invalid = 2002
legacy_to_int insufficient_permissions = 2003
legacy_to_int account_locked = 2004
legacy_to_int connection_failed = 3000
legacy_to_int query_failed = 3001
legacy_to_int transaction_failed = 3002
legacy_to_int deadlock_detected = 3003
legacy_to_int constraint_violation = 3004
legacy_to_int connection_timeout = 3005
legacy_to_int request_timeout = 4000
legacy_to_int connection_refused = 4001
legacy_to_int invalid_response = 4002
legacy_to_int rate_limit_exceeded = 4003
legacy_to_int service_unavailable = 4004
legacy_to_int job_execution_failed = 5000
legacy_to_int data_transformation_error = 5001
legacy_to_int extract_failed = 5002
legacy_to_int load_failed = 5003
legacy_to_int job_not_found = 5004
legacy_to_int job_already_running = 5005
legacy_to_int config_not_found = 6000
legacy_to_int config_parse_error = 6001
legacy_to_int invalid_config_value = 6002
legacy_to_int missing_config_section = 6003
legacy_to_int out_of_memory = 7000
legacy_to_int file_not_found = 7001
legacy_to_int permission_denied = 7002
legacy_to_int disk_full = 7003
legacy_to_int resource_exhausted = 7004
legacy_to_int internal_error = 8000
legacy_to_int service_startup_failed = 8001
legacy_to_int component_unavailable = 8002
legacy_to_int thread_pool_exhausted = 8003
legacy_to_int unknown_error = 9000

unfoldable pub migrate_legacy_error_code : LegacyErrorCode → ErrorCode
migrate_legacy_error_code invalid_input = ErrorCode.invalid_input
migrate_legacy_error_code missing_required_field = ErrorCode.missing_field
migrate_legacy_error_code invalid_format = ErrorCode.invalid_input
migrate_legacy_error_code value_out_of_range = ErrorCode.invalid_range
migrate_legacy_error_code invalid_type = ErrorCode.invalid_input
migrate_legacy_error_code invalid_credentials = ErrorCode.unauthorized
migrate_legacy_error_code token_expired = ErrorCode.token_expired
migrate_legacy_error_code token_invalid = ErrorCode.unauthorized
migrate_legacy_error_code insufficient_permissions = ErrorCode.forbidden
migrate_legacy_error_code account_locked = ErrorCode.access_denied
migrate_legacy_error_code connection_failed = ErrorCode.database_error
migrate_legacy_error_code query_failed = ErrorCode.database_error
migrate_legacy_error_code transaction_failed = ErrorCode.database_error
migrate_legacy_error_code deadlock_detected = ErrorCode.database_error
migrate_legacy_error_code constraint_violation = ErrorCode.constraint_violation
migrate_legacy_error_code connection_timeout = ErrorCode.database_error
migrate_legacy_error_code request_timeout = ErrorCode.network_error
migrate_legacy_error_code connection_refused = ErrorCode.network_error
migrate_legacy_error_code invalid_response = ErrorCode.network_error
migrate_legacy_error_code rate_limit_exceeded = ErrorCode.rate_limit_exceeded
migrate_legacy_error_code service_unavailable = ErrorCode.network_error
migrate_legacy_error_code job_execution_failed = ErrorCode.processing_failed
migrate_legacy_error_code data_transformation_error = ErrorCode.transformation_error
migrate_legacy_error_code extract_failed = ErrorCode.processing_failed
migrate_legacy_error_code load_failed = ErrorCode.processing_failed
migrate_legacy_error_code job_not_found = ErrorCode.job_not_found
migrate_legacy_error_code job_already_running = ErrorCode.job_already_running
migrate_legacy_error_code config_not_found = ErrorCode.configuration_error
migrate_legacy_error_code config_parse_error = ErrorCode.configuration_error
migrate_legacy_error_code invalid_config_value = ErrorCode.configuration_error
migrate_legacy_error_code missing_config_section = ErrorCode.configuration_error
migrate_legacy_error_code out_of_memory = ErrorCode.memory_error
migrate_legacy_error_code file_not_found = ErrorCode.file_error
migrate_legacy_error_code permission_denied = ErrorCode.file_error
migrate_legacy_error_code disk_full = ErrorCode.disk_full
migrate_legacy_error_code resource_exhausted = ErrorCode.memory_error
migrate_legacy_error_code internal_error = ErrorCode.internal_error
migrate_legacy_error_code service_startup_failed = ErrorCode.service_startup_failed
migrate_legacy_error_code component_unavailable = ErrorCode.component_unavailable
migrate_legacy_error_code thread_pool_exhausted = ErrorCode.thread_pool_exhausted
migrate_legacy_error_code unknown_error = ErrorCode.internal_error
