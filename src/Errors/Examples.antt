-- ===== src/Errors/Examples.antt =====
-- The tables of the error codes at single codes.
use rclabs_api.Prelude.{◌≡◌, refl}
use rclabs_api.Errors.{ErrorCode, get_error_code_description}

pool_not_running_has_no_text :
    get_error_code_description ErrorCode.pool_not_running ≡ "Unknown error"
unfolding get_error_code_description
pool_not_running_has_no_text = refl
