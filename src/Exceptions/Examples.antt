-- ===== src/Exceptions/Examples.antt =====
-- Functions that fail at first.
use rclabs_api.Prelude.{ℕ, ◌==◌, refl, String, if◌then◌else◌}
use rclabs_api.Errors.{network_error, internal_error}
use rclabs_api.Database.{EtlException, etl}
use rclabs_api.Exceptions.{Result, returned, threw, RetryPolicy, is_transient, execute_with_retry}
use rclabs_api.Exceptions.Retrying.{Ends, execute_with_retry-Ends}

abbrev network_down : EtlException
network_down = record { code = network_error; message = "down" }

-- The default policy.
abbrev three_times : RetryPolicy
three_times = record {
  max_attempts = 3;
  initial_delay = 100;
  multiplier = record { num = 2; den = 1 };
  max_delay = 5000;
  should_retry = λ x. is_transient x.code;
}

abbrev second_time : ℕ → Result ℕ
second_time attempt = if attempt == 1 then threw (etl network_down) else returned attempt

execute_with_retry-Ends_example :
    Ends three_times second_time 1 0 3 (execute_with_retry three_times second_time)
execute_with_retry-Ends_example = execute_with_retry-Ends three_times second_time 2 refl

abbrev converted : String → EtlException
converted message = record { code = internal_error; message = message }
