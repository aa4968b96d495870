-- ===== src/Breaker/Examples.antt =====
-- Runs of the breakers at concrete inputs, and the theorems applied there.
use rclabs_api.Prelude.{max, ◌≤◌, ◌<◌, ◌≡◌, refl, ◌⊎◌, false, true, [], ◌∷◌, arith}
use rclabs_api.Breaker.{
  Breaker, closed, opened, half_open, allows, successes, failures, make, connection_breaker,
  service_breaker, notification_breaker, allow_operation, is_in_degraded_mode, call, calls,
}
use rclabs_api.Breaker.Invariant.{IsCounted, calls-make-IsCounted}
use rclabs_api.Breaker.Transitions.{Move, call-Move}
use rclabs_api.Breaker.Episodes.{
  failures_at, consecutive_failures_trip, fails_fast, successes_in_a_row, recovers,
}

abbrev tripped : Breaker
tripped = record {
  failure_threshold = 2;
  timeout = 60;
  success_threshold = 2;
  state = opened;
  failure_count = 2;
  success_count = 0;
  last_failure_time = 100;
}

five_failures_trip :
    (calls connection_breaker (failures_at (1 ∷ 2 ∷ 3 ∷ 4 ∷ 5 ∷ []))).state ≡ opened
unfolding connection_breaker calls call
five_failures_trip = refl

service_degrades :
    is_in_degraded_mode (calls service_breaker (failures_at (1 ∷ 1 ∷ 1 ∷ 1 ∷ 1 ∷ []))) ≡ true
unfolding service_breaker calls call is_in_degraded_mode
service_degrades = refl

notification_bears_five :
    is_in_degraded_mode (calls notification_breaker (failures_at (1 ∷ 1 ∷ 1 ∷ 1 ∷ 1 ∷ []))) ≡ false
unfolding notification_breaker calls call is_in_degraded_mode
notification_bears_five = refl

calls-make-IsCounted_example :
    IsCounted (calls (make 1 60 2) (failures 5 ∷ allows 65 ∷ successes ∷ []))
calls-make-IsCounted_example = calls-make-IsCounted 1 60 2 (failures 5 ∷ allows 65 ∷ successes ∷ [])

call-Move_example : Move tripped (allows 160) (call tripped (allows 160)).state
call-Move_example = call-Move tripped (allows 160)

consecutive_failures_trip_example :
    (calls (make 2 60 2) (successes ∷ failures_at (7 ∷ 8 ∷ []))).state ≡ opened
unfolding make
consecutive_failures_trip_example = consecutive_failures_trip (make 2 60 2) (7 ∷ 8 ∷ []) refl

fails_fast_example :
    allow_operation (calls tripped (allows 120 ∷ failures 130 ∷ [])) 159
    ≡ (calls tripped (allows 120 ∷ failures 130 ∷ []), false)
fails_fast_example =
    fails_fast tripped (allows 120 ∷ failures 130 ∷ []) 159 refl (omega arith) (omega arith)

recovers_example :
    let c = calls tripped (allows 160 ∷ successes_in_a_row 2) in
    ((2 < max 1 tripped.success_threshold) × (c.state ≡ half_open))
    ⊎ ((max 1 tripped.success_threshold ≤ 2) × (c.state ≡ closed) × (c.failure_count ≡ 0))
recovers_example = recovers tripped 160 2 refl (omega arith)
