-- ===== src/Breaker.antt =====
-- The circuit breakers of include/websocket_connection_recovery.hpp (ConnectionCircuitBreaker),
-- include/job_monitor_service_recovery.hpp (ServiceCircuitBreaker) and
-- include/notification_service_recovery.hpp (NotificationCircuitBreaker): three classes with one
-- body. Each method takes the reading of the steady clock that it makes as its argument `now`.
-- The thresholds are taken non-negative, and the mutex makes each method one step.
pub mod Invariant
pub mod Transitions
pub mod Episodes
mod Examples
use rclabs_api.Prelude.{ℕ, suc, ◌+◌, Bool, true, false, List, [], ◌∷◌, leb, if◌then◌else◌}

pub data State : Type 0 where
  closed opened half_open : State

pub record Breaker : Type 0 where
  pub failure_threshold : ℕ
  pub timeout : ℕ
  pub success_threshold : ℕ
  pub state : State
  pub failure_count : ℕ
  pub success_count : ℕ
  pub last_failure_time : ℕ

unfoldable pub make : ℕ → ℕ → ℕ → Breaker
make failures timeout successes = record {
  failure_threshold = failures;
  timeout = timeout;
  success_threshold = successes;
  state = closed;
  failure_count = 0;
  success_count = 0;
  last_failure_time = 0;
}

-- The clock's unit is the second; `std::chrono::minutes(5)` is 300.
unfoldable abbrev pub connection_breaker : Breaker
unfolding make
connection_breaker = make 5 60 3

abbrev pub service_breaker : Breaker
unfolding make
service_breaker = make 5 60 3

abbrev pub notification_breaker : Breaker
unfolding make
notification_breaker = make 10 300 3

-- `(now - lastFailureTime_) >= timeout_`
pub is_timeout_expired : Breaker → ℕ → Bool
is_timeout_expired b now = leb (b.last_failure_time + b.timeout) now

allow_in : State → Breaker → ℕ → Breaker × Bool
unfolding is_timeout_expired
allow_in closed b now = (b, true)
allow_in opened b now =
    if is_timeout_expired b now
    then (record b { state = half_open; success_count = 0 }, true)
    else (b, false)
allow_in half_open b now = (b, true)

unfoldable pub allow_operation : Breaker → ℕ → Breaker × Bool
unfolding allow_in
allow_operation b now = allow_in b.state b now

success_in : State → Breaker → Breaker
success_in closed b = record b { failure_count = 0 }
success_in half_open b =
    let counted = record b { success_count = suc b.success_count } in
    if leb b.success_threshold (suc b.success_count)
    then record counted { state = closed; failure_count = 0 }
    else counted
success_in opened b = b

unfoldable pub on_success : Breaker → Breaker
unfolding success_in
on_success b = success_in b.state b

failure_in : State → Breaker → ℕ → Breaker
failure_in closed b now =
    let counted = record b { failure_count = suc b.failure_count } in
    if leb b.failure_threshold (suc b.failure_count)
    then record counted { state = opened; last_failure_time = now }
    else counted
failure_in half_open b now = record b { state = opened; last_failure_time = now }
failure_in opened b now = record b { last_failure_time = now }

unfoldable pub on_failure : Breaker → ℕ → Breaker
unfolding failure_in
on_failure b now = failure_in b.state b now

degraded : State → Bool
degraded opened = true
degraded _ = false

unfoldable pub is_in_degraded_mode : Breaker → Bool
unfolding degraded
is_in_degraded_mode b = degraded b.state

-- One call of a method, with the reading of the clock that it makes.
pub data Call : Type 0 where
  allows failures : ℕ → Call
  successes : Call

pub call : Breaker → Call → Breaker
unfolding allow_operation on_success on_failure
call b (allows now) = (allow_operation b now).0
call b successes = on_success b
call b (failures now) = on_failure b now

pub calls : Breaker → List Call → Breaker
calls b [] = b
calls b (c ∷ cs) = calls (call b c) cs
