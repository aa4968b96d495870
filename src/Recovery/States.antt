-- ===== src/Recovery/States.antt =====
-- ConnectionRecoveryState of include/websocket_connection_recovery.hpp and ServiceRecoveryState of
-- include/job_monitor_service_recovery.hpp: the state between attempts, and the test that lets an
-- attempt be made. The system clock counts nanoseconds in 64 signed bits, delays are
-- milliseconds. Every reading of the clock is after the epoch and is an argument.
pub mod Attempts
use rclabs_api.Prelude.{
  ℕ, ◌+◌, ◌*◌, ◌^◌, ◌≤◌, ◌<◌, ◌≡◌, refl, String, Bool, true, false, not, Option, none, some, List,
  [], arith, leb, ltb, if◌then◌else◌,
}
use rclabs_api.Recovery.Backoff.{Multiplier, backoff_delay}
use rclabs_api.Recovery.Queue.{enqueue, dequeue_all}

-- A `time_point`: one after the epoch, or `time_point::min()`, which is -2^63.
pub data TimePoint : Type 0 where
  at : ℕ → TimePoint
  time_min : TimePoint

-- `now - t >= delay`; `none` where the signed difference overflows, which is undefined: it is
-- now + 2^63 at `time_min`. The test is written without a subtraction, since a `now` before `t`
-- has a negative difference.
elapsed_for : ℕ → TimePoint → ℕ → Option Bool
elapsed_for now (at t) delay = some (leb (t + delay * 10 ^ 6) now)
elapsed_for now time_min delay = if ltb (now + 2 ^ 63) (2 ^ 63) then some true else none

abbrev elapsed_after : ℕ → TimePoint → Option ℕ → Option Bool
elapsed_after now t none = none
elapsed_after now t (some delay) = elapsed_for now t delay

-- The body that `shouldAttemptReconnect` and `shouldAttemptRecovery` share.
attempt_due : Bool → ℕ → ℕ → TimePoint → Option ℕ → ℕ → Option Bool
unfolding elapsed_for
attempt_due enabled limit attempts last delay now =
    if not enabled
    then some false
    else if leb limit attempts
    then some false
    else elapsed_after now last delay

pub record ConnectionRecoveryConfig : Type 0 where
  pub enable_auto_reconnect : Bool
  pub max_reconnect_attempts : ℕ
  pub base_reconnect_delay : ℕ
  pub max_reconnect_delay : ℕ
  pub backoff_multiplier : Multiplier
  pub message_queue_max_size : ℕ
  pub connection_timeout : ℕ
  pub heartbeat_interval : ℕ
  pub enable_heartbeat : Bool
  pub max_missed_heartbeats : ℕ

abbrev pub default_connection_config : ConnectionRecoveryConfig
default_connection_config = record {
  enable_auto_reconnect = true;
  max_reconnect_attempts = 5;
  base_reconnect_delay = 1000;
  max_reconnect_delay = 30000;
  backoff_multiplier = record { num = 2; den = 1 };
  message_queue_max_size = 1000;
  connection_timeout = 30;
  heartbeat_interval = 30;
  enable_heartbeat = true;
  max_missed_heartbeats = 3;
}

pub record ConnectionRecoveryState : Type 0 where
  pub is_recovering : Bool
  pub reconnect_attempts : ℕ
  pub missed_heartbeats : ℕ
  pub last_heartbeat : TimePoint
  pub last_reconnect_attempt : TimePoint
  pub pending_messages : List String

pub connection_reset : ConnectionRecoveryState → ℕ → ConnectionRecoveryState
connection_reset s now = record {
  is_recovering = false;
  reconnect_attempts = 0;
  missed_heartbeats = 0;
  last_heartbeat = at now;
  last_reconnect_attempt = time_min;
  pending_messages = [];
}

pub calculate_backoff_delay : ConnectionRecoveryState → ConnectionRecoveryConfig → Option ℕ
unfolding backoff_delay
calculate_backoff_delay s c =
    backoff_delay c.base_reconnect_delay c.max_reconnect_delay c.backoff_multiplier
      s.reconnect_attempts

unfoldable pub should_attempt_reconnect :
    ConnectionRecoveryState → ConnectionRecoveryConfig → ℕ → Option Bool
unfolding attempt_due calculate_backoff_delay
should_attempt_reconnect s c now =
    attempt_due c.enable_auto_reconnect c.max_reconnect_attempts s.reconnect_attempts
      s.last_reconnect_attempt (calculate_backoff_delay s c) now

abbrev with_messages :
    ConnectionRecoveryState → Option (List String) → Option ConnectionRecoveryState
with_messages s none = none
with_messages s (some q) = some (record s { pending_messages = q })

unfoldable pub add_pending_message :
    ConnectionRecoveryState → String → ConnectionRecoveryConfig → Option ConnectionRecoveryState
unfolding enqueue
add_pending_message s message c =
    with_messages s (enqueue c.message_queue_max_size s.pending_messages message)

pub get_pending_messages : ConnectionRecoveryState → ConnectionRecoveryState × List String
unfolding dequeue_all
get_pending_messages s =
    let (messages, rest) = dequeue_all s.pending_messages [] in
    (record s { pending_messages = rest }, messages)

pub record ServiceRecoveryConfig : Type 0 where
  pub enable_graceful_degradation : Bool
  pub enable_auto_recovery : Bool
  pub max_recovery_attempts : ℕ
  pub base_recovery_delay : ℕ
  pub max_recovery_delay : ℕ
  pub backoff_multiplier : Multiplier
  pub event_queue_max_size : ℕ
  pub health_check_interval : ℕ
  pub enable_health_checks : Bool
  pub max_failed_health_checks : ℕ

pub record ServiceRecoveryState : Type 0 where
  pub is_healthy : Bool
  pub is_recovering : Bool
  pub recovery_attempts : ℕ
  pub failed_health_checks : ℕ
  pub last_recovery_attempt : TimePoint
  pub last_health_check : TimePoint

pub service_reset : ServiceRecoveryState → ℕ → ServiceRecoveryState
service_reset s now = record {
  is_healthy = true;
  is_recovering = false;
  recovery_attempts = 0;
  failed_health_checks = 0;
  last_recovery_attempt = time_min;
  last_health_check = at now;
}

pub service_backoff_delay : ServiceRecoveryState → ServiceRecoveryConfig → Option ℕ
unfolding backoff_delay
service_backoff_delay s c =
    backoff_delay c.base_recovery_delay c.max_recovery_delay c.backoff_multiplier
      s.recovery_attempts

pub should_attempt_recovery : ServiceRecoveryState → ServiceRecoveryConfig → ℕ → Option Bool
unfolding attempt_due service_backoff_delay
should_attempt_recovery s c now =
    attempt_due c.enable_auto_recovery c.max_recovery_attempts s.recovery_attempts
      s.last_recovery_attempt (service_backoff_delay s c) now
