-- ===== src/Recovery/Examples.antt =====
-- Backoff, bounded queues and retries at concrete inputs.
use rclabs_api.Prelude.{ℕ, ◌≤◌, ◌<◌, ◌≡◌, refl, true, false, none, some, [], ◌∷◌, ◌++◌, arith}
use rclabs_api.Recovery.Backoff.{Multiplier, backoff_delay}
use rclabs_api.Recovery.Queue.{enqueue_all, enqueue_all-drop, dequeue_all, dequeue_all_lem}
use rclabs_api.Recovery.Retries.{
  FailedNotification, RetryQueueManager, default_retry_config, get_ready_for_retry,
}
use rclabs_api.Recovery.Retries.Order.{All, IsOrdered, get_ready_for_retry_exact}
use rclabs_api.Recovery.States.{
  at, ConnectionRecoveryState, ServiceRecoveryConfig, ServiceRecoveryState,
  default_connection_config, should_attempt_reconnect,
}

abbrev double : Multiplier
double = record { num = 2; den = 1 }

backoff_delay-third : backoff_delay 1000 30000 double 3 ≡ some 4000
unfolding backoff_delay
backoff_delay-third = refl

backoff_delay_undefined : backoff_delay 1000 30000 double 60 ≡ none
unfolding backoff_delay
backoff_delay_undefined = refl

enqueue_all-drop_example : enqueue_all {A = ℕ} 2 (7 ∷ []) (8 ∷ 9 ∷ []) ≡ some (8 ∷ 9 ∷ [])
enqueue_all-drop_example = enqueue_all-drop 2 (7 ∷ []) (8 ∷ 9 ∷ []) (omega arith) (omega arith)

dequeue_all_lem_example : dequeue_all {A = ℕ} (7 ∷ 8 ∷ []) [] ≡ (7 ∷ 8 ∷ [], [])
dequeue_all_lem_example = dequeue_all_lem (7 ∷ 8 ∷ []) []

abbrev failed_at : ℕ → FailedNotification
failed_at t = record {
  notification_id = "n";
  recipient = "ops";
  content = "job failed";
  next_retry_time = t;
  failure_reason = "timeout";
  retry_count = 0;
  failed_method_index = 1;
}

abbrev two_failed : RetryQueueManager
two_failed = record {
  config = default_retry_config;
  retry_queue = failed_at 5100 ∷ failed_at 9000 ∷ [];
}

two_failed-IsOrdered : IsOrdered 6000 two_failed
two_failed-IsOrdered = omega arith

get_ready_for_retry_exact_example :
    let (m', ready) = get_ready_for_retry two_failed 6000 in
    (two_failed.retry_queue ≡ ready ++ m'.retry_queue)
    × All (λ f. f.next_retry_time ≤ 6000) ready
    × All (λ f. 6000 < f.next_retry_time) m'.retry_queue
    × IsOrdered 7000 m'
get_ready_for_retry_exact_example =
    get_ready_for_retry_exact two_failed 6000 7000 two_failed-IsOrdered (omega arith)

abbrev lost : ConnectionRecoveryState
lost = record {
  is_recovering = true;
  reconnect_attempts = 2;
  missed_heartbeats = 3;
  last_heartbeat = at 0;
  last_reconnect_attempt = at 5000000;
  pending_messages = [];
}

abbrev service_config : ServiceRecoveryConfig
service_config = record {
  enable_graceful_degradation = true;
  enable_auto_recovery = true;
  max_recovery_attempts = 3;
  base_recovery_delay = 5000;
  max_recovery_delay = 60000;
  backoff_multiplier = double;
  event_queue_max_size = 10000;
  health_check_interval = 30;
  enable_health_checks = true;
  max_failed_health_checks = 3;
}

abbrev unhealthy : ServiceRecoveryState
unhealthy = record {
  is_healthy = false;
  is_recovering = true;
  recovery_attempts = 1;
  failed_health_checks = 3;
  last_recovery_attempt = at 0;
  last_health_check = at 0;
}

reconnects_after_two_seconds :
    should_attempt_reconnect lost default_connection_config 2005000000 ≡ some true
unfolding should_attempt_reconnect
reconnects_after_two_seconds = refl
