-- ===== src/Recovery/Retries.antt =====
-- RetryQueueManager of include/notification_service_recovery.hpp. Times are milliseconds; each
-- method takes the reading of the clock that it makes.
pub mod Order
use rclabs_api.Prelude.{
  ℕ, ◌+◌, ◌≤◌, ◌<◌, ◌≡◌, refl, String, Bool, true, false, Option, none, some, List, [], ◌∷◌, ◌++◌,
  arith, leb, if◌then◌else◌, append_assoc, append-nil, ap, sym, ◌∙◌, Bool-cases, inl, inr, leb→le,
  leb→lt,
}
use rclabs_api.Recovery.Backoff.{Multiplier, calculate_retry_delay}

pub record FailedNotification : Type 0 where
  pub notification_id : String
  pub recipient : String
  pub content : String
  pub next_retry_time : ℕ
  pub failure_reason : String
  pub retry_count : ℕ
  pub failed_method_index : ℕ

pub record RetryConfig : Type 0 where
  pub enable_retry : Bool
  pub max_retry_attempts : ℕ
  pub base_retry_delay : ℕ
  pub max_retry_delay : ℕ
  pub backoff_multiplier : Multiplier
  pub delivery_timeout : ℕ
  pub max_concurrent_retries : ℕ
  pub enable_bulk_retry : Bool
  pub bulk_retry_interval : ℕ

abbrev pub default_retry_config : RetryConfig
default_retry_config = record {
  enable_retry = true;
  max_retry_attempts = 3;
  base_retry_delay = 5000;
  max_retry_delay = 300000;
  backoff_multiplier = record { num = 2; den = 1 };
  delivery_timeout = 30000;
  max_concurrent_retries = 5;
  enable_bulk_retry = true;
  bulk_retry_interval = 600000;
}

pub record RetryQueueManager : Type 0 where
  pub config : RetryConfig
  pub retry_queue : List FailedNotification

-- `now() >= nextRetryTime`
unfoldable pub is_ready_for_retry : FailedNotification → ℕ → Bool
is_ready_for_retry f now = leb f.next_retry_time now

abbrev with_delay :
    RetryQueueManager → (ℕ → FailedNotification) → Option ℕ → Option RetryQueueManager
with_delay m make none = none
with_delay m make (some delay) = some (record m { retry_queue = m.retry_queue ++ make delay ∷ [] })

unfoldable pub add_failed_notification :
    RetryQueueManager → String → String → String → String → ℕ → ℕ → Option RetryQueueManager
unfolding calculate_retry_delay
add_failed_notification m id recipient content reason method now =
    let c = m.config in
    with_delay m
      (λ delay. record {
        notification_id = id;
        recipient = recipient;
        content = content;
        next_retry_time = now + delay;
        failure_reason = reason;
        retry_count = 0;
        failed_method_index = method;
      })
      (calculate_retry_delay c.base_retry_delay c.max_retry_delay c.backoff_multiplier 0)

unfoldable pub clear_queue : RetryQueueManager → RetryQueueManager
clear_queue m = record m { retry_queue = [] }

-- `while (!retryQueue_.empty() && retryQueue_.front().isReadyForRetry())`: what is taken, and
-- what stays.
unfoldable pub take_ready :
    List FailedNotification
    → List FailedNotification
    → ℕ
    → List FailedNotification × List FailedNotification
unfolding is_ready_for_retry
take_ready [] ready now = (ready, [])
take_ready (f ∷ fs) ready now =
    let rest = take_ready fs (ready ++ f ∷ []) now in
    if is_ready_for_retry f now then rest else (ready, f ∷ fs)

-- The loop of `getReadyForRetry` reads the clock for each notification; here all its readings are
-- the same.
unfoldable pub get_ready_for_retry :
    RetryQueueManager → ℕ → RetryQueueManager × List FailedNotification
unfolding take_ready
get_ready_for_retry m now =
    let (ready, left) = take_ready m.retry_queue [] now in (record m { retry_queue = left }, ready)
