-- ===== src/Notifications.antt =====
-- NotificationServiceImpl of src/notification_service.cpp: what it queues, the rounds of its thread
-- and the deliveries. Each method takes the reading of the clock, in milliseconds, that it makes.
-- What the receiver of a webhook answers, behind libcurl, is the parameter `accepts`. The message that a
-- failed notification is turned back into has only its identifier, text and count set in the
-- source: the rest of it is the parameter `blank`.
pub mod Messages
pub mod Delivered
pub mod Retried
pub mod Queued
mod Examples
use rclabs_api.Prelude.{
  ℕ, suc, ◌+◌, ◌-◌, ◌/◌, ◌==◌, String, str_eq, Bool, true, false, not, ◌&&◌, ◌||◌, ltb, leb, Option,
  none, some, List, [], ◌∷◌, ◌++◌, length, drop, if◌then◌else◌,
}
use rclabs_api.Recovery.Retries.{
  FailedNotification, RetryQueueManager, add_failed_notification, clear_queue, get_ready_for_retry,
}
use Messages.{
  NotificationMethod, log_only, email, webhook, slack, ResourceAlertType, ResourceAlert,
  NotificationMessage, NotificationConfig, method_number, alert_number, should_retry,
  get_methods_for_priority, create_job_failure_notification, create_timeout_warning_notification,
  create_resource_alert_notification, create_system_error_notification,
}

-- The e-mail and the webhook keep the configuration that they are made with.
pub data Delivery : Type 0 where
  log_delivery : Delivery
  email_delivery : NotificationConfig → Delivery
  webhook_delivery : NotificationConfig → Delivery

pub record Notifier : Type 0 where
  pub config : NotificationConfig
  pub running : Bool
  pub test_mode : Bool
  pub retry_manager : RetryQueueManager
  pub processed_count : ℕ
  pub failed_count : ℕ
  pub notification_queue : List NotificationMessage
  pub recent_notifications : List NotificationMessage
  pub delivery_methods : List Delivery
  pub last_alert_time : ResourceAlertType → Option ℕ

unfoldable pub get_method : Delivery → NotificationMethod
get_method log_delivery = log_only
get_method (email_delivery c) = email
get_method (webhook_delivery c) = webhook

abbrev is_empty : List String → Bool
is_empty [] = true
is_empty (x ∷ xs) = false

unfoldable pub is_configured : Delivery → Bool
is_configured log_delivery = true
is_configured (email_delivery c) =
    not (str_eq c.email_smtp_server "")
    && not (str_eq c.email_username "")
    && not (str_eq c.email_password "")
    && not (is_empty c.email_recipients)
is_configured (webhook_delivery c) = not (str_eq c.webhook_url "")

unfoldable pub setup_delivery_methods : NotificationConfig → List Delivery
setup_delivery_methods c =
    log_delivery
    ∷ ((if str_eq c.email_smtp_server "" then [] else email_delivery c ∷ [])
        ++ (if str_eq c.webhook_url "" then [] else webhook_delivery c ∷ []))

unfoldable pub configure : Notifier → NotificationConfig → Notifier
unfolding setup_delivery_methods
configure s c = record s { config = c; delivery_methods = setup_delivery_methods c }

unfoldable pub start : Notifier → Notifier
start s = record s { running = true }

unfoldable pub stop : Notifier → Notifier
stop s = record s { running = false }

unfoldable pub queue_notification : Notifier → NotificationMessage → Notifier
queue_notification s m =
    if leb s.config.queue_max_size (length s.notification_queue)
    then s
    else record s { notification_queue = s.notification_queue ++ m ∷ [] }

unfoldable pub send_job_failure_alert : Notifier → String → String → String → ℕ → Notifier
unfolding queue_notification create_job_failure_notification
send_job_failure_alert s id job_id error now =
    if not s.config.enabled || not s.config.job_failure_alerts
    then s
    else queue_notification s (create_job_failure_notification s.config id job_id error now)

unfoldable pub send_job_timeout_warning : Notifier → String → String → ℕ → ℕ → Notifier
unfolding queue_notification create_timeout_warning_notification
send_job_timeout_warning s id job_id minutes now =
    if not s.config.enabled || not s.config.timeout_warnings
    then s
    else queue_notification s (create_timeout_warning_notification s.config id job_id minutes now)

abbrev five_minutes_since : Option ℕ → ℕ → Bool
five_minutes_since none now = true
five_minutes_since (some last) now = leb 5 ((now - last) / 60000)

unfoldable pub should_send_resource_alert : Notifier → ResourceAlertType → ℕ → Bool
should_send_resource_alert s type now = five_minutes_since (s.last_alert_time type) now

unfoldable pub record_resource_alert : Notifier → ResourceAlertType → ℕ → Notifier
unfolding alert_number
record_resource_alert s type now = record s {
  last_alert_time =
      λ t. if alert_number t == alert_number type then some now else s.last_alert_time t;
}

-- The clock is read once for the test and once for the record.
unfoldable pub send_resource_alert : Notifier → String → ResourceAlert → ℕ → ℕ → Notifier
unfolding should_send_resource_alert queue_notification create_resource_alert_notification
    record_resource_alert
send_resource_alert s id a now recorded =
    if not s.config.enabled || not s.config.resource_alerts
    then s
    else if not (should_send_resource_alert s a.alert_type now)
    then s
    else record_resource_alert
        (queue_notification s (create_resource_alert_notification s.config id a)) a.alert_type
        recorded

unfoldable pub send_system_error_alert : Notifier → String → String → String → ℕ → Notifier
unfolding queue_notification create_system_error_notification
send_system_error_alert s id component error now =
    if not s.config.enabled
    then s
    else queue_notification s (create_system_error_notification s.config id component error now)

unfoldable pub send_custom_notification : Notifier → NotificationMessage → Notifier
unfolding queue_notification
send_custom_notification s m = if not s.config.enabled then s else queue_notification s m

unfoldable pub get_queue_size : Notifier → ℕ
get_queue_size s = length s.notification_queue + length s.retry_manager.retry_queue

unfoldable pub get_recent_notifications : Notifier → ℕ → List NotificationMessage
get_recent_notifications s limit =
    drop (length s.recent_notifications - limit) s.recent_notifications

unfoldable pub clear_all : Notifier → Notifier
unfolding clear_queue
clear_all s = record s { notification_queue = []; retry_manager = clear_queue s.retry_manager }

unfoldable pub set_test_mode : Notifier → Bool → Notifier
set_test_mode s enabled = record s { test_mode = enabled }

unfoldable pub add_to_recent_notifications : Notifier → NotificationMessage → Notifier
add_to_recent_notifications s m =
    let recent = s.recent_notifications ++ m ∷ [] in
    record s { recent_notifications = if ltb 1000 (length recent) then drop 1 recent else recent }

abbrev or_same : RetryQueueManager → Option RetryQueueManager → RetryQueueManager
or_same m none = m
or_same m (some n) = n

-- The delay of a first retry is the base delay, so that the call always has a result.
unfoldable pub schedule_retry : Notifier → NotificationMessage → String → ℕ → ℕ → Notifier
unfolding should_retry add_failed_notification
schedule_retry s m reason method now = if not (should_retry m) then s else record s {
  retry_manager =
      or_same s.retry_manager
        (add_failed_notification s.retry_manager m.id "recipient" m.message reason method now);
}

module _ (accepts : NotificationMessage → Bool) (blank : NotificationMessage) where
  unfoldable pub deliver : Delivery → NotificationMessage → Bool
  unfolding is_configured
  deliver log_delivery m = true
  deliver (email_delivery c) m = is_configured (email_delivery c)
  deliver (webhook_delivery c) m =
      if not (is_configured (webhook_delivery c)) then false else accepts m

  -- By the first configured delivery of the method.
  unfoldable pub deliver_by : List Delivery → NotificationMethod → NotificationMessage → Bool
  unfolding method_number get_method is_configured deliver
  deliver_by [] method m = false
  deliver_by (d ∷ ds) method m =
      let rest = deliver_by ds method m in
      if method_number (get_method d) == method_number method && is_configured d
      then deliver d m
      else rest

  -- Whether any of the methods succeeds; each is tried.
  unfoldable pub deliver_by_any :
      List Delivery → List NotificationMethod → NotificationMessage → Bool
  unfolding deliver_by
  deliver_by_any ds [] m = false
  deliver_by_any ds (method ∷ methods) m =
      let rest = deliver_by_any ds methods m in deliver_by ds method m || rest

  unfoldable pub deliver_notification : Notifier → NotificationMessage → Bool
  unfolding deliver_by_any get_methods_for_priority
  deliver_notification s m =
      if s.test_mode
      then true
      else deliver_by_any s.delivery_methods (get_methods_for_priority s.config m.priority) m

  unfoldable pub process : Notifier → NotificationMessage → String → ℕ → ℕ → Notifier
  unfolding deliver_notification add_to_recent_notifications schedule_retry
  process s m reason method now =
      if deliver_notification s m
      then add_to_recent_notifications (record s { processed_count = suc s.processed_count }) m
      else schedule_retry (record s { failed_count = suc s.failed_count }) m reason method now

  unfoldable pub process_queue : Notifier → List NotificationMessage → ℕ → Notifier
  unfolding process method_number
  process_queue s [] now = s
  process_queue s (m ∷ ms) now =
      process_queue (process s m "delivery_failed" (method_number log_only) now) ms now

  unfoldable pub retry_message : FailedNotification → NotificationMessage
  retry_message f = record blank {
    id = f.notification_id;
    message = f.content;
    retry_count = f.retry_count;
  }

  unfoldable pub process_retries : Notifier → List FailedNotification → ℕ → Notifier
  unfolding process retry_message
  process_retries s [] now = s
  process_retries s (f ∷ fs) now =
      process_retries (process s (retry_message f) f.failure_reason f.failed_method_index now) fs
        now

  -- One round of `processNotifications`.
  unfoldable pub process_notifications : Notifier → ℕ → Notifier
  unfolding get_ready_for_retry process_queue process_retries
  process_notifications s now =
      if not s.running
      then s
      else (let (manager, ready) = get_ready_for_retry s.retry_manager now in
          let taken = record s { notification_queue = []; retry_manager = manager } in
          process_retries (process_queue taken s.notification_queue now) ready now)

  -- The rounds of the loop, each at its time.
  unfoldable pub run_rounds : Notifier → List ℕ → Notifier
  unfolding process_notifications
  run_rounds s [] = s
  run_rounds s (now ∷ nows) = run_rounds (process_notifications s now) nows
