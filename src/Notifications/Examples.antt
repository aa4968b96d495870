-- ===== src/Notifications/Examples.antt =====
-- A notification service with the default configuration of the struct, which has no methods, and one
-- that is configured with a log and a webhook.
use rclabs_api.Prelude.{
  ℕ, String, List, str_eq, ◌&&◌, ◌≡◌, ◌≤◌, refl, arith, Bool, true, false, none, some, [], ◌∷◌,
  if◌then◌else◌,
}
use rclabs_api.Recovery.Retries.{FailedNotification, default_retry_config}
use rclabs_api.Notifications.Messages.{
  NotificationConfig, NotificationMessage, ResourceAlert, high_cpu_usage, system_error, critical,
  webhook, email, get_methods_for_priority, format_duration,
}
use rclabs_api.Notifications.{
  Notifier, configure, deliver_notification, run_rounds, send_resource_alert,
}
use rclabs_api.Notifications.Delivered.{any, reaches, configure-delivers}
use rclabs_api.Notifications.Retried.{all_zero, count_with, run_rounds-never_gives_up}
use rclabs_api.Notifications.Queued.{
  Call, configures, alerts, fails, goes_round, calls, is_within, calls-within,
  send_resource_alert-spaced,
}

duration_text : format_duration 135 ≡ "2 hours 15 minutes"
unfolding format_duration
duration_text = refl

abbrev default_config : NotificationConfig
default_config = record {
  enabled = true;
  job_failure_alerts = true;
  timeout_warnings = true;
  resource_alerts = true;
  max_retry_attempts = 3;
  base_retry_delay_ms = 5000;
  timeout_warning_threshold_minutes = 25;
  queue_max_size = 10000;
  default_methods = [];
  priority_methods = λ p. none;
  email_smtp_server = "";
  email_username = "";
  email_password = "";
  email_recipients = [];
  webhook_url = "";
}

abbrev hook_config : NotificationConfig
hook_config = record default_config {
  priority_methods = λ p. some (email ∷ webhook ∷ []);
  email_smtp_server = "smtp";
  webhook_url = "http://hook";
}

abbrev waiting_notification : FailedNotification
waiting_notification = record {
  notification_id = "notif_1";
  recipient = "recipient";
  content = "Job job_1 has failed";
  next_retry_time = 5000;
  failure_reason = "delivery_failed";
  retry_count = 0;
  failed_method_index = 0;
}

abbrev notifier : Notifier
notifier = record {
  config = default_config;
  running = true;
  test_mode = false;
  retry_manager = record { config = default_retry_config; retry_queue = waiting_notification ∷ [] };
  processed_count = 0;
  failed_count = 1;
  notification_queue = [];
  recent_notifications = [];
  delivery_methods = [];
  last_alert_time = λ t. none;
}

abbrev retried : NotificationMessage
retried = record {
  id = "";
  notification_type = system_error;
  priority = critical;
  job_id = "";
  subject = "";
  message = "";
  timestamp = 0;
  scheduled_for = 0;
  retry_count = 0;
  max_retries = 3;
  methods = [];
}

abbrev accepting : NotificationMessage → Bool
accepting m = true

-- The notification that waits.
abbrev is_first : String → String → Bool
is_first id content = str_eq id "notif_1" && str_eq content "Job job_1 has failed"

run_rounds-never_gives_up_example :
    let t = run_rounds accepting retried notifier (6000 ∷ 12000 ∷ []) in
    (1 ≤ count_with is_first t.retry_manager.retry_queue)
    × (all_zero t.retry_manager.retry_queue ≡ true)
unfolding deliver_notification
run_rounds-never_gives_up_example =
    run_rounds-never_gives_up accepting retried is_first notifier (6000 ∷ 12000 ∷ []) refl
      (λ m. refl) refl

configure-delivers_example :
    deliver_notification accepting retried (configure notifier hook_config) retried ≡ (
      if notifier.test_mode
      then true
      else any
          (λ method. reaches accepting hook_config method retried)
          (get_methods_for_priority hook_config critical))
configure-delivers_example = configure-delivers accepting retried notifier hook_config retried

abbrev busy_cpu : ResourceAlert
busy_cpu = record {
  alert_type = high_cpu_usage;
  description = "CPU usage is above threshold";
  current_value = "0.950000";
  threshold_value = "0.900000";
  unit = "percentage";
  timestamp = 1000;
}

send_resource_alert-spaced_example :
    send_resource_alert
      (send_resource_alert notifier "notif_2" busy_cpu 1000 1001)
      "notif_3"
      busy_cpu
      300000
      300001
    ≡ send_resource_alert notifier "notif_2" busy_cpu 1000 1001
unfolding send_resource_alert
send_resource_alert-spaced_example =
    send_resource_alert-spaced notifier "notif_2" "notif_3" busy_cpu busy_cpu 1000 1001 300000
      300001 refl refl refl refl (omega arith)

abbrev small_config : NotificationConfig
small_config = record default_config { queue_max_size = 1 }

abbrev some_calls : List (Call × ℕ)
some_calls =
    (alerts "notif_2" busy_cpu 1001, 1000)
    ∷ (fails "notif_3" "job_1" "no rows", 2000)
    ∷ (configures small_config, 3000)
    ∷ (goes_round, 6000)
    ∷ []

calls-within_example : is_within 10000 (calls accepting retried notifier some_calls) ≡ true
calls-within_example = calls-within accepting retried 10000 notifier some_calls refl refl
