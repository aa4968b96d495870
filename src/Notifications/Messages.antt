-- ===== src/Notifications/Messages.antt =====
-- The messages and the configuration of include/notification_service.hpp, and the messages that
-- src/notification_service.cpp makes. Identifiers are random and are arguments. The values of a
-- resource alert are doubles, of which the alert has the texts that std::to_string gives. The
-- thresholds of resources, the metadata and the settings of Slack are left out.
use rclabs_api.Prelude.{
  ℕ, zero, suc, ◌+◌, ◌*◌, ◌/◌, ◌%◌, ◌^◌, min, String, str_append, Bool, true, not, ltb, Option,
  none, some, List, if◌then◌else◌,
}
use Prim.Native.String.{slice}

pub data NotificationType : Type 0 where
  job_failure : NotificationType
  job_timeout_warning : NotificationType
  resource_alert : NotificationType
  system_error : NotificationType

pub data NotificationPriority : Type 0 where
  low : NotificationPriority
  medium : NotificationPriority
  high : NotificationPriority
  critical : NotificationPriority

pub data NotificationMethod : Type 0 where
  log_only : NotificationMethod
  email : NotificationMethod
  webhook : NotificationMethod
  slack : NotificationMethod

pub data ResourceAlertType : Type 0 where
  high_memory_usage : ResourceAlertType
  high_cpu_usage : ResourceAlertType
  disk_space_low : ResourceAlertType
  connection_limit_reached : ResourceAlertType
  queue_full : ResourceAlertType

pub record ResourceAlert : Type 0 where
  pub alert_type : ResourceAlertType
  pub description : String
  pub current_value : String
  pub threshold_value : String
  pub unit : String
  pub timestamp : ℕ

pub record NotificationMessage : Type 0 where
  pub id : String
  pub notification_type : NotificationType
  pub priority : NotificationPriority
  pub job_id : String
  pub subject : String
  pub message : String
  pub timestamp : ℕ
  pub scheduled_for : ℕ
  pub retry_count : ℕ
  pub max_retries : ℕ
  pub methods : List NotificationMethod

pub record NotificationConfig : Type 0 where
  pub enabled : Bool
  pub job_failure_alerts : Bool
  pub timeout_warnings : Bool
  pub resource_alerts : Bool
  pub max_retry_attempts : ℕ
  pub base_retry_delay_ms : ℕ
  pub timeout_warning_threshold_minutes : ℕ
  pub queue_max_size : ℕ
  pub default_methods : List NotificationMethod
  pub priority_methods : NotificationPriority → Option (List NotificationMethod)
  pub email_smtp_server : String
  pub email_username : String
  pub email_password : String
  pub email_recipients : List String
  pub webhook_url : String

-- The numbers of the enumerations.
unfoldable pub method_number : NotificationMethod → ℕ
method_number log_only = 0
method_number email = 1
method_number webhook = 2
method_number slack = 3

unfoldable pub alert_number : ResourceAlertType → ℕ
alert_number high_memory_usage = 0
alert_number high_cpu_usage = 1
alert_number disk_space_low = 2
alert_number connection_limit_reached = 3
alert_number queue_full = 4

unfoldable pub should_retry : NotificationMessage → Bool
should_retry m = ltb m.retry_count m.max_retries

unfoldable pub get_retry_delay : NotificationMessage → ℕ
get_retry_delay m = min (5000 * 2 ^ min m.retry_count 6) 300000

unfoldable pub increment_retry : NotificationMessage → ℕ → NotificationMessage
unfolding get_retry_delay
increment_retry m now =
    let n = record m { retry_count = suc m.retry_count } in
    record n { scheduled_for = now + get_retry_delay n }

-- A method is always valid, since the log is.
unfoldable pub config_is_valid : NotificationConfig → Bool
config_is_valid c = if not c.enabled then true else ltb 0 c.base_retry_delay_ms

unfoldable pub get_methods_for_priority :
    NotificationConfig → NotificationPriority → List NotificationMethod
get_methods_for_priority c p = elim (c.priority_methods p) [
  | none ↦ c.default_methods
  | some methods ↦ methods
]

-- The decimal digits of a number below 10 ^ fuel.
decimal : ℕ → ℕ → String
decimal zero n = ""
decimal (suc fuel) n =
    let rest = decimal fuel (n / 10) in
    str_append (if ltb n 10 then "" else rest) (slice "0123456789" (n % 10) (n % 10 + 1))

-- `std::to_string` of an `int`, which has ten digits at most.
unfoldable pub to_string : ℕ → String
unfolding decimal
to_string n = decimal 10 n

unfoldable pub format_duration : ℕ → String
unfolding to_string
format_duration minutes =
    if ltb minutes 60
    then str_append (to_string minutes) " minutes"
    else str_append (to_string (minutes / 60))
        (str_append " hours " (str_append (to_string (minutes % 60)) " minutes"))

unfoldable pub format_job_url : String → String
format_job_url id = str_append "http://localhost:8080/jobs/" id

-- What the messages have in common.
unfoldable pub new_message :
    NotificationConfig
    → String
    → NotificationType
    → NotificationPriority
    → String
    → String
    → String
    → ℕ
    → NotificationMessage
unfolding get_methods_for_priority
new_message c id type priority job_id subject text now = record {
  id = id;
  notification_type = type;
  priority = priority;
  job_id = job_id;
  subject = subject;
  message = text;
  timestamp = now;
  scheduled_for = now;
  retry_count = 0;
  max_retries = c.max_retry_attempts;
  methods = get_methods_for_priority c priority;
}

unfoldable pub create_job_failure_notification :
    NotificationConfig → String → String → String → ℕ → NotificationMessage
unfolding new_message
create_job_failure_notification c id job_id error now =
    new_message c id job_failure high job_id (str_append "ETL Job Failed: " job_id)
      (str_append "Job " (str_append job_id (str_append " has failed with error: " error))) now

unfoldable pub create_timeout_warning_notification :
    NotificationConfig → String → String → ℕ → ℕ → NotificationMessage
unfolding new_message format_duration
create_timeout_warning_notification c id job_id minutes now =
    new_message c id job_timeout_warning medium job_id
      (str_append "ETL Job Timeout Warning: " job_id)
      (str_append "Job " (
        str_append job_id (
          str_append " has been running for " (
            str_append (format_duration minutes) (
              str_append ", which exceeds the warning threshold of "
                (format_duration c.timeout_warning_threshold_minutes))))))
      now

unfoldable pub create_resource_alert_notification :
    NotificationConfig → String → ResourceAlert → NotificationMessage
unfolding new_message
create_resource_alert_notification c id a =
    new_message c id resource_alert high "" (str_append "Resource Alert: " a.description)
      (str_append a.description (
        str_append ". Current value: " (
          str_append a.current_value (
            str_append " " (
              str_append a.unit (
                str_append ", threshold: "
                  (str_append a.threshold_value (str_append " " a.unit))))))))
      a.timestamp

unfoldable pub create_system_error_notification :
    NotificationConfig → String → String → String → ℕ → NotificationMessage
unfolding new_message
create_system_error_notification c id component error now =
    new_message c id system_error critical "" (str_append "System Error in " component)
      (str_append "A critical error occurred in component "
        (str_append component (str_append ": " error)))
      now
