-- ===== src/Monitoring/Names.antt =====
-- `messageTypeToString`, `jobStatusToString`, `jobTypeToString` and their inverses, of
-- src/job_monitoring_models.cpp. The switches have no other case, since the enumerations are closed.
pub mod RoundTrip
use rclabs_api.Prelude.{
  ℕ, ◌≡◌, refl, sym, ap, ◌∙◌, ◌↔◌, String, str_eq, Bool, true, ◌||◌, Eq, ◌==◌, ==_iff,
  if◌then◌else◌,
}
use rclabs_api.Jobs.State.{
  JobType, extract, transform, load, full_etl, JobStatus, pending, running, completed, failed,
  cancelled,
}

pub data MessageType : Type 0 where
  job_status_update job_progress_update job_log_message job_metrics_update : MessageType
  system_notification connection_ack error_message : MessageType

-- The value of the enumerator.
number : MessageType → ℕ
number job_status_update = 0
number job_progress_update = 1
number job_log_message = 2
number job_metrics_update = 3
number system_notification = 4
number connection_ack = 5
number error_message = 6

with_number : ℕ → MessageType
with_number n =
    if n == 0
    then job_status_update
    else if n == 1
    then job_progress_update
    else if n == 2
    then job_log_message
    else if n == 3
    then job_metrics_update
    else if n == 4
    then system_notification
    else if n == 5
    then connection_ack
    else error_message

with_number-number : (t : MessageType) → with_number (number t) ≡ t
unfolding number with_number
with_number-number job_status_update = refl
with_number-number job_progress_update = refl
with_number-number job_log_message = refl
with_number-number job_metrics_update = refl
with_number-number system_notification = refl
with_number-number connection_ack = refl
with_number-number error_message = refl

unfoldable pub is_type : MessageType → MessageType → Bool
unfolding number
is_type s t = number s == number t

pub is_type_iff : (s t : MessageType) → (is_type s t ≡ true) ↔ (s ≡ t)
unfolding is_type
is_type_iff s t = (
  λ h.
      sym (with_number-number s)
      ∙ ap with_number ((==_iff (number s) (number t)).0 h)
      ∙ with_number-number t,
  λ e. (==_iff (number s) (number t)).1 (ap number e),
)

instance abbrev pub message_type_eq : Eq MessageType
message_type_eq = record { beq = is_type; beq_iff = is_type_iff }

unfoldable pub message_type_to_string : MessageType → String
message_type_to_string job_status_update = "job_status_update"
message_type_to_string job_progress_update = "job_progress_update"
message_type_to_string job_log_message = "job_log_message"
message_type_to_string job_metrics_update = "job_metrics_update"
message_type_to_string system_notification = "system_notification"
message_type_to_string connection_ack = "connection_ack"
message_type_to_string error_message = "error_message"

unfoldable pub string_to_message_type : String → MessageType
string_to_message_type s =
    if str_eq s "job_status_update"
    then job_status_update
    else if str_eq s "job_progress_update"
    then job_progress_update
    else if str_eq s "job_log_message"
    then job_log_message
    else if str_eq s "job_metrics_update"
    then job_metrics_update
    else if str_eq s "system_notification"
    then system_notification
    else if str_eq s "connection_ack"
    then connection_ack
    else if str_eq s "error_message"
    then error_message
    else error_message

unfoldable pub validate_message_type : String → Bool
validate_message_type s =
    str_eq s "job_status_update"
    || str_eq s "job_progress_update"
    || str_eq s "job_log_message"
    || str_eq s "job_metrics_update"
    || str_eq s "system_notification"
    || str_eq s "connection_ack"
    || str_eq s "error_message"

pub job_status_to_string : JobStatus → String
job_status_to_string pending = "pending"
job_status_to_string running = "running"
job_status_to_string completed = "completed"
job_status_to_string failed = "failed"
job_status_to_string cancelled = "cancelled"

pub string_to_job_status : String → JobStatus
string_to_job_status s =
    if str_eq s "pending"
    then pending
    else if str_eq s "running"
    then running
    else if str_eq s "completed"
    then completed
    else if str_eq s "failed"
    then failed
    else if str_eq s "cancelled"
    then cancelled
    else pending

pub job_type_to_string : JobType → String
job_type_to_string extract = "extract"
job_type_to_string transform = "transform"
job_type_to_string load = "load"
job_type_to_string full_etl = "full_etl"

pub string_to_job_type : String → JobType
string_to_job_type s =
    if str_eq s "extract"
    then extract
    else if str_eq s "transform"
    then transform
    else if str_eq s "load"
    then load
    else if str_eq s "full_etl"
    then full_etl
    else full_etl
