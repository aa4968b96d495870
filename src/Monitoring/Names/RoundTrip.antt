-- ===== src/Monitoring/Names/RoundTrip.antt =====
-- What a name read back gives, for the names of src/job_monitoring_models.cpp.
use rclabs_api.Prelude.{◌≡◌, refl, ◌↔◌, String, true, arith, eq_iff}
use rclabs_api.Jobs.State.{
  JobType, extract, transform, load, full_etl, JobStatus, pending, running, completed, failed,
  cancelled,
}
use rclabs_api.Monitoring.Names.{
  MessageType, job_status_update, job_progress_update, job_log_message, job_metrics_update,
  system_notification, connection_ack, error_message, message_type_to_string,
  string_to_message_type, validate_message_type, job_status_to_string, string_to_job_status,
  job_type_to_string, string_to_job_type,
}

message_type_lem : (t : MessageType) → string_to_message_type (message_type_to_string t) ≡ t
unfolding string_to_message_type message_type_to_string
message_type_lem job_status_update = refl
message_type_lem job_progress_update = refl
message_type_lem job_log_message = refl
message_type_lem job_metrics_update = refl
message_type_lem system_notification = refl
message_type_lem connection_ack = refl
message_type_lem error_message = refl

job_status_lem : (s : JobStatus) → string_to_job_status (job_status_to_string s) ≡ s
unfolding string_to_job_status job_status_to_string
job_status_lem pending = refl
job_status_lem running = refl
job_status_lem completed = refl
job_status_lem failed = refl
job_status_lem cancelled = refl

job_type_lem : (t : JobType) → string_to_job_type (job_type_to_string t) ≡ t
unfolding string_to_job_type job_type_to_string
job_type_lem extract = refl
job_type_lem transform = refl
job_type_lem load = refl
job_type_lem full_etl = refl

-- A message type, a job status and a job type are read back from their names, and a text is the
-- name of the message type that it reads as exactly if validateMessageType accepts it.
pub names_read_back :
    (t : MessageType) (s : JobStatus) (j : JobType) (text : String)
    → (string_to_message_type (message_type_to_string t) ≡ t)
      × (string_to_job_status (job_status_to_string s) ≡ s)
      × (string_to_job_type (job_type_to_string j) ≡ j)
      × ((validate_message_type text ≡ true)
          ↔ (message_type_to_string (string_to_message_type text) ≡ text))
unfolding validate_message_type message_type_to_string string_to_message_type
names_read_back t s j text = (message_type_lem t, job_status_lem s, job_type_lem j, valid_iff)
  where
    valid_iff :
        (validate_message_type text ≡ true)
        ↔ (message_type_to_string (string_to_message_type text) ≡ text)
    valid_iff = ground (
      arith,
      eq_iff text "job_status_update",
      eq_iff text "job_progress_update",
      eq_iff text "job_log_message",
      eq_iff text "job_metrics_update",
      eq_iff text "system_notification",
      eq_iff text "connection_ack",
      eq_iff text "error_message",
    )
