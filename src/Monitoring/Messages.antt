-- ===== src/Monitoring/Messages.antt =====
-- JobStatusUpdate, JobMonitoringData, LogMessage and WebSocketMessage of
-- src/job_monitoring_models.cpp. A message holds the JSON text of its data, which the factories
-- take as an argument. Times are milliseconds since the epoch, percentages natural numbers.
use rclabs_api.Prelude.{
  ℕ, ◌-◌, String, str_eq, Bool, true, false, not, ◌&&◌, ◌||◌, ◌==◌, ltb, Option, none, some, List,
  Dict, if◌then◌else◌,
}
use rclabs_api.Jobs.State.{
  JobType, JobStatus, pending, running, completed, failed, cancelled, JobMetrics,
}
use rclabs_api.Monitoring.Names.{
  MessageType, job_status_update, job_log_message, job_metrics_update, connection_ack,
  error_message,
}

pub record JobStatusUpdate : Type 0 where
  pub job_id : String
  pub status : JobStatus
  pub previous_status : JobStatus
  pub timestamp : ℕ
  pub progress_percent : ℕ
  pub current_step : String
  pub error : Option String
  pub metrics : JobMetrics

pub record JobMonitoringData : Type 0 where
  pub job_id : String
  pub job_type : JobType
  pub status : JobStatus
  pub progress_percent : ℕ
  pub current_step : String
  pub start_time : ℕ
  pub created_at : ℕ
  pub completed_at : ℕ
  pub execution_time : ℕ
  pub metrics : JobMetrics
  pub recent_logs : List String
  pub error : Option String

pub record LogMessage : Type 0 where
  pub job_id : String
  pub level : String
  pub component : String
  pub message : String
  pub timestamp : ℕ
  pub context : Dict String

pub record WebSocketMessage : Type 0 where
  pub message_type : MessageType
  pub timestamp : ℕ
  pub data_text : String
  pub target_job_id : Option String
  pub target_level : Option String

-- The position of a status in its enumeration.
status_number : JobStatus → ℕ
status_number pending = 0
status_number running = 1
status_number completed = 2
status_number failed = 3
status_number cancelled = 4

unfoldable pub same_status : JobStatus → JobStatus → Bool
unfolding status_number
same_status s t = status_number s == status_number t

pub is_status_change : JobStatusUpdate → Bool
unfolding same_status
is_status_change u = not (same_status u.status u.previous_status)

pub is_progress_update : JobStatusUpdate → Bool
unfolding is_status_change
is_progress_update u = not (is_status_change u) && ltb 0 u.progress_percent

-- The clock may have been set back, which the subtraction does not show.
unfoldable pub update_execution_time : JobMonitoringData → ℕ → JobMonitoringData
update_execution_time d now =
    if d.start_time == 0 then d else record d { execution_time = now - d.start_time }

unfoldable pub is_active : JobMonitoringData → Bool
unfolding same_status
is_active d = same_status d.status running || same_status d.status pending

pub matches_filter : LogMessage → String → String → Bool
matches_filter m job_id_filter level_filter =
    if not (str_eq job_id_filter "") && not (str_eq m.job_id job_id_filter)
    then false
    else if not (str_eq level_filter "") && not (str_eq m.level level_filter)
    then false
    else true

unfoldable pub create_job_status_update : JobStatusUpdate → String → ℕ → WebSocketMessage
create_job_status_update u json now = record {
  message_type = job_status_update;
  timestamp = now;
  data_text = json;
  target_job_id = some u.job_id;
  target_level = none;
}

unfoldable pub create_log_message : LogMessage → String → ℕ → WebSocketMessage
create_log_message m json now = record {
  message_type = job_log_message;
  timestamp = now;
  data_text = json;
  target_job_id = some m.job_id;
  target_level = some m.level;
}

unfoldable pub create_metrics_update : String → String → ℕ → WebSocketMessage
create_metrics_update id json now = record {
  message_type = job_metrics_update;
  timestamp = now;
  data_text = json;
  target_job_id = some id;
  target_level = none;
}

unfoldable pub create_error_message : String → ℕ → WebSocketMessage
create_error_message json now = record {
  message_type = error_message;
  timestamp = now;
  data_text = json;
  target_job_id = none;
  target_level = none;
}

unfoldable pub create_connection_ack : ℕ → WebSocketMessage
create_connection_ack now = record {
  message_type = connection_ack;
  timestamp = now;
  data_text = "{\"status\":\"connected\"}";
  target_job_id = none;
  target_level = none;
}
