-- ===== src/Monitor/Examples.antt =====
-- A running monitor with one active job, that ends.
use rclabs_api.Prelude.{
  ℕ, ◌+◌, ◌≡◌, ◌≢◌, ◌++◌, refl, String, true, Option, none, some, List, [], ◌∷◌, lookup, insert,
  arith,
}
use rclabs_api.Database.{Server}
use rclabs_api.Jobs.State.{
  EtlJob, full_etl, pending, running, failed, empty_metrics, JobMetricsCollector,
}
use rclabs_api.Jobs.Monitoring.{Run, status_changed, end_monitored}
use rclabs_api.Monitoring.Messages.{JobMonitoringData}
use rclabs_api.Monitor.{
  Monitor, new_monitor, data_of, after_status, observe_all, on_job_status_changed, is_terminal,
}
use rclabs_api.Monitor.Tables.{Ended, on_job_status_changed-Ended}
use rclabs_api.Monitor.Deadlock.{end_monitored-deadlocks}

abbrev committing : Server (List String)
committing = record { is_connected = λ d. true; transact = λ query d. (d ++ query ∷ [], true) }

abbrev collector : JobMetricsCollector
collector = record { collecting = true; processed = 196; successful = 190; failures = 6 }

abbrev monitored_job : EtlJob
monitored_job = record {
  job_id = "job_1";
  job_type = full_etl;
  status = running;
  source_config = "source";
  target_config = "target";
  created_at = 1;
  started_at = 2;
  completed_at = 0;
  error_message = "";
  records_processed = 0;
  records_successful = 0;
  records_failed = 0;
  metrics = empty_metrics;
  metrics_collector = some collector;
}

abbrev begun_run : Run (List String)
begun_run = record {
  job = monitored_job;
  database = [];
  events = status_changed "job_1" pending running ∷ [];
}

abbrev no_job : String → Option EtlJob
no_job id = none

abbrev running_monitor : Monitor
running_monitor = let s = new_monitor true in record s { is_running = true }

has_collector : some collector ≢ none
has_collector h = ground arith

-- The first event comes at 2, and each one second later.
abbrev seconds : ℕ → ℕ
seconds n = n + 2

end_monitored-deadlocks_example :
    observe_all no_job full_etl pending running_monitor
      (end_monitored committing (λ j. "UPDATE") true 9 (begun_run, none)).0.events
      seconds
    ≡ none
end_monitored-deadlocks_example =
    end_monitored-deadlocks no_job full_etl pending committing (λ j. "UPDATE") running_monitor
      begun_run 9 seconds has_collector refl

abbrev job_data : JobMonitoringData
unfolding data_of
job_data = data_of monitored_job "Loading"

abbrev busy_monitor : Monitor
busy_monitor = let s = running_monitor in record s { active_jobs = insert "job_1" job_data [] }

on_job_status_changed-Ended_example :
    (t : Monitor) × (on_job_status_changed no_job full_etl pending busy_monitor "job_1" running
        failed 9
      ≡ some t)
    × Ended no_job full_etl pending busy_monitor "job_1" running failed 9
        (after_status failed 9 job_data)
        t
unfolding insert lookup new_monitor is_terminal busy_monitor
on_job_status_changed-Ended_example =
    on_job_status_changed-Ended no_job full_etl pending busy_monitor "job_1" running failed 9
      job_data refl refl refl refl
