-- ===== src/Jobs/State.antt =====
-- The records of include/etl_job_models.hpp and include/job_monitoring_models.hpp that a running
-- job changes. Times are counts since the epoch; floating-point figures are left out.
use rclabs_api.Prelude.{ℕ, suc, ◌+◌, String, Bool, Option, if◌then◌else◌, ltb}

pub data JobType : Type 0 where
  extract transform load full_etl : JobType

pub data JobStatus : Type 0 where
  pending running completed failed cancelled : JobStatus

pub record JobMetrics : Type 0 where
  pub records_processed : ℕ
  pub records_successful : ℕ
  pub records_failed : ℕ
  pub total_batches : ℕ
  pub total_bytes_processed : ℕ
  pub total_bytes_written : ℕ
  pub consecutive_errors : ℕ
  pub start_time : ℕ

-- `JobMetricsCollector` without its update thread.
pub record JobMetricsCollector : Type 0 where
  pub collecting : Bool
  pub processed : ℕ
  pub successful : ℕ
  pub failures : ℕ

pub record EtlJob : Type 0 where
  pub job_id : String
  pub job_type : JobType
  pub status : JobStatus
  pub source_config : String
  pub target_config : String
  pub created_at : ℕ
  pub started_at : ℕ
  pub completed_at : ℕ
  pub error_message : String
  pub records_processed : ℕ
  pub records_successful : ℕ
  pub records_failed : ℕ
  pub metrics : JobMetrics
  pub metrics_collector : Option JobMetricsCollector

unfoldable pub empty_metrics : JobMetrics
empty_metrics = record {
  records_processed = 0;
  records_successful = 0;
  records_failed = 0;
  total_batches = 0;
  total_bytes_processed = 0;
  total_bytes_written = 0;
  consecutive_errors = 0;
  start_time = 0;
}

-- `recordError`
unfoldable pub record_error : JobMetrics → JobMetrics
record_error m = record m {
  consecutive_errors = suc m.consecutive_errors;
  records_failed = suc m.records_failed;
}

-- `recordBatch`
unfoldable pub record_batch : JobMetrics → ℕ → ℕ → JobMetrics
record_batch m successful bytes = record m {
  total_batches = suc m.total_batches;
  total_bytes_processed = m.total_bytes_processed + bytes;
  consecutive_errors = if ltb 0 successful then 0 else m.consecutive_errors;
}

-- `recordBatchProcessed`
unfoldable pub record_batch_processed : JobMetricsCollector → ℕ → ℕ → ℕ → JobMetricsCollector
record_batch_processed c batch good bad = record c {
  processed = c.processed + batch;
  successful = c.successful + good;
  failures = c.failures + bad;
}

-- `recordFailedRecord`
unfoldable pub record_failed_record : JobMetricsCollector → JobMetricsCollector
record_failed_record c = record c { failures = suc c.failures }
