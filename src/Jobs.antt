-- ===== src/Jobs.antt =====
-- ETLJobManager of src/etl_job_manager.cpp: the work of a job, its execution with and without
-- monitoring, and the manager with its worker. A run is a job with the database and the events that
-- the monitor service has got. The transformation of one record is an argument: the theorems hold
-- of any. So is the text of the statements by which the repository saves a job.
pub mod State
pub mod Monitoring
pub mod Store
pub mod Keeping
pub mod Worker
pub mod Cancellation
pub mod Loops
pub mod Counts
pub mod Outcomes
pub mod Statuses
pub mod Events
pub mod Monitored
mod Examples
use rclabs_api.Prelude.{
  ℕ, zero, suc, ◌+◌, ◌-◌, ◌*◌, ◌/◌, min, ltb, ◌==◌, String, str_append, find?, Bool, true, false,
  not, ◌&&◌, Option, none, some, List, [], ◌∷◌, ◌++◌, if◌then◌else◌, length,
}
use rclabs_api.Errors.{ErrorCode, database_error, constraint_violation, processing_failed}
use rclabs_api.Database.{
  Server, EtlException, execute_query, Failure, etl, standard, unknown, within_scope,
}
use State.{
  JobType, extract, transform, load, full_etl, JobStatus, pending, running, completed, failed,
  cancelled, JobMetrics, JobMetricsCollector, EtlJob, empty_metrics, record_error, record_batch,
  record_batch_processed, record_failed_record,
}

pub record DataRecord : Type 0 where
  pub fields : List (String × String)

-- `DataTransformer::transform`
pub transform_data : (DataRecord → DataRecord) → List DataRecord → List DataRecord
transform_data transform_record [] = []
transform_data transform_record (r ∷ rs) = transform_record r ∷ transform_data transform_record rs

-- What a job's collector and metrics take of a batch, if there is a collector that collects.
collect :
    Option JobMetricsCollector
    → JobMetrics
    → ℕ
    → ℕ
    → ℕ
    → ℕ
    → ℕ
    → Option JobMetricsCollector × JobMetrics
unfolding record_batch record_batch_processed
collect none m batch successful bad bytes written = (none, m)
collect (some c) m batch successful bad bytes written =
    if c.collecting
    then (let n = record_batch m successful bytes in
        (
          some (record_batch_processed c batch successful bad),
          record n { total_bytes_written = n.total_bytes_written + written },
        ))
    else (some c, m)

-- A batch of records, with what was read and written for it.
pub add_batch : EtlJob → ℕ → ℕ → ℕ → ℕ → EtlJob
unfolding collect
add_batch j batch successful bytes written =
    let bad = batch - successful in
    let (c, m) = collect j.metrics_collector j.metrics batch successful bad bytes written in
    record j {
      metrics_collector = c;
      metrics = m;
      records_processed = j.records_processed + batch;
      records_successful = j.records_successful + successful;
      records_failed = j.records_failed + bad;
    }

-- `static_cast<int>(batch * rate)` of a rate in percent. The batches that occur are of 20 records
-- at 0.95, and of 10 and 5 at 0.94, where the floating-point product is cut to the same number.
abbrev pub successful_of : ℕ → ℕ → ℕ
successful_of batch percent = batch * percent / 100

-- The loop of `executeExtractJob`; a round adds at least one record, so that as many rounds as
-- records are enough.
pub extract_batches : ℕ → ℕ → EtlJob → EtlJob
unfolding add_batch
extract_batches zero processed j = j
extract_batches (suc fuel) processed j =
    let batch = min 20 (100 - processed) in
    let rest =
      extract_batches fuel (processed + 20)
        (add_batch j batch (successful_of batch 95) (batch * 512) 0) in
    if ltb processed 100 then rest else j

pub execute_extract_job : EtlJob → EtlJob
unfolding extract_batches
execute_extract_job j =
    let k = extract_batches 100 0 j in
    let m = k.metrics in
    record k { metrics = record m { total_bytes_processed = m.total_bytes_processed + 100 * 512 } }

abbrev sample : List DataRecord
sample = record { fields = ("name", "John Doe") ∷ ("age", "30") ∷ [] } ∷ []

pub execute_transform_job : (DataRecord → DataRecord) → EtlJob → EtlJob
unfolding add_batch transform_data
execute_transform_job transform_record j =
    let total = length sample in
    let successful = length (transform_data transform_record sample) in
    add_batch j total successful (total * 512) (successful * 256)

abbrev pub mentions : String → String → Bool
mentions text part = elim (find? text part) [ some i ↦ true | none ↦ false ]

abbrev thrown : ErrorCode → String → Option Failure
thrown code message = some (etl (record { code = code; message = message }))

module _ {D : Type 0} (server : Server D) where
  -- The loop of `executeLoadJob`.
  pub load_batches : ℕ → ℕ → EtlJob → D → (EtlJob × D) × Option Failure
  unfolding add_batch execute_query
  load_batches zero processed j d = ((j, d), none)
  load_batches (suc fuel) processed j d =
      let batch = min 10 (95 - processed) in
      let successful = successful_of batch 94 in
      let (e, inserted) = execute_query server "INSERT INTO processed_data VALUES (...)" d in
      let rest =
        load_batches fuel (processed + 10)
          (add_batch j batch successful (batch * 128) (successful * 128)) e in
      if ltb processed 95
      then (if inserted
          then (if mentions j.job_id "fail"
              then (
                (j, e),
                thrown constraint_violation "Simulated constraint violation during load",
              )
              else rest)
          else ((j, e), thrown database_error "Failed to insert processed data"))
      else ((j, d), none)

  pub execute_load_job : EtlJob → D → (EtlJob × D) × Option Failure
  unfolding load_batches
  execute_load_job j d =
      if server.is_connected d
      then within_scope server j (load_batches 95 0 j) d
      else ((j, d), thrown database_error "Database not connected for load operation")

  pub execute_full_etl_job : (DataRecord → DataRecord) → EtlJob → D → (EtlJob × D) × Option Failure
  unfolding execute_load_job
  execute_full_etl_job transform_record j d =
      execute_load_job (execute_transform_job transform_record (execute_extract_job j)) d

  -- The switch on the type of the job.
  pub work : (DataRecord → DataRecord) → JobType → EtlJob → D → (EtlJob × D) × Option Failure
  unfolding execute_full_etl_job
  work transform_record extract j d = ((execute_extract_job j, d), none)
  work transform_record transform j d = ((execute_transform_job transform_record j, d), none)
  work transform_record load j d = execute_load_job j d
  work transform_record full_etl j d = execute_full_etl_job transform_record j d

-- The message that a failed job gets.
pub failure_message : Failure → String
failure_message (etl x) = x.message
failure_message (standard message) = message
failure_message unknown = "Unknown error occurred during job execution"

-- What is thrown on.
pub rethrown : Failure → EtlException
rethrown (etl x) = x
rethrown (standard message) = record {
  code = processing_failed;
  message = str_append "Job execution failed: " message;
}
rethrown unknown = record {
  code = processing_failed;
  message = "Job execution failed with unknown error";
}

-- The ends of `executeJob`.
pub end_job : {D : Type 0} → ℕ → (EtlJob × D) × Option Failure → (EtlJob × D) × Option EtlException
unfolding failure_message rethrown
end_job later ((j, d), none) = ((record j { status = completed; completed_at = later }, d), none)
end_job later ((j, d), some f) =
    ((record j { status = failed; error_message = failure_message f }, d), some (rethrown f))

-- `executeJob`, begun at `now` and ended at `later`.
pub execute_job :
    {D : Type 0}
    → Server D
    → (DataRecord → DataRecord)
    → EtlJob
    → D
    → ℕ
    → ℕ
    → (EtlJob × D) × Option EtlException
unfolding work end_job
execute_job server transform_record j d now later =
    end_job later
      (work server transform_record j.job_type (record j { status = running; started_at = now }) d)
