-- ===== src/Jobs/Monitoring.antt =====
-- `executeJobWithMonitoring` of src/etl_job_manager.cpp and what it calls. A run is the job, the
-- database and what the monitor service was told. `statement` is the text of the UPDATE by which
-- ETLJobRepository::updateJob (src/etl_job_repository.cpp) saves the job. The metrics callback of
-- the collector's thread is left out.
use rclabs_api.Prelude.{
  ℕ, ◌==◌, String, Bool, true, false, Option, none, some, List, [], ◌∷◌, ◌++◌, if◌then◌else◌,
}
use rclabs_api.Database.{Server, EtlException, execute_query, Failure}
use rclabs_api.Jobs.State.{
  JobType, extract, transform, load, full_etl, JobStatus, pending, running, completed, failed,
  cancelled, JobMetrics, JobMetricsCollector, EtlJob, record_error, record_failed_record,
}
use rclabs_api.Jobs.{
  DataRecord, execute_extract_job, execute_transform_job, execute_load_job, failure_message,
  rethrown,
}

pub data Event : Type 0 where
  status_changed : String → JobStatus → JobStatus → Event
  progress_updated : String → ℕ → String → Event
  metrics_updated : String → JobMetrics → Event

pub record Run (D : Type 0) : Type 0 where
  pub job : EtlJob
  pub database : D
  pub events : List Event

-- What `updateJobStatus` makes of the job.
unfoldable pub touched : JobStatus → EtlJob → ℕ → EtlJob
touched running j now = record j {
  status = running;
  started_at = if j.started_at == 0 then now else j.started_at;
}
touched pending j now = record j { status = pending }
touched completed j now = record j {
  status = completed;
  completed_at = if j.completed_at == 0 then now else j.completed_at;
}
touched failed j now = record j {
  status = failed;
  completed_at = if j.completed_at == 0 then now else j.completed_at;
}
touched cancelled j now = record j {
  status = cancelled;
  completed_at = if j.completed_at == 0 then now else j.completed_at;
}

-- `startJobMetricsCollection`, if it is enabled.
unfoldable pub start_job_metrics_collection : Bool → EtlJob → EtlJob
start_job_metrics_collection false j = j
start_job_metrics_collection true j = record j {
  metrics_collector =
      some (record { collecting = true; processed = 0; successful = 0; failures = 0 });
}

-- `updateJobMetricsFromCollector`
unfoldable pub copy_counts : EtlJob → JobMetricsCollector → EtlJob
copy_counts j c =
    let m = j.metrics in
    record j {
      metrics = record m {
        records_processed = c.processed;
        records_successful = c.successful;
        records_failed = c.failures;
      };
      records_processed = c.processed;
      records_successful = c.successful;
      records_failed = c.failures;
    }

unfoldable pub with_collector : EtlJob → JobMetricsCollector → EtlJob
with_collector j c = record j { metrics_collector = some c }

-- The failure is counted if there is a collector that collects.
unfoldable pub count_failure : Option JobMetricsCollector → EtlJob → EtlJob
unfolding with_collector record_error record_failed_record
count_failure none j = j
count_failure (some c) j =
    if c.collecting
    then (let m = record_error j.metrics in
        with_collector (record j { metrics = m }) (record_failed_record c))
    else j

module _ {D : Type 0} (server : Server D) (statement : EtlJob → String) where
  unfoldable pub save_job : Run D → Run D
  unfolding execute_query
  save_job r =
      if server.is_connected r.database
      then record r { database = (execute_query server (statement r.job) r.database).0 }
      else r

  unfoldable pub told : Run D → Event → Run D
  told r e = record r { events = r.events ++ e ∷ [] }

  unfoldable pub update_job_progress : Run D → ℕ → String → Run D
  unfolding save_job told
  update_job_progress r progress step =
      told (save_job r) (progress_updated r.job.job_id progress step)

  unfoldable pub update_job_status : Run D → JobStatus → ℕ → Run D
  unfolding save_job told touched
  update_job_status r new_status now =
      let old_status = r.job.status in
      told (save_job (record r { job = touched new_status r.job now }))
        (status_changed r.job.job_id old_status new_status)

  -- `stopJobMetricsCollection`, if it is enabled.
  unfoldable pub stop_job_metrics_collection : Bool → Option JobMetricsCollector → Run D → Run D
  unfolding copy_counts with_collector told
  stop_job_metrics_collection false c r = r
  stop_job_metrics_collection true none r = r
  stop_job_metrics_collection true (some c) r =
      let j = copy_counts (with_collector r.job (record c { collecting = false })) c in
      told (record r { job = j }) (metrics_updated j.job_id j.metrics)

  unfoldable pub run_load : Run D → Run D × Option Failure
  run_load r =
      let ((j, d), f) = execute_load_job server r.job r.database in
      (record r { job = j; database = d }, f)

  -- Progress is reported if nothing was thrown.
  unfoldable pub then_progress : Run D × Option Failure → ℕ → String → Run D × Option Failure
  unfolding update_job_progress
  then_progress (r, none) progress step = (update_job_progress r progress step, none)
  then_progress (r, some f) progress step = (r, some f)

  -- The switch on the type of the job.
  unfoldable pub monitored_work :
      (DataRecord → DataRecord) → JobType → Run D → Run D × Option Failure
  unfolding update_job_progress run_load then_progress
  monitored_work transform_record extract r =
      let a = update_job_progress r 0 "Starting data extraction" in
      let b = record a { job = execute_extract_job a.job } in
      (update_job_progress b 100 "Data extraction completed", none)
  monitored_work transform_record transform r =
      let a = update_job_progress r 0 "Starting data transformation" in
      let b = record a { job = execute_transform_job transform_record a.job } in
      (update_job_progress b 100 "Data transformation completed", none)
  monitored_work transform_record load r =
      let a = update_job_progress r 0 "Starting data loading" in
      then_progress (run_load a) 100 "Data loading completed"
  monitored_work transform_record full_etl r =
      let a = update_job_progress r 0 "Starting full ETL pipeline" in
      let b = update_job_progress a 10 "Extracting data from source" in
      let c = record b { job = execute_extract_job b.job } in
      let d = update_job_progress c 50 "Transforming extracted data" in
      let e = record d { job = execute_transform_job transform_record d.job } in
      let f = update_job_progress e 80 "Loading transformed data" in
      then_progress (run_load f) 100 "Full ETL pipeline completed"

  -- The ends of `executeJobWithMonitoring`; the error message is set after the job was saved.
  unfoldable pub end_monitored : Bool → ℕ → Run D × Option Failure → Run D × Option EtlException
  unfolding update_job_status stop_job_metrics_collection count_failure failure_message rethrown
  end_monitored enabled later (r, none) =
      let a = update_job_status r completed later in
      let j = a.job in
      let b = record a { job = record j { completed_at = later } } in
      (stop_job_metrics_collection enabled b.job.metrics_collector b, none)
  end_monitored enabled later (r, some f) =
      let a = update_job_status r failed later in
      let j = a.job in
      let k = record j { error_message = failure_message f } in
      (record a { job = count_failure k.metrics_collector k }, some (rethrown f))

  -- How `executeJobWithMonitoring` begins at `now`; the flag is `metricsCollectionEnabled_`.
  unfoldable pub begin_monitored : Bool → Run D → ℕ → Run D
  unfolding start_job_metrics_collection update_job_status
  begin_monitored enabled r now =
      let a = record r { job = start_job_metrics_collection enabled r.job } in
      let b = update_job_status a running now in
      let j = b.job in
      let m = j.metrics in
      record b { job = record j { started_at = now; metrics = record m { start_time = now } } }

  -- `executeJobWithMonitoring`, begun at `now` and ended at `later`.
  unfoldable pub execute_job_with_monitoring :
      (DataRecord → DataRecord) → Bool → Run D → ℕ → ℕ → Run D × Option EtlException
  unfolding begin_monitored monitored_work end_monitored
  execute_job_with_monitoring transform_record enabled r now later =
      let c = begin_monitored enabled r now in
      end_monitored enabled later (monitored_work transform_record c.job.job_type c)
