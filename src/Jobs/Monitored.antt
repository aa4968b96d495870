-- ===== src/Jobs/Monitored.antt =====
-- How a monitored job ends.
use rclabs_api.Prelude.{
  ℕ, ◌≡◌, refl, ◌∙◌, String, str_append, Bool, true, false, Option, none, some, List, [], ◌∷◌, ◌++◌,
  if◌then◌else◌, append-nil,
}
use rclabs_api.Database.{Server, EtlException, Failure, etl, standard, unknown}
use rclabs_api.Errors.{processing_failed}
use rclabs_api.Jobs.State.{EtlJob, JobStatus, running, completed, failed, JobMetricsCollector}
use rclabs_api.Jobs.{DataRecord, failure_message, rethrown}
use rclabs_api.Jobs.Monitoring.{
  metrics_updated, Run, told, update_job_status, stop_job_metrics_collection, monitored_work,
  end_monitored, execute_job_with_monitoring, begin_monitored, count_failure,
  start_job_metrics_collection, copy_counts, with_collector,
}
use rclabs_api.Jobs.Events.{changes, changes-append, At, status-At, work-At}

module _ {D : Type 0} (server : Server D) (statement : EtlJob → String) where
  -- The job failed with the message, which the monitor was told of, and an exception is thrown.
  abbrev pub FailedWith :
      JobStatus
      → List (JobStatus × JobStatus)
      → String
      → EtlException
      → Run D × Option EtlException
      → Type 0
  FailedWith s cs message thrown x =
      (x.0.job.status ≡ failed)
      × (changes x.0.events ≡ cs ++ (s, failed) ∷ [])
      × (x.0.job.error_message ≡ message)
      × (x.1 ≡ some thrown)

  -- How a monitored job ends, by what its work threw, and the changes that the monitor was told of.
  abbrev pub MonitoredEnd :
      ℕ
      → JobStatus
      → List (JobStatus × JobStatus)
      → Option Failure
      → Run D × Option EtlException
      → Type 0
  MonitoredEnd later s cs none x =
      (x.0.job.status ≡ completed)
      × (changes x.0.events ≡ cs ++ (s, completed) ∷ [])
      × (x.0.job.completed_at ≡ later)
      × (x.1 ≡ none)
  MonitoredEnd later s cs (some (etl thrown)) x = FailedWith s cs thrown.message thrown x
  MonitoredEnd later s cs (some (standard message)) x =
      FailedWith s cs message
        (record { code = processing_failed; message = str_append "Job execution failed: " message })
        x
  MonitoredEnd later s cs (some unknown) x =
      FailedWith s cs "Unknown error occurred during job execution"
        (record { code = processing_failed; message = "Job execution failed with unknown error" }) x

  stop-At :
      (enabled : Bool) (c : Option JobMetricsCollector) (r : Run D) (s : JobStatus)
      (cs : List (JobStatus × JobStatus)) (later : ℕ)
      → At server statement s cs r
      → r.job.completed_at ≡ later
      → At server statement s cs (stop_job_metrics_collection server statement enabled c r)
        × ((stop_job_metrics_collection server statement enabled c r).job.completed_at ≡ later)
  unfolding stop_job_metrics_collection copy_counts with_collector told At
  stop-At false c r s cs later v e = (v, e)
  stop-At true none r s cs later v e = (v, e)
  stop-At true (some c) r s cs later v e =
      ((v.0, changes-append r.events (metrics_updated _ _ ∷ []) ∙ append-nil _ ∙ v.1), e)

  if_same :
      (b : Bool) (k j : EtlJob)
      → (k.status ≡ j.status) × (k.error_message ≡ j.error_message)
      → let l : EtlJob = if b then k else j in
        (l.status ≡ j.status) × (l.error_message ≡ j.error_message)
  if_same true k j h = h
  if_same false k j h = (refl, refl)

  count_failure-same :
      (c : Option JobMetricsCollector) (j : EtlJob)
      → ((count_failure c j).status ≡ j.status)
        × ((count_failure c j).error_message ≡ j.error_message)
  unfolding count_failure with_collector
  count_failure-same none j = (refl, refl)
  count_failure-same (some c) j = if_same c.collecting _ j (refl, refl)

  end-FailedWith :
      (enabled : Bool) (later : ℕ) (r : Run D) (f : Failure) (s : JobStatus)
      (cs : List (JobStatus × JobStatus))
      → At server statement s cs r
      → FailedWith s cs
          (failure_message f)
          (rethrown f)
          (end_monitored server statement enabled later (r, some f))
  unfolding end_monitored At
  end-FailedWith enabled later r f s cs v =
      let a : Run D = update_job_status server statement r failed later in
      let j = a.job in
      let k : EtlJob = record j { error_message = failure_message f } in
      let w = status-At server statement r s failed cs later v in
      let same = count_failure-same k.metrics_collector k in (same.0 ∙ w.0, w.1, same.1, refl)

  end-MonitoredEnd :
      (enabled : Bool) (later : ℕ) (r : Run D) (o : Option Failure) (s : JobStatus)
      (cs : List (JobStatus × JobStatus))
      → At server statement s cs r
      → MonitoredEnd later s cs o (end_monitored server statement enabled later (r, o))
  unfolding end_monitored At failure_message rethrown
  end-MonitoredEnd enabled later r none s cs v =
      let a : Run D = update_job_status server statement r completed later in
      let j = a.job in
      let b : Run D = record a { job = record j { completed_at = later } } in
      let w = status-At server statement r s completed cs later v in
      let z =
        stop-At enabled b.job.metrics_collector b completed (cs ++ (s, completed) ∷ []) later w
          refl in
      (z.0.0, z.0.1, z.1, refl)
  end-MonitoredEnd enabled later r (some (etl x)) s cs v =
      end-FailedWith enabled later r (etl x) s cs v
  end-MonitoredEnd enabled later r (some (standard message)) s cs v =
      end-FailedWith enabled later r (standard message) s cs v
  end-MonitoredEnd enabled later r (some unknown) s cs v =
      end-FailedWith enabled later r unknown s cs v

  start-status :
      (enabled : Bool) (j : EtlJob) → (start_job_metrics_collection enabled j).status ≡ j.status
  unfolding start_job_metrics_collection
  start-status false j = refl
  start-status true j = refl

  begin-At :
      (enabled : Bool) (r : Run D) (now : ℕ)
      → At server statement running
          (changes r.events ++ (r.job.status, running) ∷ [])
          (begin_monitored server statement enabled r now)
  unfolding begin_monitored At
  begin-At enabled r now =
      let a : Run D = record r { job = start_job_metrics_collection enabled r.job } in
      status-At server statement a r.job.status running (changes r.events) now
        (start-status enabled r.job, refl)

  -- A job that is executed with monitoring is told to the monitor as running and then as completed
  -- or failed, each once and in this order, and nothing else as a change of status. If its work
  -- throws nothing, the job is completed, with the time of its end, and nothing is thrown. If its
  -- work throws, the job is failed: an exception of the program's own gives it its message and is
  -- thrown on as it is; one of the standard library gives it its message, and anything else the
  -- words for an unknown error, and both are thrown on as PROCESSING_FAILED with the words for it.
  pub execute_job_with_monitoring-MonitoredEnd :
      (transform_record : DataRecord → DataRecord) (enabled : Bool) (r : Run D) (now later : ℕ)
      → let begun = begin_monitored server statement enabled r now in
        let work = monitored_work server statement transform_record begun.job.job_type begun in
        MonitoredEnd later running
          (changes r.events ++ (r.job.status, running) ∷ [])
          work.1
          (execute_job_with_monitoring server statement transform_record enabled r now later)
  unfolding execute_job_with_monitoring
  execute_job_with_monitoring-MonitoredEnd transform_record enabled r now later =
      let c = begin_monitored server statement enabled r now in
      let cs = changes r.events ++ (r.job.status, running) ∷ [] in
      let work = monitored_work server statement transform_record c.job.job_type c in
      end-MonitoredEnd enabled later work.0 work.1 running cs (
        work-At server statement transform_record c.job.job_type c running cs
          (begin-At enabled r now))
