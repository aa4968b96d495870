-- ===== src/Jobs/Events.antt =====
-- What the monitor service is told of a job at work.
use rclabs_api.Prelude.{
  ℕ, ◌≡◌, refl, ap, ◌∙◌, String, Bool, true, false, Option, none, some, List, [], ◌∷◌, ◌++◌,
  if◌then◌else◌, append-nil,
}
use rclabs_api.Database.{Server, Failure}
use rclabs_api.Jobs.State.{
  EtlJob, JobType, extract, transform, load, full_etl, JobStatus, pending, running, completed,
  failed, cancelled,
}
use rclabs_api.Jobs.{DataRecord, execute_extract_job, execute_transform_job}
use rclabs_api.Jobs.Monitoring.{
  Event, status_changed, progress_updated, metrics_updated, Run, touched, save_job, told,
  update_job_progress, update_job_status, run_load, then_progress, monitored_work,
}
use rclabs_api.Jobs.Statuses.{
  execute_load_job-status, execute_extract_job-status, execute_transform_job-status,
}

-- The status changes of a list of events.
abbrev pub changes : List Event → List (JobStatus × JobStatus)
changes [] = []
changes (status_changed job_id s t ∷ es) = (s, t) ∷ changes es
changes (progress_updated job_id progress step ∷ es) = changes es
changes (metrics_updated job_id m ∷ es) = changes es

pub changes-append : (es fs : List Event) → changes (es ++ fs) ≡ changes es ++ changes fs
changes-append [] fs = refl
changes-append (status_changed job_id s t ∷ es) fs = ap (λ l. (s, t) ∷ l) (changes-append es fs)
changes-append (progress_updated job_id progress step ∷ es) fs = changes-append es fs
changes-append (metrics_updated job_id m ∷ es) fs = changes-append es fs

module _ {D : Type 0} (server : Server D) (statement : EtlJob → String) where
  -- The status of the job, and the changes that the monitor was told of.
  unfoldable pub At : JobStatus → List (JobStatus × JobStatus) → Run D → Type 0
  At s cs r = (r.job.status ≡ s) × (changes r.events ≡ cs)

  if-At :
      (b : Bool) (x y : Run D) (s : JobStatus) (cs : List (JobStatus × JobStatus))
      → At s cs x
      → At s cs y
      → At s cs (if b then x else y)
  if-At true x y s cs v w = v
  if-At false x y s cs v w = w

  save_job-At :
      (r : Run D) (s : JobStatus) (cs : List (JobStatus × JobStatus))
      → At s cs r
      → At s cs (save_job server statement r)
  unfolding save_job At
  save_job-At r s cs v = if-At (server.is_connected r.database) _ r s cs v v

  pub progress-At :
      (r : Run D) (s : JobStatus) (cs : List (JobStatus × JobStatus)) (progress : ℕ) (step : String)
      → At s cs r
      → At s cs (update_job_progress server statement r progress step)
  unfolding update_job_progress told At
  progress-At r s cs progress step v =
      let w = save_job-At r s cs v in
      (
        w.0,
        changes-append (save_job server statement r).events
              (progress_updated r.job.job_id progress step ∷ [])
            ∙ append-nil _
            ∙ w.1,
      )

  touched-status : (s : JobStatus) (j : EtlJob) (now : ℕ) → (touched s j now).status ≡ s
  unfolding touched
  touched-status pending j now = refl
  touched-status running j now = refl
  touched-status completed j now = refl
  touched-status failed j now = refl
  touched-status cancelled j now = refl

  pub status-At :
      (r : Run D) (s t : JobStatus) (cs : List (JobStatus × JobStatus)) (now : ℕ)
      → At s cs r
      → At t (cs ++ (s, t) ∷ []) (update_job_status server statement r t now)
  unfolding update_job_status told At
  status-At r s t cs now v =
      let q : Run D = record r { job = touched t r.job now } in
      let w = save_job-At q t cs (touched-status t r.job now, v.1) in
      (
        w.0,
        changes-append (save_job server statement q).events
              (status_changed r.job.job_id r.job.status t ∷ [])
            ∙ λ i. w.1 i ++ (v.0 i, t) ∷ [],
      )

  then_progress-At :
      (x : Run D × Option Failure) (s : JobStatus) (cs : List (JobStatus × JobStatus))
      (progress : ℕ) (step : String)
      → At s cs x.0
      → At s cs (then_progress server statement x progress step).0
  unfolding then_progress
  then_progress-At (r, none) s cs progress step v = progress-At r s cs progress step v
  then_progress-At (r, some f) s cs progress step v = v

  run_load-At :
      (r : Run D) (s : JobStatus) (cs : List (JobStatus × JobStatus))
      → At s cs r
      → At s cs (run_load server statement r).0
  unfolding run_load At
  run_load-At r s cs v = (execute_load_job-status server r.job r.database ∙ v.0, v.1)

  extract-At :
      (r : Run D) (s : JobStatus) (cs : List (JobStatus × JobStatus))
      → At s cs r
      → At s cs (record r { job = execute_extract_job r.job })
  unfolding At
  extract-At r s cs v = (execute_extract_job-status r.job ∙ v.0, v.1)

  transform-At :
      (transform_record : DataRecord → DataRecord) (r : Run D) (s : JobStatus)
      (cs : List (JobStatus × JobStatus))
      → At s cs r
      → At s cs (record r { job = execute_transform_job transform_record r.job })
  unfolding At
  transform-At transform_record r s cs v =
      (execute_transform_job-status transform_record r.job ∙ v.0, v.1)

  pub work-At :
      (transform_record : DataRecord → DataRecord) (t : JobType) (r : Run D) (s : JobStatus)
      (cs : List (JobStatus × JobStatus))
      → At s cs r
      → At s cs (monitored_work server statement transform_record t r).0
  unfolding monitored_work
  work-At transform_record extract r s cs v =
      let step : String = "Starting data extraction" in
      let a : Run D = update_job_progress server statement r 0 step in
      let b : Run D = record a { job = execute_extract_job a.job } in
      progress-At b s cs 100 "Data extraction completed"
        (extract-At a s cs (progress-At r s cs 0 step v))
  work-At transform_record transform r s cs v =
      let step : String = "Starting data transformation" in
      let a : Run D = update_job_progress server statement r 0 step in
      let b : Run D = record a { job = execute_transform_job transform_record a.job } in
      progress-At b s cs 100 "Data transformation completed"
        (transform-At transform_record a s cs (progress-At r s cs 0 step v))
  work-At transform_record load r s cs v =
      let step : String = "Starting data loading" in
      let a : Run D = update_job_progress server statement r 0 step in
      then_progress-At (run_load server statement a) s cs 100 "Data loading completed"
        (run_load-At a s cs (progress-At r s cs 0 step v))
  work-At transform_record full_etl r s cs v =
      let step : String = "Starting full ETL pipeline" in
      let a : Run D = update_job_progress server statement r 0 step in
      let b : Run D = update_job_progress server statement a 10 "Extracting data from source" in
      let c : Run D = record b { job = execute_extract_job b.job } in
      let d : Run D = update_job_progress server statement c 50 "Transforming extracted data" in
      let e : Run D = record d { job = execute_transform_job transform_record d.job } in
      let f : Run D = update_job_progress server statement e 80 "Loading transformed data" in
      let at_b =
        progress-At a s cs 10 "Extracting data from source" (progress-At r s cs 0 step v) in
      let at_d = progress-At c s cs 50 "Transforming extracted data" (extract-At b s cs at_b) in
      let at_f =
        progress-At e s cs 80 "Loading transformed data"
          (transform-At transform_record d s cs at_d) in
      then_progress-At (run_load server statement f) s cs 100 "Full ETL pipeline completed"
        (run_load-At f s cs at_f)
