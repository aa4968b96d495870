-- ===== src/Monitor/Deadlock.antt =====
-- What the monitor of src/job_monitor_service.cpp does with events of a job that it has moved to
-- the completed ones.
use rclabs_api.Prelude.{
  ◌≡◌, refl, ◌∙◌, sym, subst, ◌≢◌, ℕ, String, eq_iff, Bool, true, false, Option, none, some, ◌>>=◌,
  [], ◌∷◌, ◌++◌, append_assoc, lookup, lookup-erase, if◌then◌else◌, arith,
}
use rclabs_api.Database.{Server, execute_query}
use rclabs_api.Jobs.State.{JobType, JobStatus, completed, JobMetrics, JobMetricsCollector, EtlJob}
use rclabs_api.Jobs.Monitoring.{
  status_changed, metrics_updated, Run, update_job_status, stop_job_metrics_collection,
  end_monitored, told, save_job, touched, copy_counts, with_collector,
}
use rclabs_api.Monitoring.Messages.{JobStatusUpdate, JobMonitoringData}
use rclabs_api.Monitor.{
  Monitor, lock_data, calls_out, is_terminal, move_job_to_completed, create_job_monitoring_data,
  updated, update_job_monitoring_data, alert_for, check_and_send_notifications, tell_status,
  update_and_tell, change_status, begin_status, create_job_status_update, after_status,
  on_job_status_changed, update_job_metrics, observe, observe_all, get_job_monitoring_data,
}
use rclabs_api.Monitor.Running.{observe_all-append-none}
use rclabs_api.Monitor.Defined.{
  IfDefined, then-IfDefined, then-none, choose-IfDefined, some-IfDefined, running-IfDefined,
}

module _ (get_job : String → Option EtlJob) (any_type : JobType) (any_status : JobStatus) where
  abbrev IsInactive : String → Monitor → Type 0
  IsInactive id s = lookup id s.active_jobs ≡ none

  update_job_monitoring_data-inactive :
      (s : Monitor) (id : String) (f : JobMonitoringData → JobMonitoringData)
      → IsInactive id s
      → update_job_monitoring_data get_job any_type any_status s id f ≡ none
  unfolding update_job_monitoring_data updated create_job_monitoring_data lock_data
  update_job_monitoring_data-inactive s id f h = by_lock s.locked
    where
      by_lock :
          (b : Bool)
          → ((if b then none else some (record s { locked = true })) >>= λ l.
              updated get_job any_type any_status l id f (lookup id l.active_jobs))
            ≡ none
      by_lock true = refl
      by_lock false = rw h refl

  move_job_to_completed-IsInactive :
      (s : Monitor) (id : String) → IsInactive id (move_job_to_completed s id)
  unfolding move_job_to_completed
  move_job_to_completed-IsInactive s id =
      ground (arith, lookup-erase id id s.active_jobs, eq_iff id id)

  alert_for-IsInactive :
      (s : Monitor) (id : String) (new : JobStatus) (d : JobMonitoringData)
      → IsInactive id s
      → IsInactive id (alert_for get_job any_type any_status s id new d)
  unfolding alert_for calls_out
  alert_for-IsInactive s id new d h = ground arith

  check_and_send_notifications-IsInactive :
      (s : Monitor) (id : String) (old new : JobStatus)
      → IsInactive id s
      → IfDefined
          (IsInactive id)
          (check_and_send_notifications get_job any_type any_status s id old new)
  unfolding check_and_send_notifications
  check_and_send_notifications-IsInactive s id old new h =
      choose-IfDefined (IsInactive id) _ _ _ (some-IfDefined (IsInactive id) s h) (
        then-IfDefined (IsInactive id) (get_job_monitoring_data get_job any_type any_status s id) _
          (λ d. some-IfDefined (IsInactive id) _ (alert_for-IsInactive s id new d h)))

  tell_status-IsInactive :
      (s : Monitor) (id : String) (old : JobStatus) (u : JobStatusUpdate)
      → IfDefined (IsInactive id) (tell_status get_job any_type any_status s id old completed u)
  unfolding tell_status is_terminal
  tell_status-IsInactive s id old u =
      check_and_send_notifications-IsInactive _ id old completed
        (move_job_to_completed-IsInactive _ id)

  update_and_tell-IsInactive :
      (s : Monitor) (id : String) (old : JobStatus) (now : ℕ)
      → IfDefined
          (IsInactive id)
          (update_and_tell get_job any_type any_status s id old completed now)
  unfolding update_and_tell
  update_and_tell-IsInactive s id old now =
      then-IfDefined (IsInactive id)
        (create_job_status_update get_job any_type any_status s id old completed now) _
        (tell_status-IsInactive s id old)

  change_status-IsInactive :
      (s : Monitor) (id : String) (old : JobStatus) (now : ℕ)
      → IfDefined (IsInactive id) (change_status get_job any_type any_status s id old completed now)
  unfolding change_status
  change_status-IsInactive s id old now =
      then-IfDefined (IsInactive id)
        (update_job_monitoring_data get_job any_type any_status s id (after_status completed now)) _
        (λ t. update_and_tell-IsInactive t id old now)

  on_job_status_changed-IsInactive :
      (s : Monitor) (id : String) (old : JobStatus) (now : ℕ)
      → s.is_running ≡ true
      → IfDefined
          (IsInactive id)
          (on_job_status_changed get_job any_type any_status s id old completed now)
  unfolding on_job_status_changed
  on_job_status_changed-IsInactive s id old now h =
      running-IfDefined (IsInactive id) s.is_running (some s)
        (begin_status get_job any_type any_status s id old completed >>= λ t.
          change_status get_job any_type any_status t id old completed now)
        h
        (then-IfDefined (IsInactive id)
          (begin_status get_job any_type any_status s id old completed) _
          (λ t. change_status-IsInactive t id old now))

  pub metrics-after_completion :
      (s : Monitor) (id : String) (old : JobStatus) (m : JobMetrics) (clock : ℕ → ℕ)
      → s.is_running ≡ true
      → observe_all get_job any_type any_status s
          (status_changed id old completed ∷ metrics_updated id m ∷ [])
          clock
        ≡ none
  unfolding observe_all observe update_job_metrics
  metrics-after_completion s id old m clock h =
      then-none (IsInactive id)
        (on_job_status_changed get_job any_type any_status s id old completed (clock 0)) _
        (on_job_status_changed-IsInactive s id old (clock 0) h)
        (λ t k. rw (update_job_monitoring_data-inactive t id _ k) refl)

  module _ {D : Type 0} (server : Server D) (statement : EtlJob → String) where
    save_job-same :
        (r : Run D)
        → ((save_job server statement r).events ≡ r.events)
          × ((save_job server statement r).job ≡ r.job)
    unfolding save_job
    save_job-same r = by_connection (server.is_connected r.database)
      where
        by_connection :
            (b : Bool)
            → let t : Run D =
                if b
                then record r { database = (execute_query server (statement r.job) r.database).0 }
                else r in
              (t.events ≡ r.events) × (t.job ≡ r.job)
        by_connection true = (refl, refl)
        by_connection false = (refl, refl)

    stop-events :
        (o : Option JobMetricsCollector) (r : Run D)
        → o ≢ none
        → (m : JobMetrics) × ((stop_job_metrics_collection server statement true o r).events
            ≡ r.events ++ metrics_updated r.job.job_id m ∷ [])
    unfolding stop_job_metrics_collection told copy_counts with_collector
    stop-events none r h = absurd (h refl)
    stop-events (some c) r h = (_, refl)

    completed-events :
        (r : Run D) (later : ℕ)
        → r.job.metrics_collector ≢ none
        → (m : JobMetrics) × ((end_monitored server statement true later (r, none)).0.events
            ≡ r.events
              ++ status_changed r.job.job_id r.job.status completed
                ∷ metrics_updated r.job.job_id m
                ∷ [])
    unfolding end_monitored update_job_status told touched
    completed-events r later h =
        let t : Run D = record r { job = touched completed r.job later } in
        let a : Run D = update_job_status server statement r completed later in
        let j = a.job in
        let b : Run D = record a { job = record j { completed_at = later } } in
        let same = save_job-same t in
        let stopped =
          stop-events b.job.metrics_collector b
            (subst (λ k. EtlJob.metrics_collector k ≢ none) (sym same.1) h) in
        let m = stopped.0 in
        let old = status_changed r.job.job_id r.job.status completed in
        (
          m,
          stopped.1
              ∙ (λ i. (same.0 i ++ old ∷ []) ++ metrics_updated (same.1 i).job_id m ∷ [])
              ∙ append_assoc r.events (old ∷ []) (metrics_updated r.job.job_id m ∷ []),
        )

    -- When metrics are collected, a running monitor that observes, in any state, the events of a job
    -- that ends as completed, comes to lock a mutex that it holds: the last event tells of metrics of
    -- the job that the event before it has taken off the table of active jobs.
    pub end_monitored-deadlocks :
        (s : Monitor) (r : Run D) (later : ℕ) (clock : ℕ → ℕ)
        → r.job.metrics_collector ≢ none
        → s.is_running ≡ true
        → observe_all get_job any_type any_status s
            (end_monitored server statement true later (r, none)).0.events
            clock
          ≡ none
    end_monitored-deadlocks s r later clock h k =
        let (m, e) = completed-events r later h in
        rw e (
          observe_all-append-none get_job any_type any_status r.events s _ clock
            (λ t after l. metrics-after_completion t r.job.job_id r.job.status m after l) k)
