-- ===== src/Monitor/Running.antt =====
-- Whether the monitor of src/job_monitor_service.cpp runs is not changed by what it is told.
use rclabs_api.Prelude.{
  ◌≡◌, ℕ, suc, String, Bool, true, not, ◌&&◌, Option, none, some, ◌>>=◌, List, [], ◌∷◌, ◌++◌, arith,
}
use rclabs_api.Jobs.State.{JobType, JobStatus, JobMetrics, EtlJob, running, pending}
use rclabs_api.Jobs.Monitoring.{Event, status_changed, progress_updated, metrics_updated}
use rclabs_api.Monitoring.Messages.{JobStatusUpdate, JobMonitoringData, same_status}
use rclabs_api.Monitor.{
  Monitor, lock_data, unlock_data, calls_out, move_job_to_completed, create_job_monitoring_data,
  updated, update_job_monitoring_data, alert_for, check_and_send_notifications, tell_status,
  update_and_tell, change_status, begin_status, create_job_status_update, after_status,
  on_job_status_changed, on_job_progress_updated, update_job_metrics, observe, observe_all, ensured,
  store_metrics_snapshot, get_job_monitoring_data, should_update_progress, progress, with_progress,
  with_metrics,
}
use rclabs_api.Monitor.Defined.{
  IfDefined, then-IfDefined, after-IfDefined, choose-IfDefined, some-IfDefined, then-none,
}

abbrev pub IsRunning : Monitor → Type 0
IsRunning s = s.is_running ≡ true

runs : Option Monitor → Bool
runs none = true
runs (some s) = s.is_running

runs-IfDefined : (o : Option Monitor) → runs o ≡ true → IfDefined IsRunning o
unfolding runs IfDefined
runs-IfDefined none h = tt
runs-IfDefined (some s) h = h

module _ (get_job : String → Option EtlJob) (any_type : JobType) (any_status : JobStatus) where
  create_job_monitoring_data-runs :
      (s : Monitor) (id : String)
      → s.is_running ≡ true
      → runs (create_job_monitoring_data get_job any_type any_status s id) ≡ true
  unfolding create_job_monitoring_data ensured lock_data unlock_data runs
  create_job_monitoring_data-runs s id h = ground arith

  update_job_monitoring_data-runs :
      (s : Monitor) (id : String) (f : JobMonitoringData → JobMonitoringData)
      → s.is_running ≡ true
      → runs (update_job_monitoring_data get_job any_type any_status s id f) ≡ true
  unfolding update_job_monitoring_data updated create_job_monitoring_data ensured lock_data
      unlock_data runs
  update_job_monitoring_data-runs s id f h = ground arith

  alert_for-runs :
      (s : Monitor) (id : String) (new : JobStatus) (d : JobMonitoringData)
      → s.is_running ≡ true
      → (alert_for get_job any_type any_status s id new d).is_running ≡ true
  unfolding alert_for calls_out
  alert_for-runs s id new d h = ground arith

  check_and_send_notifications-runs :
      (s : Monitor) (id : String) (old new : JobStatus)
      → s.is_running ≡ true
      → runs (check_and_send_notifications get_job any_type any_status s id old new) ≡ true
  unfolding check_and_send_notifications get_job_monitoring_data lock_data alert_for calls_out runs
  check_and_send_notifications-runs s id old new h = ground arith

  tell_status-runs :
      (s : Monitor) (id : String) (old new : JobStatus) (u : JobStatusUpdate)
      → s.is_running ≡ true
      → runs (tell_status get_job any_type any_status s id old new u) ≡ true
  unfolding tell_status move_job_to_completed calls_out
  tell_status-runs s id old new u h = check_and_send_notifications-runs _ id old new (ground arith)

  update_and_tell-IsRunning :
      (s : Monitor) (id : String) (old new : JobStatus) (now : ℕ)
      → IsRunning s
      → IfDefined IsRunning (update_and_tell get_job any_type any_status s id old new now)
  unfolding update_and_tell
  update_and_tell-IsRunning s id old new now h =
      then-IfDefined IsRunning
        (create_job_status_update get_job any_type any_status s id old new now) _
        (λ u. runs-IfDefined _ (tell_status-runs s id old new u h))

  update_job_monitoring_data-IsRunning :
      (s : Monitor) (id : String) (f : JobMonitoringData → JobMonitoringData)
      → IsRunning s
      → IfDefined IsRunning (update_job_monitoring_data get_job any_type any_status s id f)
  update_job_monitoring_data-IsRunning s id f h =
      runs-IfDefined _ (update_job_monitoring_data-runs s id f h)

  change_status-IsRunning :
      (s : Monitor) (id : String) (old new : JobStatus) (now : ℕ)
      → IsRunning s
      → IfDefined IsRunning (change_status get_job any_type any_status s id old new now)
  unfolding change_status
  change_status-IsRunning s id old new now h =
      after-IfDefined IsRunning IsRunning
        (update_job_monitoring_data get_job any_type any_status s id (after_status new now)) _
        (update_job_monitoring_data-IsRunning s id _ h)
        (λ t k. update_and_tell-IsRunning t id old new now k)

  begin_status-IsRunning :
      (s : Monitor) (id : String) (old new : JobStatus)
      → IsRunning s
      → IfDefined IsRunning (begin_status get_job any_type any_status s id old new)
  unfolding begin_status
  begin_status-IsRunning s id old new h =
      choose-IfDefined IsRunning (same_status old pending && same_status new running)
        (create_job_monitoring_data get_job any_type any_status s id) (some s)
        (runs-IfDefined _ (create_job_monitoring_data-runs s id h)) (some-IfDefined IsRunning s h)

  on_job_status_changed-IsRunning :
      (s : Monitor) (id : String) (old new : JobStatus) (now : ℕ)
      → IsRunning s
      → IfDefined IsRunning (on_job_status_changed get_job any_type any_status s id old new now)
  unfolding on_job_status_changed
  on_job_status_changed-IsRunning s id old new now h =
      choose-IfDefined IsRunning (not s.is_running) (some s)
        (begin_status get_job any_type any_status s id old new >>= λ t.
          change_status get_job any_type any_status t id old new now)
        (some-IfDefined IsRunning s h)
        (after-IfDefined IsRunning IsRunning (begin_status get_job any_type any_status s id old new)
          _ (begin_status-IsRunning s id old new h)
          (λ t k. change_status-IsRunning t id old new now k))

  on_job_progress_updated-IsRunning :
      (s : Monitor) (id : String) (percent : ℕ) (step : String) (now : ℕ)
      → IsRunning s
      → IfDefined IsRunning
          (on_job_progress_updated get_job any_type any_status s id percent step now)
  unfolding on_job_progress_updated calls_out
  on_job_progress_updated-IsRunning s id percent step now h =
      choose-IfDefined IsRunning (not s.is_running) (some s) _ (some-IfDefined IsRunning s h) (
        choose-IfDefined IsRunning (not (should_update_progress s id percent)) (some s)
          (update_job_monitoring_data get_job any_type any_status s id
              (with_progress percent step now)
            >>= λ t. some (calls_out t (progress id percent step)))
          (some-IfDefined IsRunning s h)
          (after-IfDefined IsRunning IsRunning
            (update_job_monitoring_data get_job any_type any_status s id
              (with_progress percent step now))
            _ (update_job_monitoring_data-IsRunning s id _ h)
            (λ t k. some-IfDefined IsRunning _ k)))

  update_job_metrics-IsRunning :
      (s : Monitor) (id : String) (m : JobMetrics) (now : ℕ)
      → IsRunning s
      → IfDefined IsRunning (update_job_metrics get_job any_type any_status s id m now)
  unfolding update_job_metrics calls_out store_metrics_snapshot
  update_job_metrics-IsRunning s id m now h =
      after-IfDefined IsRunning IsRunning
        (update_job_monitoring_data get_job any_type any_status s id (with_metrics m now)) _
        (update_job_monitoring_data-IsRunning s id _ h) (λ t k. some-IfDefined IsRunning _ k)

  observe-IsRunning :
      (s : Monitor) (e : Event) (now : ℕ)
      → IsRunning s
      → IfDefined IsRunning (observe get_job any_type any_status s e now)
  unfolding observe
  observe-IsRunning s (status_changed id old new) now h =
      on_job_status_changed-IsRunning s id old new now h
  observe-IsRunning s (progress_updated id percent step) now h =
      on_job_progress_updated-IsRunning s id percent step now h
  observe-IsRunning s (metrics_updated id m) now h = update_job_metrics-IsRunning s id m now h

  -- What is undefined from every running monitor on is undefined after other events, too.
  pub observe_all-append-none :
      (es : List Event) (s : Monitor) (fs : List Event) (clock : ℕ → ℕ)
      → ((t : Monitor) (later : ℕ → ℕ)
          → IsRunning t
          → observe_all get_job any_type any_status t fs later ≡ none)
      → IsRunning s
      → observe_all get_job any_type any_status s (es ++ fs) clock ≡ none
  unfolding observe_all
  observe_all-append-none [] s fs clock h k = h s clock k
  observe_all-append-none (e ∷ es) s fs clock h k =
      then-none IsRunning (observe get_job any_type any_status s e (clock 0)) _
        (observe-IsRunning s e (clock 0) k)
        (λ t l. observe_all-append-none es t fs (λ n. clock (suc n)) h l)
