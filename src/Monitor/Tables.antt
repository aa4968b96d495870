-- ===== src/Monitor/Tables.antt =====
-- The tables of the monitor of src/job_monitor_service.cpp after an active job has ended.
use rclabs_api.Prelude.{
  ◌≡◌, refl, ◌∙◌, ap, ℕ, String, eq_iff, Bool, true, false, ◌&&◌, Option, none, some, List, [], ◌∷◌,
  ◌++◌, append_assoc, append-nil, Dict, lookup, insert, erase, lookup-insert, lookup-erase,
  if◌then◌else◌, arith,
}
use rclabs_api.Jobs.State.{
  JobType, JobStatus, running, failed, pending, completed, cancelled, EtlJob,
}
use rclabs_api.Monitoring.Messages.{JobStatusUpdate, JobMonitoringData}
use rclabs_api.Monitor.{
  Monitor, Outgoing, status_update, failure_alert, lock_data, unlock_data, calls_out, is_terminal,
  move_job_to_completed, updated, update_job_monitoring_data, alert_for, or_unknown,
  check_and_send_notifications, tell_status, update_and_tell, change_status, begin_status,
  create_job_status_update, after_status, on_job_status_changed, found_data,
  get_job_monitoring_data,
}
use rclabs_api.Monitor.Defined.{then-some, else_branch, then_branch}

module _ (get_job : String → Option EtlJob) (any_type : JobType) (any_status : JobStatus) where
  -- A monitor that holds no mutex.
  abbrev pub IsFree : Monitor → Type 0
  IsFree s = s.locked ≡ false

  begin_status-terminal :
      (s : Monitor) (id : String) (old new : JobStatus)
      → is_terminal new ≡ true
      → begin_status get_job any_type any_status s id old new ≡ some s
  unfolding begin_status is_terminal
  begin_status-terminal s id old completed h = ground arith
  begin_status-terminal s id old failed h = ground arith
  begin_status-terminal s id old cancelled h = ground arith
  begin_status-terminal s id old pending h = ground arith
  begin_status-terminal s id old running h = ground arith

  update_job_monitoring_data-active :
      (s : Monitor) (id : String) (f : JobMonitoringData → JobMonitoringData)
      (d : JobMonitoringData)
      → IsFree s
      → lookup id s.active_jobs ≡ some d
      → update_job_monitoring_data get_job any_type any_status s id f
        ≡ some (record s { locked = false; active_jobs = insert id (f d) s.active_jobs })
  unfolding update_job_monitoring_data updated lock_data unlock_data
  update_job_monitoring_data-active s id f d h k = ground arith

  get_job_monitoring_data-active :
      (s : Monitor) (id : String) (d : JobMonitoringData)
      → IsFree s
      → lookup id s.active_jobs ≡ some d
      → get_job_monitoring_data get_job any_type any_status s id ≡ some d
  unfolding get_job_monitoring_data found_data lock_data
  get_job_monitoring_data-active s id d h k = ground arith

  get_job_monitoring_data-completed :
      (s : Monitor) (id : String) (d : JobMonitoringData)
      → IsFree s
      → lookup id s.active_jobs ≡ none
      → lookup id s.completed_jobs ≡ some d
      → get_job_monitoring_data get_job any_type any_status s id ≡ some d
  unfolding get_job_monitoring_data found_data lock_data
  get_job_monitoring_data-completed s id d h k l = ground arith

  move_job_to_completed-active :
      (s : Monitor) (id : String) (d : JobMonitoringData)
      → lookup id s.active_jobs ≡ some d
      → move_job_to_completed s id ≡ record s {
        completed_jobs = insert id d s.completed_jobs;
        active_jobs = erase id s.active_jobs;
      }
  unfolding move_job_to_completed
  move_job_to_completed-active s id d h = ground arith

  -- The alerts of a job that has ended.
  unfoldable pub alerts : Bool → String → JobStatus → JobMonitoringData → List Outgoing
  alerts enabled id failed d =
      if enabled then failure_alert id (or_unknown get_job any_type any_status d.error) ∷ [] else []
  alerts enabled id _ d = []

  abbrev pub update_of : String → JobStatus → JobStatus → ℕ → JobMonitoringData → JobStatusUpdate
  update_of id old new now d = record {
    job_id = id;
    status = new;
    previous_status = old;
    timestamp = now;
    progress_percent = d.progress_percent;
    current_step = d.current_step;
    error = d.error;
    metrics = d.metrics;
  }

  -- What a change of status to the end of an active job makes of a monitor.
  pub record Ended (s : Monitor) (id : String) (old new : JobStatus) (now : ℕ)
      (d : JobMonitoringData) (t : Monitor) : Type 0 where
    pub taken_off : lookup id t.active_jobs ≡ none
    pub kept : lookup id t.completed_jobs ≡ some d
    pub free : t.locked ≡ false
    pub told :
        t.outgoing
        ≡ s.outgoing
          ++ status_update (update_of id old new now d)
            ∷ alerts (s.notifications_enabled && s.has_notifier) id new d

  check-terminal :
      (s : Monitor) (id : String) (old new : JobStatus) (d : JobMonitoringData)
      → is_terminal new ≡ true
      → get_job_monitoring_data get_job any_type any_status s id ≡ some d
      → check_and_send_notifications get_job any_type any_status s id old new
        ≡ some (record s {
          outgoing = s.outgoing ++ alerts (s.notifications_enabled && s.has_notifier) id new d;
        })
  unfolding check_and_send_notifications alerts alert_for calls_out is_terminal
  check-terminal s id old completed d h k = ground (arith, append-nil s.outgoing)
  check-terminal s id old failed d h k = ground (arith, append-nil s.outgoing)
  check-terminal s id old cancelled d h k = ground (arith, append-nil s.outgoing)
  check-terminal s id old pending d h k = ground arith
  check-terminal s id old running d h k = ground arith

  lookup-inserted :
      {V : Type 0} (id : String) (v : V) (d : Dict V) → lookup id (insert id v d) ≡ some v
  lookup-inserted id v d = rw (lookup-insert id id v d, (eq_iff id id).1 refl) refl

  lookup-erased : {V : Type 0} (id : String) (d : Dict V) → lookup id (erase id d) ≡ none
  lookup-erased id d = rw (lookup-erase id id d, (eq_iff id id).1 refl) refl

  -- Its parts: the data stored, the call of the clients, the move, and the alerts.
  abbrev stored : Monitor → String → JobMonitoringData → Monitor
  stored s id d = record s { locked = false; active_jobs = insert id d s.active_jobs }

  abbrev moved : Monitor → String → JobMonitoringData → Monitor
  moved s id d = record s {
    completed_jobs = insert id d s.completed_jobs;
    active_jobs = erase id s.active_jobs;
  }

  abbrev alerted : Monitor → String → JobStatus → JobMonitoringData → Monitor
  alerted s id new d = record s {
    outgoing = s.outgoing ++ alerts (s.notifications_enabled && s.has_notifier) id new d;
  }

  tell_status-active :
      (s : Monitor) (id : String) (old new : JobStatus) (u : JobStatusUpdate)
      (d : JobMonitoringData)
      → IsFree s
      → is_terminal new ≡ true
      → lookup id s.active_jobs ≡ some d
      → tell_status get_job any_type any_status s id old new u
        ≡ some (alerted (moved (calls_out s (status_update u)) id d) id new d)
  unfolding tell_status calls_out
  tell_status-active s id old new u d free h k =
      let told = calls_out s (status_update u) in
      ap (λ m. check_and_send_notifications get_job any_type any_status m id old new)
        (then_branch (is_terminal new) (move_job_to_completed told id) told h
          ∙ move_job_to_completed-active told id d k)
      ∙ check-terminal (moved told id d) id old new d h (
          get_job_monitoring_data-completed (moved told id d) id d free
            (lookup-erased id s.active_jobs) (lookup-inserted id d s.completed_jobs))

  update_and_tell-active :
      (s : Monitor) (id : String) (old new : JobStatus) (now : ℕ) (d : JobMonitoringData)
      → IsFree s
      → is_terminal new ≡ true
      → lookup id s.active_jobs ≡ some d
      → update_and_tell get_job any_type any_status s id old new now
        ≡ some (
            alerted
              (moved (calls_out s (status_update (update_of id old new now d))) id d)
              id
              new
              d)
  unfolding update_and_tell create_job_status_update
  update_and_tell-active s id old new now d free h k =
      then-some (create_job_status_update get_job any_type any_status s id old new now)
        (update_of id old new now d) (tell_status get_job any_type any_status s id old new) _
        (then-some (get_job_monitoring_data get_job any_type any_status s id) d _
          (some (update_of id old new now d)) (get_job_monitoring_data-active s id d free k) refl)
        (tell_status-active s id old new (update_of id old new now d) d free h k)

  -- An active job of a running monitor whose mutex is free that ends is completed, with the data that
  -- it then has, and no longer active; the clients are told its status of before and of now, and of a
  -- failure an alert is sent, if notifications are enabled and there is a service for them. Nothing
  -- else is told, and the mutex is free again.
  pub on_job_status_changed-Ended :
      (s : Monitor) (id : String) (old new : JobStatus) (now : ℕ) (d : JobMonitoringData)
      → s.is_running ≡ true
      → IsFree s
      → is_terminal new ≡ true
      → lookup id s.active_jobs ≡ some d
      → (t : Monitor) × (on_job_status_changed get_job any_type any_status s id old new now
          ≡ some t)
        × Ended s id old new now (after_status new now d) t
  unfolding on_job_status_changed change_status
  on_job_status_changed-Ended s id old new now d runs free h k =
      let e = after_status new now d in
      let a : Monitor = stored s id e in
      let t : Monitor =
        alerted (moved (calls_out a (status_update (update_of id old new now e))) id e) id new e in
      (
        t,
        else_branch s.is_running (some s) _ runs
            ∙ then-some (begin_status get_job any_type any_status s id old new) s _ (some t)
                (begin_status-terminal s id old new h)
                (then-some
                  (update_job_monitoring_data get_job any_type any_status s id
                    (after_status new now))
                  a _ (some t)
                  (update_job_monitoring_data-active s id (after_status new now) d free k)
                  (update_and_tell-active a id old new now e refl h
                    (lookup-inserted id e s.active_jobs))),
        record {
          taken_off = lookup-erased id a.active_jobs;
          kept = lookup-inserted id e s.completed_jobs;
          free = refl;
          told = append_assoc s.outgoing (status_update (update_of id old new now e) ∷ []) _;
        },
      )
