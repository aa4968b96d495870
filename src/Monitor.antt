-- ===== src/Monitor.antt =====
-- JobMonitorService of src/job_monitor_service.cpp: the tables of active and completed jobs, the
-- events of ETLJobManager, and what is passed on to the WebSocket clients and the notifications.
-- The calls of WebSocketManager and NotificationService that are made are kept in `outgoing`. What
-- ETLJobManager::getJob answers is the parameter `get_job`; the type and the status that a new
-- JobMonitoringData has are not initialised in the source and are the parameters `any_type` and
-- `any_status`. `none` stands for a mutex that a thread locks twice, which is undefined.
-- The mutex of the tables is written out where it is held during another call that locks it, and
-- is free between the calls; where a call only takes and releases it, it is left out.
pub mod Defined
pub mod Running
pub mod Deadlock
pub mod Tables
mod Examples
use rclabs_api.Prelude.{
  ℕ, suc, ◌+◌, ◌-◌, ◌*◌, ◌/◌, ◌==◌, String, str_eq, Bool, true, false, not, ◌&&◌, ◌||◌, ltb, leb,
  Option, none, some, ◌>>=◌, List, [], ◌∷◌, ◌++◌, length, drop, Dict, lookup, insert, erase,
  keep_values, values, keys, if◌then◌else◌,
}
use rclabs_api.Jobs.State.{
  JobType, JobStatus, pending, running, completed, failed, cancelled, JobMetrics, empty_metrics,
  EtlJob,
}
use rclabs_api.Jobs.Monitoring.{Event, status_changed, progress_updated, metrics_updated}
use rclabs_api.Monitoring.Messages.{
  JobStatusUpdate, JobMonitoringData, LogMessage, same_status, update_execution_time, is_active,
}

-- The calls that the service makes.
pub data Outgoing : Type 0 where
  status_update : JobStatusUpdate → Outgoing
  progress : String → ℕ → String → Outgoing
  log : LogMessage → Outgoing
  metrics : String → JobMetrics → Outgoing
  failure_alert : String → String → Outgoing
  timeout_warning : String → ℕ → Outgoing

pub record Monitor : Type 0 where
  pub is_running : Bool
  pub active_jobs : Dict JobMonitoringData
  pub completed_jobs : Dict JobMonitoringData
  pub locked : Bool
  pub metrics_history : Dict (List JobMetrics)
  pub max_metrics_history_size : ℕ
  pub max_recent_logs : ℕ
  pub progress_update_threshold : ℕ
  pub notifications_enabled : Bool
  pub has_notifier : Bool
  pub outgoing : List Outgoing

unfoldable pub new_monitor : Bool → Monitor
new_monitor notifier = record {
  is_running = false;
  active_jobs = [];
  completed_jobs = [];
  locked = false;
  metrics_history = [];
  max_metrics_history_size = 1000;
  max_recent_logs = 50;
  progress_update_threshold = 5;
  notifications_enabled = true;
  has_notifier = notifier;
  outgoing = [];
}

unfoldable pub lock_data : Monitor → Option Monitor
lock_data s = if s.locked then none else some (record s { locked = true })

unfoldable pub unlock_data : Monitor → Monitor
unlock_data s = record s { locked = false }

unfoldable pub calls_out : Monitor → Outgoing → Monitor
calls_out s o = record s { outgoing = s.outgoing ++ o ∷ [] }

unfoldable pub stop : Monitor → Monitor
stop s =
    if not s.is_running
    then s
    else record s { is_running = false; active_jobs = []; completed_jobs = [] }

abbrev error_text : String → Option String
error_text text = if str_eq text "" then none else some text

-- A job of the ETL manager as monitoring data, with a step.
unfoldable pub data_of : EtlJob → String → JobMonitoringData
unfolding empty_metrics
data_of j step =
    let m = empty_metrics in
    record {
      job_id = j.job_id;
      job_type = j.job_type;
      status = j.status;
      progress_percent = 0;
      current_step = step;
      start_time = j.started_at;
      created_at = j.created_at;
      completed_at = j.completed_at;
      execution_time = 0;
      metrics = record m {
        records_processed = j.records_processed;
        records_successful = j.records_successful;
        records_failed = j.records_failed;
      };
      recent_logs = [];
      error = error_text j.error_message;
    }

begin_with : Monitor → List EtlJob → Monitor
unfolding is_active data_of
begin_with s [] = s
begin_with s (j ∷ js) =
    let d = data_of j "Initialized from existing job" in
    begin_with
      (if is_active d
        then record s { active_jobs = insert j.job_id d s.active_jobs }
        else record s { completed_jobs = insert j.job_id d s.completed_jobs })
      js

-- With the jobs that the ETL manager has.
unfoldable pub start : Monitor → List EtlJob → Monitor
unfolding begin_with
start s jobs = if s.is_running then s else begin_with (record s { is_running = true }) jobs

unfoldable pub is_terminal : JobStatus → Bool
is_terminal completed = true
is_terminal failed = true
is_terminal cancelled = true
is_terminal pending = false
is_terminal running = false

unfoldable pub move_job_to_completed : Monitor → String → Monitor
move_job_to_completed s id = elim (lookup id s.active_jobs) [
  | none ↦ s
  | some d ↦ record s {
    completed_jobs = insert id d s.completed_jobs;
    active_jobs = erase id s.active_jobs;
  }
]

-- What a change of status makes of the data.
unfoldable pub after_status : JobStatus → ℕ → JobMonitoringData → JobMonitoringData
unfolding update_execution_time is_terminal same_status
after_status new now d =
    let changed = record d {
      status = new;
      start_time = if same_status new running && d.start_time == 0 then now else d.start_time;
    } in
    if is_terminal new
    then update_execution_time (record changed { completed_at = now }) now
    else changed

unfoldable pub with_progress : ℕ → String → ℕ → JobMonitoringData → JobMonitoringData
unfolding update_execution_time
with_progress percent step now d =
    update_execution_time (record d { progress_percent = percent; current_step = step }) now

unfoldable pub with_metrics : JobMetrics → ℕ → JobMonitoringData → JobMonitoringData
unfolding update_execution_time
with_metrics m now d = update_execution_time (record d { metrics = m }) now

-- A log is appended, and the oldest goes if there are now too many.
unfoldable pub with_log : ℕ → String → JobMonitoringData → JobMonitoringData
with_log max entry d =
    let logs = d.recent_logs ++ entry ∷ [] in
    record d { recent_logs = if ltb max (length logs) then drop 1 logs else logs }

unfoldable pub should_update_progress : Monitor → String → ℕ → Bool
should_update_progress s id percent = elim (lookup id s.active_jobs) [
  | none ↦ true
  | some d ↦
      leb s.progress_update_threshold
        ((percent - d.progress_percent) + (d.progress_percent - percent))
]

abbrev or_empty : Option (List JobMetrics) → List JobMetrics
or_empty none = []
or_empty (some history) = history

-- Without the cleanup of every hour.
unfoldable pub store_metrics_snapshot : Monitor → String → JobMetrics → Monitor
store_metrics_snapshot s id m =
    let history = or_empty (lookup id s.metrics_history) ++ m ∷ [] in
    record s {
      metrics_history =
          insert id
            (if ltb s.max_metrics_history_size (length history) then drop 1 history else history)
            s.metrics_history;
    }

module _ (get_job : String → Option EtlJob) (any_type : JobType) (any_status : JobStatus) where
  -- A JobMonitoringData of which the identifier and the step are set.
  unfoldable pub fresh_data : String → String → JobMonitoringData
  unfolding empty_metrics
  fresh_data id step = record {
    job_id = id;
    job_type = any_type;
    status = any_status;
    progress_percent = 0;
    current_step = step;
    start_time = 0;
    created_at = 0;
    completed_at = 0;
    execution_time = 0;
    metrics = empty_metrics;
    recent_logs = [];
    error = none;
  }

  unfoldable pub initial_data : String → JobMonitoringData
  unfolding fresh_data data_of
  initial_data id = elim (get_job id) [
    | none ↦ fresh_data id "Job monitoring initialized"
    | some j ↦ record (data_of j "Job monitoring initialized") { job_id = id }
  ]

  ensured : Monitor → String → Monitor
  unfolding initial_data
  ensured s id = elim (lookup id s.active_jobs) [
    | some d ↦ s
    | none ↦ record s { active_jobs = insert id (initial_data id) s.active_jobs }
  ]

  unfoldable pub create_job_monitoring_data : Monitor → String → Option Monitor
  unfolding lock_data unlock_data ensured
  create_job_monitoring_data s id = lock_data s >>= λ l. some (unlock_data (ensured l id))

  unfoldable pub updated :
      Monitor
      → String
      → (JobMonitoringData → JobMonitoringData)
      → Option JobMonitoringData
      → Option Monitor
  unfolding create_job_monitoring_data unlock_data
  updated s id updater (some d) =
      some (unlock_data (record s { active_jobs = insert id (updater d) s.active_jobs }))
  updated s id updater none = create_job_monitoring_data s id >>= λ t.
      elim (lookup id t.active_jobs) [
        | none ↦ some (unlock_data t)
        | some d ↦
            some (unlock_data (record t { active_jobs = insert id (updater d) t.active_jobs }))
      ]

  -- The mutex is held while the data of a job that is not active is created.
  unfoldable pub update_job_monitoring_data :
      Monitor → String → (JobMonitoringData → JobMonitoringData) → Option Monitor
  unfolding lock_data updated
  update_job_monitoring_data s id updater =
      lock_data s >>= λ l. updated l id updater (lookup id l.active_jobs)

  -- Without the tables, the job of the ETL manager, if it has one.
  unfoldable pub manager_data : String → JobMonitoringData
  unfolding fresh_data data_of
  manager_data id = elim (get_job id) [
    | none ↦ fresh_data id ""
    | some j ↦ data_of j "Retrieved from ETL Job Manager"
  ]

  unfoldable pub found_data : Monitor → String → JobMonitoringData
  unfolding manager_data
  found_data s id = elim (lookup id s.active_jobs) [
    | some d ↦ d
    | none ↦ elim (lookup id s.completed_jobs) [ some d ↦ d | none ↦ manager_data id ]
  ]

  unfoldable pub get_job_monitoring_data : Monitor → String → Option JobMonitoringData
  unfolding lock_data found_data
  get_job_monitoring_data s id = lock_data s >>= λ l. some (found_data l id)

  unfoldable pub create_job_status_update :
      Monitor → String → JobStatus → JobStatus → ℕ → Option JobStatusUpdate
  unfolding get_job_monitoring_data
  create_job_status_update s id old new now = get_job_monitoring_data s id >>= λ d. some (record {
    job_id = id;
    status = new;
    previous_status = old;
    timestamp = now;
    progress_percent = d.progress_percent;
    current_step = d.current_step;
    error = d.error;
    metrics = d.metrics;
  })

  abbrev or_unknown : Option String → String
  or_unknown none = "Unknown error occurred"
  or_unknown (some text) = text

  -- Half an hour is 1,800,000 milliseconds.
  alert_for : Monitor → String → JobStatus → JobMonitoringData → Monitor
  unfolding calls_out
  alert_for s id failed d = calls_out s (failure_alert id (or_unknown d.error))
  alert_for s id running d =
      if ltb 1800000 d.execution_time
      then calls_out s (timeout_warning id (d.execution_time / 60000))
      else s
  alert_for s id _ d = s

  unfoldable pub check_and_send_notifications :
      Monitor → String → JobStatus → JobStatus → Option Monitor
  unfolding get_job_monitoring_data alert_for
  check_and_send_notifications s id old new =
      if not s.notifications_enabled || not s.has_notifier
      then some s
      else (get_job_monitoring_data s id >>= λ d. some (alert_for s id new d))

  -- The clients are told, a job that has ended is moved, and what must be is notified.
  unfoldable pub tell_status :
      Monitor → String → JobStatus → JobStatus → JobStatusUpdate → Option Monitor
  unfolding calls_out is_terminal move_job_to_completed check_and_send_notifications
  tell_status s id old new update =
      let told = calls_out s (status_update update) in
      let moved = if is_terminal new then move_job_to_completed told id else told in
      check_and_send_notifications moved id old new

  unfoldable pub update_and_tell : Monitor → String → JobStatus → JobStatus → ℕ → Option Monitor
  unfolding create_job_status_update tell_status
  update_and_tell s id old new now =
      create_job_status_update s id old new now >>= tell_status s id old new

  unfoldable pub change_status : Monitor → String → JobStatus → JobStatus → ℕ → Option Monitor
  unfolding update_job_monitoring_data after_status update_and_tell
  change_status s id old new now = update_job_monitoring_data s id (after_status new now) >>= λ t.
      update_and_tell t id old new now

  unfoldable pub begin_status : Monitor → String → JobStatus → JobStatus → Option Monitor
  unfolding create_job_monitoring_data same_status
  begin_status s id old new =
      if same_status old pending && same_status new running
      then create_job_monitoring_data s id
      else some s

  unfoldable pub on_job_status_changed :
      Monitor → String → JobStatus → JobStatus → ℕ → Option Monitor
  unfolding begin_status change_status
  on_job_status_changed s id old new now =
      if not s.is_running
      then some s
      else (begin_status s id old new >>= λ t. change_status t id old new now)

  unfoldable pub on_job_progress_updated : Monitor → String → ℕ → String → ℕ → Option Monitor
  unfolding should_update_progress update_job_monitoring_data with_progress calls_out
  on_job_progress_updated s id percent step now =
      if not s.is_running
      then some s
      else if not (should_update_progress s id percent)
      then some s
      else (update_job_monitoring_data s id (with_progress percent step now) >>= λ t.
          some (calls_out t (progress id percent step)))

  unfoldable pub update_job_metrics : Monitor → String → JobMetrics → ℕ → Option Monitor
  unfolding update_job_monitoring_data with_metrics store_metrics_snapshot calls_out
  update_job_metrics s id m now = update_job_monitoring_data s id (with_metrics m now) >>= λ t.
      some (calls_out (store_metrics_snapshot t id m) (metrics id m))

  -- The broadcast goes through the circuit breaker of the service, which lets it pass here.
  unfoldable pub on_job_log_generated : Monitor → String → LogMessage → Option Monitor
  unfolding update_job_monitoring_data with_log calls_out
  on_job_log_generated s id m =
      if not s.is_running
      then some s
      else (update_job_monitoring_data s id (with_log s.max_recent_logs m.message) >>= λ t.
          some (calls_out t (log m)))

  -- The events that ETLJobManager tells, each at its time.
  unfoldable pub observe : Monitor → Event → ℕ → Option Monitor
  unfolding on_job_status_changed on_job_progress_updated update_job_metrics
  observe s (status_changed id old new) now = on_job_status_changed s id old new now
  observe s (progress_updated id percent step) now = on_job_progress_updated s id percent step now
  observe s (metrics_updated id m) now = update_job_metrics s id m now

  -- Of which the clock gives the time of each by its position.
  unfoldable pub observe_all : Monitor → List Event → (ℕ → ℕ) → Option Monitor
  unfolding observe
  observe_all s [] clock = some s
  observe_all s (e ∷ es) clock =
      observe s e (clock 0) >>= λ t. observe_all t es (λ n. clock (suc n))

unfoldable pub get_all_active_jobs : Monitor → List JobMonitoringData
get_all_active_jobs s = values s.active_jobs

unfoldable pub get_jobs_by_status : Monitor → JobStatus → List JobMonitoringData
unfolding is_terminal same_status
get_jobs_by_status s status =
    let in_active = values (keep_values (λ d. same_status d.status status) s.active_jobs) in
    let in_completed = values (keep_values (λ d. same_status d.status status) s.completed_jobs) in
    if is_terminal status then in_active ++ in_completed else in_active

unfoldable pub get_active_job_count : Monitor → ℕ
get_active_job_count s = length s.active_jobs

unfoldable pub get_active_job_ids : Monitor → List String
get_active_job_ids s = keys s.active_jobs

unfoldable pub is_job_active : Monitor → String → Bool
is_job_active s id = elim (lookup id s.active_jobs) [ none ↦ false | some d ↦ true ]

unfoldable pub get_job_metrics : Monitor → String → JobMetrics
unfolding empty_metrics
get_job_metrics s id = elim (lookup id s.active_jobs) [
  | some d ↦ d.metrics
  | none ↦ elim (lookup id s.completed_jobs) [ some d ↦ d.metrics | none ↦ empty_metrics ]
]

-- Completed jobs are kept for 24 hours of milliseconds.
unfoldable pub cleanup_old_jobs : Monitor → ℕ → Monitor
cleanup_old_jobs s now = record s {
  completed_jobs = keep_values (λ d. leb now (d.completed_at + 86400000)) s.completed_jobs;
}

unfoldable pub set_max_recent_logs : Monitor → ℕ → Monitor
set_max_recent_logs s max = record s { max_recent_logs = max }

unfoldable pub set_progress_update_threshold : Monitor → ℕ → Monitor
set_progress_update_threshold s threshold = record s { progress_update_threshold = threshold }

unfoldable pub enable_notifications : Monitor → Bool → Monitor
enable_notifications s enabled = record s { notifications_enabled = enabled }
