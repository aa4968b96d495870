-- ===== src/Jobs/Examples.antt =====
-- Jobs on a database that is the list of the statements that it has committed.
use mathlib.Core.List.{Memᴰ}
use mathlib.Core.List.Memᴰ.{head, tail}
use rclabs_api.Prelude.{
  ℕ, ◌≡◌, ◌≤◌, refl, ◌⊎◌, String, true, false, none, some, List, [], ◌∷◌, ◌++◌,
}
use rclabs_api.Errors.{constraint_violation}
use rclabs_api.Database.{Server, EtlException, within_scope, etl}
use rclabs_api.Database.Bodies.{Threw}
use rclabs_api.Jobs.State.{EtlJob, full_etl, load, pending, running, cancelled, empty_metrics}
use rclabs_api.Jobs.{DataRecord, execute_load_job, execute_job}
use rclabs_api.Jobs.Loops.{Balanced}
use rclabs_api.Jobs.Counts.{execute_job_counts}
use rclabs_api.Jobs.Monitoring.{Run, begin_monitored, monitored_work, execute_job_with_monitoring}
use rclabs_api.Jobs.Store.{
  Manager, EtlJobConfig, System, waiting, decided, cancel_job, cancellable, is_status,
}
use rclabs_api.Jobs.Worker.{
  Step, schedules, cancels, takes, checks, begins, ends, attaches, publishes, step, executions,
  executions-once,
}
use rclabs_api.Jobs.Cancellation.{Cancelled, cancel_job-Cancelled, cancel_job-lost}
use rclabs_api.Jobs.Monitored.{MonitoredEnd, execute_job_with_monitoring-MonitoredEnd}

abbrev log_server : Server (List String)
log_server = record { is_connected = λ d. true; transact = λ query d. (d ++ query ∷ [], true) }

abbrev as_it_is : DataRecord → DataRecord
as_it_is r = r

abbrev full_job : EtlJob
full_job = record {
  job_id = "job_1";
  job_type = full_etl;
  status = pending;
  source_config = "source";
  target_config = "target";
  created_at = 1;
  started_at = 0;
  completed_at = 0;
  error_message = "";
  records_processed = 0;
  records_successful = 0;
  records_failed = 0;
  metrics = empty_metrics;
  metrics_collector = none;
}

-- A load that fails by its name.
abbrev failing_job : EtlJob
failing_job = record full_job { job_id = "job_fail"; job_type = load }

execute_job_counts_example :
    Balanced (execute_job log_server as_it_is full_job [] 2 3).0.0
    × (Threw (execute_job log_server as_it_is full_job [] 2 3).1
        ⊎ ((execute_job log_server as_it_is full_job [] 2 3).0.0.records_processed ≡ 196))
execute_job_counts_example = execute_job_counts log_server as_it_is full_job [] 2 3 refl

abbrev row_refused : EtlException
row_refused = record {
  code = constraint_violation;
  message = "Simulated constraint violation during load";
}

abbrev failing_run : Run (List String)
failing_run = record { job = failing_job; database = []; events = [] }

execute_job_with_monitoring-MonitoredEnd_example :
    MonitoredEnd log_server
      (λ j. "UPDATE")
      3
      running
      ((pending, running) ∷ [])
      (some (etl row_refused))
      (execute_job_with_monitoring log_server (λ j. "UPDATE") as_it_is true failing_run 2 3)
unfolding monitored_work begin_monitored execute_load_job within_scope
execute_job_with_monitoring-MonitoredEnd_example =
    execute_job_with_monitoring-MonitoredEnd log_server (λ j. "UPDATE") as_it_is true failing_run 2
      3

-- A manager with one pending job, which its worker has decided to execute.
abbrev one_job : Manager
one_job = record {
  jobs = 0 ∷ [];
  job_queue = [];
  is_running = true;
  has_monitor = false;
  store = λ i. full_job;
  next_job = 1;
  status_changes = [];
}

abbrev deciding : System
deciding = record { manager = one_job; worker = decided 0 }

cancel_job-Cancelled_example : Cancelled one_job "job_1" (0 ∷ []) (cancel_job one_job "job_1")
cancel_job-Cancelled_example = cancel_job-Cancelled one_job "job_1"

only_job : (k : ℕ) → Memᴰ k one_job.jobs → cancellable one_job "job_1" k ≡ true → k ≡ 0
only_job k (head e) c = e
only_job k (tail there) c = elim there [ ]

cancel_job-lost_example :
    let t = step deciding (cancels "job_1") in
    let u = step t (begins 5) in
    ((cancel_job one_job "job_1").1 ≡ true)
    × ((t.manager.store 0).status ≡ cancelled)
    × ((u.manager.store 0).status ≡ running)
unfolding cancellable is_status
cancel_job-lost_example = cancel_job-lost deciding 0 "job_1" 5 refl (head refl) refl only_job

abbrev new_system : System
new_system = record { manager = record one_job { jobs = []; next_job = 0 }; worker = waiting }

abbrev one_config : EtlJobConfig
one_config = record { config_id = ""; config_type = load; source = "source"; target = "target" }

abbrev some_steps : List Step
some_steps =
    attaches true
    ∷ schedules one_config "job_2" true 1
    ∷ takes
    ∷ checks
    ∷ begins 2
    ∷ ends none 3
    ∷ publishes "job_2" pending none
    ∷ takes
    ∷ []

executions-once_example : executions new_system 0 some_steps ≤ 1
executions-once_example = executions-once new_system some_steps 0 (refl, refl)
