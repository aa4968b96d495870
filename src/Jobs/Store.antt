-- ===== src/Jobs/Store.antt =====
-- The jobs that ETLJobManager keeps, its queue and its worker thread (src/etl_job_manager.cpp).
-- Jobs are shared objects: the lists hold their identities, and `store` is where they stand. What
-- the repository answers is an argument. The worker goes through its loop in steps between which
-- it holds no lock, so that other calls may come there.
use rclabs_api.Prelude.{
  ℕ, suc, ◌==◌, String, str_eq, Bool, true, false, ◌&&◌, Option, none, some, List, [], ◌∷◌, ◌++◌,
  if◌then◌else◌,
}
use rclabs_api.Database.{Failure}
use rclabs_api.Jobs.State.{
  JobType, JobStatus, pending, running, completed, failed, cancelled, EtlJob, empty_metrics,
}
use rclabs_api.Jobs.{failure_message}

pub record EtlJobConfig : Type 0 where
  pub config_id : String
  pub config_type : JobType
  pub source : String
  pub target : String

pub record Manager : Type 0 where
  pub jobs : List ℕ
  pub job_queue : List ℕ
  pub is_running : Bool
  pub has_monitor : Bool
  pub store : ℕ → EtlJob
  pub next_job : ℕ
  pub status_changes : List (String × JobStatus × JobStatus)

unfoldable pub put : Manager → ℕ → EtlJob → Manager
put m i j = record m { store = λ k. if k == i then j else m.store k }

unfoldable pub set_status : EtlJob → JobStatus → EtlJob
set_status j status = record j { status = status }

-- A new object in the store.
unfoldable pub new_job : Manager → EtlJob → Manager
new_job m j = record m {
  next_job = suc m.next_job;
  store = λ k. if k == m.next_job then j else m.store k;
}

unfoldable pub scheduled : EtlJobConfig → String → ℕ → EtlJob
scheduled config generated now = record {
  job_id = if str_eq config.config_id "" then generated else config.config_id;
  job_type = config.config_type;
  status = pending;
  source_config = config.source;
  target_config = config.target;
  created_at = now;
  started_at = 0;
  completed_at = 0;
  error_message = "";
  records_processed = 0;
  records_successful = 0;
  records_failed = 0;
  metrics = empty_metrics;
  metrics_collector = none;
}

-- `scheduleJob`; `saved` is the answer of the repository, without which it throws.
unfoldable pub schedule_job : Manager → EtlJobConfig → String → Bool → ℕ → Manager × Option String
unfolding scheduled new_job
schedule_job m config generated false now = (m, none)
schedule_job m config generated true now =
    let j = scheduled config generated now in
    let n = new_job m j in
    (
      record n { jobs = m.jobs ++ m.next_job ∷ []; job_queue = m.job_queue ++ m.next_job ∷ [] },
      some j.job_id,
    )

unfoldable pub is_status : JobStatus → JobStatus → Bool
is_status pending pending = true
is_status running running = true
is_status completed completed = true
is_status failed failed = true
is_status cancelled cancelled = true
is_status s t = false

unfoldable pub cancellable : Manager → String → ℕ → Bool
unfolding is_status
cancellable m job_id i = str_eq (m.store i).job_id job_id && is_status (m.store i).status pending

-- The loop of `cancelJob`.
unfoldable pub cancel_first : Manager → String → List ℕ → Manager × Bool
unfolding cancellable put set_status
cancel_first m job_id [] = (m, false)
cancel_first m job_id (i ∷ is) =
    let rest = cancel_first m job_id is in
    if cancellable m job_id i then (put m i (set_status (m.store i) cancelled), true) else rest

unfoldable pub cancel_job : Manager → String → Manager × Bool
unfolding cancel_first
cancel_job m job_id = cancel_first m job_id m.jobs

pub find_job : Manager → String → List ℕ → Option ℕ
find_job m job_id [] = none
find_job m job_id (i ∷ is) =
    let rest = find_job m job_id is in if str_eq (m.store i).job_id job_id then some i else rest

unfoldable pub loaded : Manager → Option EtlJob → Manager × Option ℕ
unfolding new_job
loaded m none = (m, none)
loaded m (some j) =
    let n = new_job m j in (record n { jobs = m.jobs ++ m.next_job ∷ [] }, some m.next_job)

-- `getJob`; `row` is the job that the repository has.
unfoldable pub get_job : Manager → String → Option EtlJob → Manager × Option ℕ
unfolding find_job loaded
get_job m job_id row = elim (find_job m job_id m.jobs) [
  | some i ↦ (m, some i)
  | none ↦ loaded m row
]

with_status : Manager → JobStatus → List ℕ → List EtlJob
unfolding is_status
with_status m status [] = []
with_status m status (i ∷ is) =
    let rest = with_status m status is in
    if is_status (m.store i).status status then m.store i ∷ rest else rest

or_rows : List EtlJob → List EtlJob → List EtlJob
or_rows [] rows = rows
or_rows (j ∷ js) rows = j ∷ js

-- `getJobsByStatus`; `rows` are those of the repository.
pub get_jobs_by_status : Manager → JobStatus → List EtlJob → List EtlJob
unfolding with_status or_rows
get_jobs_by_status m status rows = or_rows (with_status m status m.jobs) rows

unfoldable pub with_rows : Manager → List EtlJob → Manager
unfolding loaded
with_rows m [] = m
with_rows m (j ∷ js) = with_rows (loaded m (some j)).0 js

-- `getAllJobs`; without a job in memory the rows of the repository are taken in.
unfoldable pub all_or_rows : Manager → List ℕ → List EtlJob → Manager × List ℕ
unfolding with_rows
all_or_rows m [] rows = let n = with_rows m rows in (n, n.jobs)
all_or_rows m (i ∷ is) rows = (m, i ∷ is)

unfoldable pub get_all_jobs : Manager → List EtlJob → Manager × List ℕ
unfolding all_or_rows
get_all_jobs m rows = all_or_rows m m.jobs rows

unfoldable pub publish_found : Manager × Option ℕ → JobStatus → Manager
unfolding put set_status
publish_found (m, none) status = m
publish_found (m, some i) status =
    let j = m.store i in
    let n = put m i (set_status j status) in
    record n { status_changes = m.status_changes ++ (j.job_id, j.status, status) ∷ [] }

-- `setJobMonitorService`; the flag is whether the monitor is there.
unfoldable pub set_job_monitor_service : Manager → Bool → Manager
set_job_monitor_service m monitor = record m { has_monitor = monitor }

unfoldable pub publish_job_status_update : Manager → String → JobStatus → Option EtlJob → Manager
unfolding publish_found get_job
publish_job_status_update m job_id status row =
    if m.has_monitor then publish_found (get_job m job_id row) status else m

unfoldable pub start : Manager → Manager
start m = if m.is_running then m else record m { is_running = true }

unfoldable pub stop : Manager → Manager
stop m = if m.is_running then record m { is_running = false } else m

-- Where the worker is in `workerLoop`: at its wait, with a job from the queue, decided to execute
-- it, executing it, or gone with an exception that nobody catches.
pub data Worker : Type 0 where
  waiting terminated : Worker
  holding decided executing : ℕ → Worker

pub record System : Type 0 where
  pub manager : Manager
  pub worker : Worker

unfoldable pub take_first : Manager → List ℕ → System
take_first m [] = record { manager = m; worker = waiting }
take_first m (i ∷ is) = record { manager = record m { job_queue = is }; worker = holding i }

unfoldable pub worker_take : System → Worker → System
unfolding take_first
worker_take s waiting = if s.manager.is_running then take_first s.manager s.manager.job_queue else s
worker_take s _ = s

unfoldable pub worker_check : System → Worker → System
unfolding is_status
worker_check s (holding i) =
    if is_status (s.manager.store i).status pending
    then record s { worker = decided i }
    else record s { worker = waiting }
worker_check s _ = s

-- The start of `executeJob`.
unfoldable pub worker_begin : System → Worker → ℕ → System
unfolding put
worker_begin s (decided i) now =
    let j = s.manager.store i in
    record {
      manager = put s.manager i (record j { status = running; started_at = now });
      worker = executing i;
    }
worker_begin s _ now = s

-- Its end, with what the work came to.
unfoldable pub worker_end : System → Worker → Option Failure → ℕ → System
unfolding put
worker_end s (executing i) none now =
    let j = s.manager.store i in
    record {
      manager = put s.manager i (record j { status = completed; completed_at = now });
      worker = waiting;
    }
worker_end s (executing i) (some f) now =
    let j = s.manager.store i in
    record {
      manager = put s.manager i (record j { status = failed; error_message = failure_message f });
      worker = terminated;
    }
worker_end s _ o now = s
