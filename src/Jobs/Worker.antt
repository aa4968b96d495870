-- ===== src/Jobs/Worker.antt =====
-- The calls of the manager and the steps of its worker, in any order.
use rclabs_api.Prelude.{
  ℕ, suc, ◌+◌, ◌≤◌, ◌≡◌, refl, ap, String, Bool, true, false, Option, none, some, List, [], ◌∷◌,
  ◌++◌, leb, ◌==◌, arith, if◌then◌else◌,
}
use rclabs_api.Database.{Failure}
use rclabs_api.Jobs.State.{JobStatus, EtlJob, pending}
use rclabs_api.Jobs.Store.{
  set_job_monitor_service, EtlJobConfig, Manager, schedule_job, cancel_job, cancel_first,
  cancellable, start, stop, put, new_job, is_status, Worker, waiting, terminated, holding, decided,
  executing, System, take_first, worker_take, worker_check, worker_begin, worker_end, get_job,
  get_all_jobs, publish_job_status_update,
}
use rclabs_api.Jobs.Keeping.{Keeps, get_job-Keeps, all_or_rows-Keeps, publish-Keeps}

pub data Step : Type 0 where
  schedules : EtlJobConfig → String → Bool → ℕ → Step
  cancels : String → Step
  starts stops takes checks : Step
  begins : ℕ → Step
  ends : Option Failure → ℕ → Step
  gets : String → Option EtlJob → Step
  gets_all : List EtlJob → Step
  attaches : Bool → Step
  publishes : String → JobStatus → Option EtlJob → Step

unfoldable pub with_manager : System → Manager → System
with_manager s m = record s { manager = m }

unfoldable pub step : System → Step → System
unfolding with_manager schedule_job cancel_job start stop worker_take worker_check worker_begin
    worker_end get_job get_all_jobs set_job_monitor_service publish_job_status_update
step s (schedules config generated saved now) =
    with_manager s (schedule_job s.manager config generated saved now).0
step s (cancels job_id) = with_manager s (cancel_job s.manager job_id).0
step s starts = with_manager s (start s.manager)
step s stops = with_manager s (stop s.manager)
step s takes = worker_take s s.worker
step s checks = worker_check s s.worker
step s (begins now) = worker_begin s s.worker now
step s (ends o now) = worker_end s s.worker o now
step s (gets job_id row) = with_manager s (get_job s.manager job_id row).0
step s (gets_all rows) = with_manager s (get_all_jobs s.manager rows).0
step s (attaches monitor) = with_manager s (set_job_monitor_service s.manager monitor)
step s (publishes job_id status row) =
    with_manager s (publish_job_status_update s.manager job_id status row)

pub steps : System → List Step → System
unfolding step
steps s [] = s
steps s (t ∷ ts) = steps (step s t) ts

-- How often a job is in the queue.
abbrev queued : ℕ → List ℕ → ℕ
queued i [] = 0
queued i (j ∷ js) = if i == j then suc (queued i js) else queued i js

-- Whether the worker has the job before it is executed.
abbrev held : ℕ → Worker → ℕ
held i (holding j) = if i == j then 1 else 0
held i (decided j) = if i == j then 1 else 0
held i _ = 0

-- How often a job may still be executed.
abbrev pub left : System → ℕ → ℕ
left s i =
    (queued i s.manager.job_queue + held i s.worker) + (if leb s.manager.next_job i then 1 else 0)

-- Whether a step starts the execution of a job.
abbrev started : ℕ → Worker → ℕ
started i (decided j) = if i == j then 1 else 0
started i _ = 0

abbrev executes : System → ℕ → Step → ℕ
executes s i (begins now) = started i s.worker
executes s i _ = 0

-- How often the execution of a job is started.
abbrev pub executions : System → ℕ → List Step → ℕ
executions s i [] = 0
executions s i (t ∷ ts) = executes s i t + executions (step s t) i ts

queued-append :
    (i : ℕ) (js : List ℕ) (k : ℕ) → queued i (js ++ k ∷ []) ≡ queued i js + queued i (k ∷ [])
queued-append i [] k = omega arith
queued-append i (j ∷ js) k = ground (arith, queued-append i js k)

cancel_first-same :
    (m : Manager) (job_id : String) (is : List ℕ)
    → ((cancel_first m job_id is).0.job_queue ≡ m.job_queue)
      × ((cancel_first m job_id is).0.next_job ≡ m.next_job)
unfolding cancel_first put
cancel_first-same m job_id [] = (refl, refl)
cancel_first-same m job_id (i ∷ is) =
    pick (cancellable m job_id i) _ _ (refl, refl) (cancel_first-same m job_id is)
  where
    pick :
        (b : Bool) (x y : Manager × Bool)
        → (x.0.job_queue ≡ m.job_queue) × (x.0.next_job ≡ m.next_job)
        → (y.0.job_queue ≡ m.job_queue) × (y.0.next_job ≡ m.next_job)
        → let z : Manager × Bool = if b then x else y in
          (z.0.job_queue ≡ m.job_queue) × (z.0.next_job ≡ m.next_job)
    pick true x y v w = v
    pick false x y v w = w

choose-left :
    (b : Bool) (x y : System) (i n : ℕ)
    → left x i ≤ n
    → left y i ≤ n
    → left (if b then x else y) i ≤ n
choose-left true x y i n f g = f
choose-left false x y i n f g = g

first-left :
    (m : Manager) (q : List ℕ) (i : ℕ)
    → m.job_queue ≡ q
    → left (take_first m q) i ≤ left (record { manager = m; worker = waiting }) i
unfolding take_first
first-left m [] i e = omega arith
first-left m (j ∷ js) i e = ground (arith, ap (queued i) e)

take-left : (s : System) (w : Worker) (i : ℕ) → s.worker ≡ w → left (worker_take s w) i ≤ left s i
unfolding worker_take
take-left s waiting i e =
    choose-left s.manager.is_running _ _ i (left s i)
      (omega (arith, first-left s.manager s.manager.job_queue i refl, ap (held i) e)) (omega arith)
take-left s terminated i e = omega arith
take-left s (holding j) i e = omega arith
take-left s (decided j) i e = omega arith
take-left s (executing j) i e = omega arith

check-left : (s : System) (w : Worker) (i : ℕ) → s.worker ≡ w → left (worker_check s w) i ≤ left s i
unfolding worker_check
check-left s waiting i e = omega arith
check-left s terminated i e = omega arith
check-left s (holding j) i e =
    choose-left (is_status (s.manager.store j).status pending) _ _ i (left s i)
      (omega (arith, ap (held i) e)) (omega (arith, ap (held i) e))
check-left s (decided j) i e = omega arith
check-left s (executing j) i e = omega arith

begin-left :
    (s : System) (w : Worker) (i now : ℕ)
    → s.worker ≡ w
    → started i w + left (worker_begin s w now) i ≤ left s i
unfolding worker_begin put
begin-left s waiting i now e = omega arith
begin-left s terminated i now e = omega arith
begin-left s (holding j) i now e = omega arith
begin-left s (decided j) i now e = omega (arith, ap (held i) e)
begin-left s (executing j) i now e = omega arith

end-left :
    (s : System) (w : Worker) (i : ℕ) (o : Option Failure) (now : ℕ)
    → s.worker ≡ w
    → left (worker_end s w o now) i ≤ left s i
unfolding worker_end put
end-left s waiting i o now e = omega arith
end-left s terminated i o now e = omega arith
end-left s (holding j) i o now e = omega arith
end-left s (decided j) i o now e = omega arith
end-left s (executing j) i none now e = omega (arith, ap (held i) e)
end-left s (executing j) i (some f) now e = omega (arith, ap (held i) e)

Keeps-left :
    (s : System) (n : Manager) (i : ℕ) → Keeps s.manager n → left (with_manager s n) i ≤ left s i
unfolding with_manager
Keeps-left s n i (same, later) = ground (arith, ap (queued i) same)

step-left : (s : System) (i : ℕ) (t : Step) → executes s i t + left (step s t) i ≤ left s i
unfolding step with_manager schedule_job new_job cancel_job start stop get_all_jobs
    set_job_monitor_service
step-left s i (schedules config generated true now) =
    ground (arith, queued-append i s.manager.job_queue s.manager.next_job)
step-left s i (schedules config generated false now) = omega arith
step-left s i (cancels job_id) =
    let same = cancel_first-same s.manager job_id s.manager.jobs in
    let e : left (step s (cancels job_id)) i ≡ left s i =
      λ k. (queued i (same.0 k) + held i s.worker) + (if leb (same.1 k) i then 1 else 0) in
    omega (arith, e)
step-left s i starts = ground arith
step-left s i stops = ground arith
step-left s i takes = omega (arith, take-left s s.worker i refl)
step-left s i checks = omega (arith, check-left s s.worker i refl)
step-left s i (begins now) = omega (arith, begin-left s s.worker i now refl)
step-left s i (ends o now) = omega (arith, end-left s s.worker i o now refl)
step-left s i (gets job_id row) =
    let e : left (step s (gets job_id row)) i ≤ left s i =
      Keeps-left s (get_job s.manager job_id row).0 i (get_job-Keeps s.manager job_id row) in
    omega (arith, e)
step-left s i (gets_all rows) =
    let e : left (step s (gets_all rows)) i ≤ left s i =
      Keeps-left s (get_all_jobs s.manager rows).0 i
        (all_or_rows-Keeps s.manager s.manager.jobs rows) in
    omega (arith, e)
step-left s i (attaches monitor) = omega arith
step-left s i (publishes job_id status row) =
    let e : left (step s (publishes job_id status row)) i ≤ left s i =
      Keeps-left s (publish_job_status_update s.manager job_id status row) i
        (publish-Keeps s.manager job_id status row) in
    omega (arith, e)

steps-left : (ts : List Step) (s : System) (i : ℕ) → executions s i ts ≤ left s i
steps-left [] s i = omega arith
steps-left (t ∷ ts) s i = omega (arith, step-left s i t, steps-left ts (step s t) i)

-- The manager is new: it has no job, and its worker waits.
abbrev pub IsNew : System → Type 0
IsNew s = (s.manager.job_queue ≡ []) × (s.worker ≡ waiting)

-- Whatever calls come on a new manager that change its jobs, its queue, whether it runs or whether
-- it has a monitor, between whatever steps of its worker, no job is executed twice, not even one
-- that a published status has set back to pending.
pub executions-once : (s : System) (ts : List Step) (i : ℕ) → IsNew s → executions s i ts ≤ 1
executions-once s ts i (no_jobs, waits) =
    let at_most : (if leb s.manager.next_job i then 1 else 0) ≤ 1 = ground arith in
    omega (arith, steps-left ts s i, ap (queued i) no_jobs, ap (held i) waits, at_most)
