-- ===== src/Jobs/Keeping.antt =====
-- The calls of ETLJobManager that leave the queue of the jobs as it is: getJob, getAllJobs and
-- publishJobStatusUpdate of src/etl_job_manager.cpp.
use rclabs_api.Prelude.{
  ℕ, ◌≤◌, ◌≡◌, refl, ◌∙◌, String, Bool, true, false, Option, none, some, List, [], ◌∷◌, arith,
  if◌then◌else◌,
}
use rclabs_api.Jobs.State.{JobStatus, EtlJob}
use rclabs_api.Jobs.Store.{
  Manager, put, new_job, find_job, loaded, get_job, with_rows, all_or_rows, publish_found,
  publish_job_status_update,
}

-- The queue is the same, and the next job is not an earlier one.
abbrev pub Keeps : Manager → Manager → Type 0
Keeps m n = (n.job_queue ≡ m.job_queue) × (m.next_job ≤ n.next_job)

loaded-Keeps : (m : Manager) (row : Option EtlJob) → Keeps m (loaded m row).0
unfolding loaded new_job
loaded-Keeps m none = (refl, omega arith)
loaded-Keeps m (some j) = (refl, omega arith)

pub get_job-Keeps :
    (m : Manager) (job_id : String) (row : Option EtlJob) → Keeps m (get_job m job_id row).0
unfolding get_job
get_job-Keeps m job_id row = go (find_job m job_id m.jobs)
  where
    go :
        (o : Option ℕ)
        → let x : Manager × Option ℕ = elim o [ some i ↦ (m, some i) | none ↦ loaded m row ] in
          Keeps m x.0
    go (some i) = (refl, omega arith)
    go none = loaded-Keeps m row

with_rows-Keeps : (rows : List EtlJob) (m : Manager) → Keeps m (with_rows m rows)
unfolding with_rows
with_rows-Keeps [] m = (refl, omega arith)
with_rows-Keeps (j ∷ js) m =
    let n = (loaded m (some j)).0 in
    let a = loaded-Keeps m (some j) in
    let b = with_rows-Keeps js n in (b.0 ∙ a.0, omega (arith, a.1, b.1))

pub all_or_rows-Keeps :
    (m : Manager) (is : List ℕ) (rows : List EtlJob) → Keeps m (all_or_rows m is rows).0
unfolding all_or_rows
all_or_rows-Keeps m [] rows = with_rows-Keeps rows m
all_or_rows-Keeps m (i ∷ is) rows = (refl, omega arith)

publish_found-Keeps :
    (m : Manager) (x : Manager × Option ℕ) (status : JobStatus)
    → Keeps m x.0
    → Keeps m (publish_found x status)
unfolding publish_found put
publish_found-Keeps m (n, none) status k = k
publish_found-Keeps m (n, some i) status k = k

pub publish-Keeps :
    (m : Manager) (job_id : String) (status : JobStatus) (row : Option EtlJob)
    → Keeps m (publish_job_status_update m job_id status row)
unfolding publish_job_status_update
publish-Keeps m job_id status row =
    pick m.has_monitor _ (publish_found-Keeps m _ status (get_job-Keeps m job_id row))
  where
    pick : (b : Bool) (n : Manager) → Keeps m n → Keeps m (if b then n else m)
    pick true n k = k
    pick false n k = (refl, omega arith)
