-- ===== src/Jobs/Statuses.antt =====
-- The work of a job leaves its status as it is.
use rclabs_api.Prelude.{
  ℕ, suc, zero, ◌+◌, ◌-◌, ◌*◌, min, ltb, ◌≡◌, refl, Bool, true, false, Option, if◌then◌else◌,
}
use rclabs_api.Database.{execute_query, Server, Failure}
use rclabs_api.Database.Bodies.{within_scope-keeps}
use rclabs_api.Jobs.State.{EtlJob, JobStatus}
use rclabs_api.Jobs.{
  DataRecord, add_batch, extract_batches, execute_extract_job, execute_transform_job, load_batches,
  execute_load_job, mentions, successful_of,
}

-- The status of a job at work.
pub add_batch-status : (j : EtlJob) (a b c d : ℕ) → (add_batch j a b c d).status ≡ j.status
unfolding add_batch
add_batch-status j a b c d = refl

if_status :
    (b : Bool) (j k : EtlJob) (s : JobStatus)
    → j.status ≡ s
    → k.status ≡ s
    → (if b then j else k).status ≡ s
if_status true j k s e f = e
if_status false j k s e f = f

pub extract_batches-status :
    (fuel processed : ℕ) (j : EtlJob) → (extract_batches fuel processed j).status ≡ j.status
unfolding extract_batches add_batch
extract_batches-status zero processed j = refl
extract_batches-status (suc fuel) processed j =
    let batch = min 20 (100 - processed) in
    if_status (ltb processed 100) _ _ j.status
      (extract_batches-status fuel (processed + 20)
        (add_batch j batch (successful_of batch 95) (batch * 512) 0))
      refl

module _ {D : Type 0} (server : Server D) where
  if_load_status :
      (b : Bool) (x y : (EtlJob × D) × Option Failure) (s : JobStatus)
      → x.0.0.status ≡ s
      → y.0.0.status ≡ s
      → (if b then x else y).0.0.status ≡ s
  if_load_status true x y s e f = e
  if_load_status false x y s e f = f

  load_batches-status :
      (fuel processed : ℕ) (j : EtlJob) (d : D)
      → (load_batches server fuel processed j d).0.0.status ≡ j.status
  unfolding load_batches add_batch
  load_batches-status zero processed j d = refl
  load_batches-status (suc fuel) processed j d =
      let batch = min 10 (95 - processed) in
      let good = successful_of batch 94 in
      let insert = execute_query server "INSERT INTO processed_data VALUES (...)" d in
      if_load_status (ltb processed 95) _ _ j.status
        (if_load_status insert.1 _ _ j.status
          (if_load_status (mentions j.job_id "fail") _ _ j.status refl (
            load_batches-status fuel (processed + 10)
              (add_batch j batch good (batch * 128) (good * 128)) insert.0))
          refl)
        refl

  pub execute_load_job-status :
      (j : EtlJob) (d : D) → (execute_load_job server j d).0.0.status ≡ j.status
  unfolding execute_load_job
  execute_load_job-status j d =
      if_load_status (server.is_connected d) _ _ j.status
        (within_scope-keeps server (λ k. k.status ≡ j.status) j (load_batches server 95 0 j) d refl
          (λ e. load_batches-status 95 0 j e))
        refl

pub execute_extract_job-status : (j : EtlJob) → (execute_extract_job j).status ≡ j.status
unfolding execute_extract_job
execute_extract_job-status j = extract_batches-status 100 0 j

pub execute_transform_job-status :
    (transform_record : DataRecord → DataRecord) (j : EtlJob)
    → (execute_transform_job transform_record j).status ≡ j.status
unfolding execute_transform_job add_batch
execute_transform_job-status transform_record j = refl
