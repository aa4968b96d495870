-- ===== src/Jobs/Counts.antt =====
-- The record counts of a job.
use rclabs_api.Prelude.{ℕ, ◌+◌, ◌*◌, ◌≡◌, refl, arith, Option, none, some, ◌⊎◌, inl, inr}
use rclabs_api.Database.{Server, Failure}
use rclabs_api.Database.Bodies.{Threw, within_scope-keeps, within_scope-unless}
use rclabs_api.Jobs.State.{running, EtlJob, JobType, extract, transform, load, full_etl}
use rclabs_api.Jobs.{
  DataRecord, add_batch, execute_extract_job, execute_transform_job, load_batches, execute_load_job,
  execute_full_etl_job, work, end_job, execute_job, transform_data,
}
use rclabs_api.Jobs.Loops.{
  Balanced, add_batch-Balanced, extract_batches-Balanced, extract_batches-adds, if-BalancedAnd,
  load_batches-Balanced, choose_load, load_batches-adds,
}

module _ {D : Type 0} (server : Server D) where
  load-Balanced : (j : EtlJob) (d : D) → Balanced j → Balanced (execute_load_job server j d).0.0
  unfolding execute_load_job
  load-Balanced j d v =
      if-BalancedAnd server (server.is_connected d) _ _
        (within_scope-keeps server Balanced j (load_batches server 95 0 j) d v
          (λ e. load_batches-Balanced server 95 0 j e v))
        v

  load-adds :
      (j : EtlJob) (d : D)
      → Threw (execute_load_job server j d).1
        ⊎ ((execute_load_job server j d).0.0.records_processed ≡ j.records_processed + 95)
  unfolding execute_load_job
  load-adds j d =
      let n = j.records_processed + 95 in
      choose_load server (server.is_connected d) _ _ n
        (λ up.
          within_scope-unless server (λ k. k.records_processed ≡ n) j (load_batches server 95 0 j) d
            (λ e. load_batches-adds server 95 0 j e n (omega arith) (omega arith)))
        (λ down. inl (_, refl))

  extract-Balanced : (j : EtlJob) → Balanced j → Balanced (execute_extract_job j)
  unfolding execute_extract_job
  extract-Balanced j v = extract_batches-Balanced 100 0 j v

  extract-adds :
      (j : EtlJob) → (execute_extract_job j).records_processed ≡ j.records_processed + 100
  unfolding execute_extract_job
  extract-adds j = extract_batches-adds 100 0 j (omega arith)

  module _ (transform_record : DataRecord → DataRecord) where
    transform-Balanced :
        (j : EtlJob) → Balanced j → Balanced (execute_transform_job transform_record j)
    unfolding execute_transform_job transform_data
    transform-Balanced j v = add_batch-Balanced j 1 1 (1 * 512) (1 * 256) (omega arith) v

    transform-adds :
        (j : EtlJob)
        → (execute_transform_job transform_record j).records_processed ≡ j.records_processed + 1
    unfolding execute_transform_job add_batch
    transform-adds j = refl

    work-Balanced :
        (t : JobType) (j : EtlJob) (d : D)
        → Balanced j
        → Balanced (work server transform_record t j d).0.0
    unfolding work execute_full_etl_job
    work-Balanced extract j d v = extract-Balanced j v
    work-Balanced transform j d v = transform-Balanced j v
    work-Balanced load j d v = load-Balanced j d v
    work-Balanced full_etl j d v =
        load-Balanced _ d (transform-Balanced (execute_extract_job j) (extract-Balanced j v))

    -- How many records a job of a type has.
    abbrev pub records_of : JobType → ℕ
    records_of extract = 100
    records_of transform = 1
    records_of load = 95
    records_of full_etl = 196

    work-adds :
        (t : JobType) (j : EtlJob) (d : D)
        → Threw (work server transform_record t j d).1
          ⊎ ((work server transform_record t j d).0.0.records_processed
              ≡ j.records_processed + records_of t)
    unfolding work execute_full_etl_job
    work-adds extract j d = inr (extract-adds j)
    work-adds transform j d = inr (transform-adds j)
    work-adds load j d = load-adds j d
    work-adds full_etl j d =
        let k = execute_extract_job j in
        elim (load-adds (execute_transform_job transform_record k) d) [
          | inl t ↦ inl t
          | inr e ↦ inr (omega (arith, e, transform-adds k, extract-adds j))
        ]

    end_job-counts :
        (later n : ℕ) (x : (EtlJob × D) × Option Failure)
        → Balanced x.0.0
        → Threw x.1 ⊎ (x.0.0.records_processed ≡ n)
        → Balanced (end_job later x).0.0
          × (Threw (end_job later x).1 ⊎ ((end_job later x).0.0.records_processed ≡ n))
    unfolding end_job
    end_job-counts later n ((j, d), none) v (inl (f, none_is_some)) = cc
    end_job-counts later n ((j, d), none) v (inr e) = (v, inr e)
    end_job-counts later n ((j, d), some f) v w = (v, inl (_, refl))

    -- Whatever its type, and whether or not it fails, a job that starts with each processed record
    -- counted as successful or failed ends so; and a job that throws nothing has counted all the
    -- records of its type, 100 for an extraction, 1 for a transformation, 95 for a load and 196
    -- for a full run.
    pub execute_job_counts :
        (j : EtlJob) (d : D) (now later : ℕ)
        → Balanced j
        → Balanced (execute_job server transform_record j d now later).0.0
          × (Threw (execute_job server transform_record j d now later).1
              ⊎ ((execute_job server transform_record j d now later).0.0.records_processed
                  ≡ j.records_processed + records_of j.job_type))
    unfolding execute_job
    execute_job_counts j d now later v =
        end_job-counts later (j.records_processed + records_of j.job_type)
          (work server transform_record j.job_type (record j { status = running; started_at = now })
            d)
          (work-Balanced j.job_type _ d v) (work-adds j.job_type _ d)
