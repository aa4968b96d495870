-- ===== src/Jobs/Outcomes.antt =====
-- How a job ends, with and without monitoring.
use rclabs_api.Prelude.{ℕ, ◌≡◌, refl, ◌⊎◌, inl, inr, Option, none, some}
use rclabs_api.Database.{Server, EtlException, Failure}
use rclabs_api.Jobs.State.{EtlJob, running, completed, failed}
use rclabs_api.Jobs.{DataRecord, work, end_job, execute_job, failure_message, rethrown}

module _ {D : Type 0} where
  -- Completed with its time, and nothing thrown; or failed with the message of what was thrown.
  abbrev pub Ended : ℕ → (EtlJob × D) × Option EtlException → Type 0
  Ended later x =
      ((x.0.0.status ≡ completed) × (x.0.0.completed_at ≡ later) × (x.1 ≡ none))
      ⊎ ((x.0.0.status ≡ failed)
          × (f : Failure) × (x.0.0.error_message ≡ failure_message f)
          × (x.1 ≡ some (rethrown f)))

  end_job-Ended : (later : ℕ) (x : (EtlJob × D) × Option Failure) → Ended later (end_job later x)
  unfolding end_job
  end_job-Ended later ((j, d), none) = inl (refl, refl, refl)
  end_job-Ended later ((j, d), some f) = inr (refl, f, refl, refl)

  -- A job that is executed without monitoring is either completed, with the time of its end, and
  -- nothing is thrown; or it is failed, with the message of what was thrown, which is thrown on as
  -- an exception of the program's own.
  pub execute_job-Ended :
      (server : Server D) (transform_record : DataRecord → DataRecord) (j : EtlJob) (d : D)
      (now later : ℕ)
      → Ended later (execute_job server transform_record j d now later)
  unfolding execute_job
  execute_job-Ended server transform_record j d now later =
      end_job-Ended later (
        work server transform_record j.job_type (record j { status = running; started_at = now }) d)
