-- ===== src/Jobs/Cancellation.antt =====
-- What `cancelJob` comes to.
use mathlib.Core.List.{Memᴰ}
use mathlib.Core.List.Memᴰ.{head, tail}
use rclabs_api.Prelude.{
  ℕ, ◌≤◌, ◌≡◌, refl, ap, ◌∙◌, ◌⊎◌, inl, inr, String, Bool, true, false, List, [], ◌∷◌, count_if,
  if◌then◌else◌, arith,
}
use rclabs_api.Jobs.State.{EtlJob, running, cancelled}
use rclabs_api.Jobs.Store.{
  Manager, put, set_status, cancellable, cancel_first, cancel_job, System, decided, worker_begin,
}
use rclabs_api.Jobs.Worker.{step, cancels, begins, with_manager}

-- None of the jobs is pending under the id, and nothing is changed; or one of them was, and is
-- cancelled, and nothing else is changed.
abbrev pub Cancelled : Manager → String → List ℕ → Manager × Bool → Type 0
Cancelled m job_id is x =
    ((x ≡ (m, false)) × (count_if (cancellable m job_id) is ≡ 0))
    ⊎ ((i : ℕ) × Memᴰ i is
        × (cancellable m job_id i ≡ true)
        × (x ≡ (put m i (set_status (m.store i) cancelled), true)))

cancel_first-Cancelled :
    (m : Manager) (job_id : String) (is : List ℕ) → Cancelled m job_id is (cancel_first m job_id is)
unfolding cancel_first
cancel_first-Cancelled m job_id [] = inl (refl, refl)
cancel_first-Cancelled m job_id (i ∷ is) =
    go (cancellable m job_id i) refl (cancel_first-Cancelled m job_id is)
  where
    go :
        (b : Bool)
        → cancellable m job_id i ≡ b
        → Cancelled m job_id is (cancel_first m job_id is)
        → Cancelled m job_id (i ∷ is) (
            if b
            then (put m i (set_status (m.store i) cancelled), true)
            else cancel_first m job_id is)
    go true t v = inr (i, head refl, t, refl)
    go false f (inl (same, no_others)) = inl (same, rw (f, count_if) no_others)
    go false f (inr (k, there, t, e)) = inr (k, tail there, t, e)

-- A call of `cancelJob` returns false and changes nothing if no job that the manager has is pending
-- under the id; else it cancels one that is, changes nothing else, and returns true.
pub cancel_job-Cancelled :
    (m : Manager) (job_id : String) → Cancelled m job_id m.jobs (cancel_job m job_id)
unfolding cancel_job
cancel_job-Cancelled m job_id = cancel_first-Cancelled m job_id m.jobs

put-here : (m : Manager) (i : ℕ) (j : EtlJob) → (put m i j).store i ≡ j
unfolding put
put-here m i j = ground arith

-- A test that one of a list passes is not passed by none of it.
count_if-passes : (p : ℕ → Bool) (is : List ℕ) (i : ℕ) → Memᴰ i is → p i ≡ true → 1 ≤ count_if p is
count_if-passes p [] i there h = elim there [ ]
count_if-passes p (k ∷ is) i (head e) h = ground (arith, ap p e)
count_if-passes p (k ∷ is) i (tail there) h = ground (arith, count_if-passes p is i there h)

cancel_job-only :
    (m : Manager) (job_id : String) (i : ℕ)
    → Memᴰ i m.jobs
    → cancellable m job_id i ≡ true
    → ((k : ℕ) → Memᴰ k m.jobs → cancellable m job_id k ≡ true → k ≡ i)
    → cancel_job m job_id ≡ (put m i (set_status (m.store i) cancelled), true)
cancel_job-only m job_id i there c only = go (cancel_job-Cancelled m job_id)
  where
    go :
        Cancelled m job_id m.jobs (cancel_job m job_id)
        → cancel_job m job_id ≡ (put m i (set_status (m.store i) cancelled), true)
    go (inl (same, no_job)) =
        absurd (omega (arith, no_job, count_if-passes (cancellable m job_id) m.jobs i there c))
    go (inr (k, there, t, e)) =
        e ∙ ap (λ (a : ℕ). (put m a (set_status (m.store a) cancelled), true)) (only k there t)

-- When the worker has decided to execute a job that the manager has, and has not begun, and the job
-- is the only one pending under its id, a call of `cancelJob` for it still returns true and sets
-- the job to cancelled, and then the worker runs it all the same.
pub cancel_job-lost :
    (s : System) (i : ℕ) (job_id : String) (now : ℕ)
    → s.worker ≡ decided i
    → Memᴰ i s.manager.jobs
    → cancellable s.manager job_id i ≡ true
    → ((k : ℕ) → Memᴰ k s.manager.jobs → cancellable s.manager job_id k ≡ true → k ≡ i)
    → let t = step s (cancels job_id) in
      let u = step t (begins now) in
      ((cancel_job s.manager job_id).1 ≡ true)
      × ((t.manager.store i).status ≡ cancelled)
      × ((u.manager.store i).status ≡ running)
unfolding step with_manager worker_begin set_status
cancel_job-lost s i job_id now w there c only =
    let m = s.manager in
    let t : System = step s (cancels job_id) in
    let first = cancel_job-only m job_id i there c only in
    let j = t.manager.store i in
    let begun : EtlJob = record j { status = running; started_at = now } in
    (
      ap (λ (r : Manager × Bool). r.1) first,
      ap (λ (r : Manager × Bool). (r.0.store i).status) first
          ∙ ap (λ (k : EtlJob). k.status) (put-here m i (set_status (m.store i) cancelled)),
      ap (λ v. ((worker_begin t v now).manager.store i).status) w
          ∙ ap (λ (k : EtlJob). k.status) (put-here t.manager i begun),
    )
