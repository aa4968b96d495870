-- ===== src/Jobs/Loops.antt =====
-- The loops of the jobs: each record is counted, and the rounds are enough.
use rclabs_api.Prelude.{
  ℕ, zero, suc, ◌+◌, ◌-◌, ◌*◌, ◌≤◌, ◌≡◌, refl, min, ltb, arith, Bool, true, false, Option, ltb→lt,
  ◌⊎◌, inl, inr, if◌then◌else◌,
}
use rclabs_api.Database.{Server, Failure, execute_query}
use rclabs_api.Database.Bodies.{Threw}
use rclabs_api.Jobs.State.{EtlJob}
use rclabs_api.Jobs.{add_batch, extract_batches, load_batches, successful_of, mentions}

-- Every record that was processed succeeded or failed.
abbrev pub Balanced : EtlJob → Type 0
Balanced j = j.records_processed ≡ j.records_successful + j.records_failed

pub add_batch-Balanced :
    (j : EtlJob) (batch successful bytes written : ℕ)
    → successful ≤ batch
    → Balanced j
    → Balanced (add_batch j batch successful bytes written)
unfolding add_batch
add_batch-Balanced j batch successful bytes written h v = omega arith

if-Balanced : (b : Bool) (j k : EtlJob) → Balanced j → Balanced k → Balanced (if b then j else k)
if-Balanced true j k v w = v
if-Balanced false j k v w = w

pub extract_batches-Balanced :
    (fuel processed : ℕ) (j : EtlJob) → Balanced j → Balanced (extract_batches fuel processed j)
unfolding extract_batches
extract_batches-Balanced zero processed j v = v
extract_batches-Balanced (suc fuel) processed j v =
    let batch = min 20 (100 - processed) in
    if-Balanced (ltb processed 100) _ _
      (extract_batches-Balanced fuel (processed + 20) _
        (add_batch-Balanced j batch (successful_of batch 95) (batch * 512) 0 (omega arith) v))
      v

choose_count :
    (b : Bool) (j k : EtlJob) (n : ℕ)
    → (b ≡ true → j.records_processed ≡ n)
    → (b ≡ false → k.records_processed ≡ n)
    → (if b then j else k).records_processed ≡ n
choose_count true j k n f g = f refl
choose_count false j k n f g = g refl

pub extract_batches-adds :
    (fuel processed : ℕ) (j : EtlJob)
    → 100 ≤ processed + fuel * 20
    → (extract_batches fuel processed j).records_processed ≡ j.records_processed + (100 - processed)
unfolding extract_batches add_batch
extract_batches-adds zero processed j h = omega arith
extract_batches-adds (suc fuel) processed j h =
    let batch = min 20 (100 - processed) in
    let k = add_batch j batch (successful_of batch 95) (batch * 512) 0 in
    choose_count (ltb processed 100) _ _ _
      (λ more. omega (
        arith,
        extract_batches-adds fuel (processed + 20) k (omega arith),
        ltb→lt processed 100 more,
      ))
      (λ over. ground arith)

module _ {D : Type 0} (server : Server D) where
  pub if-BalancedAnd :
      (b : Bool) (x y : (EtlJob × D) × Option Failure)
      → Balanced x.0.0
      → Balanced y.0.0
      → Balanced (if b then x else y).0.0
  if-BalancedAnd true x y v w = v
  if-BalancedAnd false x y v w = w

  pub load_batches-Balanced :
      (fuel processed : ℕ) (j : EtlJob) (d : D)
      → Balanced j
      → Balanced (load_batches server fuel processed j d).0.0
  unfolding load_batches
  load_batches-Balanced zero processed j d v = v
  load_batches-Balanced (suc fuel) processed j d v =
      let batch = min 10 (95 - processed) in
      let good = successful_of batch 94 in
      if-BalancedAnd (ltb processed 95) _ _
        (if-BalancedAnd (execute_query server "INSERT INTO processed_data VALUES (...)" d).1 _ _
          (if-BalancedAnd (mentions j.job_id "fail") _ _ v (
            load_batches-Balanced fuel (processed + 10) _ _
              (add_batch-Balanced j batch good (batch * 128) (good * 128) (omega arith) v)))
          v)
        v

  pub choose_load :
      (b : Bool) (x y : (EtlJob × D) × Option Failure) (n : ℕ)
      → (b ≡ true → Threw x.1 ⊎ (x.0.0.records_processed ≡ n))
      → (b ≡ false → Threw y.1 ⊎ (y.0.0.records_processed ≡ n))
      → let z : (EtlJob × D) × Option Failure = if b then x else y in
        Threw z.1 ⊎ (z.0.0.records_processed ≡ n)
  choose_load true x y n f g = f refl
  choose_load false x y n f g = g refl

  pub load_batches-adds :
      (fuel processed : ℕ) (j : EtlJob) (d : D) (n : ℕ)
      → 95 ≤ processed + fuel * 10
      → n ≡ j.records_processed + (95 - processed)
      → Threw (load_batches server fuel processed j d).1
        ⊎ ((load_batches server fuel processed j d).0.0.records_processed ≡ n)
  unfolding load_batches add_batch
  load_batches-adds zero processed j d n h e = inr (omega arith)
  load_batches-adds (suc fuel) processed j d n h e =
      let batch = min 10 (95 - processed) in
      let good = successful_of batch 94 in
      let k = add_batch j batch good (batch * 128) (good * 128) in
      choose_load (ltb processed 95) _ _ n
        (λ more.
          choose_load (execute_query server "INSERT INTO processed_data VALUES (...)" d).1 _ _ n
            (λ inserted.
              choose_load (mentions j.job_id "fail") _ _ n (λ marked. inl (_, refl))
                (λ plain.
                  load_batches-adds fuel (processed + 10) k _ n (omega arith)
                    (omega (arith, ltb→lt processed 95 more))))
            (λ lost. inl (_, refl)))
        (λ over. inr (ground arith))
