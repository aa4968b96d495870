-- ===== src/Breaker/Episodes.antt =====
-- Whole episodes of a breaker: tripping, failing fast while open, and recovering.
use rclabs_api.Prelude.{
  ℕ, zero, suc, max, ◌+◌, ◌-◌, ◌≤◌, ◌<◌, ◌≡◌, refl, subst, false, List, [], ◌∷◌, map, arith, length,
  ltb, lt→ltb, le→ltb, if◌then◌else◌, dec_lt, inl, inr, ◌⊎◌,
}
use rclabs_api.Breaker.{
  Breaker, closed, opened, half_open, Call, allows, successes, failures, allow_operation, call,
  calls,
}

-- A run of failures with no success in between, at the given readings of the clock.
abbrev pub failures_at : List ℕ → List Call
failures_at = map failures

opened_by_failure : (b : Breaker) (t : ℕ) → b.state ≡ opened → (call b (failures t)).state ≡ opened
unfolding call
opened_by_failure b t e = ground arith

opened_by_failures :
    (b : Breaker) (ts : List ℕ) → b.state ≡ opened → (calls b (failures_at ts)).state ≡ opened
unfolding calls
opened_by_failures b [] e = e
opened_by_failures b (t ∷ ts) e =
    opened_by_failures (call b (failures t)) ts (opened_by_failure b t e)

-- One failure of a closed breaker that is below its threshold.
record Counted (b c : Breaker) : Type 0 where
  state : c.state ≡ closed
  count : c.failure_count ≡ suc b.failure_count
  threshold : c.failure_threshold ≡ b.failure_threshold

failure-Counted :
    (b : Breaker) (t : ℕ)
    → b.state ≡ closed
    → suc b.failure_count < b.failure_threshold
    → Counted b (call b (failures t))
unfolding call
failure-Counted b t e h = ground arith

failure_trips :
    (b : Breaker) (t : ℕ)
    → b.state ≡ closed
    → b.failure_threshold ≤ suc b.failure_count
    → (call b (failures t)).state ≡ opened
unfolding call
failure_trips b t e h = ground arith

stays_closed :
    (b : Breaker) (ts : List ℕ)
    → b.state ≡ closed
    → b.failure_count + length ts < max 1 b.failure_threshold
    → (calls b (failures_at ts)).state ≡ closed
unfolding calls
stays_closed b [] e h = e
stays_closed b (t ∷ ts) e h =
    let c = failure-Counted b t e (omega arith) in
    let below : (call b (failures t)).failure_count + length ts
        < max 1 (call b (failures t)).failure_threshold =
      omega (arith, c.count, c.threshold) in
    stays_closed (call b (failures t)) ts c.state below

trips :
    (b : Breaker) (ts : List ℕ)
    → b.state ≡ closed
    → b.failure_count < max 1 b.failure_threshold
    → max 1 b.failure_threshold ≤ b.failure_count + length ts
    → (calls b (failures_at ts)).state ≡ opened
unfolding calls
trips b [] e l h = absurd (omega arith)
trips b (t ∷ ts) e l h = elim (dec_lt (suc b.failure_count) b.failure_threshold) [
  | yes more ↦
      let c = failure-Counted b t e more in
      trips (call b (failures t)) ts c.state (omega (arith, c.count, c.threshold))
        (omega (arith, c.count, c.threshold))
  | no last ↦ opened_by_failures (call b (failures t)) ts (failure_trips b t e (omega arith))
]

record Restarted (b c : Breaker) : Type 0 where
  state : c.state ≡ closed
  count : c.failure_count ≡ 0
  threshold : c.failure_threshold ≡ b.failure_threshold

success-Restarted : (b : Breaker) → b.state ≡ closed → Restarted b (call b successes)
unfolding call
success-Restarted b e = ground arith

-- A success while closed, then `ts` failures in a row: the breaker is still closed while they are
-- fewer than the threshold (or than 1), and open from then on. So only failures since the last
-- success count.
pub consecutive_failures_trip :
    (b : Breaker) (ts : List ℕ)
    → b.state ≡ closed
    → (calls b (successes ∷ failures_at ts)).state
      ≡ (if ltb (length ts) (max 1 b.failure_threshold) then closed else opened)
unfolding calls
consecutive_failures_trip b ts e =
    let r = success-Restarted b e in
    elim (dec_lt (length ts) (max 1 b.failure_threshold)) [
      | yes few ↦
          rw (lt→ltb _ _ few)
            (stays_closed (call b successes) ts r.state (omega (arith, r.count, r.threshold)))
      | no many ↦ rw (le→ltb (length ts) (max 1 b.failure_threshold) (omega arith)) (
          trips (call b successes) ts r.state (omega (arith, r.count, r.threshold))
            (omega (arith, r.count, r.threshold)))
    ]

-- Calls that come before the timeout of a failure at time `t` is over; a clock that is steady does
-- not go back behind `t`.
abbrev pub Early : (t timeout : ℕ) → List Call → Type 0
Early t timeout [] = Unit
Early t timeout (allows now ∷ cs) = (now < t + timeout) × Early t timeout cs
Early t timeout (successes ∷ cs) = Early t timeout cs
Early t timeout (failures now ∷ cs) = (t ≤ now) × Early t timeout cs

-- An open breaker whose last failure is not before `t`.
record Tripped (t timeout : ℕ) (b : Breaker) : Type 0 where
  state : b.state ≡ opened
  since : t ≤ b.last_failure_time
  waits : b.timeout ≡ timeout

call-Tripped :
    (t timeout : ℕ) (b : Breaker) (c : Call)
    → Early t timeout (c ∷ [])
    → Tripped t timeout b
    → Tripped t timeout (call b c)
unfolding call
call-Tripped t timeout b (allows now) h v = ground arith
call-Tripped t timeout b successes h v = ground arith
call-Tripped t timeout b (failures now) h v = ground arith

Early-head :
    (t timeout : ℕ) (c : Call) (cs : List Call)
    → Early t timeout (c ∷ cs)
    → Early t timeout (c ∷ []) × Early t timeout cs
Early-head t timeout (allows now) cs h = ((h.0, tt), h.1)
Early-head t timeout successes cs h = (tt, h)
Early-head t timeout (failures now) cs h = ((h.0, tt), h.1)

calls-Tripped :
    (t timeout : ℕ) (b : Breaker) (cs : List Call)
    → Early t timeout cs
    → Tripped t timeout b
    → Tripped t timeout (calls b cs)
unfolding calls
calls-Tripped t timeout b [] h v = v
calls-Tripped t timeout b (c ∷ cs) h v =
    let (one, rest) = Early-head t timeout c cs h in
    calls-Tripped t timeout (call b c) cs rest (call-Tripped t timeout b c one v)

refused :
    (t timeout : ℕ) (b : Breaker) (now : ℕ)
    → Tripped t timeout b
    → now < t + timeout
    → allow_operation b now ≡ (b, false)
unfolding allow_operation
refused t timeout b now v h = ground arith

-- Failing fast: whatever calls come before the timeout since the last failure of an open breaker
-- is over, with a clock that does not go back behind that failure, an operation before that time
-- is refused, and the refusal changes nothing.
pub fails_fast :
    (b : Breaker) (cs : List Call) (now : ℕ)
    → b.state ≡ opened
    → Early b.last_failure_time b.timeout cs
    → now < b.last_failure_time + b.timeout
    → allow_operation (calls b cs) now ≡ (calls b cs, false)
fails_fast b cs now e early h =
    refused b.last_failure_time b.timeout (calls b cs) now
      (calls-Tripped b.last_failure_time b.timeout b cs early
        (record { state = e; since = omega arith; waits = refl }))
      h

abbrev pub successes_in_a_row : ℕ → List Call
successes_in_a_row zero = []
successes_in_a_row (suc n) = successes ∷ successes_in_a_row n

-- A half open breaker with `left` more successes to go.
record Probing (left : ℕ) (b : Breaker) : Type 0 where
  state : b.state ≡ half_open
  to_go : b.success_count + left ≡ max 1 b.success_threshold

probe-Probing :
    (b : Breaker) (now : ℕ)
    → b.state ≡ opened
    → b.last_failure_time + b.timeout ≤ now
    → Probing (max 1 b.success_threshold) (call b (allows now))
unfolding call
probe-Probing b now e h = ground arith

success-Probing :
    (b : Breaker) (left more : ℕ)
    → left ≡ suc more
    → 0 < more
    → Probing left b
    → Probing more (call b successes)
unfolding call
success-Probing b left more e h v = ground arith

last_success :
    (b : Breaker)
    → Probing 1 b
    → ((call b successes).state ≡ closed) × ((call b successes).failure_count ≡ 0)
unfolding call
last_success b v = ground arith

successes-closed :
    (b : Breaker) (n : ℕ)
    → b.state ≡ closed
    → b.failure_count ≡ 0
    → ((calls b (successes_in_a_row n)).state ≡ closed)
      × ((calls b (successes_in_a_row n)).failure_count ≡ 0)
unfolding calls
successes-closed b zero e f = (e, f)
successes-closed b (suc n) e f =
    let r = success-Restarted b e in successes-closed (call b successes) n r.state r.count

probes_on :
    (b : Breaker) (n left : ℕ)
    → Probing left b
    → n < left
    → (calls b (successes_in_a_row n)).state ≡ half_open
unfolding calls
probes_on b zero left v h = v.state
probes_on b (suc n) left v h =
    probes_on (call b successes) n (left - 1)
      (success-Probing b left (left - 1) (omega arith) (omega arith) v) (omega arith)

recovered :
    (b : Breaker) (n left : ℕ)
    → Probing left b
    → 0 < left
    → left ≤ n
    → ((calls b (successes_in_a_row n)).state ≡ closed)
      × ((calls b (successes_in_a_row n)).failure_count ≡ 0)
unfolding calls
recovered b zero left v p h = absurd (omega arith)
recovered b (suc n) left v p h = elim (dec_lt 1 left) [
  | yes more ↦
      recovered (call b successes) n (left - 1)
        (success-Probing b left (left - 1) (omega arith) (omega arith) v) (omega arith)
        (omega arith)
  | no last ↦
      let e : left ≡ 1 = omega arith in
      let done = last_success b (subst (λ k. Probing k b) e v) in
      successes-closed (call b successes) n done.0 done.1
]

-- Recovery: an open breaker is asked when its timeout is over, and `n` successes follow with no
-- failure. It is half open while `n` is below the success threshold (or below 1), and from then
-- on closed with no failure counted.
pub recovers :
    (b : Breaker) (now n : ℕ)
    → b.state ≡ opened
    → b.last_failure_time + b.timeout ≤ now
    → let c = calls b (allows now ∷ successes_in_a_row n) in
      ((n < max 1 b.success_threshold) × (c.state ≡ half_open))
      ⊎ ((max 1 b.success_threshold ≤ n) × (c.state ≡ closed) × (c.failure_count ≡ 0))
unfolding calls
recovers b now n e h =
    let v = probe-Probing b now e h in
    elim (dec_lt n (max 1 b.success_threshold)) [
      | yes few ↦ inl (few, probes_on (call b (allows now)) n _ v few)
      | no enough ↦
          let r = recovered (call b (allows now)) n _ v (omega arith) (omega arith) in
          inr (omega arith, r.0, r.1)
    ]
