-- ===== src/Breaker/Transitions.antt =====
-- The moves between the three states, as a relation, with the call and the condition of each.
use rclabs_api.Prelude.{
  ℕ, suc, ◌+◌, ◌≤◌, ◌<◌, ◌≡◌, refl, sym, subst, arith, leb, leb→le, leb→lt, inl, inr, Bool-cases,
}
use rclabs_api.Breaker.{
  Breaker, State, closed, opened, half_open, Call, allows, successes, failures, call,
}

-- `Move b c s`: the call `c` takes the breaker `b` to the state `s`.
pub data Move (b : Breaker) : Call → State → Type 0 where
  -- a closed breaker stays closed, or trips when the count of failures meets the threshold
  pass : (now : ℕ) → b.state ≡ closed → Move b (allows now) closed
  work : b.state ≡ closed → Move b successes closed
  count_failure :
      (now : ℕ)
      → b.state ≡ closed
      → suc b.failure_count < b.failure_threshold
      → Move b (failures now) closed
  trip :
      (now : ℕ)
      → b.state ≡ closed
      → b.failure_threshold ≤ suc b.failure_count
      → Move b (failures now) opened
  -- an open breaker waits for the timeout, and then lets an operation probe
  refuse :
      (now : ℕ)
      → b.state ≡ opened
      → now < b.last_failure_time + b.timeout
      → Move b (allows now) opened
  probe :
      (now : ℕ)
      → b.state ≡ opened
      → b.last_failure_time + b.timeout ≤ now
      → Move b (allows now) half_open
  late_success : b.state ≡ opened → Move b successes opened
  late_failure : (now : ℕ) → b.state ≡ opened → Move b (failures now) opened
  -- a half open breaker counts successes up to the threshold, and one failure opens it again
  probe_more : (now : ℕ) → b.state ≡ half_open → Move b (allows now) half_open
  count_success :
      b.state ≡ half_open → suc b.success_count < b.success_threshold → Move b successes half_open
  recover :
      b.state ≡ half_open → b.success_threshold ≤ suc b.success_count → Move b successes closed
  relapse : (now : ℕ) → b.state ≡ half_open → Move b (failures now) opened

module _ (b : Breaker) where
  ends_in : (c : Call) (s : State) → (call b c).state ≡ s → Move b c s → Move b c (call b c).state
  ends_in c s e m = subst (Move b c) (sym e) m

  call-Move_at : (s : State) (c : Call) → b.state ≡ s → Move b c (call b c).state
  unfolding call
  call-Move_at closed (allows now) e = ends_in (allows now) closed (ground arith) (pass now e)
  call-Move_at closed successes e = ends_in successes closed (ground arith) (work e)
  call-Move_at closed (failures now) e =
      elim (Bool-cases (leb b.failure_threshold (suc b.failure_count))) [
        | inl t ↦ ends_in (failures now) opened (ground arith) (trip now e (leb→le _ _ t))
        | inr f ↦ ends_in (failures now) closed (ground arith) (count_failure now e (leb→lt _ _ f))
      ]
  call-Move_at opened (allows now) e =
      elim (Bool-cases (leb (b.last_failure_time + b.timeout) now)) [
        | inl t ↦ ends_in (allows now) half_open (ground arith) (probe now e (leb→le _ _ t))
        | inr f ↦ ends_in (allows now) opened (ground arith) (refuse now e (leb→lt _ _ f))
      ]
  call-Move_at opened successes e = ends_in successes opened (ground arith) (late_success e)
  call-Move_at opened (failures now) e =
      ends_in (failures now) opened (ground arith) (late_failure now e)
  call-Move_at half_open (allows now) e =
      ends_in (allows now) half_open (ground arith) (probe_more now e)
  call-Move_at half_open successes e =
      elim (Bool-cases (leb b.success_threshold (suc b.success_count))) [
        | inl t ↦ ends_in successes closed (ground arith) (recover e (leb→le _ _ t))
        | inr f ↦ ends_in successes half_open (ground arith) (count_success e (leb→lt _ _ f))
      ]
  call-Move_at half_open (failures now) e =
      ends_in (failures now) opened (ground arith) (relapse now e)

-- Every call of a method moves the breaker along the relation `Move`: it trips only from closed,
-- on the failure that meets the threshold; it leaves open only for half open, on an operation
-- that comes when the timeout since the last failure is over; it closes only from half open, on
-- the success that meets the threshold; and a failure while half open opens it again.
pub call-Move : (b : Breaker) (c : Call) → Move b c (call b c).state
call-Move b c = call-Move_at b b.state c refl
