-- ===== src/Breaker/Invariant.antt =====
-- The counters of a breaker: which values they can have in which state, after any calls.
use rclabs_api.Prelude.{ℕ, max, ◌≤◌, ◌<◌, ◌≡◌, refl, List, [], ◌∷◌, arith}
use rclabs_api.Breaker.{
  Breaker, State, closed, opened, half_open, Call, allows, successes, failures, make, call, calls,
}

-- What the state says of the two counters. Both stop at their thresholds (or at 1).
abbrev pub Counted : State → Breaker → Type 0
Counted closed b =
    (b.failure_count < max 1 b.failure_threshold) × (b.success_count ≤ max 1 b.success_threshold)
Counted opened b =
    (b.failure_count ≡ max 1 b.failure_threshold) × (b.success_count ≤ max 1 b.success_threshold)
Counted half_open b =
    (b.failure_count ≡ max 1 b.failure_threshold) × (b.success_count < max 1 b.success_threshold)

abbrev pub IsCounted : Breaker → Type 0
IsCounted b = Counted b.state b

make-IsCounted : (f t s : ℕ) → IsCounted (make f t s)
unfolding make
make-IsCounted f t s = omega arith

call-IsCounted_at :
    (s : State) (b : Breaker) (c : Call) → b.state ≡ s → Counted s b → IsCounted (call b c)
unfolding call
call-IsCounted_at closed b (allows now) e v = ground arith
call-IsCounted_at opened b (allows now) e v = ground arith
call-IsCounted_at half_open b (allows now) e v = ground arith
call-IsCounted_at closed b successes e v = ground arith
call-IsCounted_at opened b successes e v = ground arith
call-IsCounted_at half_open b successes e v = ground arith
call-IsCounted_at closed b (failures now) e v = ground arith
call-IsCounted_at opened b (failures now) e v = ground arith
call-IsCounted_at half_open b (failures now) e v = ground arith

call-IsCounted : (b : Breaker) (c : Call) → IsCounted b → IsCounted (call b c)
call-IsCounted b c v = call-IsCounted_at b.state b c refl v

calls-IsCounted : (b : Breaker) (cs : List Call) → IsCounted b → IsCounted (calls b cs)
unfolding calls
calls-IsCounted b [] v = v
calls-IsCounted b (c ∷ cs) v = calls-IsCounted (call b c) cs (call-IsCounted b c v)

-- After any calls on a new breaker, whatever the clock reads: closed, fewer failures are counted
-- than the failure threshold, and open or half open exactly that many (a threshold of 0 acts as
-- 1); half open, fewer successes than the success threshold, and elsewhere at most that many.
pub calls-make-IsCounted :
    (failures timeout successes : ℕ) (cs : List Call)
    → IsCounted (calls (make failures timeout successes) cs)
calls-make-IsCounted f t s cs = calls-IsCounted (make f t s) cs (make-IsCounted f t s)
