-- ===== src/Pool/Calls.antt =====
-- Any sequence of calls on a pool, its waits and the work of its sessions.
use rclabs_api.Prelude.{
  ℕ, Bool, Option, if◌then◌else◌, true, false, subst, List, [], ◌∷◌, ◌≡◌, refl, inl, inr, arith,
  ltb, leb,
}
use rclabs_api.Pool.Sessions.{Session}
use rclabs_api.Pool.State.{Pool, Constructed, pool, invalid, make}
use rclabs_api.Pool.Requests.{change}
use rclabs_api.Pool.{
  acquire_connection, wake_acquire, release_connection, cleanup_idle_connections, shutdown,
  reset_statistics,
}
use rclabs_api.Pool.Invariant.{Inv}
use rclabs_api.Pool.Kept.{acquire-Inv, wake-Inv}
use rclabs_api.Pool.Returned.{release-Inv, cleanup-Inv, shutdown-Inv}

-- One step: a call, the end of a wait in `acquireConnection`, or what a session does by itself.
pub data Call : Type 0 where
  acquire : ℕ → ℕ → Call
  wake_up : ℕ → Call
  release : Option ℕ → (ℕ → Bool) → ℕ → Call
  cleanup_idle : ℕ → Call
  shut_down reset_counts : Call
  session_step : ℕ → (Session → Session) → Call

pub call : Pool → Call → Pool
unfolding acquire_connection wake_acquire release_connection cleanup_idle_connections shutdown
    reset_statistics
call p (acquire socket now) = (acquire_connection p socket now).0
call p (wake_up now) = (wake_acquire p now).0
call p (release session starts now) = release_connection p session starts now
call p (cleanup_idle now) = (cleanup_idle_connections p now).0
call p shut_down = shutdown p
call p reset_counts = reset_statistics p
call p (session_step i f) = change p i f

pub calls : Pool → List Call → Pool
unfolding call
calls p [] = p
calls p (c ∷ cs) = calls (call p c) cs

call-Inv : (p : Pool) (c : Call) → Inv p → Inv (call p c)
unfolding call
call-Inv p (acquire socket now) v = acquire-Inv p socket now v
call-Inv p (wake_up now) v = wake-Inv p now v
call-Inv p (release session starts now) v = release-Inv p session starts now v
call-Inv p (cleanup_idle now) v = cleanup-Inv p now v
call-Inv p shut_down v = shutdown-Inv p v
call-Inv p reset_counts v = v
call-Inv p (session_step i f) v = v

calls-Inv : (p : Pool) (cs : List Call) → Inv p → Inv (calls p cs)
unfolding calls
calls-Inv p [] v = v
calls-Inv p (c ∷ cs) v = calls-Inv (call p c) cs (call-Inv p c v)

InvOf : Constructed → Type 0
InvOf (pool p) = Inv p
InvOf (invalid e) = e ≡ e

unless-InvOf : (b : Bool) (c d : Constructed) → InvOf c → InvOf d → InvOf (if b then c else d)
unless-InvOf true c d v w = v
unless-InvOf false c d v w = w

make-InvOf :
    (min_count max_count idle_timeout : ℕ) (has_dependencies : Bool) (max_size max_wait : ℕ)
    → InvOf (make min_count max_count idle_timeout has_dependencies max_size max_wait)
unfolding make InvOf
make-InvOf min_count max_count idle_timeout has_dependencies max_size max_wait =
    unless-InvOf (ltb max_count min_count) _ _ refl (
      unless-InvOf (leb idle_timeout 0) _ _ refl (record {
        capacity = omega arith;
        queue = omega arith;
        once = λ i. omega arith;
        known = λ i. inr refl;
        stopped = inl refl;
      }))

-- Whatever calls come on a pool that the constructor made, in whatever order, there are no more
-- sessions than the maximum and no more queued requests than the maximum, no session is held twice,
-- whether active or idle, each session held was created by the pool, and none is held once it is
-- shut down.
pub make-calls-Inv :
    (min_count max_count idle_timeout : ℕ) (has_dependencies : Bool) (max_size max_wait : ℕ)
    (p : Pool) (cs : List Call)
    → make min_count max_count idle_timeout has_dependencies max_size max_wait ≡ pool p
    → Inv (calls p cs)
unfolding InvOf
make-calls-Inv min_count max_count idle_timeout has_dependencies max_size max_wait p cs h =
    calls-Inv p cs (
      subst InvOf h
        (make-InvOf min_count max_count idle_timeout has_dependencies max_size max_wait))
