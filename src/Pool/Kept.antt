-- ===== src/Pool/Kept.antt =====
-- `acquireConnection` keeps the invariant of the pool, on every branch.
use native.Mathlib.Nat.{le_trans}
use rclabs_api.Prelude.{
  ℕ, suc, ◌+◌, ◌≤◌, ◌<◌, ◌≡◌, refl, inl, Bool, true, false, Option, none, some, List, [], ◌∷◌, ◌++◌,
  arith, length, length-append, leb, ltb, ◌∙◌, ltb→lt, leb→lt, not, length-keep_if-le,
  if◌then◌else◌,
}
use rclabs_api.Pool.State.{QueuedRequest, Pool, Outcome}
use rclabs_api.Pool.Requests.{
  insert, cleanup_expired_queued_requests, send_error_response, expired_request,
}
use rclabs_api.Pool.{
  reuse, created, create_or_queue, acquire_idle, acquire_connection, remove_timed_out, after_wait,
  available, wake_acquire,
}
use rclabs_api.Pool.Expiry.{waited, live, cleanup_expired_queued_requests_lem}
use rclabs_api.Pool.Invariant.{count, Inv, count-insert, length-insert-le}

-- Branches of the code.
if-Inv :
    (b : Bool) (x y : Pool × Outcome)
    → (b ≡ true → Inv x.0)
    → (b ≡ false → Inv y.0)
    → Inv (if b then x else y).0
if-Inv true x y f g = f refl
if-Inv false x y f g = g refl

pub choose-Inv :
    (b : Bool) (p q : Pool) → (b ≡ true → Inv p) → (b ≡ false → Inv q) → Inv (if b then p else q)
choose-Inv true p q f g = f refl
choose-Inv false p q f g = g refl

queued-Inv :
    (p : Pool) (r : QueuedRequest)
    → length p.request_queue < p.max_queue_size
    → Inv p
    → Inv (record p { request_queue = p.request_queue ++ r ∷ [] })
queued-Inv p r h v = record {
  capacity = v.capacity;
  queue = omega (arith, length-append p.request_queue (r ∷ []));
  once = v.once;
  known = v.known;
  stopped = v.stopped;
}

-- A queue that is no longer than before.
pub shorter-Inv :
    (p : Pool) (rs : List QueuedRequest)
    → length rs ≤ p.max_queue_size
    → Inv p
    → Inv (record p { request_queue = rs })
shorter-Inv p rs h v = record {
  capacity = v.capacity;
  queue = h;
  once = v.once;
  known = v.known;
  stopped = v.stopped;
}

pub reuse-Inv :
    (p : Pool) (i : ℕ) (idle : List ℕ) (now : ℕ)
    → p.idle_connections ≡ i ∷ idle
    → Inv p
    → Inv (reuse p i idle now)
unfolding reuse
reuse-Inv p i idle now e v =
    let alone : count i p.active_connections ≡ 0 = ground (arith, v.once i) in
    record {
      capacity = ground (arith, v.capacity, length-insert-le i p.active_connections);
      queue = v.queue;
      once = λ j. ground (arith, v.once j, count-insert j i p.active_connections alone);
      known = λ j. ground (arith, v.known j, count-insert j i p.active_connections alone);
      stopped = ground (arith, v.stopped);
    }

-- A new session takes an identity that the pool has not used.
admit-Inv :
    (p : Pool)
    → length p.active_connections + length p.idle_connections < p.max_connections
    → p.shutdown_requested ≡ false
    → Inv p
    → Inv (record p {
      active_connections = insert p.next_session p.active_connections;
      next_session = suc p.next_session;
    })
admit-Inv p room up v =
    let n = p.next_session in
    let new : count n p.active_connections ≡ 0 = ground (arith, v.known n) in
    record {
      capacity = ground (arith, room, length-insert-le n p.active_connections);
      queue = v.queue;
      once = λ j. ground (arith, v.once j, v.known j, count-insert j n p.active_connections new);
      known = λ j. ground (arith, v.known j, count-insert j n p.active_connections new);
      stopped = inl up;
    }

create_with :
    (b : Bool) (p : Pool) (q : Pool) (socket n : ℕ)
    → Inv (created q socket (some n)).0
    → Inv p
    → let r : Pool × Option ℕ = if b then (q, some n) else (p, none) in
      Inv (created r.0 socket r.1).0
unfolding created send_error_response
create_with true p q socket n a v = a
create_with false p q socket n a v = v

create_or_queue-Inv :
    (p : Pool) (socket now : ℕ)
    → p.shutdown_requested ≡ false
    → Inv p
    → Inv (create_or_queue p socket now).0
unfolding create_or_queue send_error_response
create_or_queue-Inv p socket now up v =
    let total = length p.active_connections + length p.idle_connections in
    if-Inv (ltb total p.max_connections) _ _
      (λ room.
        create_with p.has_dependencies p _ socket p.next_session
          (admit-Inv p (ltb→lt total p.max_connections room) up v) v)
      (λ full.
        if-Inv (leb p.max_queue_size (length p.request_queue)) _ _ (λ crowded. v)
          (λ fits. queued-Inv p (record { socket = socket; queue_time = now }) (leb→lt _ _ fits) v))

acquire_idle-Inv :
    (p : Pool) (idle : List ℕ) (socket now : ℕ)
    → p.idle_connections ≡ idle
    → p.shutdown_requested ≡ false
    → Inv p
    → Inv (acquire_idle p idle socket now).0
unfolding acquire_idle
acquire_idle-Inv p [] socket now e up v = create_or_queue-Inv p socket now up v
acquire_idle-Inv p (i ∷ idle) socket now e up v = reuse-Inv p i idle now e v

-- The sweep leaves all but the queue, and shortens that.
record Swept (p q : Pool) : Type 0 where
  inv : Inv q
  down : q.shutdown_requested ≡ p.shutdown_requested

sweep-Swept : (p : Pool) (now : ℕ) → Inv p → Swept p (cleanup_expired_queued_requests p now).0
sweep-Swept p now v =
    let kept = live p.max_queue_wait_time now p.request_queue in
    let shorter =
      length-keep_if-le (λ r. not (waited p.max_queue_wait_time now r)) p.request_queue in
    rw (cleanup_expired_queued_requests_lem p now)
      (record { inv = shorter-Inv p kept (le_trans shorter v.queue) v; down = refl })

pub acquire-Inv : (p : Pool) (socket now : ℕ) → Inv p → Inv (acquire_connection p socket now).0
unfolding acquire_connection send_error_response
acquire-Inv p socket now v =
    let s = sweep-Swept p now v in
    let q = (cleanup_expired_queued_requests p now).0 in
    if-Inv p.shutdown_requested _ _ (λ down. v)
      (λ up. acquire_idle-Inv q q.idle_connections socket now refl (s.down ∙ up) s.inv)

remove_timed_out-Inv :
    (rs aside : List QueuedRequest) (p : Pool) (now : ℕ)
    → length rs + length aside ≤ p.max_queue_size
    → Inv p
    → Inv (remove_timed_out p now rs aside)
unfolding remove_timed_out send_error_response
remove_timed_out-Inv [] aside p now h v = shorter-Inv p aside (omega arith) v
remove_timed_out-Inv (r ∷ rs) aside p now h v =
    choose-Inv (expired_request p now r) _ _
      (λ found. shorter-Inv p (rs ++ aside) (omega (arith, length-append rs aside)) v)
      (λ more.
        remove_timed_out-Inv rs (aside ++ r ∷ []) p now
          (omega (arith, length-append aside (r ∷ []))) v)

after_wait-Inv :
    (p : Pool) (idle : List ℕ) (now : ℕ)
    → p.idle_connections ≡ idle
    → Inv p
    → Inv (after_wait p idle now).0
unfolding after_wait
after_wait-Inv p [] now e v = v
after_wait-Inv p (i ∷ idle) now e v = reuse-Inv p i idle now e v

pub wake-Inv : (p : Pool) (now : ℕ) → Inv p → Inv (wake_acquire p now).0
unfolding wake_acquire
wake-Inv p now v =
    if-Inv p.shutdown_requested _ _ (λ down. v)
      (λ up.
        if-Inv (available p) _ _ (λ there. after_wait-Inv p p.idle_connections now refl v)
          (λ late. remove_timed_out-Inv p.request_queue [] p now (omega (arith, v.queue)) v))
