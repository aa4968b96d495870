-- ===== src/Pool/Acquire.antt =====
-- What `acquireConnection` comes to, and what becomes of the socket that it is given.
use rclabs_api.Prelude.{
  ℕ, ◌+◌, ◌≡◌, refl, Bool, true, false, not, ◌||◌, List, [], ◌∷◌, ltb, leb, length, if◌then◌else◌,
  Option, none, some,
}
use rclabs_api.Pool.State.{
  Pool, Outcome, acquired, throws, waits, is_shutting_down, create_failed, queue_is_full, timed_out,
}
use rclabs_api.Pool.{
  acquire_connection, acquire_idle, create_or_queue, created, create_new_session, wake_acquire,
  wake, available, empty, after_wait,
}
use rclabs_api.Pool.Expiry.{live, cleanup_expired_queued_requests_lem}

-- What is expected of a call, from the flag, the idle sessions and the room that is left.
abbrev pub expected : Bool → List ℕ → Bool → Bool → Bool → ℕ → Outcome
expected true idle room dependencies crowded next = throws is_shutting_down
expected false (i ∷ idle) room dependencies crowded next = acquired i
expected false [] true true fits next = acquired next
expected false [] true false fits next = throws create_failed
expected false [] false dependencies true next = throws queue_is_full
expected false [] false dependencies false next = waits

abbrev pub expected_after_wait : Bool → List ℕ → Outcome
expected_after_wait true idle = throws is_shutting_down
expected_after_wait false (i ∷ idle) = acquired i
expected_after_wait false [] = throws timed_out

-- Whether the queue is full once the requests that waited too long are gone.
abbrev pub crowded_queue : Pool → ℕ → Bool
crowded_queue p now = leb p.max_queue_size (length (live p.max_queue_wait_time now p.request_queue))

abbrev pub has_room : Pool → Bool
has_room p = ltb (length p.active_connections + length p.idle_connections) p.max_connections

if_outcome :
    (b : Bool) (x y : Pool × Outcome) (o : Bool → Outcome)
    → (b ≡ true → x.1 ≡ o true)
    → (b ≡ false → y.1 ≡ o false)
    → (if b then x else y).1 ≡ o b
if_outcome true x y o f g = f refl
if_outcome false x y o f g = g refl

create_outcome :
    (b : Bool) (p q : Pool) (socket n : ℕ) (crowded : Bool)
    → let r : Pool × Option ℕ = if b then (q, some n) else (p, none) in
      (created r.0 socket r.1).1 ≡ expected false [] true b crowded n
unfolding created
create_outcome true p q socket n crowded = refl
create_outcome false p q socket n crowded = refl

create_or_queue_outcome :
    (p : Pool) (socket now : ℕ)
    → (create_or_queue p socket now).1
      ≡ expected false []
          (has_room p)
          p.has_dependencies
          (leb p.max_queue_size (length p.request_queue))
          p.next_session
unfolding create_or_queue create_new_session
create_or_queue_outcome p socket now =
    let crowded = leb p.max_queue_size (length p.request_queue) in
    if_outcome (has_room p) _ _ (λ b. expected false [] b p.has_dependencies crowded p.next_session)
      (λ room. create_outcome p.has_dependencies p _ socket p.next_session crowded)
      (λ full.
        if_outcome crowded _ _ (λ b. expected false [] false p.has_dependencies b p.next_session)
          (λ is_crowded. refl) (λ fits. refl))

acquire_idle_outcome :
    (idle : List ℕ) (p : Pool) (socket now : ℕ)
    → (acquire_idle p idle socket now).1
      ≡ expected false idle
          (has_room p)
          p.has_dependencies
          (leb p.max_queue_size (length p.request_queue))
          p.next_session
unfolding acquire_idle
acquire_idle_outcome [] p socket now = create_or_queue_outcome p socket now
acquire_idle_outcome (i ∷ idle) p socket now = refl

-- A call of `acquireConnection` is refused once the pool is shut down; else it takes the first idle
-- session; else, below the maximum, it takes a new session, or is refused if a dependency is
-- missing; else it waits, or is refused if the queue is full of requests that have not yet waited
-- too long.
pub acquire_connection_outcome :
    (p : Pool) (socket now : ℕ)
    → (acquire_connection p socket now).1
      ≡ expected p.shutdown_requested p.idle_connections
          (has_room p)
          p.has_dependencies
          (crowded_queue p now)
          p.next_session
unfolding acquire_connection
acquire_connection_outcome p socket now =
    if_outcome p.shutdown_requested _ _
      (λ b.
        expected b p.idle_connections (has_room p) p.has_dependencies (crowded_queue p now)
          p.next_session)
      (λ down. refl)
      (λ up.
        rw (cleanup_expired_queued_requests_lem p now)
          (acquire_idle_outcome p.idle_connections _ socket now))

unavailable :
    (idle : List ℕ) (down : Bool) → idle ≡ [] → down ≡ false → ¬ (not (empty idle) || down) ≡ true
unavailable [] true e up h = cc
unavailable [] false e up h = cc
unavailable (i ∷ idle) down e up h = cc

late_outcome :
    (idle : List ℕ) (down : Bool)
    → (not (empty idle) || down) ≡ false
    → throws timed_out ≡ expected_after_wait false idle
late_outcome [] down h = refl
late_outcome (i ∷ idle) down h = cc

after_wait_outcome :
    (idle : List ℕ) (p : Pool) (now : ℕ)
    → available p ≡ true
    → p.idle_connections ≡ idle
    → p.shutdown_requested ≡ false
    → (after_wait p idle now).1 ≡ expected_after_wait false idle
unfolding after_wait available
after_wait_outcome [] p now h e up =
    absurd (unavailable p.idle_connections p.shutdown_requested e up h)
after_wait_outcome (i ∷ idle) p now h e up = refl

-- A waiting call that is woken, or whose wait is over, is refused once the pool is shut down, takes
-- the first idle session if there is one, and times out otherwise: it never fails for want of a
-- session that it was woken for.
pub wake_acquire_outcome :
    (p : Pool) (now : ℕ)
    → (wake_acquire p now).1 ≡ expected_after_wait p.shutdown_requested p.idle_connections
unfolding wake_acquire wake available
wake_acquire_outcome p now =
    if_outcome p.shutdown_requested _ _ (λ b. expected_after_wait b p.idle_connections)
      (λ down. refl)
      (λ up.
        if_outcome (available p) _ _ (λ b. expected_after_wait false p.idle_connections)
          (λ there. after_wait_outcome p.idle_connections p now there refl up)
          (λ late. late_outcome p.idle_connections p.shutdown_requested late))
