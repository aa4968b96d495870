-- ===== src/Pool/Returned.antt =====
-- The other operations of the pool keep its invariant: what is released, served from the queue,
-- cleaned up or shut down.
use rclabs_api.Prelude.{
  ℕ, suc, ◌≤◌, ◌≡◌, refl, ◌⊎◌, inl, inr, Bool, true, false, Option, none, some, List, [], ◌∷◌, ◌++◌,
  arith, length, length-append, if◌then◌else◌, ap, subst, append-nil, append_assoc,
}
use rclabs_api.Pool.Sessions.{is_idle}
use rclabs_api.Pool.State.{QueuedRequest, Pool}
use rclabs_api.Pool.Requests.{contains, erase, expired_request}
use rclabs_api.Pool.Kept.{choose-Inv, shorter-Inv, reuse-Inv}
use rclabs_api.Pool.{
  cleanup_sessions, cleanup_idle_connections, should_cleanup_session, shutdown, reuse, serve_queued,
  process_round, process_loop, drop_request, process_queued_requests, release_active,
  release_connection,
}
use rclabs_api.Pool.Invariant.{
  Holds, Inv, count-append, count-erase, length-erase-le, length-erase, contains-count,
}

erased_stays :
    (down : Bool) (i : ℕ) (active idle : List ℕ)
    → (down ≡ false) ⊎ ((active ≡ []) × (idle ≡ []))
    → (down ≡ false) ⊎ ((erase i active ≡ []) × (idle ≡ []))
unfolding erase
erased_stays down i active idle (inl up) = inl up
erased_stays down i active idle (inr (a, b)) = inr (rw a refl, b)

erase-Inv :
    (p : Pool) (i : ℕ)
    → Inv p
    → Inv (record p { active_connections = erase i p.active_connections })
erase-Inv p i v = record {
  capacity = omega (arith, v.capacity, length-erase-le i p.active_connections);
  queue = v.queue;
  once = λ j. ground (arith, v.once j, count-erase j i p.active_connections);
  known = λ j. ground (arith, v.known j, count-erase j i p.active_connections);
  stopped = erased_stays p.shutdown_requested i p.active_connections p.idle_connections v.stopped;
}

serve_queued-Inv :
    (p : Pool) (i : ℕ) (idle : List ℕ) (starts : ℕ → Bool) (now : ℕ)
    → p.idle_connections ≡ i ∷ idle
    → Inv p
    → Inv (serve_queued p i idle starts now)
unfolding serve_queued
serve_queued-Inv p i idle starts now e v =
    let q = reuse p i idle now in
    let w = reuse-Inv p i idle now e v in
    choose-Inv (starts i) _ _ (λ runs. w) (λ fails. erase-Inv q i w)

-- What the rounds keep beside the invariant.
record Within (m : ℕ) (p : Pool) : Type 0 where
  inv : Inv p
  limit : p.max_queue_size ≡ m

choose-Within :
    (m : ℕ) (b : Bool) (p q : Pool) → Within m p → Within m q → Within m (if b then p else q)
choose-Within m true p q v w = v
choose-Within m false p q v w = w

serve_queued-Within :
    (m : ℕ) (p : Pool) (i : ℕ) (idle : List ℕ) (starts : ℕ → Bool) (now : ℕ)
    → p.idle_connections ≡ i ∷ idle
    → Within m p
    → Within m (serve_queued p i idle starts now)
unfolding serve_queued
serve_queued-Within m p i idle starts now e v =
    let q = reuse p i idle now in
    let w = reuse-Inv p i idle now e v.inv in
    choose-Within m (starts i) _ _ (record { inv = w; limit = v.limit })
      (record { inv = erase-Inv q i w; limit = v.limit })

process_round-Inv :
    (idle : List ℕ) (p : Pool) (r : QueuedRequest) (rs : List QueuedRequest) (next : Pool → Pool)
    (starts : ℕ → Bool) (now m : ℕ)
    → ((q : Pool) → Within m q → Inv (next q))
    → suc (length rs) ≤ m
    → p.idle_connections ≡ idle
    → Within m p
    → Inv (process_round idle p r rs next starts now)
unfolding process_round drop_request
process_round-Inv [] p r rs next starts now m keep h e v =
    shorter-Inv p (r ∷ rs) (omega (arith, v.limit)) v.inv
process_round-Inv (i ∷ idle) p r rs next starts now m keep h e v = keep _ (
    choose-Within m (expired_request p now r) _ _ (record { inv = v.inv; limit = v.limit })
      (serve_queued-Within m p i idle starts now e v))

process_loop-Inv :
    (rs : List QueuedRequest) (p : Pool) (starts : ℕ → Bool) (now m : ℕ)
    → length rs ≤ m
    → Within m p
    → Inv (process_loop rs p starts now)
unfolding process_loop
process_loop-Inv [] p starts now m h v = shorter-Inv p [] (omega arith) v.inv
process_loop-Inv (r ∷ rs) p starts now m h v =
    process_round-Inv p.idle_connections p r rs (λ q. process_loop rs q starts now) starts now m
      (λ q w. process_loop-Inv rs q starts now m (omega arith) w) h refl v

process-Inv :
    (p : Pool) (starts : ℕ → Bool) (now : ℕ) → Inv p → Inv (process_queued_requests p starts now)
unfolding process_queued_requests
process-Inv p starts now v =
    process_loop-Inv p.request_queue p starts now p.max_queue_size v.queue
      (record { inv = v; limit = refl })

-- An active session goes to the idle ones.
returned-Inv :
    (p : Pool) (i : ℕ)
    → contains i p.active_connections ≡ true
    → p.shutdown_requested ≡ false
    → Inv p
    → Inv (record p {
      active_connections = erase i p.active_connections;
      idle_connections = p.idle_connections ++ i ∷ [];
    })
returned-Inv p i held_now up v =
    let there = contains-count i p.active_connections held_now in
    record {
      capacity = omega (
        arith,
        v.capacity,
        length-erase i p.active_connections held_now,
        length-append p.idle_connections (i ∷ []),
      );
      queue = v.queue;
      once = λ j. ground (
        arith,
        v.once j,
        count-erase j i p.active_connections,
        count-append j p.idle_connections (i ∷ []),
        there,
      );
      known = λ j. ground (
        arith,
        v.known j,
        count-erase j i p.active_connections,
        count-append j p.idle_connections (i ∷ []),
        there,
      );
      stopped = inl up;
    }

pub release-Inv :
    (p : Pool) (session : Option ℕ) (starts : ℕ → Bool) (now : ℕ)
    → Inv p
    → Inv (release_connection p session starts now)
unfolding release_connection release_active
release-Inv p none starts now v = v
release-Inv p (some i) starts now v =
    choose-Inv p.shutdown_requested _ _ (λ down. erase-Inv p i v)
      (λ up.
        choose-Inv (contains i p.active_connections) _ _
          (λ there.
            choose-Inv (is_idle (p.sessions i)) _ _
              (λ idle. process-Inv _ starts now (returned-Inv p i there up v))
              (λ busy. process-Inv _ starts now (erase-Inv p i v)))
          (λ absent. v))

-- The idle sessions that a sweep has gone through, and those it has before it.
Halves : List ℕ → List ℕ → Pool → Type 0
Halves kept rest p =
    Holds p.max_connections p.max_queue_size p.active_connections (kept ++ rest) p.request_queue
      p.next_session p.shutdown_requested

fewer-Halves :
    (p : Pool) (kept rest : List ℕ) (i : ℕ) → Halves kept (i ∷ rest) p → Halves kept rest p
unfolding Halves
fewer-Halves p kept rest i v = record {
  capacity = omega (arith, v.capacity, length-append kept rest, length-append kept (i ∷ rest));
  queue = v.queue;
  once = λ j. ground (arith, v.once j, count-append j kept rest, count-append j kept (i ∷ rest));
  known = λ j. ground (arith, v.known j, count-append j kept rest, count-append j kept (i ∷ rest));
  stopped = elim (v.stopped) [
    | inl up ↦ inl up
    | inr (a, b) ↦ absurd (omega (arith, ap length b, length-append kept (i ∷ rest)))
  ];
}

regroup-Halves :
    (p : Pool) (kept rest : List ℕ) (i : ℕ)
    → Halves kept (i ∷ rest) p
    → Halves (kept ++ i ∷ []) rest p
unfolding Halves
regroup-Halves p kept rest i v = rw (append_assoc kept (i ∷ []) rest) v

pair-Inv : (b : Bool) (x y : Pool × ℕ) → Inv x.0 → Inv y.0 → Inv (if b then x else y).0
pair-Inv true x y v w = v
pair-Inv false x y v w = w

cleanup_sessions-Inv :
    (rest kept : List ℕ) (p : Pool) (now cleaned : ℕ)
    → Halves kept rest p
    → Inv (cleanup_sessions p now rest kept cleaned).0
unfolding cleanup_sessions Halves
cleanup_sessions-Inv [] kept p now cleaned v =
    subst
      (λ l.
        Holds p.max_connections p.max_queue_size p.active_connections l p.request_queue
          p.next_session p.shutdown_requested)
      (append-nil kept) v
cleanup_sessions-Inv (i ∷ rest) kept p now cleaned v =
    pair-Inv (should_cleanup_session p now i) _ _
      (cleanup_sessions-Inv rest kept _ now (suc cleaned) (fewer-Halves p kept rest i v))
      (cleanup_sessions-Inv rest (kept ++ i ∷ []) p now cleaned (regroup-Halves p kept rest i v))

pub cleanup-Inv : (p : Pool) (now : ℕ) → Inv p → Inv (cleanup_idle_connections p now).0
unfolding cleanup_idle_connections Halves
cleanup-Inv p now v = cleanup_sessions-Inv p.idle_connections [] p now 0 v

pub shutdown-Inv : (p : Pool) → Inv p → Inv (shutdown p)
unfolding shutdown
shutdown-Inv p v =
    choose-Inv p.shutdown_requested _ _ (λ down. v)
      (λ up. record {
        capacity = omega arith;
        queue = v.queue;
        once = λ i. omega arith;
        known = λ i. inr refl;
        stopped = inr (refl, refl);
      })
