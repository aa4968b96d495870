-- ===== src/Pool/Release.antt =====
-- What `processQueuedRequests` leaves, and what becomes of the sockets of new clients.
use rclabs_api.Prelude.{
  ℕ, ◌≡◌, refl, ◌∙◌, Bool, true, false, List, [], ◌∷◌, inl, inr, ◌⊎◌, if◌then◌else◌, ◌==◌,
}
use rclabs_api.Pool.Sessions.{Session, reset, run}
use rclabs_api.Pool.State.{QueuedRequest, Pool, Outcome, acquired}
use rclabs_api.Pool.Requests.{change, expired_request}
use rclabs_api.Pool.{
  acquire_connection, acquire_idle, reuse, drop_request, serve_queued, process_round, process_loop,
  process_queued_requests,
}
use rclabs_api.Pool.Expiry.{live, gone, swept, cleanup_expired_queued_requests_lem}

-- One of the two is used up.
abbrev pub Drained : Pool → Type 0
Drained p = (p.request_queue ≡ []) ⊎ (p.idle_connections ≡ [])

process_round-Drained :
    (idle : List ℕ) (p : Pool) (r : QueuedRequest) (rs : List QueuedRequest) (next : Pool → Pool)
    (starts : ℕ → Bool) (now : ℕ)
    → p.idle_connections ≡ idle
    → ((q : Pool) → Drained (next q))
    → Drained (process_round idle p r rs next starts now)
unfolding process_round
process_round-Drained [] p r rs next starts now e h = inr e
process_round-Drained (i ∷ idle) p r rs next starts now e h = h _

process_loop-Drained :
    (rs : List QueuedRequest) (p : Pool) (starts : ℕ → Bool) (now : ℕ)
    → Drained (process_loop rs p starts now)
unfolding process_loop
process_loop-Drained [] p starts now = inl refl
process_loop-Drained (r ∷ rs) p starts now =
    process_round-Drained p.idle_connections p r rs (λ q. process_loop rs q starts now) starts now
      refl (λ q. process_loop-Drained rs q starts now)

-- After the queued requests have been processed, no request waits while a session is idle.
pub process_queued_requests-Drained :
    (p : Pool) (starts : ℕ → Bool) (now : ℕ) → Drained (process_queued_requests p starts now)
unfolding process_queued_requests
process_queued_requests-Drained p starts now = process_loop-Drained p.request_queue p starts now

-- Every session has the socket that it had.
abbrev pub SameSockets : Pool → Pool → Type 0
SameSockets p q = (j : ℕ) → (q.sessions j).socket ≡ (p.sessions j).socket

either_socket :
    (b : Bool) (s t : Session) → s.socket ≡ t.socket → (if b then s else t).socket ≡ t.socket
either_socket true s t h = h
either_socket false s t h = refl

change-SameSockets :
    (p : Pool) (i : ℕ) (f : Session → Session)
    → ((s : Session) → (f s).socket ≡ s.socket)
    → SameSockets p (change p i f)
change-SameSockets p i f h j = either_socket (j == i) _ _ (h (p.sessions j))

choose-SameSockets :
    (b : Bool) (p q r : Pool)
    → SameSockets p q
    → SameSockets p r
    → SameSockets p (if b then q else r)
choose-SameSockets true p q r v w = v
choose-SameSockets false p q r v w = w

reuse-SameSockets :
    (p : Pool) (i : ℕ) (idle : List ℕ) (now : ℕ) → SameSockets p (reuse p i idle now)
unfolding reuse
reuse-SameSockets p i idle now = change-SameSockets p i (λ s. reset s now) (λ s. refl)

serve_queued-SameSockets :
    (p : Pool) (i : ℕ) (idle : List ℕ) (starts : ℕ → Bool) (now : ℕ)
    → SameSockets p (serve_queued p i idle starts now)
unfolding serve_queued
serve_queued-SameSockets p i idle starts now =
    let q = reuse p i idle now in
    let same : SameSockets p (change q i (λ s. run s now)) = λ j.
      change-SameSockets q i (λ s. run s now) (λ s. refl) j ∙ reuse-SameSockets p i idle now j in
    choose-SameSockets (starts i) p _ _ same same

process_round-SameSockets :
    (idle : List ℕ) (p : Pool) (r : QueuedRequest) (rs : List QueuedRequest) (next : Pool → Pool)
    (starts : ℕ → Bool) (now : ℕ)
    → ((q : Pool) → SameSockets q (next q))
    → SameSockets p (process_round idle p r rs next starts now)
unfolding process_round drop_request
process_round-SameSockets [] p r rs next starts now h j = refl
process_round-SameSockets (i ∷ idle) p r rs next starts now h j =
    h _ j
    ∙ choose-SameSockets (expired_request p now r) p _ _ (λ k. refl)
        (serve_queued-SameSockets p i idle starts now) j

process_loop-SameSockets :
    (rs : List QueuedRequest) (p : Pool) (starts : ℕ → Bool) (now : ℕ)
    → SameSockets p (process_loop rs p starts now)
unfolding process_loop
process_loop-SameSockets [] p starts now j = refl
process_loop-SameSockets (r ∷ rs) p starts now j =
    process_round-SameSockets p.idle_connections p r rs (λ q. process_loop rs q starts now) starts
      now (λ q. process_loop-SameSockets rs q starts now) j

-- While the queued requests are processed, no session gets another socket: a queued request is
-- taken from the queue for a session that goes on with the socket of its old client.
pub process_queued_requests-SameSockets :
    (p : Pool) (starts : ℕ → Bool) (now : ℕ) → SameSockets p (process_queued_requests p starts now)
unfolding process_queued_requests
process_queued_requests-SameSockets p starts now =
    process_loop-SameSockets p.request_queue p starts now

-- Given the idle session `i`, with the sockets as they are.
Reused : Pool → ℕ → Pool × Outcome → Type 0
Reused p i x = (x.1 ≡ acquired i) × SameSockets p x.0

acquire_idle-Reused :
    (xs : List ℕ) (p q : Pool) (i : ℕ) (idle : List ℕ) (socket now : ℕ)
    → xs ≡ i ∷ idle
    → SameSockets p q
    → Reused p i (acquire_idle q xs socket now)
unfolding acquire_idle Reused
acquire_idle-Reused [] p q i idle socket now e h = cc
acquire_idle-Reused (k ∷ ks) p q i idle socket now e h =
    (cc, λ j. reuse-SameSockets q k ks now j ∙ h j)

unless-Reused :
    (b : Bool) (p : Pool) (i : ℕ) (x y : Pool × Outcome)
    → b ≡ false
    → Reused p i y
    → Reused p i (if b then x else y)
unless-Reused true p i x y e h = cc
unless-Reused false p i x y e h = h

-- A call that is given an idle session leaves every session its old socket, so that the socket of
-- the call is dropped.
pub acquire_connection-SameSockets :
    (p : Pool) (i : ℕ) (idle : List ℕ) (socket now : ℕ)
    → p.shutdown_requested ≡ false
    → p.idle_connections ≡ i ∷ idle
    → ((acquire_connection p socket now).1 ≡ acquired i)
      × SameSockets p (acquire_connection p socket now).0
unfolding acquire_connection Reused
acquire_connection-SameSockets p i idle socket now up e =
    let q =
      swept p (live p.max_queue_wait_time now p.request_queue)
        (gone p.max_queue_wait_time now p.request_queue) in
    unless-Reused p.shutdown_requested p i _ _ up (
      rw (cleanup_expired_queued_requests_lem p now)
        (acquire_idle-Reused p.idle_connections p q i idle socket now e (λ j. refl)))
