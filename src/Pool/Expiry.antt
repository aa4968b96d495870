-- ===== src/Pool/Expiry.antt =====
-- The two sweeps of the pool: the queued requests that have waited too long, and the sessions that
-- have been idle too long.
use rclabs_api.Prelude.{
  ℕ, suc, ◌+◌, ◌≡◌, refl, sym, ap, ◌∙◌, Bool, not, List, [], ◌∷◌, ◌++◌, map, arith, leb, length,
  keep_if, keep_if-true, keep_if-false, append_assoc, append-nil, Bool-cases, inl, inr,
}
use rclabs_api.Pool.State.{QueuedRequest, Message, request_timeout, Pool}
use rclabs_api.Pool.Requests.{seconds_since, cleanup_requests, cleanup_expired_queued_requests}

-- A request that has waited `max_wait` whole seconds or more.
abbrev pub waited : ℕ → ℕ → QueuedRequest → Bool
waited max_wait now r = leb max_wait (seconds_since now r.queue_time)

abbrev pub timeout_of : QueuedRequest → ℕ × Message
timeout_of r = (r.socket, request_timeout)

-- The pool with a new queue, and one rejection and one response for each dropped request.
abbrev pub swept : Pool → List QueuedRequest → List QueuedRequest → Pool
swept p kept dropped = record p {
  request_queue = kept;
  rejected_request_count = p.rejected_request_count + length dropped;
  responses = p.responses ++ map timeout_of dropped;
}

abbrev pub gone : ℕ → ℕ → List QueuedRequest → List QueuedRequest
gone max_wait now = keep_if (waited max_wait now)

abbrev pub live : ℕ → ℕ → List QueuedRequest → List QueuedRequest
live max_wait now = keep_if (λ r. not (waited max_wait now r))

cleanup_requests-swept :
    (rs kept : List QueuedRequest) (p : Pool) (now cleaned : ℕ)
    → cleanup_requests p now rs kept cleaned ≡ (
      swept p (kept ++ live p.max_queue_wait_time now rs) (gone p.max_queue_wait_time now rs),
      cleaned + length (gone p.max_queue_wait_time now rs),
    )
unfolding cleanup_requests
cleanup_requests-swept [] kept p now cleaned =
    let a : kept ≡ kept ++ [] = sym (append-nil kept) in
    let b : p.rejected_request_count ≡ p.rejected_request_count + 0 = omega arith in
    let c : p.responses ≡ p.responses ++ [] = sym (append-nil p.responses) in
    let d : cleaned ≡ cleaned + 0 = omega arith in
    λ i. (record p { request_queue = a i; rejected_request_count = b i; responses = c i }, d i)
cleanup_requests-swept (r ∷ rs) kept p now cleaned =
    let wait = p.max_queue_wait_time in
    elim (Bool-cases (waited wait now r)) [
      | inl t ↦
          let kept_so : live wait now (r ∷ rs) ≡ live wait now rs =
            keep_if-false (λ r. not (waited wait now r)) r rs (ap not t) in
          let gone_so : gone wait now (r ∷ rs) ≡ r ∷ gone wait now rs =
            keep_if-true (waited wait now) r rs t in
          let q : Pool = record p {
            rejected_request_count = suc p.rejected_request_count;
            responses = p.responses ++ timeout_of r ∷ [];
          } in
          let step : cleanup_requests p now (r ∷ rs) kept cleaned
              ≡ cleanup_requests q now rs kept (suc cleaned) =
            rw t refl in
          let a = ap (◌++◌ kept) (sym kept_so) in
          let b : suc p.rejected_request_count + length (gone wait now rs)
              ≡ p.rejected_request_count + length (gone wait now (r ∷ rs)) =
            omega (arith, ap length gone_so) in
          let c =
            append_assoc p.responses (timeout_of r ∷ []) (map timeout_of (gone wait now rs))
            ∙ ap (λ l. p.responses ++ map timeout_of l) (sym gone_so) in
          let d : suc cleaned + length (gone wait now rs)
              ≡ cleaned + length (gone wait now (r ∷ rs)) =
            omega (arith, ap length gone_so) in
          step ∙ cleanup_requests-swept rs kept q now (suc cleaned) ∙ λ i.
          (record p { request_queue = a i; rejected_request_count = b i; responses = c i }, d i)
      | inr f ↦
          let kept_so : live wait now (r ∷ rs) ≡ r ∷ live wait now rs =
            keep_if-true (λ r. not (waited wait now r)) r rs (ap not f) in
          let gone_so : gone wait now (r ∷ rs) ≡ gone wait now rs =
            keep_if-false (waited wait now) r rs f in
          let step : cleanup_requests p now (r ∷ rs) kept cleaned
              ≡ cleanup_requests p now rs (kept ++ r ∷ []) cleaned =
            rw f refl in
          let a = append_assoc kept (r ∷ []) (live wait now rs) ∙ ap (◌++◌ kept) (sym kept_so) in
          let g = sym gone_so in
          step ∙ cleanup_requests-swept rs (kept ++ r ∷ []) p now cleaned ∙ λ i.
          (swept p (a i) (g i), cleaned + length (g i))
    ]

-- The sweep of the queue: the requests that have waited less than the limit stay, in order; each
-- other is rejected, counted, and told so by a response in the order of the queue; the result is
-- their number, and nothing else changes.
pub cleanup_expired_queued_requests_lem :
    (p : Pool) (now : ℕ)
    → cleanup_expired_queued_requests p now ≡ (
      swept p
          (live p.max_queue_wait_time now p.request_queue)
          (gone p.max_queue_wait_time now p.request_queue),
      length (gone p.max_queue_wait_time now p.request_queue),
    )
unfolding cleanup_expired_queued_requests
cleanup_expired_queued_requests_lem p now =
    let e : 0 + length (gone p.max_queue_wait_time now p.request_queue)
        ≡ length (gone p.max_queue_wait_time now p.request_queue) =
      omega arith in
    cleanup_requests-swept p.request_queue [] p now 0 ∙ λ i. (
      swept p (live p.max_queue_wait_time now p.request_queue)
          (gone p.max_queue_wait_time now p.request_queue),
      e i,
    )
