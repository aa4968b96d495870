-- ===== src/Pool/Requests.antt =====
-- What the operations of the pool are made of: the responses that it sends, the set of active
-- sessions, and the removal of the queued requests that have waited too long.
use rclabs_api.Prelude.{
  ℕ, suc, ◌-◌, ◌/◌, ◌^◌, Bool, false, ◌||◌, List, [], ◌∷◌, ◌++◌, leb, ◌==◌, if◌then◌else◌,
}
use rclabs_api.Pool.Sessions.{Session}
use rclabs_api.Pool.State.{QueuedRequest, Message, request_timeout, Pool}

-- `duration_cast<seconds>(now - then)`
abbrev pub seconds_since : ℕ → ℕ → ℕ
seconds_since now before = (now - before) / 10 ^ 9

unfoldable pub send_error_response : Pool → ℕ → Message → Pool
send_error_response p socket message = record p {
  responses = p.responses ++ (socket, message) ∷ [];
}

abbrev pub change : Pool → ℕ → (Session → Session) → Pool
change p i f = record p { sessions = λ j. if j == i then f (p.sessions j) else p.sessions j }

-- `std::set::insert` and `std::set::erase`; the order of the set is by address, and not modelled.
unfoldable pub contains : ℕ → List ℕ → Bool
contains i [] = false
contains i (j ∷ js) = i == j || contains i js

unfoldable pub insert : ℕ → List ℕ → List ℕ
unfolding contains
insert i js = if contains i js then js else i ∷ js

unfoldable pub erase : ℕ → List ℕ → List ℕ
erase i [] = []
erase i (j ∷ js) = if i == j then js else j ∷ erase i js

unfoldable pub expired_request : Pool → ℕ → QueuedRequest → Bool
expired_request p now r = leb p.max_queue_wait_time (seconds_since now r.queue_time)

-- The loop of `cleanupExpiredQueuedRequests` over the requests that are left, with the new queue
-- built so far and the count.
unfoldable pub cleanup_requests : Pool → ℕ → List QueuedRequest → List QueuedRequest → ℕ → Pool × ℕ
unfolding expired_request send_error_response
cleanup_requests p now [] kept cleaned = (record p { request_queue = kept }, cleaned)
cleanup_requests p now (r ∷ rs) kept cleaned =
    let drop_it =
      let q = send_error_response p r.socket request_timeout in
      cleanup_requests (record q { rejected_request_count = suc q.rejected_request_count }) now rs
        kept (suc cleaned) in
    let keep_it = cleanup_requests p now rs (kept ++ r ∷ []) cleaned in
    if expired_request p now r then drop_it else keep_it

unfoldable pub cleanup_expired_queued_requests : Pool → ℕ → Pool × ℕ
unfolding cleanup_requests
cleanup_expired_queued_requests p now = cleanup_requests p now p.request_queue [] 0
