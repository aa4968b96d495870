-- ===== src/Pool.antt =====
-- ConnectionPoolManager of src/connection_pool_manager.cpp. Sessions are shared objects: a pool
-- holds their identities, and `sessions` is the store in which they stand. Times are nanoseconds
-- and are the reading of the steady clock that a call makes; timeouts are seconds. What is written
-- to sockets is collected in `responses`. The mutex makes each part of a call between its waits
-- one step; the logs and the performance monitor are left out.
pub mod Sessions
pub mod State
pub mod Requests
pub mod Invariant
pub mod Kept
pub mod Returned
pub mod Calls
pub mod Acquire
pub mod Release
pub mod Expiry
pub mod Idle
mod Examples
use rclabs_api.Prelude.{
  ℕ, suc, ◌+◌, ◌-◌, ◌/◌, ◌^◌, Bool, true, false, not, ◌&&◌, ◌||◌, Option, none, some, List, [], ◌∷◌,
  ◌++◌, ltb, leb, ◌==◌, if◌then◌else◌, length,
}
use Sessions.{
  Session, open_session, reset, run, handle_connection_timeout, is_idle, update_last_activity,
  set_idle,
}
use State.{
  QueuedRequest, Message, shutting_down, session_failed, queue_full, request_timeout,
  no_connections, Pool, Error, is_shutting_down, create_failed, queue_is_full, timed_out,
  none_after_wait, Outcome, acquired, throws, waits,
}
use Requests.{
  seconds_since, send_error_response, change, contains, insert, erase, expired_request,
  cleanup_expired_queued_requests,
}

-- `createNewSession`: the new session's identity, and none if a dependency is null.
create_new_session : Pool → ℕ → ℕ → Pool × Option ℕ
unfolding open_session
create_new_session p socket now =
    if p.has_dependencies
    then (
      record (change p p.next_session (λ _. open_session socket now)) {
        total_connections_created = suc p.total_connections_created;
        next_session = suc p.next_session;
      },
      some p.next_session,
    )
    else (p, none)

-- Take the idle session `i` off the queue, whose rest is `idle`, and make it active.
pub reuse : Pool → ℕ → List ℕ → ℕ → Pool
unfolding insert reset
reuse p i idle now = record (change p i (λ s. reset s now)) {
  idle_connections = idle;
  active_connections = insert i p.active_connections;
  connection_reuse_count = suc p.connection_reuse_count;
}

created : Pool → ℕ → Option ℕ → Pool × Outcome
unfolding insert send_error_response
created p socket (some i) =
    (record p { active_connections = insert i p.active_connections }, acquired i)
created p socket none =
    let q = send_error_response p socket session_failed in
    (record q { rejected_request_count = suc q.rejected_request_count }, throws create_failed)

-- Room for a new session, room in the queue, or neither.
create_or_queue : Pool → ℕ → ℕ → Pool × Outcome
unfolding create_new_session created send_error_response
create_or_queue p socket now =
    if ltb (length p.active_connections + length p.idle_connections) p.max_connections
    then (let (q, i) = create_new_session p socket now in created q socket i)
    else if leb p.max_queue_size (length p.request_queue)
    then (let q = send_error_response p socket queue_full in
        (record q { rejected_request_count = suc q.rejected_request_count }, throws queue_is_full))
    else (
      record p {
        request_queue = p.request_queue ++ record { socket = socket; queue_time = now } ∷ [];
      },
      waits,
    )

acquire_idle : Pool → List ℕ → ℕ → ℕ → Pool × Outcome
unfolding reuse create_or_queue
acquire_idle p (i ∷ idle) socket now = (reuse p i idle now, acquired i)
acquire_idle p [] socket now = create_or_queue p socket now

-- `acquireConnection` up to its wait.
pub acquire_connection : Pool → ℕ → ℕ → Pool × Outcome
unfolding cleanup_expired_queued_requests acquire_idle send_error_response
acquire_connection p socket now =
    if p.shutdown_requested
    then (send_error_response p socket shutting_down, throws is_shutting_down)
    else (let (q, _) = cleanup_expired_queued_requests p now in
        acquire_idle q q.idle_connections socket now)

-- The search for the request that timed out: those before it are put aside, and come back behind
-- the others.
remove_timed_out : Pool → ℕ → List QueuedRequest → List QueuedRequest → Pool
unfolding expired_request send_error_response
remove_timed_out p now [] aside = record p { request_queue = aside }
remove_timed_out p now (r ∷ rs) aside =
    let more = remove_timed_out p now rs (aside ++ r ∷ []) in
    if expired_request p now r
    then record (send_error_response p r.socket request_timeout) { request_queue = rs ++ aside }
    else more

after_wait : Pool → List ℕ → ℕ → Pool × Outcome
unfolding reuse
after_wait p (i ∷ idle) now = (reuse p i idle now, acquired i)
after_wait p [] now =
    (record p { rejected_request_count = suc p.rejected_request_count }, throws none_after_wait)

abbrev empty : List ℕ → Bool
empty [] = true
empty (i ∷ rest) = false

-- The predicate of the wait.
pub available : Pool → Bool
available p = not (empty p.idle_connections) || p.shutdown_requested

-- The rest of `acquireConnection`, once the wait has ended with `wait_result`, which `wait_for`
-- takes from its predicate. The socket was moved into the queue, so the last response goes nowhere.
wake : Pool → Bool → ℕ → Pool × Outcome
unfolding remove_timed_out after_wait
wake p wait_result now =
    if p.shutdown_requested
    then (p, throws is_shutting_down)
    else if wait_result
    then after_wait p p.idle_connections now
    else (let q = remove_timed_out p now p.request_queue [] in
        (record q { rejected_request_count = suc q.rejected_request_count }, throws timed_out))

pub wake_acquire : Pool → ℕ → Pool × Outcome
unfolding wake available
wake_acquire p now = wake p (available p) now

drop_request : Pool → QueuedRequest → Pool
unfolding send_error_response
drop_request p r =
    let q = send_error_response p r.socket request_timeout in
    record q { rejected_request_count = suc q.rejected_request_count }

-- The queued socket is dropped, and the session runs on the socket that it has. `starts i` says
-- whether `run` of the session returns without an exception.
serve_queued : Pool → ℕ → List ℕ → (ℕ → Bool) → ℕ → Pool
unfolding reuse run erase
serve_queued p i idle starts now =
    let q = change (reuse p i idle now) i (λ s. run s now) in
    if starts i then q else record q { active_connections = erase i q.active_connections }

-- One round of `processQueuedRequests`, for the request `r` before `rs` and the idle queue; `next`
-- goes on with the rest.
process_round :
    List ℕ → Pool → QueuedRequest → List QueuedRequest → (Pool → Pool) → (ℕ → Bool) → ℕ → Pool
unfolding drop_request serve_queued expired_request
process_round [] p r rs next starts now = record p { request_queue = r ∷ rs }
process_round (i ∷ idle) p r rs next starts now =
    next (if expired_request p now r then drop_request p r else serve_queued p i idle starts now)

-- The loop over the requests that are left.
process_loop : List QueuedRequest → Pool → (ℕ → Bool) → ℕ → Pool
unfolding process_round
process_loop [] p starts now = record p { request_queue = [] }
process_loop (r ∷ rs) p starts now =
    process_round p.idle_connections p r rs (λ q. process_loop rs q starts now) starts now

pub process_queued_requests : Pool → (ℕ → Bool) → ℕ → Pool
unfolding process_loop
process_queued_requests p starts now = process_loop p.request_queue p starts now

release_active : Pool → ℕ → (ℕ → Bool) → ℕ → Pool
unfolding process_queued_requests erase is_idle set_idle update_last_activity
release_active p i starts now =
    let q = record p { active_connections = erase i p.active_connections } in
    let kept = change q i (λ s. update_last_activity (set_idle s true now) now) in
    if is_idle (p.sessions i)
    then process_queued_requests
        (record kept { idle_connections = kept.idle_connections ++ i ∷ [] }) starts now
    else process_queued_requests q starts now

-- `releaseConnection`; a null pointer is `none`.
pub release_connection : Pool → Option ℕ → (ℕ → Bool) → ℕ → Pool
unfolding release_active contains
release_connection p none starts now = p
release_connection p (some i) starts now =
    if p.shutdown_requested
    then record p { active_connections = erase i p.active_connections }
    else if contains i p.active_connections
    then release_active p i starts now
    else p

pub should_cleanup_session : Pool → ℕ → ℕ → Bool
should_cleanup_session p now i = leb p.idle_timeout (seconds_since now (p.sessions i).last_activity)

-- The loop of `cleanupIdleConnections` over the sessions that are left.
pub cleanup_sessions : Pool → ℕ → List ℕ → List ℕ → ℕ → Pool × ℕ
unfolding should_cleanup_session handle_connection_timeout
cleanup_sessions p now [] kept cleaned = (record p { idle_connections = kept }, cleaned)
cleanup_sessions p now (i ∷ is) kept cleaned =
    let close_it =
      cleanup_sessions (change p i handle_connection_timeout) now is kept (suc cleaned) in
    let keep_it = cleanup_sessions p now is (kept ++ i ∷ []) cleaned in
    if should_cleanup_session p now i then close_it else keep_it

pub cleanup_idle_connections : Pool → ℕ → Pool × ℕ
unfolding cleanup_sessions
cleanup_idle_connections p now = cleanup_sessions p now p.idle_connections [] 0

pub shutdown : Pool → Pool
shutdown p =
    if p.shutdown_requested
    then p
    else record p { shutdown_requested = true; idle_connections = []; active_connections = [] }

pub reset_statistics : Pool → Pool
reset_statistics p = record p {
  connection_reuse_count = 0;
  total_connections_created = 0;
  rejected_request_count = 0;
}

pub get_total_connections : Pool → ℕ
get_total_connections p = length p.active_connections + length p.idle_connections

pub is_at_max_capacity : Pool → Bool
is_at_max_capacity p =
    leb p.max_connections (length p.active_connections + length p.idle_connections)
