-- ===== src/Pool/Examples.antt =====
-- Pools on concrete inputs.
use rclabs_api.Prelude.{ℕ, ◌*◌, ◌^◌, ◌≡◌, refl, true, false, some, List, [], ◌∷◌}
use rclabs_api.Pool.Sessions.{Session, open_session, set_idle}
use rclabs_api.Pool.State.{Pool, acquired, pool, make}
use rclabs_api.Pool.{acquire_connection}
use rclabs_api.Pool.Invariant.{Inv}
use rclabs_api.Pool.Acquire.{acquire_connection_outcome}
use rclabs_api.Pool.Calls.{
  Call, acquire, wake_up, release, cleanup_idle, shut_down, session_step, calls, make-calls-Inv,
}

abbrev seconds : ℕ → ℕ
seconds n = n * 10 ^ 9

abbrev session_at : ℕ → Session
session_at n = record {
  socket = n;
  idle_flag = true;
  processing_request = false;
  last_activity = seconds n;
}

-- A pool of three idle sessions at most, the first and second of them there, and a request.
abbrev some_pool : Pool
some_pool = record {
  min_connections = 0;
  max_connections = 3;
  idle_timeout = 5;
  max_queue_size = 2;
  max_queue_wait_time = 30;
  has_dependencies = true;
  idle_connections = 1 ∷ 2 ∷ [];
  active_connections = 0 ∷ [];
  request_queue = record { socket = 70; queue_time = seconds 3 } ∷ [];
  shutdown_requested = false;
  connection_reuse_count = 0;
  total_connections_created = 3;
  rejected_request_count = 0;
  sessions = session_at;
  next_session = 3;
  responses = [];
}

abbrev new_pool : Pool
new_pool = record {
  min_connections = 0;
  max_connections = 1;
  idle_timeout = 5;
  max_queue_size = 2;
  max_queue_wait_time = 30;
  has_dependencies = true;
  idle_connections = [];
  active_connections = [];
  request_queue = [];
  shutdown_requested = false;
  connection_reuse_count = 0;
  total_connections_created = 0;
  rejected_request_count = 0;
  sessions = λ i. open_session 0 0;
  next_session = 0;
  responses = [];
}

-- A client is served, two wait, the session is released to the first of them, and the second
-- times out.
abbrev some_calls : List Call
some_calls =
    acquire 70 (seconds 1)
    ∷ acquire 71 (seconds 2)
    ∷ acquire 72 (seconds 3)
    ∷ session_step 0 (λ s. set_idle s true (seconds 4))
    ∷ release (some 0) (λ i. true) (seconds 4)
    ∷ wake_up (seconds 33)
    ∷ cleanup_idle (seconds 40)
    ∷ shut_down
    ∷ []

new_pool-make : make 0 1 5 true 2 30 ≡ pool new_pool
unfolding make open_session
new_pool-make = refl

make-calls-Inv_example : Inv (calls new_pool some_calls)
make-calls-Inv_example = make-calls-Inv 0 1 5 true 2 30 new_pool some_calls new_pool-make

acquire_connection_outcome_example : (acquire_connection some_pool 71 (seconds 9)).1 ≡ acquired 1
acquire_connection_outcome_example = acquire_connection_outcome some_pool 71 (seconds 9)
