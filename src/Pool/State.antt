-- ===== src/Pool/State.antt =====
-- The state of ConnectionPoolManager (include/connection_pool_manager.hpp) and its constructor.
use rclabs_api.Prelude.{ℕ, Bool, false, List, [], ltb, leb, if◌then◌else◌}
use rclabs_api.Pool.Sessions.{Session, open_session}

pub record QueuedRequest : Type 0 where
  pub socket : ℕ
  pub queue_time : ℕ

pub data Message : Type 0 where
  shutting_down session_failed queue_full request_timeout no_connections : Message

-- `handler_` and `wsManager_` are one flag: whether both are there.
pub record Pool : Type 0 where
  pub min_connections : ℕ
  pub max_connections : ℕ
  pub idle_timeout : ℕ
  pub max_queue_size : ℕ
  pub max_queue_wait_time : ℕ
  pub has_dependencies : Bool
  pub idle_connections : List ℕ
  pub active_connections : List ℕ
  pub request_queue : List QueuedRequest
  pub shutdown_requested : Bool
  pub connection_reuse_count : ℕ
  pub total_connections_created : ℕ
  pub rejected_request_count : ℕ
  pub sessions : ℕ → Session
  pub next_session : ℕ
  pub responses : List (ℕ × Message)

pub data Error : Type 0 where
  is_shutting_down create_failed queue_is_full timed_out none_after_wait : Error

-- What a call of `acquireConnection` comes to, or that it waits on the condition variable.
pub data Outcome : Type 0 where
  acquired : ℕ → Outcome
  throws : Error → Outcome
  waits : Outcome

pub data ConstructorError : Type 0 where
  min_above_max idle_timeout_not_positive : ConstructorError

pub data Constructed : Type 0 where
  pool : Pool → Constructed
  invalid : ConstructorError → Constructed

unfoldable pub make : ℕ → ℕ → ℕ → Bool → ℕ → ℕ → Constructed
unfolding open_session
make min_count max_count idle_timeout has_dependencies max_size max_wait =
    if ltb max_count min_count
    then invalid min_above_max
    else if leb idle_timeout 0
    then invalid idle_timeout_not_positive
    else pool (record {
      min_connections = min_count;
      max_connections = max_count;
      idle_timeout = idle_timeout;
      max_queue_size = max_size;
      max_queue_wait_time = max_wait;
      has_dependencies = has_dependencies;
      idle_connections = [];
      active_connections = [];
      request_queue = [];
      shutdown_requested = false;
      connection_reuse_count = 0;
      total_connections_created = 0;
      rejected_request_count = 0;
      sessions = λ i. open_session 0 0;
      next_session = 0;
      responses = [];
    })
