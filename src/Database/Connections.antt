-- ===== src/Database/Connections.antt =====
-- DatabaseConnectionPool of src/database_connection_pool.cpp. A connection is the number of the
-- attempt that opened it. What libpqxx and the server do are parameters: whether an attempt opens a
-- connection that validates, and whether a connection validates at a time. A call is a step, and
-- no other call comes while it opens a connection; a call that waits is the step at which it goes
-- on, which is the timeout if there is nothing to go on for. The wait times are left out.
pub mod Entries
pub mod Gone
pub mod Lost
pub mod Unbounded
mod Examples
use rclabs_api.Prelude.{
  ℕ, zero, suc, ◌+◌, ◌-◌, ◌%◌, ◌^◌, ◌==◌, min, Bool, true, false, not, ◌&&◌, ltb, leb, Option, none,
  some, List, [], ◌∷◌, ◌++◌, length, drop, map, String, if◌then◌else◌,
}

pub record DatabaseConnectionConfig : Type 0 where
  pub max_connections : ℕ
  pub min_connections : ℕ
  pub health_check_interval : ℕ
  pub enable_health_checks : Bool
  pub max_retries : ℕ

pub record PooledConnection : Type 0 where
  pub connection : ℕ
  pub created_time : ℕ
  pub last_used_time : ℕ
  pub is_healthy : Bool

pub record DatabaseConnectionPool : Type 0 where
  pub config : DatabaseConnectionConfig
  pub idle_connections : List PooledConnection
  pub active_connections : List PooledConnection
  pub shutdown : Bool
  pub monitored : Bool
  pub total_connections : ℕ
  pub connections_created : ℕ
  pub connections_destroyed : ℕ
  pub connection_timeouts : ℕ
  pub health_check_failures : ℕ
  pub last_health_check : ℕ
  pub attempts : ℕ

-- What a call of acquireConnection comes to.
pub data Handed : Type 0 where
  handed : ℕ → Handed
  refuses : String → Handed

-- `totalConnections` is a `size_t`, which wraps around.
unfoldable pub minus : ℕ → ℕ → ℕ
minus total n = (total + 2 ^ 64 - n) % 2 ^ 64

unfoldable pub new_connection_at : ℕ → ℕ → PooledConnection
new_connection_at now c = record {
  connection = c;
  created_time = now;
  last_used_time = now;
  is_healthy = true;
}

unfoldable pub destroyed : DatabaseConnectionPool → ℕ → DatabaseConnectionPool
unfolding minus
destroyed p n = record p {
  connections_destroyed = p.connections_destroyed + n;
  total_connections = minus p.total_connections n;
}

unfoldable pub opened_now : DatabaseConnectionPool → ℕ → DatabaseConnectionPool
opened_now p n = record p {
  total_connections = p.total_connections + n;
  connections_created = p.connections_created + n;
}

unfoldable pub entry_of : List PooledConnection → ℕ → Option PooledConnection
entry_of [] c = none
entry_of (x ∷ xs) c = let rest = entry_of xs c in if x.connection == c then some x else rest

-- Without the first one that holds the connection.
unfoldable pub without : List PooledConnection → ℕ → List PooledConnection
without [] c = []
without (x ∷ xs) c = let rest = without xs c in if x.connection == c then xs else x ∷ rest

unfoldable pub younger : ℕ → List PooledConnection → List PooledConnection
younger now [] = []
younger now (x ∷ xs) =
    let rest = younger now xs in if ltb (now - x.created_time) 3600000 then x ∷ rest else rest

unfoldable pub close_all : DatabaseConnectionPool → DatabaseConnectionPool
close_all p = record p {
  shutdown = true;
  monitored = false;
  idle_connections = [];
  active_connections = [];
  total_connections = 0;
}

-- At the end of the wait; the active connections are cleared before they are looked at.
unfoldable pub graceful_shutdown : DatabaseConnectionPool → DatabaseConnectionPool × Bool
unfolding close_all
graceful_shutdown p = let q = close_all p in (q, leb (length q.active_connections) 0)

unfoldable pub check_is_recent : DatabaseConnectionPool → ℕ → Bool
check_is_recent p now =
    ltb (now - p.last_health_check)
      (p.config.health_check_interval + p.config.health_check_interval)

unfoldable pub set_pool_config :
    DatabaseConnectionPool → DatabaseConnectionConfig → DatabaseConnectionPool
set_pool_config p c = record p { config = c }

-- Connections older than an hour are closed.
unfoldable pub cleanup_expired_connections : DatabaseConnectionPool → ℕ → DatabaseConnectionPool
unfolding younger destroyed
cleanup_expired_connections p now =
    let kept = younger now p.idle_connections in
    let q = destroyed p (length p.idle_connections - length kept) in
    record q { idle_connections = kept }

module _ (opens : ℕ → Bool) (validates : ℕ → ℕ → Bool) where
  -- The attempts of `createConnection` from the given number on, and the number of the next.
  unfoldable pub create_connection : ℕ → ℕ → ℕ × Option ℕ
  create_connection zero i = (i, none)
  create_connection (suc retries) i =
      let rest = create_connection retries (suc i) in if opens i then (suc i, some i) else rest

  -- So many connections, or as many as come before the first failure.
  unfoldable pub create_connections : ℕ → ℕ → ℕ → ℕ × List ℕ
  unfolding create_connection
  create_connections zero retries i = (i, [])
  create_connections (suc n) retries i =
      let (j, o) = create_connection retries i in
      let (k, cs) = create_connections n retries j in
      elim o [ none ↦ (j, []) | some c ↦ (k, c ∷ cs) ]

  unfoldable pub hand_new :
      DatabaseConnectionPool → ℕ → ℕ × Option ℕ → DatabaseConnectionPool × Handed
  unfolding opened_now new_connection_at
  hand_new p now (i, none) =
      (record p { attempts = i }, refuses "Failed to create new database connection")
  hand_new p now (i, some c) =
      let q = opened_now (record p { attempts = i }) 1 in
      (
        record q { active_connections = q.active_connections ++ new_connection_at now c ∷ [] },
        handed c,
      )

  -- An idle connection is taken off the queue and becomes no active one.
  unfoldable pub hand_out :
      DatabaseConnectionPool → List PooledConnection → ℕ → DatabaseConnectionPool × Handed
  unfolding create_connection hand_new
  hand_out p (x ∷ xs) now = (record p { idle_connections = xs }, handed x.connection)
  hand_out p [] now =
      if ltb (length p.active_connections) p.config.max_connections
      then hand_new p now (create_connection p.config.max_retries p.attempts)
      else (
        record p { connection_timeouts = suc p.connection_timeouts },
        refuses "Connection pool timeout - no available connections",
      )

  unfoldable pub acquire_pooled : DatabaseConnectionPool → ℕ → DatabaseConnectionPool × Handed
  unfolding hand_out
  acquire_pooled p now =
      if p.shutdown
      then (p, refuses "Connection pool is shutting down - no new connections allowed")
      else hand_out p p.idle_connections now

  unfoldable pub take_back :
      DatabaseConnectionPool → ℕ → ℕ → Option PooledConnection → DatabaseConnectionPool
  unfolding without destroyed
  take_back p c now none = p
  take_back p c now (some x) =
      let q = record p { active_connections = without p.active_connections c } in
      if validates c now
      then record q {
        idle_connections = q.idle_connections ++ record x { last_used_time = now } ∷ [];
      }
      else destroyed q 1

  unfoldable pub release_pooled : DatabaseConnectionPool → ℕ → ℕ → DatabaseConnectionPool
  unfolding entry_of take_back
  release_pooled p c now = take_back p c now (entry_of p.active_connections c)

  unfoldable pub valid_of : ℕ → List PooledConnection → List PooledConnection
  valid_of now [] = []
  valid_of now (x ∷ xs) =
      let rest = valid_of now xs in if validates x.connection now then x ∷ rest else rest

  unfoldable pub marked : ℕ → List PooledConnection → List PooledConnection
  marked now [] = []
  marked now (x ∷ xs) =
      let rest = marked now xs in
      (if validates x.connection now then x else record x { is_healthy = false }) ∷ rest

  -- An active connection that does not validate is counted as destroyed and stays active.
  unfoldable pub check_connections : DatabaseConnectionPool → ℕ → DatabaseConnectionPool
  unfolding valid_of marked destroyed
  check_connections p now =
      let kept = valid_of now p.idle_connections in
      let unhealthy =
        (length p.idle_connections - length kept)
        + (length p.active_connections - length (valid_of now p.active_connections)) in
      let q = destroyed p unhealthy in
      record q {
        idle_connections = kept;
        active_connections = marked now q.active_connections;
        last_health_check = now;
        health_check_failures = q.health_check_failures + unhealthy;
      }

  -- How many connections are opened, and how many closed.
  unfoldable pub missing : DatabaseConnectionPool → ℕ
  missing p = p.config.min_connections - (length p.idle_connections + length p.active_connections)

  unfoldable pub excess : DatabaseConnectionPool → ℕ
  excess p =
      let idle = length p.idle_connections in
      let total = idle + length p.active_connections in
      if ltb total p.config.min_connections
      then 0
      else if ltb p.config.min_connections idle && ltb p.config.min_connections total
      then min (idle - p.config.min_connections) (total - p.config.min_connections)
      else 0

  unfoldable pub with_new : DatabaseConnectionPool → ℕ → ℕ × List ℕ → DatabaseConnectionPool
  unfolding opened_now new_connection_at
  with_new p now (i, cs) =
      let q = opened_now (record p { attempts = i }) (length cs) in
      record q { idle_connections = q.idle_connections ++ map (new_connection_at now) cs }

  -- At most all idle connections are removed.
  unfoldable pub without_excess : DatabaseConnectionPool → ℕ → DatabaseConnectionPool
  unfolding destroyed
  without_excess p n =
      let q = destroyed p (min n (length p.idle_connections)) in
      record q { idle_connections = drop n q.idle_connections }

  unfoldable pub adjust_pool_size : DatabaseConnectionPool → ℕ → DatabaseConnectionPool
  unfolding create_connections missing excess with_new without_excess
  adjust_pool_size p now =
      without_excess
        (with_new p now (create_connections (missing p) p.config.max_retries p.attempts)) (excess p)

  -- A round of the thread that monitors the pool.
  unfoldable pub monitor_round : DatabaseConnectionPool → ℕ → DatabaseConnectionPool
  unfolding check_connections cleanup_expired_connections adjust_pool_size
  monitor_round p now =
      if not p.monitored
      then p
      else adjust_pool_size (cleanup_expired_connections (check_connections p now) now) now
