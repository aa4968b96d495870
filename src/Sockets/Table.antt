-- ===== src/Sockets/Table.antt =====
-- ConnectionPool of src/connection_pool.cpp: the table of the WebSocket connections. Nothing puts a
-- null pointer into it, so its entries are connections. A connection that leaves the table may live
-- on in the handlers that hold it. Waits for the mutex always succeed here, and the timers, which
-- the program never creates, are not modelled.
pub mod Capacity
pub mod Figures
use rclabs_api.Prelude.{
  ℕ, zero, suc, ◌+◌, ◌-◌, ◌*◌, ◌^◌, String, Bool, true, false, not, ◌&&◌, ◌||◌, ltb, leb, Option,
  none, some, List, [], ◌∷◌, length, Dict, lookup, insert, erase, keep_values, count_values, values,
  if◌then◌else◌,
}
use rclabs_api.Errors.{ErrorCode, invalid_connection, pool_not_running, pool_capacity_exceeded}
use rclabs_api.Sockets.Connection.{Clock, Connection, is_healthy}

pub record ConnectionPoolConfig : Type 0 where
  pub max_connections : ℕ
  pub connection_timeout : ℕ
  pub health_check_interval : ℕ
  pub enable_health_monitoring : Bool
  pub enable_connection_cleanup : Bool
  pub cleanup_batch_size : ℕ

abbrev pub default_pool_config : ConnectionPoolConfig
default_pool_config = record {
  max_connections = 1000;
  connection_timeout = 30;
  health_check_interval = 60;
  enable_health_monitoring = true;
  enable_connection_cleanup = true;
  cleanup_batch_size = 10;
}

pub record ConnectionPool : Type 0 where
  pub config : ConnectionPoolConfig
  pub connections : Dict Connection
  pub running : Bool
  pub health_monitoring_active : Bool

pub record ConnectionPoolStats : Type 0 where
  pub total_connections : ℕ
  pub active_connections : ℕ
  pub inactive_connections : ℕ
  pub healthy_connections : ℕ
  pub unhealthy_connections : ℕ

unfoldable pub new_pool : ConnectionPoolConfig → ConnectionPool
new_pool config = record {
  config = config;
  connections = [];
  running = false;
  health_monitoring_active = false;
}

start_health_monitoring : ConnectionPool → ConnectionPool
start_health_monitoring p =
    if not p.config.enable_health_monitoring || p.health_monitoring_active
    then p
    else record p { health_monitoring_active = true }

unfoldable pub start : ConnectionPool → ConnectionPool
unfolding start_health_monitoring
start p =
    if p.running
    then p
    else let started = record p { running = true } in
      if p.config.enable_health_monitoring then start_health_monitoring started else started

-- The pool, and the connections that are told to close.
unfoldable pub stop : ConnectionPool → ConnectionPool × List Connection
stop p = if not p.running then (p, []) else (
  record p { running = false; health_monitoring_active = false; connections = [] },
  values (keep_values (λ c. c.is_open) p.connections),
)

-- The pool, and the code of the exception that is thrown.
unfoldable pub add_connection :
    ConnectionPool → Option Connection → ConnectionPool × Option ErrorCode
unfolding insert
add_connection p none = (p, some invalid_connection)
add_connection p (some c) =
    if not p.running
    then (p, some pool_not_running)
    else if leb p.config.max_connections (length p.connections)
    then (p, some pool_capacity_exceeded)
    else (record p { connections = insert c.connection_id c p.connections }, none)

unfoldable pub remove_connection : ConnectionPool → String → ConnectionPool
unfolding erase
remove_connection p id = record p { connections = erase id p.connections }

unfoldable pub get_connection : ConnectionPool → String → Option Connection
get_connection p id = lookup id p.connections

abbrev is_some {ℓ} : {A : Type ℓ} → Option A → Bool
is_some none = false
is_some (some _) = true

pub has_connection : ConnectionPool → String → Bool
has_connection p id = is_some (lookup id p.connections)

unfoldable pub get_active_connections : ConnectionPool → List Connection
get_active_connections p = values (keep_values (λ c. c.is_open) p.connections)

unfoldable pub ids_of : (Connection → Bool) → Dict Connection → List String
ids_of test [] = []
ids_of test ((id, c) ∷ rest) = let more = ids_of test rest in if test c then id ∷ more else more

unfoldable pub get_connection_ids : ConnectionPool → List String
unfolding ids_of
get_connection_ids p = ids_of (λ c. c.is_open) p.connections

unfoldable pub remove_inactive_connections : ConnectionPool → ConnectionPool
remove_inactive_connections p = record p {
  connections = keep_values (λ c. c.is_open) p.connections;
}

unfoldable pub perform_health_check : ConnectionPool → Clock → ConnectionPool
perform_health_check p now =
    if not p.running
    then p
    else record p { connections = keep_values (λ c. c.is_open && is_healthy c now) p.connections }

abbrev healthy_in : Clock → Option Connection → Bool
healthy_in now none = false
healthy_in now (some c) = c.is_open && is_healthy c now

pub is_connection_healthy : ConnectionPool → String → Clock → Bool
is_connection_healthy p id now = healthy_in now (get_connection p id)

unfoldable pub get_unhealthy_connections : ConnectionPool → Clock → List String
unfolding ids_of
get_unhealthy_connections p now =
    ids_of (λ c. not c.is_open || not (is_healthy c now)) p.connections

unfoldable pub get_connections_by_filter : ConnectionPool → (Connection → Bool) → List Connection
get_connections_by_filter p test = values (keep_values test p.connections)

unfoldable pub get_connection_ids_by_filter : ConnectionPool → (Connection → Bool) → List String
unfolding ids_of
get_connection_ids_by_filter p test = ids_of test p.connections

unfoldable pub get_total_connection_count : ConnectionPool → ℕ
get_total_connection_count p = length p.connections

unfoldable pub get_active_connection_count : ConnectionPool → ℕ
get_active_connection_count p = count_values (λ c. c.is_open) p.connections

unfoldable pub get_inactive_connection_count : ConnectionPool → ℕ
get_inactive_connection_count p = length p.connections - count_values (λ c. c.is_open) p.connections

tallied : ConnectionPoolStats → Connection → Clock → ConnectionPoolStats
tallied s c now =
    if c.is_open
    then (if is_healthy c now
        then record s {
          active_connections = suc s.active_connections;
          healthy_connections = suc s.healthy_connections;
        }
        else record s {
          active_connections = suc s.active_connections;
          unhealthy_connections = suc s.unhealthy_connections;
        })
    else record s {
      inactive_connections = suc s.inactive_connections;
      unhealthy_connections = suc s.unhealthy_connections;
    }

stats_from : ConnectionPoolStats → Dict Connection → Clock → ConnectionPoolStats
unfolding tallied
stats_from s [] now = s
stats_from s ((id, c) ∷ rest) now = stats_from (tallied s c now) rest now

-- `getStats`, without the times.
unfoldable pub update_stats : ConnectionPool → Clock → ConnectionPoolStats
unfolding stats_from
update_stats p now =
    stats_from
      (record {
        total_connections = length p.connections;
        active_connections = 0;
        inactive_connections = 0;
        healthy_connections = 0;
        unhealthy_connections = 0;
      })
      p.connections now

unfoldable pub update_config : ConnectionPool → ConnectionPoolConfig → ConnectionPool
update_config p config = record p { config = config }

-- `timeSinceHeartbeat > connectionTimeout`
is_connection_stale : ConnectionPoolConfig → Connection → Clock → Bool
is_connection_stale config c now =
    if not c.is_open
    then true
    else ltb (c.last_heartbeat + config.connection_timeout * 10 ^ 9) now.system

-- At most `batch` more entries are removed.
without_stale : (Connection → Bool) → ℕ → Dict Connection → Dict Connection
without_stale stale zero d = d
without_stale stale (suc batch) [] = []
without_stale stale (suc batch) ((id, c) ∷ rest) =
    let removed = without_stale stale batch rest in
    let kept = without_stale stale (suc batch) rest in if stale c then removed else (id, c) ∷ kept

unfoldable pub cleanup_stale_connections : ConnectionPool → Clock → ConnectionPool
unfolding without_stale is_connection_stale
cleanup_stale_connections p now = if not p.running then p else record p {
  connections =
      without_stale (λ c. is_connection_stale p.config c now) p.config.cleanup_batch_size
        p.connections;
}

-- `drop` of the entries that come first.
without_first : ℕ → Dict Connection → Dict Connection
without_first zero d = d
without_first (suc n) [] = []
without_first (suc n) (_ ∷ rest) = without_first n rest

unfoldable pub force_cleanup : ConnectionPool → ℕ → ConnectionPool
unfolding without_first
force_cleanup p max_to_remove =
    let target = if ltb 0 max_to_remove then max_to_remove else length p.connections in
    record p { connections = without_first target p.connections }
