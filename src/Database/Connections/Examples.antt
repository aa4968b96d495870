-- ===== src/Database/Connections/Examples.antt =====
-- A pool of at most one connection, with one idle.
use rclabs_api.Prelude.{List, ◌≡◌, refl, ℕ, Bool, true, false, [], ◌∷◌, arith}
use rclabs_api.Database.Connections.{
  DatabaseConnectionPool, new_connection_at, acquire_pooled, handed,
}
use rclabs_api.Database.Connections.Lost.{
  PoolCall, acquires, releases, adjusts, pool_calls, acquire_pooled-lost,
}
use rclabs_api.Database.Connections.Entries.{has}

abbrev one_idle : DatabaseConnectionPool
unfolding new_connection_at
one_idle = record {
  config = record {
    max_connections = 1;
    min_connections = 1;
    health_check_interval = 60000;
    enable_health_checks = true;
    max_retries = 3;
  };
  idle_connections = new_connection_at 0 0 ∷ [];
  active_connections = [];
  shutdown = false;
  monitored = true;
  total_connections = 1;
  connections_created = 1;
  connections_destroyed = 0;
  connection_timeouts = 0;
  health_check_failures = 0;
  last_health_check = 0;
  attempts = 1;
}

abbrev reachable : ℕ → Bool
reachable i = true

abbrev valid : ℕ → ℕ → Bool
valid c now = true

-- The connection is released, once and again, and the thread replaces it.
abbrev after_it : List (PoolCall × ℕ)
after_it = (releases 0, 9) ∷ (adjusts, 10) ∷ (acquires, 11) ∷ (releases 0, 12) ∷ []

acquire_pooled-lost_example :
    let (q, o) = acquire_pooled reachable valid one_idle 5 in
    let r = pool_calls reachable valid q after_it in
    (o ≡ handed 0) × (has r.idle_connections 0 ≡ false) × (has r.active_connections 0 ≡ false)
unfolding one_idle
acquire_pooled-lost_example =
    acquire_pooled-lost reachable valid one_idle (new_connection_at 0 0) [] 5 after_it refl refl
      refl refl (omega arith)
