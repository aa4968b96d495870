-- ===== src/Database/Connections/Unbounded.antt =====
-- How many connections the pool of src/database_connection_pool.cpp hands out.
use rclabs_api.Prelude.{◌≡◌, ℕ, suc, ◌≤◌, Bool, true, false, List, [], ◌∷◌, length}
use rclabs_api.Database.Connections.{
  DatabaseConnectionPool, Handed, handed, refuses, acquire_pooled, monitor_round,
}

module _ (opens : ℕ → Bool) (validates : ℕ → ℕ → Bool) where
  -- A pool that is open and monitored, keeps at least one connection idle and has no active one.
  abbrev pub IsReady : DatabaseConnectionPool → Type 0
  IsReady p =
      (p.shutdown ≡ false)
      × (p.monitored ≡ true)
      × (p.active_connections ≡ [])
      × (1 ≤ p.config.min_connections)
      × (1 ≤ p.config.max_retries)
      × (p.config.min_connections ≤ length p.idle_connections)

  abbrev pub count : Handed → ℕ → ℕ
  count (handed c) n = suc n
  count (refuses text) n = n

  -- So many clients, after each of which the monitoring thread makes a round: the pool at the end,
  -- and the number of connections that were handed out.
  unfoldable pub clients : DatabaseConnectionPool → List ℕ → DatabaseConnectionPool × ℕ
  clients p [] = (p, 0)
  clients p (now ∷ nows) =
      let (q, o) = acquire_pooled opens validates p now in
      let (r, n) = clients (monitor_round opens validates q now) nows in (r, count o n)
