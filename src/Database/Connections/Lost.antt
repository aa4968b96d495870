-- ===== src/Database/Connections/Lost.antt =====
-- What becomes of an idle connection of the pool of src/database_connection_pool.cpp that is handed
-- out.
use rclabs_api.Prelude.{◌≡◌, refl, ℕ, ◌<◌, Bool, false, List, [], ◌∷◌}
use rclabs_api.Database.Connections.{
  DatabaseConnectionConfig, PooledConnection, DatabaseConnectionPool, handed, close_all,
  graceful_shutdown, set_pool_config, cleanup_expired_connections, hand_out, acquire_pooled,
  release_pooled, check_connections, adjust_pool_size,
}
use rclabs_api.Database.Connections.Entries.{has}
use rclabs_api.Database.Connections.Gone.{
  IsGone, acquire_pooled-IsGone, release_pooled-IsGone, check_connections-IsGone,
  cleanup_expired_connections-IsGone, adjust_pool_size-IsGone,
}

-- The calls of the pool, the release of a connection by its number among them, and what the
-- monitoring thread does.
pub data PoolCall : Type 0 where
  acquires : PoolCall
  releases : ℕ → PoolCall
  checks : PoolCall
  expires : PoolCall
  adjusts : PoolCall
  configures : DatabaseConnectionConfig → PoolCall
  closes : PoolCall
  shuts_down : PoolCall

module _ (opens : ℕ → Bool) (validates : ℕ → ℕ → Bool) where
  pool_call : DatabaseConnectionPool → PoolCall → ℕ → DatabaseConnectionPool
  pool_call p acquires now = (acquire_pooled opens validates p now).0
  pool_call p (releases k) now = release_pooled opens validates p k now
  pool_call p checks now = check_connections opens validates p now
  pool_call p expires now = cleanup_expired_connections p now
  pool_call p adjusts now = adjust_pool_size opens validates p now
  pool_call p (configures config) now = set_pool_config p config
  pool_call p closes now = close_all p
  pool_call p shuts_down now = (graceful_shutdown p).0

  unfoldable pub pool_calls : DatabaseConnectionPool → List (PoolCall × ℕ) → DatabaseConnectionPool
  unfolding pool_call
  pool_calls p [] = p
  pool_calls p ((call, now) ∷ calls) = pool_calls (pool_call p call now) calls

  pool_call-IsGone :
      (p : DatabaseConnectionPool) (call : PoolCall) (c now : ℕ)
      → IsGone opens validates c p
      → IsGone opens validates c (pool_call p call now)
  unfolding pool_call close_all graceful_shutdown set_pool_config
  pool_call-IsGone p acquires c now g = acquire_pooled-IsGone opens validates p c now g
  pool_call-IsGone p (releases k) c now g = release_pooled-IsGone opens validates p k c now g
  pool_call-IsGone p checks c now g = check_connections-IsGone opens validates p c now g
  pool_call-IsGone p expires c now g = cleanup_expired_connections-IsGone opens validates p c now g
  pool_call-IsGone p adjusts c now g = adjust_pool_size-IsGone opens validates p c now g
  pool_call-IsGone p (configures config) c now g = g
  pool_call-IsGone p closes c now g = (refl, refl, g.2)
  pool_call-IsGone p shuts_down c now g = (refl, refl, g.2)

  pool_calls-IsGone :
      (calls : List (PoolCall × ℕ)) (p : DatabaseConnectionPool) (c : ℕ)
      → IsGone opens validates c p
      → IsGone opens validates c (pool_calls p calls)
  unfolding pool_calls
  pool_calls-IsGone [] p c g = g
  pool_calls-IsGone ((call, now) ∷ calls) p c g =
      pool_calls-IsGone calls (pool_call p call now) c (pool_call-IsGone p call c now g)

  pub acquire_pooled-idle :
      (p : DatabaseConnectionPool) (x : PooledConnection) (xs : List PooledConnection) (now : ℕ)
      → p.shutdown ≡ false
      → p.idle_connections ≡ x ∷ xs
      → acquire_pooled opens validates p now
        ≡ (record p { idle_connections = xs }, handed x.connection)
  unfolding acquire_pooled hand_out
  acquire_pooled-idle p x xs now not_shut idle = rw (not_shut, idle) refl

  -- A call of acquireConnection on an open pool with idle connections hands out the first of them;
  -- and if the pool has that connection no second time, and numbers new ones above it, then whatever
  -- calls come after this, at whatever times, releases of the connection and rounds of the monitoring
  -- thread among them, the connection is neither idle nor active in the pool again.
  pub acquire_pooled-lost :
      (p : DatabaseConnectionPool) (x : PooledConnection) (xs : List PooledConnection) (now : ℕ)
      (calls : List (PoolCall × ℕ))
      → p.shutdown ≡ false
      → p.idle_connections ≡ x ∷ xs
      → has xs x.connection ≡ false
      → has p.active_connections x.connection ≡ false
      → x.connection < p.attempts
      → let (q, o) = acquire_pooled opens validates p now in
        let r = pool_calls q calls in
        (o ≡ handed x.connection)
        × (has r.idle_connections x.connection ≡ false)
        × (has r.active_connections x.connection ≡ false)
  acquire_pooled-lost p x xs now calls not_shut idle once inactive old =
      let q : DatabaseConnectionPool = record p { idle_connections = xs } in
      let g = pool_calls-IsGone calls q x.connection (once, inactive, old) in
      rw (acquire_pooled-idle p x xs now not_shut idle) (refl, g.0, g.1)
