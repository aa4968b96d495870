-- ===== src/Database/Connections/Gone.antt =====
-- A connection that the pool of src/database_connection_pool.cpp has in no list, at each call.
use rclabs_api.Prelude.{
  ◌≡◌, refl, ℕ, ◌<◌, ◌==◌, Bool, true, false, ltb, Option, none, some, List, [], ◌∷◌, map, length,
  if◌then◌else◌, arith,
}
use rclabs_api.Database.Connections.{
  PooledConnection, DatabaseConnectionPool, entry_of, new_connection_at, opened_now, destroyed,
  Handed, cleanup_expired_connections, create_connections, take_back, hand_new, hand_out,
  acquire_pooled, release_pooled, check_connections, missing, excess, with_new, without_excess,
  adjust_pool_size,
}
use rclabs_api.Database.Connections.Entries.{
  has, has-append, has-without, has-younger, has-drop, entry_of-other, has-valid_of, has-marked,
  IsNewer, create_connection-IsNewer, create_connections-newer,
}

module _ (opens : ℕ → Bool) (validates : ℕ → ℕ → Bool) where
  -- The pool has a connection that has been opened in neither of its lists.
  abbrev pub IsGone : ℕ → DatabaseConnectionPool → Type 0
  IsGone c p =
      (has p.idle_connections c ≡ false) × (has p.active_connections c ≡ false) × (c < p.attempts)

  pub choose-IsGone :
      (c : ℕ) (b : Bool) (p q : DatabaseConnectionPool)
      → IsGone c p
      → IsGone c q
      → IsGone c (if b then p else q)
  choose-IsGone c true p q h k = h
  choose-IsGone c false p q h k = k

  pub choose_handed-IsGone :
      (c : ℕ) (b : Bool) (x y : DatabaseConnectionPool × Handed)
      → IsGone c x.0
      → IsGone c y.0
      → IsGone c (if b then x else y).0
  choose_handed-IsGone c true x y h k = h
  choose_handed-IsGone c false x y h k = k

  pub hand_new-IsGone :
      (p : DatabaseConnectionPool) (c now : ℕ) (z : ℕ × Option ℕ)
      → IsNewer opens validates p.attempts z
      → IsGone c p
      → IsGone c (hand_new opens validates p now z).0
  unfolding hand_new new_connection_at opened_now
  hand_new-IsGone p c now (i, none) n (idle, active, old) = (idle, active, omega (arith, n, old))
  hand_new-IsGone p c now (i, some k) n (idle, active, old) = (
    idle,
    ground
        (arith, has-append p.active_connections (new_connection_at now k ∷ []) c, active, old, n.0),
    omega (arith, n.1, old),
  )

  pub hand_out-IsGone :
      (p : DatabaseConnectionPool) (xs : List PooledConnection) (c now : ℕ)
      → has xs c ≡ false
      → IsGone c p
      → IsGone c (hand_out opens validates p xs now).0
  unfolding hand_out
  hand_out-IsGone p (x ∷ xs) c now h (idle, active, old) = (ground (arith, h), active, old)
  hand_out-IsGone p [] c now h g =
      choose_handed-IsGone c (ltb (length p.active_connections) p.config.max_connections) _ _
        (hand_new-IsGone p c now _
          (create_connection-IsNewer opens validates p.config.max_retries p.attempts) g)
        g

  pub acquire_pooled-IsGone :
      (p : DatabaseConnectionPool) (c now : ℕ)
      → IsGone c p
      → IsGone c (acquire_pooled opens validates p now).0
  unfolding acquire_pooled
  acquire_pooled-IsGone p c now g =
      choose_handed-IsGone c p.shutdown _ (hand_out opens validates p p.idle_connections now) g
        (hand_out-IsGone p p.idle_connections c now g.0 g)

  pub take_back-IsGone :
      (p : DatabaseConnectionPool) (k c now : ℕ) (o : Option PooledConnection)
      → ((x : PooledConnection) → o ≡ some x → (x.connection == c) ≡ false)
      → IsGone c p
      → IsGone c (take_back opens validates p k now o)
  unfolding take_back destroyed
  take_back-IsGone p k c now none other g = g
  take_back-IsGone p k c now (some x) other (idle, active, old) =
      choose-IsGone c (validates k now) _ _
        (
          ground (
            arith,
            has-append p.idle_connections (record x { last_used_time = now } ∷ []) c,
            idle,
            other x refl,
          ),
          has-without p.active_connections k c active,
          old,
        )
        (idle, has-without p.active_connections k c active, old)

  pub release_pooled-IsGone :
      (p : DatabaseConnectionPool) (k c now : ℕ)
      → IsGone c p
      → IsGone c (release_pooled opens validates p k now)
  unfolding release_pooled
  release_pooled-IsGone p k c now g =
      take_back-IsGone p k c now (entry_of p.active_connections k)
        (λ x e. entry_of-other p.active_connections k c x g.1 e) g

  pub check_connections-IsGone :
      (p : DatabaseConnectionPool) (c now : ℕ)
      → IsGone c p
      → IsGone c (check_connections opens validates p now)
  unfolding check_connections destroyed
  check_connections-IsGone p c now (idle, active, old) = (
    has-valid_of opens validates now p.idle_connections c idle,
    has-marked opens validates now p.active_connections c active,
    old,
  )

  pub cleanup_expired_connections-IsGone :
      (p : DatabaseConnectionPool) (c now : ℕ)
      → IsGone c p
      → IsGone c (cleanup_expired_connections p now)
  unfolding cleanup_expired_connections destroyed
  cleanup_expired_connections-IsGone p c now (idle, active, old) =
      (has-younger now p.idle_connections c idle, active, old)

  pub adjust_pool_size-IsGone :
      (p : DatabaseConnectionPool) (c now : ℕ)
      → IsGone c p
      → IsGone c (adjust_pool_size opens validates p now)
  unfolding adjust_pool_size with_new without_excess opened_now destroyed
  adjust_pool_size-IsGone p c now (idle, active, old) =
      let made =
        create_connections opens validates (missing opens validates p) p.config.max_retries
          p.attempts in
      let newer =
        create_connections-newer opens validates (missing opens validates p) p.config.max_retries
          p.attempts c now old in
      (
        has-drop (excess opens validates p) _ c (
            ground (
              arith,
              has-append p.idle_connections (map (new_connection_at now) made.1) c,
              idle,
              newer.0,
            )),
        active,
        newer.1,
      )
