-- ===== src/Sockets/Table/Capacity.antt =====
-- The limit of the table of src/connection_pool.cpp.
use native.Mathlib.Nat.{le_trans}
use rclabs_api.Prelude.{
  ℕ, zero, suc, ◌≤◌, String, Bool, Option, none, some, List, [], ◌∷◌, length, Dict, length-insert,
  length-erase, length-keep_values, ◌&&◌, arith,
}
use rclabs_api.Sockets.Connection.{Clock, Connection, is_healthy}
use rclabs_api.Sockets.Table.{
  ConnectionPoolConfig, ConnectionPool, start, stop, add_connection, remove_connection,
  remove_inactive_connections, perform_health_check, update_config, without_stale,
  is_connection_stale, cleanup_stale_connections, without_first, force_cleanup,
}

pub data Call : Type 0 where
  starts stops removes_inactive : Call
  adds : Option Connection → Call
  removes : String → Call
  checks_health cleans_up : Clock → Call
  forces : ℕ → Call
  configures : ConnectionPoolConfig → Call

unfoldable pub call : ConnectionPool → Call → ConnectionPool
unfolding start stop remove_inactive_connections add_connection remove_connection
    perform_health_check cleanup_stale_connections force_cleanup update_config
call p starts = start p
call p stops = (stop p).0
call p removes_inactive = remove_inactive_connections p
call p (adds c) = (add_connection p c).0
call p (removes id) = remove_connection p id
call p (checks_health now) = perform_health_check p now
call p (cleans_up now) = cleanup_stale_connections p now
call p (forces n) = force_cleanup p n
call p (configures config) = update_config p config

unfoldable pub calls : ConnectionPool → List Call → ConnectionPool
unfolding call
calls p [] = p
calls p (c ∷ cs) = calls (call p c) cs

-- The limit and the number of entries are at most `n`.
abbrev pub IsWithin : ℕ → ConnectionPool → Type 0
IsWithin n p = (p.config.max_connections ≤ n) × (length p.connections ≤ n)

-- The limit that a call sets, if it sets one.
unfoldable pub limit_of : Call → ℕ
limit_of (configures config) = config.max_connections
limit_of _ = 0

-- No call sets a limit above `n`.
abbrev pub AllowsUpTo : ℕ → List Call → Type 0
AllowsUpTo n [] = Unit
AllowsUpTo n (c ∷ cs) = (limit_of c ≤ n) × AllowsUpTo n cs

length-without_stale :
    (stale : Connection → Bool) (batch : ℕ) (d : Dict Connection)
    → length (without_stale stale batch d) ≤ length d
unfolding without_stale
length-without_stale stale zero d = omega arith
length-without_stale stale (suc batch) [] = omega arith
length-without_stale stale (suc batch) ((id, c) ∷ rest) =
    ground
      (arith, length-without_stale stale batch rest, length-without_stale stale (suc batch) rest)

length-without_first : (n : ℕ) (d : Dict Connection) → length (without_first n d) ≤ length d
unfolding without_first
length-without_first zero d = omega arith
length-without_first (suc n) [] = omega arith
length-without_first (suc n) (_ ∷ rest) = omega (arith, length-without_first n rest)

add_connection-IsWithin :
    (n : ℕ) (p : ConnectionPool) (c : Option Connection)
    → IsWithin n p
    → IsWithin n (add_connection p c).0
unfolding add_connection
add_connection-IsWithin n p none w = w
add_connection-IsWithin n p (some c) (l, m) =
    (ground arith, ground (arith, length-insert c.connection_id c p.connections))

call-IsWithin :
    (n : ℕ) (p : ConnectionPool) (c : Call) → limit_of c ≤ n → IsWithin n p → IsWithin n (call p c)
unfolding call limit_of start stop remove_inactive_connections remove_connection
    perform_health_check cleanup_stale_connections force_cleanup update_config
call-IsWithin n p starts h (l, m) = (ground arith, ground arith)
call-IsWithin n p stops h (l, m) = (ground arith, ground arith)
call-IsWithin n p removes_inactive h (l, m) = (l, le_trans (length-keep_values _ p.connections) m)
call-IsWithin n p (adds c) h w = add_connection-IsWithin n p c w
call-IsWithin n p (removes id) h (l, m) = (l, le_trans (length-erase id p.connections) m)
call-IsWithin n p (checks_health now) h (l, m) = (
  ground arith,
  ground (arith, length-keep_values (λ c. c.is_open && is_healthy c now) p.connections),
)
call-IsWithin n p (cleans_up now) h (l, m) = (
  ground arith,
  ground (
    arith,
    length-without_stale (λ c. is_connection_stale p.config c now) p.config.cleanup_batch_size
        p.connections,
  ),
)
call-IsWithin n p (forces k) h (l, m) = (l, le_trans (length-without_first _ p.connections) m)
call-IsWithin n p (configures config) h (l, m) = (h, m)

-- As long as no call sets a limit above `n`, a table that starts with at most `n` connections and
-- a limit of at most `n` never holds more than `n`.
pub calls-IsWithin :
    (n : ℕ) (cs : List Call) (p : ConnectionPool)
    → AllowsUpTo n cs
    → IsWithin n p
    → IsWithin n (calls p cs)
unfolding calls
calls-IsWithin n [] p a w = w
calls-IsWithin n (c ∷ cs) p (h, a) w = calls-IsWithin n cs (call p c) a (call-IsWithin n p c h w)
