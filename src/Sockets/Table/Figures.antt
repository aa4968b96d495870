-- ===== src/Sockets/Table/Figures.antt =====
-- The figures of the table of src/connection_pool.cpp.
use rclabs_api.Prelude.{
  ◌+◌, ◌≡◌, refl, ◌∙◌, Bool, [], ◌∷◌, length, Dict, count_values, not, ◌||◌, arith,
}
use rclabs_api.Sockets.Connection.{Clock, Connection, is_healthy}
use rclabs_api.Sockets.Table.{
  ConnectionPool, ConnectionPoolStats, ids_of, get_connection_ids, get_unhealthy_connections,
  get_total_connection_count, get_active_connection_count, get_inactive_connection_count, tallied,
  stats_from, update_stats,
}

-- The loop counts every entry once as active or inactive and once as healthy or unhealthy.
record Counts (s : ConnectionPoolStats) (d : Dict Connection) (now : Clock)
    (t : ConnectionPoolStats) : Type 0 where
  total : t.total_connections ≡ s.total_connections
  active : t.active_connections ≡ s.active_connections + count_values (λ c. c.is_open) d
  inactive :
      t.active_connections + t.inactive_connections
      ≡ s.active_connections + s.inactive_connections + length d
  unhealthy :
      t.unhealthy_connections
      ≡ s.unhealthy_connections + length (ids_of (λ c. not c.is_open || not (is_healthy c now)) d)
  healthy :
      t.healthy_connections + t.unhealthy_connections
      ≡ s.healthy_connections + s.unhealthy_connections + length d

stats_from-Counts :
    (s : ConnectionPoolStats) (d : Dict Connection) (now : Clock)
    → Counts s d now (stats_from s d now)
unfolding stats_from tallied ids_of count_values
stats_from-Counts s [] now = record {
  total = refl;
  active = omega arith;
  inactive = omega arith;
  unhealthy = omega arith;
  healthy = omega arith;
}
stats_from-Counts s ((id, c) ∷ rest) now =
    let k = stats_from-Counts (tallied s c now) rest now in
    record {
      total = k.total ∙ tallied-total;
      active = ground (arith, k.active);
      inactive = ground (arith, k.inactive);
      unhealthy = ground (arith, k.unhealthy);
      healthy = ground (arith, k.healthy);
    }
  where
    tallied-total : (tallied s c now).total_connections ≡ s.total_connections
    tallied-total = ground arith

length-ids_of :
    (test : Connection → Bool) (d : Dict Connection) → length (ids_of test d) ≡ count_values test d
unfolding ids_of count_values
length-ids_of test [] = refl
length-ids_of test ((id, c) ∷ rest) = ground (arith, length-ids_of test rest)

-- getStats agrees with the getters: its total is the number of entries, the active ones are as many
-- as getConnectionIds lists, active and inactive ones make up the total, and so do healthy ones and
-- those that getUnhealthyConnections lists.
pub update_stats-agrees :
    (p : ConnectionPool) (now : Clock)
    → ((update_stats p now).total_connections ≡ get_total_connection_count p)
      × ((update_stats p now).active_connections ≡ get_active_connection_count p)
      × ((update_stats p now).active_connections ≡ length (get_connection_ids p))
      × ((update_stats p now).inactive_connections ≡ get_inactive_connection_count p)
      × ((update_stats p now).unhealthy_connections ≡ length (get_unhealthy_connections p now))
      × ((update_stats p now).healthy_connections + length (get_unhealthy_connections p now)
          ≡ get_total_connection_count p)
unfolding update_stats get_total_connection_count get_active_connection_count get_connection_ids
    get_inactive_connection_count get_unhealthy_connections
update_stats-agrees p now =
    let none_yet : ConnectionPoolStats = record {
      total_connections = length p.connections;
      active_connections = 0;
      inactive_connections = 0;
      healthy_connections = 0;
      unhealthy_connections = 0;
    } in
    let k = stats_from-Counts none_yet p.connections now in
    let ids = length-ids_of (λ c. c.is_open) p.connections in
    (
      k.total,
      omega (arith, k.active),
      omega (arith, k.active, ids),
      omega (arith, k.active, k.inactive),
      omega (arith, k.unhealthy),
      omega (arith, k.unhealthy, k.healthy),
    )
